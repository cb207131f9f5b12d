-- ===== src/Drop/Quota/Ledger.antt =====
-- What the counters of a quota say after any history of calls.
use tantu.Prelude.{
  ℕ, ◌≡◌, refl, ◌∙◌, inl, inr, true, false, not, none, some, List, [], ◌∷◌, arith, get_elem?, ℤ,
  pos, negsuc, pos_part, is_positive, set_same, ◌||◌, Option-cases, Bool-cases, if_cases, All, ◌&&◌,
  Bool, subst,
}
use tantu.Text.{Text}
use tantu.Text.Assoc.{lookup}
use tantu.Drop.Quota.{
  TransferQuotaConfig, TransferLease, usage_of, acquire, acquire_sized, acquire_check,
  reservation_for, add_bytes, grow, grow_check, release, normalize_quota_peer,
}
use tantu.Drop.Quota.History.{
  Ledger, Call, acquires, adds, releases, after_acquire, after_grow, after_release, step, run,
  start, grows_live, is_ordered, count_live, bytes_live, total, of_peer, IsBalanced,
}
use tantu.Drop.Quota.Balance.{
  start-IsBalanced, reserve_keeps, swapped, grown_quota, grow_keeps, release_keeps,
}

-- What an Acquire that is refused leaves.
refused-IsBalanced :
    (s : Ledger) (b : Bool)
    → IsBalanced s
    → IsBalanced (record { quota = record s.quota { initialized = b }; leases = s.leases })
unfolding usage_of
refused-IsBalanced s b v = record {
  transfers_total = v.transfers_total;
  bytes_total = v.bytes_total;
  peer_total = v.peer_total;
  no_leak = v.no_leak;
}

acquire-IsBalanced :
    (s : Ledger) (peer : Text) (n : ℤ)
    → IsBalanced s
    → IsBalanced (after_acquire s (acquire s.quota peer n))
unfolding acquire acquire_sized after_acquire
acquire-IsBalanced s peer (negsuc k) v = v
acquire-IsBalanced s peer (pos d) v =
    let who = normalize_quota_peer peer in
    let n = reservation_for s.quota d in
    elim (Option-cases (acquire_check s.quota (usage_of s.quota who) n)) [
      | inl fits ↦
          rw (fits, acquire_sized, after_acquire) (reserve_keeps s who n _ v refl refl refl)
      | inr (e, fails) ↦ rw (fails, acquire_sized, after_acquire) (refused-IsBalanced s true v)
    ]

add_bytes-IsBalanced :
    (s : Ledger) (i : ℕ) (l : TransferLease) (n : ℤ)
    → get_elem? s.leases i ≡ some l
    → l.released ≡ false
    → IsBalanced s
    → IsBalanced (after_grow s i (add_bytes s.quota l n))
unfolding add_bytes after_grow grow
add_bytes-IsBalanced s i l n held live v =
    elim (Bool-cases (not (is_positive n) || not l.unknown)) [
      | inl idle ↦ rw (idle, add_bytes, after_grow, set_same s.leases i l held) v
      | inr busy ↦
          rw (busy, add_bytes, after_grow)
            (elim (Option-cases (grow_check s.quota (usage_of s.quota l.peer) (pos_part n))) [
              | inl fits ↦
                  rw (fits, add_bytes, after_grow)
                    (unfold grown_quota swapped in grow_keeps s i l held live v (pos_part n))
              | inr (e, fails) ↦ rw (fails, add_bytes, after_grow) v
            ])
    ]

release-IsBalanced :
    (s : Ledger) (i : ℕ) (l : TransferLease)
    → get_elem? s.leases i ≡ some l
    → IsBalanced s
    → IsBalanced (after_release s i (release s.quota l))
unfolding release after_release
release-IsBalanced s i l held v =
    if_cases (λ r. IsBalanced (after_release s i r)) l.released
      (λ _. rw (set_same s.leases i l held) v)
      (λ live. unfold swapped in release_keeps s i l held live v)

live_of : (b : Bool) → not b ≡ true → b ≡ false
live_of b h = ground (arith, h)

grown_live :
    (s : Ledger) (i : ℕ) (n : ℤ) (l : TransferLease)
    → get_elem? s.leases i ≡ some l
    → grows_live s (adds i n) ≡ true
    → l.released ≡ false
unfolding grows_live
grown_live s i n l held live =
    live_of l.released
      (subst (λ o. (elim o [ none ↦ true | some m ↦ not m.released ]) ≡ true) held live)

step-IsBalanced :
    (s : Ledger) (c : Call) → grows_live s c ≡ true → IsBalanced s → IsBalanced (step s c)
unfolding step
step-IsBalanced s (acquires peer n) live v = acquire-IsBalanced s peer n v
step-IsBalanced s (adds i n) live v = elim (Option-cases (get_elem? s.leases i)) [
  | inl missing ↦ rw (missing, step) v
  | inr (l, held) ↦
      rw (held, step) (add_bytes-IsBalanced s i l n held (grown_live s i n l held live) v)
]
step-IsBalanced s (releases i) live v = elim (Option-cases (get_elem? s.leases i)) [
  | inl missing ↦ rw (missing, step) v
  | inr (l, held) ↦ rw (held, step) (release-IsBalanced s i l held v)
]

both : (a b : Bool) → (a && b) ≡ true → (a ≡ true) × (b ≡ true)
both a b h = ground (arith, h)

run_keeps :
    (s : Ledger) (cs : List Call) → is_ordered s cs ≡ true → IsBalanced s → IsBalanced (run s cs)
unfolding run is_ordered
run_keeps s [] h v = v
run_keeps s (c ∷ cs) h v =
    let (live, later) = both (grows_live s c) (is_ordered (step s c) cs) h in
    run_keeps (step s c) cs later (step-IsBalanced s c live v)

-- After any history of calls on a new quota in which no AddBytes is on a released lease, the counters are the totals of the leases that are out,
-- for the receiver and for each peer, and no peer without a session has an entry in the map.
pub run-start-IsBalanced :
    (cfg : TransferQuotaConfig) (cs : List Call)
    → is_ordered (start cfg) cs ≡ true
    → IsBalanced (run (start cfg) cs)
run-start-IsBalanced cfg cs ordered = run_keeps (start cfg) cs ordered (start-IsBalanced cfg)

total-released :
    (f : TransferLease → ℕ) (ls : List TransferLease)
    → ((l : TransferLease) → l.released ≡ true → f l ≡ 0)
    → All (λ l. l.released ≡ true) ls
    → total f ls ≡ 0
unfolding total
total-released f [] zeros h = refl
total-released f (l ∷ ls) zeros h = omega (arith, zeros l h.0, total-released f ls zeros h.1)

-- Once every lease of such a history is released, the quota is as new: no session, no byte, and no entry
-- for any peer.
pub run_drained :
    (cfg : TransferQuotaConfig) (cs : List Call)
    → is_ordered (start cfg) cs ≡ true
    → let s = run (start cfg) cs in
      All (λ l. l.released ≡ true) s.leases
      → (s.quota.active_transfers ≡ 0)
        × (s.quota.active_bytes ≡ 0)
        × ((p : Text) → lookup p s.quota.peers ≡ none)
run_drained cfg cs ordered h =
    let s = run (start cfg) cs in
    let v = run-start-IsBalanced cfg cs ordered in
    (
      v.transfers_total ∙ total-released count_live s.leases (λ l r. ground arith) h,
      v.bytes_total ∙ total-released bytes_live s.leases (λ l r. ground arith) h,
      λ p. v.no_leak p (total-released (of_peer p count_live) s.leases (λ l r. ground arith) h),
    )
