-- ===== src/Drop/Quota/Bounds.antt =====
-- The limits of a quota hold through every history.
use tantu.Prelude.{
  ℕ, ◌+◌, ◌-◌, ◌≤◌, inl, inr, Bool, true, not, ◌||◌, List, [], ◌∷◌, arith, ℤ, pos, negsuc, pos_part,
  is_positive, Option-cases, if_cases, All, get_elem?,
}
use tantu.Text.{Text}
use tantu.Text.Assoc.{lookup, put, lookup-put, lookup-delete}
use tantu.Drop.Quota.{
  TransferQuota, TransferQuotaConfig, TransferQuotaUsage, TransferLease, usage_of, acquire, reserve,
  grow_check, max_transfer_quota_bytes, one_more, more_bytes, give_back, is_unused, release,
  release_once, add_bytes, grow, new_transfer_quota,
}
use tantu.Drop.Quota.Admission.{Within, Fits, HasBytes, HasBytes-grow_check, acquire_decides}
use tantu.Drop.Quota.History.{
  Ledger, Call, after_acquire, after_grow, after_release, acquires, adds, releases, step, run,
  start,
}

-- A peer's sessions and bytes are within its limits.
abbrev PeerWithin : TransferQuota → TransferQuotaUsage → Type 0
PeerWithin q u =
    Within q.max_per_peer_transfers u.transfers
    × Within q.max_per_peer_bytes u.bytes
    × (u.bytes ≤ max_transfer_quota_bytes)

pub record IsWithin (q : TransferQuota) : Type 0 where
  pub sessions : Within q.max_transfers q.active_transfers
  pub bytes : Within q.max_bytes q.active_bytes
  pub counter : q.active_bytes ≤ max_transfer_quota_bytes
  pub peers : (p : Text) → PeerWithin q (usage_of q p)

-- The usage of a peer after an assignment to the map.
usage-put :
    (q : TransferQuota) (p k : Text) (u : TransferQuotaUsage)
    → PeerWithin q u
    → ((j : Text) → PeerWithin q (usage_of q j))
    → (c a : ℕ) (b : Bool)
    → PeerWithin q (
        usage_of
          (record q {
            active_transfers = c;
            active_bytes = a;
            initialized = b;
            peers = put p u q.peers;
          })
          k)
unfolding usage_of
usage-put q p k u h hs c a b = ground (arith, lookup-put p k u q.peers, hs k)

start-IsWithin : (cfg : TransferQuotaConfig) → IsWithin (new_transfer_quota cfg)
unfolding new_transfer_quota usage_of lookup
start-IsWithin cfg = record {
  sessions = λ _. omega arith;
  bytes = λ _. omega arith;
  counter = omega arith;
  peers = λ p. ((λ _. omega arith), (λ _. omega arith), omega arith);
}

refused-IsWithin :
    (q : TransferQuota) (b : Bool) → IsWithin q → IsWithin (record q { initialized = b })
unfolding usage_of
refused-IsWithin q b v = record {
  sessions = v.sessions;
  bytes = v.bytes;
  counter = v.counter;
  peers = v.peers;
}

reserve-IsWithin :
    (q : TransferQuota) (p : Text) (n : ℕ)
    → Fits q (usage_of q p) n
    → IsWithin q
    → IsWithin (reserve q p n)
unfolding reserve one_more
reserve-IsWithin q p n f v = record {
  sessions = f.sessions;
  bytes = f.room.budget;
  counter = ground (arith, f.room.counter, v.counter);
  peers = λ k.
      usage-put q p k (one_more (usage_of q p) n)
        (f.peer_sessions, f.room.peer_budget, ground (arith, f.room.peer_counter, v.peers p))
        v.peers (q.active_transfers + 1) (q.active_bytes + n) true;
}

grow-IsWithin :
    (q : TransferQuota) (l : TransferLease) (n : ℕ)
    → HasBytes q (usage_of q l.peer) n
    → IsWithin q
    → IsWithin (record q {
      active_bytes = q.active_bytes + n;
      peers = put l.peer (more_bytes (usage_of q l.peer) n) q.peers;
    })
unfolding more_bytes
grow-IsWithin q l n f v = record {
  sessions = v.sessions;
  bytes = f.budget;
  counter = ground (arith, f.counter, v.counter);
  peers = λ k.
      usage-put q l.peer k (more_bytes (usage_of q l.peer) n)
        ((v.peers l.peer).0, f.peer_budget, ground (arith, f.peer_counter, v.peers l.peer)) v.peers
        q.active_transfers (q.active_bytes + n) q.initialized;
}

Within-le : (limit : ℤ) (a b : ℕ) → b ≤ a → Within limit a → Within limit b
Within-le limit a b h w p = omega (arith, w p)

give_back-PeerWithin :
    (q : TransferQuota) (u : TransferQuotaUsage) (n : ℕ)
    → PeerWithin q u
    → PeerWithin q (give_back u n)
unfolding give_back
give_back-PeerWithin q u n h = (
  Within-le q.max_per_peer_transfers u.transfers (u.transfers - 1) (omega arith) h.0,
  Within-le q.max_per_peer_bytes u.bytes (u.bytes - n) (omega arith) h.1,
  omega (arith, h.2),
)

release_once-IsWithin :
    (q : TransferQuota) (l : TransferLease) → IsWithin q → IsWithin (release_once q l)
unfolding release_once
release_once-IsWithin q l v = record {
  sessions =
      Within-le q.max_transfers q.active_transfers (q.active_transfers - 1) (omega arith)
        v.sessions;
  bytes = Within-le q.max_bytes q.active_bytes (q.active_bytes - l.bytes) (omega arith) v.bytes;
  counter = omega (arith, v.counter);
  peers = λ k.
      if_cases
        (λ m. PeerWithin q (
          usage_of
            (record q {
              active_transfers = q.active_transfers - 1;
              active_bytes = q.active_bytes - l.bytes;
              peers = m;
            })
            k))
        (is_unused (give_back (usage_of q l.peer) l.bytes))
        (λ _. unfold usage_of in ground (arith, lookup-delete l.peer k q.peers, v.peers k))
        (λ _.
          usage-put q l.peer k (give_back (usage_of q l.peer) l.bytes)
            (give_back-PeerWithin q (usage_of q l.peer) l.bytes (v.peers l.peer)) v.peers
            (q.active_transfers - 1) (q.active_bytes - l.bytes) q.initialized);
}

-- Sizes and counts are int64 values.
abbrev pub IsInt64 : ℤ → Type 0
IsInt64 n = pos_part n ≤ max_transfer_quota_bytes

abbrev pub IsInt64Call : Call → Type 0
IsInt64Call (acquires peer n) = IsInt64 n
IsInt64Call (adds i n) = IsInt64 n
IsInt64Call (releases i) = Unit

add_bytes-IsWithin :
    (s : Ledger) (i : ℕ) (l : TransferLease) (n : ℤ)
    → IsInt64 n
    → IsWithin s.quota
    → IsWithin (after_grow s i (add_bytes s.quota l n)).quota
unfolding add_bytes grow after_grow
add_bytes-IsWithin s i l n h v =
    if_cases (λ r. IsWithin (after_grow s i r).quota) (not (is_positive n) || not l.unknown)
      (λ _. v)
      (λ _. elim (Option-cases (grow_check s.quota (usage_of s.quota l.peer) (pos_part n))) [
        | inl fits ↦
            rw (fits, after_grow)
              (grow-IsWithin s.quota l (pos_part n) (HasBytes-grow_check _ _ _ h fits) v)
        | inr (e, fails) ↦ rw (fails, after_grow) v
      ])

step-IsWithin :
    (s : Ledger) (c : Call) → IsInt64Call c → IsWithin s.quota → IsWithin (step s c).quota
unfolding step after_acquire after_grow after_release
step-IsWithin s (acquires peer (negsuc k)) h v = unfold acquire in v
step-IsWithin s (acquires peer (pos d)) h v = elim (acquire_decides s.quota peer d h) [
  | inl (f, e) ↦ rw (e, after_acquire) (reserve-IsWithin _ _ _ f v)
  | inr (_, e, fails) ↦ rw (fails, after_acquire) (refused-IsWithin s.quota true v)
]
step-IsWithin s (adds i n) h v = elim (Option-cases (get_elem? s.leases i)) [
  | inl missing ↦ rw (missing, step) v
  | inr (l, held) ↦ rw (held, step) (add_bytes-IsWithin s i l n h v)
]
step-IsWithin s (releases i) h v = elim (Option-cases (get_elem? s.leases i)) [
  | inl missing ↦ rw (missing, step) v
  | inr (l, held) ↦
      rw (held, step)
        (unfold release in
          if_cases (λ r. IsWithin (after_release s i r).quota) l.released (λ _. v)
            (λ _. release_once-IsWithin s.quota l v))
]

run_keeps :
    (s : Ledger) (cs : List Call)
    → All IsInt64Call cs
    → IsWithin s.quota
    → IsWithin (run s cs).quota
unfolding run
run_keeps s [] h v = v
run_keeps s (c ∷ cs) h v = run_keeps (step s c) cs h.1 (step-IsWithin s c h.0 v)

-- After any history of calls with int64 sizes on a new quota, every limit that is set holds: the
-- sessions and the bytes of the receiver, and those of each peer. The byte counters never exceed the
-- largest int64.
pub run-start-IsWithin :
    (cfg : TransferQuotaConfig) (cs : List Call)
    → All IsInt64Call cs
    → IsWithin (run (start cfg) cs).quota
run-start-IsWithin cfg cs h = run_keeps (start cfg) cs h (unfold start in start-IsWithin cfg)
