-- ===== src/Drop/Quota/History.antt =====
-- internal/drop/quota.go: the leases of a quota together with it, every history of Acquire, AddBytes
-- and Release, and what the counters are meant to say of the leases that are out.
use tantu.Prelude.{
  ℕ, ◌+◌, ◌≡◌, Bool, true, not, ◌&&◌, none, some, List, [], ◌∷◌, get_elem?, set, if◌then◌else◌, ℤ,
}
use tantu.Text.{Text, ◌=t◌}
use tantu.Text.Assoc.{lookup}
use tantu.Drop.Quota.{
  TransferQuota, TransferQuotaConfig, TransferLease, Acquired, granted, refused, Grown, grown,
  denied, usage_of, new_transfer_quota, acquire, add_bytes, release,
}

-- A quota with the leases that it gave out, the newest first.
pub record Ledger : Type 0 where
  pub quota : TransferQuota
  pub leases : List TransferLease

pub data Call : Type 0 where
  acquires : Text → ℤ → Call
  adds : ℕ → ℤ → Call
  releases : ℕ → Call

unfoldable pub after_acquire : Ledger → Acquired → Ledger
after_acquire s (granted q l) = record { quota = q; leases = l ∷ s.leases }
after_acquire s (refused q e) = record { quota = q; leases = s.leases }

unfoldable pub after_grow : Ledger → ℕ → Grown → Ledger
after_grow s i (grown q l) = record { quota = q; leases = set s.leases i l }
after_grow s i (denied e) = s

unfoldable pub after_release : Ledger → ℕ → TransferQuota × TransferLease → Ledger
after_release s i (q, l) = record { quota = q; leases = set s.leases i l }

-- One call on the lease of an index; a call on no lease is a nil lease, which does nothing.
unfoldable pub step : Ledger → Call → Ledger
unfolding after_acquire after_grow after_release
step s (acquires peer n) = after_acquire s (acquire s.quota peer n)
step s (adds i n) = elim (get_elem? s.leases i) [
  | none ↦ s
  | some l ↦ after_grow s i (add_bytes s.quota l n)
]
step s (releases i) = elim (get_elem? s.leases i) [
  | none ↦ s
  | some l ↦ after_release s i (release s.quota l)
]

unfoldable pub run : Ledger → List Call → Ledger
run s [] = s
run s (c ∷ cs) = run (step s c) cs

unfoldable pub start : TransferQuotaConfig → Ledger
start cfg = record { quota = new_transfer_quota cfg; leases = [] }

-- AddBytes does not ask whether its lease was released; ReceiveDrop calls it only before its deferred
-- Release.
unfoldable pub grows_live : Ledger → Call → Bool
grows_live s (adds i n) = elim (get_elem? s.leases i) [ none ↦ true | some l ↦ not l.released ]
grows_live s (acquires peer n) = true
grows_live s (releases i) = true

-- No AddBytes in a history is on a lease that was released.
unfoldable pub is_ordered : Ledger → List Call → Bool
unfolding grows_live
is_ordered s [] = true
is_ordered s (c ∷ cs) = grows_live s c && is_ordered (step s c) cs

-- The sessions and the bytes of the leases that are out, all of them and those of one peer.
abbrev pub count_live : TransferLease → ℕ
count_live l = if l.released then 0 else 1

abbrev pub bytes_live : TransferLease → ℕ
bytes_live l = if l.released then 0 else l.bytes

unfoldable pub total : (TransferLease → ℕ) → List TransferLease → ℕ
total f [] = 0
total f (l ∷ ls) = f l + total f ls

abbrev pub of_peer : Text → (TransferLease → ℕ) → TransferLease → ℕ
of_peer p f l = if l.peer =t p then f l else 0

abbrev pub live_transfers : List TransferLease → ℕ
live_transfers ls = total count_live ls

abbrev pub live_bytes : List TransferLease → ℕ
live_bytes ls = total bytes_live ls

abbrev pub peer_transfers_of : Text → List TransferLease → ℕ
peer_transfers_of p ls = total (of_peer p count_live) ls

abbrev pub peer_bytes_of : Text → List TransferLease → ℕ
peer_bytes_of p ls = total (of_peer p bytes_live) ls

-- The counters say what the leases hold, and the map of peers has no entry for a peer without one.
pub record IsBalanced (s : Ledger) : Type 0 where
  pub transfers_total : s.quota.active_transfers ≡ live_transfers s.leases
  pub bytes_total : s.quota.active_bytes ≡ live_bytes s.leases
  pub peer_total :
      (p : Text)
      → ((usage_of s.quota p).transfers ≡ peer_transfers_of p s.leases)
        × ((usage_of s.quota p).bytes ≡ peer_bytes_of p s.leases)
  pub no_leak : (p : Text) → peer_transfers_of p s.leases ≡ 0 → lookup p s.quota.peers ≡ none
