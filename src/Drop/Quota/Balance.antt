-- ===== src/Drop/Quota/Balance.antt =====
-- How a granted lease, its growth and its release move the counters of a quota.
use tantu.Prelude.{
  ℕ, zero, suc, ◌+◌, ◌≤◌, ◌≡◌, refl, true, false, none, some, List, [], ◌∷◌, arith, get_elem?, set,
  if◌then◌else◌,
}
use tantu.Text.{Text, ◌=t◌}
use tantu.Text.Laws.{eq_iff}
use tantu.Text.Assoc.{lookup, put, lookup-put, lookup-delete}
use tantu.Drop.Quota.{
  TransferQuota, TransferQuotaConfig, TransferLease, usage_of, new_transfer_quota, reserve,
  one_more, more_bytes, release_once, give_back, is_unused,
}
use tantu.Drop.Quota.History.{
  Ledger, start, count_live, bytes_live, total, of_peer, peer_transfers_of, peer_bytes_of,
  IsBalanced,
}

-- Replacing a lease changes a total by the difference.
total-set :
    (f : TransferLease → ℕ) (ls : List TransferLease) (i : ℕ) (l l' : TransferLease)
    → get_elem? ls i ≡ some l
    → total f (set ls i l') + f l ≡ total f ls + f l'
unfolding total
total-set f [] i l l' h = cc
total-set f (x ∷ ls) zero l l' h = ground arith
total-set f (x ∷ ls) (suc i) l l' h = omega (arith, total-set f ls i l l' h)

-- Each lease is part of the total.
le-total :
    (f : TransferLease → ℕ) (ls : List TransferLease) (i : ℕ) (l : TransferLease)
    → get_elem? ls i ≡ some l
    → f l ≤ total f ls
unfolding total
le-total f [] i l h = cc
le-total f (x ∷ ls) zero l h = ground arith
le-total f (x ∷ ls) (suc i) l h = omega (arith, le-total f ls i l h)

pub start-IsBalanced : (cfg : TransferQuotaConfig) → IsBalanced (start cfg)
unfolding start new_transfer_quota total usage_of lookup
start-IsBalanced cfg = record {
  transfers_total = refl;
  bytes_total = refl;
  peer_total = λ p. (refl, refl);
  no_leak = λ p _. refl;
}

module _ (s : Ledger) (peer : Text) (n : ℕ) (l : TransferLease) (v : IsBalanced s) where
  -- The entry of a peer behind the assignment of Acquire.
  lookup-reserve :
      (k : Text)
      → lookup k (reserve s.quota peer n).peers
        ≡ (if peer =t k then some (one_more (usage_of s.quota peer) n) else lookup k s.quota.peers)
  unfolding reserve
  lookup-reserve k = lookup-put peer k (one_more (usage_of s.quota peer) n) s.quota.peers

  pub reserve_keeps :
      l.peer ≡ peer
      → l.bytes ≡ n
      → l.released ≡ false
      → IsBalanced (record { quota = reserve s.quota peer n; leases = l ∷ s.leases })
  unfolding reserve usage_of total one_more
  reserve_keeps p b r = record {
    transfers_total = ground (arith, v.transfers_total);
    bytes_total = ground (arith, v.bytes_total);
    peer_total = λ k. (
      ground (arith, v.peer_total k, v.peer_total peer, lookup-reserve k, eq_iff peer k),
      ground (arith, v.peer_total k, v.peer_total peer, lookup-reserve k, eq_iff peer k),
    );
    no_leak = λ k h. ground (arith, v.no_leak k, lookup-reserve k, eq_iff peer k);
  }

-- A peer without sessions holds no bytes.
idle_peer_holds_nothing :
    (p : Text) (ls : List TransferLease) → peer_transfers_of p ls ≡ 0 → peer_bytes_of p ls ≡ 0
unfolding total
idle_peer_holds_nothing p [] h = refl
idle_peer_holds_nothing p (l ∷ ls) h = ground (arith, idle_peer_holds_nothing p ls)

module _ (s : Ledger) (i : ℕ) (l : TransferLease) (held : get_elem? s.leases i ≡ some l)
    (live : l.released ≡ false) (v : IsBalanced s) where
  -- The ledger behind a change of that lease.
  unfoldable pub swapped : TransferQuota → TransferLease → Ledger
  swapped q l' = record { quota = q; leases = set s.leases i l' }

  unfoldable pub grown_quota : ℕ → TransferQuota
  unfolding more_bytes usage_of
  grown_quota n = record (s.quota) {
    active_bytes = s.quota.active_bytes + n;
    peers = put l.peer (more_bytes (usage_of s.quota l.peer) n) s.quota.peers;
  }

  lookup-grow :
      (n : ℕ) (k : Text)
      → lookup k (grown_quota n).peers ≡ (
          if l.peer =t k
          then some (more_bytes (usage_of s.quota l.peer) n)
          else lookup k s.quota.peers)
  unfolding grown_quota
  lookup-grow n k = lookup-put l.peer k (more_bytes (usage_of s.quota l.peer) n) s.quota.peers

  pub grow_keeps : (n : ℕ) → IsBalanced (swapped (grown_quota n) (record l { bytes = l.bytes + n }))
  unfolding grown_quota swapped usage_of more_bytes
  grow_keeps n =
      let l' : TransferLease = record l { bytes = l.bytes + n } in
      record {
        transfers_total =
            ground (arith, v.transfers_total, total-set count_live s.leases i l l' held);
        bytes_total = ground (arith, v.bytes_total, total-set bytes_live s.leases i l l' held);
        peer_total = λ k. (
          ground (
            arith,
            v.peer_total k,
            v.peer_total l.peer,
            lookup-grow n k,
            eq_iff l.peer k,
            total-set (of_peer k count_live) s.leases i l l' held,
          ),
          ground (
            arith,
            v.peer_total k,
            v.peer_total l.peer,
            lookup-grow n k,
            eq_iff l.peer k,
            total-set (of_peer k bytes_live) s.leases i l l' held,
          ),
        );
        no_leak = λ k h. ground (
          arith,
          v.no_leak k,
          lookup-grow n k,
          eq_iff l.peer k,
          le-total (of_peer k count_live) s.leases i l held,
          total-set (of_peer k count_live) s.leases i l l' held,
        );
      }

  lookup-release :
      (k : Text)
      → lookup k (release_once s.quota l).peers ≡ (
          if l.peer =t k
          then (if is_unused (give_back (usage_of s.quota l.peer) l.bytes)
              then none
              else some (give_back (usage_of s.quota l.peer) l.bytes))
          else lookup k s.quota.peers)
  unfolding release_once
  lookup-release k = ground (
    arith,
    lookup-delete l.peer k s.quota.peers,
    lookup-put l.peer k (give_back (usage_of s.quota l.peer) l.bytes) s.quota.peers,
  )

  pub release_keeps : IsBalanced (swapped (release_once s.quota l) (record l { released = true }))
  unfolding release_once swapped usage_of give_back is_unused
  release_keeps =
      let l' : TransferLease = record l { released = true } in
      record {
        transfers_total =
            ground (arith, v.transfers_total, total-set count_live s.leases i l l' held);
        bytes_total = ground (arith, v.bytes_total, total-set bytes_live s.leases i l l' held);
        peer_total = λ k. (
          ground (
            arith,
            v.peer_total k,
            v.peer_total l.peer,
            lookup-release k,
            eq_iff l.peer k,
            total-set (of_peer k count_live) s.leases i l l' held,
          ),
          ground (
            arith,
            v.peer_total k,
            v.peer_total l.peer,
            lookup-release k,
            eq_iff l.peer k,
            total-set (of_peer k bytes_live) s.leases i l l' held,
          ),
        );
        no_leak = λ k h. ground (
          arith,
          v.no_leak k,
          v.peer_total l.peer,
          lookup-release k,
          eq_iff l.peer k,
          total-set (of_peer k count_live) s.leases i l l' held,
          total-set (of_peer k bytes_live) s.leases i l l' held,
          idle_peer_holds_nothing k (set s.leases i l'),
        );
      }
