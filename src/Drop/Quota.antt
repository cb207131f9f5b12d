-- ===== src/Drop/Quota.antt =====
-- internal/drop/quota.go: the bounded transfer budget of a receiver. The counters are never negative
-- in the source (each decrement is guarded), so they are ℕ; limits and sizes from outside are ℤ.
-- A reservation is a value: the lease of the source is a pointer whose `once` makes the second
-- release do nothing, which is the field `released`.
pub mod Balance
pub mod History
pub mod Ledger
pub mod Bounds
pub mod Admission
mod Tests
use tantu.Prelude.{
  ℕ, ◌+◌, ◌-◌, ◌*◌, ◌^◌, Bool, true, false, not, ◌&&◌, ◌||◌, Option, none, some, List, ltb, leb,
  ◌==◌, if◌then◌else◌, length, take, ℤ, pos, negsuc, pos_part, is_positive, is_negative,
}
use tantu.Text.{Text}
use tantu.Text.Assoc.{lookup, put, delete}

-- What the receive path wraps around ErrTransferQuota.
pub data QuotaError : Type 0 where
  negative_size counter_overflow max_transfers peer_transfers byte_budget peer_byte_budget :
      QuotaError
  not_initialized : QuotaError

-- `maxTransferQuotaBytes`, the largest int64
abbrev pub max_transfer_quota_bytes : ℕ
max_transfer_quota_bytes = 2 ^ 63 - 1

-- `DefaultChunkSize` of sender.go
abbrev pub default_chunk_size : ℕ
default_chunk_size = 2 ^ 20

pub record TransferQuotaConfig : Type 0 where
  pub max_transfers : ℤ
  pub max_bytes : ℤ
  pub max_per_peer_transfers : ℤ
  pub max_per_peer_bytes : ℤ

pub record TransferQuotaUsage : Type 0 where
  pub transfers : ℕ
  pub bytes : ℕ

-- `initialized` is `q.peers != nil`: false in a zero value, which never acquired.
pub record TransferQuota : Type 0 where
  pub config : TransferQuotaConfig
  pub open config use *
  pub active_transfers : ℕ
  pub active_bytes : ℕ
  pub initialized : Bool
  pub peers : List (Text × TransferQuotaUsage)

pub record TransferLease : Type 0 where
  pub peer : Text
  pub bytes : ℕ
  pub unknown : Bool
  pub released : Bool

pub data Acquired : Type 0 where
  granted : TransferQuota → TransferLease → Acquired
  refused : TransferQuota → QuotaError → Acquired

pub data Grown : Type 0 where
  grown : TransferQuota → TransferLease → Grown
  denied : QuotaError → Grown

abbrev pub no_usage : TransferQuotaUsage
no_usage = record { transfers = 0; bytes = 0 }

abbrev pub usage_or_zero : Option TransferQuotaUsage → TransferQuotaUsage
usage_or_zero none = no_usage
usage_or_zero (some u) = u

-- `q.peers[peer]`, the zero value for a missing key
unfoldable pub usage_of : TransferQuota → Text → TransferQuotaUsage
usage_of q p = usage_or_zero (lookup p q.peers)

unfoldable pub new_transfer_quota : TransferQuotaConfig → TransferQuota
new_transfer_quota cfg = record {
  config = cfg;
  active_transfers = 0;
  active_bytes = 0;
  initialized = true;
  peers = List.[];
}

unfoldable pub default_transfer_quota : TransferQuota
unfolding new_transfer_quota
default_transfer_quota = new_transfer_quota (record {
  max_transfers = pos 4;
  max_bytes = pos (2 ^ 33);
  max_per_peer_transfers = pos 2;
  max_per_peer_bytes = pos (6 * 2 ^ 30);
})

unfoldable pub normalize_quota_peer : Text → Text
normalize_quota_peer peer = if ltb 256 (length peer) then take 256 peer else peer

-- `limit > 0 && used >= limit`
pub reached : ℤ → ℕ → Bool
reached limit used = is_positive limit && leb (pos_part limit) used

-- `limit > 0 && (used > limit || n > limit-used)`
pub exceeds : ℤ → ℕ → ℕ → Bool
exceeds limit used n =
    is_positive limit && (ltb (pos_part limit) used || ltb (pos_part limit - used) n)

-- `n > 0 && (a > max-n || b > max-n)`; the caller's n is at most the largest int64.
pub overflows : ℕ → ℕ → ℕ → Bool
overflows n a b =
    ltb 0 n && (ltb (max_transfer_quota_bytes - n) a || ltb (max_transfer_quota_bytes - n) b)

-- `if limit > 0 && r > limit { r = limit }`
abbrev capped : ℤ → ℕ → ℕ
capped limit r = if is_positive limit && ltb (pos_part limit) r then pos_part limit else r

-- What a transfer reserves: its declared size, or for an unknown size one chunk within the limits.
unfoldable pub reservation_for : TransferQuota → ℕ → ℕ
reservation_for q declared =
    if declared == 0
    then capped q.max_per_peer_bytes (capped q.max_bytes default_chunk_size)
    else declared

-- The checks of Acquire behind the lock, in their order.
pub acquire_check : TransferQuota → TransferQuotaUsage → ℕ → Option QuotaError
acquire_check q usage n =
    if overflows n q.active_bytes usage.bytes
    then some counter_overflow
    else if reached q.max_transfers q.active_transfers
    then some max_transfers
    else if reached q.max_per_peer_transfers usage.transfers
    then some peer_transfers
    else if exceeds q.max_bytes q.active_bytes n
    then some byte_budget
    else if exceeds q.max_per_peer_bytes usage.bytes n
    then some peer_byte_budget
    else none

-- `usage.transfers++; usage.bytes += n`
pub one_more : TransferQuotaUsage → ℕ → TransferQuotaUsage
one_more u n = record { transfers = u.transfers + 1; bytes = u.bytes + n }

-- `usage.bytes += n`
pub more_bytes : TransferQuotaUsage → ℕ → TransferQuotaUsage
more_bytes u n = record { transfers = u.transfers; bytes = u.bytes + n }

pub reserve : TransferQuota → Text → ℕ → TransferQuota
unfolding usage_of one_more
reserve q peer n = record q {
  active_transfers = q.active_transfers + 1;
  active_bytes = q.active_bytes + n;
  initialized = true;
  peers = put peer (one_more (usage_of q peer) n) q.peers;
}

acquire_sized : TransferQuota → Text → ℕ → Acquired
unfolding reserve acquire_check reservation_for
acquire_sized q peer declared =
    let n = reservation_for q declared in
    elim (acquire_check q (usage_of q peer) n) [
      | some e ↦ refused (record q { initialized = true }) e
      | none ↦
          granted (reserve q peer n)
            (record { peer = peer; bytes = n; unknown = declared == 0; released = false })
    ]

-- Acquire on a quota that is not nil. A refusal behind the lock has made the map of a zero value.
unfoldable pub acquire : TransferQuota → Text → ℤ → Acquired
unfolding acquire_sized
acquire q peer (pos declared) = acquire_sized q (normalize_quota_peer peer) declared
acquire q peer (negsuc k) = refused q negative_size

pub grow_check : TransferQuota → TransferQuotaUsage → ℕ → Option QuotaError
grow_check q usage n =
    if not q.initialized
    then some not_initialized
    else if overflows n q.active_bytes usage.bytes
    then some counter_overflow
    else if exceeds q.max_bytes q.active_bytes n
    then some byte_budget
    else if exceeds q.max_per_peer_bytes usage.bytes n
    then some peer_byte_budget
    else none

grow : TransferQuota → TransferLease → ℕ → Grown
unfolding usage_of more_bytes
grow q l n =
    grown
      (record q {
        active_bytes = q.active_bytes + n;
        peers = put l.peer (more_bytes (usage_of q l.peer) n) q.peers;
      })
      (record l { bytes = l.bytes + n })

-- AddBytes. For a lease of known size, and for n <= 0, nothing happens.
unfoldable pub add_bytes : TransferQuota → TransferLease → ℤ → Grown
unfolding grow_check grow
add_bytes q l n =
    if not (is_positive n) || not l.unknown
    then grown q l
    else elim (grow_check q (usage_of q l.peer) (pos_part n)) [
      | some e ↦ denied e
      | none ↦ grow q l (pos_part n)
    ]

-- `if x >= n { x -= n } else { x = 0 }`; `-` on ℕ is that already.
pub give_back : TransferQuotaUsage → ℕ → TransferQuotaUsage
give_back u n = record { transfers = u.transfers - 1; bytes = u.bytes - n }

pub is_unused : TransferQuotaUsage → Bool
is_unused u = (u.transfers == 0) && (u.bytes == 0)

pub release_once : TransferQuota → TransferLease → TransferQuota
unfolding usage_of give_back is_unused
release_once q l =
    let usage = give_back (usage_of q l.peer) l.bytes in
    record q {
      active_transfers = q.active_transfers - 1;
      active_bytes = q.active_bytes - l.bytes;
      peers = if is_unused usage then delete l.peer q.peers else put l.peer usage q.peers;
    }

-- Release, with the once of the lease.
unfoldable pub release : TransferQuota → TransferLease → TransferQuota × TransferLease
unfolding release_once
release q l = if l.released then (q, l) else (release_once q l, record l { released = true })
