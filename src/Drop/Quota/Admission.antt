-- ===== src/Drop/Quota/Admission.antt =====
-- Which reservations a quota grants, said without its tests.
use tantu.Prelude.{
  ℕ, ◌+◌, ◌≤◌, ◌<◌, ◌≡◌, refl, ◌↔◌, ◌⊎◌, inl, inr, true, false, negsuc, none, arith, ◌==◌, ℤ, pos,
  pos_part, is_positive, Option-cases,
}
use tantu.Text.{Text}
use tantu.Drop.Quota.{
  TransferQuota, TransferQuotaUsage, QuotaError, granted, refused, usage_of, acquire, acquire_sized,
  acquire_check, reserve, reservation_for, grow_check, normalize_quota_peer, reached, exceeds,
  overflows, max_transfer_quota_bytes,
}

-- `used` is within a limit that is set.
abbrev pub Within : ℤ → ℕ → Type 0
Within limit used = is_positive limit ≡ true → used ≤ pos_part limit

-- Room for n more bytes, for the receiver and for one peer, without an overflow of the counters.
pub record HasBytes (q : TransferQuota) (u : TransferQuotaUsage) (n : ℕ) : Type 0 where
  pub counter : 0 < n → q.active_bytes + n ≤ max_transfer_quota_bytes
  pub peer_counter : 0 < n → u.bytes + n ≤ max_transfer_quota_bytes
  pub budget : Within q.max_bytes (q.active_bytes + n)
  pub peer_budget : Within q.max_per_peer_bytes (u.bytes + n)

-- Room for one more session of n bytes.
pub record Fits (q : TransferQuota) (u : TransferQuotaUsage) (n : ℕ) : Type 0 where
  pub sessions : Within q.max_transfers (q.active_transfers + 1)
  pub peer_sessions : Within q.max_per_peer_transfers (u.transfers + 1)
  pub room : HasBytes q u n

reached_iff : (limit : ℤ) (used : ℕ) → (reached limit used ≡ false) ↔ Within limit (used + 1)
unfolding reached
reached_iff (pos m) used = (λ h p. ground arith, λ h. ground arith)
reached_iff (negsuc m) used = (λ h p. cc, λ h. refl)

exceeds_iff : (limit : ℤ) (used n : ℕ) → (exceeds limit used n ≡ false) ↔ Within limit (used + n)
unfolding exceeds
exceeds_iff (pos m) used n = (λ h p. ground arith, λ h. ground arith)
exceeds_iff (negsuc m) used n = (λ h p. cc, λ h. refl)

abbrev NoOverflow : ℕ → ℕ → ℕ → Type 0
NoOverflow n a b = 0 < n → (a + n ≤ max_transfer_quota_bytes) × (b + n ≤ max_transfer_quota_bytes)

overflows_iff :
    (n a b : ℕ) → n ≤ max_transfer_quota_bytes → (overflows n a b ≡ false) ↔ NoOverflow n a b
unfolding overflows
overflows_iff n a b small = (λ h p. ground arith, λ h. ground arith)

module _ (q : TransferQuota) (u : TransferQuotaUsage) (n : ℕ)
    (small : n ≤ max_transfer_quota_bytes) where
  pub Fits-acquire_check : acquire_check q u n ≡ none → Fits q u n
  unfolding acquire_check
  Fits-acquire_check h = ground (
    arith,
    overflows_iff n q.active_bytes u.bytes small,
    reached_iff q.max_transfers q.active_transfers,
    reached_iff q.max_per_peer_transfers u.transfers,
    exceeds_iff q.max_bytes q.active_bytes n,
    exceeds_iff q.max_per_peer_bytes u.bytes n,
  )

  pub acquire_check-Fits : Fits q u n → acquire_check q u n ≡ none
  unfolding acquire_check
  acquire_check-Fits f = simp (
    (overflows_iff n q.active_bytes u.bytes small).1
        (λ p. (f.room.counter p, f.room.peer_counter p)),
    (reached_iff q.max_transfers q.active_transfers).1 f.sessions,
    (reached_iff q.max_per_peer_transfers u.transfers).1 f.peer_sessions,
    (exceeds_iff q.max_bytes q.active_bytes n).1 f.room.budget,
    (exceeds_iff q.max_per_peer_bytes u.bytes n).1 f.room.peer_budget,
  )

  pub HasBytes-grow_check : grow_check q u n ≡ none → HasBytes q u n
  unfolding grow_check
  HasBytes-grow_check h = ground (
    arith,
    overflows_iff n q.active_bytes u.bytes small,
    exceeds_iff q.max_bytes q.active_bytes n,
    exceeds_iff q.max_per_peer_bytes u.bytes n,
  )

-- The reservation of a transfer is an int64 like its declared size.
pub reservation_for-le :
    (q : TransferQuota) (d : ℕ)
    → d ≤ max_transfer_quota_bytes
    → reservation_for q d ≤ max_transfer_quota_bytes
unfolding reservation_for
reservation_for-le q d h = ground arith

-- For every declared size of an int64 that is not negative: Acquire grants exactly the reservations that
-- fit the session limits, the byte budgets and the counters. A grant reserves the size, or for an
-- unknown size one chunk within the limits, under the shortened peer key; a refusal leaves the limits,
-- the counters and the usage of every peer as they were.
pub acquire_decides :
    (q : TransferQuota) (peer : Text) (d : ℕ)
    → d ≤ max_transfer_quota_bytes
    → let who = normalize_quota_peer peer in
      let n = reservation_for q d in
      (Fits q (usage_of q who) n
        × (acquire q peer (pos d)
            ≡ granted
                (reserve q who n)
                (record { peer = who; bytes = n; unknown = d == 0; released = false })))
      ⊎ ((¬ Fits q (usage_of q who) n)
          × (e : QuotaError) × (acquire q peer (pos d)
              ≡ refused (record q { initialized = true }) e))
unfolding acquire acquire_sized
acquire_decides q peer d small =
    let u = usage_of q (normalize_quota_peer peer) in
    let n = reservation_for q d in
    let le = reservation_for-le q d small in
    elim (Option-cases (acquire_check q u n)) [
      | inl fits ↦ inl (Fits-acquire_check q u n le fits, rw (fits, acquire, acquire_sized))
      | inr (e, fails) ↦
          inr ((λ f. cc (acquire_check-Fits q u n le f)), e, rw (fails, acquire, acquire_sized))
    ]
