-- ===== src/Hub/PeerHealth/Backoff.antt =====
-- internal/hub/peer_health.go: the times between the probes of a peer.
use native.Mathlib.Nat.{
  mul_assoc, one-le-pow, pow-succ', mod-eq_of_lt, div-add-mod, add-mul, add-mul-mod_self_right,
  mul-le-mul_right,
}
use Prim.Native.Nat.{min}
use tantu.Prelude.{
  ℕ, zero, suc, ◌+◌, ◌-◌, ◌*◌, ◌/◌, ◌%◌, ◌^◌, ◌≤◌, ◌<◌, ◌≡◌, refl, ◌∙◌, ap, sym, subst, inl, inr,
  pos, int64, ltbℤ, ◌+ℤ◌, false, ltb, leb, if◌then◌else◌, arith, tests, ltb→lt, leb→le, Bool-cases,
  if_cases,
}
use tantu.Hub.PeerHealth.{
  PeerProbe, peer_heartbeat_max_backoff, shl, schedule_probe_next, heartbeat_max_backoff_for,
  at_most, heartbeat_interval_for_peers, peer_heartbeat_max_probes_per_interval,
}

not_le : (a b : ℕ) → leb a b ≡ false → b < a
not_le a b h = ground arith

not_lt : (a b : ℕ) → ltb a b ≡ false → b ≤ a
not_lt a b h = ground arith

mul_grows : (x p : ℕ) → 1 ≤ p → x ≤ x * p
mul_grows zero p h = omega arith
mul_grows (suc x) p h = omega (arith, mul_grows x p h)

pow_mul : (x k : ℕ) → x * 2 ^ suc k ≡ x * 2 * 2 ^ k
pow_mul x k = ap (λ p. x * p) (pow-succ' 2 k) ∙ sym (mul_assoc x 2 (2 ^ k))

-- While no bit leaves the word, a shift is a product.
shl-fits : (x k : ℕ) → x * 2 ^ k < 2 ^ 64 → shl x k ≡ x * 2 ^ k
unfolding shl
shl-fits x zero h = omega arith
shl-fits x (suc k) h =
    let small : x * 2 < 2 ^ 64 =
      omega (arith, h, pow_mul x k, mul_grows (x * 2) (2 ^ k) (one-le-pow k 2 (omega arith))) in
    rw (mod-eq_of_lt small) (shl-fits (x * 2) k (omega (arith, h, pow_mul x k)) ∙ sym (pow_mul x k))

mod_factor : (a p : ℕ) → a % 2 ^ 64 * p % 2 ^ 64 ≡ a * p % 2 ^ 64
mod_factor a p =
    let whole : a * p ≡ a % 2 ^ 64 * p + a / 2 ^ 64 * p * 2 ^ 64 =
      ap (λ n. n * p) (sym (div-add-mod a (2 ^ 64)))
      ∙ add-mul (2 ^ 64 * (a / 2 ^ 64)) (a % 2 ^ 64) p
      ∙ omega arith in
    rw whole (sym (add-mul-mod_self_right (a % 2 ^ 64 * p) (a / 2 ^ 64 * p) (2 ^ 64)))

shl_last : (x k : ℕ) → shl x (suc k) ≡ shl x k * 2 % 2 ^ 64
unfolding shl
shl_last x zero = refl
shl_last x (suc k) = shl_last (x * 2 % 2 ^ 64) k

shl-mod : (x k : ℕ) → shl x k % 2 ^ 64 ≡ x * 2 ^ k % 2 ^ 64
unfolding shl
shl-mod x zero = omega arith
shl-mod x (suc k) =
    shl-mod (x * 2 % 2 ^ 64) k
    ∙ mod_factor (x * 2) (2 ^ k)
    ∙ ap (λ n. n % 2 ^ 64) (sym (pow_mul x k))

all_gone : (x : ℕ) → shl x 64 ≡ 0
all_gone x = omega (arith, shl_last x 63, shl-mod x 64)

-- After 64 places nothing is left of the number.
shl_gone : (x k : ℕ) → 64 ≤ k → shl x k ≡ 0
shl_gone x zero h = absurd (omega arith)
shl_gone x (suc k) h = elim (Bool-cases (leb 64 k)) [
  | inl e ↦ shl_last x k ∙ ap (λ n. n * 2 % 2 ^ 64) (shl_gone x k (omega (tests, e)))
  | inr e ↦
      let last : k ≡ 63 = omega (tests, not_le 64 k e) in
      subst (λ n. shl x (suc n) ≡ 0) (sym last) (all_gone x)
]

-- The rungs as documented: base, twice base, four times base, up to the ceiling.
unfoldable pub backoff : ℕ → ℕ → ℕ
backoff base failures = min (base * 2 ^ failures) (min (base * 16) peer_heartbeat_max_backoff)

int64_small : (n : ℕ) → n < 2 ^ 63 → int64 n ≡ pos n
int64_small n h = ground arith

at_most-min : (m n : ℕ) → at_most (pos m) (pos n) ≡ pos (min n m)
at_most-min m n =
    if_cases (λ i. i ≡ pos (min n m)) (ltbℤ (pos m) (pos n))
      (λ e. ap pos (omega (tests, ltb→lt (m + 0) (n + 0) e)))
      (λ e. ap pos (omega (arith, not_lt (m + 0) (n + 0) e)))

scaled_min : (m n : ℕ) → (if ltbℤ (pos m) (pos n) then pos m else pos n) ≡ pos (min m n)
scaled_min m n =
    if_cases (λ i. i ≡ pos (min m n)) (ltbℤ (pos m) (pos n))
      (λ e. ap pos (omega (tests, ltb→lt (m + 0) (n + 0) e)))
      (λ e. ap pos (omega (arith, not_lt (m + 0) (n + 0) e)))

ceiling_lem :
    (base : ℕ)
    → base * 16 < 2 ^ 63
    → heartbeat_max_backoff_for base ≡ pos (min (base * 16) peer_heartbeat_max_backoff)
unfolding heartbeat_max_backoff_for
ceiling_lem base h =
    let cap = pos peer_heartbeat_max_backoff in
    let fits : base * 16 < 2 ^ 64 = omega (arith, h) in
    let scaled = ap int64 (mod-eq_of_lt fits) ∙ int64_small (base * 16) h in
    ap (λ i. if ltbℤ i cap then i else cap) scaled
    ∙ scaled_min (base * 16) peer_heartbeat_max_backoff

interval_lem :
    (base k : ℕ)
    → base * 2 ^ k < 2 ^ 63
    → base * 16 < 2 ^ 63
    → at_most (heartbeat_max_backoff_for base) (int64 (shl base k)) ≡ pos (backoff base k)
unfolding heartbeat_max_backoff_for backoff
interval_lem base k fits ceiling =
    let shifted = shl-fits base k (omega (arith, fits)) in
    rw (ceiling_lem base ceiling) (
      rw shifted (
        rw (int64_small (base * 2 ^ k) fits)
          (at_most-min (min (base * 16) peer_heartbeat_max_backoff) (base * 2 ^ k))))

-- While neither the shift nor sixteen times the base leaves the int64, a failed probe is followed after
-- the least of base times 2 to the failures so far, sixteen times the base and 15 minutes.
pub schedule_probe_next-fails :
    (probe : PeerProbe) (now base : ℕ)
    → base * 2 ^ probe.failures < 2 ^ 63
    → base * 16 < 2 ^ 63
    → schedule_probe_next probe false now base ≡ record {
      next = pos now +ℤ pos (backoff base probe.failures);
      interval = pos (backoff base probe.failures);
      failures = probe.failures + 1;
    }
unfolding schedule_probe_next heartbeat_max_backoff_for backoff
schedule_probe_next-fails probe now base fits ceiling =
    ap (λ i. record { next = pos now +ℤ i; interval = i; failures = probe.failures + 1 })
      (interval_lem base probe.failures fits ceiling)

stuck :
    (base k : ℕ)
    → base * 16 < 2 ^ 63
    → 64 ≤ k
    → at_most (heartbeat_max_backoff_for base) (int64 (shl base k)) ≡ pos 0
stuck base k ceiling h = rw (ceiling_lem base ceiling) (
    rw (shl_gone base k h)
      (at_most-min (min (base * 16) peer_heartbeat_max_backoff) 0 ∙ ap pos (omega arith)))

plus_zero : (now : ℕ) → pos now +ℤ pos 0 ≡ pos now
plus_zero now =
    if_cases (λ i. i ≡ pos now) (leb 0 (now + 0)) (λ _. ap pos (omega arith))
      (λ e. absurd (ground (arith, e)))

-- For a base of which sixteen times fit an int64, a peer that has failed 64 probes in a row or more is
-- due again at once after each further failed probe: the shift has lost every bit of the base.
pub schedule_probe_next-overflows :
    (probe : PeerProbe) (now base : ℕ)
    → base * 16 < 2 ^ 63
    → 64 ≤ probe.failures
    → schedule_probe_next probe false now base
      ≡ record { next = pos now; interval = pos 0; failures = probe.failures + 1 }
unfolding schedule_probe_next
schedule_probe_next-overflows probe now base ceiling h =
    rw (stuck base probe.failures ceiling h) (
      ap (λ i. record { next = i; interval = pos 0; failures = probe.failures + 1 })
        (plus_zero now))

shared_out :
    (base peers q : ℕ)
    → base * q < 2 ^ 63
    → peers ≤ 6 * q
    → 1 ≤ q
    → (peers * base ≤ 6 * (base * q % 2 ^ 64)) × (base ≤ base * q % 2 ^ 64)
shared_out base peers q fits h one =
    let small : base * q < 2 ^ 64 = omega (arith, fits) in
    rw (mod-eq_of_lt small) (omega (arith, mul-le-mul_right base h), mul_grows base q one)

rounds_up : (peers : ℕ) → peers ≤ 6 * ((peers + 6 - 1) / 6)
rounds_up peers = omega arith

-- However many peers there are, they are probed at most six times in each base interval altogether,
-- and each no more often than alone, while the product fits an int64.
pub heartbeat_interval_for_peers-le :
    (base peers : ℕ)
    → base * ((peers + 6 - 1) / 6) < 2 ^ 63
    → (peers * base
        ≤ peer_heartbeat_max_probes_per_interval * heartbeat_interval_for_peers base peers)
      × (base ≤ heartbeat_interval_for_peers base peers)
unfolding heartbeat_interval_for_peers
heartbeat_interval_for_peers-le base peers fits =
    if_cases (λ i. (peers * base ≤ 6 * i) × (base ≤ i)) (leb peers 6)
      (λ e. (mul-le-mul_right base (leb→le peers 6 e), omega arith))
      (λ e.
        shared_out base peers ((peers + 6 - 1) / 6) fits (rounds_up peers)
          (omega (arith, not_le peers 6 e)))
