-- ===== src/Discovery/Health/Bounded.antt =====
-- internal/discovery/health.go: an error that is shown is short, and ends at a whole character.
use tantu.Prelude.{
  ℕ, zero, suc, ◌-◌, ◌≤◌, ◌≡◌, refl, true, ◌++◌, arith, leb, length, take, length-append,
  length-take-le, if_cases, ◌⊎◌, inl, inr, leb→le,
}
use tantu.Text.{Text}
use tantu.Discovery.Health.{cut_back, starts_at, truncate_error, max_error, ellipsis}

cut_back_le : (msg : Text) (i : ℕ) → cut_back msg i ≤ i
unfolding cut_back
cut_back_le msg zero = omega arith
cut_back_le msg (suc i) =
    if_cases (λ (n : ℕ). n ≤ suc i) (starts_at msg (suc i)) (λ _. omega arith)
      (λ _. omega (arith, cut_back_le msg i))

cut_back_starts :
    (msg : Text) (i : ℕ) → (cut_back msg i ≡ 0) ⊎ (starts_at msg (cut_back msg i) ≡ true)
unfolding cut_back
cut_back_starts msg zero = inl refl
cut_back_starts msg (suc i) =
    if_cases (λ (n : ℕ). (n ≡ 0) ⊎ (starts_at msg n ≡ true)) (starts_at msg (suc i)) (λ e. inr e)
      (λ _. cut_back_starts msg i)

-- What truncateError gives: the message where it fits 200 bytes, else its first bytes with an ellipsis,
-- cut where a character starts or at none of them; never more than 200 bytes.
abbrev pub IsShown : Text → Text → Type 0
IsShown msg shown =
    (length shown ≤ max_error)
    × ((shown ≡ msg)
        ⊎ ((n : ℕ) × (shown ≡ take n msg ++ ellipsis) × ((n ≡ 0) ⊎ (starts_at msg n ≡ true))))

pub truncate_error-IsShown : (msg : Text) → IsShown msg (truncate_error msg)
unfolding truncate_error
truncate_error-IsShown msg =
    let n = cut_back msg (max_error - length ellipsis) in
    if_cases (IsShown msg) (leb (length msg) max_error)
      (λ fits. (leb→le (length msg) max_error fits, inl refl))
      (λ _. (
        omega (
          arith,
          length-append (take n msg) ellipsis,
          length-take-le n msg,
          cut_back_le msg (max_error - length ellipsis),
        ),
        inr (n, refl, cut_back_starts msg (max_error - length ellipsis)),
      ))
