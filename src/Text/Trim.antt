-- ===== src/Text/Trim.antt =====
-- Trimming never makes a text longer.
use mathlib.Core.List.{reverse, reverse-cons}
use tantu.Prelude.{ℕ, zero, suc, ◌≤◌, ◌≡◌, refl, ap, ◌∙◌, [], ◌∷◌, arith, length, length-append}
use tantu.Text.{Text, trim_by, trim_space, space_ahead, space_behind}

pub length-reverse : (s : Text) → length (reverse s) ≡ length s
length-reverse [] = refl
length-reverse (c ∷ s) =
    ap length (reverse-cons c s)
    ∙ omega (arith, length-append (reverse s) (c ∷ []), length-reverse s)

length-trim_by : (width : Text → ℕ) (skip : ℕ) (s : Text) → length (trim_by width skip s) ≤ length s
unfolding trim_by
length-trim_by width skip [] = omega arith
length-trim_by width (suc skip) (c ∷ s) = omega (arith, length-trim_by width skip s)
length-trim_by width zero (c ∷ s) =
    elim (width (c ∷ s))
      as (λ n. length (elim n [ zero ↦ c ∷ s | suc k ↦ trim_by width k s ]) ≤ length (c ∷ s)) [
        | zero ↦ omega arith
        | suc k ↦ omega (arith, length-trim_by width k s)
      ]

pub length-trim_space : (s : Text) → length (trim_space s) ≤ length s
unfolding trim_space
length-trim_space s =
    let ahead = trim_by space_ahead 0 s in
    let behind = trim_by space_behind 0 (reverse ahead) in
    omega (
      arith,
      length-reverse behind,
      length-trim_by space_behind 0 (reverse ahead),
      length-reverse ahead,
      length-trim_by space_ahead 0 s,
    )
