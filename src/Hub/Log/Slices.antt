-- ===== src/Hub/Log/Slices.antt =====
-- The parts of a list that a ring writes and copies.
use tantu.Prelude.{
  ℕ, zero, suc, ◌+◌, ◌<◌, ◌≤◌, ◌≡◌, refl, sym, ◌∙◌, ap, List, [], ◌∷◌, ◌++◌, arith, length, take,
  drop, set,
}

module _ {A : Type 0} where
  pub take-set :
      (xs : List A) (i : ℕ) (v : A)
      → i < length xs
      → take (suc i) (set xs i v) ≡ take i xs ++ (v ∷ [])
  take-set [] i v h = absurd (omega arith)
  take-set (x ∷ xs) zero v h = refl
  take-set (x ∷ xs) (suc i) v h = ap (λ t. x ∷ t) (take-set xs i v (omega arith))

  pub drop-set : (xs : List A) (i : ℕ) (v : A) → drop (suc i) (set xs i v) ≡ drop (suc i) xs
  drop-set [] i v = refl
  drop-set (x ∷ xs) zero v = refl
  drop-set (x ∷ xs) (suc i) v = drop-set xs i v

  pub length-set : (xs : List A) (i : ℕ) (v : A) → length (set xs i v) ≡ length xs
  length-set [] i v = refl
  length-set (x ∷ xs) zero v = refl
  length-set (x ∷ xs) (suc i) v = ap suc (length-set xs i v)

  pub take_all : (xs : List A) (n : ℕ) → length xs ≤ n → take n xs ≡ xs
  take_all [] zero h = refl
  take_all [] (suc n) h = refl
  take_all (x ∷ xs) zero h = absurd (omega arith)
  take_all (x ∷ xs) (suc n) h = ap (λ t. x ∷ t) (take_all xs n (omega arith))

  pub drop_all : (xs : List A) (n : ℕ) → length xs ≤ n → drop n xs ≡ []
  drop_all [] zero h = refl
  drop_all [] (suc n) h = refl
  drop_all (x ∷ xs) zero h = absurd (omega arith)
  drop_all (x ∷ xs) (suc n) h = drop_all xs n (omega arith)

  -- The list behind its first element.
  pub drop-one :
      (xs ys : List A) (i : ℕ) → i < length xs → drop 1 (drop i xs ++ ys) ≡ drop (suc i) xs ++ ys
  drop-one [] ys i h = absurd (omega arith)
  drop-one (x ∷ xs) ys zero h = refl
  drop-one (x ∷ xs) ys (suc i) h = drop-one xs ys i (omega arith)

  pub drop-append : (xs ys : List A) (k : ℕ) → k ≤ length xs → drop k (xs ++ ys) ≡ drop k xs ++ ys
  drop-append xs ys zero h = refl
  drop-append [] ys (suc k) h = absurd (omega arith)
  drop-append (x ∷ xs) ys (suc k) h = drop-append xs ys k (omega arith)

  pub drop-nil : (k : ℕ) → drop {A = A} k [] ≡ []
  drop-nil zero = refl
  drop-nil (suc k) = refl

  pub drop-drop : (xs : List A) (k j : ℕ) → drop j (drop k xs) ≡ drop (k + j) xs
  drop-drop xs zero j = ap (λ i. drop i xs) {y = zero + j} (omega arith)
  drop-drop [] (suc k) j = drop-nil j ∙ sym (drop-nil (suc k + j))
  drop-drop (x ∷ xs) (suc k) j =
      drop-drop xs k j ∙ ap (λ i. drop i (x ∷ xs)) {x = suc (k + j)} {y = suc k + j} (omega arith)
