-- ===== src/Text/Assoc.antt =====
-- Go maps keyed by strings, as association lists: an assignment overwrites in place, a new key goes
-- to the end, `delete` removes every entry of the key. The order stands for one that a `range` over
-- the map may take.
use mathlib.Core.Option.{some-injective}
use tantu.Prelude.{
  suc, ◌≤◌, ◌≡◌, ◌≢◌, refl, subst, ◌⊎◌, inl, inr, Option, none, some, List, [], ◌∷◌, arith, length,
  Bool-cases, if◌then◌else◌, if_cases,
}
use tantu.Text.{Text, ◌=t◌}
use tantu.Text.Laws.{eq_iff, eq_self, eq_sound}

module _ {ℓ} {V : Type ℓ} where
  unfoldable pub lookup : Text → List (Text × V) → Option V
  lookup k [] = none
  lookup k ((j, v) ∷ m) = if j =t k then some v else lookup k m

  unfoldable pub put : Text → V → List (Text × V) → List (Text × V)
  put k v [] = (k, v) ∷ []
  put k v ((j, w) ∷ m) = if j =t k then (k, v) ∷ m else (j, w) ∷ put k v m

  unfoldable pub delete : Text → List (Text × V) → List (Text × V)
  delete k [] = []
  delete k ((j, w) ∷ m) = if j =t k then delete k m else (j, w) ∷ delete k m

  pub lookup-put :
      (k j : Text) (v : V) (m : List (Text × V))
      → lookup j (put k v m) ≡ (if k =t j then some v else lookup j m)
  unfolding lookup put
  lookup-put k j v [] = refl
  lookup-put k j v ((i, w) ∷ m) =
      ground (arith, eq_iff k j, eq_iff i k, eq_iff i j, lookup-put k j v m)

  pub lookup-delete :
      (k j : Text) (m : List (Text × V))
      → lookup j (delete k m) ≡ (if k =t j then none else lookup j m)
  unfolding lookup delete
  lookup-delete k j [] = ground arith
  lookup-delete k j ((i, w) ∷ m) =
      ground (arith, eq_iff k j, eq_iff i k, eq_iff i j, lookup-delete k j m)

  pub length-delete-le : (k : Text) (m : List (Text × V)) → length (delete k m) ≤ length m
  unfolding delete
  length-delete-le k [] = omega arith
  length-delete-le k ((i, w) ∷ m) = ground (arith, length-delete-le k m)

  pub length-put :
      (k : Text) (v : V) (m : List (Text × V))
      → ((lookup k m ≢ none) × (length (put k v m) ≡ length m))
        ⊎ ((lookup k m ≡ none) × (length (put k v m) ≡ suc (length m)))
  unfolding put lookup
  length-put k v [] = inr (refl, refl)
  length-put k v ((i, w) ∷ m) = elim (Bool-cases (i =t k)) [
    | inl e ↦ rw e (inl ((λ h. cc), refl))
    | inr e ↦ rw e (elim (length-put k v m) [
      | inl (h, l) ↦ inl (h, omega (arith, l))
      | inr (h, l) ↦ inr (h, omega (arith, l))
    ])
  ]

-- What holds of every entry.
module _ {ℓ κ} {V : Type ℓ} (P : Text → V → Type κ) where
  abbrev pub Every : List (Text × V) → Type κ
  Every [] = Unit
  Every ((k, v) ∷ m) = P k v × Every m

  pub put-Every : (k : Text) (v : V) (m : List (Text × V)) → P k v → Every m → Every (put k v m)
  unfolding put
  put-Every k v [] p h = (p, tt)
  put-Every k v ((j, w) ∷ m) p h =
      if_cases Every (j =t k) (λ _. (p, h.1)) (λ _. (h.0, put-Every k v m p h.1))

  pub delete-Every : (k : Text) (m : List (Text × V)) → Every m → Every (delete k m)
  unfolding delete
  delete-Every k [] h = tt
  delete-Every k ((j, w) ∷ m) h =
      if_cases Every (j =t k) (λ _. delete-Every k m h.1) (λ _. (h.0, delete-Every k m h.1))

  pub lookup-Every :
      (k : Text) (v : V) (m : List (Text × V)) → Every m → lookup k m ≡ some v → P k v
  unfolding lookup
  lookup-Every k v [] h e = absurd cc
  lookup-Every k v ((j, w) ∷ m) h e = elim (Bool-cases (j =t k)) [
    | inl same ↦
        subst (λ t. P t v) (eq_sound j k same)
          (subst (P j) (some-injective w v (ground (arith, same, e))) h.0)
    | inr other ↦ lookup-Every k v m h.1 (ground (arith, other, e))
  ]

-- A key that stands in a map: deleting it removes an entry.
abbrev pub Hits {ℓ} : {V : Type ℓ} → List (Text × V) → Text → Type 0
Hits m k = suc (length (delete k m)) ≤ length m

pub Every-map {ℓ κ μ} :
    {V : Type ℓ} (P : Text → V → Type κ) (Q : Text → V → Type μ) (m : List (Text × V))
    → ((k : Text) (v : V) → P k v → Q k v)
    → Every P m
    → Every Q m
Every-map P Q [] f h = tt
Every-map P Q ((k, v) ∷ m) f h = (f k v h.0, Every-map P Q m f h.1)

pub Hits-Every {ℓ} : {V : Type ℓ} (m : List (Text × V)) → Every (λ k v. Hits m k) m
unfolding delete
Hits-Every {V} [] = tt
Hits-Every {V} ((k, v) ∷ m) = (
  rw (eq_self k) (omega (arith, length-delete-le k m)),
  Every-map (λ j w. Hits m j) (λ j w. Hits ((k, v) ∷ m) j) m
      (λ j w h.
        if_cases (λ (xs : List (Text × V)). suc (length xs) ≤ suc (length m)) (k =t j)
          (λ _. omega (arith, h)) (λ _. omega (arith, h)))
      (Hits-Every m),
)
