-- ===== src/Text/Split.antt =====
-- Splitting, joining and replacing single bytes.
use mathlib.Core.List.{reverse, reverse-append}
use tantu.Prelude.{
  ℕ, ◌≤◌, ◌≡◌, ◌≢◌, refl, ◌∙◌, ap, inl, inr, true, List, [], ◌∷◌, ◌++◌, map, arith, length,
  length-append, All, Bool-cases, ◌==◌, if_cases, if◌then◌else◌,
}
use tantu.Text.{Text, split, join, prepend, trim_right, drop_of, contains_byte}

split_nonempty : (s : Text) (sep : ℕ) → split s sep ≢ []
unfolding split
split_nonempty [] sep e = cc
split_nonempty (c ∷ s) sep e = go (split s sep) e
  where
    go : (rest : List Text) → (if c == sep then [] ∷ rest else prepend c rest) ≢ []
    go [] h = ground arith
    go (seg ∷ segs) h = ground arith

join-prepend :
    (c sep : ℕ) (segs : List Text) → segs ≢ [] → join (prepend c segs) sep ≡ c ∷ join segs sep
unfolding join
join-prepend c sep [] h = absurd (h refl)
join-prepend c sep (seg ∷ []) h = refl
join-prepend c sep (seg ∷ next ∷ segs) h = refl

join_empty : (sep : ℕ) (segs : List Text) → segs ≢ [] → join ([] ∷ segs) sep ≡ sep ∷ join segs sep
unfolding join
join_empty sep [] h = absurd (h refl)
join_empty sep (seg ∷ segs) h = refl

-- Joining what was split gives the text back.
pub join-split : (s : Text) (sep : ℕ) → join (split s sep) sep ≡ s
unfolding split
join-split [] sep = unfold join in refl
join-split (c ∷ s) sep =
    let rest = split s sep in
    if_cases (λ segs. join segs sep ≡ c ∷ s) (c == sep)
      (λ e.
        let same : sep ≡ c = ground arith in
        join_empty sep rest (split_nonempty s sep)
        ∙ (ap (λ r. sep ∷ r) (join-split s sep) ∙ ap (λ x. x ∷ s) same))
      (λ _. join-prepend c sep rest (split_nonempty s sep) ∙ ap (λ r. c ∷ r) (join-split s sep))

module _ (P : ℕ → Type 0) where
  All-prepend : (c : ℕ) (segs : List Text) → P c → All (All P) segs → All (All P) (prepend c segs)
  All-prepend c [] p h = ((p, tt), tt)
  All-prepend c (seg ∷ segs) p h = ((p, h.0), h.1)

  -- What holds of every byte but the separator holds of every byte of the parts.
  pub All-split : (s : Text) (sep : ℕ) → All (λ c. c ≢ sep → P c) s → All (All P) (split s sep)
  unfolding split
  All-split [] sep h = (tt, tt)
  All-split (c ∷ s) sep h =
      if_cases (All (All P)) (c == sep) (λ _. (tt, All-split s sep h.1))
        (λ other. All-prepend c (split s sep) (h.0 (ground arith)) (All-split s sep h.1))

  pub All-map : (f : ℕ → ℕ) (s : Text) → ((c : ℕ) → P (f c)) → All P (map f s)
  All-map f [] h = tt
  All-map f (c ∷ s) h = (h c, All-map f s h)

length-reverse : (xs : Text) → length (reverse xs) ≡ length xs
length-reverse [] = refl
length-reverse (x ∷ xs) = omega (
  arith,
  ap length (reverse-append (x ∷ []) xs),
  length-append (reverse xs) (x ∷ []),
  length-reverse xs,
)

length-drop_of : (cutset s : Text) → length (drop_of cutset s) ≤ length s
unfolding drop_of
length-drop_of cutset [] = omega arith
length-drop_of cutset (c ∷ s) = elim (Bool-cases (contains_byte cutset c)) [
  | inl e ↦ rw (e, drop_of) (omega (arith, length-drop_of cutset s))
  | inr e ↦ rw (e, drop_of) (omega arith)
]

-- A text that ends in a byte of the cutset is not its own trimming.
pub trim_right_shortens :
    (s cutset : Text) (c : ℕ)
    → contains_byte cutset c ≡ true
    → trim_right (s ++ c ∷ []) cutset ≢ s ++ c ∷ []
unfolding trim_right drop_of
trim_right_shortens s cutset c h e =
    let turned : reverse (s ++ c ∷ []) ≡ c ∷ reverse s = reverse-append s (c ∷ []) in
    let dropped : drop_of cutset (c ∷ reverse s) ≡ drop_of cutset (reverse s) =
      rw (h, drop_of) refl in
    omega (
      arith,
      ap length e,
      ap (λ t. length (reverse (drop_of cutset t))) turned,
      ap (λ t. length (reverse t)) dropped,
      length-reverse (drop_of cutset (reverse s)),
      length-drop_of cutset (reverse s),
      length-reverse s,
      length-append s (c ∷ []),
    )
