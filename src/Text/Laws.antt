-- ===== src/Text/Laws.antt =====
-- Laws of the text functions.
use tantu.Prelude.{ℕ, ◌≡◌, refl, ◌↔◌, true, [], ◌∷◌, arith}
use tantu.Text.{Text, ◌=t◌, equal_fold, to_lower, lower_byte}

pub eq_sound : (s t : Text) → (s =t t) ≡ true → s ≡ t
unfolding ◌=t◌
eq_sound [] [] h = refl
eq_sound [] (b ∷ t) h = ground arith
eq_sound (a ∷ s) [] h = ground arith
eq_sound (a ∷ s) (b ∷ t) h = ground (arith, eq_sound s t)

pub eq_self : (s : Text) → (s =t s) ≡ true
unfolding ◌=t◌
eq_self [] = refl
eq_self (a ∷ s) = ground (arith, eq_self s)

-- The comparison of texts decides equality: list it at each pair that is compared.
pub eq_iff : (s t : Text) → ((s =t t) ≡ true) ↔ (s ≡ t)
eq_iff s t = (eq_sound s t, λ e. rw e (eq_self t))

pub equal_fold_self : (s : Text) → equal_fold s s ≡ true
unfolding equal_fold
equal_fold_self s = eq_self (to_lower s)

lower_byte_idem : (c : ℕ) → lower_byte (lower_byte c) ≡ lower_byte c
unfolding lower_byte
lower_byte_idem c = ground arith

pub to_lower_idem : (s : Text) → to_lower (to_lower s) ≡ to_lower s
unfolding to_lower
to_lower_idem [] = refl
to_lower_idem (c ∷ s) = rw (lower_byte_idem c, to_lower_idem s) refl

-- What `equal_fold` tells of two texts is that their lower case is the same.
pub equal_fold_lower : (s t : Text) → to_lower s ≡ t → to_lower t ≡ t → equal_fold s t ≡ true
unfolding equal_fold
equal_fold_lower s t e f = rw (e, f) (eq_self t)

pub equal_fold_sym : (s t : Text) → equal_fold s t ≡ true → equal_fold t s ≡ true
unfolding equal_fold
equal_fold_sym s t e = rw (eq_sound (to_lower s) (to_lower t) e) (eq_self (to_lower t))
