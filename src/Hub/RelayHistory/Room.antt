-- ===== src/Hub/RelayHistory/Room.antt =====
-- internal/hub/relay_history.go: how pruning by age and making room go together.
use tantu.Prelude.{
  ℕ, zero, suc, ◌+◌, ◌-◌, ◌≤◌, ◌<◌, ◌≡◌, refl, sym, ap, ◌∙◌, true, false, List, [], ◌∷◌, ◌++◌, leb,
  if_cases, drop, length, length-append, inl, inr, Bool-cases, tests, All, arith,
}
use tantu.Hub.RelayHistory.{RelayAttempt, is_recent, prune_relay_by_age, make_room}

abbrev pub IsRising : List RelayAttempt → Type 0
IsRising [] = Unit
IsRising (op ∷ ops) =
    (0 < op.created_at) × All (λ p. op.created_at ≤ p.created_at) ops × IsRising ops

not_leb : (a b : ℕ) → leb a b ≡ false → b < a
not_leb a b h = ground arith

shifted : (n m : ℕ) → leb (suc (suc n)) (suc (m + 1)) ≡ leb (suc n) (suc m)
shifted n m = ground arith

later_recent :
    (now : ℕ) (op p : RelayAttempt)
    → 0 < op.created_at
    → is_recent now op ≡ true
    → op.created_at ≤ p.created_at
    → is_recent now p ≡ true
unfolding is_recent
later_recent now op p set recent h = ground (arith, set, recent, h)

All-recent :
    (now : ℕ) (op : RelayAttempt) (ops : List RelayAttempt)
    → 0 < op.created_at
    → is_recent now op ≡ true
    → All (λ p. op.created_at ≤ p.created_at) ops
    → prune_relay_by_age now ops ≡ ops
unfolding prune_relay_by_age
All-recent now op [] set recent h = refl
All-recent now op (p ∷ ops) set recent h =
    let recent' : is_recent now p ≡ true = later_recent now op p set recent h.0 in
    rw recent' (ap (◌∷◌ p) (All-recent now op ops set recent h.1))

older_still :
    (s t : ℕ) (op : RelayAttempt) → s ≤ t → is_recent s op ≡ false → is_recent t op ≡ false
unfolding is_recent
older_still s t op h old = ground (arith, h, old)

prune-prune :
    (s t : ℕ) (ops : List RelayAttempt)
    → s ≤ t
    → prune_relay_by_age t (prune_relay_by_age s ops) ≡ prune_relay_by_age t ops
unfolding prune_relay_by_age
prune-prune s t [] h = refl
prune-prune s t (op ∷ ops) h = elim (Bool-cases (is_recent s op)) [
  | inl e ↦ rw (e, prune-prune s t ops h) refl
  | inr e ↦ rw (e, older_still s t op h e) (prune-prune s t ops h)
]

pub prune-append :
    (t : ℕ) (ops more : List RelayAttempt)
    → prune_relay_by_age t (ops ++ more) ≡ prune_relay_by_age t ops ++ prune_relay_by_age t more
unfolding prune_relay_by_age
prune-append t [] more = refl
prune-append t (op ∷ ops) more = elim (Bool-cases (is_recent t op)) [
  | inl e ↦ rw e (ap (◌∷◌ op) (prune-append t ops more))
  | inr e ↦ rw e (prune-append t ops more)
]

length-prune : (t : ℕ) (ops : List RelayAttempt) → length (prune_relay_by_age t ops) ≤ length ops
unfolding prune_relay_by_age
length-prune t [] = omega arith
length-prune t (op ∷ ops) =
    if_cases (λ (xs : List RelayAttempt). length xs ≤ suc (length ops)) (is_recent t op)
      (λ _. omega (arith, length-prune t ops)) (λ _. omega (arith, length-prune t ops))

-- Where there is room, nothing goes.
make_room_kept : (n : ℕ) (ops : List RelayAttempt) → length ops < n → make_room n ops ≡ ops
unfolding make_room
make_room_kept n [] h = refl
make_room_kept n (op ∷ ops) h =
    if_cases (λ (xs : List RelayAttempt). xs ≡ op ∷ ops) (leb n (length (op ∷ ops)))
      (λ e. absurd (ground (arith, e, h))) (λ _. refl)

pub drop_nil : (n : ℕ) → drop {A = RelayAttempt} n [] ≡ []
drop_nil zero = refl
drop_nil (suc n) = refl

-- The loop that makes room leaves the newest ones.
pub make_room-drop :
    (n : ℕ) (ops : List RelayAttempt) → make_room (suc n) ops ≡ drop (length ops - n) ops
unfolding make_room
make_room-drop n [] = sym (drop_nil (0 - n))
make_room-drop n (op ∷ ops) =
    if_cases (λ (xs : List RelayAttempt). xs ≡ drop (suc (length ops) - n) (op ∷ ops))
      (leb (suc n) (suc (length ops)))
      (λ e.
        let one_more : suc (length ops - n) ≡ suc (length ops) - n = omega (tests, e) in
        make_room-drop n ops ∙ ap (λ k. drop k (op ∷ ops)) one_more)
      (λ e.
        let none_more : 0 ≡ suc (length ops) - n =
          omega (arith, not_leb (suc n) (suc (length ops)) e) in
        ap (λ k. drop k (op ∷ ops)) none_more)

same_test :
    (n : ℕ) (ops : List RelayAttempt) (op : RelayAttempt)
    → leb (suc (suc n)) (suc (length (ops ++ (op ∷ [])))) ≡ leb (suc n) (suc (length ops))
same_test n ops op = rw (length-append ops (op ∷ [])) (shifted n (length ops))

pub make_room-append :
    (n : ℕ) (ops : List RelayAttempt) (op : RelayAttempt)
    → make_room (suc (suc n)) (ops ++ (op ∷ [])) ≡ make_room (suc n) ops ++ (op ∷ [])
unfolding make_room
make_room-append n [] op =
    if_cases (λ (xs : List RelayAttempt). xs ≡ op ∷ []) (leb (suc (suc n)) 1)
      (λ e. absurd (ground (arith, e))) (λ _. refl)
make_room-append n (x ∷ ops) op = elim (Bool-cases (leb (suc n) (suc (length ops)))) [
  | inl e ↦ rw (same_test n ops op, e) (make_room-append n ops op)
  | inr e ↦ rw (same_test n ops op, e) refl
]

-- A loop that leaves more first changes nothing.
pub make_room-make_room :
    (n : ℕ) (ops : List RelayAttempt) → make_room n (make_room (suc n) ops) ≡ make_room n ops
unfolding make_room
make_room-make_room n [] = refl
make_room-make_room n (op ∷ ops) = elim (Bool-cases (leb (suc n) (suc (length ops)))) [
  | inl e ↦
      let wider : leb n (suc (length ops)) ≡ true = ground (arith, e) in
      rw (e, wider) (make_room-make_room n ops)
  | inr e ↦ rw e refl
]

pub length-make_room : (n : ℕ) (ops : List RelayAttempt) → length (make_room (suc n) ops) ≤ n
unfolding make_room
length-make_room n [] = omega arith
length-make_room n (op ∷ ops) =
    if_cases (λ (xs : List RelayAttempt). length xs ≤ n) (leb (suc n) (suc (length ops)))
      (λ _. length-make_room n ops) (λ e. omega (arith, not_leb (suc n) (suc (length ops)) e))

prune_nil :
    (s t n : ℕ)
    → prune_relay_by_age t (make_room n (prune_relay_by_age s []))
      ≡ prune_relay_by_age t (make_room n [])
unfolding prune_relay_by_age make_room
prune_nil s t n = refl

prune_head :
    (s : ℕ) (op : RelayAttempt) (ops : List RelayAttempt)
    → is_recent s op ≡ true
    → prune_relay_by_age s ops ≡ ops
    → prune_relay_by_age s (op ∷ ops) ≡ op ∷ ops
unfolding prune_relay_by_age
prune_head s op ops e rest = rw e (ap (◌∷◌ op) rest)

prune_old :
    (s : ℕ) (op : RelayAttempt) (ops : List RelayAttempt)
    → is_recent s op ≡ false
    → prune_relay_by_age s (op ∷ ops) ≡ prune_relay_by_age s ops
unfolding prune_relay_by_age
prune_old s op ops e = rw e refl

prune_first :
    (t n : ℕ) (op : RelayAttempt) (ops : List RelayAttempt)
    → suc (length ops) ≤ n
    → is_recent t op ≡ false
    → prune_relay_by_age t (make_room n (op ∷ ops)) ≡ prune_relay_by_age t ops
unfolding make_room
prune_first t n op ops fits old =
    if_cases (λ (xs : List RelayAttempt). prune_relay_by_age t xs ≡ prune_relay_by_age t ops)
      (leb n (suc (length ops))) (λ _. ap (prune_relay_by_age t) (make_room_kept n ops fits))
      (λ _. prune_old t op ops old)

-- Pruning before the loop that makes room is no different from pruning behind it.
pub prune-make_room :
    (s t n : ℕ) (ops : List RelayAttempt)
    → s ≤ t
    → IsRising ops
    → length ops ≤ n
    → prune_relay_by_age t (make_room n (prune_relay_by_age s ops))
      ≡ prune_relay_by_age t (make_room n ops)
prune-make_room s t n [] h rising fits = prune_nil s t n
prune-make_room s t n (op ∷ ops) h rising fits = elim (Bool-cases (is_recent s op)) [
  | inl e ↦
      ap (λ xs. prune_relay_by_age t (make_room n xs))
        (prune_head s op ops e (All-recent s op ops rising.0 e rising.1))
  | inr e ↦
      let room : length (prune_relay_by_age s ops) < n = omega (arith, length-prune s ops, fits) in
      ap (λ xs. prune_relay_by_age t (make_room n xs)) (prune_old s op ops e)
      ∙ ap (prune_relay_by_age t) (make_room_kept n (prune_relay_by_age s ops) room)
      ∙ prune-prune s t ops h
      ∙ sym (prune_first t n op ops fits (older_still s t op h e))
]

pub make_room-IsRising :
    (n : ℕ) (ops : List RelayAttempt) → IsRising ops → IsRising (make_room n ops)
unfolding make_room
make_room-IsRising n [] h = tt
make_room-IsRising n (op ∷ ops) h =
    if_cases IsRising (leb n (length (op ∷ ops))) (λ _. make_room-IsRising n ops h.2) (λ _. h)
