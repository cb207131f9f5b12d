-- ===== src/Hub/Operations/Ledger.antt =====
-- internal/hub/operations.go: one row for each transfer, a bounded number of rows, and no progress
-- behind an outcome.
use tantu.Prelude.{
  ℕ, zero, suc, ◌+◌, ◌≤◌, ◌≡◌, ◌≢◌, refl, sym, subst, ap, inl, inr, ℤ, pos, negsuc, Bool, false,
  not, ◌&&◌, List, [], ◌∷◌, ◌++◌, ltb, leb, if◌then◌else◌, length, length-append, arith, Bool-cases,
  if_cases,
}
use tantu.Text.{Text, is_empty, ◌=t◌}
use tantu.Text.Laws.{eq_sound}
use tantu.Hub.Operations.{
  OperationRecord, OperationLedger, effective, new_operation_ledger, advanced, update_items,
  update_progress, is_kept, prune_operations_by_age, has_id, replace_first, evict, size_of, add,
  clear,
}

-- How many rows a transfer has.
unfoldable pub rows : Text → List OperationRecord → ℕ
rows id [] = 0
rows id (op ∷ ops) = (if op.operation_id =t id then 1 else 0) + rows id ops

-- The operations on a ledger, with the time at which Add prunes.
pub data Step : Type 0 where
  adds : ℕ → OperationRecord → Step
  progresses : Text → ℕ → Step
  clears : Step

unfoldable pub step : OperationLedger → Step → OperationLedger
unfolding add update_progress clear
step l (adds now op) = add now l op
step l (progresses id bytes) = (update_progress l id bytes).0
step l clears = (clear l).0

unfoldable pub run : OperationLedger → List Step → OperationLedger
unfolding step
run l [] = l
run l (s ∷ ss) = run (step l s) ss

unguarded : (id : Text) (b : Bool) → id ≢ [] → (not (is_empty id) && b) ≡ false → b ≡ false
unguarded [] b named h = absurd (named refl)
unguarded (c ∷ id) b named h = h

module _ (id : Text) where
  rows-append : (xs ys : List OperationRecord) → rows id (xs ++ ys) ≡ rows id xs + rows id ys
  unfolding rows
  rows-append [] ys = omega arith
  rows-append (x ∷ xs) ys = omega (arith, rows-append xs ys)

  rows-prune :
      (now : ℕ) (xs : List OperationRecord) → rows id (prune_operations_by_age now xs) ≤ rows id xs
  unfolding rows prune_operations_by_age
  rows-prune now [] = omega arith
  rows-prune now (x ∷ xs) =
      if_cases (λ (ys : List OperationRecord). rows id ys ≤ rows id (x ∷ xs)) (is_kept now x)
        (λ _. omega (arith, rows-prune now xs)) (λ _. omega (arith, rows-prune now xs))

  rows-evict : (capacity : ℕ) (xs : List OperationRecord) → rows id (evict capacity xs) ≤ rows id xs
  unfolding rows evict
  rows-evict capacity [] = omega arith
  rows-evict capacity (x ∷ xs) =
      if_cases (λ (ys : List OperationRecord). rows id ys ≤ rows id (x ∷ xs))
        (leb capacity (length (x ∷ xs))) (λ _. omega (arith, rows-evict capacity xs))
        (λ _. omega arith)

  rows-has_id : (xs : List OperationRecord) → has_id id xs ≡ false → rows id xs ≡ 0
  unfolding rows has_id
  rows-has_id [] h = refl
  rows-has_id (x ∷ xs) h = ground (arith, rows-has_id xs)

  rows-replace :
      (new : OperationRecord) (xs : List OperationRecord)
      → rows id (replace_first new xs) ≡ rows id xs
  unfolding rows replace_first
  rows-replace new [] = refl
  rows-replace new (x ∷ xs) =
      if_cases (λ (ys : List OperationRecord). rows id ys ≡ rows id (x ∷ xs))
        (x.operation_id =t new.operation_id)
        (λ e.
          ap (λ t. (if t =t id then 1 else 0) + rows id xs)
            (sym (eq_sound x.operation_id new.operation_id e)))
        (λ _. ap (λ n. (if x.operation_id =t id then 1 else 0) + n) (rows-replace new xs))

  rows-advanced :
      (x : OperationRecord) (bytes : ℕ) (xs : List OperationRecord)
      → rows id (advanced x bytes ∷ xs) ≡ rows id (x ∷ xs)
  unfolding rows
  rows-advanced x bytes xs =
      if_cases (λ y. rows id (y ∷ xs) ≡ rows id (x ∷ xs)) (ltb x.bytes_sent bytes) (λ _. refl)
        (λ _. refl)

  rows-update :
      (at : Text) (bytes : ℕ) (xs : List OperationRecord)
      → rows id (update_items at bytes xs).0 ≡ rows id xs
  unfolding update_items rows
  rows-update at bytes [] = refl
  rows-update at bytes (x ∷ xs) =
      if_cases (λ (end : List OperationRecord × Bool). rows id end.0 ≡ rows id (x ∷ xs))
        (x.operation_id =t at)
        (λ _.
          if_cases (λ (end : List OperationRecord × Bool). rows id end.0 ≡ rows id (x ∷ xs))
            (is_empty x.state) (λ _. rows-advanced x bytes xs) (λ _. refl))
        (λ _. ap (λ n. (if x.operation_id =t id then 1 else 0) + n) (rows-update at bytes xs))

  fresh_row :
      (op : OperationRecord) (xs : List OperationRecord)
      → id ≢ []
      → (not (is_empty op.operation_id) && has_id op.operation_id xs) ≡ false
      → rows id xs ≤ 1
      → rows id (op ∷ []) + rows id xs ≤ 1
  unfolding rows
  fresh_row op xs named fresh h = elim (Bool-cases (op.operation_id =t id)) [
    | inr other ↦ rw other (omega (arith, h))
    | inl e ↦
        let same = eq_sound op.operation_id id e in
        let absent : (not (is_empty id) && has_id id xs) ≡ false =
          subst (λ t. (not (is_empty t) && has_id t xs) ≡ false) same fresh in
        rw e (omega (arith, rows-has_id xs (unguarded id (has_id id xs) named absent)))
  ]

  rows-add :
      (now : ℕ) (l : OperationLedger) (op : OperationRecord)
      → id ≢ []
      → rows id l.items ≤ 1
      → rows id (add now l op).items ≤ 1
  unfolding add
  rows-add now l op named h =
      if_cases (λ (end : OperationLedger). rows id end.items ≤ 1)
        (not (is_empty op.operation_id) && has_id op.operation_id l.items)
        (λ _. omega (arith, rows-replace op l.items, h))
        (λ fresh.
          let kept = evict (size_of (effective l.capacity)) l.items in
          omega (
            arith,
            rows-prune now (kept ++ (op ∷ [])),
            rows-append kept (op ∷ []),
            rows-evict (size_of (effective l.capacity)) l.items,
            fresh_row op l.items named fresh h,
          ))

  rows-step :
      (l : OperationLedger) (s : Step)
      → id ≢ []
      → rows id l.items ≤ 1
      → rows id (step l s).items ≤ 1
  unfolding step update_progress clear rows
  rows-step l (adds now op) named h = rows-add now l op named h
  rows-step l (progresses at bytes) named h =
      if_cases (λ (end : OperationLedger × Bool). rows id end.0.items ≤ 1) (is_empty at) (λ _. h)
        (λ _. omega (arith, rows-update at bytes l.items, h))
  rows-step l clears named h = omega arith

  rows-run :
      (l : OperationLedger) (ss : List Step)
      → id ≢ []
      → rows id l.items ≤ 1
      → rows id (run l ss).items ≤ 1
  unfolding run
  rows-run l [] named h = h
  rows-run l (s ∷ ss) named h = rows-run (step l s) ss named (rows-step l s named h)

length-prune :
    (now : ℕ) (xs : List OperationRecord) → length (prune_operations_by_age now xs) ≤ length xs
unfolding prune_operations_by_age
length-prune now [] = omega arith
length-prune now (x ∷ xs) =
    if_cases (λ (ys : List OperationRecord). length ys ≤ length (x ∷ xs)) (is_kept now x)
      (λ _. omega (arith, length-prune now xs)) (λ _. omega (arith, length-prune now xs))

not_le : (a b : ℕ) → leb a b ≡ false → suc b ≤ a
not_le a b h = ground arith

length-evict : (n : ℕ) (xs : List OperationRecord) → suc (length (evict (suc n) xs)) ≤ suc n
unfolding evict
length-evict n [] = omega arith
length-evict n (x ∷ xs) =
    if_cases (λ (ys : List OperationRecord). suc (length ys) ≤ suc n)
      (leb (suc n) (length (x ∷ xs))) (λ _. length-evict n xs)
      (λ e. not_le (suc n) (length (x ∷ xs)) e)

length-replace :
    (new : OperationRecord) (xs : List OperationRecord) → length (replace_first new xs) ≡ length xs
unfolding replace_first
length-replace new [] = refl
length-replace new (x ∷ xs) =
    if_cases (λ (ys : List OperationRecord). length ys ≡ length (x ∷ xs))
      (x.operation_id =t new.operation_id) (λ _. refl) (λ _. ap suc (length-replace new xs))

length-update :
    (at : Text) (bytes : ℕ) (xs : List OperationRecord)
    → length (update_items at bytes xs).0 ≡ length xs
unfolding update_items
length-update at bytes [] = refl
length-update at bytes (x ∷ xs) =
    if_cases (λ (end : List OperationRecord × Bool). length end.0 ≡ length (x ∷ xs))
      (x.operation_id =t at)
      (λ _.
        if_cases (λ (end : List OperationRecord × Bool). length end.0 ≡ length (x ∷ xs))
          (is_empty x.state) (λ _. refl) (λ _. refl))
      (λ _. ap suc (length-update at bytes xs))

-- The capacity is set and stays, and the rows fit it.
abbrev Fits : ℕ → OperationLedger → Type 0
Fits n l = (l.capacity ≡ pos (suc n)) × (length l.items ≤ suc n)

add-Fits :
    (n now : ℕ) (l : OperationLedger) (op : OperationRecord) → Fits n l → Fits n (add now l op)
unfolding add
add-Fits n now l op h =
    let capacity = size_of (effective l.capacity) in
    let kept = evict capacity l.items in
    let set = ap effective h.0 in
    if_cases (Fits n) (not (is_empty op.operation_id) && has_id op.operation_id l.items)
      (λ _. (set, omega (arith, length-replace op l.items, h.1)))
      (λ _. (
        set,
        omega (
          arith,
          length-prune now (kept ++ (op ∷ [])),
          length-append kept (op ∷ []),
          subst (λ m. suc (length (evict m l.items)) ≤ suc n) (sym (ap size_of set))
              (length-evict n l.items),
        ),
      ))

step-Fits : (n : ℕ) (l : OperationLedger) (s : Step) → Fits n l → Fits n (step l s)
unfolding step update_progress clear
step-Fits n l (adds now op) h = add-Fits n now l op h
step-Fits n l (progresses at bytes) h =
    if_cases (λ (end : OperationLedger × Bool). Fits n end.0) (is_empty at) (λ _. h)
      (λ _. (h.0, omega (arith, length-update at bytes l.items, h.1)))
step-Fits n l clears h = (h.0, omega arith)

run-Fits : (n : ℕ) (l : OperationLedger) (ss : List Step) → Fits n l → Fits n (run l ss)
unfolding run
run-Fits n l [] h = h
run-Fits n l (s ∷ ss) h = run-Fits n (step l s) ss (step-Fits n l s h)

-- After any history of additions, progress reports and clearings, in any order, a transfer with an id
-- has at most one row in the ledger: the outcome replaces the row of its beginning.
pub run_single_row :
    (capacity : ℤ) (ss : List Step) (id : Text)
    → id ≢ []
    → rows id (run (new_operation_ledger capacity) ss).items ≤ 1
unfolding new_operation_ledger rows
run_single_row capacity ss id named =
    rows-run id (new_operation_ledger capacity) ss named (omega arith)

-- After any history, a ledger holds at most the records of its capacity, with 50 where no positive
-- capacity was asked for.
pub run_bounded_rows :
    (capacity : ℤ) (ss : List Step)
    → length (run (new_operation_ledger capacity) ss).items ≤ size_of (effective capacity)
unfolding new_operation_ledger
run_bounded_rows (pos zero) ss =
    (run-Fits 49 (new_operation_ledger (pos zero)) ss (refl, omega arith)).1
run_bounded_rows (pos (suc n)) ss =
    (run-Fits n (new_operation_ledger (pos (suc n))) ss (refl, omega arith)).1
run_bounded_rows (negsuc n) ss =
    (run-Fits 49 (new_operation_ledger (negsuc n)) ss (refl, omega arith)).1
