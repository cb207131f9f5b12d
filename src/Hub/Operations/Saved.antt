-- ===== src/Hub/Operations/Saved.antt =====
-- internal/hub/operations.go: what the saved history keeps, and what a restart finds of it.
use tantu.Prelude.{
  ℕ, zero, suc, ◌-◌, ◌≤◌, ◌≡◌, refl, ap, ◌∙◌, true, false, List, [], ◌∷◌, ltb, length, drop,
  length-drop, arith, All, if_cases,
}
use tantu.Hub.Operations.{
  OperationRecord, max_outbound_operations, is_kept, prune_operations_by_age,
  valid_persisted_operation, valid_only, newest, persisted, loaded,
}

module _ (P : OperationRecord → Type 0) where
  All-drop : (n : ℕ) (ops : List OperationRecord) → All P ops → All P (drop n ops)
  All-drop zero ops h = h
  All-drop (suc n) [] h = tt
  All-drop (suc n) (op ∷ ops) h = All-drop n ops h.1

  All-newest : (ops : List OperationRecord) → All P ops → All P (newest ops)
  unfolding newest
  All-newest ops h =
      if_cases (All P) (ltb max_outbound_operations (length ops))
        (λ _. All-drop (length ops - max_outbound_operations) ops h) (λ _. h)

  -- What is kept by age has what all had, and is recent.
  All-prune :
      (now : ℕ) (ops : List OperationRecord)
      → All P ops
      → All (λ op. P op × (is_kept now op ≡ true)) (prune_operations_by_age now ops)
  unfolding prune_operations_by_age
  All-prune now [] h = tt
  All-prune now (op ∷ ops) h =
      if_cases (All (λ op. P op × (is_kept now op ≡ true))) (is_kept now op)
        (λ e. ((h.0, e), All-prune now ops h.1)) (λ _. All-prune now ops h.1)

abbrev IsValid : OperationRecord → Type 0
IsValid op = valid_persisted_operation op ≡ true

abbrev pub IsSound : ℕ → OperationRecord → Type 0
IsSound now op = (valid_persisted_operation op ≡ true) × (is_kept now op ≡ true)

All-valid_only : (ops : List OperationRecord) → All IsValid (valid_only ops)
unfolding valid_only
All-valid_only [] = tt
All-valid_only (op ∷ ops) =
    if_cases (All IsValid) (valid_persisted_operation op) (λ e. (e, All-valid_only ops))
      (λ _. All-valid_only ops)

le_of : (a b : ℕ) → ltb a b ≡ false → b ≤ a
le_of a b h = ground arith

lt_false : (a b : ℕ) → b ≤ a → ltb a b ≡ false
lt_false a b h = ground arith

over :
    (n : ℕ)
    → ltb max_outbound_operations n ≡ true
    → n - (n - max_outbound_operations) ≤ max_outbound_operations
over n h = ground arith

length-newest : (ops : List OperationRecord) → length (newest ops) ≤ max_outbound_operations
unfolding newest
length-newest ops =
    if_cases (λ (xs : List OperationRecord). length xs ≤ max_outbound_operations)
      (ltb max_outbound_operations (length ops))
      (λ e.
        omega (arith, length-drop (length ops - max_outbound_operations) ops, over (length ops) e))
      (λ e. le_of max_outbound_operations (length ops) e)

-- Whatever the file holds, the history that a restart loads from it has at most 50 records, each of
-- them valid (an id, a time, a known kind and a known outcome) and within the retention.
pub loaded-IsSound :
    (now : ℕ) (ops : List OperationRecord)
    → All (IsSound now) (loaded now ops) × (length (loaded now ops) ≤ max_outbound_operations)
unfolding loaded
loaded-IsSound now ops =
    let valid = valid_only ops in
    (
      All-newest (IsSound now) (prune_operations_by_age now valid)
          (All-prune IsValid now valid (All-valid_only ops)),
      length-newest (prune_operations_by_age now valid),
    )

-- A history of sound records of the bound is kept as it is.
valid_only-same :
    (now : ℕ) (ops : List OperationRecord) → All (IsSound now) ops → valid_only ops ≡ ops
unfolding valid_only
valid_only-same now [] h = refl
valid_only-same now (op ∷ ops) h = rw h.0.0 (ap (◌∷◌ op) (valid_only-same now ops h.1))

prune-same :
    (now : ℕ) (ops : List OperationRecord)
    → All (IsSound now) ops
    → prune_operations_by_age now ops ≡ ops
unfolding prune_operations_by_age
prune-same now [] h = refl
prune-same now (op ∷ ops) h = rw h.0.1 (ap (◌∷◌ op) (prune-same now ops h.1))

newest-same : (ops : List OperationRecord) → length ops ≤ max_outbound_operations → newest ops ≡ ops
unfolding newest
newest-same ops h = rw (lt_false max_outbound_operations (length ops) h) refl

-- Of a history of valid records, what was saved is loaded again at once exactly as it was saved, in
-- the same order.
pub loaded-persisted :
    (now : ℕ) (ops : List OperationRecord)
    → All (λ op. valid_persisted_operation op ≡ true) ops
    → loaded now (persisted now ops) ≡ persisted now ops
unfolding loaded persisted
loaded-persisted now ops h =
    let recent = prune_operations_by_age now ops in
    let saved = newest recent in
    let sound = All-newest (IsSound now) recent (All-prune IsValid now ops h) in
    ap (λ xs. newest (prune_operations_by_age now xs)) (valid_only-same now saved sound)
    ∙ (ap newest (prune-same now saved sound) ∙ newest-same saved (length-newest recent))
