-- ===== src/Hub/RelayHistory/Newest.antt =====
-- internal/hub/relay_history.go: the ledger against a log that forgets nothing.
use mathlib.Core.List.{append_assoc, append-nil}
use tantu.Prelude.{
  ℕ, zero, suc, ◌-◌, ◌≤◌, ◌<◌, ◌≡◌, sym, ap, ◌∙◌, List, [], ◌∷◌, ◌++◌, drop, length, All, arith, ℤ,
  pos, negsuc,
}
use tantu.Hub.RelayHistory.{
  RelayAttempt, RelayLedger, capacity_of, new_relay_ledger, prune_relay_by_age, make_room,
  add_attempt,
}
use tantu.Hub.RelayHistory.Room.{
  IsRising, make_room-drop, make_room-append, make_room-make_room, length-make_room,
  prune-make_room, prune-append, make_room-IsRising, drop_nil,
}

-- An attempt and the time of its addition.
abbrev pub Addition : Type 0
Addition = ℕ × RelayAttempt

unfoldable pub add_all : RelayLedger → List Addition → RelayLedger
unfolding add_attempt
add_all l [] = l
add_all l ((now, op) ∷ es) = add_all (add_attempt now l op) es

-- The log: everything that was added, oldest first.
unfoldable pub log : List Addition → List RelayAttempt
log [] = []
log ((now, op) ∷ es) = op ∷ log es

-- Each attempt was created when it was added, and no addition is earlier than the one ahead of it.
abbrev pub IsTimely : ℕ → List Addition → Type 0
IsTimely start [] = Unit
IsTimely start ((now, op) ∷ es) = (start ≤ now) × (op.created_at ≡ now) × IsTimely now es

-- The time of the last addition.
unfoldable pub last_time : ℕ → List Addition → ℕ
last_time start [] = start
last_time start ((now, op) ∷ es) = last_time now es

-- What a ledger shows of the log: of its newest attempts, as many as fit, those within the retention.
unfoldable pub view : ℕ → ℕ → List RelayAttempt → List RelayAttempt
view now capacity whole = prune_relay_by_age now (drop (length whole - capacity) whole)

All-append :
    (x : RelayAttempt) (ops : List RelayAttempt) (op : RelayAttempt)
    → All (λ p. x.created_at ≤ p.created_at) ops
    → x.created_at ≤ op.created_at
    → All (λ p. x.created_at ≤ p.created_at) (ops ++ (op ∷ []))
All-append x [] op h le = (le, tt)
All-append x (p ∷ ops) op h le = (h.0, All-append x ops op h.1 le)

-- One addition, on the ledger and on the log.
view-step :
    (s t n : ℕ) (whole : List RelayAttempt) (op : RelayAttempt)
    → s ≤ t
    → IsRising whole
    → prune_relay_by_age t (make_room (suc n) (view s (suc n) whole) ++ (op ∷ []))
      ≡ view t (suc n) (whole ++ (op ∷ []))
unfolding view
view-step s t n whole op h rising =
    let newest = make_room (suc (suc n)) whole in
    let one = op ∷ [] in
    ap (λ xs. prune_relay_by_age t (make_room (suc n) (prune_relay_by_age s xs) ++ one))
      (sym (make_room-drop (suc n) whole))
    ∙ prune-append t (make_room (suc n) (prune_relay_by_age s newest)) one
    ∙ ap (λ xs. xs ++ prune_relay_by_age t one)
        (prune-make_room s t (suc n) newest h (make_room-IsRising (suc (suc n)) whole rising)
            (length-make_room (suc n) whole)
          ∙ ap (prune_relay_by_age t) (make_room-make_room (suc n) whole))
    ∙ sym (prune-append t (make_room (suc n) whole) one)
    ∙ ap (prune_relay_by_age t)
        (sym (make_room-append n whole op) ∙ make_room-drop (suc n) (whole ++ one))

-- A log up to a time.
abbrev IsUpTo : ℕ → List RelayAttempt → Type 0
IsUpTo t whole = (0 < t) × IsRising whole × All (λ p. p.created_at ≤ t) whole

IsUpTo-append :
    (s t : ℕ) (whole : List RelayAttempt) (op : RelayAttempt)
    → s ≤ t
    → op.created_at ≡ t
    → IsUpTo s whole
    → IsUpTo t (whole ++ (op ∷ []))
IsUpTo-append s t [] op h at up =
    (omega (arith, up.0, h), (omega (arith, up.0, h, at), tt, tt), (omega (arith, at), tt))
IsUpTo-append s t (x ∷ whole) op h at up =
    let rest = IsUpTo-append s t whole op h at (up.0, up.1.2, up.2.1) in
    (
      rest.0,
      (up.1.0, All-append x whole op up.1.1 (omega (arith, up.2.0, h, at)), rest.1),
      (omega (arith, up.2.0, h), rest.2),
    )

added :
    (n s : ℕ) (es : List Addition) (whole : List RelayAttempt)
    → IsUpTo s whole
    → IsTimely s es
    → (add_all (record { capacity = pos (suc n); items = view s (suc n) whole }) es).items
      ≡ view (last_time s es) (suc n) (whole ++ log es)
unfolding add_all add_attempt capacity_of last_time log
added n s [] whole up timely = ap (view s (suc n)) (sym (append-nil whole))
added n s ((now, op) ∷ es) whole up timely =
    let up' = IsUpTo-append s now whole op timely.0 timely.1 up in
    ap (λ xs. (add_all (record { capacity = pos (suc n); items = xs }) es).items)
      (view-step s now n whole op timely.0 up.1)
    ∙ added n now es (whole ++ (op ∷ [])) up' timely.2
    ∙ ap (view (last_time now es) (suc n)) (append_assoc whole (op ∷ []) (log es))

view_empty : (s n : ℕ) → view s n [] ≡ []
unfolding view prune_relay_by_age
view_empty s n = ap (prune_relay_by_age s) (drop_nil (0 - n))

from_empty :
    (n : ℕ) (es : List Addition)
    → IsTimely 1 es
    → (add_all (record { capacity = pos (suc n); items = [] }) es).items
      ≡ view (last_time 1 es) (suc n) (log es)
from_empty n es timely =
    ap (λ xs. (add_all (record { capacity = pos (suc n); items = xs }) es).items)
      (sym (view_empty 1 (suc n)))
    ∙ added n 1 es [] (omega arith, tt, tt) timely

-- After additions in the order of their times the ledger shows of the log of all of them exactly the
-- newest ones, as many as fit, that are within the retention at the last addition.
pub add_all-view :
    (capacity : ℤ) (es : List Addition)
    → IsTimely 1 es
    → (add_all (new_relay_ledger capacity) es).items
      ≡ view (last_time 1 es) (capacity_of capacity) (log es)
unfolding new_relay_ledger capacity_of
add_all-view (pos zero) es timely = from_empty 49 es timely
add_all-view (pos (suc n)) es timely = from_empty n es timely
add_all-view (negsuc n) es timely = from_empty 49 es timely
