-- ===== src/Hub/Relay/Bound.antt =====
-- internal/hub/relay_coordinator.go: how many calls are in flight.
use tantu.Prelude.{
  ℕ, suc, ◌≤◌, ◌≡◌, inl, inr, Bool, false, some, [], ◌∷◌, leb, arith, length, if_cases,
  Option-cases,
}
use tantu.Text.{Text, ◌=t◌, is_empty, trim_space}
use tantu.Text.Assoc.{lookup, put, length-put, length-delete-le}
use tantu.Hub.Relay.{
  RelayCall, Active, deadline_exceeded, finished, cancel, register_locked, put_off, deliver,
  delivers, clear, release_locked, describe, release_found, cancel_flow_by, release_where,
  cancel_attempt_by, new_call, Entry, max_relay_active_entries, enter_found, enter, update_found,
  at_key, Event, enters, clears, defers, leaves, times_out, registers, cancels_flow,
  cancels_attempt, on_event, Reachable, starts, steps,
}

length-put-some :
    (key : Text) (c d : RelayCall) (a : Active)
    → lookup key a ≡ some d
    → length (put key c a) ≡ length a
length-put-some key c d a there = elim (length-put key c a) [
  | inl (_, l) ↦ l
  | inr (free, _) ↦ absurd cc
]

length-put-le : (key : Text) (c : RelayCall) (a : Active) → length (put key c a) ≤ suc (length a)
length-put-le key c a = elim (length-put key c a) [
  | inl (_, l) ↦ omega (arith, l)
  | inr (_, l) ↦ omega (arith, l)
]

length-at_key :
    (key : Text) (f : RelayCall → RelayCall) (a : Active) → length (at_key key f a) ≤ length a
unfolding at_key update_found
length-at_key key f a = elim (Option-cases (lookup key a)) [
  | inl e ↦ rw e (omega arith)
  | inr (c, e) ↦ rw e (omega (arith, length-put-some key (f c) c a e))
]

module _ (hand : RelayCall × Bool → RelayCall) where
  length-cancel_flow_by :
      (key : Text) (a : Active) → length (cancel_flow_by hand key a).0 ≤ length a
  unfolding cancel_flow_by release_found
  length-cancel_flow_by key a = elim (Option-cases (lookup key a)) [
    | inl e ↦ rw e (omega arith)
    | inr (c, e) ↦ rw e (omega (arith, length-put-some key (hand (release_locked c)) c a e))
  ]

  length-release_where : (id : Text) (a : Active) → length (release_where hand id a).0 ≤ length a
  unfolding release_where
  length-release_where id [] = omega arith
  length-release_where id ((k, c) ∷ a) =
      if_cases (λ (r : Active × Bool). length r.0 ≤ suc (length a)) ((describe c).0 =t id)
        (λ _. omega (arith, length-release_where id a))
        (λ _. omega (arith, length-release_where id a))

room : (m n : ℕ) → m ≤ suc n → leb max_relay_active_entries n ≡ false → m ≤ max_relay_active_entries
room m n h l = ground (arith, h, l)

length-enter :
    (key : Text) (a : Active)
    → length a ≤ max_relay_active_entries
    → length (enter key a).0 ≤ max_relay_active_entries
unfolding enter enter_found
length-enter key a h = elim (Option-cases (lookup key a)) [
  | inr (c, e) ↦ rw e h
  | inl e ↦ rw e (
      if_cases (λ (r : Active × Entry). length r.0 ≤ max_relay_active_entries)
        (leb max_relay_active_entries (length a)) (λ _. h)
        (λ l. room (length (put key new_call a)) (length a) (length-put-le key new_call a) l))
]

length-on_event :
    (a : Active) (e : Event)
    → length a ≤ max_relay_active_entries
    → length (on_event a e) ≤ max_relay_active_entries
unfolding on_event cancel_attempt_by
length-on_event a (enters key) h = length-enter key a h
length-on_event a (registers key id peer flow) h =
    omega (arith, length-at_key key (λ c. put_off (register_locked c id peer flow)) a, h)
length-on_event a (delivers key) h = omega (arith, length-at_key key deliver a, h)
length-on_event a (times_out key) h =
    omega (arith, length-at_key key (cancel deadline_exceeded) a, h)
length-on_event a (clears key) h = omega (arith, length-at_key key clear a, h)
length-on_event a (defers key) h = omega (arith, length-at_key key (cancel finished) a, h)
length-on_event a (leaves key) h = omega (arith, length-delete-le key a, h)
length-on_event a (cancels_flow key) h = omega (arith, length-cancel_flow_by put_off key a, h)
length-on_event a (cancels_attempt id) h =
    if_cases (λ (r : Active × Bool). length r.0 ≤ max_relay_active_entries)
      (is_empty (trim_space id)) (λ _. h) (λ _. omega (arith, length-release_where put_off id a, h))

pub Reachable-short : (a : Active) → Reachable a → length a ≤ max_relay_active_entries
Reachable-short a starts = omega arith
Reachable-short a (steps b e r) = length-on_event b e (Reachable-short b r)
