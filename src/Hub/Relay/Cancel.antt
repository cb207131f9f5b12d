-- ===== src/Hub/Relay/Cancel.antt =====
-- internal/hub/relay_coordinator.go: a cancel is not lost, and there are never too many calls.
use tantu.Prelude.{
  ◌+◌, ◌==◌, ◌≤◌, ◌≡◌, ◌≢◌, ◌⊎◌, refl, ◌∙◌, inl, inr, Bool, true, false, Option, none, some, [],
  ◌∷◌, leb, arith, length, if_cases, Option-cases,
}
use tantu.Text.{Text, ◌=t◌, is_empty, trim_space}
use tantu.Text.Laws.{eq_self}
use tantu.Text.Assoc.{lookup, put, lookup-put, Every, put-Every, delete-Every, lookup-Every}
use tantu.Hub.Relay.{
  RelayCall, Active, Cause, canceled, deadline_exceeded, finished, cancel, at_once, put_off,
  deliver, register_locked, register, clear, release_locked, release, describe, release_found,
  cancel_flow_by, cancel_flow, release_where, cancel_attempt_by, new_call, Entry,
  max_relay_active_entries, enter_found, enter, update_found, at_key, Event, enters, clears, defers,
  leaves, times_out, delivers, registers, cancels_flow, cancels_attempt, on_event, Reachable,
  starts, steps, first_cause,
}
use tantu.Hub.Relay.Bound.{Reachable-short}

-- A call has no cancel installed, or was not asked to be released, or its context is cancelled, or a
-- call of its cancel is due, which cancels the context.
abbrev pub IsSettled : RelayCall → Type 0
IsSettled c =
    (c.installed ≡ false)
    ⊎ ((c.released ≡ false) ⊎ ((c.cause ≢ none) ⊎ ((1 ≤ c.due) × ((deliver c).cause ≢ none))))

abbrev pub Settled : Text → RelayCall → Type 0
Settled k c = IsSettled c

first_cause_some : (o : Option Cause) (e : Cause) → first_cause o e ≢ none
first_cause_some none e h = cc
first_cause_some (some d) e h = cc

cancel-IsSettled : (e : Cause) (c : RelayCall) → IsSettled (cancel e c)
unfolding cancel
cancel-IsSettled e c = inr (inr (inl (first_cause_some c.cause e)))

-- A call of cancel that was put off is due.
due-IsSettled : (c : RelayCall) → IsSettled (record c { due = c.due + 1 })
unfolding deliver cancel
due-IsSettled c = inr (
    inr (
      inr (
        omega arith,
        if_cases (λ (d : RelayCall). d.cause ≢ none) ((c.due + 1) == 0)
            (λ e. absurd (ground (arith, e))) (λ _. first_cause_some c.cause canceled),
      )))

put_off-IsSettled :
    (c : RelayCall) (handed : Bool)
    → (handed ≡ false → IsSettled c)
    → IsSettled (put_off (c, handed))
unfolding put_off
put_off-IsSettled c true kept = due-IsSettled c
put_off-IsSettled c false kept = kept refl

register-IsSettled :
    (c : RelayCall) (id peer flow : Text) → IsSettled (put_off (register_locked c id peer flow))
unfolding register_locked
register-IsSettled c id peer flow = put_off-IsSettled _ c.released (λ e. inr (inl e))

release-IsSettled : (c : RelayCall) → IsSettled (put_off (release_locked c))
unfolding release_locked
release-IsSettled c = put_off-IsSettled _ c.installed (λ e. inl e)

clear-IsSettled : (c : RelayCall) → IsSettled (clear c)
unfolding clear
clear-IsSettled c = inl refl

deliver-IsSettled : (c : RelayCall) → IsSettled c → IsSettled (deliver c)
unfolding deliver cancel
deliver-IsSettled c h =
    if_cases IsSettled (c.due == 0) (λ _. h)
      (λ _. inr (inr (inl (first_cause_some c.cause canceled))))

at_key-Every :
    (key : Text) (f : RelayCall → RelayCall) (a : Active)
    → ((c : RelayCall) → IsSettled c → IsSettled (f c))
    → Every Settled a
    → Every Settled (at_key key f a)
unfolding at_key update_found
at_key-Every key f a settles h = elim (Option-cases (lookup key a)) [
  | inl e ↦ rw e h
  | inr (c, e) ↦
      rw e (put-Every Settled key (f c) a (settles c (lookup-Every Settled key c a h e)) h)
]

cancel_flow-Every :
    (key : Text) (a : Active) → Every Settled a → Every Settled (cancel_flow_by put_off key a).0
unfolding cancel_flow_by release_found
cancel_flow-Every key a h = elim (Option-cases (lookup key a)) [
  | inl e ↦ rw e h
  | inr (c, e) ↦ rw e (put-Every Settled key (put_off (release_locked c)) a (release-IsSettled c) h)
]

release_where-Every :
    (id : Text) (a : Active) → Every Settled a → Every Settled (release_where put_off id a).0
unfolding release_where
release_where-Every id [] h = tt
release_where-Every id ((k, c) ∷ a) h =
    if_cases (λ (r : Active × Bool). Every Settled r.0) ((describe c).0 =t id)
      (λ _. (release-IsSettled c, release_where-Every id a h.1))
      (λ _. (h.0, release_where-Every id a h.1))

enter_found-Every :
    (o : Option RelayCall) (key : Text) (a : Active)
    → Every Settled a
    → Every Settled (enter_found o key a).0
unfolding enter_found
enter_found-Every (some c) key a h = h
enter_found-Every none key a h =
    if_cases (λ (r : Active × Entry). Every Settled r.0) (leb max_relay_active_entries (length a))
      (λ _. h) (λ _. put-Every Settled key new_call a (inl refl) h)

on_event-Every : (a : Active) (e : Event) → Every Settled a → Every Settled (on_event a e)
unfolding on_event enter cancel_attempt_by
on_event-Every a (enters key) h = enter_found-Every (lookup key a) key a h
on_event-Every a (registers key id peer flow) h =
    at_key-Every key (λ c. put_off (register_locked c id peer flow)) a
      (λ c _. register-IsSettled c id peer flow) h
on_event-Every a (delivers key) h = at_key-Every key deliver a deliver-IsSettled h
on_event-Every a (times_out key) h =
    at_key-Every key (cancel deadline_exceeded) a (λ c _. cancel-IsSettled deadline_exceeded c) h
on_event-Every a (clears key) h = at_key-Every key clear a (λ c _. clear-IsSettled c) h
on_event-Every a (defers key) h =
    at_key-Every key (cancel finished) a (λ c _. cancel-IsSettled finished c) h
on_event-Every a (leaves key) h = delete-Every Settled key a h
on_event-Every a (cancels_flow key) h = cancel_flow-Every key a h
on_event-Every a (cancels_attempt id) h =
    if_cases (λ (r : Active × Bool). Every Settled r.0) (is_empty (trim_space id)) (λ _. h)
      (λ _. release_where-Every id a h)

Reachable-Every : (a : Active) → Reachable a → Every Settled a
Reachable-Every a starts = tt
Reachable-Every a (steps b e r) = on_event-Every b e (Reachable-Every b r)

-- In any order of entries, registrations, cancels, calls of cancel behind the locks, timeouts and ends
-- there are at most 128 calls in flight, and each of them has no cancel installed, or was not asked to
-- be released, or has a cancelled context, or has a call of its cancel due, which cancels it.
pub Reachable-released :
    (a : Active) → Reachable a → (length a ≤ max_relay_active_entries) × Every Settled a
Reachable-released a r = (Reachable-short a r, Reachable-Every a r)

put_there : (key : Text) (c : RelayCall) (a : Active) → lookup key (put key c a) ≡ some c
put_there key c a = lookup-put key key c a ∙ rw (eq_self key) refl

lookup-at_key :
    (key : Text) (f : RelayCall → RelayCall) (c : RelayCall) (a : Active)
    → lookup key a ≡ some c
    → lookup key (at_key key f a) ≡ some (f c)
unfolding at_key update_found
lookup-at_key key f c a there = rw there (put_there key (f c) a)

lookup-cancel_flow :
    (key : Text) (c : RelayCall) (a : Active)
    → lookup key a ≡ some c
    → lookup key (cancel_flow key a).0 ≡ some (release c).0
unfolding cancel_flow cancel_flow_by release_found release
lookup-cancel_flow key c a there = rw there (put_there key (release c).0 a)

module _ (c : RelayCall) (id peer flow : Text) where
  register-release : (register (release c).0 id peer flow).cause ≢ none
  unfolding register release at_once register_locked release_locked cancel
  register-release =
      if_cases (λ (r : RelayCall). (register r id peer flow).cause ≢ none) c.installed
        (λ _. first_cause_some (first_cause c.cause canceled) canceled)
        (λ _. first_cause_some c.cause canceled)

  register-installs : (register c id peer flow).installed ≡ true
  unfolding register at_once register_locked cancel
  register-installs =
      if_cases (λ (d : RelayCall). d.installed ≡ true) c.released (λ _. refl) (λ _. refl)

  release-register : (release (register c id peer flow)).0.cause ≢ none
  unfolding release at_once release_locked cancel
  release-register =
      let d = register c id peer flow in
      if_cases (λ (r : RelayCall). r.cause ≢ none) d.installed
        (λ _. first_cause_some d.cause canceled)
        (λ e. absurd (ground (arith, e, register-installs)))

-- A cancel of a call in flight is in its context once the flow has registered, whichever came first.
pub cancel_flow-reaches :
    (a : Active) (key : Text) (c : RelayCall) (id peer flow : Text)
    → lookup key a ≡ some c
    → ((d : RelayCall) × (lookup key
            (at_key key (λ x. register x id peer flow) (cancel_flow key a).0)
          ≡ some d)
        × (d.cause ≢ none))
      × ((d : RelayCall) × (lookup key
              (cancel_flow key (at_key key (λ x. register x id peer flow) a)).0
            ≡ some d)
          × (d.cause ≢ none))
cancel_flow-reaches a key c id peer flow there =
    let registers' = (λ (x : RelayCall). register x id peer flow) in
    let released = lookup-cancel_flow key c a there in
    let registered = lookup-at_key key registers' c a there in
    (
      (
        registers' (release c).0,
        lookup-at_key key registers' (release c).0 (cancel_flow key a).0 released,
        register-release c id peer flow,
      ),
      (
        (release (registers' c)).0,
        lookup-cancel_flow key (registers' c) (at_key key registers' a) registered,
        release-register c id peer flow,
      ),
    )
