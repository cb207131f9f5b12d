-- ===== src/Hub/Relay/Tests.antt =====
-- internal/hub/relay_coordinator.go: a cancel that lands before the flow has registered.
use tantu.Prelude.{◌≤◌, ◌≡◌, ◌≢◌, refl, true, none, some, [], length}
use tantu.Text.{Text, codes, ◌=t◌}
use tantu.Text.Assoc.{lookup, put, Every}
use tantu.Hub.Relay.{
  Active, RelayCall, enters, cancels_flow, registers, on_event, Reachable, starts, steps, enter,
  delivers, deliver, put_off, register_locked, release_locked, cancel_flow_by, enter_found,
  cancel_flow, release_found, release, register, clear, at_key, update_found, cancel, canceled,
  new_call, max_relay_active_entries,
}
use tantu.Hub.Relay.Cancel.{Settled, Reachable-released, cancel_flow-reaches}

abbrev login : Text
login = codes "k"

abbrev entered : Active
entered = on_event [] (enters login)

abbrev early : Active
early =
    on_event (on_event entered (cancels_flow login))
      (registers login (codes "rl-1") (codes "p") (codes "f"))

early-Reachable : Reachable early
early-Reachable =
    steps (on_event entered (cancels_flow login))
      (registers login (codes "rl-1") (codes "p") (codes "f"))
      (steps entered (cancels_flow login) (steps [] (enters login) starts))

abbrev waiting : RelayCall
waiting = record {
  installed = true;
  released = true;
  request_id = codes "rl-1";
  peer = codes "p";
  flow_id = codes "f";
  registered = true;
  cause = none;
  due = 1;
}

-- The pending cancel is due, and then called.
early_waits : lookup login early ≡ some waiting
unfolding on_event enter enter_found cancel_flow_by release_found release_locked at_key update_found
    register_locked put_off lookup put ◌=t◌
early_waits = refl

early_cancelled :
    lookup login (on_event early (delivers login))
    ≡ some (record waiting { cause = some canceled; due = 0 })
unfolding on_event enter enter_found cancel_flow_by release_found release_locked at_key update_found
    register_locked put_off deliver cancel lookup put ◌=t◌
early_cancelled = refl

Reachable-released_example : (length early ≤ max_relay_active_entries) × Every Settled early
Reachable-released_example = Reachable-released early early-Reachable

there : lookup login entered ≡ some new_call
unfolding on_event enter enter_found lookup put ◌=t◌
there = refl

cancel_flow-reaches_example :
    ((d : RelayCall) × (lookup login (
          at_key login
            (λ x. register x (codes "rl-1") (codes "p") (codes "f"))
            (cancel_flow login entered).0)
        ≡ some d)
      × (d.cause ≢ none))
    × ((d : RelayCall) × (lookup login
            (cancel_flow login
              (at_key login (λ x. register x (codes "rl-1") (codes "p") (codes "f")) entered)).0
          ≡ some d)
        × (d.cause ≢ none))
cancel_flow-reaches_example =
    cancel_flow-reaches entered login new_call (codes "rl-1") (codes "p") (codes "f") there

-- A cancel that comes behind the end of the flow is reported as a release, and cancels nothing.
late : (release (clear new_call)).1 ≡ true
unfolding release clear
late = refl
