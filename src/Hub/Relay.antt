-- ===== src/Hub/Relay.antt =====
-- internal/hub/relay_coordinator.go: the calls in flight, one leader for each key, and the cancels that
-- may arrive at any moment. A flow's context is the cause it was cancelled with, of which the first
-- counts. `register` and `release` call cancel behind their lock: as functions they do both, and as
-- steps among others they leave the call of cancel due, which is a step of its own.
pub mod Bound
pub mod Cancel
pub mod Tests
use tantu.Prelude.{
  ℕ, ◌+◌, ◌-◌, ◌==◌, Bool, true, false, not, ◌&&◌, ◌||◌, Option, none, some, List, [], ◌∷◌, ltb,
  leb, if◌then◌else◌, length,
}
use tantu.Text.{Text, is_empty, ◌=t◌, trim_space}
use tantu.Text.Assoc.{lookup, put, delete}

abbrev pub max_relay_active_entries : ℕ
max_relay_active_entries = 128

-- `context.Canceled`, `context.DeadlineExceeded`, and the nil of the deferred cancel.
pub data Cause : Type 0 where
  canceled deadline_exceeded finished : Cause

-- `installed` is `cancel != nil`, and `cause` is that of the context behind it. `due` counts the
-- goroutines that have left the lock and are about to call `cancel(context.Canceled)`.
pub record RelayCall : Type 0 where
  pub installed : Bool
  pub released : Bool
  pub request_id : Text
  pub peer : Text
  pub flow_id : Text
  pub registered : Bool
  pub cause : Option Cause
  pub due : ℕ

abbrev pub new_call : RelayCall
new_call = record {
  installed = false;
  released = false;
  request_id = [];
  peer = [];
  flow_id = [];
  registered = false;
  cause = none;
  due = 0;
}

abbrev first_cause : Option Cause → Cause → Option Cause
first_cause none e = some e
first_cause (some d) e = some d

-- `cancel(cause)`
unfoldable pub cancel : Cause → RelayCall → RelayCall
cancel e c = record c { cause = first_cause c.cause e }

-- What becomes of the cancel that a locked section hands out, where it does: it is called at once, or
-- it is due while others run.
unfoldable pub at_once : RelayCall × Bool → RelayCall
unfolding cancel
at_once (c, handed) = if handed then cancel canceled c else c

unfoldable pub put_off : RelayCall × Bool → RelayCall
put_off (c, handed) = if handed then record c { due = c.due + 1 } else c

-- A call of cancel that is due.
unfoldable pub deliver : RelayCall → RelayCall
unfolding cancel
deliver c = if c.due == 0 then c else cancel canceled (record c { due = c.due - 1 })

-- The locked section, and whether a cancel is pending.
unfoldable pub register_locked : RelayCall → Text → Text → Text → RelayCall × Bool
register_locked c request_id peer flow_id = (
  record c {
    installed = true;
    request_id = request_id;
    peer = peer;
    flow_id = flow_id;
    registered = true;
  },
  c.released,
)

unfoldable pub register : RelayCall → Text → Text → Text → RelayCall
unfolding at_once register_locked
register c request_id peer flow_id = at_once (register_locked c request_id peer flow_id)

unfoldable pub clear : RelayCall → RelayCall
clear c = record c { installed = false; registered = false }

-- The locked section: a cancel is called where the flow has installed one.
unfoldable pub release_locked : RelayCall → RelayCall × Bool
release_locked c = (record c { released = true }, c.installed)

-- The call, and what is reported.
unfoldable pub release : RelayCall → RelayCall × Bool
unfolding at_once release_locked
release c = (at_once (release_locked c), true)

unfoldable pub describe : RelayCall → Text × Text × Text × Bool
describe c = (c.request_id, c.peer, c.flow_id, c.registered)

abbrev pub Active : Type 0
Active = List (Text × RelayCall)

module _ (hand : RelayCall × Bool → RelayCall) where
  release_found : Option RelayCall → Text → Active → Active × Bool
  unfolding release_locked
  release_found none key a = (a, false)
  release_found (some c) key a = (put key (hand (release_locked c)) a, true)

  unfoldable pub cancel_flow_by : Text → Active → Active × Bool
  unfolding release_found
  cancel_flow_by key a = release_found (lookup key a) key a

  -- Every call with that attempt id.
  unfoldable pub release_where : Text → Active → Active × Bool
  unfolding release_locked describe
  release_where id [] = ([], false)
  release_where id ((k, c) ∷ a) =
      let rest = release_where id a in
      if (describe c).0 =t id
      then ((k, hand (release_locked c)) ∷ rest.0, true)
      else ((k, c) ∷ rest.0, rest.1)

  unfoldable pub cancel_attempt_by : Text → Active → Active × Bool
  unfolding release_where
  cancel_attempt_by id a = if is_empty (trim_space id) then (a, false) else release_where id a

unfoldable pub cancel_flow : Text → Active → Active × Bool
unfolding cancel_flow_by at_once
cancel_flow key a = cancel_flow_by at_once key a

unfoldable pub cancel_attempt : Text → Active → Active × Bool
unfolding cancel_attempt_by at_once
cancel_attempt id a = cancel_attempt_by at_once id a

-- The beginning of Do: a caller follows the leader of its key, or is refused, or leads.
pub data Entry : Type 0 where
  follows refused leads : Entry

enter_found : Option RelayCall → Text → Active → Active × Entry
enter_found (some c) key a = (a, follows)
enter_found none key a =
    if leb max_relay_active_entries (length a) then (a, refused) else (put key new_call a, leads)

unfoldable pub enter : Text → Active → Active × Entry
unfolding enter_found
enter key a = enter_found (lookup key a) key a

update_found : Option RelayCall → (RelayCall → RelayCall) → Text → Active → Active
update_found none f key a = a
update_found (some c) f key a = put key (f c) a

-- What the flow of a leader does to its own call.
unfoldable pub at_key : Text → (RelayCall → RelayCall) → Active → Active
unfolding update_found
at_key key f a = update_found (lookup key a) f key a

-- What happens to the coordinator. The deferred calls of a flow are `clear` and then `cancel(nil)`; the
-- end of Do deletes the key. cancelAttempt locks its calls one by one, which is also cancels_flow of
-- each at any moment.
pub data Event : Type 0 where
  enters clears defers leaves times_out delivers : Text → Event
  registers : Text → Text → Text → Text → Event
  cancels_flow cancels_attempt : Text → Event

unfoldable pub on_event : Active → Event → Active
unfolding enter at_key register_locked put_off deliver clear cancel cancel_flow_by cancel_attempt_by
on_event a (enters key) = (enter key a).0
on_event a (registers key id peer flow) =
    at_key key (λ c. put_off (register_locked c id peer flow)) a
on_event a (delivers key) = at_key key deliver a
on_event a (times_out key) = at_key key (cancel deadline_exceeded) a
on_event a (clears key) = at_key key clear a
on_event a (defers key) = at_key key (cancel finished) a
on_event a (leaves key) = delete key a
on_event a (cancels_flow key) = (cancel_flow_by put_off key a).0
on_event a (cancels_attempt id) = (cancel_attempt_by put_off id a).0

-- The states that the coordinator reaches.
pub data Reachable : Active → Type 0 where
  starts : Reachable []
  steps : (a : Active) (e : Event) → Reachable a → Reachable (on_event a e)
