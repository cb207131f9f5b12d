-- ===== src/Bridge/Sessions.antt =====
-- internal/bridge/session_registry.go: the in-flight sign-ins of a listener, by request id. The
-- registry's mutex is held over each decision, so an operation is one step. Times are seconds. The
-- function that unblocks a session is a handle, and the registry keeps the handles it has called: the
-- wait for the session's listener to close, which follows such a call, changes nothing here.
pub mod Bounds
pub mod Ports
pub mod Release
pub mod Tests
use tantu.Prelude.{
  ℕ, zero, suc, ◌+◌, ◌-◌, ◌≤◌, ◌≡◌, ℤ, pos, negsuc, is_positive, Bool, true, false, not, ◌&&◌, ◌||◌,
  Option, none, some, List, [], ◌∷◌, ◌++◌, map, ltb, leb, ◌==◌, if◌then◌else◌, length,
}
use tantu.Text.{Text, codes, is_empty, ◌=t◌, equal_fold, trim_space}
use tantu.Text.Assoc.{lookup, put, delete}

pub record SessionInfo : Type 0 where
  pub request_id : Text
  pub flow_id : Text
  pub callback_port : ℤ
  pub peer_fingerprint : Text
  pub state : Text
  pub started_at : ℕ
  pub age : ℕ

abbrev pub session_state_waiting_browser : Text
session_state_waiting_browser = codes "waiting_for_browser"

pub record ActiveSession : Type 0 where
  pub info : SessionInfo
  pub cancel_handle : Option ℕ
  pub started : ℕ

pub record SessionRegistry : Type 0 where
  pub sessions : List (Text × ActiveSession)
  pub max : ℕ
  pub cancelled : List ℕ

abbrev pub default_max_tracked_sessions : ℕ
default_max_tracked_sessions = 128

abbrev pub new_session_registry : SessionRegistry
new_session_registry = record { sessions = []; max = default_max_tracked_sessions; cancelled = [] }

pub data RegisterError : Type 0 where
  no_request_id too_many_open : RegisterError

pub data Registered : Type 0 where
  registered : SessionRegistry → Registered
  not_registered : RegisterError → Registered

abbrev is_none {ℓ} : {A : Type ℓ} → Option A → Bool
is_none none = true
is_none (some a) = false

-- The session as the registry writes it down.
unfoldable pub opened : ℕ → Option ℕ → SessionInfo → ActiveSession
opened now handle info =
    let id = trim_space info.request_id in
    let state = if is_empty info.state then session_state_waiting_browser else info.state in
    record {
      info = record info { request_id = id; started_at = now; state = state };
      cancel_handle = handle;
      started = now;
    }

-- Register
unfoldable pub register : SessionRegistry → ℕ → Option ℕ → SessionInfo → Registered
unfolding opened
register r now handle info =
    let id = trim_space info.request_id in
    if is_empty id
    then not_registered no_request_id
    else if is_none (lookup id r.sessions) && leb r.max (length r.sessions)
    then not_registered too_many_open
    else registered record r { sessions = put id (opened now handle info) r.sessions }

-- The function that Register returns, for the id that was registered.
unfoldable pub unregister : SessionRegistry → Text → SessionRegistry
unregister r id = record r { sessions = delete id r.sessions }

-- SetState
relabelled : Option ActiveSession → SessionRegistry → ℕ → Text → Text → SessionRegistry
relabelled none r now id label = r
relabelled (some s) r now id label =
    let info = record (s.info) { state = label; started_at = now } in
    record r { sessions = put id record s { info = info } r.sessions }

unfoldable pub set_state : SessionRegistry → ℕ → Text → Text → SessionRegistry
unfolding relabelled
set_state r now request label =
    let id = trim_space request in relabelled (lookup id r.sessions) r now id label

-- sessionBelongsToPeer
unfoldable pub session_belongs_to_peer : SessionInfo → Text → Bool
session_belongs_to_peer info peer =
    let owner = trim_space info.peer_fingerprint in
    let requester = trim_space peer in
    if is_empty owner || is_empty requester
    then is_empty owner && is_empty requester
    else equal_fold owner requester

-- The call of a session's cancel function, where there is one.
abbrev pub called : Option ℕ → List ℕ → List ℕ
called none log = log
called (some h) log = h ∷ log

-- Cancel
released_by :
    Option ActiveSession → SessionRegistry → Text → Text → SessionRegistry × Option SessionInfo
released_by none r id peer = (r, none)
released_by (some s) r id peer =
    if session_belongs_to_peer s.info peer
    then (
      record {
        sessions = delete id r.sessions;
        max = r.max;
        cancelled = called s.cancel_handle r.cancelled;
      },
      some s.info,
    )
    else (r, none)

unfoldable pub cancel : SessionRegistry → Text → Text → SessionRegistry × Option SessionInfo
unfolding released_by
cancel r request peer = let id = trim_space request in released_by (lookup id r.sessions) r id peer

-- The ids of the sessions that pass a test, and Cancel for each of them.
unfoldable pub ids_where : (Text → SessionInfo → Bool) → List (Text × ActiveSession) → List Text
ids_where p [] = []
ids_where p ((id, s) ∷ m) = let rest = ids_where p m in if p id s.info then id ∷ rest else rest

abbrev found_one : Option SessionInfo → List SessionInfo → List SessionInfo
found_one none released = released
found_one (some info) released = info ∷ released

unfoldable pub cancel_each : SessionRegistry → Text → List Text → SessionRegistry × List SessionInfo
unfolding cancel
cancel_each r peer [] = (r, [])
cancel_each r peer (id ∷ ids) =
    let step = cancel r id peer in
    let rest = cancel_each step.0 peer ids in (rest.0, found_one step.1 rest.1)

abbrev pub flow_ids : SessionRegistry → Text → List Text
flow_ids r flow = ids_where (λ id info. info.flow_id =t flow) r.sessions

-- CancelByFlow
unfoldable pub cancel_by_flow : SessionRegistry → Text → Text → SessionRegistry × ℕ
unfolding cancel_each
cancel_by_flow r flow_id peer =
    let flow = trim_space flow_id in
    let end = cancel_each r peer (flow_ids r flow) in
    if is_empty flow then (r, 0) else (end.0, length end.1)

abbrev pub same_port : ℤ → ℤ → Bool
same_port (pos a) (pos b) = a == b
same_port (negsuc a) (negsuc b) = a == b
same_port (pos a) (negsuc b) = false
same_port (negsuc a) (pos b) = false

abbrev pub port_ids : SessionRegistry → ℤ → Text → List Text
port_ids r port exclude =
    ids_where (λ id info. same_port info.callback_port port && not (id =t exclude)) r.sessions

-- CancelOnPort
unfoldable pub cancel_on_port :
    SessionRegistry → ℤ → Text → Text → SessionRegistry × List SessionInfo
unfolding cancel_each
cancel_on_port r port peer excluded =
    if is_positive port then cancel_each r peer (port_ids r port (trim_space excluded)) else (r, [])

abbrev pub all_ids : SessionRegistry → List Text
all_ids r = ids_where (λ id info. true) r.sessions

-- CancelAll
unfoldable pub cancel_all : SessionRegistry → Text → SessionRegistry × List SessionInfo
unfolding cancel_each
cancel_all r peer = cancel_each r peer (all_ids r)

-- Get
aged : ℕ → ActiveSession → SessionInfo
aged now s = record (s.info) { age = now - s.started }

unfoldable pub get : SessionRegistry → ℕ → Text → Option SessionInfo
unfolding aged
get r now request = elim (lookup (trim_space request) r.sessions) [
  | none ↦ none
  | some s ↦ some (aged now s)
]

-- Count
abbrev pub count : SessionRegistry → ℕ
count r = length r.sessions
