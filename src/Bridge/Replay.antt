-- ===== src/Bridge/Replay.antt =====
-- internal/bridge/session.go: OAuthSessionManager, which lets one sign-in of a key run at a time and
-- answers a repetition shortly behind a success from memory; and the check of request ids. A session
-- is the number it was made with, as its address is in the source. Times are nanoseconds.
pub mod Window
pub mod Tests
use tantu.Prelude.{
  ℕ, zero, suc, ◌+◌, ◌-◌, ◌*◌, ◌^◌, Bool, true, false, not, ◌&&◌, ◌||◌, Option, none, some, List,
  [], ◌∷◌, ltb, leb, ◌==◌, if◌then◌else◌, length, all,
}
use tantu.Text.{Text, is_empty, is_id_byte, ◌=t◌}
use tantu.Text.Assoc.{lookup, put, delete}

abbrev pub max_oauth_replay_entries : ℕ
max_oauth_replay_entries = 256

abbrev pub max_oauth_active_sessions : ℕ
max_oauth_active_sessions = 128

-- Two minutes
abbrev pub default_oauth_replay_window : ℕ
default_oauth_replay_window = 120 * 10 ^ 9

abbrev pub max_bridge_request_id_len : ℕ
max_bridge_request_id_len = 128

unfoldable pub valid_bridge_request_id : Text → Bool
unfolding is_id_byte
valid_bridge_request_id id =
    not (is_empty id || ltb max_bridge_request_id_len (length id)) && all is_id_byte id

-- Only successes are remembered, so a replay has no error; what is kept of it is when it expires.
pub record Manager : Type 0 where
  pub active : List (Text × ℕ)
  pub recent : List (Text × ℕ)
  pub replay_window : ℕ
  pub made : ℕ

unfoldable pub new_manager : ℕ → Manager
new_manager window = record {
  active = [];
  recent = [];
  replay_window = if ltb 0 window then window else default_oauth_replay_window;
  made = 0;
}

-- `if now.After(replay.expires) { delete }`
unfoldable pub drop_expired : ℕ → List (Text × ℕ) → List (Text × ℕ)
drop_expired now [] = []
drop_expired now ((key, expires) ∷ m) =
    let rest = drop_expired now m in if ltb expires now then rest else (key, expires) ∷ rest

-- The key that expires first, behind one that was found before it.
unfoldable pub earliest : Text → ℕ → List (Text × ℕ) → Text
earliest key expires [] = key
earliest key expires ((k, e) ∷ m) =
    let other = earliest k e m in
    let same = earliest key expires m in
    if is_empty key then other else if ltb e expires then other else same

-- The loop that runs while there are too many; each turn takes one key.
unfoldable pub drop_earliest : ℕ → List (Text × ℕ) → List (Text × ℕ)
unfolding earliest
drop_earliest zero m = m
drop_earliest (suc fuel) m =
    let oldest = earliest [] 0 m in
    let rest = drop_earliest fuel (delete oldest m) in
    if ltb max_oauth_replay_entries (length m) && not (is_empty oldest) then rest else m

unfoldable pub prune_recent : ℕ → List (Text × ℕ) → List (Text × ℕ)
unfolding drop_expired drop_earliest
prune_recent now m = let live = drop_expired now m in drop_earliest (length live) live

pub data Lease : Type 0 where
  replays refused : Lease
  waits owns : ℕ → Lease

start_found : Option ℕ → Text → Manager → Manager × Lease
start_found (some session) key m = (m, waits session)
start_found none key m =
    if leb max_oauth_active_sessions (length m.active)
    then (m, refused)
    else (record m { active = put key m.made m.active; made = m.made + 1 }, owns m.made)

replay_found : Option ℕ → Text → Manager → Manager × Lease
unfolding start_found
replay_found (some expires) key m = (m, replays)
replay_found none key m = start_found (lookup key m.active) key m

unfoldable pub acquire : ℕ → Text → Manager → Manager × Lease
unfolding prune_recent replay_found
acquire now key m =
    let m' = record m { recent = prune_recent now m.recent } in
    replay_found (lookup key m'.recent) key m'

finish_found : Option ℕ → ℕ → Text → ℕ → Bool → Manager → Manager
unfolding prune_recent
finish_found none now key session success m = m
finish_found (some current) now key session success m =
    if not (current == session)
    then m
    else if success
    then record m {
      active = delete key m.active;
      recent = prune_recent now (put key (now + m.replay_window) m.recent);
    }
    else record m { active = delete key m.active }

-- The owner of a session ends it, with whether it succeeded.
unfoldable pub finish : ℕ → Text → ℕ → Bool → Manager → Manager
unfolding finish_found
finish now key session success m = finish_found (lookup key m.active) now key session success m
