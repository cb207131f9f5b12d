-- ===== src/Bridge/Replay/Tests.antt =====
-- internal/bridge/session.go: a repetition shortly behind a success, and one during the sign-in.
use tantu.Prelude.{ℕ, ◌+◌, ◌≤◌, ◌≡◌, refl, true, [], ◌∷◌, List}
use tantu.Text.{Text, codes, ◌=t◌}
use tantu.Text.Assoc.{lookup, put, delete}
use tantu.Bridge.Replay.{
  new_manager, acquire, finish, finish_found, replay_found, start_found, prune_recent, drop_expired,
  drop_earliest, earliest, replays, waits,
}
use tantu.Bridge.Replay.Window.{
  Event, acquires, finishes, run, on_event, Succeeded, acquire-replays,
}

abbrev login : Text
login = codes "k"

abbrev history : List Event
history = acquires 1 login ∷ finishes 5 login 0 true ∷ []

repeated : (acquire 10 login (run (new_manager 7) history)).1 ≡ replays
unfolding run on_event new_manager acquire finish finish_found replay_found start_found prune_recent
    drop_expired drop_earliest earliest lookup put delete ◌=t◌
repeated = refl

acquire-replays_example :
    (t : ℕ) × Succeeded history login t × (10 ≤ t + (new_manager 7).replay_window)
acquire-replays_example = acquire-replays 7 history 10 login repeated

-- A second request while the first still runs waits for its session.
joined : (acquire 2 login (run (new_manager 7) (acquires 1 login ∷ []))).1 ≡ waits 0
unfolding run on_event new_manager acquire replay_found start_found prune_recent drop_expired
    drop_earliest lookup put ◌=t◌
joined = refl
