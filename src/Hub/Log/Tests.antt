-- ===== src/Hub/Log/Tests.antt =====
-- internal/hub/logger.go: a small ring, its subscribers, and the theorems on it.
use tantu.Prelude.{ℕ, ◌≡◌, refl, pos, [], ◌∷◌, arith}
use tantu.Hub.Log.{
  LogEvent, new_ring_buffer, append, get_recent, new_event_logger, replay, log, write_events,
  broadcast, unsubscribe,
}
use tantu.Hub.Log.Ring.{append_all, append_all-latest}
use tantu.Hub.Log.Replay.{log_all, numbered, replay-missed}

append_all-latest_example :
    get_recent (append_all (new_ring_buffer {A = ℕ} 0 (pos 3)) (4 ∷ 5 ∷ 6 ∷ 7 ∷ []))
    ≡ 5 ∷ 6 ∷ 7 ∷ []
append_all-latest_example = append_all-latest 0 (pos 3) (4 ∷ 5 ∷ 6 ∷ 7 ∷ [])

-- The same by running the ring.
wrapped :
    get_recent (append_all (new_ring_buffer {A = ℕ} 0 (pos 3)) (4 ∷ 5 ∷ 6 ∷ 7 ∷ []))
    ≡ 5 ∷ 6 ∷ 7 ∷ []
unfolding get_recent append_all append new_ring_buffer
wrapped = refl

abbrev blank : LogEvent ℕ
blank = record { id = 0; says = 0 }

replay-missed_example :
    (replay (log_all (new_event_logger blank (pos 3)) (40 ∷ 50 ∷ 60 ∷ 70 ∷ [])) 2).0
    ≡ numbered 3 (60 ∷ 70 ∷ [])
replay-missed_example =
    replay-missed blank (pos 3) (40 ∷ 50 ∷ 60 ∷ 70 ∷ []) 2 (omega arith) (omega arith) (omega arith)
      (omega arith)

-- A client that left gets nothing more.
left :
    broadcast blank
      (unsubscribe 1 (record { channel = 1; queue = [] } ∷ record { channel = 2; queue = [] } ∷ []))
    ≡ record { channel = 2; queue = blank ∷ [] } ∷ []
unfolding broadcast unsubscribe
left = refl

-- Ids begin anew with each process: a client that saw 150 events of the last one is told of none.
restarted : (replay (log_all (new_event_logger blank (pos 3)) (40 ∷ 50 ∷ 60 ∷ 70 ∷ [])) 150).0 ≡ []
unfolding replay get_recent log_all log append new_event_logger write_events
restarted = refl
