-- ===== src/Bridge/Replay/Window.antt =====
-- internal/bridge/session.go: an answer from memory stands for a success within the window.
use tantu.Prelude.{
  ℕ, zero, suc, ◌+◌, ◌≤◌, ◌≡◌, ◌≢◌, refl, sym, subst, inl, inr, Bool, true, false, not, ◌&&◌,
  Option, none, some, List, [], ◌∷◌, ltb, leb, ◌==◌, if_cases, length, arith, Option-cases,
}
use tantu.Text.{Text, is_empty}
use tantu.Text.Assoc.{lookup, put, delete, Every, put-Every, delete-Every, lookup-Every}
use tantu.Bridge.Replay.{
  Manager, new_manager, drop_expired, earliest, drop_earliest, prune_recent,
  max_oauth_replay_entries, max_oauth_active_sessions, Lease, replays, start_found, replay_found,
  acquire, finish_found, finish,
}

-- What happens to the manager: a request of a key arrives, or the owner of a session ends it.
pub data Event : Type 0 where
  acquires : ℕ → Text → Event
  finishes : ℕ → Text → ℕ → Bool → Event

unfoldable pub on_event : Manager → Event → Manager
unfolding acquire finish
on_event m (acquires now key) = (acquire now key m).0
on_event m (finishes now key session success) = finish now key session success m

unfoldable pub run : Manager → List Event → Manager
unfolding on_event
run m [] = m
run m (e ∷ es) = run (on_event m e) es

-- A session of the key succeeded at that time.
pub data Succeeded : List Event → Text → ℕ → Type 0 where
  now_ended :
      (t : ℕ) (key : Text) (session : ℕ) (es : List Event)
      → Succeeded (finishes t key session true ∷ es) key t
  ended_later :
      (e : Event) (es : List Event) (key : Text) (t : ℕ)
      → Succeeded es key t
      → Succeeded (e ∷ es) key t

module _ (P : Text → ℕ → Type 0) where
  drop_expired-Every :
      (now : ℕ) (m : List (Text × ℕ))
      → Every P m
      → Every (λ k e. P k e × (ltb e now ≡ false)) (drop_expired now m)
  unfolding drop_expired
  drop_expired-Every now [] h = tt
  drop_expired-Every now ((k, e) ∷ m) h =
      if_cases (Every (λ k e. P k e × (ltb e now ≡ false))) (ltb e now)
        (λ _. drop_expired-Every now m h.1) (λ live. ((h.0, live), drop_expired-Every now m h.1))

  drop_earliest-Every :
      (fuel : ℕ) (m : List (Text × ℕ)) → Every P m → Every P (drop_earliest fuel m)
  unfolding drop_earliest
  drop_earliest-Every zero m h = h
  drop_earliest-Every (suc fuel) m h =
      let oldest = earliest [] 0 m in
      if_cases (Every P) (ltb max_oauth_replay_entries (length m) && not (is_empty oldest))
        (λ _. drop_earliest-Every fuel (delete oldest m) (delete-Every P oldest m h)) (λ _. h)

Every-first :
    (P : Text → ℕ → Type 0) (Q : Text → ℕ → Type 0) (m : List (Text × ℕ))
    → Every (λ k e. P k e × Q k e) m
    → Every P m
Every-first P Q [] h = tt
Every-first P Q ((k, e) ∷ m) h = (h.0.0, Every-first P Q m h.1)

abbrev Live : (Text → ℕ → Type 0) → ℕ → Text → ℕ → Type 0
Live P now k e = P k e × (ltb e now ≡ false)

-- Pruning keeps what holds of all, and what it keeps has not expired.
prune_recent-Every :
    (P : Text → ℕ → Type 0) (now : ℕ) (m : List (Text × ℕ))
    → Every P m
    → Every (Live P now) (prune_recent now m)
unfolding prune_recent
prune_recent-Every P now m h =
    drop_earliest-Every (Live P now) (length (drop_expired now m)) (drop_expired now m)
      (drop_expired-Every P now m h)

pruned-Every :
    (P : Text → ℕ → Type 0) (now : ℕ) (m : List (Text × ℕ))
    → Every P m
    → Every P (prune_recent now m)
pruned-Every P now m h =
    Every-first P (λ k e. ltb e now ≡ false) (prune_recent now m) (prune_recent-Every P now m h)

-- What is remembered, with the window that it was remembered for.
abbrev Remembers : (Text → ℕ → Type 0) → ℕ → Manager → Type 0
Remembers P window m = (m.replay_window ≡ window) × Every P m.recent

module _ (P : Text → ℕ → Type 0) (window : ℕ) where
  start_found-Remembers :
      (o : Option ℕ) (key : Text) (m : Manager)
      → Remembers P window m
      → Remembers P window (start_found o key m).0
  unfolding start_found
  start_found-Remembers (some session) key m h = h
  start_found-Remembers none key m h =
      if_cases (λ (r : Manager × Lease). Remembers P window r.0)
        (leb max_oauth_active_sessions (length m.active)) (λ _. h) (λ _. h)

  replay_found-Remembers :
      (o : Option ℕ) (key : Text) (m : Manager)
      → Remembers P window m
      → Remembers P window (replay_found o key m).0
  unfolding replay_found
  replay_found-Remembers (some expires) key m h = h
  replay_found-Remembers none key m h = start_found-Remembers (lookup key m.active) key m h

  finish_found-Remembers :
      (o : Option ℕ) (now : ℕ) (key : Text) (session : ℕ) (success : Bool) (m : Manager)
      → (success ≡ true → P key (now + window))
      → Remembers P window m
      → Remembers P window (finish_found o now key session success m)
  unfolding finish_found
  finish_found-Remembers none now key session success m p h = h
  finish_found-Remembers (some current) now key session success m p h =
      if_cases (Remembers P window) (not (current == session)) (λ _. h)
        (λ _.
          if_cases (Remembers P window) success
            (λ e. (
              h.0,
              pruned-Every P now (put key (now + m.replay_window) m.recent) (
                  put-Every P key (now + m.replay_window) m.recent
                    (subst (λ w. P key (now + w)) (sym h.0) (p e)) h.1),
            ))
            (λ _. h))

  run-Remembers :
      (es : List Event) (m : Manager)
      → ((key : Text) (t : ℕ) → Succeeded es key t → P key (t + window))
      → Remembers P window m
      → Remembers P window (run m es)
  unfolding run on_event acquire finish
  run-Remembers [] m f h = h
  run-Remembers (acquires now key ∷ es) m f h =
      run-Remembers es (acquire now key m).0
        (λ k t r. f k t (ended_later (acquires now key) es k t r))
        (replay_found-Remembers (lookup key (prune_recent now m.recent)) key
          (record m { recent = prune_recent now m.recent }) (h.0, pruned-Every P now m.recent h.1))
  run-Remembers (finishes now key session success ∷ es) m f h =
      run-Remembers es (finish now key session success m)
        (λ k t r. f k t (ended_later (finishes now key session success) es k t r))
        (finish_found-Remembers (lookup key m.active) now key session success m
          (λ e. f key now (
            subst (λ b. Succeeded (finishes now key session b ∷ es) key now) (sym e)
              (now_ended now key session es)))
          h)

start_differs : (o : Option ℕ) (key : Text) (m : Manager) → (start_found o key m).1 ≢ replays
unfolding start_found
start_differs (some session) key m = λ e. cc
start_differs none key m =
    if_cases (λ (r : Manager × Lease). r.1 ≢ replays)
      (leb max_oauth_active_sessions (length m.active)) (λ _ e. cc) (λ _ e. cc)

not_over : (e now : ℕ) → ltb e now ≡ false → now ≤ e
not_over e now h = ground arith

-- In any history, a request that is answered from memory comes no later than the window behind a
-- successful end of a session of its key.
pub acquire-replays :
    (window : ℕ) (es : List Event) (now : ℕ) (key : Text)
    → (acquire now key (run (new_manager window) es)).1 ≡ replays
    → (t : ℕ) × Succeeded es key t × (now ≤ t + (new_manager window).replay_window)
unfolding acquire replay_found new_manager
acquire-replays window es now key h =
    let w = (new_manager window).replay_window in
    let P = (λ (k : Text) (e : ℕ). (t : ℕ) × Succeeded es k t × (e ≡ t + w)) in
    let m = run (new_manager window) es in
    let held = run-Remembers P w es (new_manager window) (λ k t r. (t, r, refl)) (refl, tt) in
    let live = prune_recent now m.recent in
    elim (Option-cases (lookup key live)) [
      | inl e ↦ absurd (
          start_differs (lookup key m.active) key (record m { recent = live })
            (subst (λ o. (replay_found o key (record m { recent = live })).1 ≡ replays) e h))
      | inr (expires, e) ↦
          let ((t, ended, due), current) =
            lookup-Every (Live P now) key expires live (prune_recent-Every P now m.recent held.1)
              e in
          (t, ended, omega (arith, due, not_over expires now current))
    ]
