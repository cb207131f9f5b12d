-- ===== src/Bridge/Sessions/Bounds.antt =====
-- internal/bridge/session_registry.go: how many sign-ins a registry holds after any history.
use tantu.Prelude.{
  ℕ, suc, ◌≤◌, ◌≡◌, refl, is_positive, false, ◌&&◌, Option, none, some, List, [], ◌∷◌, leb, length,
  arith, inl, inr, if_cases,
}
use tantu.Text.{Text, is_empty, trim_space}
use tantu.Text.Assoc.{lookup, put, length-put, length-delete-le}
use tantu.Bridge.Sessions.{
  SessionInfo, ActiveSession, SessionRegistry, Registered, registered, not_registered,
  new_session_registry, default_max_tracked_sessions, register, unregister, set_state, relabelled,
  session_belongs_to_peer, released_by, cancel, cancel_each, cancel_by_flow, cancel_on_port,
  cancel_all, is_none, opened, flow_ids, port_ids, all_ids, count,
}
use tantu.Bridge.Sessions.Release.{Release, by_id, by_flow, on_port, everything, release}

-- The operations that change a registry, with the time at which they run.
pub data Step : Type 0 where
  registers : ℕ → Option ℕ → SessionInfo → Step
  unregisters : Text → Step
  sets_state : ℕ → Text → Text → Step
  releases : Release → Text → Step

abbrev after : SessionRegistry → Registered → SessionRegistry
after r (registered r') = r'
after r (not_registered e) = r

unfoldable pub step : SessionRegistry → Step → SessionRegistry
unfolding register unregister set_state release
step r (registers now handle info) = after r (register r now handle info)
step r (unregisters id) = unregister r id
step r (sets_state now id label) = set_state r now id label
step r (releases q peer) = release q r peer

unfoldable pub run : SessionRegistry → List Step → SessionRegistry
unfolding step
run r [] = r
run r (s ∷ ss) = run (step r s) ss

-- The registry after a step holds no more than its maximum, which stays what it was.
abbrev Fits : ℕ → SessionRegistry → Type 0
Fits max r = (r.max ≡ max) × (length r.sessions ≤ max)

le_false : (a b : ℕ) → leb a b ≡ false → suc b ≤ a
le_false a b h = ground arith

put_present :
    (id : Text) (v w : ActiveSession) (m : List (Text × ActiveSession))
    → lookup id m ≡ some v
    → length (put id w m) ≡ length m
put_present id v w m h = elim (length-put id w m) [
  | inl (_, same) ↦ same
  | inr (fresh, _) ↦ absurd cc
]

register-Fits :
    (max : ℕ) (r : SessionRegistry) (now : ℕ) (handle : Option ℕ) (info : SessionInfo)
    → Fits max r
    → Fits max (after r (register r now handle info))
unfolding register
register-Fits max r now handle info h =
    let id = trim_space info.request_id in
    if_cases (λ end. Fits max (after r end)) (is_empty id) (λ _. h)
      (λ _.
        if_cases (λ end. Fits max (after r end))
          (is_none (lookup id r.sessions) && leb r.max (length r.sessions)) (λ _. h)
          (λ room. elim (length-put id (opened now handle info) r.sessions) [
            | inl (_, same) ↦ (h.0, omega (arith, same, h.1))
            | inr (fresh, more) ↦
                let below : leb r.max (length r.sessions) ≡ false = ground (arith, fresh, room) in
                (h.0, omega (arith, more, h.0, h.1, le_false r.max (length r.sessions) below))
          ]))

set_state-Fits :
    (max : ℕ) (r : SessionRegistry) (now : ℕ) (id label : Text) (o : Option ActiveSession)
    → lookup id r.sessions ≡ o
    → Fits max r
    → Fits max (relabelled o r now id label)
unfolding relabelled
set_state-Fits max r now id label none at h = h
set_state-Fits max r now id label (some s) at h =
    let info = record (s.info) { state = label; started_at = now } in
    (h.0, omega (arith, put_present id s (record s { info = info }) r.sessions at, h.1))

released_by-Fits :
    (max : ℕ) (o : Option ActiveSession) (r : SessionRegistry) (id peer : Text)
    → Fits max r
    → Fits max (released_by o r id peer).0
unfolding released_by
released_by-Fits max none r id peer h = h
released_by-Fits max (some s) r id peer h =
    if_cases (λ (end : SessionRegistry × Option SessionInfo). Fits max end.0)
      (session_belongs_to_peer s.info peer)
      (λ _. (h.0, omega (arith, length-delete-le id r.sessions, h.1))) (λ _. h)

cancel_each-Fits :
    (max : ℕ) (r : SessionRegistry) (peer : Text) (ids : List Text)
    → Fits max r
    → Fits max (cancel_each r peer ids).0
unfolding cancel_each cancel
cancel_each-Fits max r peer [] h = h
cancel_each-Fits max r peer (id ∷ ids) h =
    cancel_each-Fits max (cancel r id peer).0 peer ids
      (released_by-Fits max (lookup (trim_space id) r.sessions) r (trim_space id) peer h)

release-Fits :
    (max : ℕ) (q : Release) (r : SessionRegistry) (peer : Text)
    → Fits max r
    → Fits max (release q r peer)
unfolding release cancel cancel_by_flow cancel_on_port cancel_all
release-Fits max (by_id id) r peer h =
    released_by-Fits max (lookup (trim_space id) r.sessions) r (trim_space id) peer h
release-Fits max (by_flow flow) r peer h =
    if_cases (λ (end : SessionRegistry × ℕ). Fits max end.0) (is_empty (trim_space flow)) (λ _. h)
      (λ _. cancel_each-Fits max r peer (flow_ids r (trim_space flow)) h)
release-Fits max (on_port port exclude) r peer h =
    if_cases (λ (end : SessionRegistry × List SessionInfo). Fits max end.0) (is_positive port)
      (λ _. cancel_each-Fits max r peer (port_ids r port (trim_space exclude)) h) (λ _. h)
release-Fits max everything r peer h = cancel_each-Fits max r peer (all_ids r) h

step-Fits : (max : ℕ) (r : SessionRegistry) (s : Step) → Fits max r → Fits max (step r s)
unfolding step unregister set_state
step-Fits max r (registers now handle info) h = register-Fits max r now handle info h
step-Fits max r (unregisters id) h = (h.0, omega (arith, length-delete-le id r.sessions, h.1))
step-Fits max r (sets_state now id label) h =
    set_state-Fits max r now (trim_space id) label (lookup (trim_space id) r.sessions) refl h
step-Fits max r (releases q peer) h = release-Fits max q r peer h

run-Fits : (max : ℕ) (r : SessionRegistry) (ss : List Step) → Fits max r → Fits max (run r ss)
unfolding run
run-Fits max r [] h = h
run-Fits max r (s ∷ ss) h = run-Fits max (step r s) ss (step-Fits max r s h)

-- After any history of registrations, removals, relabellings and releases, in any order and by any
-- peers, a new registry holds at most 128 sign-ins.
pub run_bounded :
    (ss : List Step) → count (run new_session_registry ss) ≤ default_max_tracked_sessions
run_bounded ss =
    (run-Fits default_max_tracked_sessions new_session_registry ss (refl, omega arith)).1
