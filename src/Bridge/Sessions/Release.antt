-- ===== src/Bridge/Sessions/Release.antt =====
-- internal/bridge/session_registry.go: who may release which sign-in, and what a release leaves.
use tantu.Prelude.{
  ℕ, ◌≡◌, refl, ℤ, is_positive, false, Option, none, some, List, [], ◌∷◌, arith, if_cases,
}
use tantu.Text.{Text, is_empty, trim_space}
use tantu.Text.Assoc.{lookup, lookup-delete}
use tantu.Text.Laws.{eq_iff}
use tantu.Bridge.Sessions.{
  SessionInfo, ActiveSession, SessionRegistry, session_belongs_to_peer, released_by, cancel,
  cancel_each, cancel_by_flow, cancel_on_port, cancel_all, flow_ids, port_ids, all_ids,
}

-- The four ways to release sign-ins, each for the peer that asks.
pub data Release : Type 0 where
  by_id : Text → Release
  by_flow : Text → Release
  on_port : ℤ → Text → Release
  everything : Release

unfoldable pub release : Release → SessionRegistry → Text → SessionRegistry
unfolding cancel cancel_by_flow cancel_on_port cancel_all
release (by_id id) r peer = (cancel r id peer).0
release (by_flow flow) r peer = (cancel_by_flow r flow peer).0
release (on_port port exclude) r peer = (cancel_on_port r port peer exclude).0
release everything r peer = (cancel_all r peer).0

module _ (peer : Text) (j : Text) (s : ActiveSession)
    (foreign : session_belongs_to_peer s.info peer ≡ false) where
  released_by-spares :
      (o : Option ActiveSession) (r : SessionRegistry) (id : Text)
      → lookup id r.sessions ≡ o
      → lookup j r.sessions ≡ some s
      → lookup j (released_by o r id peer).0.sessions ≡ some s
  unfolding released_by
  released_by-spares none r id at h = h
  released_by-spares (some t) r id at h =
      if_cases (λ (end : SessionRegistry × Option SessionInfo). lookup j end.0.sessions ≡ some s)
        (session_belongs_to_peer t.info peer)
        (λ own. ground (arith, lookup-delete id j r.sessions, eq_iff id j, at, h, own, foreign))
        (λ _. h)

  cancel_each-spares :
      (r : SessionRegistry) (ids : List Text)
      → lookup j r.sessions ≡ some s
      → lookup j (cancel_each r peer ids).0.sessions ≡ some s
  unfolding cancel_each cancel
  cancel_each-spares r [] h = h
  cancel_each-spares r (id ∷ ids) h =
      cancel_each-spares (cancel r id peer).0 ids
        (released_by-spares (lookup (trim_space id) r.sessions) r (trim_space id) refl h)

  -- A sign-in that does not belong to the peer that asks survives every release: by its request id, by
  -- its flow, by its callback port, or of everything. It stays in the registry as it was.
  pub release_spares :
      (q : Release) (r : SessionRegistry)
      → lookup j r.sessions ≡ some s
      → lookup j (release q r peer).sessions ≡ some s
  unfolding release cancel cancel_by_flow cancel_on_port cancel_all
  release_spares (by_id id) r h =
      released_by-spares (lookup (trim_space id) r.sessions) r (trim_space id) refl h
  release_spares (by_flow flow) r h =
      if_cases (λ (end : SessionRegistry × ℕ). lookup j end.0.sessions ≡ some s)
        (is_empty (trim_space flow)) (λ _. h)
        (λ _. cancel_each-spares r (flow_ids r (trim_space flow)) h)
  release_spares (on_port port exclude) r h =
      if_cases (λ (end : SessionRegistry × List SessionInfo). lookup j end.0.sessions ≡ some s)
        (is_positive port) (λ _. cancel_each-spares r (port_ids r port (trim_space exclude)) h)
        (λ _. h)
  release_spares everything r h = cancel_each-spares r (all_ids r) h
