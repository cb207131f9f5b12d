-- ===== src/Bridge/Sessions/Ports.antt =====
-- internal/bridge/session_registry.go, CancelOnPort: what makes a retry on a callback port work.
use tantu.Prelude.{
  ◌≡◌, ◌≢◌, refl, sym, subst, ◌∙◌, ℤ, is_positive, Bool, true, false, not, ◌&&◌, Option, none, some,
  List, [], ◌∷◌, if◌then◌else◌, arith, Bool-cases, All, inl, inr, if_cases,
}
use tantu.Text.{Text, ◌=t◌, trim_space}
use tantu.Text.Assoc.{lookup, lookup-delete}
use tantu.Text.Laws.{eq_iff, eq_self, eq_sound}
use tantu.Bridge.Sessions.{
  SessionInfo, ActiveSession, SessionRegistry, session_belongs_to_peer, released_by, cancel,
  ids_where, cancel_each, cancel_on_port, same_port, port_ids,
}

-- The keys of a registry are ids without white space around them.
abbrev pub IsTrimmed : List (Text × ActiveSession) → Type 0
IsTrimmed m = All (λ e. trim_space e.0 ≡ e.0) m

module _ (peer : Text) (j : Text) where
  released_by-shrinks :
      (o : Option ActiveSession) (r : SessionRegistry) (id : Text) (t : ActiveSession)
      → lookup j (released_by o r id peer).0.sessions ≡ some t
      → lookup j r.sessions ≡ some t
  unfolding released_by
  released_by-shrinks none r id t h = h
  released_by-shrinks (some s) r id t h =
      if_cases
        (λ (end : SessionRegistry × Option SessionInfo).
          lookup j end.0.sessions ≡ some t → lookup j r.sessions ≡ some t)
        (session_belongs_to_peer s.info peer)
        (λ _ k. ground (arith, lookup-delete id j r.sessions, k)) (λ _ k. k) h

  cancel_each-shrinks :
      (r : SessionRegistry) (ids : List Text) (t : ActiveSession)
      → lookup j (cancel_each r peer ids).0.sessions ≡ some t
      → lookup j r.sessions ≡ some t
  unfolding cancel_each cancel
  cancel_each-shrinks r [] t h = h
  cancel_each-shrinks r (id ∷ ids) t h =
      released_by-shrinks (lookup (trim_space id) r.sessions) r (trim_space id) t
        (cancel_each-shrinks (cancel r id peer).0 ids t h)

  -- The ids that a release does not name keep their sessions.
  released_by-other :
      (o : Option ActiveSession) (r : SessionRegistry) (id : Text)
      → id ≢ j
      → lookup j (released_by o r id peer).0.sessions ≡ lookup j r.sessions
  unfolding released_by
  released_by-other none r id h = refl
  released_by-other (some s) r id h =
      if_cases
        (λ (end : SessionRegistry × Option SessionInfo).
          lookup j end.0.sessions ≡ lookup j r.sessions)
        (session_belongs_to_peer s.info peer)
        (λ _. ground (arith, lookup-delete id j r.sessions, eq_iff id j, h)) (λ _. refl)

  cancel_each-other :
      (r : SessionRegistry) (ids : List Text)
      → All (λ id. trim_space id ≢ j) ids
      → lookup j (cancel_each r peer ids).0.sessions ≡ lookup j r.sessions
  unfolding cancel_each cancel
  cancel_each-other r [] h = refl
  cancel_each-other r (id ∷ ids) h =
      cancel_each-other (cancel r id peer).0 ids h.1
      ∙ released_by-other (lookup (trim_space id) r.sessions) r (trim_space id) h.0

-- Behind a release of an id, what the registry still holds under it belongs to another peer.
abbrev Foreign : Text → SessionRegistry → Text → Type 0
Foreign peer r id =
    (t : ActiveSession)
    → lookup id r.sessions ≡ some t
    → session_belongs_to_peer t.info peer ≡ false

released_by-Foreign :
    (o : Option ActiveSession) (r : SessionRegistry) (id peer : Text)
    → lookup id r.sessions ≡ o
    → Foreign peer (released_by o r id peer).0 id
unfolding released_by
released_by-Foreign none r id peer at = λ t h. absurd cc
released_by-Foreign (some s) r id peer at =
    if_cases (λ (end : SessionRegistry × Option SessionInfo). Foreign peer end.0 id)
      (session_belongs_to_peer s.info peer)
      (λ _ t h. absurd (ground (arith, lookup-delete id id r.sessions, eq_self id, h)))
      (λ e t h.
        let same : s ≡ t = cc in
        subst (λ (x : ActiveSession). session_belongs_to_peer x.info peer ≡ false) same e)

cancel_each-Foreign :
    (r : SessionRegistry) (ids : List Text) (peer : Text)
    → All (λ id. trim_space id ≡ id) ids
    → All (Foreign peer (cancel_each r peer ids).0) ids
unfolding cancel_each cancel
cancel_each-Foreign r [] peer h = tt
cancel_each-Foreign r (id ∷ ids) peer h = (
  (λ t k. released_by-Foreign (lookup (trim_space id) r.sessions) r (trim_space id) peer refl t (
      subst (λ i. lookup i (cancel r id peer).0.sessions ≡ some t) (sym h.0)
        (cancel_each-shrinks peer id (cancel r id peer).0 ids t k))),
  cancel_each-Foreign (cancel r id peer).0 ids peer h.1,
)

module _ (p : Text → SessionInfo → Bool) (Q : Text → Type 0) where
  kept :
      (b : Bool) (i : Text) (rest : List Text) → All Q (if b then i ∷ rest else rest) → All Q rest
  kept true i rest h = h.1
  kept false i rest h = h

  first :
      (b : Bool) (i : Text) (rest : List Text)
      → b ≡ true
      → All Q (if b then i ∷ rest else rest)
      → Q i
  first true i rest e h = h.0
  first false i rest e h = absurd cc

  -- What holds of the ids that pass a test holds of each session that passes it, and back.
  from_ids :
      (m : List (Text × ActiveSession)) (j : Text) (t : ActiveSession)
      → All Q (ids_where p m)
      → lookup j m ≡ some t
      → p j t.info ≡ true
      → Q j
  unfolding ids_where lookup
  from_ids [] j t h at pass = absurd cc
  from_ids ((i, s) ∷ m) j t h at pass = elim (Bool-cases (i =t j)) [
    | inl e ↦
        let key : i ≡ j = eq_sound i j e in
        let same : s ≡ t = ground (arith, at, e) in
        let passes : p i s.info ≡ true =
          subst (λ x. p x s.info ≡ true) (sym key)
            (subst (λ (x : ActiveSession). p j x.info ≡ true) (sym same) pass) in
        subst Q key (first (p i s.info) i (ids_where p m) passes h)
    | inr e ↦ from_ids m j t (kept (p i s.info) i (ids_where p m) h) (ground (arith, at, e)) pass
  ]

  to_ids :
      (m : List (Text × ActiveSession))
      → All (λ e. p e.0 e.1.info ≡ true → Q e.0) m
      → All Q (ids_where p m)
  unfolding ids_where
  to_ids [] h = tt
  to_ids ((i, s) ∷ m) h =
      if_cases (All Q) (p i s.info) (λ e. (h.0 e, to_ids m h.1)) (λ _. to_ids m h.1)

other :
    (b : Bool) (id exclude : Text)
    → (trim_space id ≡ id) × (trim_space id ≡ exclude)
    → (b && not (id =t exclude)) ≢ true
other b id exclude h e =
    let same : id ≡ exclude = sym h.0 ∙ h.1 in ground (arith, eq_iff id exclude, same, e)

module _ (P Q : Text → Type 0) where
  firsts : (ids : List Text) → All (λ id. P id × Q id) ids → All P ids
  firsts [] h = tt
  firsts (id ∷ ids) h = (h.0.0, firsts ids h.1)

  seconds : (ids : List Text) → All (λ id. P id × Q id) ids → All Q ids
  seconds [] h = tt
  seconds (id ∷ ids) h = (h.0.1, seconds ids h.1)

module _ (r : SessionRegistry) (port : ℤ) (peer : Text) (trimmed : IsTrimmed r.sessions) where
  port_ids-trimmed :
      (exclude : Text)
      → All (λ id. (trim_space id ≡ id) × (trim_space id ≢ exclude)) (port_ids r port exclude)
  port_ids-trimmed exclude =
      to_ids _ (λ id. (trim_space id ≡ id) × (trim_space id ≢ exclude)) r.sessions
        (go r.sessions trimmed)
    where
      go :
          (m : List (Text × ActiveSession))
          → IsTrimmed m
          → All
              (λ (e : Text × ActiveSession).
                (same_port e.1.info.callback_port port && not (e.0 =t exclude)) ≡ true
                → (trim_space e.0 ≡ e.0) × (trim_space e.0 ≢ exclude))
              m
      go [] h = tt
      go ((id, s) ∷ m) h = ((λ e. (h.0, λ same. other _ id exclude (h.0, same) e)), go m h.1)

  freed :
      (exclude j : Text) (t : ActiveSession)
      → lookup j (cancel_each r peer (port_ids r port exclude)).0.sessions ≡ some t
      → session_belongs_to_peer t.info peer ≡ true
      → same_port t.info.callback_port port ≡ true
      → (j =t exclude) ≢ false
  freed exclude j t at own here apart =
      let ids = port_ids r port exclude in
      let end = (cancel_each r peer ids).0 in
      let trims =
        firsts (λ id. trim_space id ≡ id) (λ id. trim_space id ≢ exclude) ids
          (port_ids-trimmed exclude) in
      let foreign =
        from_ids (λ id info. same_port info.callback_port port && not (id =t exclude))
          (Foreign peer end) r.sessions j t (cancel_each-Foreign r ids peer trims)
          (cancel_each-shrinks peer j r ids t at) (ground (arith, here, apart)) t at in
      cc

  -- Where the ids of a registry have no white space around them: behind CancelOnPort for a port, a
  -- session that belongs to the peer and holds the port is the excluded one.
  pub cancel_on_port_frees :
      (excluded j : Text) (t : ActiveSession)
      → is_positive port ≡ true
      → lookup j (cancel_on_port r port peer excluded).0.sessions ≡ some t
      → session_belongs_to_peer t.info peer ≡ true
      → same_port t.info.callback_port port ≡ true
      → j ≡ trim_space excluded
  unfolding cancel_on_port
  cancel_on_port_frees excluded j t p at own here =
      let exclude = trim_space excluded in
      let all : cancel_on_port r port peer excluded ≡ cancel_each r peer (port_ids r port exclude) =
        rw p refl in
      let held =
        subst (λ (end : SessionRegistry × List SessionInfo). lookup j end.0.sessions ≡ some t) all
          at in
      elim (Bool-cases (j =t exclude)) [
        | inl e ↦ eq_sound j exclude e
        | inr e ↦ absurd (freed exclude j t held own here e)
      ]

  -- Where the ids of a registry have no white space around them, CancelOnPort leaves the excluded
  -- session as it was, whatever port it holds and whoever asks.
  pub cancel_on_port-keeps :
      (excluded : Text)
      → lookup (trim_space excluded) (cancel_on_port r port peer excluded).0.sessions
        ≡ lookup (trim_space excluded) r.sessions
  unfolding cancel_on_port
  cancel_on_port-keeps excluded =
      let exclude = trim_space excluded in
      let ids = port_ids r port exclude in
      if_cases
        (λ (end : SessionRegistry × List SessionInfo).
          lookup exclude end.0.sessions ≡ lookup exclude r.sessions)
        (is_positive port)
        (λ _. cancel_each-other peer exclude r ids (
          seconds (λ id. trim_space id ≡ id) (λ id. trim_space id ≢ exclude) ids
            (port_ids-trimmed exclude)))
        (λ _. refl)
