-- ===== src/Hub/PeerHealth/Covered.antt =====
-- internal/hub/peer_health.go: every health that is held is that of a scheduled peer, behind a read of
-- the trusted peers.
use tantu.Prelude.{
  ℕ, ◌+◌, ◌≡◌, ◌≢◌, refl, sym, subst, ap, ◌∙◌, inl, inr, true, false, none, some, List, [], ◌∷◌,
  arith, Bool-cases, if_cases, if◌then◌else◌, length,
}
use tantu.Text.{Text, ◌=t◌}
use tantu.Text.Laws.{eq_sound, eq_self, eq_iff}
use tantu.Text.Assoc.{lookup, put, lookup-put, lookup-delete}
use tantu.Hub.PeerHealth.{
  Beat, PeerHealth, PeerProbe, health_key, no_health, set_peer_health, is_listed, schedule_new,
  keep_trusted, dropped, clear_health, sync_probes, is_some, first_probe,
}

-- Every health that is held belongs to a scheduled peer.
abbrev pub IsCovered : Beat → Type 0
IsCovered b =
    (key : Text) (h : PeerHealth)
    → lookup key b.health ≡ some h
    → (fp : Text) × (probe : PeerProbe) × (health_key fp ≡ key) × (lookup fp b.probes ≡ some probe)

keep_trusted-lookup :
    (trusted : List Text) (m : List (Text × PeerProbe)) (fp : Text) (probe : PeerProbe)
    → is_listed fp trusted ≡ true
    → lookup fp m ≡ some probe
    → lookup fp (keep_trusted trusted m) ≡ some probe
unfolding keep_trusted lookup
keep_trusted-lookup trusted [] fp probe t h = h
keep_trusted-lookup trusted ((j, p) ∷ m) fp probe t h =
    ground (arith, eq_iff j fp, keep_trusted-lookup trusted m fp probe t)

keep_trusted-only :
    (trusted : List Text) (m : List (Text × PeerProbe)) (fp : Text) (probe : PeerProbe)
    → lookup fp (keep_trusted trusted m) ≡ some probe
    → is_listed fp trusted ≡ true
unfolding keep_trusted lookup
keep_trusted-only trusted [] fp probe h = absurd (ground (arith, h))
keep_trusted-only trusted ((j, p) ∷ m) fp probe h =
    ground (arith, eq_iff j fp, keep_trusted-only trusted m fp probe)

dropped-listed :
    (trusted : List Text) (m : List (Text × PeerProbe)) (fp : Text) (probe : PeerProbe)
    → is_listed fp trusted ≡ false
    → lookup fp m ≡ some probe
    → is_listed fp (dropped trusted m) ≡ true
unfolding dropped lookup is_listed
dropped-listed trusted [] fp probe t h = absurd (ground (arith, h))
dropped-listed trusted ((j, p) ∷ m) fp probe t h =
    ground (arith, eq_iff j fp, eq_self j, dropped-listed trusted m fp probe t)

put_new :
    (p fp : Text) (v probe : PeerProbe) (m : List (Text × PeerProbe))
    → is_some (lookup p m) ≡ false
    → lookup fp m ≡ some probe
    → lookup fp (put p v m) ≡ some probe
put_new p fp v probe m free h = lookup-put p fp v m ∙ elim (Bool-cases (p =t fp)) [
  | inr e ↦ rw e h
  | inl e ↦
      absurd (ground (arith, subst (λ t. lookup t m ≡ some probe) (sym (eq_sound p fp e)) h, free))
]

schedule_new-lookup :
    (now interval n idx : ℕ) (ps : List Text) (m : List (Text × PeerProbe)) (fp : Text)
    (probe : PeerProbe)
    → lookup fp m ≡ some probe
    → lookup fp (schedule_new now interval n idx ps m) ≡ some probe
unfolding schedule_new
schedule_new-lookup now interval n idx [] m fp probe h = h
schedule_new-lookup now interval n idx (p ∷ ps) m fp probe h =
    schedule_new-lookup now interval n (idx + 1) ps
      (if is_some (lookup p m) then m else put p (first_probe now interval n idx) m) fp probe
      (if_cases (λ (end : List (Text × PeerProbe)). lookup fp end ≡ some probe)
        (is_some (lookup p m)) (λ _. h)
        (λ e. put_new p fp (first_probe now interval n idx) probe m e h))

-- What is cleared is gone, and nothing is added; the schedule stays.
cleared :
    (fps : List Text) (b : Beat) (key : Text) (h : PeerHealth)
    → lookup key (clear_health fps b).health ≡ some h
    → (lookup key b.health ≡ some h) × ((fp : Text) → is_listed fp fps ≡ true → health_key fp ≢ key)
unfolding clear_health set_peer_health is_listed
cleared [] b key h e = (e, λ fp l _. absurd (ground (arith, l)))
cleared (f ∷ fps) b key h e =
    let rest = cleared fps (set_peer_health b f no_health) key h e in
    let gone = sym (lookup-delete (health_key f) key b.health) ∙ rest.0 in
    elim (Bool-cases (health_key f =t key)) [
      | inl same ↦ absurd (ground (arith, gone, same))
      | inr other ↦ (
        subst (λ t. (if t then none else lookup key b.health) ≡ some h) other gone,
        λ fp.
            if_cases (λ t. t ≡ true → health_key fp ≢ key) (f =t fp)
              (λ e' _ same. absurd (
                ground (
                  arith,
                  eq_iff (health_key f) key,
                  ap health_key (eq_sound f fp e'),
                  same,
                  other,
                )))
              (λ _ l. rest.1 fp l),
      )
    ]

clear_health-probes : (fps : List Text) (b : Beat) → (clear_health fps b).probes ≡ b.probes
unfolding clear_health set_peer_health
clear_health-probes [] b = refl
clear_health-probes (f ∷ fps) b = clear_health-probes fps (set_peer_health b f no_health)

-- After a read of the trusted peers, whatever health is held is that of a trusted, scheduled peer.
pub sync_probes-lookup :
    (now interval : ℕ) (trusted : List Text) (b : Beat) (key : Text) (h : PeerHealth)
    → IsCovered b
    → lookup key (sync_probes now interval trusted b).health ≡ some h
    → (fp : Text) × (probe : PeerProbe) × (health_key fp ≡ key)
      × (is_listed fp trusted ≡ true)
      × (lookup fp (sync_probes now interval trusted b).probes ≡ some probe)
unfolding sync_probes
sync_probes-lookup now interval trusted b key h covered e =
    let scheduled = schedule_new now interval (length trusted) 0 trusted b.probes in
    let kept = record b { probes = keep_trusted trusted scheduled } in
    let was = cleared (dropped trusted scheduled) kept key h e in
    let (fp, probe, same, at) = covered key h was.0 in
    let at' = schedule_new-lookup now interval (length trusted) 0 trusted b.probes fp probe at in
    elim (Bool-cases (is_listed fp trusted)) [
      | inl t ↦ (
        fp,
        probe,
        same,
        t,
        subst (λ m. lookup fp m ≡ some probe)
            (sym (clear_health-probes (dropped trusted scheduled) kept))
            (keep_trusted-lookup trusted scheduled fp probe t at'),
      )
      | inr t ↦ absurd (was.1 fp (dropped-listed trusted scheduled fp probe t at') same)
    ]
