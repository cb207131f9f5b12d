-- ===== src/Hub/PeerHealth/Reported.antt =====
-- internal/hub/peer_health.go: whose health is reported, over any order of the ends of probes and of
-- the reads of the trusted peers.
use tantu.Prelude.{
  ℕ, ◌≡◌, ◌≢◌, ap, ◌∙◌, inl, inr, ◌==◌, Bool, true, Option, none, some, List, [], ◌∷◌, arith,
  Bool-cases, Option-cases, if_cases, if◌then◌else◌,
}
use tantu.Text.{Text, ◌=t◌}
use tantu.Text.Laws.{eq_sound, eq_self}
use tantu.Text.Assoc.{lookup, put, delete, lookup-put, lookup-delete}
use tantu.Hub.PeerHealth.{
  Beat, PeerHealth, PeerProbe, health_key, no_health, set_peer_health, is_listed, sync_probes,
  finish_scheduled, finish_probe, health_for, or_no_health, failed, succeeded, schedule_probe_next,
}
use tantu.Hub.PeerHealth.Covered.{IsCovered, sync_probes-lookup}

put_keeps :
    (k fp : Text) (v probe : PeerProbe) (m : List (Text × PeerProbe))
    → lookup fp m ≡ some probe
    → (p : PeerProbe) × (lookup fp (put k v m) ≡ some p)
put_keeps k fp v probe m h = elim (Bool-cases (k =t fp)) [
  | inl e ↦ (v, lookup-put k fp v m ∙ ground (arith, e))
  | inr e ↦ (probe, lookup-put k fp v m ∙ rw e h)
]

module _ (b : Beat) (fp : Text) (new : PeerProbe) (covered : IsCovered b) where
  carried :
      (key : Text) (h : PeerHealth)
      → lookup key b.health ≡ some h
      → (fp' : Text) × (probe : PeerProbe) × (health_key fp' ≡ key)
        × (lookup fp' (put fp new b.probes) ≡ some probe)
  carried key h e =
      let (fp', probe, same, at) = covered key h e in
      let (p, at') = put_keeps fp fp' new probe b.probes at in (fp', p, same, at')

  put-IsCovered :
      (v : PeerHealth)
      → IsCovered (record { probes = put fp new b.probes; health = put (health_key fp) v b.health })
  put-IsCovered v key h e = elim (Bool-cases (health_key fp =t key)) [
    | inl same ↦ (
      fp,
      new,
      eq_sound (health_key fp) key same,
      lookup-put fp fp new b.probes ∙ ground (arith, eq_self fp),
    )
    | inr other ↦
        carried key h (ground (arith, other, e, lookup-put (health_key fp) key v b.health))
  ]

  delete-IsCovered :
      IsCovered (record { probes = put fp new b.probes; health = delete (health_key fp) b.health })
  delete-IsCovered key h e = elim (Bool-cases (health_key fp =t key)) [
    | inl same ↦ absurd (ground (arith, same, e, lookup-delete (health_key fp) key b.health))
    | inr other ↦
        carried key h (ground (arith, other, e, lookup-delete (health_key fp) key b.health))
  ]

finish_scheduled-IsCovered :
    (o : Option PeerProbe) (b : Beat) (fp : Text) (answered : Bool) (seen : PeerHealth)
    (asked now base : ℕ)
    → IsCovered b
    → IsCovered (finish_scheduled o b fp answered seen asked now base)
unfolding finish_scheduled set_peer_health
finish_scheduled-IsCovered none b fp answered seen asked now base covered = covered
finish_scheduled-IsCovered (some probe) b fp answered seen asked now base covered =
    let verdict = if answered then succeeded seen asked else failed seen asked in
    let new = schedule_probe_next probe answered now base in
    if_cases (λ m. IsCovered (record { probes = put fp new b.probes; health = m }))
      (verdict.last_checked == 0) (λ _. delete-IsCovered b fp new covered)
      (λ _. put-IsCovered b fp new covered verdict)

-- What the loop does to its state: it reads the trusted peers, or a probe ends.
pub data Event : Type 0 where
  syncs : ℕ → ℕ → List Text → Event
  ends : Text → Bool → PeerHealth → ℕ → ℕ → ℕ → Event

unfoldable pub on_event : Beat → Event → Beat
unfolding sync_probes finish_probe
on_event b (syncs now interval trusted) = sync_probes now interval trusted b
on_event b (ends fp answered seen asked now base) = finish_probe b fp answered seen asked now base

unfoldable pub on_events : Beat → List Event → Beat
unfolding on_event
on_events b [] = b
on_events b (e ∷ es) = on_events (on_event b e) es

abbrev pub idle : Beat
idle = record { probes = []; health = [] }

on_event-IsCovered : (b : Beat) (e : Event) → IsCovered b → IsCovered (on_event b e)
unfolding on_event finish_probe
on_event-IsCovered b (syncs now interval trusted) covered = λ key h e.
    let (fp, probe, same, t, at) = sync_probes-lookup now interval trusted b key h covered e in
    (fp, probe, same, at)
on_event-IsCovered b (ends fp answered seen asked now base) covered =
    finish_scheduled-IsCovered (lookup fp b.probes) b fp answered seen asked now base covered

on_events-IsCovered : (es : List Event) (b : Beat) → IsCovered b → IsCovered (on_events b es)
unfolding on_events
on_events-IsCovered [] b covered = covered
on_events-IsCovered (e ∷ es) b covered =
    on_events-IsCovered es (on_event b e) (on_event-IsCovered b e covered)

idle-IsCovered : IsCovered idle
unfolding lookup
idle-IsCovered key h e = absurd (ground (arith, e))

-- Whatever happened before: after a read of the trusted peers, a fingerprint of which any health is
-- reported is, up to case and white space, that of a trusted peer that is scheduled.
pub on_events-sync_probes :
    (es : List Event) (now interval : ℕ) (trusted : List Text) (fingerprint : Text)
    → health_for (sync_probes now interval trusted (on_events idle es)) fingerprint ≢ no_health
    → (fp : Text) × (probe : PeerProbe) × (health_key fp ≡ health_key fingerprint)
      × (is_listed fp trusted ≡ true)
      × (lookup fp (sync_probes now interval trusted (on_events idle es)).probes ≡ some probe)
unfolding health_for
on_events-sync_probes es now interval trusted fingerprint reported =
    let b = on_events idle es in
    let after = sync_probes now interval trusted b in
    elim (Option-cases (lookup (health_key fingerprint) after.health)) [
      | inl e ↦ absurd (reported (ap or_no_health e))
      | inr (h, e) ↦
          sync_probes-lookup now interval trusted b (health_key fingerprint) h
            (on_events-IsCovered es idle idle-IsCovered) e
    ]
