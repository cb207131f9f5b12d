-- ===== src/Hub/DiscoveryHealth/Told.antt =====
-- internal/hub/discovery_health.go: the log and the samples agree.
use tantu.Prelude.{Bool, true, false, ◌≡◌, refl, ◌∙◌, none, List, [], ◌∷◌, arith, All}
use tantu.Discovery.Health.{Health}
use tantu.Hub.DiscoveryHealth.{
  DiscoveryHealthState, DiscoveryLogEvent, warns_degraded, says_recovered, warns_beacons, observed,
  discovery_health_event, logged, watch,
}

-- Whether a reader of the log takes discovery for degraded.
abbrev pub told : Bool → List DiscoveryLogEvent → Bool
told d [] = d
told d (warns_degraded ∷ es) = told true es
told d (says_recovered ∷ es) = told false es
told d (warns_beacons ∷ es) = told d es

-- What the last sample finds.
abbrev pub last_found : Bool → List Health → Bool
last_found d [] = d
last_found d (h ∷ hs) = last_found h.degraded hs

told-logged :
    (s : DiscoveryHealthState) (h : Health) (es : List DiscoveryLogEvent)
    → h.running ≡ true
    → told s.was_degraded (logged (discovery_health_event s h).0 es) ≡ told h.degraded es
unfolding discovery_health_event
told-logged s h es r = ground (arith, r)

-- While discovery runs, the last line of the log about its use says what the last sample found,
-- however often it failed and recovered.
pub told-watch :
    (s : DiscoveryHealthState) (hs : List Health)
    → All (λ (h : Health). h.running ≡ true) hs
    → told s.was_degraded (watch s hs) ≡ last_found s.was_degraded hs
unfolding watch
told-watch s [] r = refl
told-watch s (h ∷ hs) r =
    told-logged s h (watch (observed h) hs) r.0 ∙ told-watch (observed h) hs r.1

-- A sample like the one before says nothing.
pub watch_repeats :
    (s : DiscoveryHealthState) (h : Health)
    → (discovery_health_event (discovery_health_event s h).1 h).0 ≡ none
unfolding discovery_health_event
watch_repeats s h = ground arith
