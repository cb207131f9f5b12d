-- ===== src/Hub/DiscoveryHealth.antt =====
-- internal/hub/discovery_health.go: what the Hub writes to its log about the samples of discovery. An
-- event is named for its message.
pub mod Told
pub mod Tests
use tantu.Prelude.{
  Bool, true, false, not, ◌&&◌, Option, none, some, List, [], ◌∷◌, ltb, if◌then◌else◌,
}
use tantu.Discovery.Health.{Health}

pub record DiscoveryHealthState : Type 0 where
  pub was_degraded : Bool
  pub was_failing : Bool

pub data DiscoveryLogEvent : Type 0 where
  warns_degraded says_recovered warns_beacons : DiscoveryLogEvent

abbrev pub observed : Health → DiscoveryHealthState
observed cur = record { was_degraded = cur.degraded; was_failing = ltb 0 cur.send_errors }

unfoldable pub discovery_health_event :
    DiscoveryHealthState → Health → Option DiscoveryLogEvent × DiscoveryHealthState
discovery_health_event prev cur = (
  if not cur.running
      then none
      else if cur.degraded && not prev.was_degraded
      then some warns_degraded
      else if not cur.degraded && prev.was_degraded
      then some says_recovered
      else if not prev.was_failing && ltb 0 cur.send_errors
      then some warns_beacons
      else none,
  observed cur,
)

abbrev pub unseen : DiscoveryHealthState
unseen = record { was_degraded = false; was_failing = false }

abbrev logged : Option DiscoveryLogEvent → List DiscoveryLogEvent → List DiscoveryLogEvent
logged none es = es
logged (some e) es = e ∷ es

-- The loop of watchDiscoveryHealthEvery over the samples that its ticks take
unfoldable pub watch : DiscoveryHealthState → List Health → List DiscoveryLogEvent
unfolding discovery_health_event
watch s [] = []
watch s (h ∷ hs) = let (e, s') = discovery_health_event s h in logged e (watch s' hs)
