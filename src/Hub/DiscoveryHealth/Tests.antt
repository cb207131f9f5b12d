-- ===== src/Hub/DiscoveryHealth/Tests.antt =====
-- internal/hub/discovery_health.go and internal/discovery/health.go at concrete samples.
use tantu.Prelude.{true, false, ◌≡◌, refl, List, [], ◌∷◌}
use tantu.Discovery.Health.{Health, Engine, health}
use tantu.Hub.DiscoveryHealth.{warns_degraded, says_recovered, watch, unseen}
use tantu.Hub.DiscoveryHealth.Told.{told, last_found, told-watch}

abbrev bound : Engine
bound = record {
  started = true;
  broadcast_bound = true;
  multicast_bound = true;
  sent = 4;
  received = 0;
  failures = 0;
  nodes_known = 0;
  last_noted = [];
  broadcast_failure = [];
  multicast_failure = [];
}

abbrev closed : Engine
closed = record bound { started = false; broadcast_bound = false; multicast_bound = false }

abbrev broken : Engine
broken = record bound { broadcast_bound = false; multicast_bound = false; failures = 2 }

abbrev repaired : Engine
repaired = record bound { failures = 2 }

abbrev samples : List Health
samples = health bound bound ∷ health broken broken ∷ health repaired repaired ∷ []

told-watch_example :
    told unseen.was_degraded (watch unseen samples) ≡ last_found unseen.was_degraded samples
unfolding health
told-watch_example = told-watch unseen samples (refl, (refl, (refl, tt)))

-- Beacons that begin to fail in the sample in which discovery is lost are never warned of.
silent : watch unseen samples ≡ warns_degraded ∷ says_recovered ∷ []
unfolding watch health
silent = refl

-- An engine that is closed between the two reads is reported as a fault.
torn : (health bound closed).degraded ≡ true
unfolding health
torn = refl
