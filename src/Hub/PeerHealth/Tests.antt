-- ===== src/Hub/PeerHealth/Tests.antt =====
-- internal/hub/peer_health.go: the theorems at concrete probes, and the ladder run by hand.
use tantu.Prelude.{ℕ, ◌≡◌, ◌≢◌, refl, ap, pos, ltbℤ, true, false, some, List, [], ◌∷◌, arith}
use tantu.Text.{Text, codes, ◌=t◌, to_lower, trim_space}
use tantu.Text.Assoc.{lookup, put, delete}
use tantu.Hub.PeerHealth.{
  PeerHealth, PeerProbe, health_for, health_key, no_health, is_listed, schedule_probe_next,
  heartbeat_max_backoff_for, shl, peer_heartbeat_interval, sync_probes, finish_probe,
}
use tantu.Hub.PeerHealth.Backoff.{schedule_probe_next-overflows}
use tantu.Hub.PeerHealth.Reported.{Event, syncs, ends, on_events, idle, on_events-sync_probes}

abbrev failed_often : ℕ → PeerProbe
failed_often n = record { next = pos 0; interval = pos 0; failures = n }

schedule_probe_next-overflows_example :
    schedule_probe_next (failed_often 64) false 5 peer_heartbeat_interval
    ≡ record { next = pos 5; interval = pos 0; failures = 65 }
schedule_probe_next-overflows_example =
    schedule_probe_next-overflows (failed_often 64) 5 peer_heartbeat_interval (omega arith)
      (omega arith)

-- Before that, the 29th failure in a row at the interval of the source puts the next probe in the past.
negative :
    ltbℤ (schedule_probe_next (failed_often 28) false 5 peer_heartbeat_interval).interval (pos 0)
    ≡ true
unfolding schedule_probe_next heartbeat_max_backoff_for shl
negative = refl

abbrev laptop : Text
laptop = codes "ab12"

abbrev desk : Text
desk = codes "cd34"

abbrev events : List Event
events =
    syncs 100 60 (laptop ∷ desk ∷ [])
    ∷ ends laptop true no_health 110 120 60
    ∷ ends desk false no_health 130 140 60
    ∷ []

true-not-false : true ≢ false
true-not-false e = ground (arith, e)

-- The laptop is reported after the desk was unpaired.
reported : health_for (sync_probes 200 60 (laptop ∷ []) (on_events idle events)) laptop ≢ no_health
unfolding health_for sync_probes on_events finish_probe lookup put delete ◌=t◌ to_lower trim_space
    is_listed
reported e = true-not-false (ap (λ (h : PeerHealth). h.reachable) e)

on_events-sync_probes_example :
    (fp : Text) × (probe : PeerProbe) × (health_key fp ≡ health_key laptop)
    × (is_listed fp (laptop ∷ []) ≡ true)
    × (lookup fp (sync_probes 200 60 (laptop ∷ []) (on_events idle events)).probes ≡ some probe)
on_events-sync_probes_example = on_events-sync_probes events 200 60 (laptop ∷ []) laptop reported
