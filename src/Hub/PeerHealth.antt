-- ===== src/Hub/PeerHealth.antt =====
-- internal/hub/peer_health.go: when a peer is probed, and what is reported of it. Durations and times
-- are nanoseconds: an int64 is an integer, and one that is shifted or multiplied is the bit pattern
-- below 2^64 that it stands for. The clock, the dial and the store of peers are inputs.
pub mod Backoff
pub mod Covered
pub mod Reported
pub mod Tests
use tantu.Prelude.{
  ℕ, zero, suc, ◌+◌, ◌-◌, ◌*◌, ◌/◌, ◌%◌, ◌^◌, ℤ, pos, int64, ltbℤ, ◌+ℤ◌, Bool, true, false, Option,
  none, some, List, [], ◌∷◌, ltb, leb, ◌==◌, if◌then◌else◌, length,
}
use tantu.Text.{Text, ◌=t◌, to_lower, trim_space}
use tantu.Text.Assoc.{lookup, put, delete}

abbrev second : ℕ
second = 10 ^ 9

abbrev pub peer_heartbeat_interval : ℕ
peer_heartbeat_interval = 60 * second

abbrev pub peer_heartbeat_max_backoff : ℕ
peer_heartbeat_max_backoff = 15 * 60 * second

abbrev pub peer_heartbeat_max_probes_per_interval : ℕ
peer_heartbeat_max_probes_per_interval = 6

abbrev pub peer_heartbeat_max_concurrent : ℕ
peer_heartbeat_max_concurrent = 8

-- A zero time is 0.
pub record PeerHealth : Type 0 where
  pub reachable : Bool
  pub last_checked : ℕ
  pub last_ok : ℕ
  pub consecutive_failures : ℕ

abbrev pub no_health : PeerHealth
no_health = record { reachable = false; last_checked = 0; last_ok = 0; consecutive_failures = 0 }

unfoldable pub failed : PeerHealth → ℕ → PeerHealth
failed h now = record h {
  reachable = false;
  last_checked = now;
  consecutive_failures = h.consecutive_failures + 1;
}

unfoldable pub succeeded : PeerHealth → ℕ → PeerHealth
succeeded h now = record {
  reachable = true;
  last_checked = now;
  last_ok = now;
  consecutive_failures = 0;
}

pub record PeerProbe : Type 0 where
  pub next : ℤ
  pub interval : ℤ
  pub failures : ℕ

-- `x << k` on an int64, as k shifts by one place: the bits that leave the word are lost.
unfoldable pub shl : ℕ → ℕ → ℕ
shl x zero = x
shl x (suc k) = shl (x * 2 % 2 ^ 64) k

unfoldable pub heartbeat_max_backoff_for : ℕ → ℤ
heartbeat_max_backoff_for base =
    let scaled = int64 (base * 16 % 2 ^ 64) in
    if ltbℤ scaled (pos peer_heartbeat_max_backoff) then scaled else pos peer_heartbeat_max_backoff

-- `if max := heartbeatMaxBackoffFor(base); interval > max { interval = max }`
abbrev pub at_most : ℤ → ℤ → ℤ
at_most max interval = if ltbℤ max interval then max else interval

unfoldable pub schedule_probe_next : PeerProbe → Bool → ℕ → ℕ → PeerProbe
unfolding heartbeat_max_backoff_for shl
schedule_probe_next probe true now base = record {
  next = pos now +ℤ int64 base;
  interval = int64 base;
  failures = 0;
}
schedule_probe_next probe false now base =
    let interval = at_most (heartbeat_max_backoff_for base) (int64 (shl base probe.failures)) in
    record { next = pos now +ℤ interval; interval = interval; failures = probe.failures + 1 }

unfoldable pub heartbeat_interval_for_peers : ℕ → ℕ → ℕ
heartbeat_interval_for_peers base peers =
    let cap = peer_heartbeat_max_probes_per_interval in
    if leb peers cap then base else base * ((peers + cap - 1) / cap) % 2 ^ 64

-- The schedule of the loop and the health of the Hub, by fingerprint. The keys of the health are
-- trimmed and in lower case.
pub record Beat : Type 0 where
  pub probes : List (Text × PeerProbe)
  pub health : List (Text × PeerHealth)

abbrev pub health_key : Text → Text
health_key fingerprint = to_lower (trim_space fingerprint)

abbrev pub or_no_health : Option PeerHealth → PeerHealth
or_no_health none = no_health
or_no_health (some h) = h

unfoldable pub health_for : Beat → Text → PeerHealth
health_for b fingerprint = or_no_health (lookup (health_key fingerprint) b.health)

unfoldable pub set_peer_health : Beat → Text → PeerHealth → Beat
set_peer_health b fingerprint h =
    let key = health_key fingerprint in
    record b { health = if h.last_checked == 0 then delete key b.health else put key h b.health }

unfoldable pub is_listed : Text → List Text → Bool
is_listed fp [] = false
is_listed fp (p ∷ ps) = if p =t fp then true else is_listed fp ps

abbrev pub is_some {ℓ} : {A : Type ℓ} → Option A → Bool
is_some none = false
is_some (some a) = true

-- A peer that was not scheduled yet is spread over one interval. The
-- product with the index stays below 2^63 for fewer than a hundred million peers at the interval above.
abbrev pub first_probe : ℕ → ℕ → ℕ → ℕ → PeerProbe
first_probe now interval n idx = record {
  next = pos now +ℤ pos (idx * interval / n);
  interval = int64 interval;
  failures = 0;
}

-- syncProbes, its first loop.
unfoldable pub schedule_new :
    ℕ → ℕ → ℕ → ℕ → List Text → List (Text × PeerProbe) → List (Text × PeerProbe)
schedule_new now interval n idx [] probes = probes
schedule_new now interval n idx (p ∷ ps) probes =
    schedule_new now interval n (idx + 1) ps
      (if is_some (lookup p probes) then probes else put p (first_probe now interval n idx) probes)

-- Its second loop: what is no longer trusted is dropped from the schedule, and its health cleared.
unfoldable pub keep_trusted : List Text → List (Text × PeerProbe) → List (Text × PeerProbe)
keep_trusted trusted [] = []
keep_trusted trusted ((fp, probe) ∷ m) =
    let rest = keep_trusted trusted m in if is_listed fp trusted then (fp, probe) ∷ rest else rest

unfoldable pub dropped : List Text → List (Text × PeerProbe) → List Text
dropped trusted [] = []
dropped trusted ((fp, probe) ∷ m) =
    let rest = dropped trusted m in if is_listed fp trusted then rest else fp ∷ rest

unfoldable pub clear_health : List Text → Beat → Beat
unfolding set_peer_health
clear_health [] b = b
clear_health (fp ∷ fps) b = clear_health fps (set_peer_health b fp no_health)

unfoldable pub sync_probes : ℕ → ℕ → List Text → Beat → Beat
unfolding schedule_new keep_trusted dropped clear_health
sync_probes now interval trusted b =
    let scheduled = schedule_new now interval (length trusted) 0 trusted b.probes in
    clear_health (dropped trusted scheduled) (record b { probes = keep_trusted trusted scheduled })

-- The peers that are due, as many as there are free slots: one without a slot keeps its time.
unfoldable pub due : ℕ → ℕ → List (Text × PeerProbe) → List Text
due now free [] = []
due now zero (e ∷ m) = []
due now (suc free) ((fp, probe) ∷ m) =
    let rest = due now free m in
    let later = due now (suc free) m in if ltbℤ (pos now) probe.next then later else fp ∷ rest

-- The end of a probe that began at `asked` and read the health then: recorded only while the peer is
-- still scheduled.
finish_scheduled : Option PeerProbe → Beat → Text → Bool → PeerHealth → ℕ → ℕ → ℕ → Beat
unfolding set_peer_health schedule_probe_next failed succeeded
finish_scheduled none b fp answered seen asked now base = b
finish_scheduled (some probe) b fp answered seen asked now base =
    let verdict = if answered then succeeded seen asked else failed seen asked in
    let b' = set_peer_health b fp verdict in
    record b' { probes = put fp (schedule_probe_next probe answered now base) b.probes }

unfoldable pub finish_probe : Beat → Text → Bool → PeerHealth → ℕ → ℕ → ℕ → Beat
unfolding finish_scheduled
finish_probe b fp answered seen asked now base =
    finish_scheduled (lookup fp b.probes) b fp answered seen asked now base
