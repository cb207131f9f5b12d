-- ===== src/Discovery/Health.antt =====
-- internal/discovery/health.go: the state that the discovery engine reports, and the sentence for it.
-- The counters and flags are inputs, as they stand when each is read. A sentence is named for what it
-- says.
pub mod Bounded
use tantu.Prelude.{
  ℕ, zero, suc, ◌+◌, ◌-◌, ◌/◌, Bool, true, false, not, ◌&&◌, ◌||◌, Option, none, some, List, [],
  ◌∷◌, ◌++◌, ltb, leb, ◌==◌, if◌then◌else◌, length, take, get_elem?,
}
use tantu.Text.{Text, codes, is_empty}

pub record Health : Type 0 where
  pub running : Bool
  pub broadcast : Bool
  pub multicast : Bool
  pub usable : Bool
  pub degraded : Bool
  pub nodes : ℕ
  pub beacons_sent : ℕ
  pub beacons_received : ℕ
  pub send_errors : ℕ
  pub last_error : Text
  pub broadcast_bind_error : Text
  pub multicast_bind_error : Text

-- The engine at one moment
pub record Engine : Type 0 where
  pub started : Bool
  pub broadcast_bound : Bool
  pub multicast_bound : Bool
  pub sent : ℕ
  pub received : ℕ
  pub failures : ℕ
  pub nodes_known : ℕ
  pub last_noted : Text
  pub broadcast_failure : Text
  pub multicast_failure : Text

-- The reasons why a listener is absent, one or both
unfoldable pub bind_reasons : Text → Text → Text
bind_reasons [] m = m
bind_reasons (c ∷ b) [] = c ∷ b
bind_reasons (c ∷ b) (d ∷ m) = (c ∷ b) ++ (codes "; " ++ (d ∷ m))

abbrev or_noted : Text → Text → Text
or_noted [] last_noted = last_noted
or_noted (c ∷ s) last_noted = c ∷ s

-- Health. `started` is read first, under the lock, the rest behind it: `at_start` and `later` are the
-- engine at these two moments.
unfoldable pub health : Engine → Engine → Health
unfolding bind_reasons
health at_start later =
    let running = at_start.started in
    let usable = running && (later.broadcast_bound || later.multicast_bound) in
    record {
      running = running;
      broadcast = later.broadcast_bound;
      multicast = later.multicast_bound;
      usable = usable;
      degraded = running && not usable;
      nodes = later.nodes_known;
      beacons_sent = later.sent;
      beacons_received = later.received;
      send_errors = later.failures;
      last_error =
          or_noted (bind_reasons later.broadcast_failure later.multicast_failure) later.last_noted;
      broadcast_bind_error = later.broadcast_failure;
      multicast_bind_error = later.multicast_failure;
    }

-- `utf8.RuneStart`: no continuation byte
abbrev pub is_rune_start : ℕ → Bool
is_rune_start b = not (b / 64 == 2)

abbrev pub starts_at : Text → ℕ → Bool
starts_at msg i = elim (get_elem? msg i) [ none ↦ true | some b ↦ is_rune_start b ]

-- The cut moves back to the start of a character.
unfoldable pub cut_back : Text → ℕ → ℕ
cut_back msg zero = 0
cut_back msg (suc i) = let back = cut_back msg i in if starts_at msg (suc i) then suc i else back

abbrev pub max_error : ℕ
max_error = 200

-- U+2026 in UTF-8
abbrev pub ellipsis : Text
ellipsis = 0xe2 ∷ 0x80 ∷ 0xa6 ∷ []

unfoldable pub truncate_error : Text → Text
unfolding cut_back
truncate_error msg =
    if leb (length msg) max_error
    then msg
    else take (cut_back msg (max_error - length ellipsis)) msg ++ ellipsis

pub data Transport : Type 0 where
  both broadcast_only multicast_only : Transport

pub data Sentence : Type 0 where
  not_running cannot_find cannot_announce sockets_stopped only_multicast_works : Sentence
  only_broadcast_works : Sentence
  heard_but_gone nobody_yet in_reach : Transport → Sentence

abbrev around : Transport → Health → Sentence
around t h =
    if not (h.nodes == 0)
    then in_reach t
    else if ltb 0 h.beacons_received
    then heard_but_gone t
    else nobody_yet t

unfoldable pub describe_health : Health → Bool → Bool → Sentence
describe_health h broadcast_stopped multicast_stopped =
    if not h.running
    then not_running
    else if not (h.broadcast || h.multicast)
    then cannot_find
    else if (h.beacons_sent == 0) && ltb 0 h.send_errors
    then cannot_announce
    else if broadcast_stopped && multicast_stopped
    then sockets_stopped
    else if broadcast_stopped
    then only_multicast_works
    else if multicast_stopped
    then only_broadcast_works
    else around
        (if h.broadcast && h.multicast
          then both
          else if h.broadcast
          then broadcast_only
          else multicast_only)
        h
