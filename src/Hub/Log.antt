-- ===== src/Hub/Log.antt =====
-- internal/hub/logger.go: the ring of the last events, their ids, and the subscribers. What an event
-- says, behind its id, is any type; the text that is cleaned for it is left out.
pub mod Slices
pub mod Ring
pub mod Replay
pub mod Tests
use tantu.Prelude.{
  ℕ, zero, suc, ◌+◌, ◌-◌, ◌%◌, ◌^◌, Bool, true, false, not, ◌&&◌, Option, none, some, List, [], ◌∷◌,
  ◌++◌, ltb, leb, ◌==◌, if◌then◌else◌, length, take, drop, set, ℤ, pos, pos_part, is_positive,
}

abbrev pub default_ring_buffer_size : ℕ
default_ring_buffer_size = 200

abbrev pub max_sse_clients : ℕ
max_sse_clients = 32

-- The buffer of a subscriber's channel
abbrev pub client_buffer : ℕ
client_buffer = 64

pub record RingBuffer (A : Type 0) : Type 0 where
  pub capacity : ℕ
  pub events : List A
  pub start : ℕ
  pub count : ℕ

-- The events that a ring of the asked capacity keeps
abbrev pub ring_size : ℤ → ℕ
ring_size capacity = if is_positive capacity then pos_part capacity else default_ring_buffer_size

module _ {A : Type 0} where
  abbrev pub copies : ℕ → A → List A
  copies zero a = []
  copies (suc n) a = a ∷ copies n a

  -- NewRingBuffer. `blank` is the zero value of an event.
  unfoldable pub new_ring_buffer : A → ℤ → RingBuffer A
  new_ring_buffer blank capacity =
      let n = ring_size capacity in
      record { capacity = n; events = copies n blank; start = 0; count = 0 }

  unfoldable pub append : RingBuffer A → A → RingBuffer A
  append rb e =
      if ltb rb.count rb.capacity
      then record rb { events = set rb.events rb.count e; count = rb.count + 1 }
      else record rb { events = set rb.events rb.start e; start = (rb.start + 1) % rb.capacity }

  unfoldable pub get_recent : RingBuffer A → List A
  get_recent rb =
      if ltb rb.count rb.capacity
      then take rb.count rb.events
      else drop rb.start rb.events ++ take rb.start rb.events

  unfoldable pub clear_ring : RingBuffer A → RingBuffer A
  clear_ring rb = record rb { start = 0; count = 0 }

-- A subscriber: its channel, and what waits in it.
pub record Client (A : Type 0) : Type 0 where
  pub channel : ℕ
  pub queue : List A

module _ {A : Type 0} where
  unfoldable pub try_subscribe : ℕ → List (Client A) → Option (List (Client A))
  try_subscribe channel clients =
      if leb max_sse_clients (length clients)
      then none
      else some (record { channel = channel; queue = [] } ∷ clients)

  unfoldable pub unsubscribe : ℕ → List (Client A) → List (Client A)
  unsubscribe channel [] = []
  unsubscribe channel (c ∷ cs) =
      let rest = unsubscribe channel cs in if c.channel == channel then rest else c ∷ rest

  -- A send that would block is dropped.
  abbrev offered : A → Client A → Client A
  offered e c =
      if ltb (length c.queue) client_buffer then record c { queue = c.queue ++ (e ∷ []) } else c

  unfoldable pub broadcast : A → List (Client A) → List (Client A)
  broadcast e [] = []
  broadcast e (c ∷ cs) = offered e c ∷ broadcast e cs

pub record LogEvent (A : Type 0) : Type 0 where
  pub id : ℕ
  pub says : A

pub record EventLogger (A : Type 0) : Type 0 where
  pub ring : RingBuffer (LogEvent A)
  pub clients : List (Client (LogEvent A))
  pub next_id : ℕ

module _ {A : Type 0} where
  -- NewEventLogger
  unfoldable pub new_event_logger : LogEvent A → ℤ → EventLogger A
  unfolding new_ring_buffer
  new_event_logger blank capacity = record {
    ring = new_ring_buffer blank capacity;
    clients = [];
    next_id = 0;
  }

  -- Log, whose id is a uint64.
  unfoldable pub log : EventLogger A → A → EventLogger A
  unfolding append broadcast
  log l says =
      let id = (l.next_id + 1) % 2 ^ 64 in
      let e : LogEvent A = record { id = id; says = says } in
      record { ring = append l.ring e; clients = broadcast e l.clients; next_id = id }

  -- What HandleEvents writes of `events` to a client that has seen the ids up to `last`, and the last
  -- id it has then seen.
  unfoldable pub write_events : ℕ → List (LogEvent A) → List (LogEvent A) × ℕ
  write_events last [] = ([], last)
  write_events last (e ∷ es) =
      let (sent, seen) = write_events (if leb e.id last then last else e.id) es in
      (if leb e.id last then sent else e ∷ sent, seen)

  -- The replay of a client that gives a `Last-Event-ID`
  unfoldable pub replay : EventLogger A → ℕ → List (LogEvent A) × ℕ
  unfolding write_events get_recent
  replay l last = if ltb 0 last then write_events last (get_recent l.ring) else ([], last)
