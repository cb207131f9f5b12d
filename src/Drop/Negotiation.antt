-- ===== src/Drop/Negotiation.antt =====
-- Steps 1 to 3 of ReceiveDrop in internal/drop/receiver.go: what is refused before a byte is read, and
-- from where a transfer goes on. The words of a refusal are left out: the error stands for them. The
-- destination that the writer or OnMeta gave is an input.
use tantu.Prelude.{
  ℕ, zero, suc, ◌&&◌, Bool, false, not, Option, none, some, List, [], ltb, if◌then◌else◌, length, ℤ,
  pos, negsuc, pos_part, is_positive, is_negative,
}
use tantu.Text.{Text, is_empty}
use tantu.Drop.Types.{DropSend, text, kind_eq}
use tantu.Drop.Quota.{
  TransferQuota, TransferLease, QuotaError, Acquired, granted, refused, acquire, release,
}
use tantu.Drop.Sender.{beyond}
use tantu.Drop.Receiver.{limit_of, over, default_max_drop_size, default_max_text_size}
use tantu.Drop.Metadata.{MetadataError, validate_drop_metadata, normalized}
use tantu.Drop.Tombstones.{TombstoneEntry, Tombstones, lookup_entry, matches}

pub data Refusal : Type 0 where
  invalid_metadata : MetadataError → Refusal
  too_large text_too_large negative_received received_exceeds key_reuse : Refusal
  quota_refused : QuotaError → Refusal
  refused_by_owner no_destination position_lost longer_destination invalid_offset : Refusal

pub record Config : Type 0 where
  pub max_size : ℤ
  pub max_text_size : ℤ
  pub received_bytes : ℤ
  pub attempt_id : Text
  pub peer_key : Text

-- How a destination answers the seeks to its end and back.
pub data Seeks : Type 0 where
  restores sticks refuses : Seeks

-- A destination: its bytes, its position, what its ReceivedBytes says if it has one, whether it is an
-- io.Seeker that tells its position, and whether it is an io.ReadSeeker. Its bytes begin where the first
-- byte of a transfer from the start is written.
pub record Sink : Type 0 where
  pub file : Text
  pub position : ℕ
  pub reported : Option ℤ
  pub seekable : Bool
  pub rewindable : Bool
  pub seeks : Seeks

pub data Destination : Type 0 where
  absent refusing : Destination
  sink : Sink → Destination

pub record World : Type 0 where
  pub quota : Option TransferQuota
  pub tombstones : Option Tombstones
  pub published : List (DropSend × Text)

-- `io.Discard`
abbrev pub discard : Sink
discard = record {
  file = [];
  position = 0;
  reported = none;
  seekable = false;
  rewindable = false;
  seeks = restores;
}

-- The chunk size and the attempt, as they are settled before anything else.
unfoldable pub settled : Config → DropSend → DropSend
unfolding normalized
settled cfg meta =
    let m = normalized meta in
    if is_empty cfg.attempt_id then m else record m { attempt_id = cfg.attempt_id }

abbrev pub first_refusal : Option MetadataError → Option Refusal → Option Refusal
first_refusal none o = o
first_refusal (some e) o = some (invalid_metadata e)

-- Steps 1 and 2: the metadata, its size, and the bytes that the caller says are there.
unfoldable pub declared_refusal : Config → DropSend → Option Refusal
unfolding kind_eq limit_of
declared_refusal cfg meta = first_refusal (validate_drop_metadata meta) (
    if over (limit_of cfg.max_size default_max_drop_size) (pos_part meta.size)
    then some too_large
    else if kind_eq meta.kind text
        && over (limit_of cfg.max_text_size default_max_text_size) (pos_part meta.size)
    then some text_too_large
    else if is_negative cfg.received_bytes
    then some negative_received
    else if is_positive meta.size && ltb (pos_part meta.size) (pos_part cfg.received_bytes)
    then some received_exceeds
    else none)

-- Step 2b.
pub data Known : Type 0 where
  new reused : Known
  completed : TombstoneEntry → Known

unfoldable pub judge : Option TombstoneEntry → DropSend → Known
judge none meta = new
judge (some e) meta = if not (matches e meta) then reused else completed e

unfoldable pub known : Option Tombstones → DropSend → Known
unfolding judge
known none meta = new
known (some s) meta =
    if is_empty meta.idempotency_key then new else judge (lookup_entry s meta.idempotency_key) meta

pub data Leased : Type 0 where
  leased : Option (TransferQuota × TransferLease) → Leased
  denied : TransferQuota → QuotaError → Leased

unfoldable pub granted_or : Acquired → Leased
granted_or (granted q l) = leased (some (q, l))
granted_or (refused q e) = denied q e

unfoldable pub take_lease : Option TransferQuota → Text → ℤ → Leased
unfolding granted_or
take_lease none peer size = leased none
take_lease (some q) peer size = granted_or (acquire q peer size)

-- The deferred release, at every return.
unfoldable pub give_back : Option (TransferQuota × TransferLease) → Option TransferQuota
give_back none = none
give_back (some (q, l)) = some (release q l).0

-- Step 3: the bytes of a destination that says so or whose position is behind its start.
unfoldable pub offset_of : ℤ → Sink → ℤ
offset_of (pos zero) s = elim s.reported [
  | some n ↦ n
  | none ↦ if s.seekable then pos s.position else pos 0
]
offset_of (pos (suc n)) s = pos (suc n)
offset_of (negsuc n) s = negsuc n

unfoldable pub is_longer : ℤ → Sink → Seeks → Option Refusal
is_longer size s restores =
    if ltb (pos_part size) (length s.file) then some longer_destination else none
is_longer size s sticks = some position_lost
is_longer size s refuses = none

unfoldable pub sink_refusal : ℤ → ℤ → Sink → Option Refusal
unfolding is_longer
sink_refusal size offset s =
    elim (if is_positive size && s.rewindable then is_longer size s s.seeks else none) [
      | some e ↦ some e
      | none ↦ if beyond size offset then some invalid_offset else none
    ]
