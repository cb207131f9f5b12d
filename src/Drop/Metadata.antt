-- ===== src/Drop/Metadata.antt =====
-- validateDropMetadata of internal/drop/receiver.go, ValidTombstoneKey of internal/drop/tombstone.go,
-- and ResumePrefix of internal/drop/resume.go: what a receiver accepts to begin with, and where it
-- goes on. A test on runes below 0x80 is the same test on bytes; a byte of any other rune is no
-- identifier character.
pub mod Safe
pub mod Resume
pub mod Tests
use tantu.Prelude.{
  ℕ, zero, suc, ◌*◌, ◌^◌, ◌/◌, Bool, true, false, not, ◌&&◌, ◌||◌, Option, none, some, List, [],
  ◌∷◌, ltb, leb, ◌==◌, if◌then◌else◌, length, take, all, ℤ, pos, negsuc, pos_part, is_positive,
  is_negative,
}
use tantu.Text.{
  Text, codes, is_empty, ◌=t◌, has_prefix, trim_space, replace_byte, split, before, to_upper,
  is_id_byte, is_control, equal_fold,
}
use tantu.Drop.Types.{
  DropSend, DropKind, text, file, other, max_chunk_size, max_drop_id_length, max_drop_name_length,
  max_mime_type_length, max_rel_path_length, max_rel_path_depth,
}
use tantu.Drop.Receiver.{is_sha256_hex}
use tantu.Hub.RelPath.{member, has_drive}
use tantu.Drop.Sender.{chunk_size_of}

pub data MetadataError : Type 0 where
  no_drop_id long_drop_id invalid_drop_id path_segment reserved_device invalid_key : MetadataError
  unsupported_kind negative_size invalid_chunk_size : MetadataError
  long_name control_in_name long_mime_type control_in_mime_type invalid_head_hash : MetadataError
  long_rel_path absolute_rel_path drive_rel_path control_in_rel_path deep_rel_path bad_segment :
      MetadataError

unfoldable pub valid_tombstone_key : Text → Bool
valid_tombstone_key s = not (is_empty s) && leb (length s) max_drop_id_length && all is_id_byte s

-- The `case` of the switch on `strings.ToUpper(baseID)`
abbrev pub device_names : List Text
device_names =
    codes "CON"
    ∷ codes "PRN"
    ∷ codes "AUX"
    ∷ codes "NUL"
    ∷ codes "COM1"
    ∷ codes "COM2"
    ∷ codes "COM3"
    ∷ codes "COM4"
    ∷ codes "COM5"
    ∷ codes "COM6"
    ∷ codes "COM7"
    ∷ codes "COM8"
    ∷ codes "COM9"
    ∷ codes "LPT1"
    ∷ codes "LPT2"
    ∷ codes "LPT3"
    ∷ codes "LPT4"
    ∷ codes "LPT5"
    ∷ codes "LPT6"
    ∷ codes "LPT7"
    ∷ codes "LPT8"
    ∷ codes "LPT9"
    ∷ []

infixr 4 ◌orelse◌
abbrev pub ◌orelse◌ : Option MetadataError → Option MetadataError → Option MetadataError
none orelse b = b
(some e) orelse b = some e

-- The checks on the name of the staging file.
unfoldable pub drop_id_refusal : Text → Option MetadataError
unfolding member
drop_id_refusal id =
    if is_empty (trim_space id)
    then some no_drop_id
    else if ltb max_drop_id_length (length id)
    then some long_drop_id
    else if not (all is_id_byte id)
    then some invalid_drop_id
    else if (id =t codes ".") || (id =t codes "..")
    then some path_segment
    else if member (to_upper (before id b'.')) device_names
    then some reserved_device
    else none

unfoldable pub supported_kind : DropKind → Bool
supported_kind text = true
supported_kind file = true
supported_kind (other k) = false

-- `for _, r := range s { if r < 0x20 || r == 0x7f {...} }`
unfoldable pub has_control : Text → Bool
has_control [] = false
has_control (c ∷ s) = is_control c || has_control s

-- `size < 0 || size > max`
unfoldable pub outside : ℕ → ℤ → Bool
outside max a = is_negative a || ltb max (pos_part a)

unfoldable pub segments_bad : List Text → Bool
segments_bad [] = false
segments_bad (segment ∷ segments) =
    is_empty segment || (segment =t codes ".") || (segment =t codes "..") || segments_bad segments

-- The checks on a relative path that is given.
unfoldable pub rel_path_refusal : Text → Option MetadataError
unfolding segments_bad has_control has_drive
rel_path_refusal p =
    let segments = split (replace_byte p 92 b'/') b'/' in
    if is_empty p
    then none
    else if ltb max_rel_path_length (length p)
    then some long_rel_path
    else if has_prefix p (codes "/") || has_prefix p (92 ∷ [])
    then some absolute_rel_path
    else if has_drive p
    then some drive_rel_path
    else if has_control p
    then some control_in_rel_path
    else if ltb max_rel_path_depth (length segments)
    then some deep_rel_path
    else if segments_bad segments
    then some bad_segment
    else none

-- The checks between those two.
unfoldable pub fields_refusal : DropSend → Option MetadataError
unfolding valid_tombstone_key supported_kind has_control outside is_sha256_hex
fields_refusal meta =
    if not (is_empty meta.idempotency_key) && not (valid_tombstone_key meta.idempotency_key)
    then some invalid_key
    else if not (supported_kind meta.kind)
    then some unsupported_kind
    else if is_negative meta.size
    then some negative_size
    else if outside max_chunk_size meta.chunk_size
    then some invalid_chunk_size
    else if ltb max_drop_name_length (length meta.name)
    then some long_name
    else if has_control meta.name
    then some control_in_name
    else if ltb max_mime_type_length (length meta.mime_type)
    then some long_mime_type
    else if has_control meta.mime_type
    then some control_in_mime_type
    else if not (is_empty meta.head_hash) && not (is_sha256_hex meta.head_hash)
    then some invalid_head_hash
    else none

unfoldable pub validate_drop_metadata : DropSend → Option MetadataError
unfolding drop_id_refusal fields_refusal rel_path_refusal
validate_drop_metadata meta =
    drop_id_refusal meta.drop_id orelse (fields_refusal meta orelse rel_path_refusal meta.rel_path)

-- normalizedManifestMetadata, and the same step of ReceiveDrop.
unfoldable pub normalized : DropSend → DropSend
unfolding chunk_size_of
normalized meta = record meta { chunk_size = pos (chunk_size_of meta) }

abbrev pub head_hash_size : ℕ
head_hash_size = 64 * 2 ^ 10

-- ResumePrefix. `head` is what the partial begins with, or none where it cannot be read.
module _ (digest : Text → Text) where
  unfoldable pub resume_verified : Text → Option Text → ℕ → ℕ
  resume_verified head_hash none valid = 0
  resume_verified head_hash (some head) valid =
      if not (equal_fold (digest head) head_hash) then 0 else valid

  unfoldable pub resume_prefix : Option Text → ℕ → DropSend → ℕ
  unfolding resume_verified chunk_size_of
  resume_prefix head part_size meta =
      let size = chunk_size_of meta in
      let valid = part_size / size * size in
      if not (is_positive meta.size)
        || (valid == 0)
        || leb (pos_part meta.size) valid
        || is_empty meta.head_hash
      then 0
      else if ltb valid head_hash_size
      then valid
      else resume_verified meta.head_hash head valid
