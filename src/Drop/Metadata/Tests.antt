-- ===== src/Drop/Metadata/Tests.antt =====
-- internal/drop/receiver.go and resume.go: the theorems at a concrete photo, and a refused name.
use tantu.Prelude.{◌≡◌, refl, none, some, [], pos}
use tantu.Text.{
  Text, codes, ◌=t◌, is_id_byte, is_control, trim_space, split, replace_byte, before, to_upper,
  has_prefix,
}
use tantu.Hub.RelPath.{member, has_drive}
use tantu.Drop.Types.{DropSend, file}
use tantu.Drop.Sender.{chunk_size_of}
use tantu.Drop.Receiver.{is_sha256_hex}
use tantu.Drop.Metadata.{
  validate_drop_metadata, drop_id_refusal, fields_refusal, rel_path_refusal, valid_tombstone_key,
  supported_kind, has_control, outside, segments_bad, reserved_device, resume_prefix,
}
use tantu.Drop.Metadata.Safe.{IsAcceptable, validate_drop_metadata-IsAcceptable}
use tantu.Drop.Metadata.Resume.{IsResumable, resume_prefix-IsResumable}

abbrev pub photo : DropSend
photo = record {
  drop_id = codes "d-1.part";
  kind = file;
  name = codes "trip.jpg";
  size = pos 10;
  mime_type = codes "image/jpeg";
  chunk_size = pos 4;
  head_hash = codes "0123456789abcdef0123456789abcdef0123456789abcdef0123456789abcdef";
  idempotency_key = codes "k_1";
  rel_path = codes "2024/trip.jpg";
  attempt_id = [];
}

photo_valid : validate_drop_metadata photo ≡ none
unfolding validate_drop_metadata drop_id_refusal fields_refusal rel_path_refusal valid_tombstone_key
    supported_kind has_control outside segments_bad ◌=t◌ is_id_byte is_control trim_space split
    replace_byte before to_upper has_prefix member has_drive is_sha256_hex
photo_valid = refl

validate_drop_metadata-IsAcceptable_example : IsAcceptable photo
validate_drop_metadata-IsAcceptable_example = validate_drop_metadata-IsAcceptable photo photo_valid

device : drop_id_refusal (codes "nul.txt") ≡ some reserved_device
unfolding drop_id_refusal ◌=t◌ is_id_byte trim_space before to_upper member
device = refl

abbrev payload : Text
payload = codes "0123456789"

abbrev no_digest : Text → Text
no_digest t = t

-- Of nine bytes that are there, two chunks of four are resumed.
two_chunks : resume_prefix no_digest none 9 photo ≡ 8
unfolding resume_prefix chunk_size_of
two_chunks = refl

resume_prefix-IsResumable_example :
    IsResumable no_digest none 9 photo (resume_prefix no_digest none 9 photo)
resume_prefix-IsResumable_example = resume_prefix-IsResumable no_digest none 9 photo
