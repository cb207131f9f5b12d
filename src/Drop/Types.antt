-- ===== src/Drop/Types.antt =====
-- internal/drop/types.go: the messages of a transfer. Go strings and byte slices are `Text`, int64 and
-- int are ℤ where a peer supplies them.
use tantu.Prelude.{ℕ, ◌*◌, ◌^◌, Bool, true, false, ℤ}
use tantu.Text.{Text, ◌=t◌}

-- A kind of any other spelling is what the wire may carry and validation refuses.
pub data DropKind : Type 0 where
  text file : DropKind
  other : Text → DropKind

unfoldable pub kind_eq : DropKind → DropKind → Bool
kind_eq text text = true
kind_eq file file = true
kind_eq (other a) (other b) = a =t b
kind_eq _ _ = false

abbrev pub max_chunk_size : ℕ
max_chunk_size = 2 * 2 ^ 20

abbrev pub max_drop_id_length : ℕ
max_drop_id_length = 128

abbrev pub max_drop_name_length : ℕ
max_drop_name_length = 4096

abbrev pub max_mime_type_length : ℕ
max_mime_type_length = 255

abbrev pub max_rel_path_length : ℕ
max_rel_path_length = 1024

abbrev pub max_rel_path_depth : ℕ
max_rel_path_depth = 24

pub record DropSend : Type 0 where
  pub drop_id : Text
  pub kind : DropKind
  pub name : Text
  pub size : ℤ
  pub mime_type : Text
  pub chunk_size : ℤ
  pub head_hash : Text
  pub idempotency_key : Text
  pub rel_path : Text
  pub attempt_id : Text

pub record DropAck : Type 0 where
  pub drop_id : Text
  pub accepted : Bool
  pub received_bytes : ℤ
  pub error : Text

pub record DropData : Type 0 where
  pub drop_id : Text
  pub chunk_index : ℕ
  pub bytes : Text
  pub final : Bool
  pub sha256 : Text

pub record DropComplete : Type 0 where
  pub drop_id : Text
  pub success : Bool
  pub bytes_recv : ℤ
  pub sha256 : Text
  pub error : Text
  pub duplicate : Bool
