-- ===== src/Protocol/Codec.antt =====
-- internal/protocol/codec.go: length-prefixed frames. The JSON form of an envelope is a parameter.
pub mod Sync
pub mod Wire
pub mod Tests
use tantu.Prelude.{
  ℕ, zero, suc, ◌+◌, ◌-◌, ◌*◌, ◌/◌, ◌%◌, ◌^◌, ◌≤◌, ◌≡◌, ℤ, pos, negsuc, is_positive, Bool, true,
  false, not, ◌&&◌, ◌||◌, Option, none, some, List, [], ◌∷◌, ◌++◌, ltb, leb, ◌==◌, if◌then◌else◌,
  length, take, drop,
}
use tantu.Text.{Text, codes, is_empty, ◌=t◌}

abbrev pub default_max_message_size : ℕ
default_max_message_size = 4 * 1024 * 1024

abbrev pub max_control_message_size : ℕ
max_control_message_size = 64 * 1024

abbrev pub protocol_version : ℕ
protocol_version = 1

pub record Envelope : Type 0 where
  pub v : ℤ
  pub kind : Text
  pub payload : Text

pub data CodecError : Type 0 where
  missing_type missing_payload marshal_failed too_large short_write write_failed : CodecError
  read_failed unmarshal_failed unsupported_version : CodecError

-- IsControlMessageType
unfoldable pub is_control_message_type : Text → Bool
is_control_message_type kind =
    not (kind =t codes "drop_data") && not (kind =t codes "callback_relay")

-- `len(payload) == 0 || string(payload) == "null"`
abbrev pub no_payload : Text → Bool
no_payload payload = is_empty payload || (payload =t codes "null")

-- `if env.V <= 0 { env.V = ProtocolVersion }`
unfoldable pub stamped : Envelope → Envelope
stamped env = if is_positive env.v then env else record env { v = pos protocol_version }

-- binary.BigEndian.PutUint32 and Uint32
unfoldable pub put_uint32 : ℕ → Text
put_uint32 n = n / 2 ^ 24 % 256 ∷ n / 2 ^ 16 % 256 ∷ n / 2 ^ 8 % 256 ∷ n % 256 ∷ []

abbrev digit_sum : ℕ → Text → ℕ
digit_sum acc [] = acc
digit_sum acc (b ∷ bs) = digit_sum (acc * 256 + b) bs

unfoldable pub uint32 : Text → ℕ
uint32 bytes = digit_sum 0 bytes

pub data Framed : Type 0 where
  framed : Text → Framed
  unframed : CodecError → Framed

framed_bytes : Envelope → Option Text → Framed
unfolding put_uint32
framed_bytes env none = unframed marshal_failed
framed_bytes env (some bytes) =
    if ltb default_max_message_size (length bytes)
    then unframed too_large
    else if is_control_message_type env.kind && ltb max_control_message_size (length bytes)
    then unframed too_large
    else framed (put_uint32 (length bytes) ++ bytes)

-- The loop over a writer that may take less than it is given: `io k m` is the answer to its call k
-- with m bytes, the number of bytes that it took and whether it failed. The result is what was written and the error.
unfoldable pub write_frame : (ℕ → ℕ → ℕ × Bool) → ℕ → ℕ → Text → Text × Option CodecError
write_frame io k fuel [] = ([], none)
write_frame io k zero (b ∷ bs) = ([], some short_write)
write_frame io k (suc fuel) (b ∷ bs) =
    let n = (io k (length (b ∷ bs))).0 in
    let rest = write_frame io (k + 1) fuel (drop n (b ∷ bs)) in
    if ltb (length (b ∷ bs)) n
    then ([], some short_write)
    else if (io k (length (b ∷ bs))).1
    then (take n (b ∷ bs), some write_failed)
    else if n == 0
    then ([], some short_write)
    else (take n (b ∷ bs) ++ rest.0, rest.1)

-- A reader as what it gives between two errors, such as an expired deadline: io.ReadFull takes its
-- bytes from the first stretch, and where they are too few, it uses the stretch up and fails.
abbrev pub Reader : Type 0
Reader = List Text

pub data Got : Type 0 where
  all_of : Text → Got
  only : ℕ → Got

unfoldable pub read_full : ℕ → Reader → Reader × Got
read_full n [] = ([], only 0)
read_full n (s ∷ ss) =
    if leb n (length s) then (drop n s ∷ ss, all_of (take n s)) else (ss, only (length s))

pub record Decoder : Type 0 where
  pub max_message_size : ℕ
  pub terminal_err : Option CodecError

abbrev pub new_decoder : Decoder
new_decoder = record { max_message_size = default_max_message_size; terminal_err = none }

-- SetMaxMessageSize
unfoldable pub set_max_message_size : Decoder → ℕ → Decoder
set_max_message_size d size = record d {
  max_message_size = if size == 0 then default_max_message_size else size;
}

pub data Decoded : Type 0 where
  decoded : Envelope → Decoded
  undecoded : CodecError → Decoded

pub record Turn : Type 0 where
  pub decoder : Decoder
  pub reader : Reader
  pub result : Decoded

abbrev failed_with : Option CodecError → CodecError → CodecError
failed_with none e = e
failed_with (some t) e = t

-- `return nil, d.fail(err)`
unfoldable pub fail : Decoder → Reader → CodecError → Turn
fail d r e = record {
  decoder = record d { terminal_err = some (failed_with d.terminal_err e) };
  reader = r;
  result = undecoded (failed_with d.terminal_err e);
}

-- validateEnvelopeVersion
unfoldable pub validate_envelope_version : ℤ → Bool
validate_envelope_version (pos n) = leb n protocol_version
validate_envelope_version (negsuc n) = false

-- The checks of an envelope that was parsed from so many bytes.
on_envelope : Decoder → Reader → ℕ → Option Envelope → Turn
unfolding fail
on_envelope d r n none = fail d r unmarshal_failed
on_envelope d r n (some env) =
    if is_empty env.kind
    then fail d r missing_type
    else if no_payload env.payload
    then fail d r missing_payload
    else if not (validate_envelope_version env.v)
    then fail d r unsupported_version
    else if is_control_message_type env.kind && ltb max_control_message_size n
    then fail d r too_large
    else record { decoder = d; reader = r; result = decoded env }

module _ (marshal : Envelope → Option Text) where
  -- EncodeEnvelope up to the write
  unfoldable pub encode_envelope : Envelope → Framed
  unfolding framed_bytes
  encode_envelope env =
      if is_empty env.kind
      then unframed missing_type
      else if no_payload env.payload
      then unframed missing_payload
      else framed_bytes (stamped env) (marshal (stamped env))

module _ (unmarshal : Text → Option Envelope) where
  on_body : Decoder → Reader × Got → Turn
  unfolding on_envelope
  on_body d (r, only n) = fail d r read_failed
  on_body d (r, all_of bytes) = on_envelope d r (length bytes) (unmarshal bytes)

  on_header : Decoder → Reader × Got → Turn
  unfolding on_body
  on_header d (r, only zero) = record { decoder = d; reader = r; result = undecoded read_failed }
  on_header d (r, only (suc n)) = fail d r read_failed
  on_header d (r, all_of header) =
      let size = uint32 header in
      if ltb d.max_message_size size
      then fail d r too_large
      else if size == 0
      then fail d r missing_payload
      else on_body d (read_full size r)

  unless_terminal : Option CodecError → Decoder → Reader → Turn
  unfolding on_header
  unless_terminal (some e) d r = record { decoder = d; reader = r; result = undecoded e }
  unless_terminal none d r = on_header d (read_full 4 r)

  -- Decode
  unfoldable pub decode : Decoder → Reader → Turn
  unfolding unless_terminal
  decode d r = unless_terminal d.terminal_err d r
