-- ===== src/Drop/Receiver.antt =====
-- The data phase of ReceiveDrop in internal/drop/receiver.go: the chunk loop behind the accepted
-- acknowledgement, up to the receipt. What the peer sends is a list, and its end is a connection that
-- broke. SHA-256 in hex is the parameter `digest`; `io i` is what the staging file answers to the
-- chunk of index i.
pub mod Filed
pub mod Safety
use tantu.Prelude.{
  ℕ, zero, suc, ◌+◌, ◌*◌, ◌^◌, ◌/◌, ◌%◌, Bool, true, false, not, ◌&&◌, ◌||◌, Option, none, some,
  List, [], ◌∷◌, ◌++◌, ltb, leb, ◌==◌, if◌then◌else◌, length, take, drop, all, ℤ, pos, negsuc,
  pos_part, is_positive, is_negative,
}
use tantu.Text.{Text, is_empty, ◌=t◌, equal_fold}
use tantu.Drop.Quota.{TransferQuota, TransferLease, add_bytes, grown, denied, QuotaError, Grown}
use tantu.Drop.Types.{DropSend, DropData, DropComplete, DropKind, text, kind_eq, max_chunk_size}
use tantu.Drop.Sender.{chunk_size_of}

abbrev pub default_max_drop_size : ℕ
default_max_drop_size = 5 * 2 ^ 30

abbrev pub default_max_text_size : ℕ
default_max_text_size = 10 * 2 ^ 20

-- 0 selects the default and a negative value no limit, which is 0 from there on.
unfoldable pub limit_of : ℤ → ℕ → ℕ
limit_of (pos zero) default = default
limit_of (pos (suc n)) default = suc n
limit_of (negsuc n) default = 0

pub data ReceiveError : Type 0 where
  lost unexpected_message undecodable cancelled : ReceiveError
  invalid_chunk_size not_aligned not_rewindable short_partial : ReceiveError
  id_mismatch oversized_chunk short_chunk exceeds_declared out_of_order : ReceiveError
  exceeds_max exceeds_max_text : ReceiveError
  touch_failed write_failed sync_failed : ReceiveError
  over_quota : QuotaError → ReceiveError
  size_mismatch invalid_digest digest_mismatch tombstone_mismatch : ReceiveError

pub data FromSender : Type 0 where
  heartbeat garbled context_done : FromSender
  chunk : DropData → FromSender
  other : Text → FromSender

-- What the activity marker, the write and the sync of a chunk answer; a short write leaves some bytes.
pub data IoAnswer : Type 0 where
  written touch_error sync_error : IoAnswer
  short_write : ℕ → IoAnswer

-- What the negotiation settled: a limit of 0 is none.
pub record Session : Type 0 where
  pub meta : DropSend
  pub max_size : ℕ
  pub max_text_size : ℕ
  pub duplicate : Bool
  pub tombstone_sha : Text

-- `file` is the destination, written at the position `total`.
pub record Receiving : Type 0 where
  pub expected_index : ℕ
  pub total : ℕ
  pub hashed : Text
  pub file : Text
  pub lease : Option (TransferQuota × TransferLease)

pub data Outcome : Type 0 where
  finished : Receiving → Outcome
  failed : ReceiveError → Receiving → Outcome

pub data Step : Type 0 where
  continues : Receiving → Step
  ends : Receiving → Step
  stops : ReceiveError → Receiving → Step

is_hex_digit : ℕ → Bool
is_hex_digit c = leb b'0' c && leb c b'9' || leb b'a' c && leb c b'f' || leb b'A' c && leb c b'F'

-- `hex.DecodeString` succeeds with 32 bytes.
unfoldable pub is_sha256_hex : Text → Bool
unfolding is_hex_digit
is_sha256_hex s = (length s == 64) && all is_hex_digit s

-- A write at a position of a file.
unfoldable pub write_at : Text → ℕ → Text → Text
write_at file at bytes = take at file ++ (bytes ++ drop (at + length bytes) file)

-- `limit > 0 && n > limit`
abbrev pub over : ℕ → ℕ → Bool
over limit n = ltb 0 limit && ltb limit n

-- The checks of a chunk before anything is written, in their order.
unfoldable pub refusal_of : Session → Receiving → DropData → Option ReceiveError
unfolding chunk_size_of kind_eq
refusal_of c s d =
    let size = chunk_size_of c.meta in
    let n = length d.bytes in
    if not (d.drop_id =t c.meta.drop_id)
    then some id_mismatch
    else if ltb size n
    then some oversized_chunk
    else if not d.final && not (n == size)
    then some short_chunk
    else if over (pos_part c.meta.size) (s.total + n)
    then some exceeds_declared
    else if not (d.chunk_index == s.expected_index)
    then some out_of_order
    else if over c.max_size (s.total + n)
    then some exceeds_max
    else if kind_eq c.meta.kind text && over c.max_text_size (s.total + n)
    then some exceeds_max_text
    else none

-- `hasher.Write(chunk.Data)` and `totalBytes += n`, with the bytes at their place in the file.
unfoldable pub store : Bool → Receiving → DropData → Receiving
unfolding write_at
store duplicate s d = record s {
  total = s.total + length d.bytes;
  hashed = s.hashed ++ d.bytes;
  file = if duplicate then s.file else write_at s.file s.total d.bytes;
}

-- A failed sync has written and hashed, and a short write has left its bytes; neither is counted.
unfoldable pub write_chunk : IoAnswer → Bool → Receiving → DropData → Step
unfolding store write_at
write_chunk answer true s d = continues (store true s d)
write_chunk written false s d = continues (store false s d)
write_chunk touch_error false s d = stops touch_failed s
write_chunk sync_error false s d =
    stops sync_failed
      (record s { hashed = s.hashed ++ d.bytes; file = write_at s.file s.total d.bytes })
write_chunk (short_write n) false s d =
    stops write_failed (record s { file = write_at s.file s.total (take n d.bytes) })

unfoldable pub with_lease : Grown → Receiving → (Receiving → Step) → Step
with_lease (grown q l) s k = k (record s { lease = some (q, l) })
with_lease (denied e) s k = stops (over_quota e) s

-- `lease.AddBytes(n)`; a nil lease takes everything.
unfoldable pub grow_lease :
    Option (TransferQuota × TransferLease) → ℕ → Receiving → (Receiving → Step) → Step
unfolding with_lease
grow_lease none n s k = k s
grow_lease (some (q, l)) n s k = with_lease (add_bytes q l (pos n)) s k

unfoldable pub touch_fails : IoAnswer → Bool → Bool
touch_fails touch_error false = true
touch_fails _ _ = false

-- The payload of a chunk: nothing at all for an empty one.
unfoldable pub accept_bytes : IoAnswer → Bool → Receiving → DropData → Step
unfolding write_chunk grow_lease touch_fails
accept_bytes answer duplicate s d =
    if is_empty d.bytes
    then continues s
    else if touch_fails answer duplicate
    then stops touch_failed s
    else grow_lease s.lease (length d.bytes) s (λ s'. write_chunk answer duplicate s' d)

module _ (digest : Text → Text) where
  -- The checks of the final chunk, in their order.
  unfoldable pub final_refusal : Session → Receiving → DropData → Option ReceiveError
  final_refusal c s d =
      if is_positive c.meta.size && not (s.total == pos_part c.meta.size)
      then some size_mismatch
      else if not (is_sha256_hex d.sha256)
      then some invalid_digest
      else if not (equal_fold (digest s.hashed) d.sha256)
      then some digest_mismatch
      else if c.duplicate && not (equal_fold (digest s.hashed) c.tombstone_sha)
      then some tombstone_mismatch
      else none

  -- `expectedIndex++`, and the end of the loop at a final chunk.
  unfoldable pub advance : Session → DropData → Step → Step
  unfolding final_refusal
  advance c d (stops e s) = stops e s
  advance c d (ends s) = ends s
  advance c d (continues s) =
      let s' : Receiving = record s { expected_index = s.expected_index + 1 } in
      if d.final
      then elim (final_refusal c s' d) [ none ↦ ends s' | some e ↦ stops e s' ]
      else continues s'

  -- One chunk.
  unfoldable pub on_chunk : Session → IoAnswer → Receiving → DropData → Step
  unfolding advance
  on_chunk c answer s d = elim (refusal_of c s d) [
    | some e ↦ stops e s
    | none ↦ advance c d (accept_bytes answer c.duplicate s d)
  ]

  -- The loop. Heartbeats are answered and skipped.
  unfoldable pub receive_chunks : Session → (ℕ → IoAnswer) → Receiving → List FromSender → Outcome
  receive_chunks c io s [] = failed lost s
  receive_chunks c io s (heartbeat ∷ rest) = receive_chunks c io s rest
  receive_chunks c io s (chunk d ∷ rest) = elim (on_chunk c (io d.chunk_index) s d) [
    | continues s' ↦ receive_chunks c io s' rest
    | ends s' ↦ finished s'
    | stops e s' ↦ failed e s'
  ]
  receive_chunks c io s (garbled ∷ rest) = failed undecodable s
  receive_chunks c io s (context_done ∷ rest) = failed cancelled s
  receive_chunks c io s (other t ∷ rest) = failed unexpected_message s

  -- Step 5 before the loop: the chunk size and the offset of a resume, whose bytes are hashed again.
  unfoldable pub receive_from :
      Session
      → (ℕ → IoAnswer)
      → Bool
      → Text
      → ℕ
      → Option (TransferQuota × TransferLease)
      → List FromSender
      → Outcome
  receive_from c io rewindable file offset lease inbound =
      let size = chunk_size_of c.meta in
      let s : Receiving = record {
        expected_index = offset / size;
        total = offset;
        hashed = take offset file;
        file = file;
        lease = lease;
      } in
      if ltb max_chunk_size size
      then failed invalid_chunk_size s
      else if ltb 0 offset && not (offset % size == 0)
      then failed not_aligned s
      else if ltb 0 offset && not rewindable
      then failed not_rewindable s
      else if ltb (length file) offset
      then failed short_partial s
      else receive_chunks c io s inbound

  -- Step 6: the receipt of a transfer that ended well.
  unfoldable pub receipt : Session → Receiving → DropComplete
  receipt c s = record {
    drop_id = c.meta.drop_id;
    success = true;
    bytes_recv = pos s.total;
    sha256 = digest s.hashed;
    error = [];
    duplicate = c.duplicate;
  }
