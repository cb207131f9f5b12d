-- ===== src/Drop/Sender.antt =====
-- SendDrop of internal/drop/sender.go, from the acknowledgement to the receipt. What the peer sends is
-- a list of messages, and its end is a connection that broke or a context that ended. SHA-256 in hex
-- is the parameter `digest`; `link i` says whether the context lives and the connection takes the
-- chunk of index i.
use tantu.Prelude.{
  ℕ, zero, suc, ◌+◌, ◌/◌, ◌%◌, Bool, true, false, not, ◌&&◌, ◌||◌, Option, none, some, List, [],
  ◌∷◌, ◌++◌, ltb, ◌==◌, if◌then◌else◌, length, take, drop, ℤ, pos, pos_part, is_positive,
  is_negative,
}
use tantu.Text.{Text, codes, is_empty, ◌=t◌, equal_fold}
use tantu.Drop.Quota.{default_chunk_size}
use tantu.Drop.Types.{DropSend, DropAck, DropData, DropComplete}

pub data SendError : Type 0 where
  lost_ack lost_complete unexpected_message undecodable : SendError
  ack_id_mismatch invalid_resume_offset not_seekable short_payload : SendError
  rejected : Text → ℤ → SendError
  stopped : ℕ → SendError
  complete_id_mismatch byte_count_mismatch checksum_mismatch : SendError

pub data Sent {ℓ} (A : Type ℓ) : Type ℓ where
  ok : A → Sent A
  err : SendError → Sent A

infixl 5 ◌>>=◌ ◌>>◌
abbrev pub ◌>>=◌ {ℓ κ} : {A : Type ℓ} {B : Type κ} → Sent A → (A → Sent B) → Sent B
ok a >>= f = f a
err e >>= f = err e

abbrev pub ◌>>◌ {ℓ} : {B : Type ℓ} → Sent (Unit {0}) → Sent B → Sent B
m >> k = m >>= λ _. k

-- An early return with an error, where the test holds.
abbrev pub fail_if : Bool → SendError → Sent (Unit {0})
fail_if true e = err e
fail_if false e = ok tt

-- What arrives at the sender. `garbled` is a message of the awaited type that does not decode.
pub data FromReceiver : Type 0 where
  heartbeat garbled : FromReceiver
  ack : DropAck → FromReceiver
  complete : DropComplete → FromReceiver
  other : Text → FromReceiver

-- `if meta.ChunkSize <= 0 { meta.ChunkSize = DefaultChunkSize }`
unfoldable pub chunk_size_of : DropSend → ℕ
chunk_size_of meta =
    if is_positive meta.chunk_size then pos_part meta.chunk_size else default_chunk_size

-- `a < 0 || (size > 0 && a > size)`
abbrev pub beyond : ℤ → ℤ → Bool
beyond size a = is_negative a || is_positive size && ltb (pos_part size) (pos_part a)

-- The reason of a refusal, or the sentence that stands for none.
abbrev no_reason : Text
no_reason = codes "receiver rejected the transfer without a reason"

abbrev reason_of : Text → Text
reason_of e = if is_empty e then no_reason else e

unfoldable pub check_ack : DropSend → DropAck → Sent ℕ
check_ack meta a = do
  fail_if (not (a.drop_id =t meta.drop_id)) ack_id_mismatch
  fail_if (not a.accepted) (rejected (reason_of a.error) (pos 0))
  fail_if (beyond meta.size a.received_bytes) invalid_resume_offset
  ok (pos_part a.received_bytes)

-- Step 2: heartbeats are answered and skipped. The value is the resume offset.
unfoldable pub await_ack : DropSend → List FromReceiver → Sent (ℕ × List FromReceiver)
unfolding check_ack
await_ack meta [] = err lost_ack
await_ack meta (heartbeat ∷ rest) = await_ack meta rest
await_ack meta (ack a ∷ rest) = do offset ← check_ack meta a; ok (offset, rest)
await_ack meta (garbled ∷ rest) = err undecodable
await_ack meta (complete c ∷ rest) = err unexpected_message
await_ack meta (other t ∷ rest) = err unexpected_message

-- The offset of a resume must be chunk-aligned, the payload seekable and long enough.
unfoldable pub check_resume : DropSend → Bool → Text → ℕ → Sent (Unit {0})
unfolding chunk_size_of
check_resume meta seekable payload offset =
    if ltb 0 offset
    then (do
      fail_if (not (offset % chunk_size_of meta == 0)) invalid_resume_offset
      fail_if (not seekable) not_seekable
      fail_if (ltb (length payload) offset) short_payload
      ok tt)
    else ok tt

-- What `io.ReadFull` says of a buffer and of what is left to read.
pub data ReadStatus : Type 0 where
  eof unexpected_eof full : ReadStatus

unfoldable pub read_status : ℕ → Text → ReadStatus
read_status size [] = eof
read_status size (b ∷ bs) = if ltb (length (b ∷ bs)) size then unexpected_eof else full

-- The chunks that went out, the progress that was reported, and the hashed bytes; `broken` is the
-- index of a chunk that could not go out.
pub record Streamed : Type 0 where
  pub chunks : List DropData
  pub progress : List ℕ
  pub hashed : Text
  pub broken : Option ℕ

pub data Payload : Type 0 where
  exhausted : Payload
  streamed : Streamed → Payload

module _ (digest : Text → Text) (link : ℕ → Bool) (id : Text) (size : ℕ) where
  unfoldable pub part : ℕ → Text → DropData
  part i bytes = record { drop_id = id; chunk_index = i; bytes = bytes; final = false; sha256 = [] }

  unfoldable pub last_part : ℕ → Text → Text → DropData
  last_part i bytes seen = record {
    drop_id = id;
    chunk_index = i;
    bytes = bytes;
    final = true;
    sha256 = digest seen;
  }

  -- `if err := conn.Send(...); err != nil { return }; notify(...)`, then the rest.
  unfoldable pub emit : DropData → ℕ → Text → Streamed → Streamed
  emit c sent seen more =
      if link c.chunk_index
      then record more { chunks = c ∷ more.chunks; progress = sent ∷ more.progress }
      else record { chunks = []; progress = []; hashed = seen; broken = some c.chunk_index }

  unfoldable pub done : Text → Streamed
  done seen = record { chunks = []; progress = []; hashed = seen; broken = none }

  -- `exhausted` is out of fuel.
  unfoldable pub emit_before : DropData → ℕ → Text → Payload → Payload
  unfolding emit
  emit_before c sent seen exhausted = exhausted
  emit_before c sent seen (streamed more) = streamed (emit c sent seen more)

  -- The read-ahead loop: `current` is read and hashed and not yet sent, `rest` is unread, `seen` is
  -- what the hasher holds, `sent` what went out.
  unfoldable pub read_ahead : ℕ → ℕ → Text → Text → Text → ℕ → Payload
  unfolding part last_part emit emit_before done read_status
  read_ahead zero i current rest seen sent = exhausted
  read_ahead (suc fuel) i current rest seen sent =
      let sent' = sent + length current in
      elim (read_status size rest) [
        | eof ↦ streamed (emit (last_part i current seen) sent' seen (done seen))
        | unexpected_eof ↦ streamed (
            emit (part i current) sent' seen (
              emit (last_part (i + 1) rest (seen ++ rest)) (sent' + length rest) (seen ++ rest)
                (done (seen ++ rest))))
        | full ↦ emit_before (part i current) sent' seen (
            read_ahead fuel (i + 1) (take size rest) (drop size rest) (seen ++ take size rest)
              sent')
      ]

  -- Step 3: the first read decides between an empty payload, one short chunk and the loop. An empty
  -- rest reports no progress.
  unfoldable pub stream : Text → ℕ → Payload
  unfolding read_ahead last_part emit done read_status
  stream payload offset =
      let rest = drop offset payload in
      let before = take offset payload in
      let i = offset / size in
      elim (read_status size rest) [
        | eof ↦ streamed (
            if link i
            then record {
              chunks = last_part i [] before ∷ [];
              progress = [];
              hashed = before;
              broken = none;
            }
            else record { chunks = []; progress = []; hashed = before; broken = some i })
        | unexpected_eof ↦
            let seen = before ++ rest in
            streamed (emit (last_part i rest seen) (offset + length rest) seen (done seen))
        | full ↦
            read_ahead (suc (length rest)) i (take size rest) (drop size rest)
              (before ++ take size rest) offset
      ]

-- The receipt is believed only for the whole size and the digest of what was hashed.
unfoldable pub check_complete : DropSend → Text → DropComplete → Sent DropComplete
check_complete meta sent_sha c = do
  fail_if (not (c.drop_id =t meta.drop_id)) complete_id_mismatch
  fail_if (not c.success) (rejected (reason_of c.error) c.bytes_recv)
  fail_if
      (is_negative c.bytes_recv
        || is_positive meta.size && not (pos_part c.bytes_recv == pos_part meta.size))
      byte_count_mismatch
  fail_if (is_empty c.sha256 || not (equal_fold c.sha256 sent_sha)) checksum_mismatch
  ok c

-- Step 4.
unfoldable pub await_complete : DropSend → Text → List FromReceiver → Sent DropComplete
unfolding check_complete
await_complete meta sent_sha [] = err lost_complete
await_complete meta sent_sha (heartbeat ∷ rest) = await_complete meta sent_sha rest
await_complete meta sent_sha (complete c ∷ rest) = check_complete meta sent_sha c
await_complete meta sent_sha (garbled ∷ rest) = err undecodable
await_complete meta sent_sha (ack a ∷ rest) = err unexpected_message
await_complete meta sent_sha (other t ∷ rest) = err unexpected_message
