-- ===== src/Hub/Operations/Classify.antt =====
-- internal/hub/operations.go: what a failed transfer is called, and what the user may safely do next.
-- An error is the text of its message, or the reason that the receiver gave. The sentences that are
-- shown beside the code are left out.
use tantu.Prelude.{
  ℕ, ◌≡◌, Bool, true, false, not, ◌&&◌, ◌||◌, List, [], ◌∷◌, ltb, leb, if◌then◌else◌,
}
use tantu.Text.{Text, codes, contains, to_lower}

pub data TransferError : Type 0 where
  rejection : Text → TransferError
  message : Text → TransferError

pub data Code : Type 0 where
  cancelled_after_send cancelled confirmation_timeout transfer_timeout : Code
  receiver_busy integrity_rejected negotiation_failed unknown_outcome : Code
  transfer_interrupted destination_unreachable transfer_failed : Code
  idempotency_key_conflict untrusted_peer receiver_rejected : Code

pub record Verdict : Type 0 where
  pub verdict_code : Code
  pub retry_safe : Bool
  pub duplicate_risk : Bool
  pub data_safe : Bool

abbrev pub safe : Code → Verdict
safe c = record { verdict_code = c; retry_safe = true; duplicate_risk = false; data_safe = true }

abbrev risky : Code → Verdict
risky c = record { verdict_code = c; retry_safe = false; duplicate_risk = true; data_safe = true }

-- `strings.Contains(lower, w)` for one of the words
unfoldable pub mentions : Text → List Text → Bool
mentions lower [] = false
mentions lower (w ∷ ws) = contains lower w || mentions lower ws

abbrev pub confirmation_words : List Text
confirmation_words = codes "drop_complete" ∷ codes "receive drop_complete" ∷ []

-- classifyRejection
unfoldable pub classify_rejection : Text → Verdict
unfolding mentions
classify_rejection reason =
    let lower = to_lower reason in
    if mentions lower (codes "idempotency key" ∷ [])
    then safe idempotency_key_conflict
    else if mentions lower (
        codes "checksum"
        ∷ codes "sha-256"
        ∷ codes "size mismatch"
        ∷ codes "byte count mismatch"
        ∷ [])
    then safe integrity_rejected
    else if mentions lower (codes "quota" ∷ codes "too many" ∷ codes "busy" ∷ codes "no space" ∷ [])
    then safe receiver_busy
    else if mentions lower (codes "not paired or trusted" ∷ codes "unauthorized" ∷ [])
    then safe untrusted_peer
    else safe receiver_rejected

-- The words of ClassifyTransferError, in the order of its tests.
abbrev pub cancel_words : List Text
cancel_words = codes "context canceled" ∷ codes "context cancelled" ∷ []

abbrev pub timeout_words : List Text
timeout_words = codes "deadline exceeded" ∷ codes "timeout" ∷ []

abbrev pub busy_words : List Text
busy_words = codes "quota" ∷ codes "too many" ∷ codes "busy" ∷ codes "503" ∷ []

abbrev pub integrity_words : List Text
integrity_words =
    codes "checksum"
    ∷ codes "sha-256"
    ∷ codes "sha256"
    ∷ codes "final size mismatch"
    ∷ codes "byte count mismatch"
    ∷ []

abbrev pub negotiation_words : List Text
negotiation_words =
    codes "drop_ack" ∷ codes "resume offset" ∷ codes "invalid resume" ∷ codes "resumption" ∷ []

abbrev pub chunk_words : List Text
chunk_words = codes "drop_data" ∷ codes "read payload" ∷ codes "write payload" ∷ codes "chunk" ∷ []

abbrev pub dial_words : List Text
dial_words =
    codes "dial"
    ∷ codes "connection refused"
    ∷ codes "no such host"
    ∷ codes "i/o timeout"
    ∷ codes "tls"
    ∷ codes "certificate"
    ∷ codes "not a trusted"
    ∷ codes "not the configured"
    ∷ codes "failed to connect"
    ∷ []

abbrev pub connect_words : List Text
connect_words = codes "connect" ∷ []

-- `size > 0 && bytesSent >= size && bytesSent > 0`
abbrev pub all_sent : ℕ → ℕ → Bool
all_sent bytes_sent size = ltb 0 size && leb size bytes_sent && ltb 0 bytes_sent

-- The tests of ClassifyTransferError on the message, behind the ones on a lost confirmation.
unfoldable pub classify_late : Text → ℕ → ℕ → Verdict
unfolding mentions
classify_late lower bytes_sent size =
    if mentions lower chunk_words
    then safe transfer_interrupted
    else if mentions lower dial_words
    then safe destination_unreachable
    else if mentions lower connect_words
    then safe destination_unreachable
    else if all_sent bytes_sent size
    then risky unknown_outcome
    else if ltb 0 bytes_sent
    then safe transfer_interrupted
    else safe transfer_failed

unfoldable pub classify_message : Text → ℕ → ℕ → Bool → Verdict
unfolding mentions classify_late
classify_message lower bytes_sent size was_cancelled =
    if was_cancelled || mentions lower cancel_words
    then (if all_sent bytes_sent size then risky cancelled_after_send else safe cancelled)
    else if mentions lower timeout_words
    then (if all_sent bytes_sent size then risky confirmation_timeout else safe transfer_timeout)
    else if mentions lower busy_words
    then safe receiver_busy
    else if mentions lower integrity_words
    then safe integrity_rejected
    else if mentions lower negotiation_words
    then safe negotiation_failed
    else if mentions lower confirmation_words
    then risky unknown_outcome
    else classify_late lower bytes_sent size

-- ClassifyTransferError; no error is the empty message.
unfoldable pub classify_transfer_error : TransferError → ℕ → ℕ → Bool → Verdict
unfolding classify_rejection classify_message
classify_transfer_error (rejection reason) bytes_sent size was_cancelled = classify_rejection reason
classify_transfer_error (message text) bytes_sent size was_cancelled =
    classify_message (to_lower text) bytes_sent size was_cancelled

-- operationStateForFailure
unfoldable pub operation_state_for_failure : Bool → Bool → Bool → Text
operation_state_for_failure retry_safe duplicate_risk was_cancelled =
    if was_cancelled
    then codes "cancelled"
    else if duplicate_risk
    then codes "duplicate_risk"
    else if retry_safe
    then codes "retryable_failure"
    else codes "terminal_failure"

-- What a message tells of the outcome: the transfer was stopped, or failed before a receiver could
-- have published, or its confirmation was being awaited, or it failed at a stage that publishes nothing.
unfoldable pub tells_stopped : Text → Bool → Bool
unfolding mentions
tells_stopped lower was_cancelled =
    (was_cancelled || mentions lower cancel_words) || mentions lower timeout_words

unfoldable pub tells_failed : Text → Bool
unfolding mentions
tells_failed lower =
    mentions lower busy_words || mentions lower integrity_words || mentions lower negotiation_words

unfoldable pub tells_stage : Text → Bool
unfolding mentions
tells_stage lower =
    mentions lower chunk_words || mentions lower dial_words || mentions lower connect_words

-- Whether the receiver may hold the file: a transfer that was stopped behind its last byte, or one that
-- tells of no failure before and was awaiting the confirmation, or tells of no stage behind its last byte.
unfoldable pub may_have_arrived : TransferError → ℕ → ℕ → Bool → Bool
unfolding tells_stopped tells_failed tells_stage mentions
may_have_arrived (rejection reason) bytes_sent size was_cancelled = false
may_have_arrived (message text) bytes_sent size was_cancelled =
    let lower = to_lower text in
    let sent = all_sent bytes_sent size in
    (tells_stopped lower was_cancelled && sent)
    || (not (tells_stopped lower was_cancelled)
        && not (tells_failed lower)
        && (mentions lower confirmation_words || not (tells_stage lower) && sent))

-- A verdict on a transfer of which it is known whether a duplicate is possible.
pub record IsHonest (unsure : Bool) (v : Verdict) : Type 0 where
  pub kept : v.data_safe ≡ true
  pub risk : v.duplicate_risk ≡ unsure
  pub retry : v.retry_safe ≡ not unsure
