-- ===== src/Hub/Operations/Tests.antt =====
-- internal/hub/operations.go: a ledger of two rows, a failure, and a saved file.
use tantu.Prelude.{true, ◌≡◌, refl, pos, false, List, [], ◌∷◌}
use tantu.Text.{Text, codes, ◌=t◌, trim_space, contains, has_prefix, to_lower}
use tantu.Hub.Operations.{OperationRecord, valid_persisted_operation}
use tantu.Hub.Operations.Ledger.{Step, adds, progresses}
use tantu.Hub.Operations.Classify.{
  message, safe, integrity_rejected, classify_message, mentions, classify_transfer_error,
}

abbrev sent : Text → Text → OperationRecord
sent id state = record {
  operation_id = id;
  drop_id = [];
  kind = codes "file";
  name = [];
  size = pos 100;
  mime_type = [];
  destination = [];
  destination_fingerprint = [];
  destination_address = [];
  state = state;
  created_at = 1000;
  updated_at = 0;
  bytes_sent = 0;
  verified = false;
  retry_safe = false;
  duplicate_risk = false;
  data_safe = false;
  error_code = [];
  error_message = [];
  next_action = [];
  diagnostic_id = [];
}

abbrev history : List Step
history =
    adds 1000 (sent (codes "op-1") [])
    ∷ progresses (codes "op-1") 70
    ∷ adds 1000 (sent (codes "op-2") [])
    ∷ adds 1000 (sent (codes "op-1") (codes "completed"))
    ∷ []

-- An error while the confirmation is awaited counts as safe where it names a checksum.
awaited_checksum :
    classify_transfer_error (message (codes "receive drop_complete: checksum")) 10 10 false
    ≡ safe integrity_rejected
unfolding classify_transfer_error classify_message mentions contains has_prefix to_lower
awaited_checksum = refl

-- A suppressed duplicate is a state that the loading of the saved history does not know.
suppressed_is_dropped :
    valid_persisted_operation (sent (codes "op-1") (codes "duplicate_suppressed")) ≡ false
unfolding valid_persisted_operation trim_space ◌=t◌
suppressed_is_dropped = refl

abbrev file : List OperationRecord
file =
    sent (codes "op-1") (codes "completed")
    ∷ sent (codes "op-2") (codes "duplicate_suppressed")
    ∷ sent (codes "op-3") []
    ∷ []

completed_is_valid : valid_persisted_operation (sent (codes "op-1") (codes "completed")) ≡ true
unfolding valid_persisted_operation trim_space ◌=t◌
completed_is_valid = refl
