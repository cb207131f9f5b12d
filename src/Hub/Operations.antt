-- ===== src/Hub/Operations.antt =====
-- internal/hub/operations.go: the sender's own record of its transfers. The ledger is written under
-- its lock, one operation at a time. Times are seconds, with 0 for the zero time; AddDate on days is a
-- subtraction. A count of sent bytes is never negative.
pub mod Classify
pub mod Ledger
pub mod Saved
pub mod Tests
use tantu.Prelude.{
  ℕ, zero, suc, ◌+◌, ◌-◌, ◌*◌, ◌≤◌, ◌≡◌, ℤ, pos, negsuc, Bool, true, false, not, ◌&&◌, ◌||◌, List,
  [], ◌∷◌, ◌++◌, ltb, leb, ◌==◌, if◌then◌else◌, length, drop,
}
use tantu.Text.{Text, codes, is_empty, ◌=t◌, trim_space}

abbrev pub max_outbound_operations : ℕ
max_outbound_operations = 50

abbrev pub transfer_retention_days : ℕ
transfer_retention_days = 30

pub record OperationRecord : Type 0 where
  pub operation_id : Text
  pub drop_id : Text
  pub kind : Text
  pub name : Text
  pub size : ℤ
  pub mime_type : Text
  pub destination : Text
  pub destination_fingerprint : Text
  pub destination_address : Text
  pub state : Text
  pub created_at : ℕ
  pub updated_at : ℕ
  pub bytes_sent : ℕ
  pub verified : Bool
  pub retry_safe : Bool
  pub duplicate_risk : Bool
  pub data_safe : Bool
  pub error_code : Text
  pub error_message : Text
  pub next_action : Text
  pub diagnostic_id : Text

pub record OperationLedger : Type 0 where
  pub capacity : ℤ
  pub items : List OperationRecord

-- `capacity <= 0` falls back to the default.
abbrev effective : ℤ → ℤ
effective (pos zero) = pos max_outbound_operations
effective (pos (suc n)) = pos (suc n)
effective (negsuc n) = pos max_outbound_operations

unfoldable pub new_operation_ledger : ℤ → OperationLedger
new_operation_ledger capacity = record { capacity = effective capacity; items = [] }

-- What UpdateProgress does at the first record of the id: a record with a state is final, and the
-- count never goes back.
abbrev pub advanced : OperationRecord → ℕ → OperationRecord
advanced op bytes = if ltb op.bytes_sent bytes then record op { bytes_sent = bytes } else op

unfoldable pub update_items : Text → ℕ → List OperationRecord → List OperationRecord × Bool
update_items id bytes [] = ([], false)
update_items id bytes (op ∷ ops) =
    let rest = update_items id bytes ops in
    if op.operation_id =t id
    then (if is_empty op.state then (advanced op bytes ∷ ops, true) else (op ∷ ops, false))
    else (op ∷ rest.0, rest.1)

-- UpdateProgress
unfoldable pub update_progress : OperationLedger → Text → ℕ → OperationLedger × Bool
unfolding update_items
update_progress l id bytes =
    let end = update_items id bytes l.items in
    if is_empty id then (l, false) else (record l { items = end.0 }, end.1)

-- pruneOperationsByAge, at the given time
abbrev pub is_kept : ℕ → OperationRecord → Bool
is_kept now op = (op.created_at == 0) || leb (now - transfer_retention_days * 86400) op.created_at

unfoldable pub prune_operations_by_age : ℕ → List OperationRecord → List OperationRecord
prune_operations_by_age now [] = []
prune_operations_by_age now (op ∷ ops) =
    let rest = prune_operations_by_age now ops in if is_kept now op then op ∷ rest else rest

-- The record of the id replaced, where there is one.
unfoldable pub has_id : Text → List OperationRecord → Bool
has_id id [] = false
has_id id (op ∷ ops) = (op.operation_id =t id) || has_id id ops

unfoldable pub replace_first : OperationRecord → List OperationRecord → List OperationRecord
replace_first new [] = []
replace_first new (op ∷ ops) =
    let rest = replace_first new ops in
    if op.operation_id =t new.operation_id then new ∷ ops else op ∷ rest

-- `for len(items) >= capacity && len(items) > 0 { items = items[1:] }`
unfoldable pub evict : ℕ → List OperationRecord → List OperationRecord
evict capacity [] = []
evict capacity (op ∷ ops) =
    let rest = evict capacity ops in if leb capacity (length (op ∷ ops)) then rest else op ∷ ops

abbrev size_of : ℤ → ℕ
size_of (pos n) = n
size_of (negsuc n) = 0

-- Add
unfoldable pub add : ℕ → OperationLedger → OperationRecord → OperationLedger
unfolding has_id replace_first evict prune_operations_by_age
add now l op =
    let capacity = effective l.capacity in
    if not (is_empty op.operation_id) && has_id op.operation_id l.items
    then record { capacity = capacity; items = replace_first op l.items }
    else record {
      capacity = capacity;
      items = prune_operations_by_age now (evict (size_of capacity) l.items ++ (op ∷ []));
    }

-- Clear, with the number of records that were removed; GetAll
unfoldable pub clear : OperationLedger → OperationLedger × ℕ
clear l = (record l { items = [] }, length l.items)

abbrev pub get_all : OperationLedger → List OperationRecord
get_all l = l.items

-- validPersistedOperation
abbrev is_kind : Text → Bool
is_kind kind = (kind =t codes "text") || (kind =t codes "file")

abbrev is_outcome : Text → Bool
is_outcome state =
    (state =t codes "completed")
    || (state =t codes "retryable_failure")
    || (state =t codes "terminal_failure")
    || (state =t codes "cancelled")
    || (state =t codes "duplicate_risk")
    || (state =t codes "submitted")
    || (state =t codes "negotiating")
    || (state =t codes "sending")
    || (state =t codes "verifying")

unfoldable pub valid_persisted_operation : OperationRecord → Bool
valid_persisted_operation op =
    not (is_empty (trim_space op.operation_id))
    && not (op.created_at == 0)
    && is_kind op.kind
    && is_outcome op.state

unfoldable pub valid_only : List OperationRecord → List OperationRecord
valid_only [] = []
valid_only (op ∷ ops) =
    let rest = valid_only ops in if valid_persisted_operation op then op ∷ rest else rest

-- The newest fifty.
unfoldable pub newest : List OperationRecord → List OperationRecord
newest ops =
    if ltb max_outbound_operations (length ops)
    then drop (length ops - max_outbound_operations) ops
    else ops

-- What persistOutboundOperations writes and loadOutboundOperations keeps of a file that it can read.
unfoldable pub persisted : ℕ → List OperationRecord → List OperationRecord
unfolding prune_operations_by_age newest
persisted now ops = newest (prune_operations_by_age now ops)

unfoldable pub loaded : ℕ → List OperationRecord → List OperationRecord
unfolding valid_only newest
loaded now ops = newest (prune_operations_by_age now (valid_only ops))
