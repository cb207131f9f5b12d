-- ===== src/Hub/RelayHistory.antt =====
-- internal/hub/relay_history.go: the bounded history of sign-in attempts, and what is kept of its file.
-- Times are seconds, with 0 for the zero time; AddDate on days is a subtraction. The file is what its
-- decoder gives.
pub mod Newest
pub mod Room
pub mod Tests
use tantu.Prelude.{
  ℕ, zero, suc, ◌+◌, ◌-◌, ◌*◌, Bool, true, false, not, ◌&&◌, ◌||◌, Option, none, some, List, [],
  ◌∷◌, ◌++◌, ltb, leb, ◌==◌, if◌then◌else◌, length, drop, ℤ, pos, negsuc,
}
use tantu.Text.{Text, codes, is_empty, ◌=t◌, trim_space}

abbrev pub max_relay_history : ℕ
max_relay_history = 50

-- 30 days
abbrev pub relay_retention : ℕ
relay_retention = 30 * 86400

pub record RelayAttempt : Type 0 where
  pub id : Text
  pub target_peer : Text
  pub target_fp : Text
  pub target_address : Text
  pub safe_origin : Text
  pub state : Text
  pub created_at : ℕ
  pub updated_at : ℕ
  pub error_code : Text
  pub next_action : Text
  pub diagnostic_id : Text

pub record RelayLedger : Type 0 where
  pub capacity : ℤ
  pub items : List RelayAttempt

-- `capacity <= 0` falls back to the default.
unfoldable pub capacity_of : ℤ → ℕ
capacity_of (pos zero) = max_relay_history
capacity_of (pos (suc n)) = suc n
capacity_of (negsuc n) = max_relay_history

unfoldable pub new_relay_ledger : ℤ → RelayLedger
unfolding capacity_of
new_relay_ledger capacity = record { capacity = pos (capacity_of capacity); items = [] }

-- `op.CreatedAt.IsZero() || !op.CreatedAt.Before(cutoff)`
unfoldable pub is_recent : ℕ → RelayAttempt → Bool
is_recent now op = (op.created_at == 0) || not (ltb op.created_at (now - relay_retention))

unfoldable pub prune_relay_by_age : ℕ → List RelayAttempt → List RelayAttempt
unfolding is_recent
prune_relay_by_age now [] = []
prune_relay_by_age now (op ∷ ops) =
    let rest = prune_relay_by_age now ops in if is_recent now op then op ∷ rest else rest

-- `for len(l.items) >= l.capacity && len(l.items) > 0 { l.items = l.items[1:] }`
unfoldable pub make_room : ℕ → List RelayAttempt → List RelayAttempt
make_room capacity [] = []
make_room capacity (op ∷ ops) =
    let rest = make_room capacity ops in if leb capacity (length (op ∷ ops)) then rest else op ∷ ops

unfoldable pub add_attempt : ℕ → RelayLedger → RelayAttempt → RelayLedger
unfolding capacity_of make_room prune_relay_by_age
add_attempt now l op = record {
  capacity = pos (capacity_of l.capacity);
  items = prune_relay_by_age now (make_room (capacity_of l.capacity) l.items ++ (op ∷ []));
}

-- The first attempt of the id.
unfoldable pub update_first :
    ℕ → Text → (RelayAttempt → RelayAttempt) → List RelayAttempt → List RelayAttempt
update_first now id f [] = []
update_first now id f (op ∷ ops) =
    let rest = update_first now id f ops in
    if op.id =t id then record (f op) { updated_at = now } ∷ ops else op ∷ rest

unfoldable pub update_attempt : ℕ → RelayLedger → Text → (RelayAttempt → RelayAttempt) → RelayLedger
unfolding update_first
update_attempt now l id f = record l { items = update_first now id f l.items }

-- What updateRelayAttempt of relay_coordinator.go writes.
unfoldable pub with_outcome : Text → Text → Text → RelayAttempt → RelayAttempt
with_outcome state code next op = record op { state = state; error_code = code; next_action = next }

unfoldable pub clear_attempts : RelayLedger → RelayLedger × ℕ
clear_attempts l = (record l { items = [] }, length l.items)

unfoldable pub is_relay_state : Text → Bool
unfolding ◌=t◌
is_relay_state s =
    (s =t codes "submitted")
    || (s =t codes "waiting_callback")
    || (s =t codes "complete")
    || (s =t codes "failed")
    || (s =t codes "cancelled")

unfoldable pub valid_relay_attempt : RelayAttempt → Bool
unfolding is_relay_state
valid_relay_attempt op =
    not (is_empty (trim_space op.id) || (op.created_at == 0)) && is_relay_state op.state

unfoldable pub valid_attempts : List RelayAttempt → List RelayAttempt
unfolding valid_relay_attempt
valid_attempts [] = []
valid_attempts (op ∷ ops) =
    let rest = valid_attempts ops in if valid_relay_attempt op then op ∷ rest else rest

unfoldable pub newest_attempts : List RelayAttempt → List RelayAttempt
newest_attempts ops =
    if ltb max_relay_history (length ops) then drop (length ops - max_relay_history) ops else ops

-- What persistRelayHistory writes, and what loadRelayHistory keeps of a file that decodes.
unfoldable pub persisted_attempts : ℕ → List RelayAttempt → List RelayAttempt
unfolding newest_attempts prune_relay_by_age
persisted_attempts now ops = newest_attempts (prune_relay_by_age now ops)

unfoldable pub loaded_attempts : ℕ → Option (List RelayAttempt) → List RelayAttempt
unfolding newest_attempts prune_relay_by_age valid_attempts
loaded_attempts now none = []
loaded_attempts now (some ops) = newest_attempts (prune_relay_by_age now (valid_attempts ops))
