-- ===== src/Hub/RelayHistory/Tests.antt =====
-- internal/hub/relay_history.go: three sign-ins in a ledger of two, and a saved record.
use tantu.Prelude.{ℕ, ◌≡◌, refl, some, List, [], ◌∷◌, arith, pos}
use tantu.Text.{Text, codes, ◌=t◌, trim_space}
use tantu.Hub.RelayHistory.{
  RelayAttempt, new_relay_ledger, capacity_of, prune_relay_by_age, is_recent, update_attempt,
  update_first, with_outcome, valid_relay_attempt, is_relay_state, loaded_attempts, valid_attempts,
  newest_attempts,
}
use tantu.Hub.RelayHistory.Newest.{Addition, add_all, log, view, last_time, add_all-view}

abbrev login : ℕ → Text → RelayAttempt
login at id = record {
  id = id;
  target_peer = codes "desk";
  target_fp = [];
  target_address = [];
  safe_origin = codes "example.org";
  state = codes "submitted";
  created_at = at;
  updated_at = at;
  error_code = [];
  next_action = [];
  diagnostic_id = id;
}

abbrev three : List Addition
three = (5, login 5 (codes "a")) ∷ (9, login 9 (codes "b")) ∷ (9, login 9 (codes "c")) ∷ []

add_all-view_example :
    (add_all (new_relay_ledger (pos 2)) three).items
    ≡ login 9 (codes "b") ∷ login 9 (codes "c") ∷ []
unfolding capacity_of last_time log view prune_relay_by_age is_recent
add_all-view_example =
    add_all-view (pos 2) three (omega arith, refl, (omega arith, refl, (omega arith, refl, tt)))

-- A record of a state that is not listed is not loaded again.
state_unknown :
    loaded_attempts 9
      (some (login 5 (codes "a") ∷ record (login 5 (codes "b")) { state = codes "lost" } ∷ []))
    ≡ login 5 (codes "a") ∷ []
unfolding loaded_attempts valid_attempts valid_relay_attempt is_relay_state newest_attempts
    prune_relay_by_age is_recent trim_space ◌=t◌
state_unknown = refl

-- An attempt that is complete can be turned into a cancelled one.
overwritten :
    (update_attempt 7
      (record {
        capacity = pos 2;
        items = record (login 5 (codes "a")) { state = codes "complete" } ∷ [];
      })
      (codes "a")
      (with_outcome (codes "cancelled") (codes "cancelled") [])).items
    ≡ record (login 5 (codes "a")) {
      state = codes "cancelled";
      error_code = codes "cancelled";
      updated_at = 7;
    }
      ∷ []
unfolding update_attempt update_first with_outcome ◌=t◌
overwritten = refl
