-- ===== src/Drop/Quota/Tests.antt =====
-- Runs of the quota, and its theorems at concrete inputs.
use tantu.Prelude.{◌≡◌, refl, ◌⊎◌, true, false, List, [], ◌∷◌, arith, pos, negsuc}
use tantu.Text.{Text, codes, ◌=t◌}
use tantu.Text.Assoc.{lookup, put, delete}
use tantu.Drop.Quota.{
  TransferQuotaConfig, acquire, add_bytes, release, usage_of, reached, exceeds, overflows, reserve,
  reservation_for, normalize_quota_peer, new_transfer_quota, granted, refused, QuotaError,
}
use tantu.Drop.Quota.History.{
  Call, acquires, adds, releases, step, run, start, IsBalanced, is_ordered, grows_live,
}
use tantu.Drop.Quota.Ledger.{run-start-IsBalanced}
use tantu.Drop.Quota.Bounds.{IsWithin, run-start-IsWithin}
use tantu.Drop.Quota.Admission.{Fits, acquire_decides}

abbrev limits : TransferQuotaConfig
limits = record {
  max_transfers = pos 2;
  max_bytes = pos 100;
  max_per_peer_transfers = pos 1;
  max_per_peer_bytes = negsuc 0;
}

abbrev alice : Text
alice = codes "alice"

abbrev bob : Text
bob = codes "bob"

-- The second session of alice, one of too many bytes and a negative size are refused.
abbrev history : List Call
history =
    acquires alice (pos 60)
    ∷ acquires alice (pos 1)
    ∷ acquires bob (pos 41)
    ∷ acquires bob (negsuc 4)
    ∷ acquires bob (pos 40)
    ∷ []

held_bytes : (run (start limits) history).quota.active_bytes ≡ 100
unfolding run step start acquire lookup put ◌=t◌ reached exceeds overflows usage_of
    new_transfer_quota normalize_quota_peer
held_bytes = refl

abbrev returned : List Call
returned = acquires alice (pos 0) ∷ adds 0 (pos 5) ∷ releases 0 ∷ releases 0 ∷ []

returned_ordered : is_ordered (start limits) returned ≡ true
unfolding is_ordered grows_live step start acquire add_bytes release lookup put ◌=t◌ reached exceeds
    overflows usage_of new_transfer_quota normalize_quota_peer reservation_for
returned_ordered = refl

run-start-IsBalanced_example : IsBalanced (run (start limits) returned)
run-start-IsBalanced_example = run-start-IsBalanced limits returned returned_ordered

-- AddBytes on a released lease takes bytes that no later Release gives back.
leaked :
    (run
      (start limits)
      (acquires alice (pos 0) ∷ releases 0 ∷ adds 0 (pos 5) ∷ releases 0 ∷ [])).quota.active_bytes
    ≡ 5
unfolding run step start acquire add_bytes release lookup put ◌=t◌ reached exceeds overflows
    usage_of new_transfer_quota normalize_quota_peer reservation_for delete
leaked = refl

run-start-IsWithin_example : IsWithin (run (start limits) history).quota
run-start-IsWithin_example = run-start-IsWithin limits history (omega arith)

acquire_decides_example :
    let q = new_transfer_quota limits in
    let who = normalize_quota_peer bob in
    let n = reservation_for q 0 in
    (Fits q (usage_of q who) n
      × (acquire q bob (pos 0)
          ≡ granted
              (reserve q who n)
              (record { peer = who; bytes = n; unknown = true; released = false })))
    ⊎ ((¬ Fits q (usage_of q who) n)
        × (e : QuotaError) × (acquire q bob (pos 0) ≡ refused (record q { initialized = true }) e))
acquire_decides_example = acquire_decides (new_transfer_quota limits) bob 0 (omega arith)
