-- ===== src/Pairing/Store/Tests.antt =====
-- internal/pairing/store.go: the theorems at concrete stores.
use tantu.Prelude.{ℕ, Bool, true, false, ◌≢◌, refl, Option, none, some, List, [], ◌∷◌}
use tantu.Text.{Text, codes, ◌=t◌, to_lower, trim_space, equal_fold, contains}
use tantu.Text.Assoc.{lookup, delete}
use tantu.Text.HostPort.{split_host_port}
use tantu.Pairing.Address.{validate_peer_address}
use tantu.Pairing.Store.{
  Peer, Peers, Io, holds, names, ok, PeerStore, key_of, mutate, load_peers_map, save_peers_map,
  write_atomic, checked_mutate, at_peer,
}
use tantu.Pairing.Store.Edits.{confirm_peer_address}
use tantu.Pairing.Store.Active.{remove_peer, load_active_peer, clear_active_peer_if_matches}
use tantu.Pairing.Store.Calls.{Call, adds, defaults, removes, run}
use tantu.Pairing.Store.Removed.{remove_peer-unselected}
use tantu.Pairing.Store.Held.{InFile}
use tantu.Pairing.Store.Sound.{IsSound}
use tantu.Pairing.Store.Runs.{run-IsSound}
use tantu.Pairing.Store.Moves.{
  Atomic, mutate-IsAtomic, IsConfirmed, confirm_peer_address-IsConfirmed,
}

abbrev works : Io
works = record {
  locked = true;
  restored = true;
  written = true;
  renamed = true;
  preserved = true;
  retried = true;
  put_back = true;
  cleared = true;
  tidied = true;
  removed = true;
}

-- The replacement stops between its two renames.
abbrev stops : Io
stops = record works { renamed = false; retried = false; put_back = false }

abbrev laptop : Peer
laptop = record {
  fingerprint = codes "ab12";
  name = codes "laptop";
  alias = [];
  is_default = false;
  address = codes "10.0.0.5";
  cert_pem = [];
  first_seen = 3;
  last_seen = 3;
  last_address_confirmed = 3;
}

abbrev desk : Peer
desk = record laptop { fingerprint = codes "cd34"; name = codes "desk"; is_default = true }

abbrev paired : Peers
paired = (codes "ab12", laptop) ∷ (codes "cd34", desk) ∷ []

abbrev store : PeerStore
store = record {
  peers = record { main = some (holds paired); backup = none };
  active = record { main = some (names (codes "AB12")); backup = none };
  last_load_failed = false;
  peer_reads = 0;
}

abbrev no_ip : Text → Bool
no_ip t = false

abbrev no_cert : Text → Option Text
no_cert t = none

-- The laptop is removed and paired again.
remove_peer-unselected_example :
    (load_active_peer works (
      run no_ip no_cert
        ((works, 9, adds laptop) ∷ [])
        (remove_peer works (codes "ab12") store).1)).0
    ≢ ok (key_of (codes "ab12"))
unfolding remove_peer mutate load_peers_map save_peers_map write_atomic delete ◌=t◌ to_lower
    trim_space clear_active_peer_if_matches equal_fold
remove_peer-unselected_example =
    remove_peer-unselected no_ip no_cert works works (codes "ab12") ((works, 9, adds laptop) ∷ [])
      store refl refl (refl, tt)

abbrev calls : List (Io × ℕ × Call)
calls =
    (works, 5, adds laptop)
    ∷ (stops, 6, defaults (codes "ab12"))
    ∷ (works, 7, removes (codes "cd34"))
    ∷ []

paired-IsSound : IsSound []
unfolding lookup
paired-IsSound = record { keyed = λ k p e. absurd cc; one = λ k j p q e f d g. absurd cc }

run-IsSound_example :
    InFile IsSound
      (run no_ip no_cert calls
        (record store { peers = record { main = some (holds []); backup = none } })).peers
run-IsSound_example =
    run-IsSound no_ip no_cert calls
      (record store { peers = record { main = some (holds []); backup = none } })
      (refl, (refl, (refl, tt))) (paired-IsSound, tt)

mutate-IsAtomic_example :
    Atomic works paired
      (delete (codes "ab12") paired)
      (mutate stops (λ m. ok (delete (codes "ab12") m)) store)
mutate-IsAtomic_example =
    mutate-IsAtomic stops works (λ m. ok (delete (codes "ab12") m)) paired
      (delete (codes "ab12") paired) store refl refl refl

confirm_peer_address-IsConfirmed_example :
    IsConfirmed works 8
      (key_of (codes "ab12"))
      (trim_space (codes "10.0.0.7"))
      laptop
      paired
      (confirm_peer_address no_ip works 8 (codes "ab12") (codes "10.0.0.7") store)
unfolding confirm_peer_address checked_mutate mutate load_peers_map save_peers_map write_atomic
    lookup ◌=t◌ to_lower trim_space validate_peer_address split_host_port contains at_peer
confirm_peer_address-IsConfirmed_example =
    confirm_peer_address-IsConfirmed no_ip works works 8 laptop paired (codes "ab12")
      (codes "10.0.0.7") store refl refl refl refl refl
