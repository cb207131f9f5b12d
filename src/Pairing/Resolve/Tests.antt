-- ===== src/Pairing/Resolve/Tests.antt =====
-- internal/pairing/store.go: queries on concrete lists, and the theorems on them.
use mathlib.Core.List.Memᴰ.{head}
use tantu.Prelude.{true, false, ◌≡◌, ◌≢◌, refl, inl, none, some, [], ◌∷◌}
use tantu.Text.{codes, ◌=t◌, to_lower, trim_space, equal_fold, has_prefix}
use tantu.Text.Assoc.{delete}
use tantu.Pairing.Store.{
  Peer, Io, holds, PeerStore, key_of, mutate, load_peers_map, save_peers_map, write_atomic,
}
use tantu.Pairing.Store.Active.{remove_peer, clear_active_peer_if_matches}
use tantu.Pairing.Resolve.{resolve_peer, found, no_default, sas, first_where, list_peers}
use tantu.Pairing.Resolve.Sound.{IsNamed, resolve_peer-IsNamed, resolve_peer-IsUnambiguous}
use tantu.Pairing.Resolve.Unpaired.{remove_peer-unresolved}

abbrev works : Io
works = record {
  locked = true;
  restored = true;
  written = true;
  renamed = true;
  preserved = true;
  retried = true;
  put_back = true;
  cleared = true;
  tidied = true;
  removed = true;
}

abbrev laptop : Peer
laptop = record {
  fingerprint = codes "ab12cd77";
  name = codes "mac";
  alias = codes "work";
  is_default = false;
  address = codes "10.0.0.5:9877";
  cert_pem = [];
  first_seen = 3;
  last_seen = 3;
  last_address_confirmed = 3;
}

abbrev desk : Peer
desk = record laptop { fingerprint = codes "cd3456ff"; name = codes "work"; alias = [] }

abbrev store : PeerStore
store = record {
  peers = record {
    main = some (holds ((codes "ab12cd77", laptop) ∷ (codes "cd3456ff", desk) ∷ []));
    backup = none;
  };
  active = record { main = none; backup = none };
  last_load_failed = false;
  peer_reads = 0;
}

-- The alias of one peer shadows the name of another.
shadowed : resolve_peer (laptop ∷ desk ∷ []) (codes "work") ≡ found laptop
unfolding resolve_peer ◌=t◌ to_lower trim_space has_prefix sas equal_fold
shadowed = refl

blank_query : resolve_peer (laptop ∷ desk ∷ []) (codes " ") ≡ no_default
unfolding resolve_peer trim_space
blank_query = refl

by_prefix : resolve_peer (laptop ∷ desk ∷ []) (codes "AB12CD") ≡ found laptop
unfolding resolve_peer ◌=t◌ to_lower trim_space has_prefix sas equal_fold
by_prefix = refl

resolve_peer-IsNamed_example : IsNamed (trim_space (codes "AB12CD")) (laptop ∷ desk ∷ []) laptop
unfolding resolve_peer ◌=t◌ to_lower trim_space has_prefix sas equal_fold
resolve_peer-IsNamed_example =
    resolve_peer-IsNamed (laptop ∷ desk ∷ []) (codes "AB12CD") laptop refl

resolve_peer-IsUnambiguous_example : equal_fold laptop.fingerprint laptop.fingerprint ≡ true
unfolding resolve_peer first_where ◌=t◌ to_lower trim_space has_prefix sas equal_fold
resolve_peer-IsUnambiguous_example =
    resolve_peer-IsUnambiguous (laptop ∷ desk ∷ []) (codes "AB12CD") laptop laptop refl refl refl
      (head refl) (inl refl)

remove_peer-unresolved_example : desk.fingerprint ≢ key_of (codes "AB12CD77")
unfolding remove_peer mutate load_peers_map save_peers_map write_atomic delete ◌=t◌ to_lower
    trim_space clear_active_peer_if_matches list_peers resolve_peer has_prefix sas equal_fold
remove_peer-unresolved_example =
    remove_peer-unresolved works works (codes "AB12CD77") (codes "work")
      ((codes "ab12cd77", laptop) ∷ (codes "cd3456ff", desk) ∷ []) store desk refl
      (refl, (refl, tt)) refl refl refl
