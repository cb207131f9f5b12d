-- ===== src/Pairing/Store/Active.antt =====
-- internal/pairing/store.go: reading the store, the selection of the active peer, and removing a peer,
-- which ends its selection too.
use tantu.Prelude.{Bool, not, Option, none, some, [], if◌then◌else◌}
use tantu.Text.{Text, is_empty, equal_fold, trim_space}
use tantu.Text.Assoc.{lookup, delete}
use tantu.Pairing.Address.{
  lock_failed, active_unreadable, active_irregular, active_undecodable, active_not_removed,
  save_failed, peer_not_found, Check,
}
use tantu.Pairing.Store.{
  Peer, Io, Selection, faulty, malformed, linked, names, Outcome, ok, err, PeerStore, mutate,
  key_of, load_peers_map, write_atomic, is_there,
}

-- GetPeer. It takes no lock of the directory.
unfoldable pub get_peer : Io → Text → PeerStore → Option Peer × PeerStore
unfolding load_peers_map
get_peer io fingerprint s =
    let (loaded, s') = load_peers_map io s in
    (elim loaded [ err e ↦ none | ok m ↦ lookup (key_of fingerprint) m ], s')

unfoldable pub is_trusted : Io → Text → PeerStore → Bool × PeerStore
unfolding get_peer
is_trusted io fingerprint s = let (p, s') = get_peer io fingerprint s in (is_there p, s')

unfoldable pub has_peer : Io → Text → PeerStore → Outcome Bool × PeerStore
unfolding load_peers_map
has_peer io fingerprint s =
    let (loaded, s') = load_peers_map io s in
    (elim loaded [ err e ↦ err e | ok m ↦ ok (is_there (lookup (key_of fingerprint) m)) ], s')

unfoldable pub remove_active_peer : Io → PeerStore → Check × PeerStore
remove_active_peer io s =
    if not (is_there s.active.main)
    then (none, s)
    else if io.removed
    then (none, record s { active = record s.active { main = none } })
    else (some active_not_removed, s)

abbrev pub selected : Text → PeerStore → Io → Outcome Text × PeerStore
selected fp s io =
    if is_empty fp
    then (ok [], s)
    else (let (loaded, s') = load_peers_map io s in
        elim loaded [
          | err e ↦ (err e, s')
          | ok m ↦
              if is_there (lookup fp m)
              then (ok fp, s')
              else (let (gone, s'') = remove_active_peer io s' in
                  (elim gone [ none ↦ ok [] | some e ↦ err e ], s''))
        ])

abbrev pub selection_of : Option Selection → PeerStore → Io → Outcome Text × PeerStore
selection_of none s io = (ok [], s)
selection_of (some faulty) s io = (err active_unreadable, s)
selection_of (some malformed) s io = (err active_undecodable, s)
selection_of (some (linked t)) s io = (err active_irregular, s)
selection_of (some (names t)) s io = selected (key_of t) s io

-- LoadActivePeer: the empty text stands for no selection.
unfoldable pub load_active_peer : Io → PeerStore → Outcome Text × PeerStore
unfolding load_peers_map remove_active_peer
load_active_peer io s =
    if not io.locked then (err lock_failed, s) else selection_of s.active.main s io

abbrev saved_active : Io → Text → PeerStore → Check × PeerStore
saved_active io fp s =
    let (done, f) = write_atomic io (names fp) s.active in
    (if done then none else some save_failed, record s { active = f })

unfoldable pub save_active_peer : Io → Text → PeerStore → Check × PeerStore
unfolding load_peers_map remove_active_peer write_atomic
save_active_peer io fingerprint s =
    let fp = key_of fingerprint in
    if not io.locked
    then (some lock_failed, s)
    else if is_empty fp
    then remove_active_peer io s
    else (let (loaded, s') = load_peers_map io s in
        elim loaded [
          | err e ↦ (some e, s')
          | ok m ↦
              if is_there (lookup fp m) then saved_active io fp s' else (some peer_not_found, s')
        ])

unfoldable pub clear_active_peer : Io → PeerStore → Check × PeerStore
unfolding remove_active_peer
clear_active_peer io s = if not io.locked then (some lock_failed, s) else remove_active_peer io s

abbrev pub cleared_if_named : Io → Text → PeerStore → Text → Check × PeerStore
cleared_if_named io fp s t =
    if equal_fold (trim_space t) fp then remove_active_peer io s else (none, s)

abbrev pub cleared_of : Option Selection → Io → Text → PeerStore → Check × PeerStore
cleared_of none io fp s = (none, s)
cleared_of (some faulty) io fp s = (some active_unreadable, s)
cleared_of (some malformed) io fp s = (none, s)
cleared_of (some (linked t)) io fp s = cleared_if_named io fp s t
cleared_of (some (names t)) io fp s = cleared_if_named io fp s t

-- clearActivePeerIfMatchesUnlocked. The file is read through a link.
unfoldable pub clear_active_peer_if_matches : Io → Text → PeerStore → Check × PeerStore
unfolding remove_active_peer
clear_active_peer_if_matches io fp s = cleared_of s.active.main io fp s

abbrev pub after_delete : Check → Io → Text → PeerStore → Check × PeerStore
after_delete (some e) io fp s = (some e, s)
after_delete none io fp s = clear_active_peer_if_matches io fp s

unfoldable pub remove_peer : Io → Text → PeerStore → Check × PeerStore
unfolding mutate clear_active_peer_if_matches
remove_peer io fingerprint s =
    let fp = key_of fingerprint in
    let (e, s') = mutate io (λ m. ok (delete fp m)) s in after_delete e io fp s'
