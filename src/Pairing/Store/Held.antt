-- ===== src/Pairing/Store/Held.antt =====
-- internal/pairing/store.go: what holds of every map that the files of the store hold is kept by a
-- mutation that keeps it, whatever the file system answers.
use tantu.Prelude.{Bool, not, ◌&&◌, ◌≡◌, refl, Option, none, some, [], if_cases}
use tantu.Pairing.Address.{Check}
use tantu.Pairing.Store.{
  Peers, Io, File, Contents, unreadable, blank, corrupt, holds, Outcome, ok, err, PeerStore,
  write_atomic, restore_backup_if_missing, load_peers_map, save_peers_map, mutate, checked_mutate,
  decoded_peers, read_again, is_there, restored_of, loaded_of, changed, stored,
}

module _ (P : Peers → Type 0) where
  abbrev pub Held : Option Contents → Type 0
  Held (some (holds m)) = P m
  Held _ = Unit

  abbrev pub InFile : File Contents → Type 0
  InFile f = Held f.main × Held f.backup

  abbrev pub Gives : Outcome Peers → Type 0
  Gives (ok m) = P m
  Gives (err e) = Unit

  pub write_atomic-InFile :
      (io : Io) (m : Peers) (f : File Contents)
      → P m
      → InFile f
      → InFile (write_atomic io (holds m) f).1
  unfolding write_atomic
  write_atomic-InFile io m f p h =
      if_cases (λ (r : Bool × File Contents). InFile r.1) (not io.written) (λ _. h)
        (λ _.
          if_cases (λ (r : Bool × File Contents). InFile r.1) io.renamed (λ _. (p, h.1))
            (λ _.
              if_cases (λ (r : Bool × File Contents). InFile r.1)
                (not (io.preserved && is_there f.main))
                (λ _. (h.0, if_cases Held io.cleared (λ _. tt) (λ _. h.1)))
                (λ _.
                  if_cases (λ (r : Bool × File Contents). InFile r.1) io.retried
                    (λ _. (p, if_cases Held io.tidied (λ _. tt) (λ _. h.0)))
                    (λ _.
                      if_cases (λ (r : Bool × File Contents). InFile r.1) io.put_back
                        (λ _. (h.0, tt)) (λ _. (tt, h.0))))))

  stored-InFile :
      (io : Io) (r : Outcome Peers) (s : PeerStore)
      → Gives r
      → InFile s.peers
      → InFile (stored io r s).1.peers
  unfolding save_peers_map
  stored-InFile io (err e) s p h = h
  stored-InFile io (ok m) s p h = write_atomic-InFile io m s.peers p h

  module _ (nil : P []) where
    decoded_peers-Gives : (c : Contents) → Held (some c) → Gives (decoded_peers c)
    decoded_peers-Gives unreadable h = tt
    decoded_peers-Gives blank h = nil
    decoded_peers-Gives corrupt h = tt
    decoded_peers-Gives (holds m) h = h

    read_again-Gives : (c : Option Contents) → Held c → Gives (read_again c)
    read_again-Gives none h = nil
    read_again-Gives (some unreadable) h = nil
    read_again-Gives (some blank) h = nil
    read_again-Gives (some corrupt) h = tt
    read_again-Gives (some (holds m)) h = h

    restored-Held :
        (io : Io) (m b : Option Contents) → Held m → Held b → InFile (restored_of io m b).1
    restored-Held io (some a) b h k = (h, k)
    restored-Held io none none h k = (h, k)
    restored-Held io none (some b) h k =
        if_cases (λ (r : Bool × File Contents). InFile r.1) io.restored (λ _. (k, tt))
          (λ _. (tt, k))

    restore-InFile :
        (io : Io) (f : File Contents) → InFile f → InFile (restore_backup_if_missing io f).1
    unfolding restore_backup_if_missing
    restore-InFile io f h = restored-Held io f.main f.backup h.0 h.1

    loaded-Gives :
        (m : Option Contents) (io : Io) (s : PeerStore)
        → s.peers.main ≡ m
        → InFile s.peers
        → Gives (loaded_of m io s).0 × InFile (loaded_of m io s).1.peers
    loaded-Gives (some c) io s e h = (decoded_peers-Gives c (rw e at h.0), h)
    loaded-Gives none io s e h =
        let f = restore_backup_if_missing io s.peers in
        let kept = restore-InFile io s.peers h in
        (if_cases Gives f.0 (λ _. read_again-Gives f.1.main kept.0) (λ _. tt), kept)

    pub load-Gives :
        (io : Io) (s : PeerStore)
        → InFile s.peers
        → Gives (load_peers_map io s).0 × InFile (load_peers_map io s).1.peers
    unfolding load_peers_map
    load-Gives io s h = loaded-Gives s.peers.main io s refl h

    module _ (change : Peers → Outcome Peers) (keeps : (m : Peers) → P m → Gives (change m)) where
      changed-InFile :
          (io : Io) (loaded : Outcome Peers) (s : PeerStore)
          → Gives loaded
          → InFile s.peers
          → InFile (changed io change loaded s).1.peers
      changed-InFile io (err e) s g h = h
      changed-InFile io (ok m) s g h = stored-InFile io (change m) s (keeps m g) h

      -- A mutation that keeps the property keeps it on disk.
      pub checked-InFile :
          (c : Check) (io : Io) (s : PeerStore)
          → InFile s.peers
          → InFile (checked_mutate c io change s).1.peers
      unfolding checked_mutate mutate
      checked-InFile (some e) io s h = h
      checked-InFile none io s h =
          if_cases (λ (r : Check × PeerStore). InFile r.1.peers) (not io.locked) (λ _. h)
            (λ _.
              let given = load-Gives io s h in
              changed-InFile io (load_peers_map io s).0 (load_peers_map io s).1 given.0 given.1)
