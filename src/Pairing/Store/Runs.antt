-- ===== src/Pairing/Store/Runs.antt =====
-- internal/pairing/store.go: the peers on disk under any calls and any faults.
use tantu.Prelude.{
  ℕ, Bool, false, ◌≡◌, refl, sym, subst, Option, none, some, List, [], ◌∷◌, arith, if_cases, All,
  ◌⊎◌, inl, inr,
}
use tantu.Text.{Text, trim_space, is_empty}
use tantu.Text.Assoc.{delete}
use tantu.Pairing.Address.{Check}
use tantu.Pairing.Store.{
  Peer, Peers, Io, Selection, faulty, malformed, linked, names, Outcome, ok, PeerStore, key_of,
  at_peer, mutate, checked_mutate, load_peers_map,
}
use tantu.Pairing.Store.Edits.{confirmed, addressed, with_peer, defaulted}
use tantu.Pairing.Store.Active.{
  remove_active_peer, selected, selection_of, load_active_peer, save_active_peer,
  clear_active_peer_if_matches, after_delete,
}
use tantu.Pairing.Store.Calls.{
  Call, adds, updates, confirms, renames, defaults, removes, selects, gets, clears, loads, call,
  run,
}
use tantu.Pairing.Store.Held.{InFile, Gives, load-Gives, checked-InFile}
use tantu.Pairing.Store.Sound.{
  IsSound, no_peers-IsSound, with_peer-IsSound, at_peer-IsSound, delete-IsSound, defaulted-IsSound,
  confirmed_same,
}

abbrev IsStored : PeerStore → Type 0
IsStored s = InFile IsSound s.peers

remove_active-peers : (io : Io) (s : PeerStore) → (remove_active_peer io s).1.peers ≡ s.peers
unfolding remove_active_peer
remove_active-peers io s = ground arith

pub after_delete-peers :
    (c : Check) (io : Io) (fp : Text) (s : PeerStore) → (after_delete c io fp s).1.peers ≡ s.peers
unfolding clear_active_peer_if_matches
after_delete-peers (some e) io fp s = refl
after_delete-peers none io fp s = ground (arith, remove_active-peers io s)

selected-peers :
    (fp : Text) (s : PeerStore) (io : Io)
    → ((selected fp s io).1.peers ≡ s.peers)
      ⊎ ((selected fp s io).1.peers ≡ (load_peers_map io s).1.peers)
selected-peers fp s io = ground (arith, remove_active-peers io (load_peers_map io s).1)

selection-peers :
    (m : Option Selection) (s : PeerStore) (io : Io)
    → ((selection_of m s io).1.peers ≡ s.peers)
      ⊎ ((selection_of m s io).1.peers ≡ (load_peers_map io s).1.peers)
selection-peers none s io = inl refl
selection-peers (some faulty) s io = inl refl
selection-peers (some malformed) s io = inl refl
selection-peers (some (linked t)) s io = inl refl
selection-peers (some (names t)) s io = selected-peers (key_of t) s io

-- A call that reads the peers, or leaves them alone.
reading :
    (io : Io) (s s' : PeerStore)
    → (s'.peers ≡ s.peers) ⊎ (s'.peers ≡ (load_peers_map io s).1.peers)
    → IsStored s
    → IsStored s'
reading io s s' (inl e) h = subst (InFile IsSound) (sym e) h
reading io s s' (inr e) h =
    subst (InFile IsSound) (sym e) (load-Gives IsSound no_peers-IsSound io s h).1

loading :
    (io : Io) (s : PeerStore)
    → ((load_active_peer io s).1.peers ≡ s.peers)
      ⊎ ((load_active_peer io s).1.peers ≡ (load_peers_map io s).1.peers)
unfolding load_active_peer
loading io s = ground (arith, selection-peers s.active.main s io)

saving :
    (io : Io) (fp : Text) (s : PeerStore)
    → ((save_active_peer io fp s).1.peers ≡ s.peers)
      ⊎ ((save_active_peer io fp s).1.peers ≡ (load_peers_map io s).1.peers)
unfolding save_active_peer
saving io fp s = ground (arith, remove_active-peers io s)

abbrev checked-IsStored :
    (change : Peers → Outcome Peers)
    → ((m : Peers) → IsSound m → Gives IsSound (change m))
    → (c : Check) (io : Io) (s : PeerStore) → IsStored s
    → IsStored (checked_mutate c io change s).1
checked-IsStored = checked-InFile IsSound no_peers-IsSound

-- A caller of AddPeer that does not ask for the default.
abbrev pub asks_default : Call → Bool
asks_default (adds p) = p.is_default
asks_default _ = false

module _ (is_ip : Text → Bool) (cert_fingerprint : Text → Option Text) where
  call-IsStored :
      (io : Io) (now : ℕ) (c : Call) (s : PeerStore)
      → asks_default c ≡ false
      → IsStored s
      → IsStored (call is_ip cert_fingerprint io now c s)
  unfolding call
  call-IsStored io now (adds p) s n h =
      let p' : Peer = record p { fingerprint = key_of p.fingerprint } in
      checked-IsStored (with_peer now p') (with_peer-IsSound now p' n) _ io s h
  call-IsStored io now (updates fp a) s n h =
      checked-IsStored (at_peer (key_of fp) (addressed now a))
        (at_peer-IsSound (key_of fp) (addressed now a) (λ p. (refl, refl))) _ io s h
  call-IsStored io now (confirms fp a) s n h =
      if_cases (λ (r : (Bool × Check) × PeerStore). IsStored r.1) (is_empty (trim_space a)) (λ _. h)
        (λ _.
          checked-IsStored (at_peer (key_of fp) (confirmed now (trim_space a)))
            (at_peer-IsSound (key_of fp) (confirmed now (trim_space a))
              (confirmed_same now (trim_space a)))
            _ io s h)
  call-IsStored io now (renames fp a) s n h =
      checked-IsStored (at_peer (key_of fp) (λ p. record p { alias = trim_space a }))
        (at_peer-IsSound (key_of fp) (λ p. record p { alias = trim_space a }) (λ p. (refl, refl))) _
        io s h
  call-IsStored io now (defaults fp) s n h =
      checked-IsStored (defaulted (key_of fp)) (defaulted-IsSound (key_of fp)) none io s h
  call-IsStored io now (removes fp) s n h =
      subst (InFile IsSound)
        (sym (
          after_delete-peers (mutate io (λ m. ok (delete (key_of fp) m)) s).0 io (key_of fp)
            (mutate io (λ m. ok (delete (key_of fp) m)) s).1))
        (checked-IsStored (λ m. ok (delete (key_of fp) m)) (delete-IsSound (key_of fp)) none io s h)
  call-IsStored io now (selects fp) s n h =
      reading io s (save_active_peer io fp s).1 (saving io fp s) h
  call-IsStored io now (gets fp) s n h = (load-Gives IsSound no_peers-IsSound io s h).1
  call-IsStored io now clears s n h = ground (arith, remove_active-peers io s, h)
  call-IsStored io now loads s n h = reading io s (load_active_peer io s).1 (loading io s) h

  -- What the files hold stays sound under any calls, in any order and with any answers of the file
  -- system: every entry under its fingerprint, and at most one default, where no caller of AddPeer asks
  -- for the default.
  pub run-IsSound :
      (cs : List (Io × ℕ × Call)) (s : PeerStore)
      → All (λ c. asks_default c.2 ≡ false) cs
      → InFile IsSound s.peers
      → InFile IsSound (run is_ip cert_fingerprint cs s).peers
  unfolding run
  run-IsSound [] s n h = h
  run-IsSound ((io, now, c) ∷ cs) s n h =
      run-IsSound cs (call is_ip cert_fingerprint io now c s) n.1 (call-IsStored io now c s n.0 h)
