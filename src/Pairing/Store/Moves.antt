-- ===== src/Pairing/Store/Moves.antt =====
-- internal/pairing/store.go: a mutation takes effect as a whole or not at all, and what a confirmed
-- address does to the entry of its peer.
use tantu.Prelude.{
  ℕ, Bool, true, false, not, ◌&&◌, ◌≡◌, ◌≢◌, refl, ◌∙◌, sym, subst, ap, none, some, arith, ◌⊎◌, inl,
  inr, Bool-cases, if_cases, if◌then◌else◌,
}
use tantu.Text.{Text, is_empty, trim_space}
use tantu.Text.Laws.{eq_sound}
use tantu.Text.Assoc.{lookup, put}
use tantu.Pairing.Address.{Check, save_failed, normalize_peer_address, validate_peer_address}
use tantu.Pairing.Store.{
  Peer, Peers, Io, holds, Outcome, ok, err, PeerStore, write_atomic, load_peers_map, save_peers_map,
  mutate, checked_mutate, changed, stored, at_peer, key_of, restore_backup_if_missing,
}
use tantu.Pairing.Store.Edits.{confirm_peer_address, confirmed, moved, moved_at, is_none}

module _ (m : Peers) where
  -- A load that finds the file, or puts its copy back, gives the map.
  load-ok :
      (io : Io) (s : PeerStore)
      → io.restored ≡ true
      → (s.peers.main ≡ some (holds m))
        ⊎ ((s.peers.main ≡ none) × (s.peers.backup ≡ some (holds m)))
      → (load_peers_map io s).0 ≡ ok m
  unfolding load_peers_map restore_backup_if_missing
  load-ok io s r (inl e) = rw e refl
  load-ok io s r (inr (e, f)) = rw (e, f, r) refl

  load_found :
      (io : Io) (s : PeerStore) → s.peers.main ≡ some (holds m) → (load_peers_map io s).0 ≡ ok m
  unfolding load_peers_map
  load_found io s e = rw e refl

  load-main :
      (io : Io) (s : PeerStore)
      → s.peers.main ≡ some (holds m)
      → (load_peers_map io s).1.peers.main ≡ some (holds m)
  unfolding load_peers_map
  load-main io s e = rw e refl

-- A save leaves the new map in the file, or the old one in the file or beside it.
save-cases :
    (io : Io) (m m' : Peers) (s : PeerStore)
    → s.peers.main ≡ some (holds m)
    → let (e, t) = save_peers_map io m' s in
      ((e ≡ none) × (t.peers.main ≡ some (holds m')))
      ⊎ ((e ≡ some save_failed)
          × ((t.peers.main ≡ some (holds m))
              ⊎ ((t.peers.main ≡ none) × (t.peers.backup ≡ some (holds m)))))
unfolding save_peers_map write_atomic
save-cases io m m' s here = ground (arith, here)

-- What a client sees of an operation that was to take the map from `m` to `m'`.
abbrev pub Atomic : Io → Peers → Peers → Check × PeerStore → Type 0
Atomic io m m' r =
    ((r.0 ≡ none) × ((load_peers_map io r.1).0 ≡ ok m'))
    ⊎ ((r.0 ≢ none) × ((load_peers_map io r.1).0 ≡ ok m))

stored-Atomic :
    (io io' : Io) (r : Outcome Peers) (m m' : Peers) (s : PeerStore)
    → s.peers.main ≡ some (holds m)
    → r ≡ ok m'
    → io'.restored ≡ true
    → Atomic io' m m' (stored io r s)
stored-Atomic io io' (err e) m m' s here does r = absurd (ground (arith, does))
stored-Atomic io io' (ok n) m m' s here does r = elim (save-cases io m n s here) [
  | inl (e, f) ↦ inl (e, load-ok n io' (save_peers_map io n s).1 r (inl f) ∙ does)
  | inr (e, f) ↦ inr ((λ h. ground (arith, e, h)), load-ok m io' (save_peers_map io n s).1 r f)
]

-- A mutation of a store that holds a map either succeeds, and the map that the next load gives is the
-- new one, or fails, and the next load gives the old one, also where the replacement stopped between
-- its two renames; the load needs to put the copy back.
pub mutate-IsAtomic :
    (io io' : Io) (change : Peers → Outcome Peers) (m m' : Peers) (s : PeerStore)
    → s.peers.main ≡ some (holds m)
    → change m ≡ ok m'
    → io'.restored ≡ true
    → Atomic io' m m' (mutate io change s)
unfolding mutate
mutate-IsAtomic io io' change m m' s here does r =
    if_cases (Atomic io' m m') (not io.locked) (λ _. inr ((λ e. cc), load-ok m io' s r (inl here)))
      (λ _.
        let t = (load_peers_map io s).1 in
        let kept = load-main m io s here in
        subst (λ l. Atomic io' m m' (changed io change l t)) (sym (load_found m io s here))
          (stored-Atomic io io' (change m) m m' t kept does r))

checked-ok :
    (c : Check) (io io' : Io) (change : Peers → Outcome Peers) (m m' : Peers) (s : PeerStore)
    → s.peers.main ≡ some (holds m)
    → change m ≡ ok m'
    → io'.restored ≡ true
    → (checked_mutate c io change s).0 ≡ none
    → (load_peers_map io' (checked_mutate c io change s).1).0 ≡ ok m'
unfolding checked_mutate
checked-ok (some e) io io' change m m' s here does r done = absurd (ground (arith, done))
checked-ok none io io' change m m' s here does r done =
    elim (mutate-IsAtomic io io' change m m' s here does r) [
      | inl (e, f) ↦ f
      | inr (e, f) ↦ absurd (e done)
    ]

at_peer_found :
    (fp : Text) (change : Peer → Peer) (p : Peer) (m : Peers)
    → lookup fp m ≡ some p
    → at_peer fp change m ≡ ok (put fp (change p) m)
unfolding at_peer
at_peer_found fp change p m at = ground (arith, at)

confirmed-moved :
    (now : ℕ) (seen : Text) (p : Peer)
    → moved p seen ≡ true
    → confirmed now seen p
      ≡ record p { address = seen; last_seen = now; last_address_confirmed = now }
unfolding confirmed
confirmed-moved now seen p e = rw e refl

confirmed_unmoved :
    (now : ℕ) (seen : Text) (p : Peer)
    → moved p seen ≡ false
    → confirmed now seen p ≡ record p { last_address_confirmed = now }
unfolding confirmed
confirmed_unmoved now seen p e = rw e refl

same_address :
    (seen : Text) (p : Peer)
    → moved p seen ≡ false
    → normalize_peer_address p.address ≡ normalize_peer_address seen
unfolding moved
same_address seen p e =
    let a = normalize_peer_address p.address in
    let b = normalize_peer_address seen in eq_sound a b (ground (arith, e))

confirmed_address :
    (now : ℕ) (seen : Text) (p : Peer)
    → (normalize_peer_address (confirmed now seen p).address ≡ normalize_peer_address seen)
      × ((confirmed now seen p).address ≡ (if moved p seen then seen else p.address))
      × ((confirmed now seen p).last_address_confirmed ≡ now)
confirmed_address now seen p = elim (Bool-cases (moved p seen)) [
  | inl e ↦ rw (e, confirmed-moved now seen p e) (refl, refl, refl)
  | inr e ↦ rw (e, confirmed_unmoved now seen p e) (same_address seen p e, refl, refl)
]

-- What a confirmation tells, and what the next load gives: the entry has in normal form the observed
-- address, spelled as observed where the caller is told that it moved, and was confirmed now.
abbrev pub IsConfirmed : Io → ℕ → Text → Text → Peer → Peers → (Bool × Check) × PeerStore → Type 0
IsConfirmed io now fp seen p m r =
    (q : Peer) × ((load_peers_map io r.1).0 ≡ ok (put fp q m))
    × (normalize_peer_address q.address ≡ normalize_peer_address seen)
    × (q.address ≡ (if r.0.0 then seen else p.address))
    × (q.last_address_confirmed ≡ now)

module _ (is_ip : Text → Bool) (io io' : Io) (now : ℕ) (p : Peer) (m : Peers) where
  told-moved :
      (fp seen : Text) (s : PeerStore) (e : Check)
      → s.peers.main ≡ some (holds m)
      → lookup fp m ≡ some p
      → e ≡ none
      → (moved_at io fp seen s && is_none e) ≡ moved p seen
  told-moved fp seen s e here at done = ground (arith, load_found m io s here, at, done)

  -- Where ConfirmPeerAddress succeeds on a store that holds the peer, the next load gives the same
  -- peers but for that entry. Its address is in normal form the observed one, it is the observed one
  -- where the caller is told that the address moved and the old one where not, and it was confirmed
  -- now.
  pub confirm_peer_address-IsConfirmed :
      (fp seen : Text) (s : PeerStore)
      → s.peers.main ≡ some (holds m)
      → lookup (key_of fp) m ≡ some p
      → is_empty (trim_space seen) ≡ false
      → io'.restored ≡ true
      → (confirm_peer_address is_ip io now fp seen s).0.1 ≡ none
      → IsConfirmed io' now
          (key_of fp)
          (trim_space seen)
          p
          m
          (confirm_peer_address is_ip io now fp seen s)
  unfolding confirm_peer_address
  confirm_peer_address-IsConfirmed fp seen s here at some_seen r done =
      let fp' = key_of fp in
      let seen' = trim_space seen in
      let check = validate_peer_address is_ip seen' in
      let change = at_peer fp' (confirmed now seen') in
      let k = checked_mutate check io change s in
      let whole : confirm_peer_address is_ip io now fp seen s
          ≡ ((moved_at io fp' seen' s && is_none k.0, k.0), k.1) =
        rw some_seen refl in
      let went : k.0 ≡ none = sym (ap (λ (r : (Bool × Check) × PeerStore). r.0.1) whole) ∙ done in
      let told = told-moved fp' seen' s k.0 here at went in
      let does = at_peer_found fp' (confirmed now seen') p m at in
      let (a, b, c) = confirmed_address now seen' p in
      subst (IsConfirmed io' now fp' seen' p m) (sym whole) (
        confirmed now seen' p,
        checked-ok check io io' change m _ s here does r went,
        a,
        rw told b,
        c,
      )
