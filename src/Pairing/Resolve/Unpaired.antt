-- ===== src/Pairing/Resolve/Unpaired.antt =====
-- internal/pairing/store.go: a removal, the list of the peers and a query, one after the other.
use mathlib.Core.List.{Memᴰ}
use mathlib.Core.List.Memᴰ.{head, tail}
use tantu.Prelude.{
  true, ◌≡◌, ◌≢◌, refl, sym, subst, ap, ◌∙◌, Option, none, some, List, [], ◌∷◌, arith, inl, inr,
  if_cases, All, if◌then◌else◌,
}
use tantu.Text.{Text, ◌=t◌}
use tantu.Text.Laws.{eq_self}
use tantu.Text.Assoc.{delete, Every}
use tantu.Pairing.Address.{Check, restore_failed}
use tantu.Pairing.Store.{
  Peer, Peers, Io, holds, ok, err, PeerStore, key_of, mutate, load_peers_map, loaded_of, Contents,
  File, restore_backup_if_missing, read_again,
}
use tantu.Pairing.Store.Active.{remove_peer, after_delete}
use tantu.Pairing.Store.Moves.{mutate-IsAtomic}
use tantu.Pairing.Store.Runs.{after_delete-peers}
use tantu.Pairing.Resolve.{
  listed_before, insert_peer, sorted_peers, list_peers, found, resolve_peer,
}
use tantu.Pairing.Resolve.Sound.{resolve_peer-IsNamed}

module _ (P : Peer → Type 0) where
  insert-All : (p : Peer) (ps : List Peer) → P p → All P ps → All P (insert_peer p ps)
  unfolding insert_peer
  insert-All p [] h k = (h, tt)
  insert-All p (q ∷ qs) h k =
      if_cases (All P) (listed_before p q) (λ _. (h, k)) (λ _. (k.0, insert-All p qs h k.1))

  sorted-All : (m : Peers) → Every (λ k p. P p) m → All P (sorted_peers m)
  unfolding sorted_peers
  sorted-All [] h = tt
  sorted-All ((k, p) ∷ m) h = insert-All p (sorted_peers m) h.0 (sorted-All m h.1)

  All-Memᴰ : (p : Peer) (ps : List Peer) → All P ps → Memᴰ p ps → P p
  All-Memᴰ p [] h m = elim m [ ]
  All-Memᴰ p (q ∷ qs) h (head e) = subst P (sym e) h.0
  All-Memᴰ p (q ∷ qs) h (tail m) = All-Memᴰ p qs h.1 m

-- Every entry stands under the fingerprint of its peer.
abbrev pub IsKeyed : Peers → Type 0
IsKeyed = Every (λ k p. p.fingerprint ≡ k)

delete-Every_ne :
    (fp : Text) (m : Peers) → IsKeyed m → Every (λ k p. p.fingerprint ≢ fp) (delete fp m)
unfolding delete
delete-Every_ne fp [] h = tt
delete-Every_ne fp ((k, p) ∷ m) h =
    let rest = delete-Every_ne fp m h.1 in
    if_cases (Every (λ k p. p.fingerprint ≢ fp)) (k =t fp) (λ _. rest)
      (λ other. ((λ e. ground (arith, other, eq_self fp, ap (λ t. t =t fp) (sym h.0 ∙ e))), rest))

list_peers-ok :
    (io : Io) (m : Peers) (s : PeerStore)
    → (load_peers_map io s).0 ≡ ok m
    → (list_peers io s).0 ≡ sorted_peers m
unfolding list_peers
list_peers-ok io m s e = ground (arith, e)

-- A load reads nothing of the store but the peers.
loaded_of-peers :
    (m : Option Contents) (io : Io) (s t : PeerStore)
    → s.peers ≡ t.peers
    → (loaded_of m io s).0 ≡ (loaded_of m io t).0
loaded_of-peers (some c) io s t e = refl
loaded_of-peers none io s t e =
    ap
      (λ f.
        let r = restore_backup_if_missing io f in
        if r.0 then read_again r.1.main else err restore_failed)
      e

load-peers :
    (io : Io) (s t : PeerStore)
    → s.peers ≡ t.peers
    → (load_peers_map io s).0 ≡ (load_peers_map io t).0
unfolding load_peers_map
load-peers io s t e =
    ap (λ (f : File Contents). (loaded_of f.main io s).0) e ∙ loaded_of-peers t.peers.main io s t e

after_delete_went :
    (c : Check) (io : Io) (fp : Text) (s : PeerStore) → (after_delete c io fp s).0 ≡ none → c ≡ none
after_delete_went none io fp s e = refl
after_delete_went (some x) io fp s e = e

removed-ok :
    (io io' : Io) (fp : Text) (m : Peers) (s : PeerStore)
    → s.peers.main ≡ some (holds m)
    → io'.restored ≡ true
    → (remove_peer io fp s).0 ≡ none
    → (load_peers_map io' (remove_peer io fp s).1).0 ≡ ok (delete (key_of fp) m)
unfolding remove_peer
removed-ok io io' fp m s here r done =
    let u = mutate io (λ n. ok (delete (key_of fp) n)) s in
    let went = after_delete_went u.0 io (key_of fp) u.1 done in
    let same = after_delete-peers u.0 io (key_of fp) u.1 in
    load-peers io' (after_delete u.0 io (key_of fp) u.1).1 u.1 same
    ∙ elim (mutate-IsAtomic io io' (λ n. ok (delete (key_of fp) n)) m (delete (key_of fp) m) s here
        refl r) [ inl (e, f) ↦ f | inr (e, f) ↦ absurd (e went) ]

-- After a removal that succeeded no query is resolved to a peer with the fingerprint, where the file
-- held each peer under its own.
pub remove_peer-unresolved :
    (io io' : Io) (fp query : Text) (m : Peers) (s : PeerStore) (p : Peer)
    → s.peers.main ≡ some (holds m)
    → IsKeyed m
    → io'.restored ≡ true
    → (remove_peer io fp s).0 ≡ none
    → resolve_peer (list_peers io' (remove_peer io fp s).1).0 query ≡ found p
    → p.fingerprint ≢ key_of fp
remove_peer-unresolved io io' fp query m s p here keyed r done e =
    let left = list_peers-ok io' _ _ (removed-ok io io' fp m s here r done) in
    let named = resolve_peer-IsNamed (list_peers io' (remove_peer io fp s).1).0 query p e in
    let others =
      sorted-All (λ q. q.fingerprint ≢ key_of fp) _ (delete-Every_ne (key_of fp) m keyed) in
    All-Memᴰ (λ q. q.fingerprint ≢ key_of fp) p _ others (subst (Memᴰ p) left named.0)
