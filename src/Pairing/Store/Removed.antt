-- ===== src/Pairing/Store/Removed.antt =====
-- internal/pairing/store.go: a peer that was removed is not the active one again because it is paired
-- again.
use tantu.Prelude.{
  ℕ, Bool, true, false, ◌≡◌, ◌≢◌, refl, sym, ◌∙◌, ap, Option, none, some, List, [], ◌∷◌, arith, inl,
  inr, ◌⊎◌, Bool-cases, if_cases, All,
}
use tantu.Text.{Text, to_lower, trim_space, is_empty, equal_fold}
use tantu.Text.Laws.{to_lower_idem, equal_fold_lower}
use tantu.Text.Assoc.{delete}
use tantu.Pairing.Address.{Check}
use tantu.Pairing.Store.{
  Peers, Io, File, Selection, faulty, malformed, linked, names, Outcome, ok, PeerStore, mutate,
  load_peers_map, save_peers_map, key_of, checked_mutate,
}
use tantu.Pairing.Store.Edits.{defaulted}
use tantu.Pairing.Store.Active.{
  remove_active_peer, remove_peer, load_active_peer, clear_active_peer_if_matches, selected,
  selection_of, cleared_if_named, cleared_of, after_delete,
}
use tantu.Pairing.Store.Calls.{
  Call, adds, updates, confirms, renames, defaults, removes, selects, gets, clears, loads, call,
  run,
}

load-active : (io : Io) (s : PeerStore) → (load_peers_map io s).1.active ≡ s.active
unfolding load_peers_map
load-active io s = ground arith

mutate-active :
    (io : Io) (change : Peers → Outcome Peers) (s : PeerStore)
    → (mutate io change s).1.active ≡ s.active
unfolding mutate save_peers_map
mutate-active io change s = ground (arith, load-active io s)

checked-active :
    (c : Check) (io : Io) (change : Peers → Outcome Peers) (s : PeerStore)
    → (checked_mutate c io change s).1.active ≡ s.active
unfolding checked_mutate
checked-active (some e) io change s = refl
checked-active none io change s = mutate-active io change s

abbrev text_of : Option Selection → Text
text_of (some (names t)) = t
text_of _ = []

-- The selection is as it was, or gone.
abbrev Kept : PeerStore → PeerStore → Type 0
Kept s s' = (s'.active.main ≡ s.active.main) ⊎ (s'.active.main ≡ none)

checked-Kept :
    (c : Check) (io : Io) (change : Peers → Outcome Peers) (s : PeerStore)
    → Kept s (checked_mutate c io change s).1
checked-Kept c io change s =
    inl (ap (λ (f : File Selection). f.main) (checked-active c io change s))

remove_active-Kept : (io : Io) (s : PeerStore) → Kept s (remove_active_peer io s).1
unfolding remove_active_peer
remove_active-Kept io s = ground arith

cleared_if_named-Kept :
    (io : Io) (fp t : Text) (s : PeerStore) → Kept s (cleared_if_named io fp s t).1
cleared_if_named-Kept io fp t s = ground (arith, remove_active-Kept io s)

if_matches-Kept :
    (io : Io) (fp : Text) (s : PeerStore) → Kept s (clear_active_peer_if_matches io fp s).1
unfolding clear_active_peer_if_matches
if_matches-Kept io fp s = ground (arith, remove_active-Kept io s)

remove-Kept : (io : Io) (fp : Text) (s : PeerStore) → Kept s (remove_peer io fp s).1
unfolding remove_peer
remove-Kept io fp s = ground (
  arith,
  mutate-active io (λ m. ok (delete (key_of fp) m)) s,
  if_matches-Kept io (key_of fp) (mutate io (λ m. ok (delete (key_of fp) m)) s).1,
)

selected-Kept : (fp : Text) (s : PeerStore) (io : Io) → Kept s (selected fp s io).1
selected-Kept fp s io =
    ground (arith, load-active io s, remove_active-Kept io (load_peers_map io s).1)

selection-Kept : (m : Option Selection) (s : PeerStore) (io : Io) → Kept s (selection_of m s io).1
selection-Kept none s io = inl refl
selection-Kept (some faulty) s io = inl refl
selection-Kept (some malformed) s io = inl refl
selection-Kept (some (linked t)) s io = inl refl
selection-Kept (some (names t)) s io = selected-Kept (key_of t) s io

load_active-Kept : (io : Io) (s : PeerStore) → Kept s (load_active_peer io s).1
unfolding load_active_peer
load_active-Kept io s = ground (arith, selection-Kept s.active.main s io)

abbrev pub is_selection : Call → Bool
is_selection (selects fp) = true
is_selection _ = false

abbrev pub NoSelection : List (Io × ℕ × Call) → Type 0
NoSelection = All (λ c. is_selection c.2 ≡ false)

module _ (is_ip : Text → Bool) (cert_fingerprint : Text → Option Text) where
  call-Kept :
      (io : Io) (now : ℕ) (c : Call) (s : PeerStore)
      → is_selection c ≡ false
      → Kept s (call is_ip cert_fingerprint io now c s)
  unfolding call
  call-Kept io now (adds p) s h = checked-Kept _ io _ s
  call-Kept io now (updates fp a) s h = checked-Kept _ io _ s
  call-Kept io now (confirms fp a) s h =
      if_cases (λ (r : (Bool × Check) × PeerStore). Kept s r.1) (is_empty (trim_space a))
        (λ _. inl refl) (λ _. checked-Kept _ io _ s)
  call-Kept io now (renames fp a) s h = checked-Kept _ io _ s
  call-Kept io now (defaults fp) s h = checked-Kept none io (defaulted (key_of fp)) s
  call-Kept io now (removes fp) s h = remove-Kept io fp s
  call-Kept io now (selects fp) s h = absurd cc
  call-Kept io now (gets fp) s h = inl (ground (arith, load-active io s))
  call-Kept io now clears s h = ground (arith, remove_active-Kept io s)
  call-Kept io now loads s h = load_active-Kept io s

  abbrev Free : Text → PeerStore → Type 0
  Free fp s = (t : Text) → s.active.main ≡ some (names t) → key_of t ≢ fp

  Free-Kept : (fp : Text) (s s' : PeerStore) → Kept s s' → Free fp s → Free fp s'
  Free-Kept fp s s' (inl same) h t e = h t (sym same ∙ e)
  Free-Kept fp s s' (inr gone) h t e = absurd (ground (arith, gone, e))

  run-Free :
      (fp : Text) (cs : List (Io × ℕ × Call)) (s : PeerStore)
      → NoSelection cs
      → Free fp s
      → Free fp (run is_ip cert_fingerprint cs s)
  unfolding run
  run-Free fp [] s n h = h
  run-Free fp ((io, now, c) ∷ cs) s n h =
      run-Free fp cs (call is_ip cert_fingerprint io now c s) n.1
        (Free-Kept fp s (call is_ip cert_fingerprint io now c s) (call-Kept io now c s n.0) h)

  cleared_if_named-Free :
      (io : Io) (fp t : Text) (s : PeerStore)
      → s.active.main ≡ some (names t)
      → to_lower fp ≡ fp
      → (cleared_if_named io fp s t).0 ≡ none
      → Free fp (cleared_if_named io fp s t).1
  unfolding remove_active_peer
  cleared_if_named-Free io fp t s here low done u e same =
      elim (Bool-cases (equal_fold (trim_space t) fp)) [
        | inl m ↦ absurd (ground (arith, m, here, done, e))
        | inr m ↦
            let back : s.active.main ≡ some (names u) = ground (arith, m, e) in
            let there : u ≡ t = ap text_of (sym back ∙ here) in
            absurd (
              ground
                (arith, m, equal_fold_lower (trim_space t) fp (ap key_of (sym there) ∙ same) low))
      ]

  if_matches-Free :
      (m : Option Selection) (io : Io) (fp : Text) (s : PeerStore)
      → s.active.main ≡ m
      → to_lower fp ≡ fp
      → (cleared_of m io fp s).0 ≡ none
      → Free fp (cleared_of m io fp s).1
  if_matches-Free none io fp s here low done t e = absurd (ground (arith, here, e))
  if_matches-Free (some faulty) io fp s here low done t e = absurd cc
  if_matches-Free (some malformed) io fp s here low done t e = absurd (ground (arith, here, e))
  if_matches-Free (some (linked u)) io fp s here low done t e =
      absurd (ground (arith, here, e, cleared_if_named-Kept io fp u s))
  if_matches-Free (some (names u)) io fp s here low done t e =
      cleared_if_named-Free io fp u s here low done t e

  after_delete-Free :
      (c : Check) (io : Io) (fp : Text) (s : PeerStore)
      → to_lower fp ≡ fp
      → (after_delete c io fp s).0 ≡ none
      → Free fp (after_delete c io fp s).1
  unfolding clear_active_peer_if_matches
  after_delete-Free (some x) io fp s low done = absurd (ground (arith, done))
  after_delete-Free none io fp s low done = if_matches-Free s.active.main io fp s refl low done

  remove-Free :
      (io : Io) (fp : Text) (s : PeerStore)
      → (remove_peer io fp s).0 ≡ none
      → Free (key_of fp) (remove_peer io fp s).1
  unfolding remove_peer
  remove-Free io fp s done =
      let u = mutate io (λ m. ok (delete (key_of fp) m)) s in
      after_delete-Free u.0 io (key_of fp) u.1 (to_lower_idem (trim_space fp)) done

  selection-ne :
      (m : Option Selection) (s : PeerStore) (io : Io) (fp : Text)
      → ((t : Text) → m ≡ some (names t) → key_of t ≢ fp)
      → is_empty fp ≡ false
      → (selection_of m s io).0 ≢ ok fp
  selection-ne none s io fp h n e = ground (arith, n, e)
  selection-ne (some faulty) s io fp h n e = cc
  selection-ne (some malformed) s io fp h n e = cc
  selection-ne (some (linked t)) s io fp h n e = cc
  selection-ne (some (names t)) s io fp h n e = ground (arith, h t refl, n, e)

  -- After a removal that succeeded, no calls make LoadActivePeer report the peer as the active one,
  -- pairing with it again included, unless a selection is saved.
  pub remove_peer-unselected :
      (io io' : Io) (fp : Text) (cs : List (Io × ℕ × Call)) (s : PeerStore)
      → is_empty (key_of fp) ≡ false
      → (remove_peer io fp s).0 ≡ none
      → NoSelection cs
      → (load_active_peer io' (run is_ip cert_fingerprint cs (remove_peer io fp s).1)).0
        ≢ ok (key_of fp)
  unfolding load_active_peer
  remove_peer-unselected io io' fp cs s k done n e =
      let t = run is_ip cert_fingerprint cs (remove_peer io fp s).1 in
      let free : Free (key_of fp) t =
        run-Free (key_of fp) cs (remove_peer io fp s).1 n (remove-Free io fp s done) in
      let kept = selection-ne t.active.main t io' (key_of fp) free k in ground (arith, kept, e)
