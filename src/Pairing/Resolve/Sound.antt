-- ===== src/Pairing/Resolve/Sound.antt =====
-- internal/pairing/store.go: ResolvePeer names a stored peer that the query fits, and does not choose
-- between peers that a fingerprint prefix or a code fits.
use mathlib.Core.List.{Memᴰ}
use mathlib.Core.List.Memᴰ.{head, tail}
use tantu.Prelude.{
  Bool, true, false, ◌≡◌, refl, sym, ap, subst, ◌∙◌, Option, none, some, List, [], ◌∷◌, arith, ◌⊎◌,
  inl, inr, Bool-cases, if_cases, All,
}
use tantu.Text.{Text, is_empty, trim_space, equal_fold}
use tantu.Text.Laws.{equal_fold_self, equal_fold_sym}
use tantu.Pairing.Store.{Peer}
use tantu.Pairing.Resolve.{
  first_where, all_where, Resolved, found, unknown, has_fingerprint, has_fingerprint_prefix,
  has_sas, has_alias, has_name, has_address, or_find, by_label, by_code, by_default, only_peer,
  resolve_peer,
}

-- What a peer that is found satisfies.
module _ (P : Peer → Type 0) where
  abbrev pub Finds : Resolved → Type 0
  Finds (found p) = P p
  Finds _ = Unit

  abbrev pub Sees : Option Peer → Type 0
  Sees none = Unit
  Sees (some p) = P p

  first_where-Sees :
      (test : Peer → Bool) (ps : List Peer)
      → ((p : Peer) → Memᴰ p ps → test p ≡ true → P p)
      → Sees (first_where test ps)
  unfolding first_where
  first_where-Sees test [] h = tt
  first_where-Sees test (p ∷ ps) h =
      if_cases Sees (test p) (λ e. h p (head refl) e)
        (λ _. first_where-Sees test ps (λ q m e. h q (tail m) e))

  all_where-All :
      (test : Peer → Bool) (ps : List Peer)
      → ((p : Peer) → Memᴰ p ps → test p ≡ true → P p)
      → All P (all_where test ps)
  unfolding all_where
  all_where-All test [] h = tt
  all_where-All test (p ∷ ps) h =
      let rest = all_where-All test ps (λ q m e. h q (tail m) e) in
      if_cases (All P) (test p) (λ e. (h p (head refl) e, rest)) (λ _. rest)

  or_find-Finds : (o : Option Peer) (r : Resolved) → Sees o → Finds r → Finds (or_find o r)
  or_find-Finds none r h k = k
  or_find-Finds (some p) r h k = h

  by_code-Finds :
      (ps cs : List Peer) (r : Resolved) → All P ps → All P cs → Finds r → Finds (by_code ps cs r)
  unfolding by_code
  by_code-Finds (p ∷ p' ∷ ps) cs r h k n = tt
  by_code-Finds [] [] r h k n = n
  by_code-Finds [] (c ∷ []) r h k n = k.0
  by_code-Finds [] (c ∷ c' ∷ cs) r h k n = tt
  by_code-Finds (p ∷ []) [] r h k n = h.0
  by_code-Finds (p ∷ []) (c ∷ []) r h k n =
      if_cases Finds (equal_fold p.fingerprint c.fingerprint) (λ _. h.0) (λ _. tt)
  by_code-Finds (p ∷ []) (c ∷ c' ∷ cs) r h k n = tt

-- How a text names a peer.
pub data Fits (q : Text) (p : Peer) : Type 0 where
  fingerprint : has_fingerprint q p ≡ true → Fits q p
  prefix : has_fingerprint_prefix q p ≡ true → Fits q p
  sas_code : has_sas q p ≡ true → Fits q p
  alias : has_alias q p ≡ true → Fits q p
  name : has_name q p ≡ true → Fits q p
  address : has_address q p ≡ true → Fits q p

-- How a query names a peer of the list: a blank one the default or the only peer.
abbrev pub IsNamed : Text → List Peer → Peer → Type 0
IsNamed q ps p =
    Memᴰ p ps
    × (((is_empty q ≡ true) × ((p.is_default ≡ true) ⊎ (ps ≡ p ∷ [])))
        ⊎ ((is_empty q ≡ false) × Fits q p))

module _ (q : Text) where
  only_peer-Finds : (ps : List Peer) → is_empty q ≡ true → Finds (IsNamed q ps) (only_peer ps)
  only_peer-Finds [] n = tt
  only_peer-Finds (p ∷ []) n = (head refl, inl (n, inr refl))
  only_peer-Finds (p ∷ p' ∷ ps) n = tt

  by_default-Finds : (ps : List Peer) → is_empty q ≡ true → Finds (IsNamed q ps) (by_default ps)
  unfolding by_default
  by_default-Finds ps n =
      or_find-Finds (IsNamed q ps) _ _
        (first_where-Sees (IsNamed q ps) (λ p. p.is_default) ps (λ p m e. (m, inl (n, inl e))))
        (only_peer-Finds ps n)

  by_label-Finds : (ps : List Peer) → is_empty q ≡ false → Finds (IsNamed q ps) (by_label q ps)
  unfolding by_label
  by_label-Finds ps n =
      let seen = first_where-Sees (IsNamed q ps) in
      or_find-Finds (IsNamed q ps) _ _ (seen (has_alias q) ps (λ p m e. (m, inr (n, alias e)))) (
        or_find-Finds (IsNamed q ps) _ _ (seen (has_name q) ps (λ p m e. (m, inr (n, name e)))) (
          or_find-Finds (IsNamed q ps) _ unknown
            (seen (has_address q) ps (λ p m e. (m, inr (n, address e)))) tt))

resolve_peer-Finds :
    (ps : List Peer) (query : Text) → Finds (IsNamed (trim_space query) ps) (resolve_peer ps query)
unfolding resolve_peer
resolve_peer-Finds [] query = tt
resolve_peer-Finds (p ∷ ps) query =
    let q = trim_space query in
    let all = p ∷ ps in
    if_cases (Finds (IsNamed q all)) (is_empty q) (λ n. by_default-Finds q all n)
      (λ n.
        or_find-Finds (IsNamed q all) _ _
          (first_where-Sees (IsNamed q all) (has_fingerprint q) all
            (λ x m e. (m, inr (n, fingerprint e))))
          (by_code-Finds (IsNamed q all) _ _ _
            (all_where-All (IsNamed q all) (has_fingerprint_prefix q) all
              (λ x m e. (m, inr (n, prefix e))))
            (all_where-All (IsNamed q all) (has_sas q) all (λ x m e. (m, inr (n, sas_code e))))
            (by_label-Finds q all n)))

-- A query is resolved only to a stored peer that it names: a blank one to the default or to the only
-- peer, another to one whose fingerprint, prefix of it, code, alias, name or address it is.
pub resolve_peer-IsNamed :
    (ps : List Peer) (query : Text) (p : Peer)
    → resolve_peer ps query ≡ found p
    → IsNamed (trim_space query) ps p
resolve_peer-IsNamed ps query p e =
    subst (Finds (IsNamed (trim_space query) ps)) e (resolve_peer-Finds ps query)

Memᴰ-all_where :
    (test : Peer → Bool) (x : Peer) (ps : List Peer)
    → Memᴰ x ps
    → test x ≡ true
    → Memᴰ x (all_where test ps)
unfolding all_where
Memᴰ-all_where test x [] m t = elim m [ ]
Memᴰ-all_where test x (p ∷ ps) (head e) t = rw (ap test (sym e) ∙ t) (head e)
Memᴰ-all_where test x (p ∷ ps) (tail m) t =
    let rest = Memᴰ-all_where test x ps m t in
    if_cases (Memᴰ x) (test p) (λ _. tail rest) (λ _. rest)

abbrev peer_of : Peer → Resolved → Peer
peer_of p (found q) = q
peer_of p _ = p

only_one : (x a : Peer) → Memᴰ x (a ∷ []) → x ≡ a
only_one x a (head e) = e
only_one x a (tail m) = elim m [ ]

-- The peers that are one up to the fingerprint of the one that is found.
abbrev Same : Peer → Peer → Type 0
Same x p = equal_fold x.fingerprint p.fingerprint ≡ true

Same-found : (x a p : Peer) → Same x a → found a ≡ found p → Same x p
Same-found x a p h e = subst (Same x) (ap (peer_of a) e) h

Same-eq : (x a : Peer) → x ≡ a → Same x a
Same-eq x a e = subst (Same x) e (equal_fold_self x.fingerprint)

by_code-Same :
    (ps cs : List Peer) (r : Resolved) (p x : Peer)
    → by_code ps cs r ≡ found p
    → Memᴰ x ps ⊎ Memᴰ x cs
    → Same x p
unfolding by_code
by_code-Same (a ∷ b ∷ ps) cs r p x e m = absurd cc
by_code-Same [] [] r p x e (inl m) = elim m [ ]
by_code-Same [] [] r p x e (inr m) = elim m [ ]
by_code-Same [] (c ∷ []) r p x e (inl m) = elim m [ ]
by_code-Same [] (c ∷ []) r p x e (inr m) = Same-found x c p (Same-eq x c (only_one x c m)) e
by_code-Same [] (c ∷ d ∷ cs) r p x e m = absurd cc
by_code-Same (a ∷ []) [] r p x e (inl m) = Same-found x a p (Same-eq x a (only_one x a m)) e
by_code-Same (a ∷ []) [] r p x e (inr m) = elim m [ ]
by_code-Same (a ∷ []) (c ∷ []) r p x e m =
    elim (Bool-cases (equal_fold a.fingerprint c.fingerprint)) [
      | inl h ↦
          let sure : found a ≡ found p = ground (arith, h, e) in
          elim m [
            | inl k ↦ Same-found x a p (Same-eq x a (only_one x a k)) sure
            | inr k ↦
                Same-found x a p
                  (subst (λ (y : Peer). Same y a) (sym (only_one x c k))
                    (equal_fold_sym a.fingerprint c.fingerprint h))
                  sure
          ]
      | inr h ↦ absurd (ground (arith, h, e))
    ]
by_code-Same (a ∷ []) (c ∷ d ∷ cs) r p x e m = absurd cc

-- Where no fingerprint is the query itself, the peer that is found is the only one, up to its
-- fingerprint, that the query is a prefix or a code of.
pub resolve_peer-IsUnambiguous :
    (ps : List Peer) (query : Text) (p x : Peer)
    → is_empty (trim_space query) ≡ false
    → first_where (has_fingerprint (trim_space query)) ps ≡ none
    → resolve_peer ps query ≡ found p
    → Memᴰ x ps
    → (has_fingerprint_prefix (trim_space query) x ≡ true) ⊎ (has_sas (trim_space query) x ≡ true)
    → equal_fold x.fingerprint p.fingerprint ≡ true
unfolding resolve_peer
resolve_peer-IsUnambiguous [] query p x n exact e m t = absurd cc
resolve_peer-IsUnambiguous (a ∷ ps) query p x n exact e m t =
    let q = trim_space query in
    let all = a ∷ ps in
    let prefixed = all_where (has_fingerprint_prefix q) all in
    let coded = all_where (has_sas q) all in
    by_code-Same prefixed coded (by_label q all) p x (ground (arith, n, exact, e)) (elim t [
      | inl h ↦ inl (Memᴰ-all_where (has_fingerprint_prefix q) x all m h)
      | inr h ↦ inr (Memᴰ-all_where (has_sas q) x all m h)
    ])
