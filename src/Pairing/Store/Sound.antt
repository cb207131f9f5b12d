-- ===== src/Pairing/Store/Sound.antt =====
-- internal/pairing/store.go: what every call keeps of the peers on disk.
use mathlib.Core.Option.{some-injective}
use tantu.Prelude.{
  ℕ, true, false, ◌≡◌, refl, sym, ◌∙◌, ap, subst, Option, none, some, [], ◌∷◌, arith, inl, inr, ◌⊎◌,
  Bool-cases,
}
use tantu.Text.{Text, ◌=t◌}
use tantu.Text.Assoc.{lookup, put, delete, lookup-put, lookup-delete}
use tantu.Text.Laws.{eq_sound}
use tantu.Pairing.Address.{peer_not_found}
use tantu.Pairing.Store.{Peer, Peers, Outcome, ok, err, at_peer}
use tantu.Pairing.Store.Edits.{merged, with_peer, confirmed, only_default, defaulted}
use tantu.Pairing.Store.Held.{Gives}

-- Every entry stands under the fingerprint of its peer, and at most one is the default.
pub record IsSound (m : Peers) : Type 0 where
  pub keyed : (k : Text) (p : Peer) → lookup k m ≡ some p → p.fingerprint ≡ k
  pub one :
      (k j : Text) (p q : Peer)
      → lookup k m ≡ some p
      → lookup j m ≡ some q
      → p.is_default ≡ true
      → q.is_default ≡ true
      → k ≡ j

pub no_peers-IsSound : IsSound []
unfolding lookup
no_peers-IsSound = record { keyed = λ k p e. absurd cc; one = λ k j p q e f d g. absurd cc }

-- An entry of `put`: the new one, or one that stood there.
put-cases :
    (fp k : Text) (n p : Peer) (m : Peers)
    → lookup k (put fp n m) ≡ some p
    → ((fp ≡ k) × (n ≡ p)) ⊎ (lookup k m ≡ some p)
put-cases fp k n p m e = elim (Bool-cases (fp =t k)) [
  | inl same ↦
      inl (eq_sound fp k same, some-injective n p (ground (arith, same, e, lookup-put fp k n m)))
  | inr other ↦ inr (ground (arith, other, e, lookup-put fp k n m))
]

-- An entry that keeps its fingerprint, and is the default only where it was before.
put-IsSound :
    (fp : Text) (n : Peer) (m : Peers)
    → IsSound m
    → n.fingerprint ≡ fp
    → (n.is_default ≡ true → (p : Peer) × (lookup fp m ≡ some p) × (p.is_default ≡ true))
    → IsSound (put fp n m)
put-IsSound fp n m h key default = record {
  keyed = λ k p e. elim (put-cases fp k n p m e) [
    | inl (same, new) ↦ subst (λ (q : Peer). q.fingerprint ≡ k) new (key ∙ same)
    | inr old ↦ h.keyed k p old
  ];
  one = λ k j p q e f d g. elim (put-cases fp k n p m e) [
    | inl (same, new) ↦ elim (put-cases fp j n q m f) [
      | inl (same', new') ↦ sym same ∙ same'
      | inr old' ↦
          let (o, at, was) = default (subst (λ (r : Peer). r.is_default ≡ true) (sym new) d) in
          sym same ∙ h.one fp j o q at old' was g
    ]
    | inr old ↦ elim (put-cases fp j n q m f) [
      | inl (same', new') ↦
          let (o, at, was) = default (subst (λ (r : Peer). r.is_default ≡ true) (sym new') g) in
          h.one k fp p o old at d was ∙ same'
      | inr old' ↦ h.one k j p q old old' d g
    ]
  ];
}

pub delete-IsSound : (fp : Text) (m : Peers) → IsSound m → IsSound (delete fp m)
delete-IsSound fp m h =
    let back : (k : Text) (p : Peer) → lookup k (delete fp m) ≡ some p → lookup k m ≡ some p =
      λ k p e. ground (arith, e, lookup-delete fp k m) in
    record {
      keyed = λ k p e. h.keyed k p (back k p e);
      one = λ k j p q e f d g. h.one k j p q (back k p e) (back j q f) d g;
    }

pub at_peer-IsSound :
    (fp : Text) (change : Peer → Peer)
    → ((p : Peer)
        → ((change p).fingerprint ≡ p.fingerprint) × ((change p).is_default ≡ p.is_default))
    → (m : Peers) → IsSound m
    → Gives IsSound (at_peer fp change m)
unfolding at_peer
at_peer-IsSound fp change same m h =
    elim (lookup fp m)
        as (λ o.
          lookup fp m ≡ o
          → Gives IsSound (elim o as (λ _. Outcome Peers) [
            | none ↦ err peer_not_found
            | some p ↦ ok (put fp (change p) m)
          ])) [
            | none ↦ λ _. tt
            | some p ↦ λ e.
                put-IsSound fp (change p) m h ((same p).0 ∙ h.keyed fp p e)
                  (λ d. (p, e, sym (same p).1 ∙ d))
          ]
      refl

merged-fingerprint :
    (now : ℕ) (o : Option Peer) (p : Peer) → (merged now o p).fingerprint ≡ p.fingerprint
unfolding merged
merged-fingerprint now none p = refl
merged-fingerprint now (some e) p = refl

merged_default :
    (now : ℕ) (o : Option Peer) (p : Peer)
    → p.is_default ≡ false
    → (merged now o p).is_default ≡ true
    → (e : Peer) × (o ≡ some e) × (e.is_default ≡ true)
unfolding merged
merged_default now none p n d = absurd (ground (arith, n, d))
merged_default now (some e) p n d = (e, refl, ground (arith, n, d))

pub with_peer-IsSound :
    (now : ℕ) (p : Peer)
    → p.is_default ≡ false
    → (m : Peers) → IsSound m
    → Gives IsSound (with_peer now p m)
unfolding with_peer
with_peer-IsSound now p n m h =
    let old = lookup p.fingerprint m in
    put-IsSound p.fingerprint (merged now old p) m h (merged-fingerprint now old p)
      (merged_default now old p n)

pub confirmed_same :
    (now : ℕ) (seen : Text) (p : Peer)
    → ((confirmed now seen p).fingerprint ≡ p.fingerprint)
      × ((confirmed now seen p).is_default ≡ p.is_default)
unfolding confirmed
confirmed_same now seen p = ground arith

lookup-only_default :
    (fp k : Text) (p : Peer) (m : Peers)
    → lookup k (only_default fp m) ≡ some p
    → (q : Peer) × (lookup k m ≡ some q)
      × (p.fingerprint ≡ q.fingerprint)
      × (p.is_default ≡ (k =t fp))
unfolding only_default lookup
lookup-only_default fp k p [] e = absurd cc
lookup-only_default fp k p ((j, q) ∷ m) e = elim (Bool-cases (j =t k)) [
  | inl same ↦
      let here : record q { is_default = j =t fp } ≡ p =
        some-injective _ p (ground (arith, same, e)) in
      (
        q,
        ground (arith, same),
        sym (ap (λ (r : Peer). r.fingerprint) here),
        sym (ap (λ (r : Peer). r.is_default) here) ∙ ap (λ t. t =t fp) (eq_sound j k same),
      )
  | inr other ↦
      let (o, at, f, d) = lookup-only_default fp k p m (ground (arith, other, e)) in
      (o, ground (arith, other, at), f, d)
]

only_default-IsSound : (fp : Text) (m : Peers) → IsSound m → IsSound (only_default fp m)
only_default-IsSound fp m h = record {
  keyed = λ k p e. let (q, at, f, d) = lookup-only_default fp k p m e in f ∙ h.keyed k q at;
  one = λ k j p q e f d g.
      let (_, _, _, x) = lookup-only_default fp k p m e in
      let (_, _, _, y) = lookup-only_default fp j q m f in
      eq_sound k fp (sym x ∙ d) ∙ sym (eq_sound j fp (sym y ∙ g));
}

pub defaulted-IsSound : (fp : Text) (m : Peers) → IsSound m → Gives IsSound (defaulted fp m)
unfolding defaulted
defaulted-IsSound fp m h =
    elim (lookup fp m)
      as (λ o. Gives IsSound (elim o as (λ _. Outcome Peers) [
        | none ↦ err peer_not_found
        | some p ↦ ok (only_default fp m)
      ])) [ none ↦ tt | some p ↦ only_default-IsSound fp m h ]
