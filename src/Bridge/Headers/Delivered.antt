-- ===== src/Bridge/Headers/Delivered.antt =====
-- internal/bridge/session.go: what the filter lets through is what the checks have seen.
use tantu.Prelude.{
  true, false, ◌||◌, ◌≡◌, refl, ap, none, some, [], ◌∷◌, arith, inl, inr, Bool-cases, Option-cases,
  if_cases, if◌then◌else◌,
}
use tantu.Text.{Text, is_empty, ◌=t◌}
use tantu.Text.Laws.{eq_self, eq_sound}
use tantu.Text.Assoc.{lookup, put, lookup-put, Every, put-Every, Every-map}
use tantu.Bridge.Headers.{
  Headers, allowed_callback_relay_header, is_seen, with_header, fold_names,
  canonical_relay_header_map, canonical_header_key, delivers, delivered,
  filter_callback_relay_headers, sorted_headers, folded,
}

-- Each entry is what a lookup of its key gives: no key stands twice.
abbrev Owns : Headers → Type 0
Owns m = Every (λ k v. lookup k m ≡ some v) m

Owns-put : (k v : Text) (m : Headers) → lookup k m ≡ none → Owns m → Owns (put k v m)
Owns-put k v m new h =
    put-Every (λ j w. lookup j (put k v m) ≡ some w) k v m
      (ground (arith, lookup-put k k v m, eq_self k))
      (Every-map (λ j w. lookup j m ≡ some w) (λ j w. lookup j (put k v m) ≡ some w) m
        (λ j w e. elim (Bool-cases (k =t j)) [
          | inl same ↦ absurd (ground (arith, new, e, ap (λ t. lookup t m) (eq_sound k j same)))
          | inr other ↦ ground (arith, other, e, lookup-put k j v m)
        ])
        h)

Owns-with : (k v : Text) (m : Headers) → Owns m → Owns (with_header k v m)
Owns-with k v m h = elim (Option-cases (lookup k m)) [
  | inl new ↦ if_cases Owns (is_empty k || is_seen k m) (λ _. h) (λ _. Owns-put k v m new h)
  | inr (w, old) ↦
      if_cases Owns (is_empty k || is_seen k m) (λ _. h) (λ e. absurd (ground (arith, old, e)))
]

Owns-fold : (m out : Headers) → Owns out → Owns (fold_names m out)
unfolding fold_names
Owns-fold [] out h = h
Owns-fold ((k, v) ∷ m) out h =
    Owns-fold m (with_header (folded k) v out) (Owns-with (folded k) v out h)

-- A header that is delivered: its name is the canonical spelling of one that may cross, its value is
-- not empty, and it is the value that a lookup among the folded names gives.
abbrev pub IsDelivered : Headers → Text → Text → Type 0
IsDelivered m key value =
    (name : Text) × (key ≡ canonical_header_key name)
    × (allowed_callback_relay_header name ≡ true)
    × (is_empty value ≡ false)
    × (lookup name (canonical_relay_header_map m) ≡ some value)

module _ (whole : Headers) where
  delivered-Every :
      (m out : Headers)
      → Every (λ k v. lookup k (canonical_relay_header_map whole) ≡ some v) m
      → Every (IsDelivered whole) out
      → Every (IsDelivered whole) (delivered m out)
  unfolding delivered
  delivered-Every [] out h g = g
  delivered-Every ((k, v) ∷ m) out h g =
      delivered-Every m (if delivers k v then put (canonical_header_key k) v out else out) h.1 (
        if_cases (Every (IsDelivered whole)) (delivers k v)
          (λ e.
            put-Every (IsDelivered whole) (canonical_header_key k) v out
              (k, refl, ground (arith, e), ground (arith, e), h.0) g)
          (λ _. g))

-- Whatever headers a peer sends, each that is delivered to the local application has one of the four
-- names that may cross, in canonical spelling, and a value that is not empty and is the one that the
-- checks find under that name, however often and in whatever spelling the peer sent it.
pub filter_callback_relay_headers-IsDelivered :
    (m : Headers) → Every (IsDelivered m) (filter_callback_relay_headers m)
unfolding filter_callback_relay_headers
filter_callback_relay_headers-IsDelivered m =
    delivered-Every m (canonical_relay_header_map m) []
      (unfold canonical_relay_header_map in Owns-fold (sorted_headers m) [] tt) tt
