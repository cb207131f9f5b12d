-- ===== src/Drop/Tombstones/Found.antt =====
-- internal/drop/tombstone.go: what is recorded is found again.
use mathlib.Core.Option.{some-injective}
use tantu.Prelude.{
  ℕ, ◌≤◌, ◌<◌, ◌≡◌, refl, sym, subst, ap, inl, inr, ◌∙◌, Bool, false, ◌&&◌, some, List, [], ◌∷◌,
  ltb, ◌==◌, if◌then◌else◌, length, arith, Bool-cases, if_cases, ℤ, pos, pos_part, is_positive,
}
use tantu.Text.{Text, ◌=t◌}
use tantu.Text.Laws.{eq_self}
use tantu.Text.Assoc.{lookup, put, lookup-put}
use tantu.Drop.Tombstones.{
  TombstoneEntry, Tombstones, max_tombstone_entries, is_blank, lookup_entry, is_expired,
  drop_expired, drop_oldest, prune, dated, record_entry, count,
}
use tantu.Drop.Tombstones.Bound.{length-drop_expired, put_longer}

not_expired :
    (now max_age : ℕ) (e : TombstoneEntry)
    → is_expired now max_age (record e { completed_at = now }) ≡ false
unfolding is_expired
not_expired now max_age e = ground arith

drop_expired-lookup :
    (now max_age : ℕ) (k : Text) (e : TombstoneEntry) (m : List (Text × TombstoneEntry))
    → lookup k m ≡ some e
    → is_expired now max_age e ≡ false
    → lookup k (drop_expired now max_age m) ≡ some e
unfolding drop_expired lookup
drop_expired-lookup now max_age k e [] h fresh = absurd cc
drop_expired-lookup now max_age k e ((j, x) ∷ m) h fresh =
    elim (Bool-cases (is_expired now max_age x)) [
      | inr live ↦ rw live (ground (arith, h, drop_expired-lookup now max_age k e m))
      | inl old ↦ rw old (elim (Bool-cases (j =t k)) [
        | inr other ↦ drop_expired-lookup now max_age k e m (ground (arith, h, other)) fresh
        | inl same ↦
            let is_e = some-injective x e (ground (arith, h, same)) in
            let live : is_expired now max_age x ≡ false =
              subst (λ y. is_expired now max_age y ≡ false) (sym is_e) fresh in
            cc
      ])
    ]

no_excess :
    (max : ℤ) (m : List (Text × TombstoneEntry))
    → max ≡ pos max_tombstone_entries
    → length m ≤ max_tombstone_entries
    → (if is_positive max && ltb (pos_part max) (length m) then drop_oldest (pos_part max) m else m)
      ≡ m
no_excess max m e h = rw e (
    if_cases (λ (xs : List (Text × TombstoneEntry)). xs ≡ m) (ltb max_tombstone_entries (length m))
      (λ l. absurd (ground (arith, l, h))) (λ _. refl))

prune-lookup :
    (now : ℕ) (s : Tombstones) (k : Text) (e : TombstoneEntry)
    → s.max_entries ≡ pos max_tombstone_entries
    → length s.entries ≤ max_tombstone_entries
    → ((max_age : ℕ) → is_expired now max_age e ≡ false)
    → lookup k s.entries ≡ some e
    → lookup k (prune now s).entries ≡ some e
unfolding prune
prune-lookup now s k e bound short fresh h =
    let m =
      if is_positive s.max_age
      then drop_expired now (pos_part s.max_age) s.entries
      else s.entries in
    let there : lookup k m ≡ some e =
      if_cases (λ (xs : List (Text × TombstoneEntry)). lookup k xs ≡ some e) (is_positive s.max_age)
        (λ _.
          drop_expired-lookup now (pos_part s.max_age) k e s.entries h (fresh (pos_part s.max_age)))
        (λ _. h) in
    let fewer : length m ≤ max_tombstone_entries =
      if_cases (λ (xs : List (Text × TombstoneEntry)). length xs ≤ max_tombstone_entries)
        (is_positive s.max_age)
        (λ _. omega (arith, length-drop_expired now (pos_part s.max_age) s.entries, short))
        (λ _. short) in
    rw (no_excess s.max_entries m bound fewer) there

-- A completion that is recorded while the store has room is found again under its key, dated.
pub lookup_entry-record_entry :
    (now : ℕ) (fails : Bool) (s : Tombstones) (e : TombstoneEntry)
    → is_blank e.key ≡ false
    → e.completed_at ≡ 0
    → s.max_entries ≡ pos max_tombstone_entries
    → count s < max_tombstone_entries
    → lookup_entry (record_entry now fails s e) e.key ≡ some (record e { completed_at = now })
unfolding lookup_entry record_entry dated count
lookup_entry-record_entry now fails s e named unset bound room =
    let e' : TombstoneEntry = record e { completed_at = now } in
    let m = put e.key (dated now e) s.entries in
    let stamp : dated now e ≡ e' =
      ap (λ (t : ℕ). record e { completed_at = if t == 0 then now else t }) unset in
    let there : lookup e.key m ≡ some e' =
      lookup-put e.key e.key (dated now e) s.entries ∙ rw (eq_self e.key) (ap some stamp) in
    rw named (
      prune-lookup now (record s { entries = m }) e.key e' bound
        (omega (arith, put_longer e.key (dated now e) s.entries, room))
        (λ max_age. not_expired now max_age e) there)
