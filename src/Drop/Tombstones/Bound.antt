-- ===== src/Drop/Tombstones/Bound.antt =====
-- internal/drop/tombstone.go: how many completions are remembered.
use tantu.Prelude.{
  ℕ, suc, ◌+◌, ◌-◌, ◌≤◌, ◌≡◌, refl, sym, subst, ap, inl, inr, ◌∙◌, Bool, false, ◌||◌, ◌&&◌, some,
  List, [], ◌∷◌, ltb, ltb→lt, if◌then◌else◌, length, take, arith, if_cases, All, ℤ, pos, pos_part,
  is_positive,
}
use tantu.Text.{Text, is_empty}
use tantu.Text.Assoc.{put, length-put, Every, put-Every, Hits, Hits-Every}
use tantu.Drop.Tombstones.{
  TombstoneEntry, Tombstones, max_tombstone_entries, tombstone_retention, is_blank, is_expired,
  drop_expired, insert_by_time, sort_by_time, delete_each, drop_oldest, prune, dated, record_entry,
  load_entries, new_tombstones, count,
}
use tantu.Drop.Tombstones.Recorded.{
  Write, record_all, load_entries-Every, prune-Every, drop_expired-Every,
}

pub length-drop_expired :
    (now max_age : ℕ) (m : List (Text × TombstoneEntry))
    → length (drop_expired now max_age m) ≤ length m
unfolding drop_expired
length-drop_expired now max_age [] = omega arith
length-drop_expired now max_age ((k, e) ∷ m) =
    if_cases (λ (xs : List (Text × TombstoneEntry)). length xs ≤ suc (length m))
      (is_expired now max_age e) (λ _. omega (arith, length-drop_expired now max_age m))
      (λ _. omega (arith, length-drop_expired now max_age m))

length-insert :
    (e : TombstoneEntry) (xs : List TombstoneEntry) → length (insert_by_time e xs) ≡ suc (length xs)
unfolding insert_by_time
length-insert e [] = refl
length-insert e (x ∷ xs) =
    if_cases (λ (ys : List TombstoneEntry). length ys ≡ suc (suc (length xs)))
      (ltb x.completed_at e.completed_at) (λ _. ap suc (length-insert e xs)) (λ _. refl)

length-sort : (m : List (Text × TombstoneEntry)) → length (sort_by_time m) ≡ length m
unfolding sort_by_time
length-sort [] = refl
length-sort ((k, e) ∷ m) = length-insert e (sort_by_time m) ∙ ap suc (length-sort m)

module _ (P : TombstoneEntry → Type 0) where
  insert-All :
      (e : TombstoneEntry) (xs : List TombstoneEntry) → P e → All P xs → All P (insert_by_time e xs)
  unfolding insert_by_time
  insert-All e [] p h = (p, tt)
  insert-All e (x ∷ xs) p h =
      if_cases (All P) (ltb x.completed_at e.completed_at) (λ _. (h.0, insert-All e xs p h.1))
        (λ _. (p, h))

  sort-All : (m : List (Text × TombstoneEntry)) → Every (λ k e. P e) m → All P (sort_by_time m)
  unfolding sort_by_time
  sort-All [] h = tt
  sort-All ((k, e) ∷ m) h = insert-All e (sort_by_time m) h.0 (sort-All m h.1)

-- Every entry stands under its own key.
abbrev IsKeyed : Text → TombstoneEntry → Type 0
IsKeyed k e = e.key ≡ k

keyed-Hits :
    (whole m : List (Text × TombstoneEntry))
    → Every IsKeyed m
    → Every (λ k e. Hits whole k) m
    → Every (λ k e. Hits whole e.key) m
keyed-Hits whole [] keyed hits = tt
keyed-Hits whole ((k, e) ∷ m) keyed hits =
    (subst (Hits whole) (sym keyed.0) hits.0, keyed-Hits whole m keyed.1 hits.1)

delete_one :
    (max n : ℕ) (es : List TombstoneEntry) (m : List (Text × TombstoneEntry))
    → n ≡ 1
    → length es ≡ length m
    → length m ≡ suc max
    → All (λ e. Hits m e.key) es
    → length (delete_each (take n es) m) ≤ max
unfolding delete_each
delete_one max n [] m one same full hits = absurd (omega arith)
delete_one max n (e ∷ es) m one same full hits = rw one (omega (arith, hits.0, full))

length-drop_oldest :
    (max : ℕ) (m : List (Text × TombstoneEntry))
    → Every IsKeyed m
    → length m ≡ suc max
    → length (drop_oldest max m) ≤ max
unfolding drop_oldest
length-drop_oldest max m keyed full =
    delete_one max (length m - max) (sort_by_time m) m (omega (arith, full)) (length-sort m) full
      (sort-All (λ e. Hits m e.key) m (keyed-Hits m m keyed (Hits-Every m)))

-- The bound of the store is the constant, and the entries fit it.
abbrev Fits : Tombstones → Type 0
Fits s =
    (s.max_entries ≡ pos max_tombstone_entries)
    × Every IsKeyed s.entries
    × (length s.entries ≤ max_tombstone_entries)

kept :
    (max : ℤ) (m : List (Text × TombstoneEntry))
    → max ≡ pos max_tombstone_entries
    → Every IsKeyed m
    → length m ≤ suc max_tombstone_entries
    → length (
        if is_positive max && ltb (pos_part max) (length m)
        then drop_oldest (pos_part max) m
        else m)
      ≤ max_tombstone_entries
kept max m e keyed h = rw e (
    if_cases (λ (xs : List (Text × TombstoneEntry)). length xs ≤ max_tombstone_entries)
      (ltb max_tombstone_entries (length m))
      (λ l.
        length-drop_oldest max_tombstone_entries m keyed
          (omega (arith, ltb→lt max_tombstone_entries (length m) l, h)))
      (λ l. ground (arith, l)))

prune-Fits :
    (now : ℕ) (s : Tombstones)
    → s.max_entries ≡ pos max_tombstone_entries
    → Every IsKeyed s.entries
    → length s.entries ≤ suc max_tombstone_entries
    → Fits (prune now s)
unfolding prune
prune-Fits now s e keyed h =
    let m =
      if is_positive s.max_age
      then drop_expired now (pos_part s.max_age) s.entries
      else s.entries in
    let keyed' : Every IsKeyed m =
      if_cases (Every IsKeyed) (is_positive s.max_age)
        (λ _. drop_expired-Every IsKeyed now (pos_part s.max_age) s.entries keyed) (λ _. keyed) in
    let fewer : length m ≤ suc max_tombstone_entries =
      if_cases (λ (xs : List (Text × TombstoneEntry)). length xs ≤ suc max_tombstone_entries)
        (is_positive s.max_age)
        (λ _. omega (arith, length-drop_expired now (pos_part s.max_age) s.entries, h)) (λ _. h) in
    (e, prune-Every IsKeyed now s keyed, kept s.max_entries m e keyed' fewer)

pub put_longer :
    (k : Text) (e : TombstoneEntry) (m : List (Text × TombstoneEntry))
    → length (put k e m) ≤ suc (length m)
put_longer k e m = elim (length-put k e m) [
  | inl (_, l) ↦ omega (arith, l)
  | inr (_, l) ↦ omega (arith, l)
]

record_entry-Fits :
    (now : ℕ) (fails : Bool) (s : Tombstones) (e : TombstoneEntry)
    → Fits s
    → Fits (record_entry now fails s e)
unfolding record_entry dated
record_entry-Fits now fails s e h =
    let m = put e.key (dated now e) s.entries in
    let longer : length m ≤ suc max_tombstone_entries =
      omega (arith, put_longer e.key (dated now e) s.entries, h.2) in
    if_cases Fits (is_blank e.key) (λ _. h)
      (λ _.
        prune-Fits now (record s { entries = m }) h.0
          (put-Every IsKeyed e.key (dated now e) s.entries refl h.1) longer)

record_all-Fits : (ws : List Write) (s : Tombstones) → Fits s → Fits (record_all s ws)
unfolding record_all
record_all-Fits [] s h = h
record_all-Fits ((now, fails, e) ∷ ws) s h =
    record_all-Fits ws (record_entry now fails s e) (record_entry-Fits now fails s e h)

length-load :
    (es : List TombstoneEntry) (m : List (Text × TombstoneEntry))
    → length (load_entries es m) ≤ length es + length m
unfolding load_entries
length-load [] m = omega arith
length-load (e ∷ es) m =
    let next = if is_blank e.key || is_empty e.sha256 then m else put e.key e m in
    let longer : length next ≤ suc (length m) =
      if_cases (λ (xs : List (Text × TombstoneEntry)). length xs ≤ suc (length m))
        (is_blank e.key || is_empty e.sha256) (λ _. omega arith) (λ _. put_longer e.key e m) in
    omega (arith, length-load es next, longer)

own_keys : (es : List TombstoneEntry) → All (λ e. IsKeyed e.key e) es
own_keys [] = tt
own_keys (e ∷ es) = (refl, own_keys es)

new_tombstones-Fits :
    (start : ℕ) (path : Text) (read : List TombstoneEntry)
    → length read ≤ suc max_tombstone_entries
    → Fits (new_tombstones start path (some read))
unfolding new_tombstones
new_tombstones-Fits start path read h =
    if_cases Fits (is_blank path) (λ _. (refl, tt, omega arith))
      (λ _.
        prune-Fits start
          (record {
            path = path;
            max_entries = pos max_tombstone_entries;
            max_age = pos tombstone_retention;
            entries = load_entries read [];
            persist_failed = false;
          })
          refl (load_entries-Every IsKeyed read [] (own_keys read) tt)
          (omega (arith, length-load read [], h)))

-- Over any number of writes, the store holds at most 1024 completions, whatever file with no more than
-- that it began with.
pub count-record_all :
    (start : ℕ) (path : Text) (read : List TombstoneEntry) (ws : List Write)
    → length read ≤ max_tombstone_entries
    → count (record_all (new_tombstones start path (some read)) ws) ≤ max_tombstone_entries
unfolding count
count-record_all start path read ws h =
    (record_all-Fits ws (new_tombstones start path (some read))
      (new_tombstones-Fits start path read (omega (arith, h)))).2
