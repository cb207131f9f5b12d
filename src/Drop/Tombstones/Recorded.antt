-- ===== src/Drop/Tombstones/Recorded.antt =====
-- internal/drop/tombstone.go: nothing is remembered that was not recorded.
use tantu.Prelude.{
  ℕ, ◌-◌, ◌≡◌, Bool, ◌||◌, ◌&&◌, none, some, List, [], ◌∷◌, ltb, if◌then◌else◌, length, take, arith,
  if_cases, All, pos_part, is_positive,
}
use tantu.Text.{Text, is_empty}
use tantu.Text.Assoc.{lookup, put, delete, Every, put-Every, delete-Every, lookup-Every}
use tantu.Drop.Tombstones.{
  TombstoneEntry, Tombstones, is_blank, lookup_entry, is_expired, drop_expired, sort_by_time,
  delete_each, drop_oldest, prune, dated, record_entry, load_entries, new_tombstones,
}

module _ {κ} (P : Text → TombstoneEntry → Type κ) where
  pub drop_expired-Every :
      (now max_age : ℕ) (m : List (Text × TombstoneEntry))
      → Every P m
      → Every P (drop_expired now max_age m)
  unfolding drop_expired
  drop_expired-Every now max_age [] h = tt
  drop_expired-Every now max_age ((k, e) ∷ m) h =
      if_cases (Every P) (is_expired now max_age e) (λ _. drop_expired-Every now max_age m h.1)
        (λ _. (h.0, drop_expired-Every now max_age m h.1))

  pub delete_each-Every :
      (es : List TombstoneEntry) (m : List (Text × TombstoneEntry))
      → Every P m
      → Every P (delete_each es m)
  unfolding delete_each
  delete_each-Every [] m h = h
  delete_each-Every (e ∷ es) m h = delete_each-Every es (delete e.key m) (delete-Every P e.key m h)

  pub prune-Every : (now : ℕ) (s : Tombstones) → Every P s.entries → Every P (prune now s).entries
  unfolding prune drop_oldest
  prune-Every now s h =
      let fresh =
        if is_positive s.max_age
        then drop_expired now (pos_part s.max_age) s.entries
        else s.entries in
      let old : Every P fresh =
        if_cases (Every P) (is_positive s.max_age)
          (λ _. drop_expired-Every now (pos_part s.max_age) s.entries h) (λ _. h) in
      if_cases (Every P) (is_positive s.max_entries && ltb (pos_part s.max_entries) (length fresh))
        (λ _.
          delete_each-Every (take (length fresh - pos_part s.max_entries) (sort_by_time fresh))
            fresh old)
        (λ _. old)

  pub record_entry-Every :
      (now : ℕ) (fails : Bool) (s : Tombstones) (e : TombstoneEntry)
      → P e.key (dated now e)
      → Every P s.entries
      → Every P (record_entry now fails s e).entries
  unfolding record_entry
  record_entry-Every now fails s e p h =
      if_cases (λ (t : Tombstones). Every P t.entries) (is_blank e.key) (λ _. h)
        (λ _.
          prune-Every now (record s { entries = put e.key (dated now e) s.entries })
            (put-Every P e.key (dated now e) s.entries p h))

  pub load_entries-Every :
      (es : List TombstoneEntry) (m : List (Text × TombstoneEntry))
      → All (λ e. P e.key e) es
      → Every P m
      → Every P (load_entries es m)
  unfolding load_entries
  load_entries-Every [] m a h = h
  load_entries-Every (e ∷ es) m a h =
      load_entries-Every es (if is_blank e.key || is_empty e.sha256 then m else put e.key e m) a.1 (
        if_cases (Every P) (is_blank e.key || is_empty e.sha256) (λ _. h)
          (λ _. put-Every P e.key e m a.0 h))

-- A write of the ledger: its time, whether the file takes it, and the completion.
abbrev pub Write : Type 0
Write = ℕ × Bool × TombstoneEntry

unfoldable pub record_all : Tombstones → List Write → Tombstones
unfolding record_entry
record_all s [] = s
record_all s ((now, fails, e) ∷ ws) = record_all (record_entry now fails s e) ws

-- What a list of writes recorded, under its key and with its time.
pub data IsRecorded : List Write → Text → TombstoneEntry → Type 0 where
  latest :
      (now : ℕ) (fails : Bool) (e : TombstoneEntry) (ws : List Write)
      → IsRecorded ((now, fails, e) ∷ ws) e.key (dated now e)
  later :
      (w : Write) (ws : List Write) (k : Text) (e : TombstoneEntry)
      → IsRecorded ws k e
      → IsRecorded (w ∷ ws) k e

record_all-Every {κ} :
    (P : Text → TombstoneEntry → Type κ) (ws : List Write) (s : Tombstones)
    → ((k : Text) (e : TombstoneEntry) → IsRecorded ws k e → P k e)
    → Every P s.entries
    → Every P (record_all s ws).entries
unfolding record_all
record_all-Every P [] s f h = h
record_all-Every P ((now, fails, e) ∷ ws) s f h =
    record_all-Every P ws (record_entry now fails s e)
      (λ k e' r. f k e' (later (now, fails, e) ws k e' r))
      (record_entry-Every P now fails s e (f e.key (dated now e) (latest now fails e ws)) h)

found :
    (k : Text) (m : List (Text × TombstoneEntry)) (e : TombstoneEntry)
    → (if is_blank k then none else lookup k m) ≡ some e
    → lookup k m ≡ some e
found k m e h = ground (arith, h)

module _ {κ} (P : Text → TombstoneEntry → Type κ) where
  fresh : (start : ℕ) (path : Text) → Every P (new_tombstones start path none).entries
  unfolding new_tombstones
  fresh start path =
      if_cases (λ (s : Tombstones). Every P s.entries) (is_blank path) (λ _. tt) (λ _. tt)

-- A store that began without a file never answers with what was not recorded under that key.
pub lookup_entry-record_all :
    (start : ℕ) (path : Text) (ws : List Write) (k : Text) (e : TombstoneEntry)
    → lookup_entry (record_all (new_tombstones start path none) ws) k ≡ some e
    → IsRecorded ws k e
unfolding lookup_entry
lookup_entry-record_all start path ws k e h =
    let s = record_all (new_tombstones start path none) ws in
    let every =
      record_all-Every (IsRecorded ws) ws (new_tombstones start path none) (λ _ _ r. r)
        (fresh (IsRecorded ws) start path) in
    lookup-Every (IsRecorded ws) k e s.entries every (found k s.entries e h)
