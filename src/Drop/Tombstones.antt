-- ===== src/Drop/Tombstones.antt =====
-- internal/drop/tombstone.go: the completions that suppress a second publication. Times are
-- nanoseconds, and 0 is the zero time. The file is an input: what it holds when it is read and decoded,
-- and whether a write of it fails.
pub mod Bound
pub mod Found
pub mod Recorded
pub mod Tests
use tantu.Prelude.{
  ℕ, zero, suc, ◌+◌, ◌-◌, ◌*◌, ◌^◌, Bool, true, false, not, ◌&&◌, ◌||◌, Option, none, some, List,
  [], ◌∷◌, ltb, leb, ◌==◌, if◌then◌else◌, length, take, ℤ, pos, pos_part, is_positive, eqℤ,
}
use tantu.Text.{Text, is_empty, ◌=t◌, equal_fold, trim_space}
use tantu.Text.Assoc.{lookup, put, delete}
use tantu.Drop.Types.{DropSend, DropKind, kind_eq}
use tantu.Drop.Metadata.{normalized}

abbrev pub max_tombstone_entries : ℕ
max_tombstone_entries = 1024

-- 24 hours
abbrev pub tombstone_retention : ℕ
tombstone_retention = 24 * 3600 * 10 ^ 9

pub record TombstoneEntry : Type 0 where
  pub key : Text
  pub drop_id : Text
  pub kind : DropKind
  pub name : Text
  pub size : ℤ
  pub mime_type : Text
  pub chunk_size : ℤ
  pub head_hash : Text
  pub sha256 : Text
  pub bytes : ℕ
  pub completed_at : ℕ

unfoldable pub matches : TombstoneEntry → DropSend → Bool
unfolding normalized kind_eq ◌=t◌ equal_fold
matches e meta =
    let m = normalized meta in
    kind_eq e.kind m.kind
    && (e.name =t m.name)
    && eqℤ e.size m.size
    && (e.mime_type =t m.mime_type)
    && eqℤ e.chunk_size m.chunk_size
    && equal_fold e.head_hash m.head_hash

-- `persist_failed` is `lastPersistErr != nil`.
pub record Tombstones : Type 0 where
  pub path : Text
  pub max_entries : ℤ
  pub max_age : ℤ
  pub entries : List (Text × TombstoneEntry)
  pub persist_failed : Bool

abbrev pub is_blank : Text → Bool
is_blank s = is_empty (trim_space s)

unfoldable pub lookup_entry : Tombstones → Text → Option TombstoneEntry
lookup_entry s key = if is_blank key then none else lookup key s.entries

-- `!e.CompletedAt.IsZero() && e.CompletedAt.Before(time.Now().Add(-maxAge))`
unfoldable pub is_expired : ℕ → ℕ → TombstoneEntry → Bool
is_expired now max_age e = ltb 0 e.completed_at && ltb (e.completed_at + max_age) now

unfoldable pub drop_expired : ℕ → ℕ → List (Text × TombstoneEntry) → List (Text × TombstoneEntry)
unfolding is_expired
drop_expired now max_age [] = []
drop_expired now max_age ((k, e) ∷ m) =
    let rest = drop_expired now max_age m in
    if is_expired now max_age e then rest else (k, e) ∷ rest

-- `sort.Slice` by the time of completion
unfoldable pub insert_by_time : TombstoneEntry → List TombstoneEntry → List TombstoneEntry
insert_by_time e [] = e ∷ []
insert_by_time e (x ∷ xs) =
    let rest = insert_by_time e xs in
    if ltb x.completed_at e.completed_at then x ∷ rest else e ∷ x ∷ xs

unfoldable pub sort_by_time : List (Text × TombstoneEntry) → List TombstoneEntry
unfolding insert_by_time
sort_by_time [] = []
sort_by_time ((k, e) ∷ m) = insert_by_time e (sort_by_time m)

unfoldable pub delete_each :
    List TombstoneEntry → List (Text × TombstoneEntry) → List (Text × TombstoneEntry)
delete_each [] m = m
delete_each (e ∷ es) m = delete_each es (delete e.key m)

-- The oldest entries beyond the bound go.
unfoldable pub drop_oldest : ℕ → List (Text × TombstoneEntry) → List (Text × TombstoneEntry)
unfolding sort_by_time delete_each
drop_oldest max m = delete_each (take (length m - max) (sort_by_time m)) m

unfoldable pub prune : ℕ → Tombstones → Tombstones
unfolding drop_expired drop_oldest
prune now s =
    let fresh =
      if is_positive s.max_age
      then drop_expired now (pos_part s.max_age) s.entries
      else s.entries in
    record s {
      entries =
          if is_positive s.max_entries && ltb (pos_part s.max_entries) (length fresh)
          then drop_oldest (pos_part s.max_entries) fresh
          else fresh;
    }

unfoldable pub dated : ℕ → TombstoneEntry → TombstoneEntry
dated now e = record e { completed_at = if e.completed_at == 0 then now else e.completed_at }

-- Record. `fails` says whether the write of the file fails.
unfoldable pub record_entry : ℕ → Bool → Tombstones → TombstoneEntry → Tombstones
unfolding prune dated
record_entry now fails s e =
    if is_blank e.key
    then s
    else (let s' = prune now (record s { entries = put e.key (dated now e) s.entries }) in
        record s' {
          persist_failed = if is_empty s.path then s.persist_failed else fails || s.persist_failed;
        })

unfoldable pub load_entries :
    List TombstoneEntry → List (Text × TombstoneEntry) → List (Text × TombstoneEntry)
load_entries [] m = m
load_entries (e ∷ es) m =
    load_entries es (if is_blank e.key || is_empty e.sha256 then m else put e.key e m)

-- NewTombstones, with what `load` reads from the file: none where it is missing, over 1 MiB or does not
-- decode.
unfoldable pub new_tombstones : ℕ → Text → Option (List TombstoneEntry) → Tombstones
unfolding load_entries prune
new_tombstones now path read =
    let empty : Tombstones = record {
      path = path;
      max_entries = pos max_tombstone_entries;
      max_age = pos tombstone_retention;
      entries = [];
      persist_failed = false;
    } in
    if is_blank path then empty else elim read [
      | none ↦ empty
      | some es ↦ prune now (record empty { entries = load_entries es [] })
    ]

unfoldable pub count : Tombstones → ℕ
count s = length s.entries
