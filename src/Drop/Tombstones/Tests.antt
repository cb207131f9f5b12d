-- ===== src/Drop/Tombstones/Tests.antt =====
-- internal/drop/tombstone.go: the theorems at concrete completions.
use tantu.Prelude.{◌≡◌, refl, true, false, none, some, [], ◌∷◌, List, pos}
use tantu.Text.{codes, ◌=t◌, trim_space, equal_fold, to_lower}
use tantu.Text.Assoc.{lookup, put}
use tantu.Drop.Types.{file, kind_eq}
use tantu.Drop.Sender.{chunk_size_of}
use tantu.Drop.Metadata.{normalized}
use tantu.Drop.Metadata.Tests.{photo}
use tantu.Drop.Tombstones.{
  TombstoneEntry, Tombstones, new_tombstones, record_entry, lookup_entry, matches,
  max_tombstone_entries, prune, dated, drop_expired, is_expired,
}
use tantu.Drop.Tombstones.Recorded.{Write, record_all}

abbrev done : TombstoneEntry
done = record {
  key = codes "k_1";
  drop_id = codes "d-1";
  kind = file;
  name = codes "trip.jpg";
  size = pos 10;
  mime_type = codes "image/jpeg";
  chunk_size = pos 4;
  head_hash = codes "0123456789ABCDEF0123456789abcdef0123456789abcdef0123456789abcdef";
  sha256 = codes "aa";
  bytes = 10;
  completed_at = 0;
}

abbrev pub store : Tombstones
store = record {
  path = codes "t";
  max_entries = pos max_tombstone_entries;
  max_age = pos 100;
  entries = [];
  persist_failed = false;
}

-- The head hash may differ in case, and the relative path is not compared.
matches-photo : matches done photo ≡ true
unfolding matches normalized chunk_size_of kind_eq ◌=t◌ equal_fold to_lower
matches-photo = refl

abbrev writes : List Write
writes = (7, false, done) ∷ []

found_again :
    lookup_entry (record_all (new_tombstones 1 (codes "t") none) writes) (codes "k_1")
    ≡ some (record done { completed_at = 7 })
unfolding lookup_entry record_all record_entry new_tombstones prune dated drop_expired is_expired
    trim_space lookup put ◌=t◌
found_again = refl
