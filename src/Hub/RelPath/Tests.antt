-- ===== src/Hub/RelPath/Tests.antt =====
-- internal/hub/relpath.go: the theorems at concrete paths, and a root that is a map of names.
use tantu.Prelude.{
  ◌≡◌, refl, sym, subst, inl, inr, Option, none, some, List, [], ◌∷◌, arith, All, Option-cases,
}
use tantu.Text.{
  Text, codes, split, trim_space, ◌=t◌, has_prefix, replace_byte, is_control, contains_byte,
  trim_right, drop_of, to_upper, before,
}
use tantu.Text.Assoc.{lookup, put, lookup-put}
use tantu.Text.Laws.{eq_iff}
use tantu.Hub.RelPath.{
  components, refused, RelPathError, sanitize_rel_path, member, rune_refusal, contains_any,
  tail_refusal, or_else, segment_refusal, segments_refusal, has_drive, sanitize_normalized,
  sanitized,
}
use tantu.Hub.RelPath.Safe.{Accepts, sanitize_rel_path_sound}
use tantu.Hub.RelPath.Dirs.{
  Found, Made, RelRoot, IsRoot, DirError, ensure_rel_dirs, ensure_rel_dirs_sound, folders, parents,
  ensure_dirs, ensure_dir, extend, on_found, after_mkdir, reinspect, stop_or,
}

abbrev report : Text
report = codes "photos\\2024/trip.jpg"

sanitize_report :
    sanitize_rel_path report ≡ components (codes "photos" ∷ codes "2024" ∷ codes "trip.jpg" ∷ [])
unfolding sanitize_rel_path sanitize_normalized sanitized trim_space has_prefix replace_byte
    has_drive split segments_refusal segment_refusal ◌=t◌ rune_refusal is_control tail_refusal
    contains_any contains_byte trim_right drop_of member to_upper before or_else
sanitize_report = refl

traversal : sanitize_rel_path (codes "a/../b") ≡ refused RelPathError.dot_component
unfolding sanitize_rel_path sanitize_normalized sanitized trim_space has_prefix replace_byte
    has_drive split segments_refusal segment_refusal ◌=t◌ rune_refusal is_control tail_refusal
    contains_any contains_byte trim_right drop_of member to_upper before or_else
traversal = refl

stream : sanitize_rel_path (codes "a/b.txt:evil") ≡ refused RelPathError.colon
unfolding sanitize_rel_path sanitize_normalized sanitized trim_space has_prefix replace_byte
    has_drive split segments_refusal segment_refusal ◌=t◌ rune_refusal is_control tail_refusal
    contains_any contains_byte trim_right drop_of member to_upper before or_else
stream = refl

device : sanitize_rel_path (codes "a/nul.txt") ≡ refused RelPathError.reserved_device
unfolding sanitize_rel_path sanitize_normalized sanitized trim_space has_prefix replace_byte
    has_drive split segments_refusal segment_refusal ◌=t◌ rune_refusal is_control tail_refusal
    contains_any contains_byte trim_right drop_of member to_upper before or_else
device = refl

sanitize_rel_path_sound_example :
    Accepts report (codes "photos" ∷ codes "2024" ∷ codes "trip.jpg" ∷ [])
sanitize_rel_path_sound_example =
    sanitize_rel_path_sound report (codes "photos" ∷ codes "2024" ∷ codes "trip.jpg" ∷ [])
      sanitize_report

-- A root that is a map from names to what stands there.
abbrev found : Option Found → Found
found none = Found.missing
found (some f) = f

abbrev look : List (Text × Found) → Text → Found
look fs name = found (lookup name fs)

abbrev make : Option Found → List (Text × Found) → Text → List (Text × Found) × Made
make (some f) fs name = (fs, Made.exists)
make none fs name = (put name Found.folder fs, Made.made)

abbrev map_root : RelRoot
map_root = record {
  State = List (Text × Found);
  lstat = look;
  mkdir = λ fs name. make (lookup name fs) fs name;
}

map_root_keeps :
    (fs : List (Text × Found)) (name at : Text)
    → look fs at ≡ Found.folder
    → look (make (lookup name fs) fs name).0 at ≡ Found.folder
map_root_keeps fs name at h = elim (Option-cases (lookup name fs)) [
  | inr (f, e) ↦ rw e h
  | inl e ↦ rw e (rw (lookup-put name at Found.folder fs) (ground (arith, h)))
]

map_root_makes :
    (fs : List (Text × Found)) (name : Text)
    → (make (lookup name fs) fs name).1 ≡ Made.made
    → look (make (lookup name fs) fs name).0 name ≡ Found.folder
map_root_makes fs name h = elim (Option-cases (lookup name fs)) [
  | inr (f, e) ↦ absurd (subst (λ o. (make o fs name).1 ≡ Made.made → ⊥) (sym e) (λ k. cc) h)
  | inl e ↦ rw e (rw (lookup-put name name Found.folder fs) (ground (arith, eq_iff name name)))
]

map_root-IsRoot : IsRoot map_root
map_root-IsRoot = record { keeps = map_root_keeps; makes = map_root_makes }

abbrev downloads : List (Text × Found)
downloads = (codes "photos", Found.folder) ∷ (codes "link", Found.symlink) ∷ []

made_2024 : (ensure_rel_dirs map_root downloads (codes "photos/2024/trip.jpg")).1 ≡ none
unfolding ensure_rel_dirs ensure_dirs ensure_dir on_found after_mkdir reinspect stop_or extend
    parents split lookup put ◌=t◌
made_2024 = refl

refuses_link :
    (ensure_rel_dirs map_root downloads (codes "link/trip.jpg")).1 ≡ some DirError.through_symlink
unfolding ensure_rel_dirs ensure_dirs ensure_dir on_found after_mkdir reinspect stop_or extend
    parents split lookup put ◌=t◌
refuses_link = refl

ensure_rel_dirs_sound_example :
    All
      (λ at.
        look (ensure_rel_dirs map_root downloads (codes "photos/2024/trip.jpg")).0 at
        ≡ Found.folder)
      (folders [] (parents (split (codes "photos/2024/trip.jpg") b'/')))
ensure_rel_dirs_sound_example =
    ensure_rel_dirs_sound map_root map_root-IsRoot downloads (codes "photos/2024/trip.jpg") refl
      made_2024
