-- ===== src/Hub/RelPath/Dirs.antt =====
-- internal/hub/relpath.go, EnsureRelDirs: the parent folders of a destination, made one by one inside
-- the receiver's root and never through a symlink. The root (`relRoot`, implemented over the operating
-- system) is a record of operations on a state, of which the laws say what is relied on.
use tantu.Prelude.{
  ◌≡◌, refl, ◌∙◌, sym, ap, false, Option, none, some, List, [], ◌∷◌, ◌++◌, All, if◌then◌else◌,
}
use tantu.Text.{Text, is_empty, split}

-- What Lstat finds at a name: `missing` is os.IsNotExist, `unreadable` any other error.
pub data Found : Type 0 where
  folder symlink other missing unreadable : Found

-- How Mkdir ends: `exists` is os.IsExist.
pub data Made : Type 0 where
  made exists failed : Made

pub record RelRoot : Type 1 where
  pub State : Type 0
  pub lstat : State → Text → Found
  pub mkdir : State → Text → State × Made

-- A real folder stays one, whatever is made later, and a folder that was made is one.
pub record IsRoot (r : RelRoot) : Type 0 where
  pub keeps :
      (fs : r.State) (name at : Text)
      → r.lstat fs at ≡ Found.folder
      → r.lstat (r.mkdir fs name).0 at ≡ Found.folder
  pub makes :
      (fs : r.State) (name : Text)
      → (r.mkdir fs name).1 ≡ Made.made
      → r.lstat (r.mkdir fs name).0 name ≡ Found.folder

pub data DirError : Type 0 where
  through_symlink not_directory inspect_failed create_failed not_real_directory : DirError

-- `accumulated + sep + part`, or `part` alone at first.
unfoldable pub extend : Text → Text → Text
extend accumulated part = if is_empty accumulated then part else accumulated ++ (b'/' ∷ part)

-- `parts[:len(parts)-1]`
unfoldable pub parents : List Text → List Text
parents [] = []
parents (part ∷ []) = []
parents (part ∷ next ∷ parts) = part ∷ parents (next ∷ parts)

-- The names that EnsureRelDirs visits, from the outermost folder inwards.
unfoldable pub folders : Text → List Text → List Text
unfolding extend
folders accumulated [] = []
folders accumulated (part ∷ parts) = let name = extend accumulated part in name ∷ folders name parts

module _ (r : RelRoot) where
  -- The second look, after Mkdir found that somebody else was faster.
  unfoldable pub reinspect : r.State → Text → Option DirError
  reinspect fs name = elim (r.lstat fs name) [
    | Found.folder ↦ none
    | Found.missing ↦ some DirError.inspect_failed
    | Found.unreadable ↦ some DirError.inspect_failed
    | _ ↦ some DirError.not_real_directory
  ]

  unfoldable pub after_mkdir : r.State × Made → Text → r.State × Option DirError
  unfolding reinspect
  after_mkdir (fs, Made.made) name = (fs, none)
  after_mkdir (fs, Made.exists) name = (fs, reinspect fs name)
  after_mkdir (fs, Made.failed) name = (fs, some DirError.create_failed)

  -- One turn of the loop, on what Lstat found.
  unfoldable pub on_found : Found → r.State → Text → r.State × Option DirError
  unfolding after_mkdir
  on_found Found.folder fs name = (fs, none)
  on_found Found.symlink fs name = (fs, some DirError.through_symlink)
  on_found Found.other fs name = (fs, some DirError.not_directory)
  on_found Found.unreadable fs name = (fs, some DirError.inspect_failed)
  on_found Found.missing fs name = after_mkdir (r.mkdir fs name) name

  unfoldable pub ensure_dir : r.State → Text → r.State × Option DirError
  unfolding on_found
  ensure_dir fs name = on_found (r.lstat fs name) fs name

  -- An error ends the loop.
  unfoldable pub stop_or :
      r.State × Option DirError → r.State × Option DirError → r.State × Option DirError
  stop_or (fs, some e) rest = (fs, some e)
  stop_or (fs, none) rest = rest

  unfoldable pub ensure_dirs : r.State → Text → List Text → r.State × Option DirError
  unfolding ensure_dir extend stop_or
  ensure_dirs fs accumulated [] = (fs, none)
  ensure_dirs fs accumulated (part ∷ parts) =
      let name = extend accumulated part in
      let step = ensure_dir fs name in stop_or step (ensure_dirs step.0 name parts)

  -- EnsureRelDirs
  unfoldable pub ensure_rel_dirs : r.State → Text → r.State × Option DirError
  unfolding ensure_dirs parents
  ensure_rel_dirs fs rel =
      if is_empty rel then (fs, none) else ensure_dirs fs [] (parents (split rel b'/'))

  stop_or_cases :
      (P : r.State × Option DirError → Type 0) (step rest : r.State × Option DirError)
      → (step.1 ≡ none → P rest)
      → ((e : DirError) → P (step.0, some e))
      → P (stop_or step rest)
  unfolding stop_or
  stop_or_cases P (fs, none) rest h k = h refl
  stop_or_cases P (fs, some e) rest h k = k e

  module _ (root : IsRoot r) where
    after_mkdir-keeps :
        (m : r.State × Made) (name at : Text)
        → r.lstat m.0 at ≡ Found.folder
        → r.lstat (after_mkdir m name).0 at ≡ Found.folder
    unfolding after_mkdir
    after_mkdir-keeps (fs', Made.made) name at h = h
    after_mkdir-keeps (fs', Made.exists) name at h = h
    after_mkdir-keeps (fs', Made.failed) name at h = h

    on_found-keeps :
        (f : Found) (fs : r.State) (name at : Text)
        → r.lstat fs at ≡ Found.folder
        → r.lstat (on_found f fs name).0 at ≡ Found.folder
    unfolding on_found
    on_found-keeps Found.folder fs name at h = h
    on_found-keeps Found.symlink fs name at h = h
    on_found-keeps Found.other fs name at h = h
    on_found-keeps Found.unreadable fs name at h = h
    on_found-keeps Found.missing fs name at h =
        after_mkdir-keeps (r.mkdir fs name) name at (root.keeps fs name at h)

    ensure_dirs-keeps :
        (fs : r.State) (acc at : Text) (parts : List Text)
        → r.lstat fs at ≡ Found.folder
        → r.lstat (ensure_dirs fs acc parts).0 at ≡ Found.folder
    unfolding ensure_dirs ensure_dir
    ensure_dirs-keeps fs acc at [] h = h
    ensure_dirs-keeps fs acc at (part ∷ parts) h =
        let name = extend acc part in
        let step = on_found (r.lstat fs name) fs name in
        let here = on_found-keeps (r.lstat fs name) fs name at h in
        stop_or_cases (λ end. r.lstat end.0 at ≡ Found.folder) step (ensure_dirs step.0 name parts)
          (λ _. ensure_dirs-keeps step.0 name at parts here) (λ _. here)

    reinspect-none :
        (fs : r.State) (name : Text) → reinspect fs name ≡ none → r.lstat fs name ≡ Found.folder
    unfolding reinspect
    reinspect-none fs name h = go (r.lstat fs name) h
      where
        go :
            (f : Found)
            → (elim f [
              | Found.folder ↦ none
              | Found.missing ↦ some DirError.inspect_failed
              | Found.unreadable ↦ some DirError.inspect_failed
              | _ ↦ some DirError.not_real_directory
            ])
              ≡ none
            → f ≡ Found.folder
        go Found.folder k = refl
        go Found.symlink k = absurd cc
        go Found.other k = absurd cc
        go Found.missing k = absurd cc
        go Found.unreadable k = absurd cc

    after_mkdir-none :
        (m : r.State × Made) (name : Text)
        → (m.1 ≡ Made.made → r.lstat m.0 name ≡ Found.folder)
        → (after_mkdir m name).1 ≡ none
        → r.lstat (after_mkdir m name).0 name ≡ Found.folder
    unfolding after_mkdir
    after_mkdir-none (fs, Made.made) name made_it h = made_it refl
    after_mkdir-none (fs, Made.exists) name made_it h = reinspect-none fs name h
    after_mkdir-none (fs, Made.failed) name made_it h = absurd cc

    on_found-none :
        (f : Found) (fs : r.State) (name : Text)
        → r.lstat fs name ≡ f
        → (on_found f fs name).1 ≡ none
        → r.lstat (on_found f fs name).0 name ≡ Found.folder
    unfolding on_found
    on_found-none Found.folder fs name at h = at
    on_found-none Found.symlink fs name at h = absurd cc
    on_found-none Found.other fs name at h = absurd cc
    on_found-none Found.unreadable fs name at h = absurd cc
    on_found-none Found.missing fs name at h =
        after_mkdir-none (r.mkdir fs name) name (root.makes fs name) h

    ensure_dirs-none :
        (fs : r.State) (acc : Text) (parts : List Text)
        → (ensure_dirs fs acc parts).1 ≡ none
        → All (λ at. r.lstat (ensure_dirs fs acc parts).0 at ≡ Found.folder) (folders acc parts)
    unfolding ensure_dirs ensure_dir folders
    ensure_dirs-none fs acc [] h = tt
    ensure_dirs-none fs acc (part ∷ parts) h =
        let name = extend acc part in
        let step = on_found (r.lstat fs name) fs name in
        stop_or_cases
          (λ end.
            end.1 ≡ none → All (λ at. r.lstat end.0 at ≡ Found.folder) (name ∷ folders name parts))
          step (ensure_dirs step.0 name parts)
          (λ e all.
            let here = on_found-none (r.lstat fs name) fs name refl e in
            (ensure_dirs-keeps step.0 name name parts here, ensure_dirs-none step.0 name parts all))
          (λ e all. absurd cc) h

    -- Over a root in which a real folder stays one and a folder that was made is one: where
    -- EnsureRelDirs reports no error for a path that is not empty, every folder above the
    -- destination is in the end a real folder: neither a symlink nor another file, and not missing.
    pub ensure_rel_dirs_sound :
        (fs : r.State) (rel : Text)
        → is_empty rel ≡ false
        → (ensure_rel_dirs fs rel).1 ≡ none
        → All
            (λ at. r.lstat (ensure_rel_dirs fs rel).0 at ≡ Found.folder)
            (folders [] (parents (split rel b'/')))
    unfolding ensure_rel_dirs
    ensure_rel_dirs_sound fs rel e h =
        let opened : ensure_rel_dirs fs rel ≡ ensure_dirs fs [] (parents (split rel b'/')) =
          rw e refl in
        rw e
          (ensure_dirs-none fs [] (parents (split rel b'/')) (sym (ap (λ end. end.1) opened) ∙ h))
