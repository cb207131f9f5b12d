-- ===== src/Hub/RelPath.antt =====
-- internal/hub/relpath.go: a peer's relative path is either provably safe or refused. Paths are bytes;
-- a test on runes below 0x80 is the same test on bytes.
pub mod Dirs
pub mod Safe
pub mod Tests
use tantu.Prelude.{
  ℕ, Bool, true, false, not, ◌&&◌, ◌||◌, Option, none, some, List, [], ◌∷◌, ltb, leb, ◌==◌,
  if◌then◌else◌, length,
}
use tantu.Text.{
  Text, codes, is_empty, ◌=t◌, has_prefix, contains_byte, trim_space, trim_right, replace_byte,
  split, join, before, to_upper, is_control,
}

abbrev pub max_rel_path_length : ℕ
max_rel_path_length = 1024

abbrev pub max_rel_path_component : ℕ
max_rel_path_component = 200

abbrev pub max_rel_path_depth : ℕ
max_rel_path_depth = 24

pub data RelPathError : Type 0 where
  too_long absolute names_drive too_deep : RelPathError
  empty_component dot_component control_character colon : RelPathError
  illegal_character trailing_dot_or_space surrounding_space long_component reserved_device :
      RelPathError

pub data Sanitized : Type 0 where
  components : List Text → Sanitized
  refused : RelPathError → Sanitized

abbrev pub reserved_windows_device_names : List Text
reserved_windows_device_names =
    codes "CON"
    ∷ codes "PRN"
    ∷ codes "AUX"
    ∷ codes "NUL"
    ∷ codes "COM1"
    ∷ codes "COM2"
    ∷ codes "COM3"
    ∷ codes "COM4"
    ∷ codes "COM5"
    ∷ codes "COM6"
    ∷ codes "COM7"
    ∷ codes "COM8"
    ∷ codes "COM9"
    ∷ codes "LPT1"
    ∷ codes "LPT2"
    ∷ codes "LPT3"
    ∷ codes "LPT4"
    ∷ codes "LPT5"
    ∷ codes "LPT6"
    ∷ codes "LPT7"
    ∷ codes "LPT8"
    ∷ codes "LPT9"
    ∷ []

unfoldable pub member : Text → List Text → Bool
member s [] = false
member s (t ∷ ts) = (t =t s) || member s ts

-- The loop over the runes of a segment; its two tests in the order of the source, rune by rune.
unfoldable pub rune_refusal : Text → Option RelPathError
rune_refusal [] = none
rune_refusal (r ∷ s) =
    if is_control r
    then some control_character
    else if r == b':'
    then some colon
    else rune_refusal s

-- `strings.ContainsAny(segment, "<>\"|?*")`
unfoldable pub contains_any : Text → Text → Bool
contains_any [] chars = false
contains_any (c ∷ s) chars = contains_byte chars c || contains_any s chars

abbrev pub illegal : Text
illegal = b'<' ∷ b'>' ∷ 34 ∷ b'|' ∷ b'?' ∷ b'*' ∷ []

-- The part of a segment in front of its first dot.
abbrev pub device_base : Text → Text
device_base segment = to_upper (before segment b'.')

-- The checks of one segment behind the loop over its runes.
unfoldable pub tail_refusal : Text → Option RelPathError
tail_refusal segment =
    if contains_any segment illegal
    then some illegal_character
    else if not (segment =t trim_right segment (codes ". "))
    then some trailing_dot_or_space
    else if not (trim_space segment =t segment)
    then some surrounding_space
    else if ltb max_rel_path_component (length segment)
    then some long_component
    else if member (device_base segment) reserved_windows_device_names
    then some reserved_device
    else none

unfoldable pub or_else : Option RelPathError → Option RelPathError → Option RelPathError
or_else (some e) other = some e
or_else none other = other

unfoldable pub segment_refusal : Text → Option RelPathError
unfolding or_else
segment_refusal segment =
    if is_empty segment
    then some empty_component
    else if (segment =t codes ".") || (segment =t codes "..")
    then some dot_component
    else or_else (rune_refusal segment) (tail_refusal segment)

-- The first segment that is refused decides.
unfoldable pub segments_refusal : List Text → Option RelPathError
unfolding or_else
segments_refusal [] = none
segments_refusal (s ∷ ss) = or_else (segment_refusal s) (segments_refusal ss)

-- `len(p) >= 2 && p[1] == ':'`
unfoldable pub has_drive : Text → Bool
has_drive [] = false
has_drive (a ∷ []) = false
has_drive (a ∷ b ∷ s) = b == b':'

sanitized : Option RelPathError → List Text → Sanitized
sanitized (some e) raw = refused e
sanitized none raw = components raw

sanitize_normalized : Text → Sanitized
unfolding sanitized
sanitize_normalized normalized =
    let raw = split normalized b'/' in
    if has_prefix normalized (codes "/")
    then refused absolute
    else if has_drive normalized
    then refused names_drive
    else if ltb max_rel_path_depth (length raw)
    then refused too_deep
    else sanitized (segments_refusal raw) raw

unfoldable pub sanitize_rel_path : Text → Sanitized
unfolding sanitize_normalized
sanitize_rel_path rel =
    if is_empty (trim_space rel)
    then components []
    else if ltb max_rel_path_length (length rel)
    then refused too_long
    else sanitize_normalized (replace_byte rel 92 b'/')

-- `filepath.Join(components...)` for components that need no cleaning, with `/` as the separator
unfoldable pub join_rel_components : List Text → Text
join_rel_components comps = join comps b'/'
