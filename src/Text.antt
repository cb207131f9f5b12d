-- ===== src/Text.antt =====
-- Go strings as the lists of their bytes, with the functions of the packages strings and unicode
-- that the modelled code calls. Literals are written `codes "..."`.
pub mod Assoc
pub mod HostPort
pub mod Laws
pub mod Split
pub mod Trim
use Prim.Native.Char.{code}
use Prim.Native.String.{String}
use mathlib.Core.List.{reverse}
use tantu.Prelude.{
  ℕ, zero, suc, ◌+◌, ◌-◌, Bool, true, false, not, ◌&&◌, ◌||◌, List, [], ◌∷◌, ◌++◌, map, ltb, leb,
  ◌==◌, if◌then◌else◌,
}

abbrev pub Text : Type 0
Text = List ℕ

-- The bytes of an ASCII literal.
abbrev pub codes : String → Text
codes String.[] = []
codes (String.◌∷◌ c s) = code c ∷ codes s

infix 50 ◌=t◌
unfoldable pub ◌=t◌ : Text → Text → Bool
[] =t [] = true
[] =t (_ ∷ _) = false
(_ ∷ _) =t [] = false
(a ∷ s) =t (b ∷ t) = (a == b) && (s =t t)

-- `s == ""`
abbrev pub is_empty : Text → Bool
is_empty [] = true
is_empty (_ ∷ _) = false

-- `strings.HasPrefix(s, p)`
unfoldable pub has_prefix : Text → Text → Bool
has_prefix s [] = true
has_prefix [] (_ ∷ _) = false
has_prefix (a ∷ s) (b ∷ p) = (a == b) && has_prefix s p

-- `strings.HasSuffix(s, p)`
unfoldable pub has_suffix : Text → Text → Bool
unfolding has_prefix
has_suffix s p = has_prefix (reverse s) (reverse p)

-- `strings.Contains(s, p)`
unfoldable pub contains : Text → Text → Bool
unfolding has_prefix
contains [] p = is_empty p
contains (a ∷ s) p = has_prefix (a ∷ s) p || contains s p

-- `strings.ContainsRune(s, c)` for an ASCII rune
unfoldable pub contains_byte : Text → ℕ → Bool
contains_byte [] c = false
contains_byte (a ∷ s) c = (a == c) || contains_byte s c

lower_byte : ℕ → ℕ
lower_byte c = if leb b'A' c && leb c b'Z' then c + 32 else c

upper_byte : ℕ → ℕ
upper_byte c = if leb b'a' c && leb c b'z' then c - 32 else c

-- `strings.ToLower`, `strings.ToUpper` and `strings.EqualFold`, on the ASCII letters. Other letters
-- stay as they are.
unfoldable pub to_lower : Text → Text
unfolding lower_byte
to_lower s = map lower_byte s

unfoldable pub to_upper : Text → Text
unfolding upper_byte
to_upper s = map upper_byte s

unfoldable pub equal_fold : Text → Text → Bool
unfolding to_lower ◌=t◌
equal_fold s t = to_lower s =t to_lower t

-- `unicode.IsSpace` of an ASCII byte
is_ascii_space : ℕ → Bool
is_ascii_space c = leb 9 c && leb c 13 || (c == 32)

-- The last byte of U+2000 .. U+200A, U+2028, U+2029 and U+202F, behind 0xE2 0x80
is_general_space : ℕ → Bool
is_general_space c = leb 0x80 c && leb c 0x8a || (c == 0xa8) || (c == 0xa9) || (c == 0xaf)

-- The white space of two and of three bytes: U+0085 and U+00A0; U+1680, those above, U+205F, U+3000.
is_space_2 : ℕ → ℕ → Bool
is_space_2 a b = (a == 0xc2) && ((b == 0x85) || (b == 0xa0))

is_space_3 : ℕ → ℕ → ℕ → Bool
unfolding is_general_space
is_space_3 a b c =
    (a == 0xe1) && (b == 0x9a) && (c == 0x80)
    || (a == 0xe2) && (b == 0x80) && is_general_space c
    || (a == 0xe2) && (b == 0x81) && (c == 0x9f)
    || (a == 0xe3) && (b == 0x80) && (c == 0x80)

-- The number of bytes of the white space that a text begins with, or 0.
pub space_ahead : Text → ℕ
unfolding is_ascii_space is_space_2 is_space_3
space_ahead [] = 0
space_ahead (a ∷ []) = if is_ascii_space a then 1 else 0
space_ahead (a ∷ b ∷ []) = if is_ascii_space a then 1 else if is_space_2 a b then 2 else 0
space_ahead (a ∷ b ∷ c ∷ s) =
    if is_ascii_space a then 1 else if is_space_2 a b then 2 else if is_space_3 a b c then 3 else 0

-- The same at the end, on the reversed text.
pub space_behind : Text → ℕ
unfolding is_ascii_space is_space_2 is_space_3
space_behind [] = 0
space_behind (a ∷ []) = if is_ascii_space a then 1 else 0
space_behind (b ∷ a ∷ []) = if is_ascii_space b then 1 else if is_space_2 a b then 2 else 0
space_behind (c ∷ b ∷ a ∷ s) =
    if is_ascii_space c then 1 else if is_space_2 b c then 2 else if is_space_3 a b c then 3 else 0

-- Drops `skip` bytes and then white space, as measured by `width`.
unfoldable pub trim_by : (Text → ℕ) → ℕ → Text → Text
trim_by width skip [] = []
trim_by width (suc skip) (c ∷ s) = trim_by width skip s
trim_by width zero (c ∷ s) = elim (width (c ∷ s)) [ zero ↦ c ∷ s | suc k ↦ trim_by width k s ]

-- `strings.TrimSpace`
unfoldable pub trim_space : Text → Text
unfolding space_ahead space_behind trim_by
trim_space s = reverse (trim_by space_behind 0 (reverse (trim_by space_ahead 0 s)))

-- `strings.TrimRight(s, cutset)`, on the reversed text
unfoldable pub drop_of : Text → Text → Text
unfolding contains_byte
drop_of cutset [] = []
drop_of cutset (c ∷ s) = elim (contains_byte cutset c) [ true ↦ drop_of cutset s | false ↦ c ∷ s ]

unfoldable pub trim_right : Text → Text → Text
unfolding drop_of
trim_right s cutset = reverse (drop_of cutset (reverse s))

-- `strings.ReplaceAll(s, old, new)` for single bytes
unfoldable pub replace_byte : Text → ℕ → ℕ → Text
replace_byte s old new = map (λ c. if c == old then new else c) s

-- `strings.Split(s, sep)` for a one-byte separator
abbrev prepend : ℕ → List Text → List Text
prepend c [] = (c ∷ []) ∷ []
prepend c (seg ∷ segs) = (c ∷ seg) ∷ segs

unfoldable pub split : Text → ℕ → List Text
split [] sep = [] ∷ []
split (c ∷ s) sep = let rest = split s sep in if c == sep then [] ∷ rest else prepend c rest

-- `strings.Join(segs, sep)` for a one-byte separator
unfoldable pub join : List Text → ℕ → Text
join [] sep = []
join (seg ∷ []) sep = seg
join (seg ∷ next ∷ segs) sep = seg ++ (sep ∷ join (next ∷ segs) sep)

-- The part of a text before the first `c`, all of it where `c` does not occur.
unfoldable pub before : Text → ℕ → Text
before [] c = []
before (a ∷ s) c = if a == c then [] else a ∷ before s c

-- The letters, digits, `-`, `_` and `.` of an identifier.
unfoldable pub is_id_byte : ℕ → Bool
is_id_byte r =
    leb b'a' r && leb r b'z'
    || leb b'A' r && leb r b'Z'
    || leb b'0' r && leb r b'9'
    || (r == b'-')
    || (r == b'_')
    || (r == b'.')

-- A control character, `r < 0x20 || r == 0x7f`
unfoldable pub is_control : ℕ → Bool
is_control r = ltb r 0x20 || (r == 0x7f)

-- `s < t`, by bytes
unfoldable pub text_ltb : Text → Text → Bool
text_ltb s [] = false
text_ltb [] (b ∷ t) = true
text_ltb (a ∷ s) (b ∷ t) = ltb a b || (a == b) && text_ltb s t
