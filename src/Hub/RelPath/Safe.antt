-- ===== src/Hub/RelPath/Safe.antt =====
-- internal/hub/relpath.go: what an accepted path is.
use tantu.Prelude.{
  ℕ, ◌≤◌, ◌≡◌, ◌≢◌, refl, sym, subst, inl, inr, Bool, true, false, not, ◌||◌, ◌⊎◌, Option, none,
  some, List, [], ◌∷◌, map, arith, length, All, Bool-cases, ◌==◌, ltb, if_cases, if◌then◌else◌,
}
use tantu.Text.{
  Text, codes, is_empty, ◌=t◌, has_prefix, contains_byte, trim_space, trim_right, replace_byte,
  split, join, is_control,
}
use tantu.Text.Laws.{eq_self, eq_sound}
use tantu.Text.Split.{join-split, All-split, All-map}
use tantu.Hub.RelPath.{
  Sanitized, components, refused, RelPathError, member, rune_refusal, contains_any, illegal,
  device_base, tail_refusal, or_else, segment_refusal, segments_refusal, has_drive, sanitized,
  sanitize_normalized, sanitize_rel_path, join_rel_components, max_rel_path_length,
  max_rel_path_component, max_rel_path_depth, reserved_windows_device_names,
}

-- A byte that may stand in a component: no separator of either kind, no colon, no control character
-- and none of the characters that Windows refuses.
abbrev pub IsSafeByte : ℕ → Type 0
IsSafeByte c =
    (c ≢ b'/') × (c ≢ 92) × (c ≢ b':') × (is_control c ≡ false) × (contains_byte illegal c ≡ false)

-- A component that neither steps out of its folder nor means something else on another system.
abbrev pub IsSafe : Text → Type 0
IsSafe s =
    (s ≢ [])
    × (s ≢ codes ".")
    × (s ≢ codes "..")
    × All IsSafeByte s
    × (trim_right s (codes ". ") ≡ s)
    × (trim_space s ≡ s)
    × (length s ≤ max_rel_path_component)
    × (member (device_base s) reserved_windows_device_names ≡ false)

or_else-none : (a b : Option RelPathError) → or_else a b ≡ none → (a ≡ none) × (b ≡ none)
unfolding or_else
or_else-none none b h = (refl, h)
or_else-none (some e) b h = absurd cc

-- A test that would have refused did not hold.
passed :
    (b : Bool) (e : RelPathError) {o : Option RelPathError}
    → (if b then some e else o) ≡ none
    → (b ≡ false) × (o ≡ none)
passed true e h = absurd cc
passed false e h = (refl, h)

not_equal : (s t : Text) → (s =t t) ≡ false → s ≢ t
not_equal s t h e = let same : (s =t t) ≡ true = subst (λ x. (s =t x) ≡ true) e (eq_self s) in cc

rune_refusal-none :
    (s : Text) → rune_refusal s ≡ none → All (λ c. (is_control c ≡ false) × (c ≢ b':')) s
unfolding rune_refusal
rune_refusal-none [] h = tt
rune_refusal-none (c ∷ s) h =
    let (plain, h') = passed (is_control c) _ h in
    let (other, h'') = passed (c == b':') _ h' in
    ((plain, ground (arith, other)), rune_refusal-none s h'')

contains_any-none :
    (s : Text) → contains_any s illegal ≡ false → All (λ c. contains_byte illegal c ≡ false) s
unfolding contains_any
contains_any-none [] h = tt
contains_any-none (c ∷ s) h = elim (Bool-cases (contains_byte illegal c)) [
  | inl e ↦ absurd (ground arith)
  | inr e ↦ (e, contains_any-none s (ground arith))
]

safe_bytes :
    (s : Text)
    → All (λ c. (c ≢ b'/') × (c ≢ 92)) s
    → All (λ c. (is_control c ≡ false) × (c ≢ b':')) s
    → All (λ c. contains_byte illegal c ≡ false) s
    → All IsSafeByte s
safe_bytes [] h k l = tt
safe_bytes (c ∷ s) h k l = ((h.0.0, h.0.1, k.0.1, k.0.0, l.0), safe_bytes s h.1 k.1 l.1)

empty_false : (s : Text) → is_empty s ≡ false → s ≢ []
empty_false [] h = absurd cc
empty_false (c ∷ s) h = λ e. cc

neither : (a b : Bool) → (a || b) ≡ false → (a ≡ false) × (b ≡ false)
neither true b h = absurd cc
neither false b h = (refl, h)

not-false : (b : Bool) → not b ≡ false → b ≡ true
not-false true h = refl
not-false false h = absurd cc

segment_refusal-IsSafe :
    (s : Text) → All (λ c. (c ≢ b'/') × (c ≢ 92)) s → segment_refusal s ≡ none → IsSafe s
unfolding segment_refusal tail_refusal
segment_refusal-IsSafe s bytes h =
    let (nonempty, h1) = passed (is_empty s) _ h in
    let (dots, h2) = passed ((s =t codes ".") || (s =t codes "..")) _ h1 in
    let (one, two) = neither (s =t codes ".") (s =t codes "..") dots in
    let (runes, h3) = or_else-none (rune_refusal s) (tail_refusal s) h2 in
    let (legal, h4) = passed (contains_any s illegal) _ h3 in
    let (tail, h5) = passed (not (s =t trim_right s (codes ". "))) _ h4 in
    let (space, h6) = passed (not (trim_space s =t s)) _ h5 in
    let (short, h7) = passed (ltb max_rel_path_component (length s)) _ h6 in
    let (device, h8) = passed (member (device_base s) reserved_windows_device_names) _ h7 in
    (
      empty_false s nonempty,
      not_equal s (codes ".") one,
      not_equal s (codes "..") two,
      safe_bytes s bytes (rune_refusal-none s runes) (contains_any-none s legal),
      sym (eq_sound s (trim_right s (codes ". ")) (not-false _ tail)),
      eq_sound (trim_space s) s (not-false _ space),
      ground (arith, short),
      device,
    )

segments_refusal-IsSafe :
    (ss : List Text)
    → All (All (λ c. (c ≢ b'/') × (c ≢ 92))) ss
    → segments_refusal ss ≡ none
    → All IsSafe ss
unfolding segments_refusal
segments_refusal-IsSafe [] bytes h = tt
segments_refusal-IsSafe (s ∷ ss) bytes h =
    let (here, rest) = or_else-none (segment_refusal s) (segments_refusal ss) h in
    (segment_refusal-IsSafe s bytes.0 here, segments_refusal-IsSafe ss bytes.1 rest)

-- Behind the replacement no byte is a backslash, and behind the split none is a slash.
replaced : (c : ℕ) → (if c == 92 then b'/' else c) ≢ 92
replaced c = if_cases (λ x. x ≢ 92) (c == 92) (λ _. ground arith) (λ other. ground arith)

no_separators :
    (rel : Text) → All (All (λ c. (c ≢ b'/') × (c ≢ 92))) (split (replace_byte rel 92 b'/') b'/')
unfolding replace_byte
no_separators rel =
    All-split (λ c. (c ≢ b'/') × (c ≢ 92)) (map (λ c. if c == 92 then b'/' else c) rel) b'/'
      (All-map (λ c. c ≢ b'/' → (c ≢ b'/') × (c ≢ 92)) (λ c. if c == 92 then b'/' else c) rel
        (λ c h. (h, replaced c)))

accepted :
    (o : Option RelPathError) (raw cs : List Text)
    → sanitized o raw ≡ components cs
    → (o ≡ none) × (raw ≡ cs)
unfolding sanitized
accepted none raw cs h = (refl, cc)
accepted (some e) raw cs h = absurd cc

no_drive :
    (b : Bool) (e : RelPathError) (x : Sanitized) (cs : List Text)
    → (if b then refused e else x) ≡ components cs
    → (b ≡ false) × (x ≡ components cs)
no_drive true e x cs h = absurd cc
no_drive false e x cs h = (refl, h)

-- What SanitizeRelPath accepts. A blank path has no components: a flat transfer.
abbrev pub Accepts : Text → List Text → Type 0
Accepts rel cs =
    All IsSafe cs
    × (length cs ≤ max_rel_path_depth)
    × (((is_empty (trim_space rel) ≡ true) × (cs ≡ []))
        ⊎ (join_rel_components cs ≡ replace_byte rel 92 b'/'))

from_normalized :
    (rel : Text) (cs : List Text)
    → sanitize_normalized (replace_byte rel 92 b'/') ≡ components cs
    → Accepts rel cs
unfolding sanitize_normalized join_rel_components
from_normalized rel cs h =
    let slashed = replace_byte rel 92 b'/' in
    let raw = split slashed b'/' in
    let (absolute, h1) = no_drive (has_prefix slashed (codes "/")) _ _ cs h in
    let (drive, h2) = no_drive (has_drive slashed) _ _ cs h1 in
    let (deep, h3) = no_drive (ltb max_rel_path_depth (length raw)) _ _ cs h2 in
    let (safe, same) = accepted (segments_refusal raw) raw cs h3 in
    subst
      (λ t.
        All IsSafe t
        × (length t ≤ max_rel_path_depth)
        × (((is_empty (trim_space rel) ≡ true) × (t ≡ [])) ⊎ (join t b'/' ≡ slashed)))
      same
      (
        segments_refusal-IsSafe raw (no_separators rel) safe,
        ground (arith, deep),
        inr (join-split slashed b'/'),
      )

-- Where SanitizeRelPath accepts a relative path, there are at most 24 components, each of them is a
-- safe name (not empty, not "." or "..", without separators, colons, control characters and
-- characters that Windows refuses, without a trailing dot or space, unchanged by trimming, of at most
-- 200 bytes and not a reserved device name), and joined they are the path that was given, with
-- backslashes read as slashes: nothing is rewritten. A blank path has no components.
pub sanitize_rel_path_sound :
    (rel : Text) (cs : List Text) → sanitize_rel_path rel ≡ components cs → Accepts rel cs
unfolding sanitize_rel_path
sanitize_rel_path_sound rel cs h = elim (Bool-cases (is_empty (trim_space rel))) [
  | inl blank ↦
      let none_left : cs ≡ [] = cc in
      subst (Accepts rel) (sym none_left) (tt, omega arith, inl (blank, refl))
  | inr other ↦
      let given : (if ltb max_rel_path_length (length rel)
            then refused RelPathError.too_long
            else sanitize_normalized (replace_byte rel 92 b'/'))
          ≡ components cs =
        ground arith in
      from_normalized rel cs (no_drive (ltb max_rel_path_length (length rel)) _ _ cs given).1
]
