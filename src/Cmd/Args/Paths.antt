-- ===== src/Cmd/Args/Paths.antt =====
-- cmd/tantu/args.go: what SanitizePath takes off a path, and that it never panics.
use tantu.Prelude.{
  ℕ, zero, suc, ◌+◌, ◌-◌, ◌≤◌, ◌≡◌, refl, Bool, true, false, not, ◌||◌, Option, some, [], arith,
  leb, ltb, length, take, drop, length-take-le, if_cases, if◌then◌else◌,
}
use tantu.Text.{Text, trim_space, is_empty}
use tantu.Text.Trim.{length-trim_space}
use tantu.Cmd.Args.{is_quoted, slice, strip_quotes, cleaned_path, sanitize_path}

-- One text within quotes of another: both of its ends are quotes of one kind, which go with the spaces
-- behind them, any number of times.
pub data Unquotes : Text → Text → Type 0 where
  ends : (s : Text) → (not (is_quoted s) || ltb (length s) 2) ≡ true → Unquotes s s
  peels :
      (s t : Text)
      → is_quoted s ≡ true
      → 2 ≤ length s
      → Unquotes (trim_space (take (length s - 2) (drop 1 s))) t
      → Unquotes s t

abbrev Stripped : Text → Option Text → Type 0
Stripped s o = (t : Text) × (o ≡ some t) × Unquotes s t

abbrev inside : Text → Text
inside s = take (length s - 2) (drop 1 s)

at_least : (a b : ℕ) → ltb a b ≡ false → b ≤ a
at_least a b h = ground (arith, h)

-- Within two quotes the slice is in range.
slice-inside : (s : Text) → 2 ≤ length s → slice 1 (length s - 1) s ≡ some (inside s)
unfolding slice
slice-inside s long =
    let low : leb 1 (length s - 1) ≡ true = ground (arith, long) in
    let high : leb (length s - 1) (length s) ≡ true = ground arith in
    let width : length s - 1 - 1 ≡ length s - 2 = omega arith in rw (low, high, width) refl

ends_plain : (b c : Bool) → not b ≡ true → (not b || c) ≡ true
ends_plain b c h = ground (arith, h)

ends_short : (b c : Bool) → c ≡ true → (not b || c) ≡ true
ends_short b c h = ground (arith, h)

quoted_of : (b : Bool) → not b ≡ false → b ≡ true
quoted_of b h = ground (arith, h)

-- Each pair of quotes makes the text shorter, so that its length and one is fuel enough.
stripped : (fuel : ℕ) (s : Text) → length s + 1 ≤ fuel → Stripped s (strip_quotes fuel s)
unfolding strip_quotes
stripped zero s h = absurd (omega (arith, h))
stripped (suc fuel) s h =
    if_cases (Stripped s) (not (is_quoted s))
      (λ e. (s, refl, ends s (ends_plain (is_quoted s) (ltb (length s) 2) e)))
      (λ q.
        if_cases (Stripped s) (ltb (length s) 2)
          (λ e. (s, refl, ends s (ends_short (is_quoted s) (ltb (length s) 2) e)))
          (λ l.
            let long = at_least (length s) 2 l in
            let less : length (trim_space (inside s)) + 1 ≤ fuel = omega (
              arith,
              length-trim_space (inside s),
              length-take-le (length s - 2) (drop 1 s),
              long,
              h,
            ) in
            let (t, same, within) = stripped fuel (trim_space (inside s)) less in
            rw (slice-inside s long) (t, same, peels s t (quoted_of (is_quoted s) q) long within)))

-- SanitizePath of any path ends without a panic: its slice is always in range, and its loop ends. What
-- it cleans is the path without the spaces around it and the pairs of quotes around that, as many as
-- there are, until what is left is not quoted or is a single byte; and what is empty then stays so.
pub sanitize_path-Unquotes :
    (clean : Text → Text) (p : Text)
    → (t : Text) × (sanitize_path clean p ≡ some (if is_empty t then [] else clean t))
      × Unquotes (trim_space p) t
unfolding sanitize_path cleaned_path
sanitize_path-Unquotes clean p =
    let (t, same, within) =
      stripped (length p + 1) (trim_space p) (omega (arith, length-trim_space p)) in
    (t, rw same refl, within)
