-- ===== src/Cmd/Args/Tests.antt =====
-- cmd/tantu/args.go: the theorems at the arguments of a listing, and what happens to a flag that misses
-- its value.
use tantu.Prelude.{if◌then◌else◌, some, ◌≡◌, refl, inl, false, List, [], ◌∷◌}
use tantu.Text.{Text, codes, ◌=t◌, has_prefix, contains_byte, trim_space, has_suffix, is_empty}
use tantu.Hub.RelPath.{member}
use tantu.Cmd.Args.{
  collect, joined, tail_of, normalize_args, split_leading_flags, split_flags, is_dashed,
  is_double_dash, takes_value, is_value_flag, strip_quotes, is_quoted, sanitize_path, slice,
  cleaned_path,
}
use tantu.Cmd.Args.Paths.{Unquotes, sanitize_path-Unquotes}
use tantu.Cmd.Args.Reorder.{
  ends_taking, normalize_args-normalize_args, split_leading_flags-normalize_args,
}

abbrev listing : List Text
listing =
    codes "list" ∷ codes "--store-dir" ∷ codes "d" ∷ codes "--json" ∷ codes "--" ∷ codes "-x" ∷ []

listing_normalized :
    normalize_args listing
    ≡ codes "--store-dir" ∷ codes "d" ∷ codes "--json" ∷ codes "list" ∷ codes "--" ∷ codes "-x" ∷ []
unfolding normalize_args joined tail_of collect is_dashed is_double_dash takes_value is_value_flag
    ◌=t◌ has_prefix contains_byte member
listing_normalized = refl

listing_ready : ends_taking false (collect false listing).flags ≡ false
unfolding ends_taking collect is_dashed is_double_dash takes_value is_value_flag ◌=t◌ has_prefix
    contains_byte member
listing_ready = refl

split_leading_flags-normalize_args_example : split_leading_flags (normalize_args listing) ≡ (
  codes "--store-dir" ∷ codes "d" ∷ codes "--json" ∷ [],
  codes "list" ∷ codes "--" ∷ codes "-x" ∷ [],
)
unfolding tail_of collect is_dashed is_double_dash takes_value is_value_flag ◌=t◌ has_prefix
    contains_byte member
split_leading_flags-normalize_args_example =
    split_leading_flags-normalize_args listing (inl listing_ready)

-- A last flag without its value takes the positional that stood before it.
swallowed :
    split_leading_flags (normalize_args (codes "a.txt" ∷ codes "-o" ∷ []))
    ≡ (codes "-o" ∷ codes "a.txt" ∷ [], [])
unfolding split_leading_flags split_flags normalize_args joined tail_of collect is_dashed
    is_double_dash takes_value is_value_flag ◌=t◌ has_prefix contains_byte member
swallowed = refl

normalize_args-normalize_args_example :
    normalize_args (normalize_args listing) ≡ normalize_args listing
normalize_args-normalize_args_example = normalize_args-normalize_args listing

-- A dragged path in quotes of both kinds.
quoted : sanitize_path (λ s. s) (codes " \"'a b'\" ") ≡ some (codes "a b")
unfolding sanitize_path strip_quotes cleaned_path slice is_quoted has_prefix has_suffix trim_space
quoted = refl

sanitize_path-Unquotes_example :
    (t : Text) × (sanitize_path (λ s. s) (codes "'a'") ≡ some (if is_empty t then [] else t))
    × Unquotes (trim_space (codes "'a'")) t
sanitize_path-Unquotes_example = sanitize_path-Unquotes (λ s. s) (codes "'a'")
