-- ===== src/Cmd/Args.antt =====
-- cmd/tantu/args.go: flags may stand anywhere among the arguments. The loops of the source look one
-- argument ahead for the value of a flag; here the state of the loop says whether the flag before
-- still takes one, which the next argument decides.
pub mod Paths
pub mod Reorder
pub mod Tests
use tantu.Prelude.{
  ℕ, zero, suc, ◌+◌, ◌-◌, leb, ltb, length, take, drop, Bool, true, false, not, ◌&&◌, ◌||◌, Option,
  none, some, List, [], ◌∷◌, ◌++◌, if◌then◌else◌,
}
use tantu.Text.{
  Text, codes, ◌=t◌, has_prefix, contains_byte, contains, has_suffix, trim_space, is_empty,
}
use tantu.Hub.RelPath.{member}

abbrev value_flags : List Text
value_flags =
    codes "-transport"
    ∷ codes "--transport"
    ∷ codes "-t"
    ∷ codes "-listen"
    ∷ codes "--listen"
    ∷ codes "-l"
    ∷ codes "-peer"
    ∷ codes "--peer"
    ∷ codes "-p"
    ∷ codes "-port"
    ∷ codes "--port"
    ∷ codes "-web-port"
    ∷ codes "--web-port"
    ∷ codes "-web-addr"
    ∷ codes "--web-addr"
    ∷ codes "-store-dir"
    ∷ codes "--store-dir"
    ∷ codes "-output-dir"
    ∷ codes "--output-dir"
    ∷ codes "-o"
    ∷ codes "-timeout"
    ∷ codes "--timeout"
    ∷ codes "-ssh-host-key"
    ∷ codes "--ssh-host-key"
    ∷ codes "-ssh-authorized-key"
    ∷ codes "--ssh-authorized-key"
    ∷ codes "-ssh-key"
    ∷ codes "--ssh-key"
    ∷ codes "-ssh-user"
    ∷ codes "--ssh-user"
    ∷ codes "-ssh-host"
    ∷ codes "--ssh-host"
    ∷ codes "-ssh-port"
    ∷ codes "--ssh-port"
    ∷ codes "-bridge"
    ∷ codes "--bridge"
    ∷ codes "-b"
    ∷ codes "-fingerprint"
    ∷ codes "--fingerprint"
    ∷ codes "-f"
    ∷ codes "-name"
    ∷ codes "--name"
    ∷ codes "-n"
    ∷ codes "-bundle-path"
    ∷ codes "--bundle-path"
    ∷ codes "-idempotency-key"
    ∷ codes "--idempotency-key"
    ∷ codes "-ssh-fingerprint"
    ∷ codes "--ssh-fingerprint"
    ∷ codes "-ssh-known-hosts"
    ∷ codes "--ssh-known-hosts"
    ∷ []

unfoldable pub is_value_flag : Text → Bool
unfolding member
is_value_flag f = member f value_flags

unfoldable pub is_dashed : Text → Bool
unfolding has_prefix
is_dashed arg = has_prefix arg (codes "-")

unfoldable pub is_double_dash : Text → Bool
unfolding ◌=t◌
is_double_dash arg = arg =t codes "--"

-- `!strings.Contains(arg, "=") && isValueFlag(arg)`
unfoldable pub takes_value : Text → Bool
unfolding contains_byte is_value_flag
takes_value arg = not (contains_byte arg b'=') && is_value_flag arg

-- What NormalizeArgs collects: `after` is what followed a bare "--".
pub record Collected : Type 0 where
  pub flags : List Text
  pub pos : List Text
  pub after : Option (List Text)

abbrev pub with_flag : Text → Collected → Collected
with_flag arg c = record c { flags = arg ∷ c.flags }

abbrev pub with_pos : Text → Collected → Collected
with_pos arg c = record c { pos = arg ∷ c.pos }

unfoldable pub collect : Bool → List Text → Collected
unfolding is_dashed is_double_dash takes_value
collect takes [] = record { flags = []; pos = []; after = none }
collect takes (arg ∷ args) =
    let value = collect false args in
    let flag = collect (takes_value arg) args in
    if takes && not (is_dashed arg)
    then with_flag arg value
    else if is_double_dash arg
    then record { flags = []; pos = []; after = some args }
    else if is_dashed arg
    then with_flag arg flag
    else with_pos arg value

unfoldable pub tail_of : Option (List Text) → List Text
tail_of none = []
tail_of (some args) = codes "--" ∷ args

unfoldable pub joined : Collected → List Text
unfolding tail_of
joined c = c.flags ++ (c.pos ++ tail_of c.after)

unfoldable pub normalize_args : List Text → List Text
unfolding joined collect
normalize_args args = joined (collect false args)

unfoldable pub split_flags : Bool → List Text → List Text × List Text
unfolding is_dashed is_double_dash takes_value
split_flags takes [] = ([], [])
split_flags takes (arg ∷ args) =
    let value = split_flags false args in
    let flag = split_flags (takes_value arg) args in
    if takes && not (is_dashed arg)
    then (arg ∷ value.0, value.1)
    else if is_double_dash arg || not (is_dashed arg)
    then ([], arg ∷ args)
    else (arg ∷ flag.0, flag.1)

unfoldable pub split_leading_flags : List Text → List Text × List Text
unfolding split_flags
split_leading_flags args = split_flags false args

unfoldable pub send_has_path_hint : Text → Bool → Bool
unfolding has_prefix contains
send_has_path_hint arg force_text =
    if force_text
    then false
    else has_prefix arg (codes "./")
      || has_prefix arg (codes ".\\")
      || has_prefix arg (codes "/")
      || has_prefix arg (codes "\\")
      || has_prefix arg (codes "~")
      || contains arg (codes "/")
      || contains arg (codes "\\")

-- Surrounded by double or by single quotes
unfoldable pub is_quoted : Text → Bool
unfolding has_prefix has_suffix
is_quoted s =
    has_prefix s (b'"' ∷ []) && has_suffix s (b'"' ∷ [])
    || has_prefix s (b'\'' ∷ []) && has_suffix s (b'\'' ∷ [])

-- `s[lo:hi]`, which panics out of range.
unfoldable pub slice : ℕ → ℕ → Text → Option Text
slice lo hi s = if leb lo hi && leb hi (length s) then some (take (hi - lo) (drop lo s)) else none

-- The loop that strips quotes; a single quote sign stays. Nothing is the result of a panic, and of a loop
-- that the fuel does not end.
unfoldable pub strip_quotes : ℕ → Text → Option Text
unfolding is_quoted slice
strip_quotes zero s = none
strip_quotes (suc fuel) s =
    if not (is_quoted s)
    then some s
    else if ltb (length s) 2
    then some s
    else elim (slice 1 (length s - 1) s) [
      | none ↦ none
      | some inner ↦ strip_quotes fuel (trim_space inner)
    ]

cleaned_path : (Text → Text) → Option Text → Option Text
cleaned_path clean none = none
cleaned_path clean (some s) = some (if is_empty s then [] else clean s)

-- SanitizePath, over `filepath.Clean`.
unfoldable pub sanitize_path : (Text → Text) → Text → Option Text
unfolding strip_quotes cleaned_path
sanitize_path clean p = cleaned_path clean (strip_quotes (length p + 1) (trim_space p))
