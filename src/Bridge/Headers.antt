-- ===== src/Bridge/Headers.antt =====
-- internal/bridge/session.go: the headers of a callback that cross to the local application.
pub mod Delivered
pub mod Tests
use tantu.Prelude.{
  ℕ, Bool, true, false, not, ◌&&◌, ◌||◌, Option, none, some, List, [], ◌∷◌, if◌then◌else◌, ◌==◌,
  ◌++◌,
}
use tantu.Text.{Text, codes, is_empty, ◌=t◌, to_lower, to_upper, trim_space, text_ltb}
use tantu.Text.Assoc.{lookup, put}

abbrev pub Headers : Type 0
Headers = List (Text × Text)

abbrev is_one_of : Text → List Text → Bool
is_one_of name [] = false
is_one_of name (n ∷ ns) = (name =t n) || is_one_of name ns

abbrev pub relayed_names : List Text
relayed_names =
    codes "accept" ∷ codes "accept-language" ∷ codes "content-type" ∷ codes "x-requested-with" ∷ []

abbrev pub inspected_names : List Text
inspected_names =
    codes "sec-fetch-mode" ∷ codes "sec-fetch-dest" ∷ codes "sec-fetch-site" ∷ codes "origin" ∷ []

abbrev pub folded : Text → Text
folded name = to_lower (trim_space name)

unfoldable pub allowed_callback_relay_header : Text → Bool
allowed_callback_relay_header name = is_one_of (folded name) relayed_names

unfoldable pub inspectable_callback_relay_header : Text → Bool
inspectable_callback_relay_header name = is_one_of (folded name) inspected_names

-- What A-side captures of the headers of the browser
unfoldable pub is_captured : Text → Bool
unfolding allowed_callback_relay_header inspectable_callback_relay_header
is_captured name = allowed_callback_relay_header name || inspectable_callback_relay_header name

-- `http.CanonicalHeaderKey` of a name of letters, digits and dashes
abbrev capitalized : Bool → Text → Text
capitalized upper [] = []
capitalized true (c ∷ s) = to_upper (c ∷ []) ++ capitalized (c == b'-') s
capitalized false (c ∷ s) = to_lower (c ∷ []) ++ capitalized (c == b'-') s

unfoldable pub canonical_header_key : Text → Text
canonical_header_key name = capitalized true name

-- The loop of A-side over the headers of the browser: the first value of each
abbrev with_captured : Text → List Text → Headers → Headers
with_captured name [] out = out
with_captured name (v ∷ vs) out =
    if not (is_empty v) && is_captured name then put (canonical_header_key name) v out else out

unfoldable pub captured_headers : List (Text × List Text) → Headers → Headers
unfolding is_captured canonical_header_key put
captured_headers [] out = out
captured_headers ((name, vs) ∷ h) out = captured_headers h (with_captured name vs out)

-- `sort.Strings` of the keys, each with its value
unfoldable pub insert_key : Text → Text → Headers → Headers
insert_key k v [] = (k, v) ∷ []
insert_key k v ((j, w) ∷ m) =
    let rest = insert_key k v m in if text_ltb j k then (j, w) ∷ rest else (k, v) ∷ (j, w) ∷ m

unfoldable pub sorted_headers : Headers → Headers
unfolding insert_key
sorted_headers [] = []
sorted_headers ((k, v) ∷ m) = insert_key k v (sorted_headers m)

abbrev pub is_seen : Text → Headers → Bool
is_seen k m = elim (lookup k m) [ none ↦ false | some v ↦ true ]

abbrev pub with_header : Text → Text → Headers → Headers
with_header k v out = if is_empty k || is_seen k out then out else put k v out

unfoldable pub fold_names : Headers → Headers → Headers
unfolding lookup put
fold_names [] out = out
fold_names ((k, v) ∷ m) out = fold_names m (with_header (folded k) v out)

unfoldable pub canonical_relay_header_map : Headers → Headers
unfolding sorted_headers fold_names
canonical_relay_header_map m = fold_names (sorted_headers m) []

-- The empty text where there is no such header.
abbrev or_empty : Option Text → Text
or_empty none = []
or_empty (some v) = v

unfoldable pub canonical_relay_header : Headers → Text → Text
unfolding canonical_relay_header_map
canonical_relay_header m name = or_empty (lookup (to_lower name) (canonical_relay_header_map m))

abbrev pub delivers : Text → Text → Bool
delivers name value = not (is_empty value) && allowed_callback_relay_header name

unfoldable pub delivered : Headers → Headers → Headers
unfolding allowed_callback_relay_header put
delivered [] out = out
delivered ((k, v) ∷ m) out =
    delivered m (if delivers k v then put (canonical_header_key k) v out else out)

unfoldable pub filter_callback_relay_headers : Headers → Headers
unfolding canonical_relay_header_map delivered
filter_callback_relay_headers m = delivered (canonical_relay_header_map m) []
