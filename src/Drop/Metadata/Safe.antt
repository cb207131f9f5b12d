-- ===== src/Drop/Metadata/Safe.antt =====
-- internal/drop/receiver.go: what a receiver that stages under a peer's names can rely on.
use tantu.Prelude.{
  ℕ, ◌≤◌, ◌≡◌, ◌≢◌, refl, subst, ap, inl, inr, Bool, true, false, not, ◌&&◌, ◌||◌, ◌⊎◌, Option,
  none, some, List, [], ◌∷◌, arith, length, all, All, ltb, if◌then◌else◌, ℤ, pos, negsuc, pos_part,
  is_negative,
}
use tantu.Text.{
  Text, codes, is_empty, ◌=t◌, is_id_byte, is_control, trim_space, split, replace_byte, before,
  to_upper, has_prefix,
}
use tantu.Text.Laws.{eq_self}
use tantu.Hub.RelPath.{member, has_drive}
use tantu.Drop.Types.{
  DropSend, max_chunk_size, max_drop_id_length, max_drop_name_length, max_mime_type_length,
  max_rel_path_length, max_rel_path_depth,
}
use tantu.Drop.Metadata.{
  MetadataError, ◌orelse◌, drop_id_refusal, fields_refusal, rel_path_refusal,
  validate_drop_metadata, supported_kind, outside, segments_bad, has_control, device_names,
  valid_tombstone_key, no_drop_id, long_drop_id, invalid_drop_id, path_segment, reserved_device,
  invalid_key, unsupported_kind, negative_size, invalid_chunk_size, long_name, control_in_name,
  long_mime_type, control_in_mime_type, invalid_head_hash, long_rel_path, absolute_rel_path,
  drive_rel_path, control_in_rel_path, deep_rel_path, bad_segment,
}
use tantu.Drop.Receiver.{is_sha256_hex}

-- A file name of its own folder: neither a separator of paths, of drives or of streams
-- nor a step, and no device.
pub record IsFileName (id : Text) : Type 0 where
  pub bytes : All (λ c. (c ≢ b'/') × (c ≢ 92) × (c ≢ b':') × (is_control c ≡ false)) id
  pub non_empty : id ≢ []
  pub not_here : id ≢ codes "."
  pub not_up : id ≢ codes ".."
  pub short : length id ≤ max_drop_id_length
  pub no_device : member (to_upper (before id b'.')) device_names ≡ false

-- A path below the folder that it is resolved in.
pub record IsBelow (p : Text) : Type 0 where
  pub steps :
      All (λ s. (s ≢ []) × (s ≢ codes ".") × (s ≢ codes "..")) (split (replace_byte p 92 b'/') b'/')
  pub shallow : length (split (replace_byte p 92 b'/') b'/') ≤ max_rel_path_depth
  pub no_drive : has_drive p ≡ false
  pub short : length p ≤ max_rel_path_length

pub record IsAcceptable (meta : DropSend) : Type 0 where
  pub named : IsFileName meta.drop_id
  pub kinded : supported_kind meta.kind ≡ true
  pub sized : is_negative meta.size ≡ false
  pub chunked : (is_negative meta.chunk_size ≡ false) × (pos_part meta.chunk_size ≤ max_chunk_size)
  pub keyed : (meta.idempotency_key ≡ []) ⊎ (valid_tombstone_key meta.idempotency_key ≡ true)
  pub hashed : (meta.head_hash ≡ []) ⊎ (is_sha256_hex meta.head_hash ≡ true)
  pub placed : (meta.rel_path ≡ []) ⊎ IsBelow meta.rel_path

passed :
    (b : Bool) (e : MetadataError) {o : Option MetadataError}
    → (if b then some e else o) ≡ none
    → (b ≡ false) × (o ≡ none)
passed true e h = absurd cc
passed false e h = (refl, h)

orelse_none : (a b : Option MetadataError) → (a orelse b) ≡ none → (a ≡ none) × (b ≡ none)
orelse_none none b h = (refl, h)
orelse_none (some e) b h = absurd cc

or_false : (a b : Bool) → (a || b) ≡ false → (a ≡ false) × (b ≡ false)
or_false a b h = ground (arith, h)

not_equal : (s t : Text) → (s =t t) ≡ false → s ≢ t
not_equal s t h e = let same : (s =t t) ≡ true = subst (λ x. (s =t x) ≡ true) e (eq_self s) in cc

within : (a max : ℕ) → ltb max a ≡ false → a ≤ max
within a max h = ground arith

outside-false :
    (a : ℤ)
    → outside max_chunk_size a ≡ false
    → (is_negative a ≡ false) × (pos_part a ≤ max_chunk_size)
unfolding outside
outside-false (pos n) h = (refl, within n max_chunk_size h)
outside-false (negsuc n) h = absurd (ground (arith, h))

either_way : (s : Text) (b : Bool) → (not (is_empty s) && not b) ≡ false → (s ≡ []) ⊎ (b ≡ true)
either_way [] b h = inl refl
either_way (c ∷ s) b h = inr (ground arith)

id_byte_plain :
    (c : ℕ) → is_id_byte c ≡ true → (c ≢ b'/') × (c ≢ 92) × (c ≢ b':') × (is_control c ≡ false)
unfolding is_id_byte is_control
id_byte_plain c h = (ground arith, ground arith, ground arith, ground arith)

id_bytes :
    (s : Text)
    → all is_id_byte s ≡ true
    → All (λ c. (c ≢ b'/') × (c ≢ 92) × (c ≢ b':') × (is_control c ≡ false)) s
id_bytes [] h = tt
id_bytes (c ∷ s) h = (id_byte_plain c (ground (arith, h)), id_bytes s (ground (arith, h)))

blank : trim_space [] ≡ []
unfolding trim_space
blank = refl

not_blank : (id : Text) → is_empty (trim_space id) ≡ false → id ≢ []
not_blank id h e =
    let shown : is_empty (trim_space []) ≡ false =
      subst (λ t. is_empty (trim_space t) ≡ false) e h in
    let hidden : is_empty (trim_space []) ≡ true = ap is_empty blank in cc

drop_id_refusal-IsFileName : (id : Text) → drop_id_refusal id ≡ none → IsFileName id
unfolding drop_id_refusal
drop_id_refusal-IsFileName id h =
    let (h1, r1) = passed (is_empty (trim_space id)) no_drop_id h in
    let (h2, r2) = passed (ltb max_drop_id_length (length id)) long_drop_id r1 in
    let (h3, r3) = passed (not (all is_id_byte id)) invalid_drop_id r2 in
    let (h4, r4) = passed ((id =t codes ".") || (id =t codes "..")) path_segment r3 in
    let (h5, r5) = passed (member (to_upper (before id b'.')) device_names) reserved_device r4 in
    let (here, up) = or_false (id =t codes ".") (id =t codes "..") h4 in
    record {
      bytes = id_bytes id (ground (arith, h3));
      non_empty = λ e. not_blank id h1 e;
      not_here = not_equal id (codes ".") here;
      not_up = not_equal id (codes "..") up;
      short = within (length id) max_drop_id_length h2;
      no_device = h5;
    }

none_of :
    (a b c d : Bool)
    → (a || b || c || d) ≡ false
    → (a ≡ false) × (b ≡ false) × (c ≡ false) × (d ≡ false)
none_of a b c d h = (ground (arith, h), ground (arith, h), ground (arith, h), ground (arith, h))

empty_false : (s : Text) → is_empty s ≡ false → s ≢ []
empty_false [] h e = absurd (ground (arith, h))
empty_false (c ∷ s) h e = absurd cc

segments_bad-All :
    (ss : List Text)
    → segments_bad ss ≡ false
    → All (λ s. (s ≢ []) × (s ≢ codes ".") × (s ≢ codes "..")) ss
unfolding segments_bad
segments_bad-All [] h = tt
segments_bad-All (s ∷ ss) h =
    let (e, d, u, rest) =
      none_of (is_empty s) (s =t codes ".") (s =t codes "..") (segments_bad ss) h in
    (
      (empty_false s e, not_equal s (codes ".") d, not_equal s (codes "..") u),
      segments_bad-All ss rest,
    )

rel_path_refusal-IsBelow : (p : Text) → rel_path_refusal p ≡ none → (p ≡ []) ⊎ IsBelow p
unfolding rel_path_refusal
rel_path_refusal-IsBelow [] h = inl refl
rel_path_refusal-IsBelow (c ∷ p) h =
    let segments = split (replace_byte (c ∷ p) 92 b'/') b'/' in
    let (h1, r1) = passed (ltb max_rel_path_length (length (c ∷ p))) long_rel_path h in
    let (h2, r2) =
      passed (has_prefix (c ∷ p) (codes "/") || has_prefix (c ∷ p) (92 ∷ [])) absolute_rel_path
        r1 in
    let (h3, r3) = passed (has_drive (c ∷ p)) drive_rel_path r2 in
    let (h4, r4) = passed (has_control (c ∷ p)) control_in_rel_path r3 in
    let (h5, r5) = passed (ltb max_rel_path_depth (length segments)) deep_rel_path r4 in
    let (h6, r6) = passed (segments_bad segments) bad_segment r5 in
    inr (record {
      steps = segments_bad-All segments h6;
      shallow = within (length segments) max_rel_path_depth h5;
      no_drive = h3;
      short = within (length (c ∷ p)) max_rel_path_length h1;
    })

-- Metadata that a receiver does not refuse names a file of its own folder, with no separator in it, has a
-- supported kind, sizes within the limits, a valid key and head hash or none, and no relative path or
-- one of at most 24 real steps below its folder.
pub validate_drop_metadata-IsAcceptable :
    (meta : DropSend) → validate_drop_metadata meta ≡ none → IsAcceptable meta
unfolding validate_drop_metadata fields_refusal
validate_drop_metadata-IsAcceptable meta h =
    let (id, rest) =
      orelse_none (drop_id_refusal meta.drop_id)
        (fields_refusal meta orelse rel_path_refusal meta.rel_path) h in
    let (fields, path) = orelse_none (fields_refusal meta) (rel_path_refusal meta.rel_path) rest in
    let (h1, r1) =
      passed (not (is_empty meta.idempotency_key) && not (valid_tombstone_key meta.idempotency_key))
        invalid_key fields in
    let (h2, r2) = passed (not (supported_kind meta.kind)) unsupported_kind r1 in
    let (h3, r3) = passed (is_negative meta.size) negative_size r2 in
    let (h4, r4) = passed (outside max_chunk_size meta.chunk_size) invalid_chunk_size r3 in
    let (h5, r5) = passed (ltb max_drop_name_length (length meta.name)) long_name r4 in
    let (h6, r6) = passed (has_control meta.name) control_in_name r5 in
    let (h7, r7) = passed (ltb max_mime_type_length (length meta.mime_type)) long_mime_type r6 in
    let (h8, r8) = passed (has_control meta.mime_type) control_in_mime_type r7 in
    let (h9, r9) =
      passed (not (is_empty meta.head_hash) && not (is_sha256_hex meta.head_hash)) invalid_head_hash
        r8 in
    record {
      named = drop_id_refusal-IsFileName meta.drop_id id;
      kinded = ground (arith, h2);
      sized = h3;
      chunked = outside-false meta.chunk_size h4;
      keyed = either_way meta.idempotency_key (valid_tombstone_key meta.idempotency_key) h1;
      hashed = either_way meta.head_hash (is_sha256_hex meta.head_hash) h9;
      placed = rel_path_refusal-IsBelow meta.rel_path path;
    }
