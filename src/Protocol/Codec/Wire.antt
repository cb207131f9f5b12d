-- ===== src/Protocol/Codec/Wire.antt =====
-- internal/protocol/codec.go: what is encoded is decoded, and a decoder never reads out of step.
use tantu.Prelude.{
  ℕ, zero, suc, ◌+◌, ◌≤◌, ◌≡◌, ◌≢◌, refl, sym, subst, ap, ◌∙◌, is_positive, Bool, true, false, ◌&&◌,
  Option, none, some, [], ◌∷◌, ◌++◌, ltb, leb, ◌==◌, if◌then◌else◌, length, take, drop, arith,
  length-append, if_cases, take-append-drop, length-drop, all,
}
use tantu.Text.{Text, is_empty}
use tantu.Protocol.Codec.{
  default_max_message_size, max_control_message_size, Envelope, CodecError, is_control_message_type,
  no_payload, stamped, put_uint32, uint32, Framed, framed, unframed, framed_bytes, encode_envelope,
  write_frame, Reader, Got, all_of, read_full, Decoder, new_decoder, decoded, decode, on_envelope,
  on_body, on_header, unless_terminal, validate_envelope_version,
}

uint32-put_uint32 : (n : ℕ) → n ≤ default_max_message_size → uint32 (put_uint32 n) ≡ n
unfolding uint32 put_uint32
uint32-put_uint32 n h = omega arith

length-put_uint32 : (n : ℕ) → length (put_uint32 n) ≡ 4
unfolding put_uint32
length-put_uint32 n = refl

pub take_front : (xs ys : Text) → take (length xs) (xs ++ ys) ≡ xs
take_front [] ys = refl
take_front (x ∷ xs) ys = ap (◌∷◌ x) (take_front xs ys)

pub drop_front : (xs ys : Text) → drop (length xs) (xs ++ ys) ≡ ys
drop_front [] ys = refl
drop_front (x ∷ xs) ys = drop_front xs ys

le_true : (a b : ℕ) → a ≤ b → leb a b ≡ true
le_true a b h = ground arith

le_of : (a b : ℕ) → ltb a b ≡ false → b ≤ a
le_of a b h = ground arith

lt_false : (a b : ℕ) → b ≤ a → ltb a b ≡ false
lt_false a b h = ground arith

positive : (n : ℕ) → n ≢ 0 → (n == 0) ≡ false
positive n h = ground arith

not_zero : (n : ℕ) → (n == 0) ≡ false → 1 ≤ n
not_zero n h = ground arith

read_full-append :
    (xs ys : Text) (ss : Reader) (n : ℕ)
    → length xs ≡ n
    → read_full n ((xs ++ ys) ∷ ss) ≡ (ys ∷ ss, all_of xs)
unfolding read_full
read_full-append xs ys ss n h =
    let fits : leb n (length (xs ++ ys)) ≡ true =
      le_true n (length (xs ++ ys)) (omega (arith, h, length-append xs ys)) in
    let whole : Reader × Got = (ys ∷ ss, all_of xs) in
    rw fits (
      subst (λ k. Path (Reader × Got) (drop k (xs ++ ys) ∷ ss, all_of (take k (xs ++ ys))) whole) h
        (rw (take_front xs ys, drop_front xs ys) refl))

framing :
    (b : Bool) (e : CodecError) (x : Framed) (bytes : Text)
    → (if b then unframed e else x) ≡ framed bytes
    → (b ≡ false) × (x ≡ framed bytes)
framing true e x bytes h = absurd cc
framing false e x bytes h = (refl, h)

-- What a frame holds: the length of the body in front of it, within the budgets.
abbrev Frames : Envelope → Text → Text → Type 0
Frames env bytes body =
    (length body ≤ default_max_message_size)
    × ((is_control_message_type env.kind && ltb max_control_message_size (length body)) ≡ false)
    × (bytes ≡ put_uint32 (length body) ++ body)

framed_bytes-Frames :
    (env : Envelope) (o : Option Text) (bytes : Text)
    → framed_bytes env o ≡ framed bytes
    → (body : Text) × (o ≡ some body) × Frames env bytes body
unfolding framed_bytes
framed_bytes-Frames env none bytes h = absurd cc
framed_bytes-Frames env (some body) bytes h =
    let (small, h1) = framing (ltb default_max_message_size (length body)) _ _ bytes h in
    let (control, h2) =
      framing (is_control_message_type env.kind && ltb max_control_message_size (length body)) _ _
        bytes h1 in
    let same : bytes ≡ put_uint32 (length body) ++ body = cc in
    (body, refl, (le_of default_max_message_size (length body) small, control, same))

stamped-kind : (env : Envelope) → (stamped env).kind ≡ env.kind
unfolding stamped
stamped-kind env =
    if_cases (λ (e : Envelope). e.kind ≡ env.kind) (is_positive env.v) (λ _. refl) (λ _. refl)

stamped-payload : (env : Envelope) → (stamped env).payload ≡ env.payload
unfolding stamped
stamped-payload env =
    if_cases (λ (e : Envelope). e.payload ≡ env.payload) (is_positive env.v) (λ _. refl) (λ _. refl)

module _ (unmarshal : Text → Option Envelope) (d : Decoder) (tail : Text) (ss : Reader)
    (env : Envelope) where
  on_body-accepts :
      (body : Text)
      → unmarshal body ≡ some env
      → is_empty env.kind ≡ false
      → no_payload env.payload ≡ false
      → validate_envelope_version env.v ≡ true
      → (is_control_message_type env.kind && ltb max_control_message_size (length body)) ≡ false
      → on_body unmarshal d (tail ∷ ss, all_of body)
        ≡ record { decoder = d; reader = tail ∷ ss; result = decoded env }
  unfolding on_body on_envelope
  on_body-accepts body parsed kind payload version control =
      rw (parsed, kind, payload, version, control) refl

  on_header-reads :
      (header body : Text)
      → uint32 header ≡ length body
      → length body ≤ d.max_message_size
      → length body ≢ 0
      → on_header unmarshal d ((body ++ tail) ∷ ss, all_of header)
        ≡ on_body unmarshal d (tail ∷ ss, all_of body)
  unfolding on_header
  on_header-reads header body size fits nonempty =
      let small : ltb d.max_message_size (uint32 header) ≡ false =
        lt_false d.max_message_size (uint32 header) (omega (arith, size, fits)) in
      let some_left : (uint32 header == 0) ≡ false =
        positive (uint32 header) (λ e. nonempty (sym size ∙ e)) in
      rw (small, some_left, read_full-append body tail ss (uint32 header) (sym size)) refl

  read_frame :
      (header body : Text)
      → d.terminal_err ≡ none
      → length header ≡ 4
      → uint32 header ≡ length body
      → length body ≤ d.max_message_size
      → length body ≢ 0
      → decode unmarshal d ((header ++ (body ++ tail)) ∷ ss)
        ≡ on_body unmarshal d (tail ∷ ss, all_of body)
  unfolding decode unless_terminal
  read_frame header body live four size fits nonempty =
      ap (λ t. unless_terminal unmarshal t d ((header ++ (body ++ tail)) ∷ ss)) live
      ∙ (ap (on_header unmarshal d) (read_full-append header (body ++ tail) ss 4 four)
          ∙ on_header-reads header body size fits nonempty)

-- Every byte is one of ASCII, as in each type of a message.
unfoldable pub is_ascii : Text → Bool
is_ascii t = all (λ c. ltb c 128) t

-- What the JSON package is relied on for. What it writes is not empty. It compacts and escapes a raw
-- payload, and replaces bytes of a string that are not UTF-8; an envelope whose kind is ASCII and whose
-- payload is compact already, as one that json.Marshal gave, is read back as it was written.
pub record IsJson (marshal : Envelope → Option Text) (unmarshal : Text → Option Envelope)
    (compact : Text → Text) : Type 0 where
  pub nonempty : (env : Envelope) (body : Text) → marshal env ≡ some body → length body ≢ 0
  pub reads_back :
      (env : Envelope) (body : Text)
      → is_ascii env.kind ≡ true
      → compact env.payload ≡ env.payload
      → marshal env ≡ some body
      → unmarshal body ≡ some env

-- With a JSON form that is not empty and reads back an envelope of an ASCII kind and a compact payload:
-- where EncodeEnvelope gives a frame for such an envelope, of a version that this release speaks, a
-- fresh decoder that meets the frame, with any bytes behind it, gives the envelope as it was stamped,
-- keeps its state, and has read the frame and not one byte more.
pub decode-encode_envelope :
    (marshal : Envelope → Option Text) (unmarshal : Text → Option Envelope) (compact : Text → Text)
    (env : Envelope) (bytes tail : Text) (ss : Reader)
    → IsJson marshal unmarshal compact
    → is_ascii env.kind ≡ true
    → compact env.payload ≡ env.payload
    → encode_envelope marshal env ≡ framed bytes
    → validate_envelope_version (stamped env).v ≡ true
    → decode unmarshal new_decoder ((bytes ++ tail) ∷ ss)
      ≡ record { decoder = new_decoder; reader = tail ∷ ss; result = decoded (stamped env) }
unfolding encode_envelope
decode-encode_envelope marshal unmarshal compact env bytes tail ss json ascii packed h version =
    let (kind, h1) = framing (is_empty env.kind) _ _ bytes h in
    let (payload, h2) = framing (no_payload env.payload) _ _ bytes h1 in
    let (body, written, (fits, control, same)) =
      framed_bytes-Frames (stamped env) (marshal (stamped env)) bytes h2 in
    let header = put_uint32 (length body) in
    let at : (header ++ body) ++ tail ≡ header ++ (body ++ tail) = unfold put_uint32 in refl in
    let small : length body ≤ new_decoder.max_message_size = fits in
    let as_framed = ap (λ b. decode unmarshal new_decoder ((b ++ tail) ∷ ss)) same in
    let regrouped = ap (λ b. decode unmarshal new_decoder (b ∷ ss)) at in
    as_framed
    ∙ (regrouped
        ∙ (read_frame unmarshal new_decoder tail ss (stamped env) header body refl
              (length-put_uint32 (length body)) (uint32-put_uint32 (length body) fits) small
              (json.nonempty (stamped env) body written)
            ∙ on_body-accepts unmarshal new_decoder tail ss (stamped env) body
                (json.reads_back (stamped env) body (ap is_ascii (stamped-kind env) ∙ ascii)
                  (ap compact (stamped-payload env) ∙ (packed ∙ sym (stamped-payload env))) written)
                (ap is_empty (stamped-kind env) ∙ kind)
                (ap no_payload (stamped-payload env) ∙ payload) version control))

-- The loop over the writer: where it reports no error, every byte of the frame was written, once and in
-- order, however the writer split them. The fuel is at least the length of the frame.
pub write_frame-writes :
    (io : ℕ → ℕ → ℕ × Bool) (k fuel : ℕ) (frame : Text)
    → length frame ≤ fuel
    → (write_frame io k fuel frame).1 ≡ none
    → (write_frame io k fuel frame).0 ≡ frame
unfolding write_frame
write_frame-writes io k fuel [] enough = λ h. refl
write_frame-writes io k zero (b ∷ bs) enough = absurd (omega (arith, enough))
write_frame-writes io k (suc fuel) (b ∷ bs) enough =
    let n = (io k (length (b ∷ bs))).0 in
    let frame = b ∷ bs in
    let rest = write_frame io (k + 1) fuel (drop n frame) in
    let Whole = λ (end : Text × Option CodecError). end.1 ≡ none → end.0 ≡ frame in
    if_cases Whole (ltb (length frame) n) (λ _ h. absurd cc)
      (λ _.
        if_cases Whole (io k (length (b ∷ bs))).1 (λ _ h. absurd cc)
          (λ _.
            if_cases Whole (n == 0) (λ _ h. absurd cc)
              (λ some_taken h.
                let less : length (drop n frame) ≤ fuel =
                  omega (arith, length-drop n frame, enough, not_zero n some_taken) in
                ap (λ t. take n frame ++ t)
                  (write_frame-writes io (k + 1) fuel (drop n frame) less h)
                ∙ take-append-drop n frame)))

-- A writer that works: it takes at least a byte of what it is given, and no more than that.
pub record IsWriter (io : ℕ → ℕ → ℕ × Bool) : Type 0 where
  pub takes : (k m : ℕ) → 1 ≤ m → 1 ≤ (io k m).0
  pub within : (k m : ℕ) → (io k m).0 ≤ m
  pub works : (k m : ℕ) → (io k m).1 ≡ false

one_byte : (b : ℕ) (bs : Text) → 1 ≤ length (b ∷ bs)
one_byte b bs = omega arith

-- Over a writer that takes at least a byte and at most what it is given, and does not fail, the loop
-- ends without an error for every frame: the fuel of its length is enough.
pub write_frame-succeeds :
    (io : ℕ → ℕ → ℕ × Bool) (k fuel : ℕ) (frame : Text)
    → IsWriter io
    → length frame ≤ fuel
    → (write_frame io k fuel frame).1 ≡ none
unfolding write_frame
write_frame-succeeds io k fuel [] writer enough = refl
write_frame-succeeds io k zero (b ∷ bs) writer enough = absurd (omega (arith, enough))
write_frame-succeeds io k (suc fuel) (b ∷ bs) writer enough =
    let m = length (b ∷ bs) in
    let n = (io k m).0 in
    let taken : 1 ≤ n = writer.takes k m (one_byte b bs) in
    let fits : ltb m n ≡ false = lt_false m n (writer.within k m) in
    let fine = writer.works k m in
    let some_taken : (n == 0) ≡ false = positive n (λ e. omega (arith, taken, e)) in
    let less : length (drop n (b ∷ bs)) ≤ fuel =
      omega (arith, length-drop n (b ∷ bs), enough, taken) in
    rw (fits, fine, some_taken) (write_frame-succeeds io (k + 1) fuel (drop n (b ∷ bs)) writer less)
