-- ===== src/Protocol/Codec/Sync.antt =====
-- internal/protocol/codec.go, Decode: a decoder stays in step with the frames, or never decodes again.
use tantu.Prelude.{
  ℕ, zero, suc, ◌≤◌, ◌≡◌, ◌≢◌, refl, sym, subst, ap, ◌∙◌, ◌⊎◌, inl, inr, true, not, ◌&&◌, Option,
  none, some, [], ◌∷◌, ◌++◌, ltb, leb, ◌==◌, length, drop, arith, length-take, if_cases,
  take-append-drop,
}
use tantu.Text.{Text, is_empty}
use tantu.Protocol.Codec.{
  max_control_message_size, Envelope, CodecError, is_control_message_type, no_payload, uint32,
  Reader, Got, all_of, only, read_full, Decoder, undecoded, Turn, fail, decode, on_envelope,
  on_body, on_header, unless_terminal, validate_envelope_version,
}

-- Behind a turn, the decoder has latched, or nothing was read but the end of a stretch, or exactly one
-- frame was read: four bytes, and as many as they say.
abbrev pub OneFrame : Reader → Reader → Type 0
OneFrame r r' =
    (header : Text) × (body : Text) × (tail : Text) × (ss : Reader) × (r
      ≡ (header ++ (body ++ tail)) ∷ ss)
    × (length header ≡ 4)
    × (length body ≡ uint32 header)
    × (r' ≡ tail ∷ ss)

abbrev pub InStep : Reader → Turn → Type 0
InStep r t =
    (t.decoder.terminal_err ≢ none)
    ⊎ (((t.result ≡ undecoded CodecError.read_failed) × ((r ≡ t.reader) ⊎ (r ≡ [] ∷ t.reader)))
        ⊎ OneFrame r t.reader)

fail-latches :
    (d : Decoder) (r : Reader) (e : CodecError) → (fail d r e).decoder.terminal_err ≢ none
unfolding fail
fail-latches d r e = λ h. cc

-- What follows a body: an error latches, a success keeps the reader.
abbrev Keeps : Reader → Turn → Type 0
Keeps r t = (t.decoder.terminal_err ≢ none) ⊎ (t.reader ≡ r)

on_envelope-Keeps :
    (d : Decoder) (r : Reader) (n : ℕ) (o : Option Envelope) → Keeps r (on_envelope d r n o)
unfolding on_envelope
on_envelope-Keeps d r n none = inl (fail-latches d r CodecError.unmarshal_failed)
on_envelope-Keeps d r n (some env) =
    if_cases (Keeps r) (is_empty env.kind) (λ _. inl (fail-latches d r CodecError.missing_type))
      (λ _.
        if_cases (Keeps r) (no_payload env.payload)
          (λ _. inl (fail-latches d r CodecError.missing_payload))
          (λ _.
            if_cases (Keeps r) (not (validate_envelope_version env.v))
              (λ _. inl (fail-latches d r CodecError.unsupported_version))
              (λ _.
                if_cases (Keeps r)
                  (is_control_message_type env.kind && ltb max_control_message_size n)
                  (λ _. inl (fail-latches d r CodecError.too_large)) (λ _. inr refl))))

-- A full read splits the first stretch.
abbrev Splits : ℕ → Reader → Reader → Text → Type 0
Splits n r r' bytes =
    (tail : Text) × (ss : Reader) × (r ≡ (bytes ++ tail) ∷ ss)
    × (length bytes ≡ n)
    × (r' ≡ tail ∷ ss)

abbrev Reads : ℕ → Reader → Reader × Got → Type 0
Reads n r (r', all_of bytes) = Splits n r r' bytes
Reads n r (r', only zero) = (r ≡ r') ⊎ (r ≡ [] ∷ r')
Reads n r (r', only (suc k)) = Unit

short-Reads : (n : ℕ) (s : Text) (ss : Reader) → Reads n (s ∷ ss) (ss, only (length s))
short-Reads n [] ss = inr refl
short-Reads n (b ∷ s) ss = tt

le_of_true : (a b : ℕ) → leb a b ≡ true → a ≤ b
le_of_true a b h = ground arith

read_full-Reads : (n : ℕ) (r : Reader) → Reads n r (read_full n r)
unfolding read_full
read_full-Reads n [] = inl refl
read_full-Reads n (s ∷ ss) =
    if_cases (Reads n (s ∷ ss)) (leb n (length s))
      (λ e. (
        drop n s,
        ss,
        ap (λ t. t ∷ ss) (sym (take-append-drop n s)),
        length-take n s (le_of_true n (length s) e),
        refl,
      ))
      (λ _. short-Reads n s ss)

abbrev behind : Text → Reader → Reader
behind header [] = []
behind header (s ∷ ss) = (header ++ s) ∷ ss

module _ (unmarshal : Text → Option Envelope) (d : Decoder) where
  on_body-InStep :
      (r : Reader) (header rest : Text) (ss : Reader) (got : Reader × Got)
      → r ≡ (header ++ rest) ∷ ss
      → length header ≡ 4
      → Reads (uint32 header) (rest ∷ ss) got
      → InStep r (on_body unmarshal d got)
  unfolding on_body
  on_body-InStep r header rest ss (r', only n) at four reads =
      inl (fail-latches d r' CodecError.read_failed)
  on_body-InStep r header rest ss (r', all_of body) at four (tail, ss', split, size, left) =
      elim (on_envelope-Keeps d r' (length body) (unmarshal body)) [
        | inl latched ↦ inl latched
        | inr kept ↦
            inr (
              inr (header, body, tail, ss', at ∙ ap (behind header) split, four, size, kept ∙ left))
      ]

  on_header-InStep :
      (r : Reader) (got : Reader × Got) → Reads 4 r got → InStep r (on_header unmarshal d got)
  unfolding on_header
  on_header-InStep r (r', only zero) reads = inr (inl (refl, reads))
  on_header-InStep r (r', only (suc n)) reads = inl (fail-latches d r' CodecError.read_failed)
  on_header-InStep r (r', all_of header) (rest, ss, split, four, left) =
      if_cases (InStep r) (ltb d.max_message_size (uint32 header))
        (λ _. inl (fail-latches d r' CodecError.too_large))
        (λ _.
          if_cases (InStep r) (uint32 header == 0)
            (λ _. inl (fail-latches d r' CodecError.missing_payload))
            (λ _. on_body-InStep r header rest ss (read_full (uint32 header) r') split four (
              subst (λ (x : Reader). Reads (uint32 header) x (read_full (uint32 header) r')) left
                (read_full-Reads (uint32 header) r'))))

  unless_terminal-InStep :
      (o : Option CodecError) (r : Reader)
      → d.terminal_err ≡ o
      → InStep r (unless_terminal unmarshal o d r)
  unfolding unless_terminal
  unless_terminal-InStep (some e) r h = inl (λ live. cc)
  unless_terminal-InStep none r h = on_header-InStep r (read_full 4 r) (read_full-Reads 4 r)

-- Whatever arrives and wherever reading fails, a call of Decode leaves the decoder latched, or has read
-- nothing, or has read exactly one frame: four bytes, and as many bytes as these say. A decoder that
-- is not latched never stands inside a frame.
pub decode-InStep :
    (unmarshal : Text → Option Envelope) (d : Decoder) (r : Reader)
    → InStep r (decode unmarshal d r)
unfolding decode
decode-InStep unmarshal d r = unless_terminal-InStep unmarshal d d.terminal_err r refl

-- Decode called so many times, and its last answer.
unfoldable pub decode_times : (Text → Option Envelope) → ℕ → Turn → Turn
decode_times unmarshal zero t = t
decode_times unmarshal (suc n) t = decode_times unmarshal n (decode unmarshal t.decoder t.reader)

-- Once latched, a decoder answers every later call with the same error and reads nothing, however
-- often it is called and whatever has arrived meanwhile.
pub decode_latched :
    (unmarshal : Text → Option Envelope) (n : ℕ) (d : Decoder) (r : Reader) (e : CodecError)
    → d.terminal_err ≡ some e
    → decode_times unmarshal n (decode unmarshal d r)
      ≡ record { decoder = d; reader = r; result = undecoded e }
unfolding decode_times decode unless_terminal
decode_latched unmarshal zero d r e h = ap (λ o. unless_terminal unmarshal o d r) h
decode_latched unmarshal (suc n) d r e h =
    let turn : Turn = record { decoder = d; reader = r; result = undecoded e } in
    let first : decode unmarshal d r ≡ turn = ap (λ o. unless_terminal unmarshal o d r) h in
    ap (λ (t : Turn). decode_times unmarshal n (decode unmarshal t.decoder t.reader)) first
    ∙ decode_latched unmarshal n d r e h
