-- ===== src/Protocol/Codec/Tests.antt =====
-- internal/protocol/codec.go: a heartbeat in a small form instead of JSON, and a writer of three bytes at a time.
use tantu.Prelude.{
  ℕ, ◌≤◌, ◌≡◌, ◌≢◌, refl, ℤ, pos, negsuc, take, drop, Bool, true, false, Option, none, some, [],
  ◌∷◌, ◌++◌, ltb, if◌then◌else◌, length, arith, if_cases, subst, ◌==◌,
}
use tantu.Text.{Text, codes, ◌=t◌}
use tantu.Protocol.Codec.{
  Envelope, too_large, framed, encode_envelope, Decoder, new_decoder, decode, decoded, stamped,
  validate_envelope_version, put_uint32, is_control_message_type, framed_bytes,
}
use tantu.Protocol.Codec.Wire.{
  take_front, drop_front, is_ascii, IsJson, decode-encode_envelope, IsWriter,
}
use tantu.Protocol.Codec.Sync.{InStep, decode-InStep}

-- Without its spaces.
abbrev compact : Text → Text
compact [] = []
compact (c ∷ t) = let rest = compact t in if c == b' ' then rest else c ∷ rest

-- The version, the length of the kind, and the two texts, the payload compacted.
abbrev write_out : ℤ → Text → Text → Option Text
write_out (pos n) kind payload = some (n ∷ length kind ∷ (kind ++ compact payload))
write_out (negsuc n) kind payload = none

abbrev marshal : Envelope → Option Text
marshal env = write_out env.v env.kind env.payload

abbrev unmarshal : Text → Option Envelope
unmarshal [] = none
unmarshal (n ∷ []) = none
unmarshal (n ∷ k ∷ rest) = some (record { v = pos n; kind = take k rest; payload = drop k rest })

write_out_nonempty :
    (v : ℤ) (kind payload body : Text) → write_out v kind payload ≡ some body → length body ≢ 0
write_out_nonempty (pos n) kind payload [] h = λ e. cc
write_out_nonempty (pos n) kind payload (b ∷ body) h = λ e. omega (arith, e)
write_out_nonempty (negsuc n) kind payload body h = λ e. cc

write_out_read :
    (v : ℤ) (kind payload body : Text)
    → compact payload ≡ payload
    → write_out v kind payload ≡ some body
    → unmarshal body ≡ some (record { v = v; kind = kind; payload = payload })
write_out_read (pos n) kind payload body packed h =
    let whole : n ∷ length kind ∷ (kind ++ compact payload) ≡ body = cc in
    let written : n ∷ length kind ∷ (kind ++ payload) ≡ body =
      subst (λ t. n ∷ length kind ∷ (kind ++ t) ≡ body) packed whole in
    subst (λ b. unmarshal b ≡ some (record { v = pos n; kind = kind; payload = payload })) written
      (rw (take_front kind payload, drop_front kind payload) refl)
write_out_read (negsuc n) kind payload body packed h = absurd cc

marshal-IsJson : IsJson marshal unmarshal compact
marshal-IsJson = record {
  nonempty = λ env body h. write_out_nonempty env.v env.kind env.payload body h;
  reads_back = λ env body ascii packed h. write_out_read env.v env.kind env.payload body packed h;
}

abbrev beat : Envelope
beat = record { v = pos 0; kind = codes "heartbeat"; payload = codes "{}" }

abbrev beat_body : Text
beat_body = 1 ∷ 9 ∷ (codes "heartbeat{}")

beat_framed : encode_envelope marshal beat ≡ framed (0 ∷ 0 ∷ 0 ∷ 13 ∷ beat_body)
unfolding encode_envelope framed_bytes stamped put_uint32 is_control_message_type ◌=t◌
beat_framed = refl

beat_ascii : is_ascii beat.kind ≡ true
unfolding is_ascii
beat_ascii = refl

speaks : validate_envelope_version (stamped beat).v ≡ true
unfolding validate_envelope_version stamped
speaks = refl

decode-encode_envelope_example :
    decode unmarshal new_decoder (((0 ∷ 0 ∷ 0 ∷ 13 ∷ beat_body) ++ (0 ∷ 0 ∷ [])) ∷ [])
    ≡ record { decoder = new_decoder; reader = (0 ∷ 0 ∷ []) ∷ []; result = decoded (stamped beat) }
decode-encode_envelope_example =
    decode-encode_envelope marshal unmarshal compact beat (0 ∷ 0 ∷ 0 ∷ 13 ∷ beat_body) (0 ∷ 0 ∷ [])
      [] marshal-IsJson beat_ascii refl beat_framed speaks

-- At most three bytes at a time.
abbrev by_three : ℕ → ℕ → ℕ × Bool
by_three k m = (if ltb m 3 then m else 3, false)

by_three_takes : (k m : ℕ) → 1 ≤ m → 1 ≤ (by_three k m).0
by_three_takes k m h = if_cases (λ n. 1 ≤ n) (ltb m 3) (λ _. h) (λ _. omega arith)

by_three_within : (k m : ℕ) → (by_three k m).0 ≤ m
by_three_within k m = if_cases (λ n. n ≤ m) (ltb m 3) (λ _. omega arith) (λ e. ground arith)

by_three-IsWriter : IsWriter by_three
by_three-IsWriter = record { takes = by_three_takes; within = by_three_within; works = λ k m. refl }

decode-InStep_example :
    InStep ((0 ∷ 0 ∷ []) ∷ []) (decode unmarshal new_decoder ((0 ∷ 0 ∷ []) ∷ []))
decode-InStep_example = decode-InStep unmarshal new_decoder ((0 ∷ 0 ∷ []) ∷ [])

abbrev latched : Decoder
latched = record { max_message_size = 100; terminal_err = some too_large }
