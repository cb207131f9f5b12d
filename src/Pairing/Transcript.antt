-- ===== src/Pairing/Transcript.antt =====
-- internal/pairing/cert.go, TranscriptSAS: the code that both users compare. The digest is a parameter;
-- a word is its index in the list of words.
use mathlib.Core.List.{append_assoc, append-nil}
use tantu.Prelude.{
  ℕ, zero, suc, ◌+◌, ◌-◌, ◌*◌, ◌/◌, ◌%◌, ◌^◌, ◌<◌, ◌≡◌, ◌≢◌, refl, sym, ◌∙◌, ap, true, false, List,
  [], ◌∷◌, ◌++◌, arith, length, if◌then◌else◌, if_cases, Bool-cases, inl, inr, ◌⊎◌, none, some,
  get_elem?,
}
use tantu.Text.{Text, codes, ◌=t◌, to_lower, trim_space, text_ltb}
use tantu.Text.Laws.{eq_iff}
use tantu.Protocol.Codec.{put_uint32, uint32}

-- `binary.BigEndian.PutUint32` takes the length modulo 2^32.
unfoldable pub length_prefixed : Text → Text
unfolding put_uint32
length_prefixed b = put_uint32 (length b) ++ b

-- "tantu/pairing-sas/v2\x00"
abbrev pub sas_domain : Text
sas_domain = codes "tantu/pairing-sas/v2" ++ (0 ∷ [])

abbrev in_order : Text → Text → Text → Text → Text
in_order fp nonce fp' nonce' =
    sas_domain
    ++ (length_prefixed fp
        ++ (length_prefixed nonce ++ (length_prefixed fp' ++ length_prefixed nonce')))

-- What is hashed: the smaller fingerprint first, each nonce behind its own.
unfoldable pub transcript : Text → Text → Text → Text → Text
unfolding text_ltb length_prefixed
transcript local peer local_nonce peer_nonce =
    let a = to_lower (trim_space local) in
    let b = to_lower (trim_space peer) in
    if text_ltb b a
    then in_order b peer_nonce a local_nonce
    else in_order a local_nonce b peer_nonce

abbrev byte_at : Text → ℕ → ℕ
byte_at sum i = elim (get_elem? sum i) [ none ↦ 0 | some b ↦ b ]

-- The nine bits of the digest that choose word `i`
unfoldable pub word_index : Text → ℕ → ℕ
word_index sum i =
    let offset = i * 9 in
    (byte_at sum (offset / 8) * 256 + byte_at sum (offset / 8 + 1))
    / 2 ^ (16 - 9 - offset % 8)
    % 512

abbrev pub first_words : Text → ℕ → List ℕ
first_words sum zero = []
first_words sum (suc n) = first_words sum n ++ (word_index sum n ∷ [])

module _ (digest : Text → Text) where
  unfoldable pub transcript_sas : Text → Text → Text → Text → List ℕ
  unfolding transcript word_index
  transcript_sas local peer local_nonce peer_nonce =
      first_words (digest (transcript local peer local_nonce peer_nonce)) 6

text_ltb_total : (s t : Text) → (s =t t) ≡ false → text_ltb s t ≡ false → text_ltb t s ≡ true
unfolding text_ltb ◌=t◌
text_ltb_total [] [] n e = absurd (ground (arith, n))
text_ltb_total [] (b ∷ t) n e = absurd (ground (arith, e))
text_ltb_total (a ∷ s) [] n e = refl
text_ltb_total (a ∷ s) (b ∷ t) n e = ground (arith, n, e, text_ltb_total s t)

text_ltb_asym : (s t : Text) → text_ltb s t ≡ true → text_ltb t s ≡ false
unfolding text_ltb
text_ltb_asym [] [] e = refl
text_ltb_asym [] (b ∷ t) e = refl
text_ltb_asym (a ∷ s) [] e = absurd (ground (arith, e))
text_ltb_asym (a ∷ s) (b ∷ t) e = ground (arith, e, text_ltb_asym s t)

-- The two sides hash the same bytes, where their fingerprints differ.
pub transcript_sym :
    (fp fp' nonce nonce' : Text)
    → to_lower (trim_space fp) ≢ to_lower (trim_space fp')
    → transcript fp fp' nonce nonce' ≡ transcript fp' fp nonce' nonce
unfolding transcript
transcript_sym fp fp' nonce nonce' n =
    let a = to_lower (trim_space fp) in
    let b = to_lower (trim_space fp') in
    elim (Bool-cases (text_ltb b a)) [
      | inl e ↦ rw (e, text_ltb_asym b a e) refl
      | inr e ↦ rw (e, text_ltb_total b a (ground (arith, n, eq_iff b a)) e) refl
    ]

-- The lengths that 32 bits can write.
abbrev pub Fits32 : Text → Type 0
Fits32 t = length t < 2 ^ 32

abbrev first_byte : Text → ℕ
first_byte [] = 0
first_byte (a ∷ s) = a

abbrev other_bytes : Text → Text
other_bytes [] = []
other_bytes (a ∷ s) = s

append_cancel : (s t x y : Text) → length s ≡ length t → s ++ x ≡ t ++ y → (s ≡ t) × (x ≡ y)
append_cancel [] [] x y l e = (refl, e)
append_cancel [] (b ∷ t) x y l e = absurd (omega (arith, l))
append_cancel (a ∷ s) [] x y l e = absurd (omega (arith, l))
append_cancel (a ∷ s) (b ∷ t) x y l e =
    let (same, rest) = append_cancel s t x y (omega (arith, l)) (ap other_bytes e) in
    (rw (ap first_byte e, same) refl, rest)

uint32-put : (n : ℕ) → n < 2 ^ 32 → uint32 (put_uint32 n) ≡ n
unfolding uint32 put_uint32
uint32-put n h = omega arith

length-put : (n m : ℕ) → length (put_uint32 n) ≡ length (put_uint32 m)
unfolding put_uint32
length-put n m = refl

length_prefixed-cancel :
    (s t x y : Text)
    → Fits32 s
    → Fits32 t
    → length_prefixed s ++ x ≡ length_prefixed t ++ y
    → (s ≡ t) × (x ≡ y)
unfolding length_prefixed
length_prefixed-cancel s t x y hs ht e =
    let n = length s in
    let m = length t in
    let apart : put_uint32 n ++ (s ++ x) ≡ put_uint32 m ++ (t ++ y) =
      sym (append_assoc (put_uint32 n) s x) ∙ e ∙ append_assoc (put_uint32 m) t y in
    let (sizes, rest) =
      append_cancel (put_uint32 n) (put_uint32 m) (s ++ x) (t ++ y) (length-put n m) apart in
    append_cancel s t x y (sym (uint32-put n hs) ∙ ap uint32 sizes ∙ uint32-put m ht) rest

-- The hashed bytes determine what went into them, in order.
in_order-injective :
    (a n b m a' n' b' m' : Text)
    → Fits32 a × Fits32 n × Fits32 b × Fits32 m
    → Fits32 a' × Fits32 n' × Fits32 b' × Fits32 m'
    → in_order a n b m ≡ in_order a' n' b' m'
    → (a ≡ a') × (n ≡ n') × (b ≡ b') × (m ≡ m')
in_order-injective a n b m a' n' b' m' h h' e =
    let body = (append_cancel sas_domain sas_domain _ _ refl e).1 in
    let (p, body') = length_prefixed-cancel a a' _ _ h.0 h'.0 body in
    let (q, body'') = length_prefixed-cancel n n' _ _ h.1 h'.1 body' in
    let (r, last) = length_prefixed-cancel b b' _ _ h.2 h'.2 body'' in
    let closed = append-nil (length_prefixed m) ∙ last ∙ sym (append-nil (length_prefixed m')) in
    (p, q, r, (length_prefixed-cancel m m' [] [] h.3 h'.3 closed).0)

-- The two contributions to a transcript, whichever side they are of.
abbrev pub SameSides : Text → Text → Text → Text → Text → Text → Text → Text → Type 0
SameSides a b n m a' b' n' m' =
    ((a ≡ a') × (b ≡ b') × (n ≡ n') × (m ≡ m')) ⊎ ((a ≡ b') × (b ≡ a') × (n ≡ m') × (m ≡ n'))

-- Transcripts that are hashed alike have the same two fingerprints, each with the same nonce, where the
-- lengths fit 32 bits.
pub transcript-SameSides :
    (a b n m a' b' n' m' : Text)
    → Fits32 (to_lower (trim_space a)) × Fits32 n × Fits32 (to_lower (trim_space b)) × Fits32 m
    → Fits32 (to_lower (trim_space a')) × Fits32 n' × Fits32 (to_lower (trim_space b')) × Fits32 m'
    → transcript a b n m ≡ transcript a' b' n' m'
    → SameSides
        (to_lower (trim_space a))
        (to_lower (trim_space b))
        n
        m
        (to_lower (trim_space a'))
        (to_lower (trim_space b'))
        n'
        m'
unfolding transcript
transcript-SameSides a b n m a' b' n' m' h h' e =
    let k = to_lower (trim_space a) in
    let l = to_lower (trim_space b) in
    let k' = to_lower (trim_space a') in
    let l' = to_lower (trim_space b') in
    if_cases (λ t. t ≡ transcript a' b' n' m' → SameSides k l n m k' l' n' m') (text_ltb l k)
      (λ _.
        if_cases (λ t. in_order l m k n ≡ t → SameSides k l n m k' l' n' m') (text_ltb l' k')
          (λ _ f.
            let (x, y, z, w) =
              in_order-injective l m k n l' m' k' n' (h.2, h.3, h.0, h.1) (h'.2, h'.3, h'.0, h'.1)
                f in
            inl (z, x, w, y))
          (λ _ f.
            let (x, y, z, w) = in_order-injective l m k n k' n' l' m' (h.2, h.3, h.0, h.1) h' f in
            inr (z, x, w, y)))
      (λ _.
        if_cases (λ t. in_order k n l m ≡ t → SameSides k l n m k' l' n' m') (text_ltb l' k')
          (λ _ f.
            let (x, y, z, w) =
              in_order-injective k n l m l' m' k' n' h (h'.2, h'.3, h'.0, h'.1) f in
            inr (x, z, y, w))
          (λ _ f.
            let (x, y, z, w) = in_order-injective k n l m k' n' l' m' h h' f in inl (x, z, y, w)))
      e
