-- ===== src/Drop/Receiver/Safety.antt =====
-- What the chunk loop guarantees against any sender, and any answer of the staging file.
use mathlib.Core.List.{append_assoc}
use tantu.Prelude.{
  ℕ, ◌+◌, ◌≡◌, refl, ap, ◌⊎◌, inl, inr, Bool, true, false, not, ◌&&◌, Option, none, some, List, [],
  ◌∷◌, ◌++◌, arith, length, take, drop, length-append, Option-cases, if_cases, pos, pos_part,
  is_positive, ◌==◌, ltb, ◌%◌, ◌/◌, length-take,
}
use tantu.Text.{Text, is_empty, equal_fold}
use tantu.Drop.Quota.{TransferQuota, TransferLease, add_bytes, Grown, grown, denied, QuotaError}
use tantu.Drop.Types.{DropData, text, kind_eq, max_chunk_size}
use tantu.Drop.Sender.{chunk_size_of}
use tantu.Drop.Receiver.{
  Session, Receiving, Step, continues, ends, stops, Outcome, finished, failed, IoAnswer, written,
  touch_error, sync_error, short_write, FromSender, heartbeat, garbled, context_done, chunk, other,
  over_quota, refusal_of, store, write_chunk, write_at, with_lease, grow_lease, touch_fails,
  accept_bytes, final_refusal, advance, on_chunk, receive_chunks, receive_from, is_sha256_hex, over,
}

-- Every limit of the session holds for a count of bytes.
pub record IsBounded (c : Session) (n : ℕ) : Type 0 where
  pub declared : over (pos_part c.meta.size) n ≡ false
  pub within : over c.max_size n ≡ false
  pub text_within : (kind_eq c.meta.kind text && over c.max_text_size n) ≡ false

-- The count is that of the hashed bytes, and they are what the file begins with; a suppressed
-- duplicate writes to no file.
pub record IsSound (c : Session) (s : Receiving) : Type 0 where
  pub bounded : IsBounded c s.total
  pub counted : length s.hashed ≡ s.total
  pub filed : c.duplicate ≡ false → take s.total s.file ≡ s.hashed

take_exact : (xs ys : Text) → take (length xs) (xs ++ ys) ≡ xs
take_exact [] ys = refl
take_exact (x ∷ xs) ys = ap (◌∷◌ x) (take_exact xs ys)

-- Behind a write at the end of a prefix the prefix is longer by the bytes written.
take-write_at :
    (file : Text) (at : ℕ) (bytes prefix : Text)
    → take at file ≡ prefix
    → length prefix ≡ at
    → take (at + length bytes) (write_at file at bytes) ≡ prefix ++ bytes
unfolding write_at
take-write_at file at bytes prefix e l =
    let tail = drop (at + length bytes) file in
    let count : at + length bytes ≡ length (prefix ++ bytes) =
      omega (arith, length-append prefix bytes) in
    rw (e, ← append_assoc prefix bytes tail, count)
      (take_exact (prefix ++ bytes) (drop (length (prefix ++ bytes)) file))

-- What a step may leave. Where it stops, the count and so the limits are as before the chunk, or that
-- of the whole chunk.
abbrev pub StepSound : (Text → Text) → Session → DropData → Step → Type 0
StepSound digest c d (continues s) = IsSound c s
StepSound digest c d (ends s) =
    IsSound c s
    × (d.final ≡ true)
    × (is_sha256_hex d.sha256 ≡ true)
    × (equal_fold (digest s.hashed) d.sha256 ≡ true)
    × (c.duplicate ≡ true → equal_fold (digest s.hashed) c.tombstone_sha ≡ true)
    × (is_positive c.meta.size ≡ true → s.total ≡ pos_part c.meta.size)
StepSound digest c d (stops e s) = IsBounded c s.total

grow_lease_cases :
    (P : Step → Type 0) (l : Option (TransferQuota × TransferLease)) (n : ℕ) (s : Receiving)
    (k : Receiving → Step)
    → ((l' : Option (TransferQuota × TransferLease)) → P (k (record s { lease = l' })))
    → ((e : QuotaError) → P (stops (over_quota e) s))
    → P (grow_lease l n s k)
unfolding grow_lease
grow_lease_cases P none n s k takes denies = takes s.lease
grow_lease_cases P (some (q, l)) n s k takes denies = go (add_bytes q l (pos n))
  where
    go : (g : Grown) → P (with_lease g s k)
    go (grown q' l') = takes (some (q', l'))
    go (denied e) = denies e

module _ (digest : Text → Text) (c : Session) (d : DropData) where
  write_chunk-StepSound :
      (answer : IoAnswer) (dup : Bool) (s : Receiving)
      → c.duplicate ≡ dup
      → IsSound c s
      → IsBounded c (s.total + length d.bytes)
      → StepSound digest c d (write_chunk answer dup s d)
  unfolding write_chunk store
  write_chunk-StepSound answer true s e v room = record {
    bounded = room;
    counted = omega (arith, length-append s.hashed d.bytes, v.counted);
    filed = λ f. cc;
  }
  write_chunk-StepSound written false s e v room = record {
    bounded = room;
    counted = omega (arith, length-append s.hashed d.bytes, v.counted);
    filed = λ f. take-write_at s.file s.total d.bytes s.hashed (v.filed f) v.counted;
  }
  write_chunk-StepSound touch_error false s e v room = v.bounded
  write_chunk-StepSound sync_error false s e v room = v.bounded
  write_chunk-StepSound (short_write n) false s e v room = v.bounded

  pub accept_bytes-StepSound :
      (answer : IoAnswer) (s : Receiving)
      → IsSound c s
      → IsBounded c (s.total + length d.bytes)
      → StepSound digest c d (accept_bytes answer c.duplicate s d)
  unfolding accept_bytes
  accept_bytes-StepSound answer s v room =
      if_cases (StepSound digest c d) (is_empty d.bytes) (λ _. v)
        (λ _.
          if_cases (StepSound digest c d) (touch_fails answer c.duplicate) (λ _. v.bounded)
            (λ _.
              grow_lease_cases (StepSound digest c d) s.lease (length d.bytes) s
                (λ s'. write_chunk answer c.duplicate s' d)
                (λ l'.
                  write_chunk-StepSound answer c.duplicate (record s { lease = l' }) refl
                    (record { bounded = v.bounded; counted = v.counted; filed = v.filed }) room)
                (λ e. v.bounded)))

  refusal_of-IsBounded :
      (s : Receiving) → refusal_of c s d ≡ none → IsBounded c (s.total + length d.bytes)
  unfolding refusal_of
  refusal_of-IsBounded s h = record {
    declared = ground arith;
    within = ground arith;
    text_within = ground arith;
  }

  final_refusal_sound :
      (s : Receiving)
      → final_refusal digest c s d ≡ none
      → (is_sha256_hex d.sha256 ≡ true)
        × (equal_fold (digest s.hashed) d.sha256 ≡ true)
        × (c.duplicate ≡ true → equal_fold (digest s.hashed) c.tombstone_sha ≡ true)
        × (is_positive c.meta.size ≡ true → s.total ≡ pos_part c.meta.size)
  unfolding final_refusal
  final_refusal_sound s h = (ground arith, ground arith, ground arith, ground arith)

  advance-StepSound :
      (st : Step) → StepSound digest c d st → StepSound digest c d (advance digest c d st)
  unfolding advance
  advance-StepSound (stops e s) v = v
  advance-StepSound (ends s) v = v
  advance-StepSound (continues s) v =
      let s' : Receiving = record s { expected_index = s.expected_index + 1 } in
      let v' : IsSound c s' = record {
        bounded = v.bounded;
        counted = v.counted;
        filed = v.filed;
      } in
      if_cases (StepSound digest c d) d.final
        (λ last. elim (Option-cases (final_refusal digest c s' d)) [
          | inl passes ↦
              let (hex, same, tomb, size) = final_refusal_sound s' passes in
              rw passes (v', last, hex, same, tomb, size)
          | inr (e, fails) ↦ rw fails v'.bounded
        ])
        (λ _. v')

  on_chunk-StepSound :
      (answer : IoAnswer) (s : Receiving)
      → IsSound c s
      → StepSound digest c d (on_chunk digest c answer s d)
  unfolding on_chunk
  on_chunk-StepSound answer s v = elim (Option-cases (refusal_of c s d)) [
    | inl passes ↦
        rw (passes, on_chunk)
          (advance-StepSound _ (accept_bytes-StepSound answer s v (refusal_of-IsBounded s passes)))
    | inr (e, fails) ↦ rw (fails, on_chunk) v.bounded
  ]

-- A chunk stands among the messages.
abbrev pub IsAmong : DropData → List FromSender → Type 0
IsAmong d [] = ⊥
IsAmong d (m ∷ ms) = (m ≡ chunk d) ⊎ IsAmong d ms

-- What a transfer that ended well shows.
pub record IsVerified (digest : Text → Text) (c : Session) (inbound : List FromSender)
    (s : Receiving) : Type 0 where
  pub sound : IsSound c s
  pub last : DropData
  pub sent : IsAmong last inbound
  pub is_final : last.final ≡ true
  pub hex : is_sha256_hex last.sha256 ≡ true
  pub digests : equal_fold (digest s.hashed) last.sha256 ≡ true
  pub recorded : c.duplicate ≡ true → equal_fold (digest s.hashed) c.tombstone_sha ≡ true
  pub complete : is_positive c.meta.size ≡ true → s.total ≡ pos_part c.meta.size

abbrev pub OutcomeSound : (Text → Text) → Session → List FromSender → Outcome → Type 0
OutcomeSound digest c inbound (finished s) = IsVerified digest c inbound s
OutcomeSound digest c inbound (failed e s) = IsBounded c s.total

OutcomeSound-later :
    (digest : Text → Text) (c : Session) (m : FromSender) (inbound : List FromSender) (o : Outcome)
    → OutcomeSound digest c inbound o
    → OutcomeSound digest c (m ∷ inbound) o
OutcomeSound-later digest c m inbound (failed e s) v = v
OutcomeSound-later digest c m inbound (finished s) v = record {
  sound = v.sound;
  last = v.last;
  sent = inr v.sent;
  is_final = v.is_final;
  hex = v.hex;
  digests = v.digests;
  recorded = v.recorded;
  complete = v.complete;
}

pub receive_chunks_sound :
    (digest : Text → Text) (c : Session) (io : ℕ → IoAnswer) (s : Receiving)
    (inbound : List FromSender)
    → IsSound c s
    → OutcomeSound digest c inbound (receive_chunks digest c io s inbound)
unfolding receive_chunks
receive_chunks_sound digest c io s [] v = v.bounded
receive_chunks_sound digest c io s (heartbeat ∷ rest) v =
    OutcomeSound-later digest c heartbeat rest _ (receive_chunks_sound digest c io s rest v)
receive_chunks_sound digest c io s (garbled ∷ rest) v = v.bounded
receive_chunks_sound digest c io s (context_done ∷ rest) v = v.bounded
receive_chunks_sound digest c io s (other t ∷ rest) v = v.bounded
receive_chunks_sound digest c io s (chunk d ∷ rest) v =
    go (on_chunk digest c (io d.chunk_index) s d)
      (on_chunk-StepSound digest c d (io d.chunk_index) s v)
      (λ s' v'.
        OutcomeSound-later digest c (chunk d) rest _ (receive_chunks_sound digest c io s' rest v'))
  where
    go :
        (st : Step)
        → StepSound digest c d st
        → ((s' : Receiving)
            → IsSound c s'
            → OutcomeSound digest c (chunk d ∷ rest) (receive_chunks digest c io s' rest))
        → OutcomeSound digest c (chunk d ∷ rest) (elim st [
          | continues s' ↦ receive_chunks digest c io s' rest
          | ends s' ↦ finished s'
          | stops e s' ↦ failed e s'
        ])
    go (continues s') w later = later s' w
    go (ends s') (w, last, hex, same, tomb, size) later = record {
      sound = w;
      last = d;
      sent = inl refl;
      is_final = last;
      hex = hex;
      digests = same;
      recorded = tomb;
      complete = size;
    }
    go (stops e s') w later = w

-- Whatever the sender sends and the staging file answers, from an offset within the limits: the bytes
-- counted never exceed a limit that is set, also where the transfer fails. A transfer ends well only
-- at a final chunk of the sender with a valid SHA-256 that is the digest of the hashed bytes, and at
-- the declared size if one is declared; the file then begins with exactly those bytes, and for a
-- duplicate the digest is the recorded one.
pub receive_from_sound :
    (digest : Text → Text) (c : Session) (io : ℕ → IoAnswer) (rewindable : Bool) (file : Text)
    (offset : ℕ) (lease : Option (TransferQuota × TransferLease)) (inbound : List FromSender)
    → IsBounded c offset
    → OutcomeSound digest c inbound (receive_from digest c io rewindable file offset lease inbound)
unfolding receive_from
receive_from_sound digest c io rewindable file offset lease inbound room =
    let size = chunk_size_of c.meta in
    let P = OutcomeSound digest c inbound in
    if_cases P (ltb max_chunk_size size) (λ _. room)
      (λ _.
        if_cases P (ltb 0 offset && not (offset % size == 0)) (λ _. room)
          (λ _.
            if_cases P (ltb 0 offset && not rewindable) (λ _. room)
              (λ _.
                if_cases P (ltb (length file) offset) (λ _. room)
                  (λ long.
                    receive_chunks_sound digest c io
                      (record {
                        expected_index = offset / size;
                        total = offset;
                        hashed = take offset file;
                        file = file;
                        lease = lease;
                      })
                      inbound
                      (record {
                        bounded = room;
                        counted = length-take offset file (ground arith);
                        filed = λ _. refl;
                      })))))
