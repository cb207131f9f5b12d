-- ===== src/Drop/Receiver/Filed.antt =====
-- internal/drop/receiver.go: what the destination holds of the payload at the end of the chunk loop,
-- whatever the offset. The limits of a session play no part, so they are taken off.
use tantu.Prelude.{
  ℕ, ◌+◌, ◌≡◌, refl, Bool, false, Option, List, [], ◌∷◌, arith, length, take, length-take, if_cases,
  Option-cases, inl, inr, pos, ltb, not, ◌&&◌, ◌==◌, ◌%◌,
}
use tantu.Text.{Text}
use tantu.Drop.Quota.{TransferQuota, TransferLease}
use tantu.Drop.Types.{DropData, max_chunk_size}
use tantu.Drop.Sender.{chunk_size_of}
use tantu.Drop.Receiver.{
  Session, Receiving, Step, continues, ends, stops, Outcome, finished, failed, IoAnswer, FromSender,
  heartbeat, garbled, context_done, chunk, other, refusal_of, accept_bytes, final_refusal, advance,
  on_chunk, receive_chunks, receive_from,
}
use tantu.Drop.Receiver.Safety.{IsBounded, StepSound, accept_bytes-StepSound}

-- The count is that of the hashed bytes, and they are what the file begins with.
pub record IsFiled (c : Session) (s : Receiving) : Type 0 where
  pub counted : length s.hashed ≡ s.total
  pub filed : c.duplicate ≡ false → take s.total s.file ≡ s.hashed

abbrev StepFiled : Session → Step → Type 0
StepFiled c (continues s) = IsFiled c s
StepFiled c (ends s) = IsFiled c s
StepFiled c (stops e s) = Unit

abbrev pub OutcomeFiled : Session → Outcome → Type 0
OutcomeFiled c (finished s) = IsFiled c s
OutcomeFiled c (failed e s) = Unit

abbrev unlimited : Session → Session
unlimited c = record c { meta = record c.meta { size = pos 0 }; max_size = 0; max_text_size = 0 }

no_limit : (a : Bool) → (a && false) ≡ false
no_limit a = ground arith

unlimited-IsBounded : (c : Session) (n : ℕ) → IsBounded (unlimited c) n
unlimited-IsBounded c n = record { declared = refl; within = refl; text_within = no_limit _ }

module _ (digest : Text → Text) (c : Session) (d : DropData) where
  StepSound-filed : (st : Step) → StepSound digest (unlimited c) d st → StepFiled c st
  StepSound-filed (continues s) v = record { counted = v.counted; filed = v.filed }
  StepSound-filed (ends s) v = record { counted = v.0.counted; filed = v.0.filed }
  StepSound-filed (stops e s) v = tt

  accept_bytes-StepFiled :
      (answer : IoAnswer) (s : Receiving)
      → IsFiled c s
      → StepFiled c (accept_bytes answer c.duplicate s d)
  accept_bytes-StepFiled answer s v = StepSound-filed (accept_bytes answer c.duplicate s d) (
      accept_bytes-StepSound digest (unlimited c) d answer s
        (record { bounded = unlimited-IsBounded c s.total; counted = v.counted; filed = v.filed })
        (unlimited-IsBounded c (s.total + length d.bytes)))

  advance-StepFiled : (st : Step) → StepFiled c st → StepFiled c (advance digest c d st)
  unfolding advance
  advance-StepFiled (stops e s) v = tt
  advance-StepFiled (ends s) v = v
  advance-StepFiled (continues s) v =
      let s' : Receiving = record s { expected_index = s.expected_index + 1 } in
      let v' : IsFiled c s' = record { counted = v.counted; filed = v.filed } in
      if_cases (StepFiled c) d.final
        (λ _. elim (Option-cases (final_refusal digest c s' d)) [
          | inl passes ↦ rw passes v'
          | inr (e, fails) ↦ rw fails tt
        ])
        (λ _. v')

  on_chunk-StepFiled :
      (answer : IoAnswer) (s : Receiving) → IsFiled c s → StepFiled c (on_chunk digest c answer s d)
  unfolding on_chunk
  on_chunk-StepFiled answer s v = elim (Option-cases (refusal_of c s d)) [
    | inl passes ↦ rw (passes, on_chunk) (advance-StepFiled _ (accept_bytes-StepFiled answer s v))
    | inr (e, fails) ↦ rw (fails, on_chunk) tt
  ]

receive_chunks-OutcomeFiled :
    (digest : Text → Text) (c : Session) (io : ℕ → IoAnswer) (s : Receiving)
    (inbound : List FromSender)
    → IsFiled c s
    → OutcomeFiled c (receive_chunks digest c io s inbound)
unfolding receive_chunks
receive_chunks-OutcomeFiled digest c io s [] v = tt
receive_chunks-OutcomeFiled digest c io s (heartbeat ∷ rest) v =
    receive_chunks-OutcomeFiled digest c io s rest v
receive_chunks-OutcomeFiled digest c io s (garbled ∷ rest) v = tt
receive_chunks-OutcomeFiled digest c io s (context_done ∷ rest) v = tt
receive_chunks-OutcomeFiled digest c io s (other t ∷ rest) v = tt
receive_chunks-OutcomeFiled digest c io s (chunk d ∷ rest) v =
    go (on_chunk digest c (io d.chunk_index) s d)
      (on_chunk-StepFiled digest c d (io d.chunk_index) s v)
      (λ s' v'. receive_chunks-OutcomeFiled digest c io s' rest v')
  where
    go :
        (st : Step)
        → StepFiled c st
        → ((s' : Receiving) → IsFiled c s' → OutcomeFiled c (receive_chunks digest c io s' rest))
        → OutcomeFiled c (elim st [
          | continues s' ↦ receive_chunks digest c io s' rest
          | ends s' ↦ finished s'
          | stops e s' ↦ failed e s'
        ])
    go (continues s') w later = later s' w
    go (ends s') w later = w
    go (stops e s') w later = tt

-- From any offset, where the data phase ends well the destination begins with exactly the hashed bytes.
pub receive_from-OutcomeFiled :
    (digest : Text → Text) (c : Session) (io : ℕ → IoAnswer) (rewindable : Bool) (file : Text)
    (offset : ℕ) (lease : Option (TransferQuota × TransferLease)) (inbound : List FromSender)
    → OutcomeFiled c (receive_from digest c io rewindable file offset lease inbound)
unfolding receive_from
receive_from-OutcomeFiled digest c io rewindable file offset lease inbound =
    let size = chunk_size_of c.meta in
    let P = OutcomeFiled c in
    if_cases P (ltb max_chunk_size size) (λ _. tt)
      (λ _.
        if_cases P (ltb 0 offset && not (offset % size == 0)) (λ _. tt)
          (λ _.
            if_cases P (ltb 0 offset && not rewindable) (λ _. tt)
              (λ _.
                if_cases P (ltb (length file) offset) (λ _. tt)
                  (λ long. receive_chunks-OutcomeFiled digest c io _ inbound (record {
                    counted = length-take offset file (ground arith);
                    filed = λ _. refl;
                  })))))
