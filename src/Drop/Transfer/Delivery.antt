-- ===== src/Drop/Transfer/Delivery.antt =====
-- Chunks of the sender's shape, taken by the receiver's loop.
use mathlib.Core.List.{append-nil, append_assoc}
use tantu.Prelude.{
  ℕ, zero, suc, ◌+◌, ◌≤◌, ◌≡◌, refl, sym, subst, ◌∙◌, ap, true, false, not, ◌&&◌, ◌||◌, Option,
  none, some, List, [], ◌∷◌, ◌++◌, map, arith, length, take, drop, length-append, ℤ, pos, negsuc,
  pos_part, is_positive, ltb, ◌==◌,
}
use tantu.Text.{Text, is_empty, ◌=t◌, equal_fold}
use tantu.Text.Laws.{eq_self, equal_fold_self}
use tantu.Drop.Quota.{TransferQuota, TransferLease, add_bytes}
use tantu.Drop.Types.{DropData, text, kind_eq}
use tantu.Drop.Sender.{chunk_size_of}
use tantu.Drop.Receiver.{
  Session, Receiving, Step, continues, ends, Outcome, finished, IoAnswer, written, chunk,
  refusal_of, store, write_chunk, write_at, grow_lease, touch_fails, with_lease, accept_bytes,
  final_refusal, advance, on_chunk, receive_chunks, is_sha256_hex, over,
}
use tantu.Drop.Transfer.Chunks.{AreChunks, bytes_of}

-- No lease, or one of a declared size, which grows by nothing.
abbrev pub IsSettled : Option (TransferQuota × TransferLease) → Type 0
IsSettled none = Unit
IsSettled (some (q, l)) = l.unknown ≡ false

-- The session takes the payload: it is no duplicate, and the payload has the declared size, if one is
-- declared, and is within the limits that are set.
pub record Agrees (c : Session) (whole : Text) : Type 0 where
  pub fresh : c.duplicate ≡ false
  pub exact : is_positive c.meta.size ≡ true → pos_part c.meta.size ≡ length whole
  pub within : over c.max_size (length whole) ≡ false
  pub text_within : kind_eq c.meta.kind text ≡ true → over c.max_text_size (length whole) ≡ false

over_mono : (limit n m : ℕ) → over limit n ≡ false → m ≤ n → over limit m ≡ false
over_mono limit n m h le = ground arith

pub take_all : (xs : Text) (n : ℕ) → n ≡ length xs → take n xs ≡ xs
take_all [] zero h = refl
take_all [] (suc n) h = refl
take_all (x ∷ xs) zero h = absurd (omega arith)
take_all (x ∷ xs) (suc n) h = ap (◌∷◌ x) (take_all xs n (omega arith))

drop_all : (xs : Text) (n : ℕ) → length xs ≤ n → drop n xs ≡ []
drop_all [] zero h = refl
drop_all [] (suc n) h = refl
drop_all (x ∷ xs) zero h = absurd (omega arith)
drop_all (x ∷ xs) (suc n) h = drop_all xs n (omega arith)

-- A write at the end of a file appends.
write_at_end :
    (file : Text) (at : ℕ) (bytes : Text)
    → at ≡ length file
    → write_at file at bytes ≡ file ++ bytes
unfolding write_at
write_at_end file at bytes h =
    rw (take_all file at h, drop_all file (at + length bytes) (omega arith), append-nil bytes)

-- The state behind a chunk that was taken.
record Took (s : Receiving) (bytes : Text) (s' : Receiving) : Type 0 where
  totals : s'.total ≡ s.total + length bytes
  hashes : s'.hashed ≡ s.hashed ++ bytes
  files : s'.file ≡ s.file ++ bytes
  leases : s'.lease ≡ s.lease
  indices : s'.expected_index ≡ s.expected_index

grow_lease_settled :
    (l : Option (TransferQuota × TransferLease)) (n : ℕ) (s : Receiving) (k : Receiving → Step)
    → s.lease ≡ l
    → IsSettled l
    → grow_lease l n s k ≡ k s
unfolding grow_lease add_bytes with_lease
grow_lease_settled none n s k e h = refl
grow_lease_settled (some (q, l)) n s k e h =
    let same : (not (is_positive (pos n)) || not l.unknown) ≡ true = ground arith in
    rw (same, with_lease) (ap (λ x. k (record s { lease = x })) (sym e))

accept_Took :
    (s : Receiving) (d : DropData) (bs : Text)
    → d.bytes ≡ bs
    → s.total ≡ length s.file
    → IsSettled s.lease
    → (s' : Receiving) × (accept_bytes written false s d ≡ continues s') × Took s d.bytes s'
unfolding accept_bytes write_chunk store touch_fails
accept_Took s d [] e at settled = (
  s,
  rw (e, accept_bytes),
  record {
    totals = rw (e, length) (omega arith);
    hashes = rw (e, append-nil s.hashed);
    files = rw (e, append-nil s.file);
    leases = refl;
    indices = refl;
  },
)
accept_Took s d (b ∷ bs) e at settled = (
  store false s d,
  rw (ap is_empty e, accept_bytes)
      (grow_lease_settled s.lease (length d.bytes) s (λ s'. write_chunk written false s' d) refl
        settled),
  record {
    totals = refl;
    hashes = refl;
    files = write_at_end s.file s.total d.bytes at;
    leases = refl;
    indices = refl;
  },
)

declared_room :
    (size : ℤ) (n whole : ℕ)
    → (is_positive size ≡ true → pos_part size ≡ whole)
    → n ≤ whole
    → over (pos_part size) n ≡ false
declared_room (pos m) n whole h le = ground arith
declared_room (negsuc m) n whole h le = refl

-- A transfer that ended with the whole payload, of which `suffix` was on the wire.
pub record Delivered (whole suffix before : Text) (o : Outcome) : Type 0 where
  pub state : Receiving
  pub completes : o ≡ finished state
  pub whole_total : state.total ≡ length whole
  pub whole_hashed : state.hashed ≡ whole
  pub whole_file : state.file ≡ before ++ suffix

module _ (c : Session) (whole : Text) (agrees : Agrees c whole) where
  -- Nothing is refused while the bytes stay within the payload.
  not_refused :
      (s : Receiving) (d : DropData)
      → d.drop_id ≡ c.meta.drop_id
      → d.chunk_index ≡ s.expected_index
      → length d.bytes ≤ chunk_size_of c.meta
      → (d.final ≡ false → length d.bytes ≡ chunk_size_of c.meta)
      → s.total + length d.bytes ≤ length whole
      → refusal_of c s d ≡ none
  unfolding refusal_of
  not_refused s d same next fits full room =
      let n = length d.bytes in
      let size = chunk_size_of c.meta in
      let declared = declared_room c.meta.size (s.total + n) (length whole) agrees.exact room in
      let max = over_mono c.max_size (length whole) (s.total + n) agrees.within room in
      let text_max : (kind_eq c.meta.kind text && over c.max_text_size (s.total + n)) ≡ false =
        ground
          (arith, agrees.text_within, over_mono c.max_text_size (length whole) (s.total + n)) in
      let known : (d.drop_id =t c.meta.drop_id) ≡ true = rw same (eq_self c.meta.drop_id) in
      let small : ltb size n ≡ false = ground arith in
      let filled : (not d.final && not (n == size)) ≡ false = ground arith in
      let ordered : (d.chunk_index == s.expected_index) ≡ true = ground arith in
      simp (known, small, filled, declared, ordered, max, text_max)

  module _ (digest : Text → Text) (valid : (b : Text) → is_sha256_hex (digest b) ≡ true) where
    -- A chunk that is not refused, and whose bytes the file takes.
    on_chunk_taken :
        (s s1 : Receiving) (d : DropData)
        → refusal_of c s d ≡ none
        → accept_bytes written false s d ≡ continues s1
        → on_chunk digest c written s d ≡ advance digest c d (continues s1)
    unfolding on_chunk
    on_chunk_taken s s1 d passes took =
        rw (passes, on_chunk)
          (ap (λ b. advance digest c d (accept_bytes written b s d)) agrees.fresh
            ∙ ap (advance digest c d) took)

    final_passes :
        (s : Receiving) (d : DropData)
        → s.total ≡ length whole
        → s.hashed ≡ whole
        → d.sha256 ≡ digest whole
        → final_refusal digest c s d ≡ none
    unfolding final_refusal
    final_passes s d at same sha =
        let size_ok : (is_positive c.meta.size && not (s.total == pos_part c.meta.size)) ≡ false =
          ground (arith, agrees.exact) in
        let hex_ok : is_sha256_hex d.sha256 ≡ true = rw sha (valid whole) in
        let digest_ok : equal_fold (digest s.hashed) d.sha256 ≡ true =
          rw (sha, same) (equal_fold_self (digest whole)) in
        simp (size_ok, hex_ok, digest_ok, agrees.fresh)

    advance_last :
        (s : Receiving) (d : DropData)
        → d.final ≡ true
        → s.total ≡ length whole
        → s.hashed ≡ whole
        → d.sha256 ≡ digest whole
        → advance digest c d (continues s)
          ≡ ends (record s { expected_index = s.expected_index + 1 })
    unfolding advance
    advance_last s d last at same sha =
        let s' : Receiving = record s { expected_index = s.expected_index + 1 } in
        simp (last, final_passes s' d at same sha)

    advance_more :
        (s : Receiving) (d : DropData)
        → d.final ≡ false
        → advance digest c d (continues s)
          ≡ continues (record s { expected_index = s.expected_index + 1 })
    unfolding advance
    advance_more s d more = simp more

    module _ (io : ℕ → IoAnswer) (writes : (i : ℕ) → io i ≡ written) where
      pub deliver :
          (i : ℕ) (s : Receiving) (cs : List DropData)
          → AreChunks digest c.meta.drop_id (chunk_size_of c.meta) i s.hashed cs
          → s.expected_index ≡ i
          → s.total ≡ length s.file
          → s.total ≡ length s.hashed
          → IsSettled s.lease
          → s.hashed ++ bytes_of cs ≡ whole
          → Delivered whole (bytes_of cs) s.file (receive_chunks digest c io s (map chunk cs))
      unfolding receive_chunks bytes_of
      deliver i s [] shaped at filed hashed settled same = absurd shaped
      deliver i s (d ∷ []) (id, next, fits, last, sha) at filed hashed settled same =
          let (s1, accepted, took) = accept_Took s d d.bytes refl filed settled in
          let tail : s.hashed ++ d.bytes ≡ whole = rw (append-nil d.bytes) at same in
          let len = length-append s.hashed d.bytes in
          let room : s.total + length d.bytes ≡ length whole = omega (arith, ap length tail) in
          let passes = not_refused s d id (next ∙ sym at) fits (λ f. absurd (cc)) (omega arith) in
          let whole1 : s1.hashed ≡ whole = took.hashes ∙ tail in
          let ended = advance_last s1 d last (took.totals ∙ room) whole1 (sha ∙ ap digest tail) in
          record {
            state = record s1 { expected_index = s1.expected_index + 1 };
            completes = rw (
              writes d.chunk_index,
              on_chunk_taken s s1 d passes accepted,
              ended,
              receive_chunks,
            );
            whole_total = took.totals ∙ room;
            whole_hashed = whole1;
            whole_file = took.files ∙ ap (◌++◌ s.file) (sym (append-nil d.bytes));
          }
      deliver i s (d ∷ e ∷ cs) (id, next, fits, more, shaped) at filed hashed settled same =
          let (s1, accepted, took) = accept_Took s d d.bytes refl filed settled in
          let s2 : Receiving = record s1 { expected_index = s1.expected_index + 1 } in
          let rest = bytes_of (e ∷ cs) in
          let len1 = length-append s.hashed d.bytes in
          let len2 = length-append (s.hashed ++ d.bytes) rest in
          let len3 = length-append s.file d.bytes in
          let split : (s.hashed ++ d.bytes) ++ rest ≡ whole =
            append_assoc s.hashed d.bytes rest ∙ same in
          let room : s.total + length d.bytes ≤ length whole = omega (arith, ap length split) in
          let passes = not_refused s d id (next ∙ sym at) (omega arith) (λ _. fits) room in
          let ih =
            deliver (i + 1) s2 (e ∷ cs)
              (subst
                (λ h. AreChunks digest c.meta.drop_id (chunk_size_of c.meta) (i + 1) h (e ∷ cs))
                (sym took.hashes) shaped)
              (omega (arith, took.indices)) (omega (arith, took.totals, ap length took.files))
              (omega (arith, took.totals, ap length took.hashes))
              (subst IsSettled (sym took.leases) settled)
              (ap (λ h. h ++ rest) took.hashes ∙ split) in
          record {
            state = ih.state;
            completes =
                rw
                  (
                    writes d.chunk_index,
                    on_chunk_taken s s1 d passes accepted,
                    advance_more s1 d more,
                    receive_chunks,
                  )
                  ih.completes;
            whole_total = ih.whole_total;
            whole_hashed = ih.whole_hashed;
            whole_file =
                ih.whole_file ∙ (ap (λ f. f ++ rest) took.files ∙ append_assoc s.file d.bytes rest);
          }
