-- ===== src/Drop/Transfer/EndToEnd.antt =====
-- SendDrop and ReceiveDrop, from the accepted offset to the believed receipt.
use tantu.Prelude.{
  ℕ, ◌/◌, ◌%◌, ◌≤◌, ◌<◌, ◌≡◌, refl, sym, subst, ◌∙◌, ap, Bool, true, false, not, ◌&&◌, Option, [],
  ◌∷◌, ◌++◌, map, arith, length, take, take-append-drop, length-take, ltb, ◌==◌, ℤ, pos, negsuc,
  pos_part, is_positive,
}
use tantu.Text.{Text, is_empty, ◌=t◌, equal_fold}
use tantu.Text.Laws.{eq_self, equal_fold_self}
use tantu.Drop.Quota.{TransferQuota, TransferLease}
use tantu.Drop.Types.{max_chunk_size}
use tantu.Drop.Sender.{chunk_size_of, Streamed, streamed, stream, ok, check_complete}
use tantu.Drop.Receiver.{
  Session, Receiving, finished, IoAnswer, written, chunk, receive_from, receipt, is_sha256_hex,
}
use tantu.Drop.Transfer.Chunks.{AreChunks, bytes_of, stream-Streams}
use tantu.Drop.Transfer.Delivery.{IsSettled, Agrees, deliver, take_all}

chunk_size_of_positive : (c : Session) → 0 < chunk_size_of c.meta
unfolding chunk_size_of
chunk_size_of_positive c = go c.meta.chunk_size
  where
    go : (n : ℤ) → 0 < chunk_size_of (record (c.meta) { chunk_size = n })
    go (pos n) = ground arith
    go (negsuc n) = omega arith

digest_not_empty : (s : Text) → is_sha256_hex s ≡ true → is_empty s ≡ false
unfolding is_sha256_hex
digest_not_empty [] h = ground arith
digest_not_empty (x ∷ s) h = refl

-- A transfer between the two ends.
pub record Completes (digest : Text → Text) (link : ℕ → Bool) (io : ℕ → IoAnswer) (c : Session)
    (payload : Text) (offset : ℕ) (partial : Text) (lease : Option (TransferQuota × TransferLease))
    : Type 0 where
  pub out : Streamed
  pub sends : stream digest link c.meta.drop_id (chunk_size_of c.meta) payload offset ≡ streamed out
  pub state : Receiving
  pub receives :
      receive_from digest c io true partial offset lease (map chunk out.chunks) ≡ finished state
  pub file : state.file ≡ payload
  pub total : state.total ≡ length payload
  pub hashed : state.hashed ≡ payload
  pub believed :
      check_complete c.meta (digest out.hashed) (receipt digest c state)
      ≡ ok (receipt digest c state)

module _ (digest : Text → Text) (valid : (b : Text) → is_sha256_hex (digest b) ≡ true) (c : Session)
    (payload : Text) (agrees : Agrees c payload) where
  receipt_believed :
      (s : Receiving)
      → s.total ≡ length payload
      → s.hashed ≡ payload
      → check_complete c.meta (digest payload) (receipt digest c s) ≡ ok (receipt digest c s)
  unfolding check_complete receipt
  receipt_believed s total hashed =
      let same : (c.meta.drop_id =t c.meta.drop_id) ≡ true = eq_self c.meta.drop_id in
      let count : (is_positive c.meta.size && not (s.total == pos_part c.meta.size)) ≡ false =
        ground (arith, agrees.exact) in
      let shown : is_empty (digest s.hashed) ≡ false =
        digest_not_empty (digest s.hashed) (valid s.hashed) in
      let equal : equal_fold (digest s.hashed) (digest payload) ≡ true =
        rw hashed (equal_fold_self (digest payload)) in
      simp (same, count, shown, equal)

  module _ (link : ℕ → Bool) (links : (i : ℕ) → link i ≡ true) (io : ℕ → IoAnswer)
      (writes : (i : ℕ) → io i ≡ written) where
    -- For an agreed session over a working connection and file, a chunk size within the maximum, and a
    -- resume offset that is chunk-aligned, within the payload, and backed by a partial file that holds
    -- the payload up to it: the stream of SendDrop ends, ReceiveDrop takes it to the end and leaves
    -- exactly the payload in the file, and SendDrop accepts the receipt.
    pub transfer-Completes :
        (offset : ℕ) (partial : Text) (lease : Option (TransferQuota × TransferLease))
        → chunk_size_of c.meta ≤ max_chunk_size
        → offset ≤ length payload
        → offset % chunk_size_of c.meta ≡ 0
        → partial ≡ take offset payload
        → IsSettled lease
        → Completes digest link io c payload offset partial lease
    unfolding receive_from
    transfer-Completes offset partial lease small inside aligned held settled =
        let size = chunk_size_of c.meta in
        let st =
          stream-Streams digest link c.meta.drop_id size links (chunk_size_of_positive c) payload
            offset in
        let long : length partial ≡ offset = ap length held ∙ length-take offset payload inside in
        let start : Receiving = record {
          expected_index = offset / size;
          total = offset;
          hashed = take offset partial;
          file = partial;
          lease = lease;
        } in
        let known : start.hashed ≡ take offset payload =
          take_all partial offset (sym long) ∙ held in
        let joined : take offset payload ++ bytes_of st.out.chunks ≡ payload =
          ap (λ r. take offset payload ++ r) st.carries ∙ take-append-drop offset payload in
        let got =
          deliver c payload agrees digest valid io writes (offset / size) start st.out.chunks
            (subst (λ h. AreChunks digest c.meta.drop_id size (offset / size) h st.out.chunks)
              (sym known) st.shaped)
            refl (sym long) (omega (arith, ap length known, ap length held, long)) settled
            (ap (λ h. h ++ bytes_of st.out.chunks) known ∙ joined) in
        let t1 : ltb max_chunk_size size ≡ false = ground arith in
        let t2 : (ltb 0 offset && not (offset % size == 0)) ≡ false = ground arith in
        let t3 : (ltb 0 offset && not true) ≡ false = ground arith in
        let t4 : ltb (length partial) offset ≡ false = ground arith in
        let hashes : st.out.hashed ≡ payload = st.hashes ∙ take-append-drop offset payload in
        record {
          out = st.out;
          sends = st.ends;
          state = got.state;
          receives = simp (t1, t2, t3, t4) got.completes;
          file = got.whole_file ∙ (ap (λ h. h ++ bytes_of st.out.chunks) held ∙ joined);
          total = got.whole_total;
          hashed = got.whole_hashed;
          believed =
              subst
                (λ h.
                  check_complete c.meta (digest h) (receipt digest c got.state)
                  ≡ ok (receipt digest c got.state))
                (sym hashes) (receipt_believed got.state got.whole_total got.whole_hashed);
        }
