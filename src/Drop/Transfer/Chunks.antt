-- ===== src/Drop/Transfer/Chunks.antt =====
-- What the sender puts on the wire, said without its loop.
use mathlib.Core.List.{append-nil, append_assoc}
use tantu.Prelude.{
  ℕ, zero, suc, ◌+◌, ◌/◌, ◌≤◌, ◌<◌, ◌≡◌, refl, sym, ◌∙◌, ap, inl, inr, Bool, true, false, none,
  some, List, [], ◌∷◌, ◌++◌, arith, ltb, length, take, drop, take-append-drop, length-take,
  length-drop, Bool-cases, if◌then◌else◌,
}
use tantu.Text.{Text}
use tantu.Drop.Types.{DropData}
use tantu.Drop.Sender.{
  Payload, streamed, Streamed, stream, read_ahead, read_status, eof, unexpected_eof, full, part,
  last_part, emit, emit_before, done,
}

-- The bytes of a list of chunks, in order.
unfoldable pub bytes_of : List DropData → Text
bytes_of [] = []
bytes_of (c ∷ cs) = c.bytes ++ bytes_of cs

-- Chunks of one transfer from index i on, behind the bytes `seen`: consecutive, all but the last of
-- the full size, and the last one final with the digest of everything.
abbrev pub AreChunks : (Text → Text) → Text → ℕ → ℕ → Text → List DropData → Type 0
AreChunks digest id size i seen [] = ⊥
AreChunks digest id size i seen (c ∷ []) =
    (c.drop_id ≡ id)
    × (c.chunk_index ≡ i)
    × (length c.bytes ≤ size)
    × (c.final ≡ true)
    × (c.sha256 ≡ digest (seen ++ c.bytes))
AreChunks digest id size i seen (c ∷ d ∷ cs) =
    (c.drop_id ≡ id)
    × (c.chunk_index ≡ i)
    × (length c.bytes ≡ size)
    × (c.final ≡ false)
    × AreChunks digest id size (i + 1) (seen ++ c.bytes) (d ∷ cs)

-- What a read of one buffer finds.
data Reads (size : ℕ) (rest : Text) : Type 0 where
  at_end : rest ≡ [] → read_status size rest ≡ eof → Reads size rest
  short : length rest < size → read_status size rest ≡ unexpected_eof → Reads size rest
  whole : size ≤ length rest → read_status size rest ≡ full → Reads size rest

reads : (size : ℕ) (rest : Text) → Reads size rest
unfolding read_status
reads size [] = at_end refl refl
reads size (b ∷ bs) = elim (Bool-cases (ltb (length (b ∷ bs)) size)) [
  | inl e ↦ short (ground arith) (rw e)
  | inr e ↦ whole (ground arith) (rw e)
]

-- What the stream yields when every chunk goes out.
pub record Streams (digest : Text → Text) (id : Text) (size i : ℕ) (before rest : Text)
    (p : Payload) : Type 0 where
  pub out : Streamed
  pub ends : p ≡ streamed out
  pub whole_link : out.broken ≡ none
  pub hashes : out.hashed ≡ before ++ rest
  pub carries : bytes_of out.chunks ≡ rest
  pub shaped : AreChunks digest id size i before out.chunks

module _ (digest : Text → Text) (link : ℕ → Bool) (id : Text) (size : ℕ) where
  cons-AreChunks :
      (i : ℕ) (seen bytes : Text) (cs : List DropData)
      → length bytes ≡ size
      → AreChunks digest id size (i + 1) (seen ++ bytes) cs
      → AreChunks digest id size i seen (part digest link id size i bytes ∷ cs)
  unfolding part
  cons-AreChunks i seen bytes [] h a = absurd a
  cons-AreChunks i seen bytes (c ∷ cs) h a = (refl, refl, h, refl, a)

  emit_sent :
      (c : DropData) (sent : ℕ) (seen : Text) (more : Streamed)
      → link c.chunk_index ≡ true
      → emit digest link id size c sent seen more
        ≡ record more { chunks = c ∷ more.chunks; progress = sent ∷ more.progress }
  unfolding emit
  emit_sent c sent seen more h = rw h

  module _ (links : (i : ℕ) → link i ≡ true) where
    -- One chunk more in front of a stream.
    emit_before-Streams :
        (i sent : ℕ) (seen current rest : Text) (p : Payload)
        → length current ≡ size
        → Streams digest id size (i + 1) (seen ++ current) rest p
        → Streams digest id size i seen (current ++ rest) (
            emit_before digest link id size
              (part digest link id size i current)
              sent
              (seen ++ current)
              p)
    unfolding emit_before part bytes_of
    emit_before-Streams i sent seen current rest p h st = record {
      out = record (st.out) {
        chunks = part digest link id size i current ∷ st.out.chunks;
        progress = sent ∷ st.out.progress;
      };
      ends = rw (st.ends, emit_before) (ap streamed (emit_sent _ _ _ _ (links i)));
      whole_link = st.whole_link;
      hashes = st.hashes ∙ append_assoc seen current rest;
      carries = ap (◌++◌ current) st.carries;
      shaped = cons-AreChunks i seen current st.out.chunks h st.shaped;
    }

    one_left :
        (i sent : ℕ) (seen bytes : Text)
        → length bytes ≤ size
        → Streams digest id size i seen bytes (
            streamed (
              emit digest link id size
                (last_part digest link id size i bytes (seen ++ bytes))
                sent
                (seen ++ bytes)
                (done digest link id size (seen ++ bytes))))
    unfolding last_part done bytes_of
    one_left i sent seen bytes h = record {
      out = record {
        chunks = last_part digest link id size i bytes (seen ++ bytes) ∷ [];
        progress = sent ∷ [];
        hashed = seen ++ bytes;
        broken = none;
      };
      ends = ap streamed (emit_sent _ _ _ _ (links i));
      whole_link = refl;
      hashes = refl;
      carries = append-nil bytes;
      shaped = (refl, refl, h, refl, refl);
    }

    read_ahead-Streams :
        0 < size
        → (fuel i : ℕ) (seen current rest : Text) (sent : ℕ) → length current ≡ size
        → length rest < fuel
        → Streams digest id size i seen
            (current ++ rest)
            (read_ahead digest link id size fuel i current rest (seen ++ current) sent)
    unfolding read_ahead emit_before
    read_ahead-Streams p zero i seen current rest sent h enough = absurd (omega arith)
    read_ahead-Streams p (suc fuel) i seen current rest sent h enough = elim (reads size rest) [
      | at_end nothing e ↦
          rw (e, read_ahead)
            (rw (nothing, append-nil current)
              (one_left i (sent + length current) seen current (omega (arith, h))))
      | short less e ↦
          rw (e, read_ahead)
            (emit_before-Streams i (sent + length current) seen current rest _ h (
              one_left (i + 1) (sent + length current + length rest) (seen ++ current) rest
                (omega arith)))
      | whole more e ↦
          rw (e, read_ahead)
            (emit_before-Streams i (sent + length current) seen current rest _ h (
              rw (take-append-drop size rest) at (
                read_ahead-Streams p fuel (i + 1) (seen ++ current) (take size rest)
                  (drop size rest) (sent + length current) (length-take size rest more)
                  (omega (arith, length-drop size rest)))))
    ]

    nothing_left :
        (i : ℕ) (before rest : Text)
        → rest ≡ []
        → Streams digest id size i before rest (
            streamed (
              if link i
              then record {
                chunks = last_part digest link id size i [] before ∷ [];
                progress = [];
                hashed = before;
                broken = none;
              }
              else record { chunks = []; progress = []; hashed = before; broken = some i }))
    unfolding last_part bytes_of
    nothing_left i before rest nothing = record {
      out = record {
        chunks = last_part digest link id size i [] before ∷ [];
        progress = [];
        hashed = before;
        broken = none;
      };
      ends = rw (links i);
      whole_link = refl;
      hashes = rw (nothing, append-nil before);
      carries = sym nothing;
      shaped = (refl, refl, omega arith, refl, ap digest (sym (append-nil before)));
    }

    -- For a chunk size above 0 and a connection that takes every chunk: the stream from an offset ends,
    -- and sends the bytes from there on, in order and in well-formed chunks from the index of the
    -- offset; the last one carries the digest of the whole payload.
    pub stream-Streams :
        0 < size
        → (payload : Text) (offset : ℕ)
        → Streams digest id size
            (offset / size)
            (take offset payload)
            (drop offset payload)
            (stream digest link id size payload offset)
    unfolding stream bytes_of last_part done
    stream-Streams p payload offset =
        let rest = drop offset payload in
        let before = take offset payload in
        elim (reads size rest) [
          | at_end nothing e ↦ rw (e, stream) (nothing_left (offset / size) before rest nothing)
          | short less e ↦
              rw (e, stream)
                (one_left (offset / size) (offset + length rest) before rest (omega arith))
          | whole more e ↦
              rw (e, stream)
                (rw (take-append-drop size rest) at (
                  read_ahead-Streams p (suc (length rest)) (offset / size) before (take size rest)
                    (drop size rest) offset (length-take size rest more)
                    (omega (arith, length-drop size rest))))
        ]
