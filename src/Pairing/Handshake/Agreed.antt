-- ===== src/Pairing/Handshake/Agreed.antt =====
-- internal/pairing/handshake.go: the two sides of one exchange together.
use tantu.Prelude.{ℕ, Bool, true, false, ◌&&◌, ◌≡◌, ◌≢◌, refl, ap, Option, none, some, List, inr}
use tantu.Text.{Text, to_lower, trim_space}
use tantu.Pairing.Address.{Check}
use tantu.Pairing.Store.{Io, PeerStore}
use tantu.Pairing.Store.Edits.{add_peer}
use tantu.Pairing.Transcript.{transcript_sas, first_words, transcript_sym}
use tantu.Pairing.Handshake.{
  Hello, hello, decision, not_saved, Side, PairResult, Pairing, aborted, paired, is_valid_hello,
  fits_transport, peer_of_frame, code_of, peer_entry, result_of, conclude, decide,
  handle_inbound_pairing, pair_responder_in_band,
}

-- A side that meets `peer`: its hello is valid, its certificate is its fingerprint's, and it is the one
-- of the connection where that has one; what this side sends goes out.
abbrev pub Meets : (Text → Option Text) → Side → Side → Type 0
Meets cert_fingerprint x peer =
    (is_valid_hello peer.own ≡ true)
    × (cert_fingerprint peer.own.cert_pem ≡ some peer.fingerprint)
    × (fits_transport x peer.fingerprint ≡ true)
    × (x.hello_sent ≡ true)
    × (x.decision_sent ≡ true)

-- The end of an exchange that shows `code`: the verdict, or two acceptances and a peer that was not
-- saved.
abbrev pub Ends : Text → List ℕ → Bool → Pairing → Type 0
Ends fp code verdict (paired r) =
    (r.peer_fingerprint ≡ fp) × (r.code ≡ code) × (r.accepted ≡ verdict)
Ends fp code verdict (aborted (not_saved e)) = verdict ≡ true
Ends fp code verdict (aborted e) = ⊥

module _ (digest : Text → Text) (word : ℕ → Text) (is_ip : Text → Bool)
    (cert_fingerprint : Text → Option Text) where
  result_of-Ends :
      (r : PairResult) (c : Check × PeerStore)
      → r.accepted ≡ true
      → Ends r.peer_fingerprint r.code true (result_of r c).0
  result_of-Ends r (none, s) e = (refl, refl, e)
  result_of-Ends r (some e', s) e = refl

  conclude-Ends :
      (io : Io) (now : ℕ) (x : Side) (h : Hello) (fp : Text) (mine theirs : Bool) (s : PeerStore)
      → Ends fp
          (code_of digest x h fp)
          (mine && theirs)
          (conclude digest word is_ip cert_fingerprint io now x h fp mine
            (some (decision (some theirs)))
            s).0
  unfolding conclude
  conclude-Ends io now x h fp true true s =
      result_of-Ends
        (record { peer_fingerprint = fp; code = code_of digest x h fp; accepted = true })
        (add_peer is_ip cert_fingerprint io now (peer_entry digest word x h fp) s) refl
  conclude-Ends io now x h fp true false s = (refl, refl, refl)
  conclude-Ends io now x h fp false theirs s = (refl, refl, refl)

  met :
      (x peer : Side)
      → Meets cert_fingerprint x peer
      → peer_of_frame cert_fingerprint x (some (hello (some peer.own)))
        ≡ inr (peer.own, peer.fingerprint)
  unfolding peer_of_frame
  met x peer m = rw (m.0, m.1, m.2) refl

  code_sym :
      (x y : Side)
      → to_lower (trim_space x.fingerprint) ≢ to_lower (trim_space y.fingerprint)
      → code_of digest x y.own y.fingerprint ≡ code_of digest y x.own x.fingerprint
  unfolding code_of transcript_sas
  code_sym x y n =
      ap (λ t. first_words (digest t) 6)
        (transcript_sym x.fingerprint y.fingerprint x.own.nonce y.own.nonce n)

  decided-Ends :
      (io : Io) (now : ℕ) (x : Side) (h : Hello) (fp : Text) (mine theirs : Bool) (s : PeerStore)
      → x.decision_sent ≡ true
      → x.confirms (code_of digest x h fp) ≡ some mine
      → Ends fp
          (code_of digest x h fp)
          (mine && theirs)
          (decide digest word is_ip cert_fingerprint io now x h fp
            (some (decision (some theirs)))
            s).0
  unfolding code_of conclude
  decided-Ends io now x h fp mine theirs s sent c =
      rw (c, sent) (conclude-Ends io now x h fp mine theirs s)

  -- Two machines with different fingerprints, each the peer that the other meets, show their users the
  -- same code. Where the users answer, both exchanges end with that code and the same verdict, which
  -- is acceptance by both users, or, where both accept, with a peer that could not be saved.
  pub exchange-Agrees :
      (io io' : Io) (now now' : ℕ) (x y : Side) (a b : Bool) (s t : PeerStore)
      → Meets cert_fingerprint x y
      → Meets cert_fingerprint y x
      → to_lower (trim_space x.fingerprint) ≢ to_lower (trim_space y.fingerprint)
      → x.confirms (code_of digest x y.own y.fingerprint) ≡ some a
      → y.confirms (code_of digest x y.own y.fingerprint) ≡ some b
      → Ends y.fingerprint
          (code_of digest x y.own y.fingerprint)
          (a && b)
          (handle_inbound_pairing digest word is_ip cert_fingerprint io now x
            (some (hello (some y.own)))
            (some (decision (some b)))
            s).0
        × Ends x.fingerprint
            (code_of digest x y.own y.fingerprint)
            (b && a)
            (pair_responder_in_band digest word is_ip cert_fingerprint io' now' y
              (some (hello (some x.own)))
              (some (decision (some a)))
              t).0
  unfolding handle_inbound_pairing pair_responder_in_band
  exchange-Agrees io io' now now' x y a b s t m m' n cx cy =
      let same = code_sym x y n in
      (
        rw (met x y m, m.3) (decided-Ends io now x y.own y.fingerprint a b s m.4 cx),
        rw (met y x m', m'.3, same)
            (decided-Ends io' now' y x.own x.fingerprint b a t m'.4 (rw same at cy)),
      )
