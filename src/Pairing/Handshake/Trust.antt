-- ===== src/Pairing/Handshake/Trust.antt =====
-- internal/pairing/handshake.go: what has happened where a side takes the other for trusted.
use tantu.Prelude.{
  ℕ, Bool, true, false, ◌≡◌, refl, ◌∙◌, ap, Option, none, some, ◌⊎◌, inl, inr, if_cases,
}
use tantu.Text.{Text}
use tantu.Pairing.Store.{Io, PeerStore}
use tantu.Pairing.Handshake.{
  Hello, Frame, hello, decision, other, PairError, Side, Pairing, aborted, paired, is_valid_hello,
  fits_transport, checked_hello, peer_of_frame, code_of, conclude, on_answer, after_hello,
  answer_hello, handle_inbound_pairing, pair_responder_in_band,
}

abbrev pub Declined : Pairing → Type 0
Declined (aborted e) = Unit
Declined (paired r) = r.accepted ≡ false

-- A hello that passed every check.
abbrev pub IsChecked : (Text → Option Text) → Side → Option Frame → Hello → Text → Type 0
IsChecked cert_fingerprint x f h fp =
    (f ≡ some (hello (some h)))
    × (is_valid_hello h ≡ true)
    × (cert_fingerprint h.cert_pem ≡ some fp)
    × (fits_transport x fp ≡ true)

abbrev pub Passes : (Text → Option Text) → Side → Option Frame → PairError ⊎ (Hello × Text) → Type 0
Passes cert_fingerprint x f (inl e) = Unit
Passes cert_fingerprint x f (inr (h, fp)) = IsChecked cert_fingerprint x f h fp

module _ (cert_fingerprint : Text → Option Text) (x : Side) where
  checked-Passes :
      (h : Hello) (o : Option Text)
      → is_valid_hello h ≡ true
      → cert_fingerprint h.cert_pem ≡ o
      → Passes cert_fingerprint x (some (hello (some h))) (checked_hello cert_fingerprint x h o)
  checked-Passes h none v e = tt
  checked-Passes h (some fp) v e =
      if_cases (Passes cert_fingerprint x (some (hello (some h)))) (fits_transport x fp)
        (λ f. (refl, v, e, f)) (λ _. tt)

  pub peer_of_frame-Passes :
      (f : Option Frame) → Passes cert_fingerprint x f (peer_of_frame cert_fingerprint x f)
  unfolding peer_of_frame
  peer_of_frame-Passes none = tt
  peer_of_frame-Passes (some other) = tt
  peer_of_frame-Passes (some (decision d)) = tt
  peer_of_frame-Passes (some (hello none)) = tt
  peer_of_frame-Passes (some (hello (some h))) =
      if_cases (Passes cert_fingerprint x (some (hello (some h)))) (is_valid_hello h)
        (λ v. checked-Passes h (cert_fingerprint h.cert_pem) v refl) (λ _. tt)

module _ (digest : Text → Text) (word : ℕ → Text) (is_ip : Text → Bool)
    (cert_fingerprint : Text → Option Text) where
  -- The user of this side confirmed the code of this session, and the peer accepted.
  abbrev pub IsEarned : Side → Option Frame → Option Frame → Type 0
  IsEarned x first second =
      (h : Hello) × (fp : Text) × IsChecked cert_fingerprint x first h fp
      × (x.confirms (code_of digest x h fp) ≡ some true)
      × (second ≡ some (decision (some true)))

  abbrev pub Spares : Side → Option Frame → Option Frame → PeerStore → Pairing × PeerStore → Type 0
  Spares x first second s r = ((r.1 ≡ s) × Declined r.0) ⊎ IsEarned x first second

  module _ (io : Io) (now : ℕ) (x : Side) (first : Option Frame) (s : PeerStore) where
    conclude-Spares :
        (h : Hello) (fp : Text) (mine : Bool) (f : Option Frame)
        → (mine ≡ true → x.confirms (code_of digest x h fp) ≡ some true)
        → IsChecked cert_fingerprint x first h fp
        → Spares x first f s (conclude digest word is_ip cert_fingerprint io now x h fp mine f s)
    unfolding conclude
    conclude-Spares h fp mine none c k = inl (refl, tt)
    conclude-Spares h fp mine (some other) c k = inl (refl, tt)
    conclude-Spares h fp mine (some (hello g)) c k = inl (refl, tt)
    conclude-Spares h fp mine (some (decision none)) c k = inl (refl, tt)
    conclude-Spares h fp true (some (decision (some true))) c k = inr (h, fp, k, c refl, refl)
    conclude-Spares h fp true (some (decision (some false))) c k = inl (refl, refl)
    conclude-Spares h fp false (some (decision (some theirs))) c k = inl (refl, refl)

    on_answer-Spares :
        (h : Hello) (fp : Text) (o : Option Bool) (f : Option Frame)
        → x.confirms (code_of digest x h fp) ≡ o
        → IsChecked cert_fingerprint x first h fp
        → Spares x first f s (on_answer digest word is_ip cert_fingerprint io now x h fp o f s)
    on_answer-Spares h fp none f c k = inl (refl, tt)
    on_answer-Spares h fp (some mine) f c k =
        if_cases (Spares x first f s) x.decision_sent
          (λ _. conclude-Spares h fp mine f (λ e. c ∙ ap some e) k) (λ _. inl (refl, tt))

    after_hello-Spares :
        (r : PairError ⊎ (Hello × Text)) (f : Option Frame)
        → Passes cert_fingerprint x first r
        → Spares x first f s (after_hello digest word is_ip cert_fingerprint io now x r f s)
    after_hello-Spares (inl e) f k = inl (refl, tt)
    after_hello-Spares (inr (h, fp)) f k =
        on_answer-Spares h fp (x.confirms (code_of digest x h fp)) f refl k

    answer_hello-Spares :
        (r : PairError ⊎ (Hello × Text)) (f : Option Frame)
        → Passes cert_fingerprint x first r
        → Spares x first f s (answer_hello digest word is_ip cert_fingerprint io now x r f s)
    answer_hello-Spares (inl e) f k = inl (refl, tt)
    answer_hello-Spares (inr (h, fp)) f k =
        if_cases (Spares x first f s) x.hello_sent
          (λ _. on_answer-Spares h fp (x.confirms (code_of digest x h fp)) f refl k)
          (λ _. inl (refl, tt))

    -- On both sides, whatever arrives: the store is as it was and the pairing is declined, or the peer
    -- sent a valid hello, its certificate has the fingerprint and is the one of the connection where
    -- that has one, the user of this side confirmed the code of this session, and the peer accepted.
    pub pairing-Spares :
        (second : Option Frame)
        → Spares x first second s
            (handle_inbound_pairing digest word is_ip cert_fingerprint io now x first second s)
          × Spares x first second s
              (pair_responder_in_band digest word is_ip cert_fingerprint io now x first second s)
    unfolding handle_inbound_pairing pair_responder_in_band
    pairing-Spares second =
        let passes = peer_of_frame-Passes cert_fingerprint x first in
        (
          answer_hello-Spares (peer_of_frame cert_fingerprint x first) second passes,
          if_cases (Spares x first second s) x.hello_sent
              (λ _. after_hello-Spares (peer_of_frame cert_fingerprint x first) second passes)
              (λ _. inl (refl, tt)),
        )
