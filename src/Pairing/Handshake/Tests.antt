-- ===== src/Pairing/Handshake/Tests.antt =====
-- internal/pairing/handshake.go: exchanges of two concrete machines.
use tantu.Prelude.{ℕ, pos, Bool, true, false, ◌≡◌, ◌≢◌, refl, Option, none, some, [], ◌∷◌, arith}
use tantu.Text.{Text, codes, ◌=t◌, to_lower, trim_space, equal_fold, contains, contains_byte}
use tantu.Text.Assoc.{lookup, put}
use tantu.Text.HostPort.{split_host_port}
use tantu.Pairing.Address.{has_control_rune, validate_peer_label, validate_peer_address}
use tantu.Pairing.Store.{Peer, Io, holds, PeerStore}
use tantu.Pairing.Store.Edits.{validate_peer, with_peer}
use tantu.Pairing.Transcript.{SameSides, transcript-SameSides}
use tantu.Pairing.Handshake.{
  hello, decision, Side, PairResult, is_valid_hello, code_of, handle_inbound_pairing,
  pair_responder_in_band, readdress,
}
use tantu.Pairing.Handshake.Trust.{Spares, pairing-Spares}
use tantu.Pairing.Handshake.Agreed.{Ends, exchange-Agrees}

abbrev works : Io
works = record {
  locked = true;
  restored = true;
  written = true;
  renamed = true;
  preserved = true;
  retried = true;
  put_back = true;
  cleared = true;
  tidied = true;
  removed = true;
}

abbrev empty : PeerStore
empty = record {
  peers = record { main = none; backup = none };
  active = record { main = none; backup = none };
  last_load_failed = false;
  peer_reads = 0;
}

-- The certificate is its own fingerprint, and the digest is what it hashes.
abbrev of_cert : Text → Option Text
of_cert cert = some cert

abbrev digest : Text → Text
digest t = t

abbrev word : ℕ → Text
word i = codes "able"

abbrev no_ip : Text → Bool
no_ip t = false

abbrev machine : Text → Text → Bool → Side
machine fp nonce says = record {
  fingerprint = fp;
  own = record { cert_pem = fp; name = codes "mac"; listen_port = pos 9877; nonce = nonce };
  transport = fp;
  remote = some (codes "10.0.0.5:50123");
  confirms = λ code. some says;
  hello_sent = true;
  decision_sent = true;
}

abbrev laptop : Side
laptop = record (machine (codes "aa11") (codes "n1") true) { transport = codes "bb22" }

abbrev desk : Side
desk = record (machine (codes "bb22") (codes "n2") false) { transport = codes "AA11" }

pairing-Spares_example :
    Spares digest word no_ip of_cert laptop
      (some (hello (some desk.own)))
      (some (decision (some true)))
      empty
      (handle_inbound_pairing digest word no_ip of_cert works 5 laptop
        (some (hello (some desk.own)))
        (some (decision (some true)))
        empty)
    × Spares digest word no_ip of_cert laptop
        (some (hello (some desk.own)))
        (some (decision (some true)))
        empty
        (pair_responder_in_band digest word no_ip of_cert works 5 laptop
          (some (hello (some desk.own)))
          (some (decision (some true)))
          empty)
pairing-Spares_example =
    pairing-Spares digest word no_ip of_cert works 5 laptop (some (hello (some desk.own))) empty
      (some (decision (some true)))

differ : to_lower (trim_space (codes "aa11")) ≢ to_lower (trim_space (codes "bb22"))
unfolding to_lower trim_space
differ e = ground (arith, e)

exchange-Agrees_example :
    Ends
      (codes "bb22")
      (code_of digest laptop desk.own (codes "bb22"))
      false
      (handle_inbound_pairing digest word no_ip of_cert works 5 laptop
        (some (hello (some desk.own)))
        (some (decision (some false)))
        empty).0
    × Ends
        (codes "aa11")
        (code_of digest laptop desk.own (codes "bb22"))
        false
        (pair_responder_in_band digest word no_ip of_cert works 6 desk
          (some (hello (some laptop.own)))
          (some (decision (some true)))
          empty).0
unfolding is_valid_hello has_control_rune equal_fold ◌=t◌ to_lower
exchange-Agrees_example =
    exchange-Agrees digest word no_ip of_cert works works 5 6 laptop desk true false empty empty
      (refl, refl, refl, refl, refl) (refl, refl, refl, refl, refl) differ refl refl

transcript-SameSides_example :
    SameSides
      (to_lower (trim_space (codes "aa11")))
      (to_lower (trim_space (codes "bb22")))
      (codes "n1")
      (codes "n2")
      (to_lower (trim_space (codes "aa11")))
      (to_lower (trim_space (codes "bb22")))
      (codes "n1")
      (codes "n2")
unfolding to_lower trim_space
transcript-SameSides_example =
    transcript-SameSides (codes "aa11") (codes "bb22") (codes "n1") (codes "n2") (codes "aa11")
      (codes "bb22") (codes "n1") (codes "n2") (omega arith, omega arith, omega arith, omega arith)
      (omega arith, omega arith, omega arith, omega arith) refl

abbrev trusted : Peer
trusted = record {
  fingerprint = codes "bb22";
  name = codes "desk";
  alias = [];
  is_default = false;
  address = codes "10.0.0.5";
  cert_pem = [];
  first_seen = 1;
  last_seen = 1;
  last_address_confirmed = 1;
}

abbrev declined : PairResult
declined = record { peer_fingerprint = codes "bb22"; code = []; accepted = false }

-- An exchange that was declined moves the address of a peer that was trusted before.
moves :
    (readdress no_ip of_cert works 9 (codes "evil") declined (record empty {
      peers = record { main = some (holds ((codes "bb22", trusted) ∷ [])); backup = none };
    })).peers.main
    ≡ some (
        holds (
          (
            codes "bb22",
            record trusted { address = codes "evil"; last_seen = 9; last_address_confirmed = 9 },
          )
          ∷ []))
unfolding readdress ◌=t◌ validate_peer to_lower trim_space contains_byte validate_peer_label
    validate_peer_address split_host_port contains with_peer put lookup
moves = refl
