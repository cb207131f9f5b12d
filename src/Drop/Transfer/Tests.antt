-- ===== src/Drop/Transfer/Tests.antt =====
-- Transfers at concrete inputs, with a digest that stands for SHA-256.
use tantu.Prelude.{◌+◌, ◌%◌, ◌≡◌, refl, true, false, none, [], ◌∷◌, arith, length, take, pos}
use tantu.Text.{Text, codes}
use tantu.Drop.Types.{DropSend, DropData, file, kind_eq}
use tantu.Drop.Sender.{stream, chunk_size_of}
use tantu.Drop.Receiver.{Session, written, heartbeat, chunk, receive_from, is_sha256_hex}
use tantu.Drop.Receiver.Safety.{OutcomeSound, receive_from_sound}
use tantu.Drop.Transfer.Chunks.{Streams, stream-Streams}
use tantu.Drop.Transfer.Delivery.{Agrees}
use tantu.Drop.Transfer.EndToEnd.{Completes, transfer-Completes}

abbrev zeros : Text
zeros = codes "000000000000000000000000000000000000000000000000000000000000000"

-- The last digit of the length, in the form of a digest.
digest : Text → Text
digest b = (48 + length b % 10) ∷ zeros

digest_valid : (b : Text) → is_sha256_hex (digest b) ≡ true
unfolding is_sha256_hex digest
digest_valid b = ground arith

abbrev payload : Text
payload = codes "hello tantu"

abbrev meta : DropSend
meta = record {
  drop_id = codes "d-1";
  kind = file;
  name = codes "greeting";
  size = pos 11;
  mime_type = [];
  chunk_size = pos 4;
  head_hash = [];
  idempotency_key = [];
  rel_path = [];
  attempt_id = [];
}

abbrev session : Session
session = record {
  meta = meta;
  max_size = 1000;
  max_text_size = 0;
  duplicate = false;
  tombstone_sha = [];
}

session-Agrees : Agrees session payload
session-Agrees = record { fresh = refl; exact = λ _. refl; within = refl; text_within = λ _. refl }

-- The second half of the payload, behind one chunk that the receiver holds already.
transfer-Completes_example :
    Completes digest (λ _. true) (λ _. written) session payload 4 (take 4 payload) none
unfolding chunk_size_of
transfer-Completes_example =
    transfer-Completes digest digest_valid session payload session-Agrees (λ _. true) (λ _. refl)
      (λ _. written) (λ _. refl) 4 (take 4 payload) none (omega arith) (omega arith) refl refl tt

stream-Streams_example :
    Streams digest
      (codes "d-1")
      4
      1
      (codes "hell")
      (codes "o tantu")
      (stream digest (λ _. true) (codes "d-1") 4 payload 4)
stream-Streams_example =
    stream-Streams digest (λ _. true) (codes "d-1") 4 (λ _. refl) (omega arith) payload 4

-- A final chunk whose digest is of other bytes.
abbrev forged : DropData
forged = record {
  drop_id = codes "d-1";
  chunk_index = 0;
  bytes = codes "hi!";
  final = true;
  sha256 = 57 ∷ zeros;
}

abbrev unsized : Session
unsized = record session { meta = record meta { size = pos 0 } }

receive_from_sound_example :
    OutcomeSound digest unsized
      (heartbeat ∷ chunk forged ∷ [])
      (receive_from digest unsized (λ _. written) true [] 0 none (heartbeat ∷ chunk forged ∷ []))
unfolding kind_eq
receive_from_sound_example =
    receive_from_sound digest unsized (λ _. written) true [] 0 none (heartbeat ∷ chunk forged ∷ [])
      (record { declared = refl; within = refl; text_within = refl })
