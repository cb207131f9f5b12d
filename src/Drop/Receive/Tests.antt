-- ===== src/Drop/Receive/Tests.antt =====
-- internal/drop/receiver.go: a photo that arrives twice under one key, and a refused size.
use tantu.Prelude.{
  ℕ, ◌≡◌, ◌≢◌, refl, ap, sym, ◌∙◌, Bool, true, false, none, some, [], ◌∷◌, length, arith, pos,
}
use tantu.Text.{
  Text, codes, ◌=t◌, is_id_byte, is_control, trim_space, split, replace_byte, before, to_upper,
  has_prefix, equal_fold, to_lower,
}
use tantu.Text.Assoc.{lookup}
use tantu.Hub.RelPath.{member, has_drive}
use tantu.Drop.Types.{kind_eq}
use tantu.Drop.Sender.{chunk_size_of}
use tantu.Drop.Receiver.{
  FromSender, chunk, heartbeat, written, limit_of, receive_from, receive_chunks, on_chunk, advance,
  accept_bytes, grow_lease, touch_fails, write_chunk, store, write_at, refusal_of, final_refusal,
  is_sha256_hex,
}
use tantu.Drop.Metadata.{
  validate_drop_metadata, drop_id_refusal, fields_refusal, rel_path_refusal, valid_tombstone_key,
  supported_kind, has_control, outside, segments_bad, normalized,
}
use tantu.Drop.Metadata.Safe.{IsAcceptable}
use tantu.Drop.Metadata.Tests.{photo}
use tantu.Drop.Tombstones.{lookup_entry, count, is_blank}
use tantu.Drop.Tombstones.Tests as Ledger
use tantu.Drop.Negotiation.{
  Config, World, settled, declared_refusal, judge, known, take_lease, give_back, offset_of,
  is_longer, sink_refusal, too_large, restores, sink, new,
}
use tantu.Drop.Receive.{
  Env, publishes, hook_fails, asked, complete, after_data, session_of, with_sink, at_destination,
  with_leased, under_quota, unless_reused, receive_drop, rejects,
}
use tantu.Drop.Receive.Once.{receive_drop-receive_drop}
use tantu.Drop.Receive.Published.{IsPublication, receive_drop-IsPublication}

abbrev sum : Text
sum = codes "0123456789abcdef0123456789abcdef0123456789abcdef0123456789abcdef"

abbrev constant : Text → Text
constant t = sum

abbrev part : ℕ → Text → Bool → FromSender
part i bytes last = chunk (record {
  drop_id = codes "d-1.part";
  chunk_index = i;
  bytes = bytes;
  final = last;
  sha256 = sum;
})

abbrev attempt : Env
attempt = record {
  destination = sink (record {
    file = [];
    position = 0;
    reported = none;
    seekable = true;
    rewindable = true;
    seeks = restores;
  });
  ack_sent = true;
  receipt_sent = false;
  io = λ i. written;
  hook = some (λ sha file. equal_fold (constant file) sha);
  now = 7;
  persist_fails = false;
  inbound =
      part 0 (codes "0123") false
      ∷ heartbeat
      ∷ part 1 (codes "4567") false
      ∷ part 2 (codes "89") true
      ∷ [];
}

abbrev defaults : Config
defaults = record {
  max_size = pos 0;
  max_text_size = pos 0;
  received_bytes = pos 0;
  attempt_id = [];
  peer_key = codes "p";
}

abbrev start : World
start = record { quota = none; tombstones = some Ledger.store; published = [] }

abbrev count_published : World → ℕ
count_published w = length w.published

one : count_published (receive_drop constant attempt defaults start photo).1 ≡ 1
unfolding receive_drop unless_reused under_quota with_leased at_destination with_sink after_data
    complete session_of hook_fails asked publishes give_back is_longer sink_refusal offset_of
    take_lease known judge declared_refusal settled normalized validate_drop_metadata
    drop_id_refusal fields_refusal rel_path_refusal valid_tombstone_key supported_kind has_control
    outside segments_bad ◌=t◌ is_id_byte is_control trim_space split replace_byte before to_upper
    has_prefix equal_fold to_lower lookup lookup_entry member has_drive kind_eq chunk_size_of
    is_sha256_hex limit_of receive_from receive_chunks on_chunk advance accept_bytes grow_lease
    touch_fails write_chunk store write_at refusal_of final_refusal
one = refl

published : (receive_drop constant attempt defaults start photo).1.published ≢ []
published e = let none_there : 1 ≡ 0 = sym one ∙ ap length e in absurd (omega (arith, none_there))

named : is_blank photo.idempotency_key ≡ false
unfolding trim_space
named = refl

-- The receipt is lost, and the photo arrives again.
receive_drop-receive_drop_example :
    (receive_drop constant attempt defaults
      (receive_drop constant attempt defaults start photo).1
      photo).1.published
    ≡ (receive_drop constant attempt defaults start photo).1.published
unfolding count
receive_drop-receive_drop_example =
    receive_drop-receive_drop constant start Ledger.store refl refl (omega arith) attempt defaults
      photo named published attempt defaults photo refl

receive_drop-IsPublication_example :
    IsAcceptable photo
    × (known start.tombstones (settled defaults photo) ≡ new)
    × IsPublication constant attempt start
        (settled defaults photo)
        (receive_drop constant attempt defaults start photo)
receive_drop-IsPublication_example =
    receive_drop-IsPublication constant attempt defaults start photo published

small :
    (receive_drop constant attempt (record defaults { max_size = pos 9 }) start photo).0
    ≡ rejects too_large
unfolding receive_drop declared_refusal validate_drop_metadata drop_id_refusal fields_refusal
    rel_path_refusal valid_tombstone_key supported_kind has_control outside segments_bad ◌=t◌
    is_id_byte is_control trim_space split replace_byte before to_upper has_prefix member has_drive
    is_sha256_hex limit_of
small = refl
