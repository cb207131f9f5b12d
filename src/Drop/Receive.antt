-- ===== src/Drop/Receive.antt =====
-- ReceiveDrop of internal/drop/receiver.go, from the metadata that arrived to the receipt: what is
-- refused before a byte is read is in Drop/Negotiation, the data phase in Drop/Receiver. The quota, the
-- tombstones and what was published are the world, which outlives an attempt. BeforeComplete is an
-- input: a test of the digest of the payload and of the destination file, which it publishes where it
-- does not fail.
pub mod Once
pub mod Published
pub mod Tests
use tantu.Prelude.{
  ℕ, zero, suc, ◌+◌, ◌&&◌, ◌||◌, Bool, true, false, not, Option, none, some, List, [], ◌∷◌, ltb,
  ◌==◌, if◌then◌else◌, length, ℤ, pos, negsuc, pos_part, is_positive, is_negative,
}
use tantu.Text.{Text, is_empty}
use tantu.Drop.Types.{DropSend, DropComplete, DropKind, text, kind_eq}
use tantu.Drop.Quota.{
  TransferQuota, TransferLease, QuotaError, Acquired, granted, refused, acquire, release,
}
use tantu.Drop.Sender.{beyond, chunk_size_of}
use tantu.Drop.Receiver.{
  Session, Receiving, ReceiveError, Outcome, finished, failed, IoAnswer, FromSender, limit_of, over,
  default_max_drop_size, default_max_text_size, receive_from, receipt,
}
use tantu.Drop.Metadata.{MetadataError, validate_drop_metadata, normalized}
use tantu.Drop.Tombstones.{TombstoneEntry, Tombstones, lookup_entry, matches, record_entry}
use tantu.Drop.Negotiation.{
  Refusal, Config, Seeks, Sink, Destination, World, discard, settled, first_refusal,
  declared_refusal, Known, judge, known, Leased, granted_or, take_lease, give_back, offset_of,
  is_longer, sink_refusal, invalid_metadata, too_large, text_too_large, negative_received,
  received_exceeds, key_reuse, quota_refused, refused_by_owner, no_destination, position_lost,
  longer_destination, invalid_offset, restores, sticks, refuses, absent, refusing, sink, new,
  reused, completed, leased, denied,
}

-- What stands outside one attempt: the destination, whether the acknowledgement and the receipt go out,
-- what the destination answers to each chunk, BeforeComplete if it is set, the time and
-- the write of the ledger, and what the peer sends.
pub record Env : Type 0 where
  pub destination : Destination
  pub ack_sent : Bool
  pub receipt_sent : Bool
  pub io : ℕ → IoAnswer
  pub hook : Option (Text → Text → Bool)
  pub now : ℕ
  pub persist_fails : Bool
  pub inbound : List FromSender

-- How an attempt ends: a rejecting acknowledgement, a connection that broke behind it, a failure in
-- the data phase or of BeforeComplete, or a receipt, which may be lost.
pub data Ending : Type 0 where
  rejects : Refusal → Ending
  breaks : Ending
  interrupts : ReceiveError → Ending
  withholds : Ending
  receipts : DropComplete → Bool → Ending

-- A refusal ends the attempt in the given world.
abbrev pub or_reject : Option Refusal → World → Ending × World → Ending × World
or_reject none w go_on = go_on
or_reject (some e) w go_on = (rejects e, w)

-- What `cfg.BeforeComplete(result)` answers, if it is set.
unfoldable pub asked : Option (Text → Text → Bool) → Text → Text → Option Bool
asked none sha file = none
asked (some hook) sha file = some (hook sha file)

unfoldable pub hook_fails : Option Bool → Bool
hook_fails (some false) = true
hook_fails _ = false

-- What the data phase is told of the negotiation.
unfoldable pub session_of : Config → DropSend → Option TombstoneEntry → Session
unfolding limit_of
session_of cfg meta completion = record {
  meta = meta;
  max_size = limit_of cfg.max_size default_max_drop_size;
  max_text_size = limit_of cfg.max_text_size default_max_text_size;
  duplicate = elim completion [ some e ↦ true | none ↦ false ];
  tombstone_sha = elim completion [ some e ↦ e.sha256 | none ↦ [] ];
}

module _ (digest : Text → Text) where
  unfoldable pub entry_of : Session → Receiving → TombstoneEntry
  entry_of c s = record {
    key = c.meta.idempotency_key;
    drop_id = c.meta.drop_id;
    kind = c.meta.kind;
    name = c.meta.name;
    size = c.meta.size;
    mime_type = c.meta.mime_type;
    chunk_size = pos (chunk_size_of c.meta);
    head_hash = c.meta.head_hash;
    sha256 = digest s.hashed;
    bytes = s.total;
    completed_at = 0;
  }

  unfoldable pub remember : Env → Session → Receiving → Option Tombstones → Option Tombstones
  unfolding entry_of
  remember env c s none = none
  remember env c s (some t) =
      if is_empty c.meta.idempotency_key
      then some t
      else some (record_entry env.now env.persist_fails t (entry_of c s))

  -- BeforeComplete publishes the destination file where it is set and does not fail.
  unfoldable pub publishes : Option Bool → World → DropSend → Text → World
  publishes (some true) w meta file = record w { published = (meta, file) ∷ w.published }
  publishes _ w meta file = w

  -- Behind the data phase: the publication, the tombstone and the receipt.
  unfoldable pub complete : Env → Session → World → Receiving → Ending × World
  unfolding remember publishes hook_fails asked
  complete env c w s =
      let answer = asked env.hook (digest s.hashed) s.file in
      let receipts' = receipts (receipt digest c s) env.receipt_sent in
      let w' = publishes answer w c.meta s.file in
      if c.duplicate
      then (receipts', w)
      else if hook_fails answer
      then (withholds, w)
      else (receipts', record w' { tombstones = remember env c s w.tombstones })

  unfoldable pub after_data : Env → Session → World → Outcome → Ending × World
  unfolding complete
  after_data env c w (finished s) = complete env c (record w { quota = give_back s.lease }) s
  after_data env c w (failed e s) = (interrupts e, record w { quota = give_back s.lease })

  -- The offset, the acknowledgement and the data phase. `known` is the completion of a duplicate.
  unfoldable pub with_sink :
      Env
      → Config
      → World
      → DropSend
      → Option TombstoneEntry
      → Option (TransferQuota × TransferLease)
      → Sink
      → Ending × World
  unfolding after_data session_of
  with_sink env cfg w meta completion lease s =
      let offset = offset_of cfg.received_bytes s in
      let c = session_of cfg meta completion in
      let start = if c.duplicate then 0 else pos_part offset in
      or_reject (sink_refusal meta.size offset s) (record w { quota = give_back lease })
        (if env.ack_sent
          then after_data env c w
              (receive_from digest c env.io s.rewindable s.file start lease env.inbound)
          else (breaks, record w { quota = give_back lease }))

  -- Step 3: the bytes of a duplicate are discarded.
  unfoldable pub at_destination :
      Env
      → Config
      → World
      → DropSend
      → Option TombstoneEntry
      → Option (TransferQuota × TransferLease)
      → Destination
      → Ending × World
  unfolding with_sink
  at_destination env cfg w meta (some e) lease d = with_sink env cfg w meta (some e) lease discard
  at_destination env cfg w meta none lease absent =
      (rejects no_destination, record w { quota = give_back lease })
  at_destination env cfg w meta none lease refusing =
      (rejects refused_by_owner, record w { quota = give_back lease })
  at_destination env cfg w meta none lease (sink s) = with_sink env cfg w meta none lease s

  unfoldable pub with_leased :
      Env → Config → World → DropSend → Option TombstoneEntry → Leased → Ending × World
  unfolding at_destination
  with_leased env cfg w meta completion (denied q e) =
      (rejects (quota_refused e), record w { quota = some q })
  with_leased env cfg w meta completion (leased l) =
      at_destination env cfg w meta completion l env.destination

  unfoldable pub under_quota :
      Env → Config → World → DropSend → Option TombstoneEntry → Ending × World
  unfolding with_leased
  under_quota env cfg w meta completion =
      with_leased env cfg w meta completion (take_lease w.quota cfg.peer_key meta.size)

  unfoldable pub unless_reused : Env → Config → World → DropSend → Known → Ending × World
  unfolding under_quota
  unless_reused env cfg w meta new = under_quota env cfg w meta none
  unless_reused env cfg w meta reused = (rejects key_reuse, w)
  unless_reused env cfg w meta (completed e) = under_quota env cfg w meta (some e)

  unfoldable pub receive_drop : Env → Config → World → DropSend → Ending × World
  unfolding unless_reused
  receive_drop env cfg w meta =
      or_reject (declared_refusal cfg meta) w
        (unless_reused env cfg w (settled cfg meta) (known w.tombstones (settled cfg meta)))
