-- ===== src/Drop/Receive/Once.antt =====
-- internal/drop/receiver.go and tombstone.go: what was published under a key is not published again.
use tantu.Prelude.{
  ◌<◌, ◌≡◌, ◌≢◌, ◌⊎◌, refl, sym, subst, ap, ◌∙◌, inl, inr, true, false, not, Option, none, some, [],
  ◌∷◌, if◌then◌else◌, if_cases, pos, pos_part,
}
use tantu.Text.{Text, is_empty, trim_space}
use tantu.Drop.Types.{DropSend}
use tantu.Drop.Quota.{TransferQuota, TransferLease}
use tantu.Drop.Receiver.{Receiving, Outcome, finished, failed, receive_from}
use tantu.Drop.Receiver.Filed.{OutcomeFiled, receive_from-OutcomeFiled}
use tantu.Drop.Metadata.{normalized}
use tantu.Drop.Tombstones.{
  TombstoneEntry, Tombstones, is_blank, record_entry, count, lookup_entry, matches,
  max_tombstone_entries,
}
use tantu.Drop.Tombstones.Found.{lookup_entry-record_entry}
use tantu.Drop.Negotiation.{
  Refusal, Config, Sink, Destination, World, discard, settled, declared_refusal, Known, known,
  Leased, take_lease, give_back, offset_of, sink_refusal, key_reuse, quota_refused,
  refused_by_owner, no_destination, absent, refusing, sink, new, reused, completed, leased, denied,
}
use tantu.Drop.Receive.{
  Env, Ending, entry_of, remember, complete, after_data, with_sink, at_destination, under_quota,
  unless_reused, receive_drop, rejects, breaks, or_reject, session_of, with_leased, hook_fails,
  asked,
}

-- What was published is as before.
abbrev pub Same : World → Ending × World → Type 0
Same w end = end.1.published ≡ w.published

-- Nothing was published, or the key is recorded.
abbrev Told : Text → World → Ending × World → Type 0
Told k w end =
    Same w end
    ⊎ ((t : Tombstones) × (e : TombstoneEntry) × (end.1.tombstones ≡ some t)
        × (lookup_entry t k ≡ some e))

pub or_reject_cases :
    (P : Ending × World → Type 0) (o : Option Refusal) (w : World) (go_on : Ending × World)
    → ((e : Refusal) → P (rejects e, w))
    → (o ≡ none → P go_on)
    → P (or_reject o w go_on)
or_reject_cases P none w go_on stopped went = went refl
or_reject_cases P (some e) w go_on stopped went = stopped e

-- A property holds of whatever follows the data phase, whose destination begins with the payload.
abbrev Ran :
    (Text → Text)
    → Env
    → Config
    → World
    → DropSend
    → Option TombstoneEntry
    → (Ending × World → Type 0)
    → Type 0
Ran digest env cfg w meta completion P =
    let c = session_of cfg meta completion in
    (o : Outcome) → OutcomeFiled c o → P (after_data digest env c w o)

module _ (digest : Text → Text) (env : Env) (cfg : Config) (w : World) (meta : DropSend)
    (completion : Option TombstoneEntry) where
  -- What holds of every refusal and of whatever the data phase ends with holds of the attempt.
  module _ (P : Ending × World → Type 0)
      (stopped : (end : Ending) (q : Option TransferQuota) → P (end, record w { quota = q }))
      (ran : Ran digest env cfg w meta completion P) where
    with_sink_cases :
        (l : Option (TransferQuota × TransferLease)) (s : Sink)
        → P (with_sink digest env cfg w meta completion l s)
    unfolding with_sink
    with_sink_cases l s =
        let c = session_of cfg meta completion in
        let offset = offset_of cfg.received_bytes s in
        let start = if c.duplicate then 0 else pos_part offset in
        let out = receive_from digest c env.io s.rewindable s.file start l env.inbound in
        or_reject_cases P (sink_refusal meta.size offset s) (record w { quota = give_back l })
          (if env.ack_sent
            then after_data digest env c w out
            else (breaks, record w { quota = give_back l }))
          (λ e. stopped (rejects e) (give_back l))
          (λ _.
            if_cases P env.ack_sent
              (λ _.
                ran out (
                  receive_from-OutcomeFiled digest c env.io s.rewindable s.file start l
                    env.inbound))
              (λ _. stopped breaks (give_back l)))

module _ (digest : Text → Text) (env : Env) (cfg : Config) (w : World) (meta : DropSend)
    (P : Ending × World → Type 0)
    (stopped : (end : Ending) (q : Option TransferQuota) → P (end, record w { quota = q })) where
  at_destination_cases :
      (completion : Option TombstoneEntry) (l : Option (TransferQuota × TransferLease))
      (d : Destination)
      → Ran digest env cfg w meta completion P
      → P (at_destination digest env cfg w meta completion l d)
  unfolding at_destination
  at_destination_cases (some e) l d ran =
      with_sink_cases digest env cfg w meta (some e) P stopped ran l discard
  at_destination_cases none l absent ran = stopped (rejects no_destination) (give_back l)
  at_destination_cases none l refusing ran = stopped (rejects refused_by_owner) (give_back l)
  at_destination_cases none l (sink s) ran =
      with_sink_cases digest env cfg w meta none P stopped ran l s

  with_leased_cases :
      (completion : Option TombstoneEntry) (l : Leased)
      → Ran digest env cfg w meta completion P
      → P (with_leased digest env cfg w meta completion l)
  unfolding with_leased
  with_leased_cases completion (denied q e) ran = stopped (rejects (quota_refused e)) (some q)
  with_leased_cases completion (leased l) ran =
      at_destination_cases completion l env.destination ran

  pub unless_reused_cases :
      (k : Known)
      → (k ≡ new → Ran digest env cfg w meta none P)
      → ((e : TombstoneEntry) → Ran digest env cfg w meta (some e) P)
      → P (unless_reused digest env cfg w meta k)
  unfolding unless_reused under_quota
  unless_reused_cases new fresh again =
      with_leased_cases none (take_lease w.quota cfg.peer_key meta.size) (fresh refl)
  unless_reused_cases reused fresh again = stopped (rejects key_reuse) w.quota
  unless_reused_cases (completed e) fresh again =
      with_leased_cases (some e) (take_lease w.quota cfg.peer_key meta.size) (again e)

module _ (digest : Text → Text) (env : Env) (cfg : Config) (w : World) (meta : DropSend) where
  -- A duplicate publishes nothing and records nothing.
  pub duplicate_silent :
      (e : TombstoneEntry) (o : Outcome)
      → Same w (after_data digest env (session_of cfg meta (some e)) w o)
  unfolding after_data complete session_of
  duplicate_silent e (finished s) = refl
  duplicate_silent e (failed x s) = refl

pub settled_key :
    (cfg : Config) (meta : DropSend) → (settled cfg meta).idempotency_key ≡ meta.idempotency_key
unfolding settled normalized
settled_key cfg meta =
    if_cases (λ (m : DropSend). m.idempotency_key ≡ meta.idempotency_key) (is_empty cfg.attempt_id)
      (λ _. refl) (λ _. refl)

module _ (digest : Text → Text) (env : Env) (cfg : Config) (w : World) (meta : DropSend) where
  -- An attempt under a key that is known publishes nothing.
  known_silent :
      known w.tombstones (settled cfg meta) ≢ new → Same w (receive_drop digest env cfg w meta)
  unfolding receive_drop
  known_silent old =
      let m = settled cfg meta in
      let k = known w.tombstones m in
      or_reject_cases (Same w) (declared_refusal cfg meta) w (unless_reused digest env cfg w m k)
        (λ _. refl)
        (λ _.
          unless_reused_cases digest env cfg w m (Same w) (λ _ _. refl) k (λ e. absurd (old e))
            (λ e o _. duplicate_silent digest env cfg w m e o))

-- Where the store remembers the key, no metadata under it is new.
recorded_known :
    (t : Tombstones) (e : TombstoneEntry) (meta : DropSend)
    → is_empty meta.idempotency_key ≡ false
    → lookup_entry t meta.idempotency_key ≡ some e
    → known (some t) meta ≢ new
unfolding known
recorded_known t e meta named there = rw named (
    rw there (if_cases (λ k. k ≢ new) (not (matches e meta)) (λ _ x. absurd cc) (λ _ x. absurd cc)))

blank_text : trim_space [] ≡ []
unfolding trim_space
blank_text = refl

named_text : (k : Text) → is_blank k ≡ false → is_empty k ≡ false
named_text [] h = let hidden : is_blank [] ≡ true = ap is_empty blank_text in cc
named_text (c ∷ k) h = refl

-- A store with room, and a key to record under.
module _ (digest : Text → Text) (env : Env) (cfg : Config) (w : World) (m : DropSend)
    (t : Tombstones) (named : is_blank m.idempotency_key ≡ false) (kept : w.tombstones ≡ some t)
    (bound : t.max_entries ≡ pos max_tombstone_entries)
    (room : count t < max_tombstone_entries) where
  remembered :
      (s : Receiving)
      → remember digest env (session_of cfg m none) s w.tombstones
        ≡ some
            (record_entry env.now env.persist_fails t (entry_of digest (session_of cfg m none) s))
  unfolding remember session_of
  remembered s = rw kept (rw (named_text m.idempotency_key named) refl)

  completion-Told :
      (o : Outcome) → Told m.idempotency_key w (after_data digest env (session_of cfg m none) w o)
  unfolding after_data complete session_of entry_of
  completion-Told (failed e s) = inl refl
  completion-Told (finished s) =
      let c = session_of cfg m none in
      if_cases (Told m.idempotency_key w) (hook_fails (asked env.hook (digest s.hashed) s.file))
        (λ _. inl refl)
        (λ _. inr (
          record_entry env.now env.persist_fails t (entry_of digest c s),
          record (entry_of digest c s) { completed_at = env.now },
          remembered s,
          lookup_entry-record_entry env.now env.persist_fails t (entry_of digest c s) named refl
              bound room,
        ))

  attempt-Told : Told m.idempotency_key w (unless_reused digest env cfg w m (known w.tombstones m))
  attempt-Told =
      unless_reused_cases digest env cfg w m (Told m.idempotency_key w) (λ _ _. inl refl)
        (known w.tombstones m) (λ _ o _. completion-Told o)
        (λ e o _. inl (duplicate_silent digest env cfg w m e o))

module _ (digest : Text → Text) (w : World) (t : Tombstones) (kept : w.tombstones ≡ some t)
    (bound : t.max_entries ≡ pos max_tombstone_entries) (room : count t < max_tombstone_entries)
    (env : Env) (cfg : Config) (meta : DropSend)
    (named : is_blank meta.idempotency_key ≡ false) where
  receive-Told : Told meta.idempotency_key w (receive_drop digest env cfg w meta)
  unfolding receive_drop
  receive-Told =
      let m = settled cfg meta in
      let same = settled_key cfg meta in
      or_reject_cases (Told meta.idempotency_key w) (declared_refusal cfg meta) w
        (unless_reused digest env cfg w m (known w.tombstones m)) (λ _. inl refl)
        (λ _.
          subst (λ k. Told k w (unless_reused digest env cfg w m (known w.tombstones m))) same
            (attempt-Told digest env cfg w m t (subst (λ k. is_blank k ≡ false) (sym same) named)
              kept bound room))

  -- Where an attempt under a key published, over a store with room, the next attempt under that key
  -- publishes nothing: whatever its metadata, its bytes and its destination, and whether the receipt
  -- of the first arrived or not.
  pub receive_drop-receive_drop :
      (receive_drop digest env cfg w meta).1.published ≢ w.published
      → (env' : Env) (cfg' : Config) (meta' : DropSend)
      → meta'.idempotency_key ≡ meta.idempotency_key
      → (receive_drop digest env' cfg' (receive_drop digest env cfg w meta).1 meta').1.published
        ≡ (receive_drop digest env cfg w meta).1.published
  receive_drop-receive_drop published env' cfg' meta' same = elim receive-Told [
    | inl silent ↦ absurd (published silent)
    | inr (t', e, at, found) ↦
        let w' = (receive_drop digest env cfg w meta).1 in
        let m' = settled cfg' meta' in
        let key : m'.idempotency_key ≡ meta.idempotency_key = settled_key cfg' meta' ∙ same in
        let text : is_empty m'.idempotency_key ≡ false =
          subst (λ k. is_empty k ≡ false) (sym key) (named_text meta.idempotency_key named) in
        let there : lookup_entry t' m'.idempotency_key ≡ some e =
          subst (λ k. lookup_entry t' k ≡ some e) (sym key) found in
        known_silent digest env' cfg' w' meta'
          (subst (λ o. known o m' ≢ new) (sym at) (recorded_known t' e m' text there))
  ]
