-- ===== src/Drop/Receive/Published.antt =====
-- internal/drop/receiver.go: what an attempt publishes, and what it says of it.
use tantu.Prelude.{
  ℕ, zero, suc, ◌≤◌, ◌≡◌, ◌≢◌, ◌⊎◌, refl, sym, ap, ◌∙◌, inl, inr, Bool, true, false, Option, none,
  some, [], ◌∷◌, if_cases, take, length, pos, arith,
}
use tantu.Text.{Text}
use tantu.Drop.Types.{DropSend, DropComplete}
use tantu.Drop.Quota.{TransferQuota}
use tantu.Drop.Receiver.{Outcome, finished, failed, receipt}
use tantu.Drop.Receiver.Filed.{OutcomeFiled}
use tantu.Drop.Metadata.{MetadataError, validate_drop_metadata}
use tantu.Drop.Metadata.Safe.{IsAcceptable, validate_drop_metadata-IsAcceptable}
use tantu.Drop.Negotiation.{
  Refusal, Config, World, settled, first_refusal, declared_refusal, known, give_back, new,
}
use tantu.Drop.Receive.{
  Env, Ending, receipts, publishes, complete, after_data, unless_reused, receive_drop, session_of,
  hook_fails, or_reject, asked,
}
use tantu.Drop.Receive.Once.{Same, or_reject_cases, duplicate_silent, unless_reused_cases}

-- One file more is published, with which BeforeComplete agreed. It begins with the payload, and the
-- receipt is one of success for the payload; its digest is that of the file too where nothing stands
-- behind the payload.
pub record IsPublication (digest : Text → Text) (env : Env) (w : World) (m : DropSend)
    (end : Ending × World) : Type 0 where
  pub file : Text
  pub payload : Text
  pub added : end.1.published ≡ (m, file) ∷ w.published
  pub begins : take (length payload) file ≡ payload
  pub receipt : DropComplete
  pub sent : Bool
  pub answered : end.0 ≡ receipts receipt sent
  pub success : receipt.success ≡ true
  pub counted : receipt.bytes_recv ≡ pos (length payload)
  pub sha : receipt.sha256 ≡ digest payload
  pub whole : length file ≤ length payload → receipt.sha256 ≡ digest file
  pub agreed :
      (hook : Text → Text → Bool) × (env.hook ≡ some hook) × (hook receipt.sha256 file ≡ true)
  pub original : receipt.duplicate ≡ false

abbrev MayPublish : (Text → Text) → Env → World → DropSend → Ending × World → Type 0
MayPublish digest env w m end = Same w end ⊎ IsPublication digest env w m end

take_whole : (n : ℕ) (xs : Text) → length xs ≤ n → take n xs ≡ xs
take_whole zero [] h = refl
take_whole zero (x ∷ xs) h = absurd (omega (arith, h))
take_whole (suc n) [] h = refl
take_whole (suc n) (x ∷ xs) h = ap (◌∷◌ x) (take_whole n xs (omega (arith, h)))

answered_yes :
    (h : Option (Text → Text → Bool)) (sha file : Text)
    → asked h sha file ≡ some true
    → (hook : Text → Text → Bool) × (h ≡ some hook) × (hook sha file ≡ true)
unfolding asked
answered_yes none sha file e = absurd cc
answered_yes (some hook) sha file e = (hook, refl, cc)

module _ (digest : Text → Text) (env : Env) (cfg : Config) (w : World) (m : DropSend) where
  hooked :
      (h : Option Bool) (q : Option TransferQuota) (file : Text)
      → ((publishes digest h (record w { quota = q }) m file).published ≡ w.published)
        ⊎ ((h ≡ some true)
            × ((publishes digest h (record w { quota = q }) m file).published
                ≡ (m, file) ∷ w.published))
  unfolding publishes
  hooked none q file = inl refl
  hooked (some true) q file = inr (refl, refl)
  hooked (some false) q file = inl refl

  completion_publishes :
      (o : Outcome)
      → OutcomeFiled (session_of cfg m none) o
      → MayPublish digest env w m (after_data digest env (session_of cfg m none) w o)
  unfolding after_data complete session_of receipt
  completion_publishes (failed e s) v = inl refl
  completion_publishes (finished s) v =
      let answer = asked env.hook (digest s.hashed) s.file in
      let begins : take (length s.hashed) s.file ≡ s.hashed = rw v.counted (v.filed refl) in
      if_cases (MayPublish digest env w m) (hook_fails answer) (λ _. inl refl)
        (λ _. elim (hooked answer (give_back s.lease) s.file) [
          | inl same ↦ inl same
          | inr (agrees, more) ↦ inr (record {
            file = s.file;
            payload = s.hashed;
            added = more;
            begins = begins;
            counted = ap pos (sym v.counted);
            whole = λ short. ap digest (sym begins ∙ take_whole (length s.hashed) s.file short);
            agreed = answered_yes env.hook (digest s.hashed) s.file agrees;
            receipt = receipt digest (session_of cfg m none) s;
            sent = env.receipt_sent;
            answered = refl;
            success = refl;
            sha = refl;
            original = refl;
          })
        ])

metadata_passes :
    (a : Option MetadataError) (b : Option Refusal) → first_refusal a b ≡ none → a ≡ none
metadata_passes none b h = refl
metadata_passes (some e) b h = absurd cc

not_refused :
    (cfg : Config) (meta : DropSend)
    → declared_refusal cfg meta ≡ none
    → validate_drop_metadata meta ≡ none
unfolding declared_refusal
not_refused cfg meta h = metadata_passes (validate_drop_metadata meta) _ h

-- An attempt that publishes had acceptable metadata and no known key, and publishes one file, with
-- which BeforeComplete agreed. The file begins with the payload, and the answer is a receipt of
-- success, for an original, with the length and the digest of the payload; where nothing stands behind
-- the payload, the digest is that of the published file.
pub receive_drop-IsPublication :
    (digest : Text → Text) (env : Env) (cfg : Config) (w : World) (meta : DropSend)
    → (receive_drop digest env cfg w meta).1.published ≢ w.published
    → IsAcceptable meta
      × (known w.tombstones (settled cfg meta) ≡ new)
      × IsPublication digest env w (settled cfg meta) (receive_drop digest env cfg w meta)
unfolding receive_drop
receive_drop-IsPublication digest env cfg w meta published =
    let m = settled cfg meta in
    let k = known w.tombstones m in
    let P = (λ (end : Ending × World).
      Same w end ⊎ (IsAcceptable meta × (k ≡ new) × IsPublication digest env w m end)) in
    let all : P (or_reject (declared_refusal cfg meta) w (unless_reused digest env cfg w m k)) =
      or_reject_cases P (declared_refusal cfg meta) w (unless_reused digest env cfg w m k)
        (λ _. inl refl)
        (λ passes.
          let accepted = validate_drop_metadata-IsAcceptable meta (not_refused cfg meta passes) in
          unless_reused_cases digest env cfg w m P (λ _ _. inl refl) k
            (λ fresh o filed. elim (completion_publishes digest env cfg w m o filed) [
              | inl same ↦ inl same
              | inr p ↦ inr (accepted, fresh, p)
            ])
            (λ e o _. inl (duplicate_silent digest env cfg w m e o))) in
    elim all [ inl same ↦ absurd (published same) | inr p ↦ p ]
