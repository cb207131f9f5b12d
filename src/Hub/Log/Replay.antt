-- ===== src/Hub/Log/Replay.antt =====
-- internal/hub/logger.go: what a client that comes back is told of the events that it missed.
use native.Mathlib.Nat.{mod-eq_of_lt}
use tantu.Prelude.{
  ℕ, zero, suc, ◌+◌, ◌-◌, ◌^◌, ◌<◌, ◌≤◌, ◌≡◌, refl, ◌∙◌, ap, ℤ, true, false, List, [], ◌∷◌, arith,
  leb, ltb, lt→ltb, length, drop,
}
use tantu.Hub.Log.{
  LogEvent, EventLogger, append, get_recent, ring_size, log, broadcast, new_event_logger,
  write_events, replay,
}
use tantu.Hub.Log.Slices.{drop-drop}
use tantu.Hub.Log.Ring.{append_all, append_all-latest}

module _ {A : Type 0} where
  -- Events with their ids, from `id` on.
  abbrev pub numbered : ℕ → List A → List (LogEvent A)
  numbered id [] = []
  numbered id (x ∷ xs) = record { id = id; says = x } ∷ numbered (suc id) xs

  unfoldable pub log_all : EventLogger A → List A → EventLogger A
  log_all l [] = l
  log_all l (x ∷ xs) = log_all (log l x) xs

  length-numbered : (id : ℕ) (xs : List A) → length (numbered id xs) ≡ length xs
  length-numbered id [] = refl
  length-numbered id (x ∷ xs) = ap suc (length-numbered (suc id) xs)

  drop-numbered : (k id : ℕ) (xs : List A) → drop k (numbered id xs) ≡ numbered (id + k) (drop k xs)
  drop-numbered zero id xs = ap (λ i. numbered i xs) {y = id + zero} (omega arith)
  drop-numbered (suc k) id [] = refl
  drop-numbered (suc k) id (x ∷ xs) =
      drop-numbered k (suc id) xs
      ∙ ap (λ i. numbered i (drop k xs)) {x = suc id + k} {y = id + suc k} (omega arith)

  abbrev with_event : EventLogger A → A → ℕ → EventLogger A
  with_event l x id = record {
    ring = append l.ring (record { id = id; says = x });
    clients = broadcast (record { id = id; says = x }) l.clients;
    next_id = id;
  }

  log-with_event :
      (l : EventLogger A) (x : A)
      → suc l.next_id < 2 ^ 64
      → log l x ≡ with_event l x (suc l.next_id)
  unfolding log
  log-with_event l x h = ap (with_event l x) (mod-eq_of_lt (omega (arith, h)) ∙ omega arith)

  log_all-ring :
      (l : EventLogger A) (xs : List A)
      → l.next_id + length xs < 2 ^ 64
      → (log_all l xs).ring ≡ append_all l.ring (numbered (suc l.next_id) xs)
  unfolding log_all append_all
  log_all-ring l [] h = refl
  log_all-ring l (x ∷ xs) h =
      ap (λ (m : EventLogger A). (log_all m xs).ring) (log-with_event l x (omega (arith, h)))
      ∙ log_all-ring (with_event l x (suc l.next_id)) xs (omega (arith, h))

  -- Every event that is new to the client is written.
  write_new :
      (k id : ℕ) (xs : List A) → k < id → (write_events k (numbered id xs)).0 ≡ numbered id xs
  unfolding write_events
  write_new k id [] h = refl
  write_new k id (x ∷ xs) h =
      let unseen : leb id k ≡ false = ground (arith, h) in
      rw (unseen, write_new id (suc id) xs (omega arith)) refl

  write_after :
      (k id j : ℕ) (xs : List A)
      → id + j ≡ suc k
      → (write_events k (numbered id xs)).0 ≡ numbered (suc k) (drop j xs)
  unfolding write_events
  write_after k id zero xs e =
      write_new k id xs (omega (arith, e))
      ∙ ap (λ i. numbered i xs) {x = id} {y = suc k} (omega (arith, e))
  write_after k id (suc j) [] e = refl
  write_after k id (suc j) (x ∷ xs) e =
      let seen : leb id k ≡ true = ground (arith, e) in
      rw seen (write_after k (suc id) j xs (omega (arith, e)))

  -- A client that comes back with the id of an event it has seen is told, in order, exactly the events
  -- that were logged since, where these are no more than the ring keeps.
  pub replay-missed :
      (blank : LogEvent A) (capacity : ℤ) (xs : List A) (k : ℕ)
      → length xs < 2 ^ 64
      → 0 < k
      → k ≤ length xs
      → length xs ≤ k + ring_size capacity
      → (replay (log_all (new_event_logger blank capacity) xs) k).0 ≡ numbered (suc k) (drop k xs)
  unfolding replay new_event_logger
  replay-missed blank capacity xs k bound some_seen known kept =
      let l = new_event_logger blank capacity in
      let n = ring_size capacity in
      let all = numbered 1 xs in
      let gone = length xs - n in
      let shown : get_recent (log_all l xs).ring ≡ numbered (1 + gone) (drop gone xs) =
        ap (λ r. get_recent r) (log_all-ring l xs (omega (arith, bound)))
        ∙ (append_all-latest blank capacity all
            ∙ (ap (λ (i : ℕ). drop (i - n) all) (length-numbered 1 xs)
                ∙ drop-numbered gone 1 xs)) in
      let given : ltb 0 k ≡ true = lt→ltb 0 k some_seen in
      rw given (
        ap (λ es. (write_events k es).0) shown
        ∙ (write_after k (1 + gone) (k - gone) (drop gone xs) (omega (arith, known, kept))
            ∙ ap (λ ys. numbered (suc k) ys)
                (drop-drop xs gone (k - gone)
                  ∙ ap (λ (i : ℕ). drop i xs) (omega (arith, known, kept)))))
