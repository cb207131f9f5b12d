-- ===== src/Hub/Log/Ring.antt =====
-- internal/hub/logger.go: the ring shows the last events that were appended, as many as it holds.
use mathlib.Core.List.{append_assoc, append-nil}
use native.Mathlib.Nat.{mod-eq_of_lt, mod_self, mod-lt}
use tantu.Prelude.{
  ℕ, zero, suc, ◌+◌, ◌-◌, ◌%◌, ◌<◌, ◌≤◌, ◌≡◌, refl, sym, ◌∙◌, ap, true, false, List, [], ◌∷◌, ◌++◌,
  arith, ltb, ltb→lt, length, take, drop, set, if_cases, length-append, length-take, length-drop,
  length-take-le, Bool-cases, ℤ, pos, negsuc, lt→ltb, inl, inr,
}
use tantu.Hub.Log.Slices.{
  take-set, drop-set, length-set, take_all, drop_all, drop-one, drop-append, drop-drop,
}
use tantu.Hub.Log.{RingBuffer, append, get_recent, new_ring_buffer, copies, ring_size}

ring_size_positive : (capacity : ℤ) → 0 < ring_size capacity
ring_size_positive (pos n) = ground arith
ring_size_positive (negsuc n) = omega arith

module _ {A : Type 0} where
  pub record IsRing (rb : RingBuffer A) : Type 0 where
    pub sized : length rb.events ≡ rb.capacity
    pub room : 0 < rb.capacity
    pub counted : rb.count ≤ rb.capacity
    pub started : rb.start < rb.capacity
    pub aligned : (rb.count < rb.capacity) → rb.start ≡ 0

  -- The last events of a log, as many as `n`.
  abbrev pub latest : ℕ → List A → List A
  latest n xs = drop (length xs - n) xs

  latest_short : (n : ℕ) (xs : List A) → length xs ≤ n → latest n xs ≡ xs
  latest_short n xs h = let e : length xs - n ≡ 0 = omega arith in rw e refl

  latest_over : (n : ℕ) (xs : List A) → length xs ≡ suc n → latest n xs ≡ drop 1 xs
  latest_over n xs h = let e : length xs - n ≡ 1 = omega (arith, h) in rw e refl

  -- A write at the last place, seen from it on.
  set_last : (xs : List A) (i : ℕ) (v : A) → suc i ≡ length xs → set xs i v ≡ take i xs ++ (v ∷ [])
  set_last xs i v h =
      sym (take_all (set xs i v) (suc i) (omega (arith, length-set xs i v, h)))
      ∙ take-set xs i v (omega (arith, h))

  -- The ring before it is full.
  filling :
      (events : List A) (n count : ℕ) (e : A)
      → length events ≡ n
      → count < n
      → get_recent
          (record { capacity = n; events = set events count e; start = 0; count = count + 1 })
        ≡ latest n (take count events ++ (e ∷ []))
  unfolding get_recent
  filling events n count e sized room =
      let shown = take count events ++ (e ∷ []) in
      let fits =
        latest_short n shown
          (omega (arith, length-append (take count events) (e ∷ []), length-take count events)) in
      if_cases (λ t. t ≡ latest n shown) (ltb (count + 1) n)
        (λ _.
          ap (λ k. take k (set events count e)) {y = suc count} (omega arith)
          ∙ (take-set events count e (omega (arith, sized)) ∙ sym fits))
        (λ full.
          append-nil (set events count e)
          ∙ (set_last events count e (ground (arith, full, sized)) ∙ sym fits))

  -- The full ring.
  turning :
      (events : List A) (n start : ℕ) (e : A)
      → length events ≡ n
      → start < n
      → get_recent
          (record { capacity = n; events = set events start e; start = (start + 1) % n; count = n })
        ≡ latest n ((drop start events ++ take start events) ++ (e ∷ []))
  unfolding get_recent
  turning events n start e sized room =
      let older = drop start events in
      let newer = take start events in
      let shown = length-append older newer in
      let whole = length-append (older ++ newer) (e ∷ []) in
      let spec : latest n ((older ++ newer) ++ (e ∷ []))
          ≡ drop (suc start) events ++ (newer ++ (e ∷ [])) =
        latest_over n ((older ++ newer) ++ (e ∷ []))
          (omega (arith, shown, whole, sized, length-drop start events, length-take start events))
        ∙ (ap (λ t. drop 1 t) (append_assoc older newer (e ∷ []))
            ∙ drop-one events (newer ++ (e ∷ [])) start (omega (arith, sized))) in
      if_cases (λ t. t ≡ latest n ((older ++ newer) ++ (e ∷ []))) (ltb n n)
        (λ h. absurd (ground (arith, h)))
        (λ _. elim (Bool-cases (ltb (start + 1) n)) [
          | inl h ↦
              let next : (start + 1) % n ≡ suc start =
                mod-eq_of_lt (ltb→lt (start + 1) n h) ∙ omega arith in
              rw next (
                rw (drop-set events start e, take-set events start e (omega (arith, sized)))
                  (sym spec))
          | inr h ↦
              let last : suc start ≡ n = ground (arith, h, room) in
              let here : start + 1 ≡ n = omega (arith, last) in
              let next : (start + 1) % n ≡ 0 = ap (λ k. k % n) here ∙ mod_self n in
              let behind = drop_all events (suc start) (omega (arith, last, sized)) in
              rw next (
                append-nil (set events start e)
                ∙ (set_last events start e (omega (arith, last, sized))
                    ∙ sym (spec ∙ ap (λ t. t ++ (newer ++ (e ∷ []))) behind)))
        ])

  append-IsRing : (rb : RingBuffer A) (e : A) → IsRing rb → IsRing (append rb e)
  unfolding append
  append-IsRing rb e h =
      if_cases IsRing (ltb rb.count rb.capacity)
        (λ less. record {
          sized = length-set rb.events rb.count e ∙ h.sized;
          room = h.room;
          counted = ground (arith, less);
          started = h.started;
          aligned = λ _. h.aligned (ltb→lt rb.count rb.capacity less);
        })
        (λ full. record {
          sized = length-set rb.events rb.start e ∙ h.sized;
          room = h.room;
          counted = h.counted;
          started = mod-lt (rb.start + 1) h.room;
          aligned = λ less. absurd (ground (arith, full, less));
        })

  shown_filling :
      (rb : RingBuffer A)
      → ltb rb.count rb.capacity ≡ true
      → get_recent rb ≡ take rb.count rb.events
  unfolding get_recent
  shown_filling rb e = rw e refl

  shown_full :
      (rb : RingBuffer A)
      → ltb rb.count rb.capacity ≡ false
      → get_recent rb ≡ drop rb.start rb.events ++ take rb.start rb.events
  unfolding get_recent
  shown_full rb e = rw e refl

  -- Appending to the ring, as its reader sees it.
  pub append-get_recent :
      (rb : RingBuffer A) (e : A)
      → IsRing rb
      → get_recent (append rb e) ≡ latest rb.capacity (get_recent rb ++ (e ∷ []))
  unfolding append
  append-get_recent rb e h = elim (Bool-cases (ltb rb.count rb.capacity)) [
    | inl less ↦
        rw (less, shown_filling rb less)
          (ap
              (λ st. get_recent (record {
                capacity = rb.capacity;
                events = set rb.events rb.count e;
                start = st;
                count = rb.count + 1;
              }))
              (h.aligned (ltb→lt rb.count rb.capacity less))
            ∙ filling rb.events rb.capacity rb.count e h.sized (ltb→lt rb.count rb.capacity less))
    | inr full ↦
        rw (full, shown_full rb full)
          (ap
              (λ c. get_recent (record {
                capacity = rb.capacity;
                events = set rb.events rb.start e;
                start = (rb.start + 1) % rb.capacity;
                count = c;
              }))
              (ground (arith, full, h.counted))
            ∙ turning rb.events rb.capacity rb.start e h.sized h.started)
  ]

  -- What the latest entries of a log forget does not come back.
  latest-append : (n : ℕ) (xs ys : List A) → latest n (latest n xs ++ ys) ≡ latest n (xs ++ ys)
  latest-append n xs ys =
      let k = length xs - n in
      let whole = length-append xs ys in
      let part = length-append (drop k xs) ys in
      let few = length-drop k xs in
      let back = sym (drop-append xs ys k (omega arith)) in
      ap (λ t. drop (length (drop k xs ++ ys) - n) t) back
      ∙ (drop-drop (xs ++ ys) k (length (drop k xs ++ ys) - n)
          ∙ ap (λ i. drop i (xs ++ ys)) (omega (arith, whole, part, few)))

  unfoldable pub append_all : RingBuffer A → List A → RingBuffer A
  append_all rb [] = rb
  append_all rb (e ∷ es) = append_all (append rb e) es

  append-capacity : (rb : RingBuffer A) (e : A) → (append rb e).capacity ≡ rb.capacity
  unfolding append
  append-capacity rb e = ground arith

  get_recent_fits : (rb : RingBuffer A) → IsRing rb → length (get_recent rb) ≤ rb.capacity
  get_recent_fits rb h =
      let older = drop rb.start rb.events in
      let newer = take rb.start rb.events in
      elim (Bool-cases (ltb rb.count rb.capacity)) [
        | inl less ↦
            rw (shown_filling rb less) (omega (arith, h.counted, length-take-le rb.count rb.events))
        | inr full ↦ rw (shown_full rb full) (
            omega (
              arith,
              h.sized,
              h.started,
              length-append older newer,
              length-drop rb.start rb.events,
              length-take-le rb.start rb.events,
            ))
      ]

  append_all-get_recent :
      (rb : RingBuffer A) (es : List A)
      → IsRing rb
      → get_recent (append_all rb es) ≡ latest rb.capacity (get_recent rb ++ es)
  unfolding append_all
  append_all-get_recent rb [] h = sym (
      rw (append-nil (get_recent rb))
        (latest_short rb.capacity (get_recent rb) (get_recent_fits rb h)))
  append_all-get_recent rb (e ∷ es) h =
      append_all-get_recent (append rb e) es (append-IsRing rb e h)
      ∙ (ap (λ c. latest c (get_recent (append rb e) ++ es)) (append-capacity rb e)
          ∙ (ap (λ t. latest rb.capacity (t ++ es)) (append-get_recent rb e h)
              ∙ (latest-append rb.capacity (get_recent rb ++ (e ∷ [])) es
                  ∙ ap (λ t. latest rb.capacity t) (append_assoc (get_recent rb) (e ∷ []) es))))

  length-copies : (n : ℕ) (a : A) → length (copies n a) ≡ n
  length-copies zero a = refl
  length-copies (suc n) a = ap suc (length-copies n a)

  new-IsRing : (blank : A) (capacity : ℤ) → IsRing (new_ring_buffer blank capacity)
  unfolding new_ring_buffer
  new-IsRing blank capacity = record {
    sized = length-copies (ring_size capacity) blank;
    room = ring_size_positive capacity;
    counted = omega arith;
    started = ring_size_positive capacity;
    aligned = λ _. refl;
  }

  -- Behind any appends to a new ring, GetRecent gives the last of the events, in their order, as many
  -- as the ring keeps: the capacity that was asked for, or 200.
  pub append_all-latest :
      (blank : A) (capacity : ℤ) (es : List A)
      → get_recent (append_all (new_ring_buffer blank capacity) es) ≡ latest (ring_size capacity) es
  unfolding new_ring_buffer
  append_all-latest blank capacity es =
      let rb = new_ring_buffer blank capacity in
      let nothing : get_recent rb ≡ [] =
        shown_filling rb (lt→ltb 0 (ring_size capacity) (ring_size_positive capacity)) in
      append_all-get_recent rb es (new-IsRing blank capacity)
      ∙ ap (λ t. latest (ring_size capacity) (t ++ es)) nothing
