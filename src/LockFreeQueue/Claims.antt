-- ===== src/LockFreeQueue/Claims.antt =====
-- Up to the exchange of the producer.
use hft_backtester.Prelude.{
  Bool-cases, inl, inr, ℕ, ◌+◌, ◌%◌, ◌<◌, ◌≤◌, ◌≡◌, refl, ap, sym, ◌∙◌, Bool, false, List, length,
  get_elem?, ℕ_discrete, not, ◌||◌, ◌==◌, arith,
}
use native.Mathlib.Nat.{add-mod_right}
use hft_backtester.LockFreeQueue.{
  Queue, Enqueue, load_tail, check_full, check_cell, advance_tail, construct, enqueue,
  after_enqueue, Producer, resting, enqueuing, Consumer, waiting, dequeuing, load_head, check_empty,
  check_written, advance_head, move_out, free_cell, dequeued, no_object, System, produce,
}
use hft_backtester.LockFreeQueue.Invariant.{
  next-mod, claiming, taking, building, Producing, Consuming, Inv, system,
}

module _ (size : ℕ) {A : Type 0} where
  -- The consumer still knows what it knew.
  pub Consuming-keep :
      (q : Queue A) (c : Consumer A) (sent received : List A) (q' : Queue A) (sent' : List A)
      → q'.head ≡ q.head
      → length sent ≤ length sent'
      → ((i : ℕ) → i < length sent → get_elem? sent' i ≡ get_elem? sent i)
      → (taking c ≡ 1 → q'.storage (length received % size) ≡ q.storage (length received % size))
      → length received + taking c ≤ length sent
      → Consuming size (length received) sent q c
      → Consuming size (length received) sent' q' c
  Consuming-keep q waiting sent received q' sent' e more same cell fits know = tt
  Consuming-keep q (dequeuing load_head) sent received q' sent' e more same cell fits know = tt
  Consuming-keep q (dequeuing (check_empty h)) sent received q' sent' e more same cell fits know =
      know ∙ sym e
  Consuming-keep q (dequeuing (check_written h)) sent received q' sent' e more same cell fits know =
      know ∙ sym e
  Consuming-keep q (dequeuing (advance_head h)) sent received q' sent' e more same cell fits
        (here, lt) =
      (here ∙ sym e, omega (arith, lt, more))
  Consuming-keep q (dequeuing (move_out h)) sent received q' sent' e more same cell fits
        (here, there) =
      (
        here,
        ap q'.storage here
            ∙ cell refl
            ∙ ap q.storage (sym here)
            ∙ there
            ∙ sym (same (length received) (omega (arith, fits))),
      )
  Consuming-keep q (dequeuing (free_cell h v)) sent received q' sent' e more same cell fits
        (here, gone, value) =
      (
        here,
        ap q'.storage here ∙ cell refl ∙ ap q.storage (sym here) ∙ gone,
        same (length received) (omega (arith, fits)) ∙ value,
      )
  Consuming-keep q (dequeuing (dequeued o)) sent received q' sent' e more same cell fits know = know
  Consuming-keep q (dequeuing no_object) sent received q' sent' e more same cell fits know = know

  module _ (q : Queue A) (c : Consumer A) (sent received : List A) where
    -- A step that changes nothing that is shared.
    pub unsent-Inv :
        (p p' : Producer A)
        → Inv size (system q p c sent received)
        → claiming p ≡ 0
        → building p ≡ 0
        → claiming p' ≡ 0
        → building p' ≡ 0
        → Producing size (length received + taking c) (length sent) q p'
        → Inv size (system q p' c sent received)
    unsent-Inv p p' inv e b e' b' know = record {
      prefix = inv.prefix;
      head_is = inv.head_is;
      tail_is = inv.tail_is ∙ ap (λ n. (length sent + n) % size) (e ∙ sym e');
      ordered = inv.ordered;
      room = let r = inv.room in omega arith;
      full = inv.full;
      unwritten = inv.unwritten;
      hollow = λ k low. inv.hollow k (omega (arith, low));
      producing = know;
      consuming = inv.consuming;
    }

    abbrev pub at : A → Enqueue → System A
    at x pc = system q (enqueuing x pc) c sent received

    -- The next cell is not the head: there is room for one more.
    room_left :
        (x : A) (t : ℕ)
        → Inv size (at x (check_full t))
        → ((t + 1) % size == q.head) ≡ false
        → length sent + 1 < length received + taking c + size
    room_left x t inv other =
        elim (ℕ_discrete (length sent + 1) (length received + taking c + size)) [
          | yes e ↦
              let same : (t + 1) % size ≡ q.head =
                next-mod size (length sent + 0) t (inv.producing ∙ inv.tail_is)
                ∙ ap (λ n. n % size) (omega (arith, e))
                ∙ add-mod_right (length received + taking c) size
                ∙ sym inv.head_is in
              absurd (ground arith)
          | no ne ↦ let r = inv.room in omega arith
        ]

    pub check_full-Inv :
        (fails : Bool) (x : A) (t : ℕ)
        → Inv size (at x (check_full t))
        → Inv size (produce size fails (enqueuing x (check_full t)) (at x (check_full t)))
    unfolding produce enqueue after_enqueue
    check_full-Inv fails x t inv = elim (Bool-cases ((t + 1) % size == q.head)) [
      | inl full ↦
          rw full (unsent-Inv (enqueuing x (check_full t)) resting inv refl refl refl refl tt)
      | inr free ↦ rw free (
          unsent-Inv (enqueuing x (check_full t)) (enqueuing x (check_cell t)) inv refl refl refl
            refl (inv.producing, room_left x t inv free))
    ]

    pub check_cell-Inv :
        (fails : Bool) (x : A) (t : ℕ)
        → Inv size (at x (check_cell t))
        → Inv size (produce size fails (enqueuing x (check_cell t)) (at x (check_cell t)))
    unfolding produce enqueue after_enqueue
    check_cell-Inv fails x t inv = elim (Bool-cases (q.written t)) [
      | inl full ↦ rw full (
          unsent-Inv (enqueuing x (check_cell t)) (enqueuing x load_tail) inv refl refl refl refl
            tt)
      | inr free ↦ rw free (
          unsent-Inv (enqueuing x (check_cell t)) (enqueuing x (advance_tail t)) inv refl refl refl
            refl inv.producing)
    ]

    -- The place is claimed.
    claimed-Inv :
        (x : A) (t : ℕ)
        → Inv size (at x (advance_tail t))
        → Inv size (
            system (record q { tail = (t + 1) % size }) (enqueuing x (construct t)) c sent received)
    claimed-Inv x t inv =
        let (here, room) = inv.producing in
        let cell : t ≡ length sent % size = here ∙ inv.tail_is ∙ ap (λ n. n % size) (omega arith) in
        record {
          prefix = inv.prefix;
          head_is = inv.head_is;
          tail_is = next-mod size (length sent) t cell;
          ordered = inv.ordered;
          room = room;
          full = inv.full;
          unwritten = inv.unwritten;
          hollow = inv.hollow;
          producing = cell;
          consuming =
              Consuming-keep q c sent received (record q { tail = (t + 1) % size }) sent refl
                (omega arith) (λ i h. refl) (λ h. refl) inv.ordered inv.consuming;
        }

    pub advance_tail-Inv :
        (fails : Bool) (x : A) (t : ℕ)
        → Inv size (at x (advance_tail t))
        → Inv size (produce size fails (enqueuing x (advance_tail t)) (at x (advance_tail t)))
    unfolding produce enqueue after_enqueue
    advance_tail-Inv fails x t inv = elim (Bool-cases (fails || not (q.tail == t))) [
      | inl lost ↦ rw lost (
          unsent-Inv (enqueuing x (advance_tail t)) (enqueuing x load_tail) inv refl refl refl refl
            tt)
      | inr won ↦ rw won (claimed-Inv x t inv)
    ]
