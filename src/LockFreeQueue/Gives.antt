-- ===== src/LockFreeQueue/Gives.antt =====
-- Up to the exchange of the consumer.
use hft_backtester.Prelude.{
  ℕ, ◌+◌, ◌%◌, ◌<◌, ◌≤◌, ◌≡◌, refl, ap, sym, ◌∙◌, Bool, true, false≢true, Bool-cases, inl, inr,
  List, length, dec_lt, not, ◌||◌, ◌==◌, arith,
}
use hft_backtester.LockFreeQueue.{
  Queue, load_tail, check_full, check_cell, advance_tail, construct, publish, enqueued, Producer,
  resting, enqueuing, Dequeue, load_head, check_empty, check_written, advance_head, move_out,
  dequeue, after_dequeue, Consumer, waiting, dequeuing, System, consume,
}
use hft_backtester.LockFreeQueue.Invariant.{
  next-mod, claiming, taking, building, Producing, Consuming, Inv, system,
}

module _ (size : ℕ) {A : Type 0} where
  -- The producer still knows what it knew.
  pub Producing-keep :
      (q q' : Queue A) (p : Producer A) (H H' P : ℕ)
      → q'.tail ≡ q.tail
      → H ≤ H'
      → (building p ≡ 1 → q'.storage (P % size) ≡ q.storage (P % size))
      → Producing size H P q p
      → Producing size H' P q' p
  Producing-keep q q' resting H H' P e le cell know = tt
  Producing-keep q q' (enqueuing x load_tail) H H' P e le cell know = tt
  Producing-keep q q' (enqueuing x (check_full t)) H H' P e le cell know = know ∙ sym e
  Producing-keep q q' (enqueuing x (check_cell t)) H H' P e le cell (here, lt) =
      (here ∙ sym e, omega (arith, lt, le))
  Producing-keep q q' (enqueuing x (advance_tail t)) H H' P e le cell (here, lt) =
      (here ∙ sym e, omega (arith, lt, le))
  Producing-keep q q' (enqueuing x (construct t)) H H' P e le cell know = know
  Producing-keep q q' (enqueuing x (publish t)) H H' P e le cell (here, there) =
      (here, ap q'.storage here ∙ cell refl ∙ ap q.storage (sym here) ∙ there)
  Producing-keep q q' (enqueuing x (enqueued b)) H H' P e le cell know = know

  pub building-le : (p : Producer A) → building p ≤ claiming p
  building-le p = ground arith

  module _ (q : Queue A) (p : Producer A) (sent received : List A) where
    abbrev pub at : Dequeue A → System A
    at pc = system q p (dequeuing pc) sent received

    pub unreceived-Inv :
        (c c' : Consumer A)
        → Inv size (system q p c sent received)
        → taking c ≡ 0
        → taking c' ≡ 0
        → Consuming size (length received) sent q c'
        → Inv size (system q p c' sent received)
    unreceived-Inv c c' inv e e' know = record {
      prefix = inv.prefix;
      head_is = inv.head_is ∙ ap (λ n. (length received + n) % size) (e ∙ sym e');
      tail_is = inv.tail_is;
      ordered = let r = inv.ordered in omega arith;
      room = let r = inv.room in omega arith;
      full = λ k low. inv.full k (omega (arith, low));
      unwritten = inv.unwritten;
      hollow = inv.hollow;
      producing =
          Producing-keep q q p (length received + taking c) (length received + taking c')
            (length sent) refl (omega arith) (λ b. refl) inv.producing;
      consuming = know;
    }

    pub check_empty-Inv :
        (fails : Bool) (h : ℕ)
        → Inv size (at (check_empty h))
        → Inv size (consume size fails (dequeuing (check_empty h)) (at (check_empty h)))
    unfolding consume dequeue after_dequeue
    check_empty-Inv fails h inv = elim (Bool-cases (h == q.tail)) [
      | inl same ↦ rw same (unreceived-Inv (dequeuing (check_empty h)) waiting inv refl refl tt)
      | inr other ↦ rw other (
          unreceived-Inv (dequeuing (check_empty h)) (dequeuing (check_written h)) inv refl refl
            inv.consuming)
    ]

    -- A head that is written was sent.
    written-sent :
        (h : ℕ)
        → Inv size (at (check_written h))
        → q.written h ≡ true
        → length received < length sent
    written-sent h inv w = elim (dec_lt (length received) (length sent)) [
      | yes lt ↦ lt
      | no ge ↦
          let ordered = inv.ordered in
          let room = inv.room in
          let e : h ≡ length received % size =
            inv.consuming ∙ inv.head_is ∙ ap (λ n. n % size) (omega arith) in
          absurd (
            false≢true (
              sym (inv.unwritten (length received) (omega arith) (omega arith))
              ∙ ap q.written (sym e)
              ∙ w))
    ]

    pub check_written-Inv :
        (fails : Bool) (h : ℕ)
        → Inv size (at (check_written h))
        → Inv size (consume size fails (dequeuing (check_written h)) (at (check_written h)))
    unfolding consume dequeue after_dequeue
    check_written-Inv fails h inv = elim (Bool-cases (q.written h)) [
      | inl full ↦ rw full (
          unreceived-Inv (dequeuing (check_written h)) (dequeuing (advance_head h)) inv refl refl
            (inv.consuming, written-sent h inv full))
      | inr free ↦
          rw free
            (unreceived-Inv (dequeuing (check_written h)) (dequeuing load_head) inv refl refl tt)
    ]

    -- The place is given up.
    given_up-Inv :
        (h : ℕ)
        → Inv size (at (advance_head h))
        → Inv size
            (system (record q { head = (h + 1) % size }) p (dequeuing (move_out h)) sent received)
    given_up-Inv h inv =
        let (here, lt) = inv.consuming in
        let cell : h ≡ length received % size =
          here ∙ inv.head_is ∙ ap (λ n. n % size) (omega arith) in
        let room = inv.room in
        let (w, o) = inv.full (length received) (omega arith) lt in
        record {
          prefix = inv.prefix;
          head_is = next-mod size (length received) h cell;
          tail_is = inv.tail_is;
          ordered = omega (arith, lt);
          room = omega (arith, room);
          full = λ k low. inv.full k (omega (arith, low));
          unwritten = inv.unwritten;
          hollow = inv.hollow;
          producing =
              Producing-keep q (record q { head = (h + 1) % size }) p (length received + 0)
                (length received + 1) (length sent) refl (omega arith) (λ b. refl) inv.producing;
          consuming = (cell, ap q.storage cell ∙ o);
        }

    pub advance_head-Inv :
        (fails : Bool) (h : ℕ)
        → Inv size (at (advance_head h))
        → Inv size (consume size fails (dequeuing (advance_head h)) (at (advance_head h)))
    unfolding consume dequeue after_dequeue
    advance_head-Inv fails h inv = elim (Bool-cases (fails || not (q.head == h))) [
      | inl lost ↦
          rw lost
            (unreceived-Inv (dequeuing (advance_head h)) (dequeuing load_head) inv refl refl tt)
      | inr won ↦ rw won (given_up-Inv h inv)
    ]
