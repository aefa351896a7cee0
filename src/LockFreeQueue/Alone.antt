-- ===== src/LockFreeQueue/Alone.antt =====
-- A call that is left alone: the steps until it ends, and the wait for a producer that has stopped.
use hft_backtester.Prelude.{
  ℕ, zero, suc, ◌+◌, ◌-◌, ◌%◌, ◌<◌, ◌≤◌, ◌≡◌, ◌≢◌, refl, ap, sym, ◌∙◌, true, false, false≢true,
  Bool-cases, inl, inr, List, length, ◌==◌, subst, arith,
}
use hft_backtester.LockFreeQueue.{
  Queue, load_tail, check_full, check_cell, advance_tail, construct, publish, enqueued, enqueue,
  after_enqueue, Producer, resting, enqueuing, load_head, check_empty, check_written, advance_head,
  move_out, free_cell, dequeued, no_object, dequeue, after_dequeue, Consumer, waiting, dequeuing,
  System, Reach, later, produced, consumed, produce, consume,
}
use hft_backtester.LockFreeQueue.Invariant.{mod-ne, taking, claiming, Inv, system}
use hft_backtester.LockFreeQueue.Sends.{produce-Inv}
use hft_backtester.LockFreeQueue.Order.{Reach-Inv, taking-le}

-- The steps that are left to an `enqueue`.
abbrev pub steps : {A : Type 0} → Producer A → ℕ
steps resting = 0
steps (enqueuing x load_tail) = 6
steps (enqueuing x (check_full t)) = 5
steps (enqueuing x (check_cell t)) = 4
steps (enqueuing x (advance_tail t)) = 3
steps (enqueuing x (construct t)) = 2
steps (enqueuing x (publish t)) = 1
steps (enqueuing x (enqueued b)) = 1

module _ (size : ℕ) {A : Type 0} where
  -- The producer takes `n` steps, and no exchange fails for no reason.
  unfoldable pub produce_times : ℕ → System A → System A
  produce_times zero s = s
  produce_times (suc n) s = produce_times n (produce size false s.producer s)

  pub consume_times : ℕ → System A → System A
  consume_times zero s = s
  consume_times (suc n) s = consume_times n (consume size false s.consumer s)

  pub Reach-produce_times : (n : ℕ) (s : System A) → Reach size s → Reach size (produce_times n s)
  unfolding produce_times
  Reach-produce_times zero s reach = reach
  Reach-produce_times (suc n) s reach =
      Reach-produce_times n (produce size false s.producer s) (later reach (produced false))

  pub Reach-consume_times : (n : ℕ) (s : System A) → Reach size s → Reach size (consume_times n s)
  unfolding consume_times
  Reach-consume_times zero s reach = reach
  Reach-consume_times (suc n) s reach =
      Reach-consume_times n (consume size false s.consumer s) (later reach (consumed false))

  produce-steps :
      (q : Queue A) (p : Producer A) (c : Consumer A) (sent received : List A)
      → Inv size (system q p c sent received)
      → steps (produce size false p (system q p c sent received)).producer ≤ steps p - 1
  unfolding produce enqueue after_enqueue
  produce-steps q resting c sent received inv = omega arith
  produce-steps q (enqueuing x load_tail) c sent received inv = omega arith
  produce-steps q (enqueuing x (check_full t)) c sent received inv =
      elim (Bool-cases ((t + 1) % size == q.head)) [
        | inl full ↦ rw full (omega arith)
        | inr free ↦ rw free (omega arith)
      ]
  produce-steps q (enqueuing x (check_cell t)) c sent received inv =
      let (here, near) = inv.producing in
      let ordered = inv.ordered in
      let free : q.written t ≡ false =
        ap q.written (here ∙ inv.tail_is ∙ ap (λ n. n % size) (omega arith))
        ∙ inv.unwritten (length sent) (omega arith) (omega (arith, near, ordered, taking-le c)) in
      rw free (omega arith)
  produce-steps q (enqueuing x (advance_tail t)) c sent received inv =
      let (here, near) = inv.producing in
      let won : (q.tail == t) ≡ true = ground arith in rw won (omega arith)
  produce-steps q (enqueuing x (construct t)) c sent received inv = omega arith
  produce-steps q (enqueuing x (publish t)) c sent received inv = omega arith
  produce-steps q (enqueuing x (enqueued b)) c sent received inv = absurd (false≢true inv.producing)

  rests : (p : Producer A) → steps p ≤ 0 → p ≡ resting
  rests resting le = refl
  rests (enqueuing x pc) le = ground arith

  produce_times-steps :
      (n : ℕ) (s : System A)
      → Inv size s
      → steps s.producer ≤ n
      → (produce_times n s).producer ≡ resting
  unfolding produce_times
  produce_times-steps zero s inv le = rests s.producer le
  produce_times-steps (suc n) s inv le =
      let fewer = produce-steps s.queue s.producer s.consumer s.sent s.received inv in
      produce_times-steps n (produce size false s.producer s)
        (produce-Inv size false s.queue s.producer s.consumer s.sent s.received inv)
        (omega (arith, fewer, le))

  -- A consumer that looks for an object and has found none that is written.
  abbrev Spins : Queue A → Consumer A → Type 0
  Spins q (dequeuing load_head) = Unit
  Spins q (dequeuing (check_empty h)) = h ≡ q.head
  Spins q (dequeuing (check_written h)) = h ≡ q.head
  Spins q c = false ≡ true

  consume_times-Spins :
      (n : ℕ) (q : Queue A) (p : Producer A) (c : Consumer A) (sent received : List A)
      → q.head ≢ q.tail
      → q.written q.head ≡ false
      → Spins q c
      → let s = consume_times n (system q p c sent received) in
        (s.received ≡ received) × (s.consumer ≢ waiting)
  unfolding consume_times consume dequeue after_dequeue
  consume_times-Spins zero q p (dequeuing load_head) sent received ne free h =
      (refl, λ e. absurd (ground arith))
  consume_times-Spins zero q p (dequeuing (check_empty i)) sent received ne free h =
      (refl, λ e. absurd (ground arith))
  consume_times-Spins zero q p (dequeuing (check_written i)) sent received ne free h =
      (refl, λ e. absurd (ground arith))
  consume_times-Spins (suc n) q p (dequeuing load_head) sent received ne free h =
      consume_times-Spins n q p (dequeuing (check_empty q.head)) sent received ne free refl
  consume_times-Spins (suc n) q p (dequeuing (check_empty i)) sent received ne free h =
      let other : (i == q.tail) ≡ false = ground arith in
      rw (consume_times, other)
        (consume_times-Spins n q p (dequeuing (check_written i)) sent received ne free h)
  consume_times-Spins (suc n) q p (dequeuing (check_written i)) sent received ne free h =
      let empty : q.written i ≡ false = ap q.written h ∙ free in
      rw (consume_times, empty)
        (consume_times-Spins n q p (dequeuing load_head) sent received ne free tt)
  consume_times-Spins n q p waiting sent received ne free h = absurd (false≢true h)
  consume_times-Spins n q p (dequeuing (advance_head i)) sent received ne free h =
      absurd (false≢true h)
  consume_times-Spins n q p (dequeuing (move_out i)) sent received ne free h = absurd (false≢true h)
  consume_times-Spins n q p (dequeuing (free_cell i v)) sent received ne free h =
      absurd (false≢true h)
  consume_times-Spins n q p (dequeuing (dequeued o)) sent received ne free h = absurd (false≢true h)
  consume_times-Spins n q p (dequeuing no_object) sent received ne free h = absurd (false≢true h)

  module _ (some_cell : 0 < size) where
    -- An enqueue that is left alone ends within six accesses, wherever it and the consumer stand.
    pub enqueue_ends : {s : System A} → Reach size s → (produce_times 6 s).producer ≡ resting
    enqueue_ends {s} reach =
        produce_times-steps 6 s (Reach-Inv size some_cell reach) (six s.producer)
      where
        six : (p : Producer A) → steps p ≤ 6
        six p = ground arith

    -- With one cell and more, a dequeue that starts while the producer stands between its exchange and
    -- its publishing store, and finds nothing older, does not end before the producer moves: not in any
    -- number of accesses.
    pub dequeue_waits :
        {s : System A} (n : ℕ)
        → Reach size s
        → s.consumer ≡ dequeuing load_head
        → claiming s.producer ≡ 1
        → length s.received ≡ length s.sent
        → ((consume_times n s).received ≡ s.received) × ((consume_times n s).consumer ≢ waiting)
    dequeue_waits {s} n reach starts claimed none_left =
        let inv = Reach-Inv size some_cell reach in
        let head_is : s.queue.head ≡ length s.sent % size =
          inv.head_is ∙ ap (λ n. n % size) (omega (arith, ap taking starts)) in
        let room = inv.room in
        let apart : s.queue.head ≢ s.queue.tail = λ e.
          mod-ne size {j = length s.sent} {k = length s.sent + 1} (omega arith)
            (omega (arith, ap taking starts))
            (sym head_is ∙ e ∙ inv.tail_is ∙ ap (λ n. (length s.sent + n) % size) claimed) in
        let free : s.queue.written s.queue.head ≡ false =
          ap s.queue.written head_is
          ∙ inv.unwritten (length s.sent) (omega arith) (omega (arith, some_cell)) in
        consume_times-Spins n s.queue s.producer s.consumer s.sent s.received apart free
          (subst (Spins s.queue) (sym starts) tt)
