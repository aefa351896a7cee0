-- ===== src/LockFreeQueue/Refusal.antt =====
-- When an enqueue finds the queue full, and a dequeue finds it empty.
use hft_backtester.Prelude.{
  ℕ, ◌+◌, ◌-◌, ◌%◌, ◌<◌, ◌≤◌, ◌≡◌, ◌≢◌, refl, ap, sym, ◌∙◌, false, none, List, length, ◌==◌,
  if◌then◌else◌, ℕ_discrete, Bool-cases, inl, inr, subst, arith,
}
use native.Mathlib.Nat.{add-mod_right}
use hft_backtester.LockFreeQueue.{
  Queue, check_full, check_cell, enqueued, enqueue, check_empty, check_written, dequeued, dequeue,
  Producer, resting, enqueuing, load_tail, advance_tail, construct, publish, Consumer, waiting,
  dequeuing, load_head, advance_head, move_out, free_cell, no_object, System, Reach, occupied,
  capacity, empty,
}
use hft_backtester.LockFreeQueue.Invariant.{
  mod-ne, next-mod, taking, claiming, Producing, Consuming,
}
use hft_backtester.LockFreeQueue.Order.{Reach-Inv, Reach-occupied}

-- The test for a full queue succeeds just when `size` is the capacity.
abbrev pub RefusesFull : {A : Type 0} → ℕ → Queue A → Producer A → Type 0
RefusesFull size q (enqueuing x (check_full t)) =
    enqueue size x false q (check_full t)
    ≡ (q, (if occupied size q == capacity size then enqueued false else check_cell t))
RefusesFull size q p = Unit

-- The test for an empty one succeeds just when `size` is 0.
abbrev pub RefusesEmpty : {A : Type 0} → ℕ → Queue A → Consumer A → Type 0
RefusesEmpty size q (dequeuing (check_empty h)) =
    dequeue size false q (check_empty h)
    ≡ (q, (if occupied size q == 0 then dequeued none else check_written h))
RefusesEmpty size q c = Unit

module _ (size : ℕ) {A : Type 0} where
  -- The next cell is the head just when the queue is full.
  next_full :
      (q : Queue A) (H T : ℕ)
      → 0 < size
      → H ≤ T
      → T < H + size
      → q.head ≡ H % size
      → q.tail ≡ T % size
      → occupied size q + H ≡ T
      → ((q.tail + 1) % size == q.head) ≡ (occupied size q == capacity size)
  unfolding capacity
  next_full q H T some_cell le near head_is tail_is count = elim (ℕ_discrete (T + 1) (H + size)) [
    | yes e ↦
        let same : (q.tail + 1) % size ≡ q.head =
          next-mod size T q.tail tail_is
          ∙ ap (λ n. n % size) e
          ∙ add-mod_right H size
          ∙ sym head_is in
        let all : occupied size q ≡ size - 1 = omega (arith, e) in ground arith
    | no ne ↦
        let other : (q.tail + 1) % size ≢ q.head = λ e.
          mod-ne size {j = H} {k = T + 1} (omega arith) (omega arith)
            (sym head_is ∙ sym e ∙ next-mod size T q.tail tail_is) in
        let some_left : occupied size q ≢ size - 1 = λ e. ne (omega (arith, e)) in ground arith
  ]

  -- Both counts of the places, for what the users know.
  record Counted (q : Queue A) (H T : ℕ) : Type 0 where
    ordered : H ≤ T
    room : T < H + size
    head_is : q.head ≡ H % size
    tail_is : q.tail ≡ T % size
    count : occupied size q + H ≡ T
    empty_eq : empty size q ≡ (occupied size q == 0)

  refuses_full :
      (q : Queue A) (p : Producer A) (H T : ℕ)
      → 0 < size
      → Counted q H T
      → ((x : A) (t : ℕ) → p ≡ enqueuing x (check_full t) → t ≡ q.tail)
      → RefusesFull size q p
  unfolding enqueue
  refuses_full q (enqueuing x (check_full t)) H T some_cell n here =
      let test : ((t + 1) % size == q.head) ≡ (occupied size q == capacity size) =
        ap (λ i. (i + 1) % size == q.head) (here x t refl)
        ∙ next_full q H T some_cell n.ordered n.room n.head_is n.tail_is n.count in
      elim (Bool-cases (occupied size q == capacity size)) [
        | inl all ↦ rw (test, all) refl
        | inr some_left ↦ rw (test, some_left) refl
      ]
  refuses_full q resting H T some_cell n here = tt
  refuses_full q (enqueuing x load_tail) H T some_cell n here = tt
  refuses_full q (enqueuing x (check_cell t)) H T some_cell n here = tt
  refuses_full q (enqueuing x (advance_tail t)) H T some_cell n here = tt
  refuses_full q (enqueuing x (construct t)) H T some_cell n here = tt
  refuses_full q (enqueuing x (publish t)) H T some_cell n here = tt
  refuses_full q (enqueuing x (enqueued b)) H T some_cell n here = tt

  refuses_empty :
      (q : Queue A) (c : Consumer A) (H T L : ℕ) (sent : List A)
      → Counted q H T
      → Consuming size L sent q c
      → RefusesEmpty size q c
  unfolding dequeue empty
  refuses_empty q (dequeuing (check_empty h)) H T L sent n here =
      let test : (h == q.tail) ≡ (occupied size q == 0) = ap (λ i. i == q.tail) here ∙ n.empty_eq in
      elim (Bool-cases (occupied size q == 0)) [
        | inl all ↦ rw (test, all) refl
        | inr some_left ↦ rw (test, some_left) refl
      ]
  refuses_empty q waiting H T L sent n here = tt
  refuses_empty q (dequeuing load_head) H T L sent n here = tt
  refuses_empty q (dequeuing (check_written h)) H T L sent n here = tt
  refuses_empty q (dequeuing (advance_head h)) H T L sent n here = tt
  refuses_empty q (dequeuing (move_out h)) H T L sent n here = tt
  refuses_empty q (dequeuing (free_cell h v)) H T L sent n here = tt
  refuses_empty q (dequeuing (dequeued o)) H T L sent n here = tt
  refuses_empty q (dequeuing no_object) H T L sent n here = tt

  -- What the producer knows of the tail at its test.
  at_tail :
      (q : Queue A) (p : Producer A) (H P : ℕ) (x : A) (t : ℕ)
      → Producing size H P q p
      → p ≡ enqueuing x (check_full t)
      → t ≡ q.tail
  at_tail q p H P x t know e = subst (Producing size H P q) e know

  -- Between two steps, `size` counts the places that are claimed and not given up, and these are at most
  -- the capacity. An enqueue that has loaded the tail gives up just when `size` is the capacity, and a
  -- dequeue that has loaded the head just when it is 0, as `empty` says.
  pub Reach-refuses :
      {s : System A}
      → 0 < size
      → Reach size s
      → (occupied size s.queue + (length s.received + taking s.consumer)
          ≡ length s.sent + claiming s.producer)
        × (occupied size s.queue ≤ capacity size)
        × (empty size s.queue ≡ (occupied size s.queue == 0))
        × RefusesFull size s.queue s.producer
        × RefusesEmpty size s.queue s.consumer
  Reach-refuses {s} some_cell reach =
      let inv = Reach-Inv size some_cell reach in
      let (count, le, empty_eq) = Reach-occupied size some_cell reach in
      let H : ℕ = length s.received + taking s.consumer in
      let T : ℕ = length s.sent + claiming s.producer in
      let ordered = inv.ordered in
      let counted : Counted s.queue H T = record {
        ordered = omega arith;
        room = inv.room;
        head_is = inv.head_is;
        tail_is = inv.tail_is;
        count = count;
        empty_eq = empty_eq;
      } in
      (
        count,
        le,
        empty_eq,
        refuses_full s.queue s.producer H T some_cell counted
            (λ x t e. at_tail s.queue s.producer H (length s.sent) x t inv.producing e),
        refuses_empty s.queue s.consumer H T (length s.received) s.sent counted inv.consuming,
      )
