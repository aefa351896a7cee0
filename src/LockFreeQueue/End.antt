-- ===== src/LockFreeQueue/End.antt =====
-- The destructor, when both users are done.
use hft_backtester.Prelude.{
  subst, ℕ, zero, suc, ◌+◌, ◌-◌, ◌%◌, ◌<◌, ◌≤◌, ◌≡◌, ◌≢◌, ap, sym, ◌∙◌, true, false, none, length,
  ◌==◌, dec_le, ℕ_discrete, arith,
}
use native.Mathlib.Nat.{mod-lt, mod-eq_of_lt, add-mod_right, mod-add-mod}
use hft_backtester.Heap.{put, put_self, put_ne}
use hft_backtester.LockFreeQueue.{Queue, resting, waiting, System, Reach, destroy}
use hft_backtester.LockFreeQueue.Invariant.{mod-ne, next-mod, taking, claiming, building}
use hft_backtester.LockFreeQueue.Order.{Reach-Inv}

-- Every cell is that of a place in any round.
place : (size T i : ℕ) → i < size → (k : ℕ) × (T ≤ k) × (k < T + size) × (k % size ≡ i)
place size T i lt =
    let inside : T % size < size = mod-lt T (omega arith) in
    elim (dec_le (T % size) i) [
      | yes le ↦ (
        T + (i - T % size),
        omega arith,
        omega arith,
        sym (mod-add-mod T size (i - T % size))
            ∙ ap (λ n. n % size) (omega arith)
            ∙ mod-eq_of_lt lt,
      )
      | no gt ↦ (
        T + (i + size - T % size),
        omega arith,
        omega arith,
        sym (mod-add-mod T size (i + size - T % size))
            ∙ ap (λ n. n % size) (omega arith)
            ∙ add-mod_right i size
            ∙ mod-eq_of_lt lt,
      )
    ]

module _ (size : ℕ) {A : Type 0} where
  -- The cells of the places from `H` to `T` are written, those from there on round to `H` are empty.
  record Rest (q : Queue A) (H T : ℕ) : Type 0 where
    head_is : q.head ≡ H % size
    tail_is : q.tail ≡ T % size
    ordered : H ≤ T
    room : T < H + size
    full : (k : ℕ) → H ≤ k → k < T → q.written (k % size) ≡ true
    hollow :
        (k : ℕ)
        → T ≤ k
        → k < H + size
        → (q.storage (k % size) ≡ none) × (q.written (k % size) ≡ false)

  -- One round of the loop.
  abbrev emptied : Queue A → Queue A
  emptied q = record q {
    head = (q.head + 1) % size;
    written = put q.written q.head false;
    storage = put q.storage q.head none;
  }

  emptied-Rest : (q : Queue A) (H T : ℕ) → Rest q H T → H < T → Rest (emptied q) (H + 1) T
  emptied-Rest q H T r lt = record {
    head_is = next-mod size H q.head r.head_is;
    tail_is = r.tail_is;
    ordered = omega (arith, lt);
    room = let room = r.room in omega arith;
    full = λ k low high.
        let room = r.room in
        put_ne q.written q.head false (k % size)
          (λ e. mod-ne size {j = H} {k = k} (omega (arith, low)) (omega arith) (sym r.head_is ∙ e))
        ∙ r.full k (omega (arith, low)) high;
    hollow = λ k low high. elim (ℕ_discrete q.head (k % size)) [
      | yes e ↦ (
        ap (put q.storage q.head none) (sym e) ∙ put_self q.storage q.head none,
        ap (put q.written q.head false) (sym e) ∙ put_self q.written q.head false,
      )
      | no ne ↦
          let near : k ≢ H + size =
            λ e. ne (r.head_is ∙ sym (ap (λ n. n % size) e ∙ add-mod_right H size)) in
          let (s, w) = r.hollow k low (omega (arith, high, near)) in
          (
            put_ne q.storage q.head none (k % size) ne ∙ s,
            put_ne q.written q.head false (k % size) ne ∙ w,
          )
    ];
  }

  destroy-Rest :
      (n : ℕ) (q : Queue A) (H T : ℕ) → Rest q H T → T ≤ H + n → Rest (destroy size n q) T T
  unfolding destroy
  destroy-Rest zero q H T r le =
      let ordered = r.ordered in subst (λ h. Rest q h T) (omega (arith, le, ordered)) r
  destroy-Rest (suc n) q H T r le = elim (ℕ_discrete H T) [
    | yes e ↦
        let last : q.head ≡ q.tail = r.head_is ∙ ap (λ h. h % size) e ∙ sym r.tail_is in
        let test : (q.head == q.tail) ≡ true = ground arith in
        rw (test) (subst (λ h. Rest q h T) e r)
    | no ne ↦
        let ordered = r.ordered in
        let room = r.room in
        let lt : H < T = omega arith in
        let apart : q.head ≢ q.tail =
          λ e. mod-ne size {j = H} {k = T} lt room (sym r.head_is ∙ e ∙ r.tail_is) in
        let test : (q.head == q.tail) ≡ false = ground arith in
        let full : q.written q.head ≡ true = ap q.written r.head_is ∙ r.full H (omega arith) lt in
        rw (test, full)
          (destroy-Rest n (emptied q) (H + 1) T (emptied-Rest q H T r lt) (omega (arith, le)))
  ]

  -- When no call is under way, the destructor ends within as many rounds as the buffer has cells, at
  -- an empty queue, and leaves no object in any cell and no cell marked as written.
  pub destroy-hollow :
      {s : System A} (i : ℕ)
      → 0 < size
      → Reach size s
      → s.producer ≡ resting
      → s.consumer ≡ waiting
      → i < size
      → let q = destroy size size s.queue in
        (q.head ≡ q.tail) × (q.storage i ≡ none) × (q.written i ≡ false)
  destroy-hollow {s} i some_cell reach sent received lt =
      let inv = Reach-Inv size some_cell reach in
      let claims : claiming s.producer ≡ 0 = ap claiming sent in
      let builds : building s.producer ≡ 0 = ap building sent in
      let takes : taking s.consumer ≡ 0 = ap taking received in
      let ordered = inv.ordered in
      let room = inv.room in
      let before : Rest s.queue (length s.received) (length s.sent) = record {
        head_is = inv.head_is ∙ ap (λ n. n % size) (omega arith);
        tail_is = inv.tail_is ∙ ap (λ n. n % size) (omega arith);
        ordered = omega arith;
        room = omega arith;
        full = λ k low high. let (w, o) = inv.full k (omega arith) high in w;
        hollow = λ k low high. (inv.hollow k (omega arith) high, inv.unwritten k low high);
      } in
      let after =
        destroy-Rest size s.queue (length s.received) (length s.sent) before (omega arith) in
      let (k, low, high, e) = place size (length s.sent) i lt in
      let (object, mark) = after.hollow k low high in
      (
        after.head_is ∙ sym after.tail_is,
        ap (destroy size size s.queue).storage (sym e) ∙ object,
        ap (destroy size size s.queue).written (sym e) ∙ mark,
      )
