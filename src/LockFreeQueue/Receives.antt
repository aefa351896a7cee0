-- ===== src/LockFreeQueue/Receives.antt =====
-- A step of the consumer keeps the invariant.
use hft_backtester.Prelude.{
  ℕ, ◌+◌, ◌%◌, ◌<◌, ◌≤◌, ◌≡◌, ◌≢◌, refl, ap, sym, ◌∙◌, Bool, false, false≢true, Option-cases, inl,
  inr, none, some, List, [], ◌∷◌, ◌++◌, length, length-append, dec_lt, ℕ_discrete, arith,
}
use native.Mathlib.Nat.{add-mod_right}
use hft_backtester.Heap.{put, put_self, put_ne}
use hft_backtester.LockFreeQueue.{
  Queue, Producer, Dequeue, load_head, check_empty, check_written, advance_head, move_out,
  free_cell, dequeued, no_object, dequeue, taken, after_dequeue, Consumer, waiting, dequeuing,
  consume,
}
use hft_backtester.LockFreeQueue.Invariant.{
  mod-ne, get_elem?-present, Precedes-next, taking, building, Inv, system,
}
use hft_backtester.LockFreeQueue.Gives.{
  Producing-keep, building-le, unreceived-Inv, at, check_empty-Inv, check_written-Inv,
  advance_head-Inv,
}

module _ (size : ℕ) {A : Type 0} where
  module _ (q : Queue A) (p : Producer A) (sent received : List A) where
    -- The cell whose object moves out is not one that is full, nor the one that is being written.
    module _ (pc : Dequeue A) (inv : Inv size (at size q p sent received pc))
        (given : taking (dequeuing pc) ≡ 1) where
      apart_full :
          (k : ℕ) → length received + 1 ≤ k → k < length sent → length received % size ≢ k % size
      apart_full k low high e =
          let room = inv.room in
          mod-ne size {j = length received} {k = k} (omega (arith, low)) (omega arith) e

      apart_built : building p ≡ 1 → length received % size ≢ length sent % size
      apart_built one e =
          let ordered = inv.ordered in
          let room = inv.room in
          let claimed = building-le size p in
          mod-ne size {j = length received} {k = length sent} (omega arith) (omega arith) e

    moved_out-Inv :
        (h : ℕ) (v : A)
        → Inv size (at size q p sent received (move_out h))
        → q.storage h ≡ some v
        → Inv size (
            system
              (record q { storage = put q.storage h none })
              p
              (dequeuing (free_cell h v))
              sent
              received)
    moved_out-Inv h v inv value =
        let (cell, there) = inv.consuming in
        let keep : (k : ℕ) → length received % size ≢ k → put q.storage h none k ≡ q.storage k =
          λ k ne. put_ne q.storage h none k (λ e. ne (sym cell ∙ e)) in
        record {
          prefix = inv.prefix;
          head_is = inv.head_is;
          tail_is = inv.tail_is;
          ordered = inv.ordered;
          room = inv.room;
          full = λ k low high.
              let (w, o) = inv.full k low high in
              (w, keep (k % size) (apart_full (move_out h) inv refl k low high) ∙ o);
          unwritten = inv.unwritten;
          hollow = λ k low high. elim (ℕ_discrete h (k % size)) [
            | yes e ↦ ap (put q.storage h none) (sym e) ∙ put_self q.storage h none
            | no ne ↦ put_ne q.storage h none (k % size) ne ∙ inv.hollow k low high
          ];
          producing =
              Producing-keep size q (record q { storage = put q.storage h none }) p
                (length received + 1) (length received + 1) (length sent) refl (omega arith)
                (λ one. keep (length sent % size) (apart_built (move_out h) inv refl one))
                inv.producing;
          consuming = (cell, put_self q.storage h none, sym there ∙ value);
        }

    move_out-Inv :
        (fails : Bool) (h : ℕ)
        → Inv size (at size q p sent received (move_out h))
        → Inv size
            (consume size fails (dequeuing (move_out h)) (at size q p sent received (move_out h)))
    unfolding consume dequeue after_dequeue taken
    move_out-Inv fails h inv =
        let (cell, there) = inv.consuming in
        elim (Option-cases (q.storage h)) [
          | inl empty ↦ absurd (
              get_elem?-present sent (length received) (omega (arith, inv.ordered))
                (sym there ∙ empty))
          | inr (v, value) ↦ rw value (moved_out-Inv h v inv value)
        ]

    free_cell-Inv :
        (fails : Bool) (h : ℕ) (v : A)
        → Inv size (at size q p sent received (free_cell h v))
        → Inv size (
            consume size fails
              (dequeuing (free_cell h v))
              (at size q p sent received (free_cell h v)))
    unfolding consume dequeue after_dequeue
    free_cell-Inv fails h v inv =
        let (cell, gone, value) = inv.consuming in
        let longer : length (received ++ v ∷ []) ≡ length received + 1 =
          length-append received (v ∷ []) in
        let keep : (k : ℕ) → length received % size ≢ k → put q.written h false k ≡ q.written k =
          λ k ne. put_ne q.written h false k (λ e. ne (sym cell ∙ e)) in
        let room = inv.room in
        let ordered = inv.ordered in
        record {
          prefix = Precedes-next received sent v inv.prefix value;
          head_is = inv.head_is ∙ ap (λ n. n % size) (omega (arith, longer));
          tail_is = inv.tail_is;
          ordered = omega (arith, longer);
          room = omega (arith, longer);
          full = λ k low high.
              let (w, o) = inv.full k (omega (arith, longer, low)) high in
              (
                keep (k % size)
                      (apart_full (free_cell h v) inv refl k (omega (arith, longer, low)) high)
                    ∙ w,
                o,
              );
          unwritten = λ k low high. elim (ℕ_discrete h (k % size)) [
            | yes e ↦ ap (put q.written h false) (sym e) ∙ put_self q.written h false
            | no ne ↦
                let near : k ≢ length received + size = λ e.
                  ne (cell ∙ sym (ap (λ n. n % size) e ∙ add-mod_right (length received) size)) in
                put_ne q.written h false (k % size) ne
                ∙ inv.unwritten k low (omega (arith, longer, high, near))
          ];
          hollow = λ k low high. elim (dec_lt k (length received + size)) [
            | yes lt ↦ inv.hollow k low lt
            | no ge ↦
                let last : k ≡ length received + size = omega (arith, longer, high, ge) in
                ap (λ n. q.storage (n % size)) last
                ∙ ap q.storage (add-mod_right (length received) size ∙ sym cell)
                ∙ gone
          ];
          producing =
              Producing-keep size q (record q { written = put q.written h false }) p
                (length received + 1) (length (received ++ v ∷ []) + 0) (length sent) refl
                (omega (arith, longer)) (λ b. refl) inv.producing;
          consuming = tt;
        }

  pub consume-Inv :
      (fails : Bool) (q : Queue A) (p : Producer A) (c : Consumer A) (sent received : List A)
      → Inv size (system q p c sent received)
      → Inv size (consume size fails c (system q p c sent received))
  unfolding consume dequeue after_dequeue
  consume-Inv fails q p waiting sent received inv = inv
  consume-Inv fails q p (dequeuing load_head) sent received inv =
      unreceived-Inv size q p sent received (dequeuing load_head) (dequeuing (check_empty q.head))
        inv refl refl refl
  consume-Inv fails q p (dequeuing (check_empty h)) sent received inv =
      check_empty-Inv size q p sent received fails h inv
  consume-Inv fails q p (dequeuing (check_written h)) sent received inv =
      check_written-Inv size q p sent received fails h inv
  consume-Inv fails q p (dequeuing (advance_head h)) sent received inv =
      advance_head-Inv size q p sent received fails h inv
  consume-Inv fails q p (dequeuing (move_out h)) sent received inv =
      move_out-Inv q p sent received fails h inv
  consume-Inv fails q p (dequeuing (free_cell h v)) sent received inv =
      free_cell-Inv q p sent received fails h v inv
  consume-Inv fails q p (dequeuing (dequeued o)) sent received inv =
      absurd (false≢true inv.consuming)
  consume-Inv fails q p (dequeuing no_object) sent received inv = absurd (false≢true inv.consuming)
