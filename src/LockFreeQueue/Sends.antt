-- ===== src/LockFreeQueue/Sends.antt =====
-- A step of the producer keeps the invariant.
use hft_backtester.Prelude.{
  false≢true, dec_lt, ℕ, ◌+◌, ◌%◌, ◌<◌, ◌≤◌, ◌≡◌, ◌≢◌, refl, ap, sym, ◌∙◌, Bool, true, some, List,
  [], ◌∷◌, ◌++◌, length, get_elem?, length-append, arith,
}
use mathlib.Core.List.{append_assoc}
use hft_backtester.Heap.{put, put_self, put_ne}
use hft_backtester.LockFreeQueue.{
  Queue, Enqueue, load_tail, check_full, check_cell, advance_tail, construct, publish, enqueued,
  enqueue, after_enqueue, Producer, resting, enqueuing, Consumer, produce,
}
use hft_backtester.LockFreeQueue.Invariant.{
  mod-ne, get_elem?-length, get_elem?-append, claiming, taking, Inv, system,
}
use hft_backtester.LockFreeQueue.Claims.{
  Consuming-keep, unsent-Inv, at, check_full-Inv, check_cell-Inv, advance_tail-Inv,
}

module _ (size : ℕ) {A : Type 0} where
  module _ (q : Queue A) (c : Consumer A) (sent received : List A) where
    -- The cell of the next object is not one that is full, nor one that is free, nor the one whose
    -- object moves out.
    module _ (x : A) (pc : Enqueue) (inv : Inv size (at size q c sent received x pc))
        (claimed : claiming (enqueuing x pc) ≡ 1) where
      apart_full :
          (k : ℕ) → length received + taking c ≤ k → k < length sent → length sent % size ≢ k % size
      apart_full k low high e =
          let room = inv.room in mod-ne size {j = k} {k = length sent} high (omega arith) (sym e)

      apart_free :
          (k : ℕ) → length sent + 1 ≤ k → k < length received + size → length sent % size ≢ k % size
      apart_free k low high e =
          let ordered = inv.ordered in
          mod-ne size {j = length sent} {k = k} (omega (arith, low)) (omega arith) e

      apart_taken : taking c ≡ 1 → length sent % size ≢ length received % size
      apart_taken one e =
          let ordered = inv.ordered in
          let room = inv.room in
          mod-ne size {j = length received} {k = length sent} (omega arith) (omega arith) (sym e)

    construct-Inv :
        (fails : Bool) (x : A) (t : ℕ)
        → Inv size (at size q c sent received x (construct t))
        → Inv size (
            produce size fails
              (enqueuing x (construct t))
              (at size q c sent received x (construct t)))
    unfolding produce enqueue after_enqueue
    construct-Inv fails x t inv =
        let cell = inv.producing in
        let keep : (k : ℕ) → length sent % size ≢ k → put q.storage t (some x) k ≡ q.storage k =
          λ k ne. put_ne q.storage t (some x) k (λ e. ne (sym cell ∙ e)) in
        record {
          prefix = inv.prefix;
          head_is = inv.head_is;
          tail_is = inv.tail_is;
          ordered = inv.ordered;
          room = inv.room;
          full = λ k low high.
              let (w, o) = inv.full k low high in
              (w, keep (k % size) (apart_full x (construct t) inv refl k low high) ∙ o);
          unwritten = inv.unwritten;
          hollow = λ k low high.
              keep (k % size) (apart_free x (construct t) inv refl k low high)
              ∙ inv.hollow k (omega (arith, low)) high;
          producing = (cell, put_self q.storage t (some x));
          consuming =
              Consuming-keep size q c sent received
                (record q { storage = put q.storage t (some x) }) sent refl (omega arith)
                (λ i h. refl)
                (λ one. keep (length received % size) (apart_taken x (construct t) inv refl one))
                inv.ordered inv.consuming;
        }

    publish-Inv :
        (fails : Bool) (x : A) (t : ℕ)
        → Inv size (at size q c sent received x (publish t))
        → Inv size
            (produce size fails (enqueuing x (publish t)) (at size q c sent received x (publish t)))
    unfolding produce enqueue after_enqueue
    publish-Inv fails x t inv =
        let (cell, there) = inv.producing in
        let (rest, split) = inv.prefix in
        let longer : length (sent ++ x ∷ []) ≡ length sent + 1 = length-append sent (x ∷ []) in
        let ordered = inv.ordered in
        let room = inv.room in
        let keep : (k : ℕ) → length sent % size ≢ k → put q.written t true k ≡ q.written k =
          λ k ne. put_ne q.written t true k (λ e. ne (sym cell ∙ e)) in
        record {
          prefix =
              (rest ++ x ∷ [], ap (λ xs. xs ++ x ∷ []) split ∙ append_assoc received rest (x ∷ []));
          head_is = inv.head_is;
          tail_is = inv.tail_is ∙ ap (λ n. n % size) (omega (arith, longer));
          ordered = omega (arith, longer);
          room = omega (arith, longer);
          full = λ k low high. elim (dec_lt k (length sent)) [
            | yes lt ↦
                let (w, o) = inv.full k low lt in
                (
                  keep (k % size) (apart_full x (publish t) inv refl k low lt) ∙ w,
                  o ∙ sym (get_elem?-append sent (x ∷ []) k lt),
                )
            | no ge ↦
                let last : k ≡ length sent = omega (arith, longer, high, ge) in
                let e : k % size ≡ t = ap (λ n. n % size) last ∙ sym cell in
                (
                  ap (put q.written t true) e ∙ put_self q.written t true,
                  ap q.storage e
                      ∙ there
                      ∙ sym (ap (get_elem? (sent ++ x ∷ [])) last ∙ get_elem?-length sent x),
                )
          ];
          unwritten = λ k low high.
              keep (k % size)
                (apart_free x (publish t) inv refl k (omega (arith, longer, low)) high)
              ∙ inv.unwritten k (omega (arith, longer, low)) high;
          hollow = λ k low high. inv.hollow k (omega (arith, longer, low)) high;
          producing = tt;
          consuming =
              Consuming-keep size q c sent received (record q { written = put q.written t true })
                (sent ++ x ∷ []) refl (omega (arith, longer)) (get_elem?-append sent (x ∷ []))
                (λ one. refl) inv.ordered inv.consuming;
        }

  pub produce-Inv :
      (fails : Bool) (q : Queue A) (p : Producer A) (c : Consumer A) (sent received : List A)
      → Inv size (system q p c sent received)
      → Inv size (produce size fails p (system q p c sent received))
  unfolding produce enqueue after_enqueue
  produce-Inv fails q resting c sent received inv = inv
  produce-Inv fails q (enqueuing x load_tail) c sent received inv =
      unsent-Inv size q c sent received (enqueuing x load_tail) (enqueuing x (check_full q.tail))
        inv refl refl refl refl refl
  produce-Inv fails q (enqueuing x (check_full t)) c sent received inv =
      check_full-Inv size q c sent received fails x t inv
  produce-Inv fails q (enqueuing x (check_cell t)) c sent received inv =
      check_cell-Inv size q c sent received fails x t inv
  produce-Inv fails q (enqueuing x (advance_tail t)) c sent received inv =
      advance_tail-Inv size q c sent received fails x t inv
  produce-Inv fails q (enqueuing x (construct t)) c sent received inv =
      construct-Inv q c sent received fails x t inv
  produce-Inv fails q (enqueuing x (publish t)) c sent received inv =
      publish-Inv q c sent received fails x t inv
  produce-Inv fails q (enqueuing x (enqueued b)) c sent received inv =
      absurd (false≢true inv.producing)
