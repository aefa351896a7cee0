-- ===== src/LockFreeQueue/Order.antt =====
-- What the queue promises its two users, whatever the interleaving.
use hft_backtester.Prelude.{
  [], subst, false≢true, ℕ, ◌+◌, ◌-◌, ◌%◌, ◌<◌, ◌≤◌, ◌≡◌, ◌≢◌, refl, ap, sym, ◌∙◌, false, none,
  List, ◌++◌, length, ◌==◌, dec_lt, arith, length-append,
}
use native.Mathlib.Nat.{zero-mod, mod-lt, mod-eq_of_lt, mod-eq-sub-mod, mod-add-mod}
use hft_backtester.LockFreeQueue.{
  Queue, Producer, resting, enqueuing, construct, Consumer, dequeuing, no_object, System, Step,
  offer, produced, ask, consumed, Reach, started, later, initial, empty, occupied, capacity,
  check_full, check_cell, advance_tail, publish, enqueued, load_tail, load_head,
}
use hft_backtester.LockFreeQueue.Invariant.{taking, claiming, building, Inv, Consuming, system}
use hft_backtester.LockFreeQueue.Claims.{unsent-Inv}
use hft_backtester.LockFreeQueue.Sends.{produce-Inv}
use hft_backtester.LockFreeQueue.Gives.{unreceived-Inv}
use hft_backtester.LockFreeQueue.Receives.{consume-Inv}

-- The cell of the object that is to be built is one of the buffer, holds none and is not written.
abbrev pub Builds : {A : Type 0} → ℕ → Queue A → Producer A → Type 0
Builds size q (enqueuing x (construct t)) =
    (t < size) × (q.storage t ≡ none) × (q.written t ≡ false)
Builds size q p = Unit

pub taking-le : {A : Type 0} (c : Consumer A) → taking c ≤ 1
taking-le c = ground arith

known :
    {A : Type 0} (size : ℕ) (q : Queue A) (p : Producer A) (c : Consumer A) (sent received : List A)
    → 0 < size
    → Inv size (system q p c sent received)
    → Builds size q p
known size q (enqueuing x (construct t)) c sent received some_cell inv =
    let room = inv.room in
    let ordered = inv.ordered in
    let near : length sent < length received + size = omega (arith, room, ordered, taking-le c) in
    (
      subst (λ i. i < size) (sym inv.producing) (mod-lt (length sent) some_cell),
      ap q.storage inv.producing ∙ inv.hollow (length sent) (omega arith) near,
      ap q.written inv.producing ∙ inv.unwritten (length sent) (omega arith) near,
    )
known size q resting c sent received some_cell inv = tt
known size q (enqueuing x load_tail) c sent received some_cell inv = tt
known size q (enqueuing x (check_full t)) c sent received some_cell inv = tt
known size q (enqueuing x (check_cell t)) c sent received some_cell inv = tt
known size q (enqueuing x (advance_tail t)) c sent received some_cell inv = tt
known size q (enqueuing x (publish t)) c sent received some_cell inv = tt
known size q (enqueuing x (enqueued b)) c sent received some_cell inv = tt

has_object :
    {A : Type 0} (size L : ℕ) (sent : List A) (q : Queue A) (c : Consumer A)
    → Consuming size L sent q c
    → c ≢ dequeuing no_object
has_object size L sent q c know e =
    absurd (false≢true (subst (λ c. Consuming size L sent q c) e know))

module _ (size : ℕ) (some_cell : 0 < size) {A : Type 0} where
  -- The distance of two places less than a round apart, from their cells.
  occupied_between :
      (q : Queue A) (H T : ℕ)
      → H ≤ T
      → T < H + size
      → q.head ≡ H % size
      → q.tail ≡ T % size
      → (occupied size q ≡ T - H) × (empty size q ≡ (occupied size q == 0))
  unfolding occupied empty
  occupied_between q H T le near head_is tail_is =
      let inside : H % size < size = mod-lt H some_cell in
      let further : T % size ≡ (H % size + (T - H)) % size =
        sym (mod-add-mod H size (T - H) ∙ ap (λ n. n % size) (omega arith)) in
      elim (dec_lt (H % size + (T - H)) size) [
        | yes lt ↦ let e = tail_is ∙ further ∙ mod-eq_of_lt lt in ground arith
        | no ge ↦
            let e =
              tail_is
              ∙ further
              ∙ mod-eq-sub-mod {n = H % size + (T - H)} {m = size} (omega arith)
              ∙ mod-eq_of_lt {n = H % size + (T - H) - size} {m = size} (omega arith) in
            ground arith
      ]

  initial-Inv : Inv {A = A} size (initial size)
  initial-Inv = record {
    prefix = ([], refl);
    head_is = sym (zero-mod size);
    tail_is = sym (zero-mod size);
    ordered = omega arith;
    room = omega (arith, some_cell);
    full = λ k low high. absurd (omega (arith, high));
    unwritten = λ k low high. refl;
    hollow = λ k low high. refl;
    producing = tt;
    consuming = tt;
  }

  claiming-le : (p : Producer A) → claiming p ≡ 0 → building p ≡ 0
  claiming-le p e = ground arith

  Step-Inv : {s t : System A} → Inv size s → Step size s t → Inv size t
  Step-Inv {s} inv (offer x e) =
      let idle : claiming s.producer ≡ 0 = ap claiming e in
      unsent-Inv size s.queue s.consumer s.sent s.received s.producer (enqueuing x load_tail) inv
        idle (claiming-le s.producer idle) refl refl tt
  Step-Inv {s} inv (produced fails) =
      produce-Inv size fails s.queue s.producer s.consumer s.sent s.received inv
  Step-Inv {s} inv (ask e) =
      unreceived-Inv size s.queue s.producer s.sent s.received s.consumer (dequeuing load_head) inv
        (ap taking e) refl tt
  Step-Inv {s} inv (consumed fails) =
      consume-Inv size fails s.queue s.producer s.consumer s.sent s.received inv

  pub Reach-Inv : {s : System A} → Reach size s → Inv size s
  Reach-Inv started = initial-Inv
  Reach-Inv (later reach step) = Step-Inv (Reach-Inv reach) step

  -- Objects come out in the order in which they went in, none twice and none lost: what was received is
  -- how what was sent starts. At most the capacity is still to come, and the one that is coming out.
  pub Reach-Precedes :
      {s : System A}
      → Reach size s
      → (rest : List A) × (s.sent ≡ s.received ++ rest)
        × (length rest ≤ capacity size + taking s.consumer)
  unfolding capacity
  Reach-Precedes {s} reach =
      let inv = Reach-Inv reach in
      let (rest, split) = inv.prefix in
      let room = inv.room in
      let parts = length-append s.received rest in
      (rest, split, omega (arith, ap length split, parts))

  -- An object is never moved out of a cell that holds none, and is built in a cell of the buffer that
  -- holds none and is not marked as written.
  pub Reach-Builds :
      {s : System A}
      → Reach size s
      → (s.consumer ≢ dequeuing no_object) × Builds size s.queue s.producer
  Reach-Builds {s} reach =
      let inv = Reach-Inv reach in
      (
        has_object size (length s.received) s.sent s.queue s.consumer inv.consuming,
        known size s.queue s.producer s.consumer s.sent s.received some_cell inv,
      )

  -- `size` and `empty` between two steps count the places that are claimed and not given up, and these
  -- are at most the capacity.
  pub Reach-occupied :
      {s : System A}
      → Reach size s
      → (occupied size s.queue + (length s.received + taking s.consumer)
          ≡ length s.sent + claiming s.producer)
        × (occupied size s.queue ≤ capacity size)
        × (empty size s.queue ≡ (occupied size s.queue == 0))
  unfolding occupied capacity empty
  Reach-occupied {s} reach =
      let inv = Reach-Inv reach in
      let ordered = inv.ordered in
      let room = inv.room in
      let (apart, same) =
        occupied_between s.queue (length s.received + taking s.consumer)
          (length s.sent + claiming s.producer) (omega arith) room inv.head_is inv.tail_is in
      (omega arith, omega arith, same)
