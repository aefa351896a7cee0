-- ===== src/LockFreeQueue/Invariant.antt =====
-- What holds at every moment: the places that were ever enqueued and dequeued are counted up, and
-- place `k` has the cell `k % size`.
use hft_backtester.Prelude.{
  ℕ, ◌+◌, ◌%◌, ◌<◌, ◌≤◌, ◌≡◌, ◌≢◌, sym, refl, ap, zero, suc, [], ◌∷◌, ◌-◌, ◌∙◌, true, false, Option,
  none, some, List, ◌++◌, length, get_elem?, dec_lt, arith,
}
use mathlib.Core.List.{append_assoc, append-nil}
use native.Mathlib.Nat.{mod-eq_of_lt, mod-eq-sub-mod, mod-lt, mod-add-mod}
use hft_backtester.LockFreeQueue.{
  Queue, load_tail, check_full, check_cell, advance_tail, construct, publish, enqueued, load_head,
  check_empty, check_written, advance_head, move_out, free_cell, dequeued, no_object, Producer,
  resting, enqueuing, Consumer, waiting, dequeuing, System,
}

-- Fewer than `size` steps round the buffer do not come back to the start.
add-mod-ne : {size h d : ℕ} → h < size → 0 < d → d < size → (h + d) % size ≢ h
add-mod-ne {size} {h} {d} hh pos hd = elim (dec_lt (h + d) size) [
  | yes p ↦ omega (arith, mod-eq_of_lt p)
  | no p ↦ omega (
    arith,
    mod-eq-sub-mod {n = h + d} {m = size} (omega arith),
    mod-eq_of_lt {n = h + d - size} {m = size} (omega arith),
  )
]

-- Places less than a round apart have cells of their own.
pub mod-ne : (size : ℕ) {j k : ℕ} → j < k → k < j + size → j % size ≢ k % size
mod-ne size {j} {k} lt near e =
    let split : (j % size + (k - j)) % size ≡ k % size =
      mod-add-mod j size (k - j) ∙ ap (λ i. i % size) (omega arith) in
    add-mod-ne (mod-lt j (omega arith)) (omega arith) (omega arith) (split ∙ sym e)

-- The cell of the next place.
pub next-mod : (size k i : ℕ) → i ≡ k % size → (i + 1) % size ≡ (k + 1) % size
next-mod size k i e = ap (λ j. (j + 1) % size) e ∙ mod-add-mod k size 1

pub get_elem?-length :
    {A : Type 0} (xs : List A) (x : A) → get_elem? (xs ++ x ∷ []) (length xs) ≡ some x
get_elem?-length [] x = refl
get_elem?-length (y ∷ ys) x = get_elem?-length ys x

pub get_elem?-append :
    {A : Type 0} (xs ys : List A) (i : ℕ) → i < length xs → get_elem? (xs ++ ys) i ≡ get_elem? xs i
get_elem?-append [] ys i h = absurd (omega (arith, h))
get_elem?-append (x ∷ xs) ys zero h = refl
get_elem?-append (x ∷ xs) ys (suc i) h = get_elem?-append xs ys i (omega (arith, h))

pub get_elem?-present : {A : Type 0} (xs : List A) (i : ℕ) → i < length xs → get_elem? xs i ≢ none
get_elem?-present [] i h e = absurd (omega (arith, h))
get_elem?-present (x ∷ xs) zero h e = absurd (ground arith)
get_elem?-present (x ∷ xs) (suc i) h e = get_elem?-present xs i (omega (arith, h)) e

get_elem?_middle :
    {A : Type 0} (xs : List A) (x : A) (ys : List A) → get_elem? (xs ++ x ∷ ys) (length xs) ≡ some x
get_elem?_middle [] x ys = refl
get_elem?_middle (y ∷ xs) x ys = get_elem?_middle xs x ys

past_end : {A : Type 0} (xs : List A) (v : A) → get_elem? xs (length xs) ≢ some v
past_end [] v e = ground arith
past_end (x ∷ xs) v e = past_end xs v e

or_else : {A : Type 0} → A → Option A → A
or_else x none = x
or_else x (some y) = y

-- `received` is how `sent` starts.
abbrev pub Precedes : {A : Type 0} → List A → List A → Type 0
Precedes {A} xs ys = (rest : List A) × (ys ≡ xs ++ rest)

pub Precedes-next :
    {A : Type 0} (xs ys : List A) (v : A)
    → Precedes xs ys
    → get_elem? ys (length xs) ≡ some v
    → Precedes (xs ++ v ∷ []) ys
unfolding or_else
Precedes-next xs ys v ([], e) h =
    absurd (past_end xs v (ap (λ zs. get_elem? zs (length xs)) (sym (e ∙ append-nil xs)) ∙ h))
Precedes-next xs ys v (r ∷ rest, e) h =
    let same : some r ≡ some v =
      sym (get_elem?_middle xs r rest) ∙ ap (λ zs. get_elem? zs (length xs)) (sym e) ∙ h in
    (rest, e ∙ ap (λ o. xs ++ or_else r o ∷ rest) same ∙ sym (append_assoc xs (v ∷ []) rest))

-- A place that is claimed but not counted yet, as sent or as received.
abbrev pub claiming : {A : Type 0} → Producer A → ℕ
claiming (enqueuing x (construct t)) = 1
claiming (enqueuing x (publish t)) = 1
claiming p = 0

abbrev pub taking : {A : Type 0} → Consumer A → ℕ
taking (dequeuing (move_out h)) = 1
taking (dequeuing (free_cell h v)) = 1
taking c = 0

abbrev pub building : {A : Type 0} → Producer A → ℕ
building (enqueuing x (publish t)) = 1
building p = 0

-- What the producer knows when `H` places were given up and `P` objects were sent.
abbrev pub Producing : {A : Type 0} (size H P : ℕ) → Queue A → Producer A → Type 0
Producing size H P q resting = Unit
Producing size H P q (enqueuing x load_tail) = Unit
Producing size H P q (enqueuing x (check_full t)) = t ≡ q.tail
Producing size H P q (enqueuing x (check_cell t)) = (t ≡ q.tail) × (P + 1 < H + size)
Producing size H P q (enqueuing x (advance_tail t)) = (t ≡ q.tail) × (P + 1 < H + size)
Producing size H P q (enqueuing x (construct t)) = t ≡ P % size
Producing size H P q (enqueuing x (publish t)) = (t ≡ P % size) × (q.storage t ≡ some x)
Producing size H P q (enqueuing x (enqueued b)) = false ≡ true

-- What the consumer knows when it has received `L` objects of `sent`.
abbrev pub Consuming : {A : Type 0} (size L : ℕ) → List A → Queue A → Consumer A → Type 0
Consuming size L sent q waiting = Unit
Consuming size L sent q (dequeuing load_head) = Unit
Consuming size L sent q (dequeuing (check_empty h)) = h ≡ q.head
Consuming size L sent q (dequeuing (check_written h)) = h ≡ q.head
Consuming size L sent q (dequeuing (advance_head h)) = (h ≡ q.head) × (L < length sent)
Consuming size L sent q (dequeuing (move_out h)) = (h ≡ L % size) × (q.storage h ≡ get_elem? sent L)
Consuming size L sent q (dequeuing (free_cell h v)) =
    (h ≡ L % size) × (q.storage h ≡ none) × (get_elem? sent L ≡ some v)
Consuming size L sent q (dequeuing (dequeued o)) = false ≡ true
Consuming size L sent q (dequeuing no_object) = false ≡ true

-- From the places that were given up to those that were sent, the cells are full; from there on round
-- to the first place that was not received, they are not written and hold no object.
pub record Inv {A : Type 0} (size : ℕ) (s : System A) : Type 0 where
  pub prefix : Precedes s.received s.sent
  pub head_is : s.queue.head ≡ (length s.received + taking s.consumer) % size
  pub tail_is : s.queue.tail ≡ (length s.sent + claiming s.producer) % size
  pub ordered : length s.received + taking s.consumer ≤ length s.sent
  pub room : length s.sent + claiming s.producer < length s.received + taking s.consumer + size
  pub full :
      (k : ℕ)
      → length s.received + taking s.consumer ≤ k
      → k < length s.sent
      → (s.queue.written (k % size) ≡ true) × (s.queue.storage (k % size) ≡ get_elem? s.sent k)
  pub unwritten :
      (k : ℕ)
      → length s.sent ≤ k
      → k < length s.received + size
      → s.queue.written (k % size) ≡ false
  pub hollow :
      (k : ℕ)
      → length s.sent + building s.producer ≤ k
      → k < length s.received + size
      → s.queue.storage (k % size) ≡ none
  pub producing :
      Producing size (length s.received + taking s.consumer) (length s.sent) s.queue s.producer
  pub consuming : Consuming size (length s.received) s.sent s.queue s.consumer

abbrev pub system : {A : Type 0} → Queue A → Producer A → Consumer A → List A → List A → System A
system q p c sent received = record {
  queue = q;
  producer = p;
  consumer = c;
  sent = sent;
  received = received;
}
