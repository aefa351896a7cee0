-- ===== src/LockFreeQueue.antt =====
-- `LockFreeQueue` of include/lock_free_queue.h with one producer and one consumer, as the logger and
-- the strategies use it. A step is one access to what the threads share, in any interleaving; memory
-- is sequentially consistent. A weak compare and exchange may fail for no reason: `fails`.
pub mod Invariant
pub mod Claims
pub mod Sends
pub mod Gives
pub mod Receives
pub mod Order
pub mod Alone
pub mod Refusal
pub mod End
use hft_backtester.Prelude.{
  ℕ, zero, suc, ◌+◌, ◌-◌, ◌%◌, ◌≡◌, Bool, true, false, not, ◌||◌, Option, none, some, List, [], ◌∷◌,
  ◌++◌, ◌==◌, leb, if◌then◌else◌,
}
use hft_backtester.Heap.{put}

-- What the threads share. `storage` is `none` where no object lives.
pub record Queue (A : Type 0) : Type 0 where
  pub head : ℕ
  pub tail : ℕ
  pub written : ℕ → Bool
  pub storage : ℕ → Option A

-- Where `enqueue` stands, with what it has loaded.
pub data Enqueue : Type 0 where
  load_tail : Enqueue
  check_full : (curr_tail : ℕ) → Enqueue
  check_cell : (curr_tail : ℕ) → Enqueue
  advance_tail : (curr_tail : ℕ) → Enqueue
  construct : (curr_tail : ℕ) → Enqueue
  publish : (curr_tail : ℕ) → Enqueue
  enqueued : Bool → Enqueue

-- Where `dequeue` stands; `no_object` is a move from a cell that holds none.
pub data Dequeue (A : Type 0) : Type 0 where
  load_head : Dequeue A
  check_empty : (curr_head : ℕ) → Dequeue A
  check_written : (curr_head : ℕ) → Dequeue A
  advance_head : (curr_head : ℕ) → Dequeue A
  move_out : (curr_head : ℕ) → Dequeue A
  free_cell : (curr_head : ℕ) → A → Dequeue A
  dequeued : Option A → Dequeue A
  no_object : Dequeue A

-- The producer and the consumer between and inside their calls.
pub data Producer (A : Type 0) : Type 0 where
  resting : Producer A
  enqueuing : A → Enqueue → Producer A

pub data Consumer (A : Type 0) : Type 0 where
  waiting : Consumer A
  dequeuing : Dequeue A → Consumer A

-- The queue, its two users, and what was enqueued and dequeued with success so far.
pub record System (A : Type 0) : Type 0 where
  pub queue : Queue A
  pub producer : Producer A
  pub consumer : Consumer A
  pub sent : List A
  pub received : List A

pub capacity : ℕ → ℕ
capacity size = size - 1

module _ (size : ℕ) {A : Type 0} where
  unfoldable pub enqueue : A → Bool → Queue A → Enqueue → Queue A × Enqueue
  unfolding put
  enqueue x fails q load_tail = (q, check_full q.tail)
  enqueue x fails q (check_full t) =
      if (t + 1) % size == q.head then (q, enqueued false) else (q, check_cell t)
  enqueue x fails q (check_cell t) = if q.written t then (q, load_tail) else (q, advance_tail t)
  enqueue x fails q (advance_tail t) =
      if fails || not (q.tail == t)
      then (q, load_tail)
      else (record q { tail = (t + 1) % size }, construct t)
  enqueue x fails q (construct t) = (record q { storage = put q.storage t (some x) }, publish t)
  enqueue x fails q (publish t) = (record q { written = put q.written t true }, enqueued true)
  enqueue x fails q (enqueued b) = (q, enqueued b)

  -- The object moves out of its cell and is destroyed there.
  pub taken : ℕ → Option A → Queue A → Queue A × Dequeue A
  unfolding put
  taken h none q = (q, no_object)
  taken h (some v) q = (record q { storage = put q.storage h none }, free_cell h v)

  pub dequeue : Bool → Queue A → Dequeue A → Queue A × Dequeue A
  unfolding put taken
  dequeue fails q load_head = (q, check_empty q.head)
  dequeue fails q (check_empty h) = if h == q.tail then (q, dequeued none) else (q, check_written h)
  dequeue fails q (check_written h) = if q.written h then (q, advance_head h) else (q, load_head)
  dequeue fails q (advance_head h) =
      if fails || not (q.head == h)
      then (q, load_head)
      else (record q { head = (h + 1) % size }, move_out h)
  dequeue fails q (move_out h) = taken h (q.storage h) q
  dequeue fails q (free_cell h v) =
      (record q { written = put q.written h false }, dequeued (some v))
  dequeue fails q (dequeued o) = (q, dequeued o)
  dequeue fails q no_object = (q, no_object)

  -- A call that has its result is over.
  unfoldable pub after_enqueue : System A → A → Queue A → Enqueue → System A
  after_enqueue s x q (enqueued true) = record s {
    queue = q;
    producer = resting;
    sent = s.sent ++ x ∷ [];
  }
  after_enqueue s x q (enqueued false) = record s { queue = q; producer = resting }
  after_enqueue s x q pc = record s { queue = q; producer = enqueuing x pc }

  pub after_dequeue : System A → Queue A → Dequeue A → System A
  after_dequeue s q (dequeued (some v)) = record s {
    queue = q;
    consumer = waiting;
    received = s.received ++ v ∷ [];
  }
  after_dequeue s q (dequeued none) = record s { queue = q; consumer = waiting }
  after_dequeue s q pc = record s { queue = q; consumer = dequeuing pc }

  -- The next access of the producer, and of the consumer.
  unfoldable pub produce : Bool → Producer A → System A → System A
  unfolding enqueue after_enqueue
  produce fails resting s = s
  produce fails (enqueuing x pc) s =
      let (q, pc') = enqueue x fails s.queue pc in after_enqueue s x q pc'

  pub consume : Bool → Consumer A → System A → System A
  unfolding dequeue after_dequeue
  consume fails waiting s = s
  consume fails (dequeuing pc) s = let (q, pc') = dequeue fails s.queue pc in after_dequeue s q pc'

  pub data Step (s : System A) : System A → Type 0 where
    offer : (x : A) → s.producer ≡ resting → Step s (record s { producer = enqueuing x load_tail })
    produced : (fails : Bool) → Step s (produce fails s.producer s)
    ask : s.consumer ≡ waiting → Step s (record s { consumer = dequeuing load_head })
    consumed : (fails : Bool) → Step s (consume fails s.consumer s)

  abbrev pub initial : System A
  initial = record {
    queue = record { head = 0; tail = 0; written = λ i. false; storage = λ i. none };
    producer = resting;
    consumer = waiting;
    sent = [];
    received = [];
  }

  pub data Reach : System A → Type 0 where
    started : Reach initial
    later : {s t : System A} → Reach s → Step s t → Reach t

  pub empty : Queue A → Bool
  empty q = q.head == q.tail

  -- `size()`, of the head and the tail that it loads.
  pub occupied : Queue A → ℕ
  occupied q = if leb q.head q.tail then q.tail - q.head else size - (q.head - q.tail)

  -- The destructor: from the head to the tail, with the rounds that are left at most.
  pub destroy : ℕ → Queue A → Queue A
  unfolding put
  destroy zero q = q
  destroy (suc n) q =
      let rest = destroy n (record q {
        head = (q.head + 1) % size;
        written = if q.written q.head then put q.written q.head false else q.written;
        storage = if q.written q.head then put q.storage q.head none else q.storage;
      }) in
      if q.head == q.tail then q else rest
