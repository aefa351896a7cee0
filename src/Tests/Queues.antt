-- ===== src/Tests/Queues.antt =====
-- A queue of three cells, one enqueue of 5 and one dequeue.
use hft_backtester.Prelude.{
  ℕ, ◌+◌, ◌≤◌, ◌≡◌, ◌≢◌, refl, false, none, List, ◌++◌, length, ◌==◌, arith,
}
use hft_backtester.LockFreeQueue.{
  System, Reach, started, later, offer, ask, initial, resting, enqueuing, waiting, dequeuing,
  load_tail, load_head, no_object, occupied, empty, capacity, destroy, produce, enqueue,
  after_enqueue,
}
use hft_backtester.LockFreeQueue.Invariant.{taking, claiming}
use hft_backtester.LockFreeQueue.Order.{Builds, Reach-Precedes, Reach-Builds}
use hft_backtester.LockFreeQueue.Refusal.{RefusesFull, RefusesEmpty, Reach-refuses}
use hft_backtester.LockFreeQueue.Alone.{
  produce_times, consume_times, Reach-produce_times, Reach-consume_times, enqueue_ends,
  dequeue_waits,
}
use hft_backtester.LockFreeQueue.End.{destroy-hollow}

abbrev offered : System ℕ
offered = record (initial 3) { producer = enqueuing 5 load_tail }

abbrev both : System ℕ
both = record offered { consumer = dequeuing load_head }

offered-Reach : Reach 3 offered
offered-Reach = later started (offer 5 refl)

both-Reach : Reach 3 both
both-Reach = later offered-Reach (ask refl)

-- the producer between its exchange and its store
abbrev stopped : System ℕ
stopped = produce_times 3 4 both

abbrev passed : System ℕ
passed = consume_times 3 5 (produce_times 3 6 both)

passed-Reach : Reach 3 passed
passed-Reach =
    Reach-consume_times 3 5 (produce_times 3 6 both) (Reach-produce_times 3 6 both both-Reach)

Reach-Precedes_example :
    (rest : List ℕ) × (passed.sent ≡ passed.received ++ rest)
    × (length rest ≤ capacity 3 + taking passed.consumer)
Reach-Precedes_example = Reach-Precedes 3 (omega arith) passed-Reach

Reach-Builds_example :
    (stopped.consumer ≢ dequeuing no_object) × Builds 3 stopped.queue stopped.producer
Reach-Builds_example = Reach-Builds 3 (omega arith) (Reach-produce_times 3 4 both both-Reach)

-- both at their tests
abbrev testing : System ℕ
testing = consume_times 3 1 (produce_times 3 1 both)

Reach-refuses_example :
    (occupied 3 testing.queue + (length testing.received + taking testing.consumer)
      ≡ length testing.sent + claiming testing.producer)
    × (occupied 3 testing.queue ≤ capacity 3)
    × (empty 3 testing.queue ≡ (occupied 3 testing.queue == 0))
    × RefusesFull 3 testing.queue testing.producer
    × RefusesEmpty 3 testing.queue testing.consumer
Reach-refuses_example =
    Reach-refuses 3 (omega arith)
      (Reach-consume_times 3 1 (produce_times 3 1 both) (Reach-produce_times 3 1 both both-Reach))

enqueue_ends_example : (produce_times 3 6 both).producer ≡ resting
enqueue_ends_example = enqueue_ends 3 (omega arith) both-Reach

dequeue_waits_example :
    ((consume_times 3 100 stopped).received ≡ stopped.received)
    × ((consume_times 3 100 stopped).consumer ≢ waiting)
unfolding produce_times produce enqueue after_enqueue
dequeue_waits_example =
    dequeue_waits 3 (omega arith) 100 (Reach-produce_times 3 4 both both-Reach) refl refl refl

abbrev done : System ℕ
done = produce_times 3 6 offered

destroy-hollow_example :
    let q = destroy 3 3 done.queue in
    (q.head ≡ q.tail) × (q.storage 0 ≡ none) × (q.written 0 ≡ false)
unfolding produce_times produce enqueue after_enqueue
destroy-hollow_example =
    destroy-hollow 3 0 (omega arith) (Reach-produce_times 3 6 offered offered-Reach) refl refl
      (omega arith)
