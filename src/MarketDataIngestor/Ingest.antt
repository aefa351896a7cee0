-- ===== src/MarketDataIngestor/Ingest.antt =====
-- A recorded stream goes through the book of its own window.
use hft_backtester.Prelude.{
  ℕ, ◌+◌, ◌-◌, ◌^◌, ◌<◌, ◌≤◌, ◌≡◌, ◌⊎◌, inl, inr, refl, ap, subst, Bool, true, false, Bool-cases,
  none, some, List, [], ◌∷◌, length, take, pos, negsuc, arith, Returns, returns, Returns-bind,
  Returns-mono, ◌>>=◌, suc, ℤ,
}
use hft_backtester.Message.{Message}
use hft_backtester.Book.{Book, System, new_book}
use hft_backtester.Book.Invariant.{IsSystem}
use hft_backtester.Book.Entry.{Entry}
use hft_backtester.Book.New.{new_book-IsNew}
use hft_backtester.Book.Process.{
  Table, is_ignored, meant, meant_by, AllSound, Stands, process_msg-Stands,
}
use hft_backtester.MarketDataIngestor.{
  MarketDataIngestor, is_kept, window, book_over, new_ingestor, ingest, ingested,
  ingest_market_data, start_perf_tracking, end_perf_tracking,
}
use hft_backtester.MarketDataIngestor.Window.{Covers, Span, some_kept, initial-Span}

-- What is asked of a message, its price apart: its size is 32 bits, an order that is added has a new
-- id, and any other message has the side of the order under its id, if there is one.
pub record IsFair (table : Table) (m : Message) : Type 0 where
  pub size : m.size < 2 ^ 32
  pub fresh : m.action ≡ b'A' → table m.id ≡ none
  pub side : (e : Entry) → table m.id ≡ some e → e.side ≡ m.side

-- Each message is ignored by the book, or fair for the table that the messages before it leave.
abbrev pub AllFair : List Message → Table → Type 0
AllFair [] table = Unit
AllFair (m ∷ ms) table = (is_ignored m ≡ false → IsFair table m) × AllFair ms (meant m table)

-- The prices that the book does not ignore count for the window.
ignored_kept : (m : Message) → is_ignored m ≡ false → is_kept m ≡ true
ignored_kept m h = ground arith

AllSound-Covers :
    (lo hi : ℕ) (ms : List Message) (table : Table)
    → Covers lo hi ms
    → AllFair ms table
    → AllSound lo hi ms table
AllSound-Covers lo hi [] table c f = tt
AllSound-Covers lo hi (m ∷ ms) table (now, later) (fair, fairs) = (
  λ seen.
      let (above, below) = now (ignored_kept m seen) in
      let f = fair seen in
      record { above = above; below = below; size = f.size; fresh = f.fresh; side = f.side },
  AllSound-Covers lo hi ms (meant m table) later fairs,
)

-- The loop has taken `count` more messages: all of them, or `running_` was false before the next.
record Taken (sys : System) (lo hi : ℕ) (observe : ℕ → Bool) (k : ℕ) (ms : List Message)
    (table : Table) (r : Book × ℕ) : Type 0 where
  pub count : ℕ
  pub count_eq : r.1 ≡ k + count
  pub count_le : count ≤ length ms
  pub ends : (count ≡ length ms) ⊎ (observe r.1 ≡ false)
  pub stands : Stands sys lo hi (meant_by (take count ms) table) r.0

ingest-Taken :
    (sys : System)
    → IsSystem sys
    → (lo hi : ℕ) (observe : ℕ → Bool) (k : ℕ) (ms : List Message) (table : Table) (b : Book)
    → Stands sys lo hi table b
    → AllSound lo hi ms table
    → Returns (Taken sys lo hi observe k ms table) (ingest sys observe k ms b)
unfolding ingest
ingest-Taken sys ok lo hi observe k [] table b st sound = returns (record {
  count = 0;
  count_eq = omega arith;
  count_le = omega arith;
  ends = inl refl;
  stands = st;
})
ingest-Taken sys ok lo hi observe k (m ∷ ms) table b st (now, later) =
    elim (Bool-cases (observe k)) [
      | inl on ↦ rw on (
          Returns-bind (process_msg-Stands sys ok lo hi table b st m now) λ b' st'.
            Returns-mono (ingest-Taken sys ok lo hi observe (k + 1) ms (meant m table) b' st' later)
              λ r t.
                let count_eq = t.count_eq in
                let count_le = t.count_le in
                record {
                  count = suc t.count;
                  count_eq = omega arith;
                  count_le = omega arith;
                  ends = elim t.ends [ inl e ↦ inl (ap suc e) | inr off ↦ inr off ];
                  stands = t.stands;
                })
      | inr off ↦ rw off (
          returns (record {
            count = 0;
            count_eq = omega arith;
            count_le = omega arith;
            ends = inr off;
            stands = st;
          }))
    ]

-- What the thread leaves: the book stands for the messages that were processed, which are all or those
-- before `running_` was false.
pub record IsIngested (sys : System) (observe : ℕ → Bool) (ms : List Message)
    (g : MarketDataIngestor) : Type 0 where
  pub low : ℕ
  pub high : ℕ
  pub processed_le : g.messages_processed ≤ length ms
  pub ends : (g.messages_processed ≡ length ms) ⊎ (observe g.messages_processed ≡ false)
  pub stands : Stands sys low high (meant_by (take g.messages_processed ms) (λ _. none)) g.orderbook
  pub completed : g.completed ≡ true

book_over-Span :
    (sys : System) (a b : ℤ) (ms : List Message) (s : Span a b ms)
    → book_over sys (window a b ms) ≡ new_book sys s.low s.high
unfolding book_over
book_over-Span sys a b ms s = ap (book_over sys) s.window_eq

-- The thread of an ingestor whose book is empty.
thread-IsIngested :
    (sys : System)
    → IsSystem sys
    → (lo hi : ℕ) (observe : ℕ → Bool) (begin finish : ℕ) (g : MarketDataIngestor)
      (ms : List Message)
    → g.messages ≡ ms
    → Stands sys lo hi (λ _. none) g.orderbook
    → AllSound lo hi ms (λ _. none)
    → Returns (IsIngested sys observe ms) (ingest_market_data sys observe begin finish g)
unfolding ingest_market_data ingested start_perf_tracking end_perf_tracking
thread-IsIngested sys ok lo hi observe begin finish g ms e st sound = rw e (
    Returns-bind (ingest-Taken sys ok lo hi observe 0 ms (λ _. none) g.orderbook st sound) λ r t.
      let count_eq = t.count_eq in
      let same : t.count ≡ r.1 = omega arith in
      returns (record {
        low = lo;
        high = hi;
        processed_le = subst (λ n. n ≤ length ms) same t.count_le;
        ends = subst (λ n. (n ≡ length ms) ⊎ (observe r.1 ≡ false)) same t.ends;
        stands = subst (λ n. Stands sys lo hi (meant_by (take n ms) (λ _. none)) r.0) same t.stands;
        completed = refl;
      }))

-- When a price counts for the window, and the messages that the book does not ignore are fair, the
-- constructor and the thread succeed, whenever the thread is stopped, and the book stands for what the
-- messages that were processed mean: all of them, or those before `running_` was false.
pub ingest_market_data-IsIngested :
    (sys : System)
    → IsSystem sys
    → (observe : ℕ → Bool) (begin finish : ℕ) (ms : List Message) → some_kept ms ≡ true
    → AllFair ms (λ _. none)
    → Returns
        (IsIngested sys observe ms)
        (new_ingestor sys ms >>= ingest_market_data sys observe begin finish)
unfolding new_ingestor
ingest_market_data-IsIngested sys ok observe begin finish ms kept fair =
    let s = initial-Span ms kept in
    let ordered = s.ordered in
    let high_le = s.high_le in
    let made : Returns (λ g. (g.messages ≡ ms) × Stands sys s.low s.high (λ _. none) g.orderbook)
        (new_ingestor sys ms) =
      rw (book_over-Span sys (pos (2 ^ 31 - 1)) (negsuc (2 ^ 31 - 1)) ms s) (
        Returns-bind (new_book-IsNew sys ok s.low s.high (omega arith) (omega arith)) λ b n.
          returns (
            refl,
            record {
              ghost = n.ghost;
              book = n.book;
              entry_eq = n.entry_eq;
              min_eq = n.min_eq;
              max_eq = n.max_eq;
            },
          )) in
    Returns-bind made λ g (e, st).
      thread-IsIngested sys ok s.low s.high observe begin finish g ms e st
        (AllSound-Covers s.low s.high ms (λ _. none) s.covers fair)
