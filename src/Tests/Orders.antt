-- ===== src/Tests/Orders.antt =====
-- The order book: a stream of messages, and single operations on a new book and on a book of one order.
use hft_backtester.Prelude.{
  ltb, ℕ, ◌≡◌, ◌≢◌, inr, refl, sym, ◌∙◌, List, [], ◌∷◌, true, false, Option, none, arith, pos,
  if◌then◌else◌, ◌==◌, false≢true, Returns, returns, ◌>>=◌,
}
use hft_backtester.Heap.{null}
use hft_backtester.Message.{Message}
use hft_backtester.PageMap.View.{view}
use hft_backtester.Book.{Book, new_book, add_order, cancel_order, modify_order, process_msg, skip}
use hft_backtester.Book.Invariant.{IsBook, IsBest}
use hft_backtester.Book.Best.{skip-IsBest}
use hft_backtester.Book.Entry.{entry-some, entry-null}
use hft_backtester.Book.Add.{IsAdded, add_order-IsAdded}
use hft_backtester.Book.Cancel.{IsCancelled, cancel_order-IsCancelled}
use hft_backtester.Book.Modify.{IsModified, modify_order-IsModified}
use hft_backtester.Book.New.{IsNew, no_orders, built, built-IsBook, built-empty, new_book-IsNew}
use hft_backtester.Book.Process.{
  Table, Stands, AllSound, meant, meant_by, process_msg-Stands, replay, replay-Stands,
}
use hft_backtester.Book.Outside.{process_msg-outside}
use hft_backtester.MarketDataIngestor.{new_ingestor, ingest_market_data}
use hft_backtester.MarketDataIngestor.Ingest.{AllFair, IsIngested, ingest_market_data-IsIngested}
use hft_backtester.MarketDataIngestor.Unkept.{IsInert, ingest_market_data-IsInert}
use hft_backtester.Tests.{rising, rising-IsSystem}

-- What a run that returns leaves.
outcome : {P : Book → Type 0} {m : Option Book} → Returns P m → (b : Book) × P b
outcome (returns p) = (_, p)

-- a new book for the prices from 100000 to 100010
abbrev fresh : Book
fresh = built rising rising-IsSystem 100000 100010 (omega arith) (omega arith)

fresh-IsBook : IsBook rising fresh no_orders
fresh-IsBook = built-IsBook rising rising-IsSystem 100000 100010 (omega arith) (omega arith)

fresh-empty : (k : ℕ) → view fresh.order_lookup k ≡ null
fresh-empty = built-empty rising rising-IsSystem 100000 100010 (omega arith) (omega arith)

-- A bid of 10 at 100005 is added under 7.
add_order-IsAdded_example :
    Returns
      (IsAdded rising fresh no_orders true 7 100005 10 99)
      (add_order rising true 7 100005 10 99 fresh)
add_order-IsAdded_example =
    add_order-IsAdded rising rising-IsSystem fresh no_orders fresh-IsBook true 7 100005 10 99
      (omega arith) (omega arith) (omega arith) (fresh-empty 7)

added : (b : Book) × IsAdded rising fresh no_orders true 7 100005 10 99 b
added = outcome (
    add_order-IsAdded rising rising-IsSystem fresh no_orders fresh-IsBook true 7 100005 10 99
      (omega arith) (omega arith) (omega arith) (fresh-empty 7))

-- the book with that bid
abbrev one : Book
one = added.0

one-side : view one.order_lookup 7 ≢ null → (one.orders (view one.order_lookup 7)).side ≡ true
one-side ne =
    let seen = sym (entry-some one 7 (view one.order_lookup 7) refl ne) ∙ added.1.entry_eq 7 in
    cc seen

-- The bid is cancelled.
cancel_order-IsCancelled_example :
    Returns (IsCancelled rising one added.1.ghost 7) (cancel_order rising true 7 one)
cancel_order-IsCancelled_example =
    cancel_order-IsCancelled rising rising-IsSystem one added.1.ghost added.1.book true 7 one-side

-- The bid keeps its price and shrinks to 4.
modify_order-IsModified_example :
    Returns
      (IsModified rising one added.1.ghost true 7 100005 4 120)
      (modify_order rising true 7 100005 4 120 one)
modify_order-IsModified_example =
    modify_order-IsModified rising rising-IsSystem one added.1.ghost added.1.book true 7 100005 4
      120 (rw (added.1.min_eq) (omega arith)) (rw (added.1.max_eq) (omega arith)) (omega arith)
      one-side

new_book-IsNew_example : Returns (IsNew rising 100000 100010) (new_book rising 100000 100010)
new_book-IsNew_example =
    new_book-IsNew rising rising-IsSystem 100000 100010 (omega arith) (omega arith)

-- The only level stands at 3 of 5.
skip-IsBest_example :
    IsBest
      (record {
        slot = λ j. if j == 3 then 64 else 0;
        best = skip (λ j. if j == 3 then 64 else 0) 5 4 1;
      })
      5
skip-IsBest_example =
    skip-IsBest (λ j. if j == 3 then 64 else 0) 5 4 1 (omega arith) (omega arith)
      (λ j lt. ground arith)

abbrev add_bid : Message
add_bid = record { id = 7; time = 99; size = 10; price = pos 100005; action = b'A'; side = true }

abbrev add_ask : Message
add_ask = record { id = 8; time = 100; size = 3; price = pos 100007; action = b'A'; side = false }

abbrev grow_bid : Message
grow_bid = record { id = 7; time = 101; size = 12; price = pos 100006; action = b'M'; side = true }

abbrev cancel_ask : Message
cancel_ask = record {
  id = 8;
  time = 102;
  size = 0;
  price = pos 100007;
  action = b'C';
  side = false;
}

abbrev too_low : Message
too_low = record { id = 9; time = 103; size = 1; price = pos 5; action = b'A'; side = false }

abbrev stream : List Message
stream = add_bid ∷ add_ask ∷ grow_bid ∷ cancel_ask ∷ too_low ∷ []

abbrev empty : Table
empty k = none

abbrev seen_by : List Message → Table
seen_by ms = meant_by ms empty

stream-AllSound : AllSound 100000 100010 stream empty
stream-AllSound = (
  λ _. record {
    above = omega arith;
    below = omega arith;
    size = omega arith;
    fresh = λ _. refl;
    side = λ e h. cc h;
  },
  (
    λ _. record {
      above = omega arith;
      below = omega arith;
      size = omega arith;
      fresh = λ _. refl;
      side = λ e h. cc h;
    },
    (
      λ _. record {
        above = omega arith;
        below = omega arith;
        size = omega arith;
        fresh = λ h. absurd (ground (arith, h));
        side = λ e h. cc h;
      },
      (
        λ _. record {
          above = omega arith;
          below = omega arith;
          size = omega arith;
          fresh = λ h. absurd (ground (arith, h));
          side = λ e h. cc h;
        },
        (λ h. absurd (false≢true (sym h)), tt),
      ),
    ),
  ),
)

-- Two orders are added, the first is moved, the second is cancelled, and a price is ignored.
replay-Stands_example :
    Returns
      (Stands rising 100000 100010 (meant_by stream empty))
      (new_book rising 100000 100010 >>= replay rising stream)
replay-Stands_example =
    replay-Stands rising rising-IsSystem 100000 100010 (omega arith) (omega arith) stream
      stream-AllSound

start : Stands rising 100000 100010 empty fresh
start = record {
  ghost = no_orders;
  book = fresh-IsBook;
  entry_eq = λ k. entry-null fresh k (fresh-empty k);
  min_eq = refl;
  max_eq = refl;
}

-- The first message of the stream.
process_msg-Stands_example :
    Returns (Stands rising 100000 100010 (meant add_bid empty)) (process_msg rising add_bid fresh)
process_msg-Stands_example =
    process_msg-Stands rising rising-IsSystem 100000 100010 empty fresh start add_bid (λ _. record {
      above = omega arith;
      below = omega arith;
      size = omega arith;
      fresh = λ _. refl;
      side = λ e h. cc h;
    })

abbrev add_far : Message
add_far = record { id = 7; time = 99; size = 10; price = pos 300000; action = b'A'; side = true }

-- 300000 passes the test of `process_msg` and is above the window.
process_msg-outside_example : process_msg rising add_far fresh ≡ none
process_msg-outside_example =
    process_msg-outside rising fresh add_far 300000 fresh-IsBook.core.window refl (omega arith)
      (omega arith) (inr (omega arith)) refl

stream-AllFair : AllFair stream empty
stream-AllFair = (
  λ _. record { size = omega arith; fresh = λ _. refl; side = λ e h. cc h },
  (
    λ _. record { size = omega arith; fresh = λ _. refl; side = λ e h. cc h },
    (
      λ _. record {
        size = omega arith;
        fresh = λ h. absurd (ground (arith, h));
        side = λ e h. cc h;
      },
      (
        λ _. record {
          size = omega arith;
          fresh = λ h. absurd (ground (arith, h));
          side = λ e h. cc h;
        },
        (λ h. absurd (false≢true (sym h)), tt),
      ),
    ),
  ),
)

-- The thread is stopped after three messages.
ingest_market_data-IsIngested_example :
    Returns
      (IsIngested rising (λ k. ltb k 3) stream)
      (new_ingestor rising stream >>= ingest_market_data rising (λ k. ltb k 3) 0 9)
ingest_market_data-IsIngested_example =
    ingest_market_data-IsIngested rising rising-IsSystem (λ k. ltb k 3) 0 9 stream refl
      stream-AllFair

ingest_market_data-IsInert_example :
    Returns
      (IsInert rising (λ k. true) (too_low ∷ too_low ∷ []))
      (new_ingestor rising (too_low ∷ too_low ∷ []) >>= ingest_market_data rising (λ k. true) 0 9)
ingest_market_data-IsInert_example =
    ingest_market_data-IsInert rising (λ k. true) 0 9 (too_low ∷ too_low ∷ []) refl
