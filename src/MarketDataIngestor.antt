-- ===== src/MarketDataIngestor.antt =====
-- `MarketDataIngestor` of include/market_data_ingestor.h and src/market_data_ingestor.cpp, of which
-- src/market_data_injestor.cpp is a copy. What the thread of `ingest_market_data` reads of `running_`
-- before its `k`-th message is `observe k`; the clock is read at `begin` and `finish`.
pub mod Window
pub mod Ingest
pub mod Unkept
use hft_backtester.Prelude.{
  ℕ, ◌+◌, ◌-◌, ◌^◌, Bool, true, false, not, ◌&&◌, ◌||◌, Option, none, some, List, [], ◌∷◌, ltb,
  ◌==◌, if◌then◌else◌, ℤ, pos, negsuc, ltb_ℤ, ◌>>=◌,
}
use hft_backtester.Message.{Message}
use hft_backtester.Book.{Book, System, new_book, process_msg}

pub record MarketDataIngestor : Type 0 where
  pub orderbook : Book
  pub messages : List Message
  pub running : Bool
  pub completed : Bool
  pub joinable : Bool  -- whether injestor_thread_ is a thread
  pub messages_processed : ℕ
  pub start_time_ns : ℕ
  pub end_time_ns : ℕ

-- `std::min` and `std::max`
pub smaller : ℤ → ℤ → ℤ
smaller a b = if ltb_ℤ b a then b else a

pub larger : ℤ → ℤ → ℤ
larger a b = if ltb_ℤ a b then b else a

-- The prices that count for the window.
abbrev pub is_kept : Message → Bool
is_kept m = not (ltb_ℤ m.price (pos 99) || ltb_ℤ (pos 1000000) m.price)

-- The loop of the constructor.
pub window : ℤ → ℤ → List Message → ℤ × ℤ
unfolding smaller larger
window min_px max_px [] = (min_px, max_px)
window min_px max_px (m ∷ ms) =
    if is_kept m
    then window (smaller min_px m.price) (larger max_px m.price) ms
    else window min_px max_px ms

-- `Orderbook(min_px, max_px)` of a window, which never starts below 99. When it ends below zero the size
-- `MAX_ - MIN_ + 1` wraps to a positive one or is negative, which is the `length_error` of a vector; a
-- book keeps the bits of its end.
pub book_over : System → ℤ × ℤ → Option Book
book_over sys (pos min_px, pos max_px) = new_book sys min_px max_px
book_over sys (pos min_px, negsuc n) =
    if ltb (2 ^ 31) (min_px + n) then new_book sys min_px (2 ^ 32 - 1 - n) else none
book_over sys (negsuc n, max_px) = none

pub new_ingestor : System → List Message → Option MarketDataIngestor
unfolding window book_over
new_ingestor sys msgs = do
  book ← book_over sys (window (pos (2 ^ 31 - 1)) (negsuc (2 ^ 31 - 1)) msgs)
  some (record {
    orderbook = book;
    messages = msgs;
    running = false;
    completed = false;
    joinable = false;
    messages_processed = 0;
    start_time_ns = 0;
    end_time_ns = 0;
  })

-- `start`, up to the thread that it makes; `none` is the end of the program by the assignment to a
-- thread that was not joined.
pub start : MarketDataIngestor → Option MarketDataIngestor
start g =
    if g.running
    then some g
    else if g.joinable
    then none
    else some (record g { running = true; completed = false; joinable = true })

-- `stop`, once the thread has ended.
pub stop : MarketDataIngestor → MarketDataIngestor
stop g =
    if not g.running && not g.joinable then g else record g { running = false; joinable = false }

pub start_perf_tracking : ℕ → MarketDataIngestor → MarketDataIngestor
start_perf_tracking now g = record g { start_time_ns = now; messages_processed = 0 }

pub end_perf_tracking : ℕ → ℕ → MarketDataIngestor → MarketDataIngestor
end_perf_tracking now processed g = record g {
  end_time_ns = now;
  messages_processed = processed;
  completed = true;
}

-- The loop over the messages, with what it has processed so far.
pub ingest : System → (ℕ → Bool) → ℕ → List Message → Book → Option (Book × ℕ)
ingest sys observe processed [] b = some (b, processed)
ingest sys observe processed (m ∷ ms) b =
    if observe processed
    then (process_msg sys m b >>= λ b'. ingest sys observe (processed + 1) ms b')
    else some (b, processed)

-- What the end of the loop leaves.
pub ingested : ℕ → MarketDataIngestor → Book × ℕ → MarketDataIngestor
unfolding end_perf_tracking
ingested finish g (b, processed) = end_perf_tracking finish processed (record g { orderbook = b })

pub ingest_market_data :
    System → (ℕ → Bool) → (begin finish : ℕ) → MarketDataIngestor → Option MarketDataIngestor
unfolding ingest ingested start_perf_tracking
ingest_market_data sys observe begin finish g = ingest sys observe 0 g.messages g.orderbook >>= λ r.
    some (ingested finish (start_perf_tracking begin g) r)
