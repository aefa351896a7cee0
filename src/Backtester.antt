-- ===== src/Backtester.antt =====
-- `Backtester` of include/backtester.h and src/backtester.cpp. `none` is an exception or undefined
-- behaviour. What the loop reads of `running_` before its `k`-th message is `observe k`.
pub mod Dates
pub mod Session
use hft_backtester.Prelude.{
  ℕ, ◌+◌, Bool, true, false, not, Option, none, some, List, [], ◌∷◌, ◌++◌, length, take, drop, ltb,
  leb, ◌==◌, if◌then◌else◌, ℤ, pos, negsuc, ltb_ℤ, ◌-ℤ◌, ◌>>=◌,
}
use hft_backtester.Message.{Message}
use hft_backtester.Text.{Bytes}
use hft_backtester.Clock.{Cache, get_formatted_time_fast, parse_time, less}
use hft_backtester.Floats.{Floats}
use hft_backtester.Book.{Book, System, new_book, process_msg}
use hft_backtester.Stats
use hft_backtester.Stats.{Stats}
use hft_backtester.Strategy
use hft_backtester.Strategy.{Strategy}
use hft_backtester.Linear
use hft_backtester.Linear.{Model}

-- A `std::string` of the dates: `2024-mm-dd`, of a name `__mmdd…`; empty if the name is too short.
pub extract_date : Bytes → Bytes
extract_date name =
    if ltb (length name) 8
    then []
    else b'2' ∷ b'0' ∷ b'2' ∷ b'4' ∷ b'-' ∷ (take 2 (drop 2 name) ++ b'-' ∷ take 2 (drop 4 name))

-- ` 09:30:00.000` and ` 16:00:00.000`
abbrev pub opening : Bytes
opening =
    b' ' ∷ b'0' ∷ b'9' ∷ b':' ∷ b'3' ∷ b'0' ∷ b':' ∷ b'0' ∷ b'0' ∷ b'.' ∷ b'0' ∷ b'0' ∷ b'0' ∷ []

abbrev pub closing : Bytes
closing =
    b' ' ∷ b'1' ∷ b'6' ∷ b':' ∷ b'0' ∷ b'0' ∷ b':' ∷ b'0' ∷ b'0' ∷ b'.' ∷ b'0' ∷ b'0' ∷ b'0' ∷ []

module _ (F : Floats) where
  -- The two classes of strategies; `null_strategy` is `nullptr`.
  pub data Trader : Type 0 where
    null_strategy : Trader
    imbalance : Strategy F → Trader
    linear : Model F → Trader

  -- A book with its statistics; the pointers are null after `reset_state`.
  pub record Backtester : Type 0 where
    pub book : Option (Book × Stats F)
    pub train_book : Option (Book × Stats F)
    pub trader : Trader
    pub running : Bool
    pub messages : List Message
    pub train_messages : List Message
    pub current_message_index : ℕ
    pub train_message_index : ℕ
    pub start_time : Bytes
    pub end_time : Bytes
    pub train_start_time : Bytes
    pub train_end_time : Bytes
    pub cache : Cache  -- the static variables of its thread

  -- `blank` is what the constructor of `Orderbook` makes of the statistics.
  pub new_backtester :
      System → Stats F → Cache → (messages train_messages : List Message) → Option Backtester
  new_backtester sys blank cache messages train_messages = do
    book ← new_book sys 100 7000000
    train_book ← new_book sys 100 7000000
    some (record {
      book = some (book, blank);
      train_book = some (train_book, blank);
      trader = null_strategy;
      running = false;
      messages = messages;
      train_messages = train_messages;
      current_message_index = 0;
      train_message_index = 0;
      start_time = [];
      end_time = [];
      train_start_time = [];
      train_end_time = [];
      cache = cache;
    })

  -- `account` is what the constructor of `Strategy` leaves.
  unfoldable pub create_strategy :
      (account : Strategy F) (is_es : Bool) → ℕ → Backtester → Option Backtester
  create_strategy account is_es index bt =
      if index == 0
      then some (record bt { trader = imbalance account })
      else if index == 1
      then some (record bt { trader = linear (Linear.new_model F is_es account) })
      else none

  pub set_trading_times : (backtest_file train_file : Bytes) → Backtester → Backtester
  unfolding extract_date
  set_trading_times backtest_file train_file bt =
      let date : Bytes = extract_date backtest_file in
      let train_date : Bytes = extract_date train_file in
      let set : Backtester =
        if length date == 0
        then bt
        else record bt { start_time = date ++ opening; end_time = date ++ closing } in
      if length train_file == 0 then set else if length train_date == 0 then set else record set {
        train_start_time = train_date ++ opening;
        train_end_time = train_date ++ closing;
      }

  pub on_book_update : Trader → Book × Stats F → Option ((Book × Stats F) × Trader)
  on_book_update null_strategy r = none
  on_book_update (imbalance st) (b, stats) =
      let (stats', st') = Strategy.on_book_update F b (stats, st) in
      some ((b, stats'), imbalance st')
  on_book_update (linear m) (b, stats) =
      Linear.on_book_update F b (stats, m) >>= λ r. some ((b, r.0), linear r.1)

  pub close_positions : Trader → Book → Option Trader
  close_positions null_strategy b = none
  close_positions (imbalance st) b = some (imbalance (Strategy.close_positions F b st))
  close_positions (linear m) b = some (linear (Linear.close_positions F b m))

  pub stop_backtest : Backtester → Backtester
  stop_backtest bt = record bt { running = false }

  -- `requires_fitting` and `fit_model`
  pub fit : (solve : List (List F.Real × F.Real) → List F.Real) → Stats F → Trader → Option Trader
  fit solve stats null_strategy = none
  fit solve stats (imbalance st) = some (imbalance st)
  fit solve stats (linear m) = Linear.fit_model F solve stats m >>= λ m'. some (linear m')

  pub reset : Trader → Trader
  reset null_strategy = null_strategy
  reset (imbalance st) = imbalance (Strategy.reset F st)
  reset (linear m) = linear (Linear.reset F m)

  pub reset_state : Backtester → Backtester
  unfolding reset
  reset_state bt = record bt {
    running = false;
    current_message_index = 0;
    train_message_index = 0;
    book = none;
    train_book = none;
    trader = reset bt.trader;
  }
