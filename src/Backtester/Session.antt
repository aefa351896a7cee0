-- ===== src/Backtester/Session.antt =====
-- The loops of `Backtester`: `train_model` and `run_backtest` of src/backtester.cpp.
pub mod Silent
use hft_backtester.Prelude.{
  ℕ, ◌+◌, Bool, true, false, not, Option, none, some, List, [], ◌∷◌, drop, ltb, ◌==◌, if◌then◌else◌,
  ℤ, pos, negsuc, ltb_ℤ, ◌-ℤ◌, ◌>>=◌,
}
use hft_backtester.Message.{Message}
use hft_backtester.Text.{Bytes}
use hft_backtester.Clock.{Cache, get_formatted_time_fast, parse_time, less}
use hft_backtester.Floats.{Floats}
use hft_backtester.Book.{Book, System, process_msg}
use hft_backtester.Stats
use hft_backtester.Stats.{Stats}
use hft_backtester.Backtester.{Backtester, Trader, on_book_update, close_positions, fit}

abbrev pub is_zero : ℤ → Bool
is_zero (pos n) = n == 0
is_zero (negsuc n) = false

-- `prev_seconds` once it is set.
abbrev pub since : (prev curr : ℤ) → ℤ
since prev curr = if is_zero prev then curr else prev

-- `curr_seconds - prev_seconds >= 1`
abbrev pub is_second : (prev curr : ℤ) → Bool
is_second prev curr = ltb_ℤ (pos 0) (curr -ℤ prev)

-- How a round of a loop ends.
pub data Round (A : Type 0) : Type 0 where
  going : (prev_seconds : ℤ) → A → Round A
  broken : A → Round A

module _ (F : Floats) (sys : System) (local_text : ℕ → Bytes) where
  -- The book takes a message and tells its time: as text and in seconds.
  pub told : Book × Stats F → Message → Cache → Option ((Book × Stats F) × ((Bytes × Cache) × ℤ))
  told (b, stats) m cache = do
    b' ← process_msg sys m b
    let now : Bytes × Cache = get_formatted_time_fast local_text b' cache
    seconds ← parse_time now.0
    some ((b', stats), (now, seconds))

  -- Every second from the start time on.
  pub update : Bytes → (curr prev : ℤ) → Book × Stats F → Backtester F → Option (ℤ × Backtester F)
  update time curr prev r bt =
      if less time bt.start_time
      then some (prev, record bt { book = some r })
      else if is_second (since prev curr) curr
      then (on_book_update F bt.trader r >>= λ s.
          some (curr, record bt { book = some s.0; trader = s.1 }))
      else some (since prev curr, record bt { book = some r })

  -- The positions are closed at the end time.
  pub closed : Bytes → Book → ℤ × Backtester F → Option (Round (Backtester F))
  closed time b (prev, bt) =
      if less time bt.end_time
      then some (going prev (record bt { current_message_index = bt.current_message_index + 1 }))
      else (close_positions F bt.trader b >>= λ t. some (broken (record bt { trader = t })))

  pub run_round : Message → ℤ → Backtester F → Option (Round (Backtester F))
  unfolding told update closed
  run_round m prev bt = do
    r ← bt.book
    t ← told r m bt.cache
    u ← update t.1.0.0 t.1.1 prev t.0 (record bt { cache = t.1.0.1 })
    closed t.1.0.0 t.0.0 u

  -- The loop over the messages that are left; `k` counts its rounds.
  pub rounds : (ℕ → Bool) → ℕ → List Message → Option (Round (Backtester F)) → Option (Backtester F)
  unfolding run_round
  rounds observe k ms none = none
  rounds observe k ms (some (broken bt)) = some bt
  rounds observe k [] (some (going prev bt)) = some bt
  rounds observe k (m ∷ ms) (some (going prev bt)) =
      let rest = rounds observe (k + 1) ms (run_round m prev bt) in
      if observe k then rest else some bt

  unfoldable pub run_backtest : (ℕ → Bool) → Backtester F → Option (Backtester F)
  unfolding rounds
  run_backtest observe bt =
      rounds observe 0 (drop bt.current_message_index bt.messages) (some (going (pos 0) bt))
      >>= λ bt'. some (record bt' { running = false })

  unfoldable pub start_backtest : (ℕ → Bool) → Backtester F → Option (Backtester F)
  unfolding run_backtest
  start_backtest observe bt =
      if bt.running then some bt else run_backtest observe (record bt { running = true })

  -- The order imbalance and the mid price, every second from the start time on.
  pub observed : Bytes → (curr prev : ℤ) → Book × Stats F → Backtester F → Option (ℤ × Backtester F)
  observed time curr prev (b, stats) bt =
      if less time bt.train_start_time
      then some (prev, record bt { train_book = some (b, stats) })
      else if is_second (since prev curr) curr
      then (Stats.calculate_voi F b stats >>= λ stats'.
          some (curr, record bt { train_book = some (b, Stats.add_mid_price F b stats') }))
      else some (since prev curr, record bt { train_book = some (b, stats) })

  pub counted : Bytes → ℤ × Backtester F → Round (Backtester F)
  counted time (prev, bt) =
      let bt' : Backtester F = record bt { train_message_index = bt.train_message_index + 1 } in
      if less time bt.train_end_time then going prev bt' else broken bt'

  pub train_round : Message → ℤ → Backtester F → Option (Round (Backtester F))
  unfolding told observed counted
  train_round m prev bt = do
    r ← bt.train_book
    t ← told r m bt.cache
    u ← observed t.1.0.0 t.1.1 prev t.0 (record bt { cache = t.1.0.1 })
    some (counted t.1.0.0 u)

  pub train_rounds : List Message → Option (Round (Backtester F)) → Option (Backtester F)
  unfolding train_round
  train_rounds ms none = none
  train_rounds ms (some (broken bt)) = some bt
  train_rounds [] (some (going prev bt)) = some bt
  train_rounds (m ∷ ms) (some (going prev bt)) = train_rounds ms (train_round m prev bt)

  -- The histories move to the book of the strategy, which is fitted to them if it asks for that.
  pub fitted : (List (List F.Real × F.Real) → List F.Real) → Backtester F → Option (Backtester F)
  fitted solve bt = do
    r ← bt.book
    t ← bt.train_book
    let stats : Stats F = record (r.1) {
      voi_history = (t.1).voi_history;
      mid_prices = (t.1).mid_prices;
    }
    let rest : Stats F = record (t.1) { voi_history = []; mid_prices = [] }
    trader ← fit F solve stats bt.trader
    some (record bt { book = some (r.0, stats); train_book = some (t.0, rest); trader = trader })

  unfoldable pub train_model :
      (List (List F.Real × F.Real) → List F.Real) → Backtester F → Option (Backtester F)
  unfolding train_rounds fitted
  train_model solve bt =
      train_rounds bt.train_messages (some (going (pos 0) (record bt { train_message_index = 0 })))
      >>= fitted solve
