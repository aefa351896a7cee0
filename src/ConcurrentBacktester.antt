-- ===== src/ConcurrentBacktester.antt =====
-- `ConcurrentBacktester` of include/concurrent_backtest.h and src/concurrent_backtest.cpp. The threads
-- share the connection pool and nothing of the backtests, so each stands for itself; printing is left out.
use hft_backtester.Prelude.{
  ℕ, Bool, true, false, Option, some, List, [], ◌∷◌, ◌==◌, if◌then◌else◌, ◌>>=◌,
}
use hft_backtester.Message.{Message}
use hft_backtester.Text.{Bytes}
use hft_backtester.Clock.{blank_cache, less}
use hft_backtester.Floats.{Floats}
use hft_backtester.Book.{System}
use hft_backtester.Stats.{Stats}
use hft_backtester.Strategy.{Strategy}
use hft_backtester.Backtester.{Backtester, new_backtester, create_strategy, set_trading_times}
use hft_backtester.Backtester.Session.{train_model, start_backtest}

-- `InstrumentConfig`, without its thread, which is never made.
pub record InstrumentConfig (F : Floats) : Type 0 where
  pub instrument_id : Bytes
  pub backtest_file : Bytes
  pub train_file : Bytes
  pub backtester : Backtester F

-- `es`
abbrev pub es : Bytes
es = b'e' ∷ b's' ∷ []

abbrev pub same_text : Bytes → Bytes → Bool
same_text s t = if less s t then false else if less t s then false else true

module _ (F : Floats) where
  -- A write of the map, whose keys stand in order.
  pub assign : InstrumentConfig F → List (InstrumentConfig F) → List (InstrumentConfig F)
  assign c [] = c ∷ []
  assign c (d ∷ ds) =
      let rest = assign c ds in
      if less c.instrument_id d.instrument_id
      then c ∷ d ∷ ds
      else if less d.instrument_id c.instrument_id
      then d ∷ rest
      else c ∷ ds

  -- The thread of an instrument is new when it runs its backtest: its static variables are blank.
  pub add_instrument :
      System
      → (blank : Stats F)
      → (instrument_id : Bytes) (messages train_messages : List Message)
        (backtest_file train_file : Bytes)
      → List (InstrumentConfig F)
      → Option (List (InstrumentConfig F))
  unfolding assign
  add_instrument sys blank instrument_id messages train_messages backtest_file train_file
        instruments =
      do
        bt ← new_backtester F sys blank blank_cache messages train_messages
        some (
            assign
              (record {
                instrument_id = instrument_id;
                backtest_file = backtest_file;
                train_file = train_file;
                backtester = bt;
              })
              instruments)

  -- What the thread of an instrument runs: `none` is an exception, which it catches, or undefined
  -- behaviour. `account` is what the constructor of `Strategy` leaves.
  pub run_instrument :
      System
      → (local_text : ℕ → Bytes) → (solve : List (List F.Real × F.Real) → List F.Real)
      → (account : Strategy F) → (observe : ℕ → Bool) → (strategy_index : ℕ) → InstrumentConfig F
      → Option (Backtester F)
  run_instrument sys local_text solve account observe strategy_index config = do
    created ←
        create_strategy F account (same_text config.instrument_id es) strategy_index
          config.backtester
    let timed : Backtester F = set_trading_times F config.backtest_file config.train_file created
    ready ← (if strategy_index == 1 then train_model F sys local_text solve timed else some timed)
    start_backtest F sys local_text observe ready

  -- The results of all of them, whichever thread ends first.
  pub start_backtest_all :
      System
      → (local_text : ℕ → Bytes) → (solve : List (List F.Real × F.Real) → List F.Real)
      → (account : Strategy F) → (observe : ℕ → Bool) → (strategy_index : ℕ)
      → List (InstrumentConfig F)
      → List (Option (Backtester F))
  unfolding run_instrument
  start_backtest_all sys local_text solve account observe strategy_index [] = []
  start_backtest_all sys local_text solve account observe strategy_index (config ∷ configs) =
      run_instrument sys local_text solve account observe strategy_index config
      ∷ start_backtest_all sys local_text solve account observe strategy_index configs
