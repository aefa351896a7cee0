-- ===== src/Tests/Sessions.antt =====
-- A backtester with one message to run and one to train on.
use hft_backtester.Prelude.{◌≡◌, refl, pos, true, false, some, none, [], ◌∷◌}
use hft_backtester.Message.{Message}
use hft_backtester.Text.{Bytes}
use hft_backtester.Clock.{blank_cache}
use hft_backtester.Backtester.{Backtester, null_strategy, set_trading_times}
use hft_backtester.Backtester.Dates.{IsDay, set_trading_times-IsTimed}
use hft_backtester.Backtester.Session.{run_backtest, train_model}
use hft_backtester.Backtester.Session.Silent.{run_backtest-undefined}
use hft_backtester.Tests.{rising}
use hft_backtester.Tests.Trades.{whole, book, stats}

abbrev bid : Message
bid = record { id = 7; time = 99; size = 10; price = pos 100005; action = b'A'; side = true }

abbrev idle : Backtester whole
idle = record {
  book = some (book, stats);
  train_book = some (book, stats);
  trader = null_strategy;
  running = false;
  messages = bid ∷ [];
  train_messages = bid ∷ [];
  current_message_index = 0;
  train_message_index = 0;
  start_time = [];
  end_time = [];
  train_start_time = [];
  train_end_time = [];
  cache = blank_cache;
}

-- `es0805.c`
abbrev name : Bytes
name = b'e' ∷ b's' ∷ b'0' ∷ b'8' ∷ b'0' ∷ b'5' ∷ b'.' ∷ b'c' ∷ []

run_backtest-undefined_example :
    (run_backtest whole rising (λ second. name) (λ k. true) idle ≡ none)
    × (train_model whole rising (λ second. name) (λ rows. []) idle ≡ none)
run_backtest-undefined_example =
    run_backtest-undefined whole rising (λ second. name) (λ k. true) (λ rows. []) idle bid bid [] []
      refl refl refl refl

-- `es0801.c`
abbrev train_name : Bytes
train_name = b'e' ∷ b's' ∷ b'0' ∷ b'8' ∷ b'0' ∷ b'1' ∷ b'.' ∷ b'c' ∷ []

set_trading_times-IsTimed_example :
    let bt = set_trading_times whole name train_name idle in
    IsDay name bt.start_time bt.end_time × IsDay train_name bt.train_start_time bt.train_end_time
set_trading_times-IsTimed_example = set_trading_times-IsTimed whole name train_name idle
