-- ===== src/Message.antt =====
-- `book_message` of include/message.h.
use hft_backtester.Prelude.{ℕ, ℤ, Bool}

-- `size_` is a `signed int` that is built from and read as a uint32_t: its bit pattern.
pub record Message : Type 0 where
  pub id : ℕ
  pub time : ℕ
  pub size : ℕ
  pub price : ℤ
  pub action : ℕ
  pub side : Bool
