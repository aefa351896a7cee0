-- ===== src/Tests.antt =====
-- Runs of the definitions on concrete inputs, and the theorems applied to them.
mod Memory
mod Orders
mod Trades
mod Connections
mod Logs
mod Sessions
mod Queues
mod Files
use hft_backtester.Prelude.{ℕ, ◌+◌, ◌*◌, ◌≤◌, ◌≢◌, inl, inr, refl, dec_lt, arith}
use hft_backtester.Heap.{blank_order, blank_limit}
use hft_backtester.OrderPool.Carve
use hft_backtester.LimitPool.Fresh
use hft_backtester.Book.{System}
use hft_backtester.Book.Invariant.{IsSystem}

-- A system that hands out memory at rising addresses.
abbrev pub page_at : ℕ → ℕ
page_at k = 4096 * (k + 1)

abbrev pub node_at : ℕ → ℕ
node_at k = 64 * (k + 1)

abbrev pub rising : System
rising = record {
  page_at = page_at;
  node_at = node_at;
  fresh_page = λ n s. 0;
  orders = λ p. blank_order;
  limits = λ p. blank_limit;
}

pub page_at-IsAllocator : Carve.IsAllocator page_at
page_at-IsAllocator = record {
  nonnull = λ k. omega arith;
  apart = λ j k ne. elim (dec_lt j k) [
    | yes lt ↦ inl (omega (arith, lt))
    | no ge ↦ inr (omega (arith, ne))
  ];
}

pub node_at-IsAllocator : Fresh.IsAllocator node_at
node_at-IsAllocator = record { nonnull = λ k. omega arith; apart = λ j k e. omega (arith, e) }

pub rising-IsSystem : IsSystem rising
rising-IsSystem = record {
  pages = page_at-IsAllocator;
  nodes = node_at-IsAllocator;
  zeroed = λ n s. refl;
}
