-- ===== src/ConnectionPool/Batch/Sending.antt =====
-- A batch goes to one connection, and the connection comes back.
use hft_backtester.Prelude.{ℕ, ◌<◌, ◌≡◌, List, [], ◌∷◌, ◌++◌, length}
use hft_backtester.Text.{Bytes}
use hft_backtester.ConnectionPool.Lease.{IsPool}
use hft_backtester.ConnectionPool.Batch.{Batcher, batch_size, joined}

-- The texts that were given, one behind the other.
abbrev pub texts : List (ℕ × Bytes) → Bytes
texts [] = []
texts ((c, t) ∷ rest) = t ++ texts rest

-- All that was logged: what was given to connections, and what waits.
abbrev pub logged : Batcher → Bytes
logged st = texts st.given ++ joined st.log_buffer

-- The pool is well formed and has its size, the lines were added to what was logged, and what waits is
-- no batch.
pub record IsBatched (logs : List Bytes) (st st' : Batcher) : Type 0 where
  pub pool : IsPool st'.pool
  pub size_eq : st'.pool.current_size ≡ st.pool.current_size
  pub logged_eq : logged st' ≡ logged st ++ joined logs
  pub waiting_lt : length st'.log_buffer < batch_size
