-- ===== src/ConnectionPool/Batch.antt =====
-- Log lines that go through a pool: `send_trade_log_pool` and `batch_trade_logs` of
-- src/connection_pool.cpp. What a connection takes it puts in its own queue.
pub mod Sending
use hft_backtester.Prelude.{
  ℕ, Bool, true, false, Option, none, some, List, [], ◌∷◌, ◌++◌, length, leb, if◌then◌else◌,
}
use hft_backtester.Text.{Bytes}
use hft_backtester.ConnectionPool.{
  Ended, returned, waiting, deadlocked, thrown, Pool, acquire_connection, release_connection,
}

-- The pool, the lines that wait for a batch, and what was given to which connection.
pub record Batcher : Type 0 where
  pub pool : Pool
  pub log_buffer : List Bytes
  pub given : List (ℕ × Bytes)

abbrev pub batch_size : ℕ
batch_size = 1000

-- The lines as one text, each with its newline.
pub joined : List Bytes → Bytes
joined [] = []
joined (l ∷ ls) = l ++ b'\n' ∷ joined ls

-- The pool once the connection is back.
pub released : Batcher → Ended Pool → Ended Batcher
released st (returned p) = returned (record st { pool = p })
released st waiting = waiting
released st deadlocked = deadlocked
released st thrown = thrown

-- A connection that was asked for takes the text and is released; `after` are the lines that then wait.
pub give : Bytes → (after : List Bytes) → Batcher → Ended (Option ℕ × Pool) → Ended Batcher
unfolding released
give text after st (returned (none, p)) = returned (record st { pool = p })
give text after st (returned (some c, p)) =
    released (record st { log_buffer = after; given = st.given ++ (c, text) ∷ [] })
      (release_connection (some c) p)
give text after st waiting = waiting
give text after st deadlocked = deadlocked
give text after st thrown = thrown

module _ (opens : ℕ → Bool) where
  pub send_trade_log_pool : Bytes → Batcher → Ended Batcher
  unfolding give
  send_trade_log_pool line st = give line st.log_buffer st (acquire_connection opens st.pool)

  pub batch_trade_logs : List Bytes → Batcher → Ended Batcher
  unfolding give joined
  batch_trade_logs logs st =
      let buffered : Batcher = record st { log_buffer = st.log_buffer ++ logs } in
      if leb batch_size (length buffered.log_buffer)
      then give (joined buffered.log_buffer) [] buffered (acquire_connection opens st.pool)
      else returned buffered
