-- ===== src/Tests/Connections.antt =====
-- The connection pool.
use hft_backtester.Prelude.{ℕ, ◌≡◌, refl, Bool, true, false, some, [], ◌∷◌, ◌==◌, arith}
use hft_backtester.Heap.{put}
use hft_backtester.ConnectionPool.{returned, Pool, new_pool, acquire_connection}
use hft_backtester.ConnectionPool.Growth.{Reach, made, acquired, IsFixed, Reach-IsFixed}
use hft_backtester.ConnectionPool.Batch.{Batcher}
use hft_backtester.ConnectionPool.Lease.{IsPool, IsLeased, acquire_connection-IsLeased}

abbrev opens : ℕ → Bool
opens n = true

-- two connections of four, the second in use
abbrev two : Pool
two = record {
  available_connections = 0 ∷ [];
  in_use = λ c. c == 1;
  max_size = 4;
  current_size = 2;
  shutdown = false;
  locked = false;
}

two-IsPool : IsPool two
two-IsPool = record {
  distinct = (refl, tt);
  ready = λ c m. let z : c ≡ 0 = ground arith in rw z (omega arith, refl);
  unlocked = refl;
}

acquire_connection-IsLeased_example :
    (p' : Pool) × (acquire_connection opens two ≡ returned (some 0, p')) × IsLeased two 0 p'
acquire_connection-IsLeased_example =
    acquire_connection-IsLeased opens two 0 [] two-IsPool refl refl

-- two connections of four, both in use
abbrev leased : Pool
leased = record two { available_connections = []; in_use = put (put (λ c. false) 0 true) 1 true }

leased-Reach : Reach opens 2 4 leased
unfolding new_pool acquire_connection
leased-Reach = acquired (acquired (made refl) refl) refl

Reach-IsFixed_example : IsFixed opens 2 4 leased
Reach-IsFixed_example = Reach-IsFixed opens 2 4 leased leased-Reach

abbrev one_waits : Batcher
one_waits = record { pool = two; log_buffer = (b'a' ∷ []) ∷ []; given = [] }
