-- ===== src/ConnectionPool.antt =====
-- `ConnectionPool` of include/connection_pool.h and src/connection_pool.cpp, as one thread runs it. A
-- connection is its index in `connections_`; `opens n` says whether the constructor of the n-th one
-- succeeds. `pool_mutex_` is kept as a flag: a thread that locks what it holds waits for itself.
pub mod Lease
pub mod Batch
pub mod Sharing
pub mod Growth
use hft_backtester.Prelude.{
  ℕ, zero, suc, ◌+◌, Bool, true, false, not, Option, none, some, List, [], ◌∷◌, ◌++◌, if◌then◌else◌,
  ltb, leb,
}
use hft_backtester.Heap.{put}

-- How a call ends: in a result, waiting for another thread, in a lock of its own, or in an exception.
pub data Ended (A : Type 0) : Type 0 where
  returned : A → Ended A
  waiting : Ended A
  deadlocked : Ended A
  thrown : Ended A

pub record Pool : Type 0 where
  pub available_connections : List ℕ
  pub in_use : ℕ → Bool
  pub max_size : ℕ
  pub current_size : ℕ
  pub shutdown : Bool
  pub locked : Bool

module _ (opens : ℕ → Bool) where
  pub add_connection : Pool → Ended (Bool × Pool)
  add_connection p =
      if leb p.max_size p.current_size
      then returned (false, p)
      else if not (opens p.current_size)
      then returned (false, p)
      else if p.locked
      then deadlocked
      else returned (
        true,
        record p {
          available_connections = p.available_connections ++ p.current_size ∷ [];
          current_size = p.current_size + 1;
        },
      )

  -- One round of the loop of the constructor; the exception of a connection that does not open.
  pub opened : Ended (Bool × Pool) → Ended Pool
  opened (returned (true, p)) = returned p
  opened (returned (false, p)) = thrown
  opened waiting = waiting
  opened deadlocked = deadlocked
  opened thrown = thrown

  pub open_all : ℕ → Ended Pool → Ended Pool
  unfolding opened
  open_all zero p = p
  open_all (suc n) (returned p) = open_all n (opened (add_connection p))
  open_all (suc n) waiting = waiting
  open_all (suc n) deadlocked = deadlocked
  open_all (suc n) thrown = thrown

  unfoldable pub new_pool : (initial_size max_size : ℕ) → Ended Pool
  unfolding open_all
  new_pool initial_size max_size = open_all initial_size (
      returned (record {
        available_connections = [];
        in_use = λ c. false;
        max_size = max_size;
        current_size = 0;
        shutdown = false;
        locked = false;
      }))

  -- The front of the queue is leased; `none` is `nullptr`.
  pub lease : List ℕ → Pool → Option ℕ × Pool
  lease [] p = (none, p)
  lease (c ∷ cs) p = (some c, record p { available_connections = cs; in_use = put p.in_use c true })

  -- The call of `add_connection` is made with the mutex held.
  pub after_add : Pool → Ended (Bool × Pool) → Ended (Option ℕ × Pool)
  unfolding lease
  after_add p (returned (true, p')) =
      returned (lease p'.available_connections (record p' { locked = false }))
  after_add p (returned (false, p')) = waiting
  after_add p waiting = waiting
  after_add p deadlocked = deadlocked
  after_add p thrown = thrown

  pub acquire_empty : Pool → Ended (Option ℕ × Pool)
  unfolding after_add add_connection
  acquire_empty p =
      if p.shutdown
      then returned (none, p)
      else if ltb p.current_size p.max_size
      then after_add p (add_connection (record p { locked = true }))
      else waiting

  pub acquire_from : List ℕ → Pool → Ended (Option ℕ × Pool)
  unfolding acquire_empty lease
  acquire_from [] p = acquire_empty p
  acquire_from (c ∷ cs) p = if p.shutdown then returned (none, p) else returned (lease (c ∷ cs) p)

  unfoldable pub acquire_connection : Pool → Ended (Option ℕ × Pool)
  unfolding acquire_from
  acquire_connection p = if p.locked then deadlocked else acquire_from p.available_connections p

pub release_connection : Option ℕ → Pool → Ended Pool
unfolding put
release_connection none p = returned p
release_connection (some c) p =
    if p.locked
    then deadlocked
    else returned (record p {
      available_connections = p.available_connections ++ c ∷ [];
      in_use = put p.in_use c false;
    })
