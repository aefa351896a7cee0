-- ===== src/Book/Invariant.antt =====
-- When a book is well formed: each level stands for a queue of orders, the table holds exactly the
-- orders of the queues, and the memory in use is apart from the free lists.
use hft_backtester.Prelude.{ℕ, ◌+◌, ◌-◌, ◌<◌, ◌≤◌, ◌^◌, ◌≡◌, ◌≢◌, List, [], Bool, true, false}
use hft_backtester.Heap.{Ptr, null}
use hft_backtester.Limit.Chain.{has, IsLimit}
use hft_backtester.OrderPool.Carve
use hft_backtester.LimitPool.Fresh
use hft_backtester.PageMap.View.{IsMap, IsZeroed, view}
use hft_backtester.Book.{Half, Book, System, half}

-- The documented behaviour of the system's memory.
pub record IsSystem (sys : System) : Type 0 where
  pub pages : Carve.IsAllocator sys.page_at
  pub nodes : Fresh.IsAllocator sys.node_at
  pub zeroed : IsZeroed sys.fresh_page

-- The queues that the levels stand for, by side and index, and the two free lists.
pub record Ghost : Type 0 where
  pub queue : Bool → ℕ → List Ptr
  pub free : List Ptr
  pub free_limits : List Ptr

-- The price of a level.
abbrev pub price_at : Bool → Book → ℕ → ℕ
price_at true b i = b.max - i
price_at false b i = b.min + i

pub record IsWindow (b : Book) : Type 0 where
  pub ordered : b.min ≤ b.max + 1
  pub small : b.max + 1 < 2 ^ 31
  pub range : b.range ≡ b.max + 1 - b.min

-- The level of a side at an index: a null slot stands for the empty queue, any other is a limit of
-- that price and side whose links stand for the queue.
pub record IsLevel (sys : System) (b : Book) (g : Ghost) (s : Bool) (i : ℕ) : Type 0 where
  pub empty : (half s b).slot i ≡ null → g.queue s i ≡ []
  pub limit :
      (half s b).slot i ≢ null → IsLimit b.orders (b.limits ((half s b).slot i)) (g.queue s i)
  pub price : (half s b).slot i ≢ null → (b.limits ((half s b).slot i)).price ≡ price_at s b i
  pub side : (half s b).slot i ≢ null → (b.limits ((half s b).slot i)).side ≡ s
  pub made :
      (half s b).slot i ≢ null → Fresh.IsMade sys.node_at b.limit_pool.made ((half s b).slot i)
  pub unused : (half s b).slot i ≢ null → has ((half s b).slot i) g.free_limits ≡ false

-- An order of a queue: it knows its level, and the table leads to it.
pub record IsResting (sys : System) (b : Book) (g : Ghost) (s : Bool) (i : ℕ) (p : Ptr)
    : Type 0 where
  pub parent : (b.orders p).parent ≡ (half s b).slot i
  pub price : (b.orders p).price ≡ price_at s b i
  pub side : (b.orders p).side ≡ s
  pub listed : view b.order_lookup (b.orders p).id ≡ p
  pub size : (b.orders p).size < 2 ^ 32
  pub issued : Carve.Issued sys.page_at b.order_pool p
  pub unused : has p g.free ≡ false

-- What the table leads to is in a queue of its side, under its id.
pub record IsFound (b : Book) (g : Ghost) (id : ℕ) : Type 0 where
  pub place : ℕ
  pub in_range : place < b.range
  pub mem :
      has (view b.order_lookup id) (g.queue (b.orders (view b.order_lookup id)).side place) ≡ true
  pub id_eq : (b.orders (view b.order_lookup id)).id ≡ id

-- All but the best prices, which allows for a level that is empty for the moment.
pub record IsCore (sys : System) (b : Book) (g : Ghost) : Type 0 where
  pub window : IsWindow b
  pub level : (s : Bool) (i : ℕ) → i < b.range → IsLevel sys b g s i
  pub order :
      (s : Bool) (i : ℕ) (p : Ptr)
      → i < b.range
      → has p (g.queue s i) ≡ true
      → IsResting sys b g s i p
  pub found : (id : ℕ) → view b.order_lookup id ≢ null → IsFound b g id
  pub map : IsMap b.order_lookup
  pub pool : Carve.IsPool sys.page_at b.orders b.order_pool g.free
  pub nodes : Fresh.IsPool sys.node_at b.limits b.limit_pool g.free_limits

-- The best index is the first that has a level; there is none at RANGE_.
pub record IsBest (h : Half) (range : ℕ) : Type 0 where
  pub bound : h.best ≤ range
  pub none_before : (i : ℕ) → i < h.best → h.slot i ≡ null
  pub some_at : h.best < range → h.slot h.best ≢ null

-- No level is empty.
abbrev pub IsFull : Book → Ghost → Type 0
IsFull b g = (s : Bool) (i : ℕ) → i < b.range → (half s b).slot i ≢ null → g.queue s i ≢ []

pub record IsBook (sys : System) (b : Book) (g : Ghost) : Type 0 where
  pub core : IsCore sys b g
  pub full : IsFull b g
  pub best : (s : Bool) → IsBest (half s b) b.range
