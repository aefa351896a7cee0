-- ===== src/Heap.antt =====
-- Orders and price levels in memory: `Order` of include/book/order.h, `Limit` of
-- include/book/limit.h, and the memory that holds the orders.
use hft_backtester.Prelude.{ℕ, ◌≡◌, ◌≢◌, Bool, true, false, ◌==◌, if◌then◌else◌, arith}

-- An address; 0 is `nullptr`.
abbrev pub Ptr : Type 0
Ptr = ℕ

abbrev pub null : Ptr
null = 0

-- The fields of `Order`. `filled_` is written by the constructors alone and is left out.
pub record Order : Type 0 where
  pub id : ℕ  -- uint64_t
  pub price : ℕ  -- int32_t, never negative in a book
  pub size : ℕ  -- uint32_t
  pub side : Bool
  pub unix_time : ℕ  -- uint64_t
  pub next : Ptr
  pub prev : Ptr
  pub parent : Ptr

-- `Limit`: a price level, the head and tail of its queue, and the bit pattern of `volume_`.
pub record Limit : Type 0 where
  pub price : ℕ
  pub volume : ℕ  -- int32_t, as its bit pattern
  pub head : Ptr
  pub tail : Ptr
  pub side : Bool

-- `Order()` and `Limit()`
abbrev pub blank_order : Order
blank_order = record {
  id = 0;
  price = 0;
  size = 0;
  side = true;
  unix_time = 0;
  next = null;
  prev = null;
  parent = null;
}

abbrev pub blank_limit : Limit
blank_limit = record { price = 0; volume = 0; head = null; tail = null; side = false }

abbrev pub Orders : Type 0
Orders = Ptr → Order

abbrev pub Limits : Type 0
Limits = Ptr → Limit

-- A write of one cell.
unfoldable pub put {ℓ} : {A : Type ℓ} → (Ptr → A) → Ptr → A → Ptr → A
put f p v q = if p == q then v else f q

pub put_self {ℓ} : {A : Type ℓ} (f : Ptr → A) (p : Ptr) (v : A) → put f p v p ≡ v
unfolding put
put_self f p v = ground arith

pub put_ne {ℓ} : {A : Type ℓ} (f : Ptr → A) (p : Ptr) (v : A) (q : Ptr) → p ≢ q → put f p v q ≡ f q
unfolding put
put_ne f p v q h = ground arith
