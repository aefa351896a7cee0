-- ===== src/Book.antt =====
-- `Orderbook` of include/book/orderbook.h: the price levels of the two sides, the table of the
-- orders, and the best price of each side. Its statistics are in Stats.antt. `none` is an index out
-- of range of a vector: undefined behaviour.
pub mod Invariant
pub mod Window
pub mod Place
pub mod Entry
pub mod Lookup
pub mod Drop
pub mod Cancel
pub mod Resize
pub mod Modify
pub mod New
pub mod Process
pub mod Quote
pub mod Outside
pub mod Relink
pub mod Link
pub mod Unlink
pub mod Reslot
pub mod Best
pub mod Insert
pub mod Add
use hft_backtester.Prelude.{
  ℕ, zero, suc, ◌+◌, ◌-◌, Option, none, some, Bool, true, false, not, ◌||◌, ◌&&◌, ◌==◌, min,
  if◌then◌else◌, ltb, leb, add32, sub32, index_diff, ◌>>=◌, pos, pos_part, ltb_ℤ,
}
use hft_backtester.Heap.{Ptr, null, Order, Orders, Limits, put}
use hft_backtester.Message.{Message}
use hft_backtester.Limit
use hft_backtester.OrderPool
use hft_backtester.OrderPool.{OrderPool}
use hft_backtester.LimitPool
use hft_backtester.LimitPool.{LimitPool}
use hft_backtester.PageMap
use hft_backtester.PageMap.{PageMap, Page}

-- `bids_` with `best_bid_idx_`, or `asks_` with `best_ask_idx_`. Of `slot` the first RANGE_ count.
pub record Half : Type 0 where
  pub slot : ℕ → Ptr
  pub best : ℕ

-- Prices are int32_t that are not negative; `min`, `max` and `range` are MIN_, MAX_ and RANGE_.
pub record Book : Type 0 where
  pub min : ℕ
  pub max : ℕ
  pub range : ℕ
  pub bids : Half
  pub asks : Half
  pub order_lookup : PageMap
  pub order_pool : OrderPool
  pub limit_pool : LimitPool
  pub orders : Orders
  pub limits : Limits

-- What the system decides: the addresses and contents of the memory that it hands out.
pub record System : Type 0 where
  pub page_at : ℕ → ℕ
  pub node_at : ℕ → Ptr
  pub fresh_page : ℕ → Page
  pub orders : Orders
  pub limits : Limits

-- `true` is the bid side, as in the source's template parameter.
unfoldable pub half : Bool → Book → Half
half true b = b.bids
half false b = b.asks

pub set_half : Bool → Half → Book → Book
set_half s h b = record b { bids = if s then h else b.bids; asks = if s then b.asks else h }

-- `get_bid_idx` and `get_ask_idx`
pub index : Bool → Book → ℕ → ℕ
unfolding index_diff
index true b px = index_diff b.max px
index false b px = index_diff px b.min

-- `bids_[i]` or `asks_[i]`
unfoldable pub slot_at : Bool → Book → ℕ → Option Ptr
slot_at s b i = if ltb i b.range then some ((half s b).slot i) else none

pub set_slot : Bool → Book → ℕ → Ptr → Option Book
unfolding put
set_slot s b i l =
    if ltb i b.range
    then some (set_half s (record (half s b) { slot = put (half s b).slot i l }) b)
    else none

pub set_best : Bool → Book → ℕ → Book
set_best s b i = set_half s (record (half s b) { best = i }) b

-- The loop of `adjust_bbo`, with the rounds that are left at most.
pub skip : (ℕ → Ptr) → (range rounds best : ℕ) → ℕ
skip slot range zero best = best
skip slot range (suc k) best =
    let rest = skip slot range k (best + 1) in
    if ltb best range && (slot best == null) then rest else best

pub adjust_bbo : Bool → Book → Book
unfolding skip
adjust_bbo s b =
    set_best s b (skip (half s b).slot b.range (b.range - (half s b).best) (half s b).best)

-- `best_bid` and `best_ask`, from the index
pub best_price : Bool → Book → ℕ
best_price true b = if leb b.range b.bids.best then 0 else b.max - b.bids.best
best_price false b = if leb b.range b.asks.best then 0 else b.min + b.asks.best

-- `get_best_bid_price` and `get_best_ask_price`, from the level
unfoldable pub get_best_price : Bool → Book → ℕ
get_best_price s b =
    if ltb (half s b).best b.range && not ((half s b).slot (half s b).best == null)
    then (b.limits ((half s b).slot (half s b).best)).price
    else 0

module _ (sys : System) where
  -- `Orderbook(min_px, max_px)`; `none` is the `length_error` of a vector of negative size.
  pub new_book : ℕ → ℕ → Option Book
  new_book min_px max_px =
      if leb min_px (max_px + 1)
      then (let range : ℕ = max_px + 1 - min_px in
          some (record {
            min = min_px;
            max = max_px;
            range = range;
            bids = record { slot = λ _. null; best = range };
            asks = record { slot = λ _. null; best = range };
            order_lookup = PageMap.preallocate sys.fresh_page 1024;
            order_pool = OrderPool.empty_pool;
            limit_pool = LimitPool.empty_pool;
            orders = sys.orders;
            limits = sys.limits;
          }))
      else none

  pub get_or_insert_limit : Bool → ℕ → Book → Option (Ptr × Book)
  get_or_insert_limit s price b = do
    l ← slot_at s b (index s b price)
    if l == null
        then (let (new, ls, pool) = LimitPool.acquire sys.node_at b.limits b.limit_pool price s in
            do
              b' ← set_slot s (record b { limits = ls; limit_pool = pool }) (index s b price) new
              some (new, b'))
        else some (l, b)

  -- The part of `add_order` between the level and the best price: a new order at level `l`.
  pub link_order : Bool → ℕ → ℕ → ℕ → ℕ → Ptr → Book → Book
  unfolding put
  link_order s id price sz ts l b =
      let (new, pool) = OrderPool.get_order sys.page_at b.orders b.order_pool in
      let o1 : Orders = put b.orders new (record (b.orders new) {
        id = id;
        price = price;
        size = sz;
        side = s;
        unix_time = ts;
        parent = l;
      }) in
      let (o2, limit) = Limit.add_order o1 (b.limits l) new in
      record b {
        order_lookup = PageMap.insert sys.fresh_page b.order_lookup id new;
        order_pool = pool;
        orders = o2;
        limits = put b.limits l limit;
      }

  pub add_order : Bool → ℕ → ℕ → ℕ → ℕ → Book → Option Book
  add_order s id price sz ts b0 = do
    (l, b) ← get_or_insert_limit s price b0
    let b' : Book = link_order s id price sz ts l b
    some (set_best s b' (min (half s b').best (index s b' price)))

  -- The first part of `cancel_order`: order `t` leaves its level, the table and the memory in use.
  pub unlink_order : ℕ → Ptr → Book → Book
  unfolding put
  unlink_order id t b =
      let l : Ptr = (b.orders t).parent in
      let (o1, limit) = Limit.remove_order b.orders (b.limits l) t in
      let (o2, pool) = OrderPool.return_order o1 b.order_pool t in
      record b {
        order_lookup = PageMap.erase sys.fresh_page b.order_lookup id;
        order_pool = pool;
        orders = o2;
        limits = put b.limits l limit;
      }

  -- The last part of `cancel_order`, for a level that is empty: its slot, its memory, the best price.
  pub drop_limit : Bool → Ptr → Book → Option Book
  drop_limit s l b = do
    b' ← set_slot s b (index s b (b.limits l).price) null
    some (adjust_bbo s (record b' { limit_pool = LimitPool.release b'.limit_pool l }))

  -- The price and the size that are passed are not read.
  pub cancel_order : Bool → ℕ → Book → Option Book
  cancel_order s id b0 =
      let (t, lookup) = PageMap.find sys.fresh_page b0.order_lookup id in
      let b : Book = record b0 { order_lookup = lookup } in
      if t == null
      then some b
      else (let l : Ptr = (b.orders t).parent in
          let b1 : Book = unlink_order id t b in
          if Limit.is_empty (b1.limits l) then drop_limit s l b1 else some b1)

  pub modify_order : Bool → ℕ → ℕ → ℕ → ℕ → Book → Option Book
  unfolding put
  modify_order s id price sz ts b0 =
      let (t, lookup) = PageMap.find sys.fresh_page b0.order_lookup id in
      let b : Book = record b0 { order_lookup = lookup } in
      let o : Order = b.orders t in
      if t == null
      then add_order s id price sz ts b
      else if not (o.price == price) || ltb o.size sz
      then cancel_order s id b >>= add_order s id price sz ts
      else if ltb sz o.size
      then some (record b {
        limits = put b.limits o.parent (record (b.limits o.parent) {
          volume = add32 (b.limits o.parent).volume (sub32 sz o.size);
        });
        orders = put b.orders t (record o { size = sz; unix_time = ts });
      })
      else some (record b { orders = put b.orders t (record o { unix_time = ts }) })

  -- Only the bytes 'A', 'M' and 'C' act.
  pub process_msg : Message → Book → Option Book
  process_msg m b =
      if ltb_ℤ m.price (pos 100000) || ltb_ℤ (pos 800000) m.price
      then some b
      else if m.action == b'A'
      then add_order m.side m.id (pos_part m.price) m.size m.time b
      else if m.action == b'M'
      then modify_order m.side m.id (pos_part m.price) m.size m.time b
      else if m.action == b'C'
      then cancel_order m.side m.id b
      else some b
