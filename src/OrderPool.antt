-- ===== src/OrderPool.antt =====
-- `OrderPool` of include/book/order_pool.h: orders are carved off pages of 4096 bytes, and returned
-- orders are chained through their `next_` into a free list that is served first.
pub mod Carve
pub mod Fresh
use hft_backtester.Prelude.{ℕ, ◌+◌, ◌==◌, if◌then◌else◌}
use hft_backtester.Heap.{Ptr, null, Orders, put}

-- `pages_` by its size: its contents serve the destructor alone.
pub record OrderPool : Type 0 where
  pub pages : ℕ
  pub freelist : Ptr
  pub curr : ℕ
  pub end : ℕ

abbrev pub page_size : ℕ
page_size = 4096

-- `sizeof(Order)`: eight words of eight bytes with their padding.
abbrev pub order_size : ℕ
order_size = 64

abbrev pub empty_pool : OrderPool
empty_pool = record { pages = 0; freelist = null; curr = null; end = null }

-- The address that the n-th call of `aligned_alloc` returns is the environment's choice.
module _ (page_at : ℕ → ℕ) where
  pub alloc_page : OrderPool → OrderPool
  alloc_page p = record p {
    pages = p.pages + 1;
    curr = page_at p.pages;
    end = page_at p.pages + page_size;
  }

  pub get_order : Orders → OrderPool → Ptr × OrderPool
  unfolding alloc_page
  get_order o p =
      if p.freelist == null
      then (let p' : OrderPool = (if p.curr == p.end then alloc_page p else p) in
          (p'.curr, record p' { curr = p'.curr + order_size }))
      else (p.freelist, record p { freelist = (o p.freelist).next })

pub return_order : Orders → OrderPool → Ptr → Orders × OrderPool
unfolding put
return_order o p t =
    (put o t (record (o t) { next = p.freelist; prev = null }), record p { freelist = t })
