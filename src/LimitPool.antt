-- ===== src/LimitPool.antt =====
-- `LimitPool` of include/book/limit_pool.h: a free list of nodes, each a `Limit` and a link.
pub mod Fresh
use hft_backtester.Prelude.{ℕ, ◌+◌, Bool, ◌==◌, if◌then◌else◌}
use hft_backtester.Heap.{Ptr, null, Limits, blank_limit, put}

-- `free_`, the field `next` of every node, and the number of nodes made. A node has the address of
-- the limit in it.
pub record LimitPool : Type 0 where
  pub free : Ptr
  pub next : Ptr → Ptr
  pub made : ℕ

abbrev pub empty_pool : LimitPool
empty_pool = record { free = null; next = λ _. null; made = 0 }

-- The address that the n-th call of `posix_memalign` returns is the environment's choice.
module _ (node_at : ℕ → Ptr) where
  pub make_node : Limits → LimitPool → Ptr × Limits × LimitPool
  unfolding put
  make_node ls p =
      let n : Ptr = node_at p.made in
      (n, put ls n blank_limit, record p { next = put p.next n null; made = p.made + 1 })

  -- The head and the tail of a limit that is used again are not reset.
  pub acquire : Limits → LimitPool → ℕ → Bool → Ptr × Limits × LimitPool
  unfolding make_node put
  acquire ls p price side =
      let (node, ls1, p1) = (if p.free == null then make_node ls p else (p.free, ls, p)) in
      let p2 : LimitPool = (if p1.free == null then p1 else record p1 { free = p1.next node }) in
      (node, put ls1 node (record (ls1 node) { price = price; volume = 0; side = side }), p2)

pub release : LimitPool → Ptr → LimitPool
unfolding put
release p l = record p { next = put p.next l p.free; free = l }
