-- ===== src/Tests/Memory.antt =====
-- The pools, the table and the price level.
use hft_backtester.Prelude.{ℕ, ◌≡◌, refl, [], ◌∷◌, true, false, ◌==◌, if◌then◌else◌, arith}
use hft_backtester.Heap.{Ptr, null, Limit, Orders, Limits, blank_order, blank_limit}
use hft_backtester.Limit
use hft_backtester.Limit.Chain.{IsLimit, without}
use hft_backtester.Limit.Add.{add_order-IsLimit}
use hft_backtester.Limit.Remove.{remove_order-IsLimit}
use hft_backtester.OrderPool
use hft_backtester.OrderPool.{OrderPool}
use hft_backtester.OrderPool.Carve
use hft_backtester.OrderPool.Fresh.{get_order-IsFresh}
use hft_backtester.LimitPool.{LimitPool, acquire}
use hft_backtester.LimitPool.Fresh
use hft_backtester.PageMap
use hft_backtester.PageMap.View.{IsMap, view}
use hft_backtester.PageMap.Steps.{Keeps}
use hft_backtester.PageMap.Laws.{find-view, insert-view, preallocate-view}
use hft_backtester.Tests.{page_at, node_at, page_at-IsAllocator, node_at-IsAllocator}

-- orders 64 and 128 in a queue, order 192 in none
abbrev orders : Orders
orders p =
    if p == 64
    then record blank_order { id = 1; size = 5; next = 128 }
    else if p == 128
    then record blank_order { id = 2; size = 7; prev = 64 }
    else record blank_order { id = 3; size = 9 }

abbrev level : Limit
level = record { price = 100005; volume = 12; head = 64; tail = 128; side = true }

level-IsLimit : IsLimit orders level (64 ∷ 128 ∷ [])
level-IsLimit = record {
  chain = (refl, omega arith, refl, refl, (refl, omega arith, refl, refl, (refl, refl)));
  volume = refl;
}

-- Order 192 joins the two.
add_order-IsLimit_example :
    let (o', l') = Limit.add_order orders level 192 in IsLimit o' l' (64 ∷ 128 ∷ 192 ∷ [])
add_order-IsLimit_example =
    add_order-IsLimit orders level 192 (64 ∷ 128 ∷ []) (omega arith) refl level-IsLimit

-- The older order leaves.
remove_order-IsLimit_example :
    let (o', l') = Limit.remove_order orders level 64 in IsLimit o' l' (without 64 (64 ∷ 128 ∷ []))
remove_order-IsLimit_example =
    remove_order-IsLimit orders level 64 (64 ∷ 128 ∷ []) refl (omega arith) level-IsLimit

-- one page, of which two orders are handed out and the first was returned
abbrev pool : OrderPool
pool = record { pages = 1; freelist = 4096; curr = 4224; end = 8192 }

abbrev pool_orders : Orders
pool_orders p = blank_order

first-IsHanded : Carve.IsHanded page_at 1 4224 4096
first-IsHanded = record {
  page = 0;
  place = 0;
  on_page = omega arith;
  in_page = omega arith;
  address = refl;
  carved = λ _. omega arith;
}

second-IsHanded : Carve.IsHanded page_at 1 4224 4160
second-IsHanded = record {
  page = 0;
  place = 1;
  on_page = omega arith;
  in_page = omega arith;
  address = refl;
  carved = λ _. omega arith;
}

pool-IsPool : Carve.IsPool page_at pool_orders pool (4096 ∷ [])
pool-IsPool = record {
  carving = record {
    done = 2;
    done-le = omega arith;
    none_yet = λ e. absurd (omega (arith, e));
    last = λ k e. let z : k ≡ 0 = omega (arith, e) in rw z (refl, refl);
  };
  chain = (refl, omega arith, refl, refl);
  issued = λ q m. let z : q ≡ 4096 = ground arith in rw z first-IsHanded;
}

-- The returned order is served first.
get_order-IsFresh_example :
    let (a, p') = OrderPool.get_order page_at pool_orders pool in
    Carve.IsFresh page_at pool_orders pool (4096 ∷ []) a p'
get_order-IsFresh_example =
    get_order-IsFresh page_at page_at-IsAllocator pool_orders pool (4096 ∷ []) pool-IsPool

-- two limits made, the second of them free
abbrev nodes : LimitPool
nodes = record { free = 128; next = λ p. null; made = 2 }

abbrev limits : Limits
limits p = blank_limit

nodes-IsPool : Fresh.IsPool node_at limits nodes (128 ∷ [])
nodes-IsPool = record {
  chain = (refl, omega arith, refl, refl);
  made = λ q m.
      let z : q ≡ 128 = ground arith in
      rw z (record { node = 1; before = omega arith; address = refl });
  blank = λ q m. (refl, refl);
}

-- The free limit is served.
acquire-IsFresh_example :
    let (a, ls', p') = acquire node_at limits nodes 100007 false in
    Fresh.IsFresh node_at limits nodes (128 ∷ []) 100007 false a ls' p'
acquire-IsFresh_example =
    Fresh.acquire-IsFresh node_at node_at-IsAllocator limits nodes (128 ∷ []) 100007 false
      nodes-IsPool

abbrev zero_page : ℕ → ℕ → Ptr
zero_page n s = 0

zero_page-IsZeroed : (n s : ℕ) → zero_page n s ≡ null
zero_page-IsZeroed n s = refl

-- a table of two fresh pages
abbrev table : PageMap.PageMap
table = PageMap.preallocate zero_page 2

table-IsMap : IsMap table
table-IsMap = (preallocate-view zero_page zero_page-IsZeroed 2).0

-- Order 64 is stored under 70000.
insert-view_example :
    let m' = PageMap.insert zero_page table 70000 64 in
    IsMap m' × ((j : ℕ) → view m' j ≡ (if 70000 == j then 64 else view table j))
insert-view_example = insert-view zero_page zero_page-IsZeroed table 70000 64 table-IsMap

stored-IsMap : IsMap (PageMap.insert zero_page table 70000 64)
stored-IsMap = (insert-view zero_page zero_page-IsZeroed table 70000 64 table-IsMap).0

-- The id is looked up in that table.
find-view_example :
    let m = PageMap.insert zero_page table 70000 64 in
    let (p, m') = PageMap.find zero_page m 70000 in (p ≡ view m 70000) × Keeps m m'
find-view_example =
    find-view zero_page zero_page-IsZeroed (PageMap.insert zero_page table 70000 64) 70000
      stored-IsMap
