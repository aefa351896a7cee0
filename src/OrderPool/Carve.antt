-- ===== src/OrderPool/Carve.antt =====
-- Which addresses an order pool has handed out at some time, and what it assumes of its allocator.
use hft_backtester.Prelude.{
  ℕ, suc, ◌+◌, ◌*◌, ◌<◌, ◌≤◌, ◌≡◌, ◌≢◌, ◌⊎◌, refl, List, [], ◌∷◌, true, false, drop, ◌==◌, arith,
}
use hft_backtester.Heap.{Ptr, null, Orders}
use hft_backtester.Limit.Chain.{has}
use hft_backtester.OrderPool.{OrderPool, page_size, order_size, return_order}

-- `aligned_alloc` returns blocks that are not null and do not overlap while none is freed.
pub record IsAllocator (page_at : ℕ → ℕ) : Type 0 where
  pub nonnull : (k : ℕ) → 0 < page_at k
  pub apart :
      (j k : ℕ) → j ≢ k → (page_at j + page_size ≤ page_at k) ⊎ (page_at k + page_size ≤ page_at j)

-- The free list leads through `xs`.
abbrev pub FreeList : Orders → Ptr → List Ptr → Type 0
FreeList o p [] = p ≡ null
FreeList o p (x ∷ xs) = (p ≡ x) × (x ≢ null) × (has x xs ≡ false) × FreeList o (o x).next xs

module _ (page_at : ℕ → ℕ) where
  -- The address of a place on a page that has been handed out, in terms of `pages_` and `curr_`.
  pub record IsHanded (pages curr a : ℕ) : Type 0 where
    pub page : ℕ
    pub place : ℕ
    pub on_page : page < pages
    pub in_page : place < 64
    pub address : a ≡ page_at page + order_size * place
    pub carved : suc page ≡ pages → a < curr

  abbrev pub Issued : OrderPool → Ptr → Type 0
  Issued p a = IsHanded p.pages p.curr a

  -- `curr_` and `end_` delimit what is left of the last page.
  pub record IsSplit (pages curr end : ℕ) : Type 0 where
    pub done : ℕ
    pub done-le : done ≤ 64
    pub none_yet : pages ≡ 0 → (curr ≡ null) × (end ≡ null)
    pub last :
        (k : ℕ)
        → pages ≡ suc k
        → (curr ≡ page_at k + order_size * done) × (end ≡ page_at k + page_size)

  abbrev pub IsCarving : OrderPool → Type 0
  IsCarving p = IsSplit p.pages p.curr p.end

  -- What holds of a pool between two calls: `free` are the orders of the free list, in its order.
  pub record IsPool (o : Orders) (p : OrderPool) (free : List Ptr) : Type 0 where
    pub carving : IsCarving p
    pub chain : FreeList o p.freelist free
    pub issued : (q : Ptr) → has q free ≡ true → Issued p q

  -- What `get_order` promises about the order `a` that it returns: it is not null, and it is none
  -- that was handed out before unless it was returned since.
  pub record IsFresh (o : Orders) (p : OrderPool) (free : List Ptr) (a : Ptr) (p' : OrderPool)
      : Type 0 where
    pub nonnull : a ≢ null
    pub issued : Issued p' a
    pub kept : (q : Ptr) → Issued p q → Issued p' q
    pub unused : (q : Ptr) → Issued p q → has q free ≡ false → q ≢ a
    pub rest : IsPool o p' (drop 1 free)
    pub taken : has a (drop 1 free) ≡ false

FreeList-frame :
    (o o' : Orders) (p : Ptr) (xs : List Ptr)
    → ((q : Ptr) → has q xs ≡ true → (o' q).next ≡ (o q).next)
    → FreeList o p xs
    → FreeList o' p xs
FreeList-frame o o' p [] same c = c
FreeList-frame o o' p (x ∷ xs) same c =
    let (e, n, out, rest) = c in
    let sx = same x (ground arith) in
    (e, n, out, rw sx (FreeList-frame o o' (o x).next xs (λ q i. same q (ground arith)) rest))

-- A write that spares the links of the free orders keeps the pool.
pub IsPool-frame :
    (page_at : ℕ → ℕ) (o o' : Orders) (p : OrderPool) (free : List Ptr)
    → ((q : Ptr) → has q free ≡ true → (o' q).next ≡ (o q).next)
    → IsPool page_at o p free
    → IsPool page_at o' p free
IsPool-frame page_at o o' p free same v = record {
  carving = v.carving;
  chain = FreeList-frame o o' p.freelist free same v.chain;
  issued = v.issued;
}

-- `return_order` puts an order that is in use at the front of the free list, and `order->prev_ =
-- nullptr` is the only other change to it.
pub return_order-IsPool :
    (page_at : ℕ → ℕ) (o : Orders) (p : OrderPool) (free : List Ptr) (t : Ptr)
    → IsPool page_at o p free
    → t ≢ null
    → has t free ≡ false
    → Issued page_at p t
    → let (o', p') = return_order o p t in IsPool page_at o' p' (t ∷ free)
unfolding return_order
return_order-IsPool page_at o p free t v nonnull out mine = record {
  carving = v.carving;
  chain =
      let to : (t == t) ≡ true = ground arith in
      (
        refl,
        nonnull,
        out,
        rw to
            (FreeList-frame o (return_order o p t).0 p.freelist free (λ q i. ground arith) v.chain),
      );
  issued = λ q i. ground (arith, v.issued q);
}

pub Issued-nonnull :
    (page_at : ℕ → ℕ) (p : OrderPool) (a : Ptr)
    → IsAllocator page_at
    → Issued page_at p a
    → a ≢ null
Issued-nonnull page_at p a alloc h = omega (arith, h.address, alloc.nonnull h.page)

-- `return_order` writes the returned order alone, and forgets no order that it has handed out.
module _ (o : Orders) (p : OrderPool) (t : Ptr) where
  pub return_order-same : (q : Ptr) → q ≢ t → (return_order o p t).0 q ≡ o q
  unfolding return_order
  return_order-same q ne = ground arith

  pub return_order-kept :
      (page_at : ℕ → ℕ) (q : Ptr) → Issued page_at p q → Issued page_at (return_order o p t).1 q
  unfolding return_order
  return_order-kept page_at q h = h
