-- ===== src/LimitPool/Fresh.antt =====
-- `acquire` hands out a level that is not in use, and it is empty.
use hft_backtester.Prelude.{
  ℕ, ◌+◌, ◌<◌, ◌≡◌, ◌≢◌, refl, sym, subst, ℕ_discrete, List, [], ◌∷◌, Bool, true, false, drop, ◌==◌,
  arith,
}
use hft_backtester.Heap.{Ptr, null, Limit, Limits, put}
use hft_backtester.Limit.Chain.{has}
use hft_backtester.LimitPool.{LimitPool, acquire, release}

-- `posix_memalign` returns addresses that are not null and differ while none is freed.
pub record IsAllocator (node_at : ℕ → Ptr) : Type 0 where
  pub nonnull : (k : ℕ) → node_at k ≢ null
  pub apart : (j k : ℕ) → node_at j ≡ node_at k → j ≡ k

-- The free list of nodes leads through `xs`.
abbrev pub FreeNodes : (Ptr → Ptr) → Ptr → List Ptr → Type 0
FreeNodes next p [] = p ≡ null
FreeNodes next p (x ∷ xs) = (p ≡ x) × (x ≢ null) × (has x xs ≡ false) × FreeNodes next (next x) xs

FreeNodes-frame :
    (f g : Ptr → Ptr) (p : Ptr) (xs : List Ptr)
    → ((q : Ptr) → has q xs ≡ true → g q ≡ f q)
    → FreeNodes f p xs
    → FreeNodes g p xs
FreeNodes-frame f g p [] same c = c
FreeNodes-frame f g p (x ∷ xs) same c =
    let (e, n, out, rest) = c in
    let sx = same x (ground arith) in
    (e, n, out, rw sx (FreeNodes-frame f g (f x) xs (λ q i. same q (ground arith)) rest))

module _ (node_at : ℕ → Ptr) where
  pub record IsMade (made : ℕ) (a : Ptr) : Type 0 where
    pub node : ℕ
    pub before : node < made
    pub address : a ≡ node_at node

  -- What holds of a pool between two calls. The limits of the free list are empty.
  pub record IsPool (ls : Limits) (p : LimitPool) (free : List Ptr) : Type 0 where
    pub chain : FreeNodes p.next p.free free
    pub made : (q : Ptr) → has q free ≡ true → IsMade p.made q
    pub blank : (q : Ptr) → has q free ≡ true → ((ls q).head ≡ null) × ((ls q).tail ≡ null)

  -- What `acquire` promises about the limit that it returns.
  pub record IsFresh (ls : Limits) (p : LimitPool) (free : List Ptr) (price : ℕ) (side : Bool)
      (a : Ptr) (ls' : Limits) (p' : LimitPool) : Type 0 where
    pub nonnull : a ≢ null
    pub made : IsMade p'.made a
    pub kept : (q : Ptr) → IsMade p.made q → IsMade p'.made q
    pub unused : (q : Ptr) → IsMade p.made q → has q free ≡ false → q ≢ a
    pub rest : IsPool ls' p' (drop 1 free)
    pub taken : has a (drop 1 free) ≡ false
    pub blank : ls' a ≡ record { price = price; volume = 0; head = null; tail = null; side = side }
    pub same : (q : Ptr) → q ≢ a → ls' q ≡ ls q

  module _ (alloc : IsAllocator node_at) where
    new-not-made : (p : LimitPool) → ¬ IsMade p.made (node_at p.made)
    new-not-made p h = omega (arith, alloc.apart p.made h.node h.address, h.before)

    IsMade-suc : (n : ℕ) (q : Ptr) → IsMade n q → IsMade (n + 1) q
    IsMade-suc n q h = record {
      node = h.node;
      before = omega (arith, h.before);
      address = h.address;
    }

    -- From a well-formed pool `acquire` hands out a limit that is not null, not in use, and empty, with
    -- the price and the side asked for; it writes no other limit, and the pool stays well formed.
    pub acquire-IsFresh :
        (ls : Limits) (p : LimitPool) (free : List Ptr) (price : ℕ) (side : Bool)
        → IsPool ls p free
        → let (a, ls', p') = acquire node_at ls p price side in
          IsFresh ls p free price side a ls' p'
    unfolding acquire
    acquire-IsFresh ls p [] price side v =
        let t : (p.free == null) ≡ true = ground (arith, v.chain) in
        let nn = alloc.nonnull p.made in
        rw t (
          rw t (record {
            nonnull = nn;
            made = record { node = p.made; before = omega arith; address = refl };
            kept = λ q h. IsMade-suc p.made q h;
            unused = λ q h _ e. new-not-made p (subst (IsMade p.made) e h);
            rest = record { chain = v.chain; made = λ q i. cc; blank = λ q i. cc };
            taken = refl;
            blank = ground arith;
            same = λ q h. ground arith;
          }))
    acquire-IsFresh ls p (x ∷ free) price side v =
        let (e, nx, out, rest) = v.chain in
        let t : (p.free == null) ≡ false = ground arith in
        rw t (
          rw t (record {
            nonnull = ground arith;
            made = rw e (v.made x (ground arith));
            kept = λ q h. h;
            unused = λ q h o. ground arith;
            rest = record {
              chain = rw e rest;
              made = λ q i. v.made q (ground arith);
              blank = λ q i. ground (arith, v.blank q);
            };
            taken = rw e out;
            blank = ground (arith, v.blank x);
            same = λ q h. ground arith;
          }))

  -- `release` puts an empty limit that is in use at the front of the free list.
  pub release-IsPool :
      (ls : Limits) (p : LimitPool) (free : List Ptr) (t : Ptr)
      → IsPool ls p free
      → t ≢ null
      → has t free ≡ false
      → IsMade p.made t
      → ((ls t).head ≡ null) × ((ls t).tail ≡ null)
      → IsPool ls (release p t) (t ∷ free)
  unfolding release
  release-IsPool ls p free t v nonnull out mine empty = record {
    chain =
        let to : (t == t) ≡ true = ground arith in
        (
          refl,
          nonnull,
          out,
          rw to
              (FreeNodes-frame p.next (release p t).next p.free free (λ q i. ground arith) v.chain),
        );
    made = λ q i. elim (ℕ_discrete q t) [
      | yes e ↦ subst (IsMade p.made) (sym e) mine
      | no ne ↦ v.made q (ground arith)
    ];
    blank = λ q i. ground (arith, v.blank q);
  }

-- A write to a limit in use keeps the pool.
pub put-IsPool :
    (node_at : ℕ → Ptr) (ls : Limits) (p : LimitPool) (free : List Ptr) (l : Ptr) (v : Limit)
    → has l free ≡ false
    → IsPool node_at ls p free
    → IsPool node_at (put ls l v) p free
unfolding put
put-IsPool node_at ls p free l v out h = record {
  chain = h.chain;
  made = h.made;
  blank = λ q i. ground (arith, h.blank q);
}

pub release-made : (p : LimitPool) (l : Ptr) → (release p l).made ≡ p.made
unfolding release
release-made p l = refl
