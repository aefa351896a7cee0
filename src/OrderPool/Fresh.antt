-- ===== src/OrderPool/Fresh.antt =====
-- `get_order` never hands out an order that is in use.
use hft_backtester.Prelude.{
  ℕ, suc, ◌+◌, ◌*◌, ◌<◌, ◌≡◌, ◌≢◌, inl, inr, Bool-cases, ◌==◌, if◌then◌else◌, List, [], ◌∷◌, true,
  false, arith, ap, refl, sym, subst, ◌∙◌, ◌-◌, ℕ_discrete,
}
use hft_backtester.Heap.{Ptr, null, Orders}
use hft_backtester.OrderPool.{OrderPool, get_order, alloc_page}
use hft_backtester.OrderPool.Carve.{IsAllocator, Issued, IsCarving, IsPool, IsFresh}

module _ (page_at : ℕ → ℕ) (alloc : IsAllocator page_at) where
  -- a place of another page, or one below on the same page
  places_ne :
      (j k m n : ℕ) → m < 64 → n < 64 → (j ≡ k → m < n) → page_at j + 64 * m ≢ page_at k + 64 * n
  places_ne j k m n hm hn below e = elim (ℕ_discrete j k) [
    | yes same ↦ omega (arith, below same, ap page_at same)
    | no other ↦ omega (arith, alloc.apart j k other)
  ]

  -- The current page has a place left.
  record HasRoom (p : OrderPool) : Type 0 where
    page : ℕ
    done : ℕ
    room : done < 64
    pages : p.pages ≡ suc page
    curr : p.curr ≡ page_at page + 64 * done
    end : p.end ≡ page_at page + 4096

  alloc_page-HasRoom : (p : OrderPool) → HasRoom (alloc_page page_at p)
  unfolding alloc_page
  alloc_page-HasRoom p = record {
    page = p.pages;
    done = 0;
    room = omega arith;
    pages = omega arith;
    curr = omega arith;
    end = refl;
  }

  alloc_page-Issued :
      (p : OrderPool) (q : Ptr) → Issued page_at p q → Issued page_at (alloc_page page_at p) q
  unfolding alloc_page
  alloc_page-Issued p q h = record {
    page = h.page;
    place = h.place;
    on_page = omega arith;
    in_page = h.in_page;
    address = h.address;
    carved = λ e. absurd (omega arith);
  }

  IsCarving-HasRoom : (p : OrderPool) → IsCarving page_at p → p.curr ≢ p.end → HasRoom p
  IsCarving-HasRoom p c ne = elim (ℕ_discrete p.pages 0) [
    | yes none_yet ↦ absurd (ne (ground (arith, c.none_yet none_yet)))
    | no some_page ↦
        let k : ℕ = p.pages - 1 in
        let e : p.pages ≡ suc k = omega arith in
        record {
          page = k;
          done = c.done;
          room = omega (arith, c.last k e, c.done-le);
          pages = e;
          curr = (c.last k e).0;
          end = (c.last k e).1;
        }
  ]

  -- The place at `curr_` has not been handed out.
  curr-not-Issued : (p : OrderPool) → HasRoom p → ¬ Issued page_at p p.curr
  curr-not-Issued p r h =
      places_ne h.page r.page h.place r.done h.in_page r.room
        (λ e. absurd (omega (arith, h.carved (ap suc e ∙ sym r.pages)))) (sym h.address ∙ r.curr)

  -- `p` with the place at `curr_` taken
  abbrev carve : OrderPool → OrderPool
  carve p = record p { curr = p.curr + 64 }

  carve-IsCarving : (p : OrderPool) → HasRoom p → IsCarving page_at (carve p)
  carve-IsCarving p r = record {
    done = r.done + 1;
    done-le = omega (arith, r.room);
    none_yet = λ e. absurd (omega (arith, r.pages));
    last = λ k e.
        let same : k ≡ r.page = omega (arith, r.pages) in
        omega (arith, ap page_at same, r.curr, r.end);
  }

  carve-Issued : (p : OrderPool) (q : Ptr) → Issued page_at p q → Issued page_at (carve p) q
  carve-Issued p q h = record {
    page = h.page;
    place = h.place;
    on_page = h.on_page;
    in_page = h.in_page;
    address = h.address;
    carved = λ e. omega (arith, h.carved e);
  }

  carve-Issued_new : (p : OrderPool) → HasRoom p → Issued page_at (carve p) p.curr
  carve-Issued_new p r = record {
    page = r.page;
    place = r.done;
    on_page = omega (arith, r.pages);
    in_page = r.room;
    address = r.curr;
    carved = λ e. omega arith;
  }

  -- the pool with room made, as `get_order` does before it carves
  abbrev ready : OrderPool → OrderPool
  ready p = if p.curr == p.end then alloc_page page_at p else p

  ready-HasRoom : (p : OrderPool) → IsCarving page_at p → HasRoom (ready p)
  ready-HasRoom p c = elim (ℕ_discrete p.curr p.end) [
    | yes e ↦ let t : (p.curr == p.end) ≡ true = ground arith in rw t (alloc_page-HasRoom p)
    | no ne ↦ let t : (p.curr == p.end) ≡ false = ground arith in rw t (IsCarving-HasRoom p c ne)
  ]

  ready-Issued : (p : OrderPool) (q : Ptr) → Issued page_at p q → Issued page_at (ready p) q
  ready-Issued p q h = elim (Bool-cases (p.curr == p.end)) [
    | inl t ↦ rw t (alloc_page-Issued p q h)
    | inr t ↦ rw t h
  ]

  ready-freelist : (p : OrderPool) → (ready p).freelist ≡ p.freelist
  unfolding alloc_page
  ready-freelist p = ground arith

  get_order-carve :
      (o : Orders) (p : OrderPool)
      → p.freelist ≡ null
      → get_order page_at o p ≡ ((ready p).curr, carve (ready p))
  unfolding get_order
  get_order-carve o p e = rw e

  get_order-reuse :
      (o : Orders) (p : OrderPool)
      → p.freelist ≢ null
      → get_order page_at o p ≡ (p.freelist, record p { freelist = (o p.freelist).next })
  unfolding get_order
  get_order-reuse o p ne = let t : (p.freelist == null) ≡ false = ground arith in rw t

  -- `get_order` hands out an order that is not null and not in use, and keeps what it has handed
  -- out apart from its free list.
  pub get_order-IsFresh :
      (o : Orders) (p : OrderPool) (free : List Ptr)
      → IsPool page_at o p free
      → let (a, p') = get_order page_at o p in IsFresh page_at o p free a p'
  get_order-IsFresh o p [] v =
      let r = ready-HasRoom p v.carving in
      rw (get_order-carve o p v.chain) (record {
        nonnull = omega (arith, r.curr, alloc.nonnull r.page);
        issued = carve-Issued_new (ready p) r;
        kept = λ q h. carve-Issued (ready p) q (ready-Issued p q h);
        unused = λ q h _ e.
            curr-not-Issued (ready p) r (subst (Issued page_at (ready p)) e (ready-Issued p q h));
        rest = record {
          carving = carve-IsCarving (ready p) r;
          chain = ready-freelist p ∙ v.chain;
          issued = λ q i. cc;
        };
        taken = refl;
      })
  get_order-IsFresh o p (x ∷ free) v =
      let (e, nx, out, rest) = v.chain in
      let mine = v.issued x (ground arith) in
      rw (get_order-reuse o p (ground arith)) (record {
        nonnull = ground arith;
        issued = subst (Issued page_at p) (sym e) mine;
        kept = λ q h. h;
        unused = λ q h o'. ground arith;
        rest = record {
          carving = v.carving;
          chain = rw e rest;
          issued = λ q i. v.issued q (ground arith);
        };
        taken = rw e out;
      })
