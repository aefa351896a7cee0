-- ===== src/Book/Unlink.antt =====
-- The first part of `cancel_order`: an order leaves its level's queue, the table and the memory in use.
use hft_backtester.Prelude.{
  ℕ, ◌<◌, ◌≡◌, ◌≢◌, ◌⊎◌, inl, inr, refl, sym, ap, subst, ◌∙◌, List, ◌∷◌, Bool, true, false, ◌==◌,
  if◌then◌else◌, false≢true, none, ℕ_discrete, Bool-cases, arith,
}
use hft_backtester.Heap.{Ptr, null, Limit, Orders, put_self}
use hft_backtester.Limit
use hft_backtester.Limit.Chain.{
  has, without, without-absent, IsLimit, not-mem-without_self, mem-of_without, mem-without,
}
use hft_backtester.Limit.Remove.{
  IsUnlinked, remove_order-IsLimit, remove_order-keeps, remove_order-order, remove_order-links,
  prev-cases, next-cases,
}
use hft_backtester.OrderPool
use hft_backtester.OrderPool.{OrderPool}
use hft_backtester.OrderPool.Carve
use hft_backtester.LimitPool.Fresh
use hft_backtester.PageMap
use hft_backtester.PageMap.{PageMap}
use hft_backtester.PageMap.View.{IsMap, view}
use hft_backtester.PageMap.Laws.{erase-view}
use hft_backtester.Book.{Book, System, half, unlink_order}
use hft_backtester.Book.Invariant.{IsSystem, Ghost, IsCore, IsLevel, IsResting, price_at}
use hft_backtester.Book.Entry.{entry, entry-null, entry-same}
use hft_backtester.Book.Place.{here, here_iff, here_self, slots-apart}
use hft_backtester.Book.Relink.{
  IsLimit-frame, relinked, requeued, IsUntouched, IsRelink, IsCore-relinked,
}

module _ (sys : System) (ok : IsSystem sys) (b : Book) (g : Ghost) (core : IsCore sys b g)
    (s : Bool) (i : ℕ) (hi : i < b.range) (t : Ptr) (mine : has t (g.queue s i) ≡ true) (id : ℕ)
    (named : (b.orders t).id ≡ id) where
  abbrev pub l : Ptr
  l = (b.orders t).parent

  abbrev o1 : Orders
  o1 = (Limit.remove_order b.orders (b.limits l) t).0

  abbrev pub limit' : Limit
  limit' = (Limit.remove_order b.orders (b.limits l) t).1

  abbrev o2 : Orders
  o2 = (OrderPool.return_order o1 b.order_pool t).0

  abbrev pool' : OrderPool
  pool' = (OrderPool.return_order o1 b.order_pool t).1

  abbrev lookup' : PageMap
  lookup' = PageMap.erase sys.fresh_page b.order_lookup id

  abbrev pub queue' : List Ptr
  queue' = without t (g.queue s i)

  abbrev pub unlinked : Book
  unlinked = relinked sys b g s i l t id lookup' pool' o2 limit' queue' (t ∷ g.free)

  abbrev pub requeue : Ghost
  requeue = requeued sys b g s i l t id lookup' pool' o2 limit' queue' (t ∷ g.free)

  pub unlink_order-unlinked : unlink_order sys id t b ≡ unlinked
  unfolding unlink_order
  unlink_order-unlinked = refl

  it : IsResting sys b g s i t
  it = core.order s i t hi mine

  pub slot_ne : (half s b).slot i ≢ null
  slot_ne e = cc (mine, (core.level s i hi).empty e)

  pub nonnull : l ≢ null
  nonnull e = slot_ne (sym it.parent ∙ e)

  t-nonnull : t ≢ null
  t-nonnull = Carve.Issued-nonnull sys.page_at b.order_pool t ok.pages it.issued

  view-id : view b.order_lookup id ≡ t
  view-id = ap (view b.order_lookup) (sym named) ∙ it.listed

  level : IsLimit b.orders (b.limits l) (g.queue s i)
  level =
      subst (λ p. IsLimit b.orders (b.limits p) (g.queue s i)) (sym it.parent)
        ((core.level s i hi).limit slot_ne)

  level1 : IsLimit o1 limit' queue'
  level1 = remove_order-IsLimit b.orders (b.limits l) t (g.queue s i) mine it.size level

  t-not-mem : has t queue' ≡ false
  t-not-mem = not-mem-without_self b.orders null _ _ t (g.queue s i) level.chain

  queue'-ne : (q : Ptr) → has q queue' ≡ true → q ≢ t
  queue'-ne q m e = false≢true (sym t-not-mem ∙ ap (λ x. has x queue') (sym e) ∙ m)

  o2-same : (q : Ptr) → q ≢ t → o2 q ≡ o1 q
  o2-same = Carve.return_order-same o1 b.order_pool t

  pub level2 : IsLimit o2 limit' queue'
  level2 =
      IsLimit-frame o1 o2 limit' queue'
        (λ q m.
          let e = o2-same q (queue'-ne q m) in
          (ap (λ o. o.next) e, ap (λ o. o.prev) e, ap (λ o. o.size) e))
        level1

  links : IsUnlinked b.orders o1 t
  links = remove_order-links b.orders (b.limits l) t (g.queue s i) level mine

  -- Outside the removed order and its neighbours the links are as they were.
  links-same :
      (q : Ptr)
      → q ≢ t
      → q ≢ (b.orders t).prev
      → q ≢ (b.orders t).next
      → ((o2 q).next ≡ (b.orders q).next) × ((o2 q).prev ≡ (b.orders q).prev)
  links-same q ne np nx =
      let e = o2-same q ne in
      (ap (λ o. o.next) e ∙ links.keep_next q np, ap (λ o. o.prev) e ∙ links.keep_prev q nx)

  record IsKept (q : Ptr) : Type 0 where
    id_eq : (o2 q).id ≡ (b.orders q).id
    price_eq : (o2 q).price ≡ (b.orders q).price
    side_eq : (o2 q).side ≡ (b.orders q).side
    parent_eq : (o2 q).parent ≡ (b.orders q).parent
    size_eq : (o2 q).size ≡ (b.orders q).size
    time_eq : (o2 q).unix_time ≡ (b.orders q).unix_time

  fields : (q : Ptr) → q ≢ t → IsKept q
  fields q ne =
      let (i', p, d, r, z, w) = remove_order-order b.orders (b.limits l) t q in
      let e = o2-same q ne in
      record {
        id_eq = ap (λ o. o.id) e ∙ i';
        price_eq = ap (λ o. o.price) e ∙ p;
        side_eq = ap (λ o. o.side) e ∙ d;
        parent_eq = ap (λ o. o.parent) e ∙ r;
        size_eq = ap (λ o. o.size) e ∙ z;
        time_eq = ap (λ o. o.unix_time) e ∙ w;
      }

  table :
      IsMap lookup' × ((k : ℕ) → view lookup' k ≡ (if id == k then null else view b.order_lookup k))
  table = erase-view sys.fresh_page ok.zeroed b.order_lookup id core.map

  pub table-id : view lookup' id ≡ null
  table-id = table.1 id ∙ ground arith

  table-other : (k : ℕ) → k ≢ id → view lookup' k ≡ view b.order_lookup k
  table-other k ne = table.1 k ∙ ground arith

  -- Another queued order has another id.
  id_ne :
      (u : Bool) (j : ℕ) (q : Ptr)
      → j < b.range
      → has q (g.queue u j) ≡ true
      → q ≢ t
      → (b.orders q).id ≢ id
  id_ne u j q hj m ne e =
      ne (sym (core.order u j q hj m).listed ∙ ap (view b.order_lookup) e ∙ view-id)

  -- An order of another level is none of this level's.
  far_ne :
      (u : Bool) (j : ℕ) (q x : Ptr)
      → j < b.range
      → here s i u j ≡ false
      → has q (g.queue u j) ≡ true
      → (x ≡ null) ⊎ (has x (g.queue s i) ≡ true)
      → q ≢ x
  far_ne u j q x hj off m (inl z) e =
      Carve.Issued-nonnull sys.page_at b.order_pool q ok.pages (core.order u j q hj m).issued
        (e ∙ z)
  far_ne u j q x hj off m (inr m') e = slots-apart sys b g s i u j core hi hj off slot_ne (
      sym (core.order s i x hi m').parent
      ∙ ap (λ y. (b.orders y).parent) (sym e)
      ∙ (core.order u j q hj m).parent)

  prev-mem : ((b.orders t).prev ≡ null) ⊎ (has (b.orders t).prev (g.queue s i) ≡ true)
  prev-mem = prev-cases b.orders (b.limits l) t (g.queue s i) level mine

  next-mem : ((b.orders t).next ≡ null) ⊎ (has (b.orders t).next (g.queue s i) ≡ true)
  next-mem = next-cases b.orders (b.limits l) t (g.queue s i) level mine

  half-unlinked : (u : Bool) → half u unlinked ≡ half u b
  unfolding half
  half-unlinked true = refl
  half-unlinked false = refl

  price_at-unlinked : (u : Bool) (j : ℕ) → price_at u unlinked j ≡ price_at u b j
  price_at-unlinked true j = refl
  price_at-unlinked false j = refl

  untouched :
      (u : Bool) (j : ℕ) (q : Ptr)
      → j < b.range
      → here s i u j ≡ false
      → has q (g.queue u j) ≡ true
      → IsUntouched sys b g s i l t id lookup' pool' o2 limit' queue' (t ∷ g.free) q
  untouched u j q hj off m =
      let ne = far_ne u j q t hj off m (inr mine) in
      let f = fields q ne in
      let (n, p) =
        links-same q ne (far_ne u j q (b.orders t).prev hj off m prev-mem)
          (far_ne u j q (b.orders t).next hj off m next-mem) in
      let r = core.order u j q hj m in
      record {
        next = n;
        prev = p;
        size = f.size_eq;
        id = f.id_eq;
        price = f.price_eq;
        side = f.side_eq;
        parent = f.parent_eq;
        listed = table-other (b.orders q).id (id_ne u j q hj m ne);
        issued = Carve.return_order-kept o1 b.order_pool t sys.page_at q;
        unused = ground (arith, r.unused);
      }

  level-unlinked : IsLevel sys unlinked requeue s i
  level-unlinked =
      let old = core.level s i hi in
      let (p, d) = remove_order-keeps b.orders (b.limits l) t in
      let e = put_self b.limits l limit' in
      let there = here_self s i in
      let at = it.parent in
      record {
        empty = λ z. absurd (slot_ne (rw (half-unlinked s) at z));
        limit = λ _. rw (there, half-unlinked s, ← at, e) level2;
        price = λ _.
            rw (half-unlinked s, ← at, e, price_at-unlinked s i)
              (p ∙ ap (λ x. (b.limits x).price) at ∙ old.price slot_ne);
        side = λ _.
            rw (half-unlinked s, ← at, e) (d ∙ ap (λ x. (b.limits x).side) at ∙ old.side slot_ne);
        made = λ _. rw (half-unlinked s) (old.made slot_ne);
        unused = λ _. rw (half-unlinked s) (old.unused slot_ne);
      }

  resting : (q : Ptr) → has q queue' ≡ true → IsResting sys unlinked requeue s i q
  resting q m' =
      let m = mem-of_without t q (g.queue s i) m' in
      let ne = queue'-ne q m' in
      let r = core.order s i q hi m in
      let f = fields q ne in
      record {
        parent = rw (half-unlinked s) (f.parent_eq ∙ r.parent);
        price = rw (price_at-unlinked s i) (f.price_eq ∙ r.price);
        side = f.side_eq ∙ r.side;
        listed =
            ap (view lookup') f.id_eq
            ∙ table-other (b.orders q).id (id_ne s i q hi m ne)
            ∙ r.listed;
        size = rw f.size_eq r.size;
        issued = Carve.return_order-kept o1 b.order_pool t sys.page_at q r.issued;
        unused = ground (arith, r.unused);
      }

  found_ne : (k : ℕ) → k ≢ id → view b.order_lookup k ≢ null → view b.order_lookup k ≢ t
  found_ne k other ne e = other (sym (core.found k ne).id_eq ∙ ap (λ q. (b.orders q).id) e ∙ named)

  relink : IsRelink sys b g s i l t id lookup' pool' o2 limit' queue' (t ∷ g.free)
  relink = record {
    in_range = hi;
    at = sym it.parent;
    nonnull = nonnull;
    level = level-unlinked;
    resting = resting;
    far = untouched;
    named = λ q ne. let f = fields q ne in (f.id_eq, f.side_eq);
    kept = λ q ne m. mem-without t q (g.queue s i) ne m;
    table = table-other;
    other = found_ne;
    found = λ ne. absurd (ne table-id);
  }

  -- A free order is none of this level's.
  free_ne : (q x : Ptr) → has q g.free ≡ true → (x ≡ null) ⊎ (has x (g.queue s i) ≡ true) → q ≢ x
  free_ne q x m (inl z) e =
      Carve.Issued-nonnull sys.page_at b.order_pool q ok.pages (core.pool.issued q m) (e ∙ z)
  free_ne q x m (inr m') e =
      false≢true (sym (core.order s i x hi m').unused ∙ ap (λ y. has y g.free) (sym e) ∙ m)

  pool1 : Carve.IsPool sys.page_at o1 b.order_pool g.free
  pool1 =
      Carve.IsPool-frame sys.page_at b.orders o1 b.order_pool g.free
        (λ q m. links.keep_next q (free_ne q (b.orders t).prev m prev-mem)) core.pool

  pool2 : Carve.IsPool sys.page_at o2 pool' (t ∷ g.free)
  pool2 =
      Carve.return_order-IsPool sys.page_at o1 b.order_pool g.free t pool1 t-nonnull it.unused
        it.issued

  -- Taking an order out keeps the book well formed but for its best price and an empty level.
  pub unlink_order-IsCore : IsCore sys unlinked requeue
  unlink_order-IsCore =
      IsCore-relinked sys b g s i l t id lookup' pool' o2 limit' queue' (t ∷ g.free) core relink
        table.0 pool2
        (Fresh.put-IsPool sys.node_at b.limits b.limit_pool g.free_limits l limit'
          (subst (λ x. has x g.free_limits ≡ false) (sym it.parent)
            ((core.level s i hi).unused slot_ne))
          core.nodes)

  -- The client no longer sees the order under its id, and sees the others as they were.
  pub entry-unlinked : (k : ℕ) → entry unlinked k ≡ (if id == k then none else entry b k)
  entry-unlinked k = elim (ℕ_discrete id k) [
    | yes e ↦
        let at : (id == k) ≡ true = ground arith in
        rw at (entry-null unlinked k (ap (view lookup') (sym e) ∙ table-id))
    | no ne ↦
        let at : (id == k) ≡ false = ground arith in
        rw at (
          entry-same b unlinked k (table-other k (λ e. ne (sym e))) (λ full.
            let f = fields (view b.order_lookup k) (found_ne k (λ e. ne (sym e)) full) in
            ground (arith, f.price_eq, f.side_eq, f.size_eq, f.time_eq)))
  ]

  -- Taken out of every queue, the order is missed in its own only.
  pub queue-unlinked :
      (u : Bool) (j : ℕ) → j < b.range → requeue.queue u j ≡ without t (g.queue u j)
  queue-unlinked u j hj = elim (Bool-cases (here s i u j)) [
    | inl on ↦
        let (su, ij) = here_iff s i u j on in
        rw on (
          subst (λ v. without t (g.queue s i) ≡ without t (g.queue v j)) su
            (subst (λ k. without t (g.queue s i) ≡ without t (g.queue s k)) ij refl))
    | inr off ↦ elim (Bool-cases (has t (g.queue u j))) [
      | inl m ↦ absurd (far_ne u j t t hj off m (inr mine) refl)
      | inr m ↦ rw off (sym (without-absent t (g.queue u j) m))
    ]
  ]
