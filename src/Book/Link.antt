-- ===== src/Book/Link.antt =====
-- `add_order` below the choice of the level: a new order at the end of a level's queue.
use hft_backtester.Prelude.{
  ℕ, ◌<◌, ◌^◌, ◌≡◌, ◌≢◌, inl, inr, refl, sym, ap, subst, ◌∙◌, List, [], ◌∷◌, ◌++◌, Bool, true,
  false, ◌==◌, drop, if◌then◌else◌, Bool-cases, ℕ_discrete, false≢true, some, arith,
}
use hft_backtester.Heap.{Ptr, null, Order, Limit, Orders, put, put_ne, put_self}
use hft_backtester.Limit
use hft_backtester.Limit.Chain.{has, IsLimit, has-snoc, tail-cases, mem-drop, not-mem-drop}
use hft_backtester.Limit.Add.{
  IsLinked, add_order-IsLinked, add_order-IsLimit, add_order-keeps, add_order-order,
}
use hft_backtester.OrderPool
use hft_backtester.OrderPool.{OrderPool}
use hft_backtester.OrderPool.Carve
use hft_backtester.OrderPool.Fresh.{get_order-IsFresh}
use hft_backtester.LimitPool.Fresh
use hft_backtester.PageMap
use hft_backtester.PageMap.{PageMap}
use hft_backtester.PageMap.View.{IsMap, view}
use hft_backtester.PageMap.Laws.{insert-view}
use hft_backtester.Book.{Book, System, half, link_order}
use hft_backtester.Book.Invariant.{IsSystem, Ghost, IsCore, IsLevel, IsResting, IsFound, price_at}
use hft_backtester.Book.Entry.{entry, entry-some, entry-same}
use hft_backtester.Book.Place.{here, here_self, slots-apart}
use hft_backtester.Book.Relink.{
  IsLimit-frame, relinked, requeued, IsUntouched, IsRelink, IsCore-relinked,
}

module _ (sys : System) (ok : IsSystem sys) (b : Book) (g : Ghost) (core : IsCore sys b g)
    (s : Bool) (i : ℕ) (hi : i < b.range) (nn : (half s b).slot i ≢ null) (id price sz ts : ℕ)
    (at : price ≡ price_at s b i) (small : sz < 2 ^ 32)
    (free_id : view b.order_lookup id ≡ null) where
  -- the parts of `link_order`
  abbrev l : Ptr
  l = (half s b).slot i

  abbrev pub new : Ptr
  new = (OrderPool.get_order sys.page_at b.orders b.order_pool).0

  abbrev pool' : OrderPool
  pool' = (OrderPool.get_order sys.page_at b.orders b.order_pool).1

  abbrev order : Order
  order = record (b.orders new) {
    id = id;
    price = price;
    size = sz;
    side = s;
    unix_time = ts;
    parent = l;
  }

  abbrev o1 : Orders
  o1 = put b.orders new order

  abbrev o2 : Orders
  o2 = (Limit.add_order o1 (b.limits l) new).0

  abbrev limit' : Limit
  limit' = (Limit.add_order o1 (b.limits l) new).1

  abbrev lookup' : PageMap
  lookup' = PageMap.insert sys.fresh_page b.order_lookup id new

  abbrev queue' : List Ptr
  queue' = g.queue s i ++ new ∷ []

  abbrev pub linked : Book
  linked = relinked sys b g s i l new id lookup' pool' o2 limit' queue' (drop 1 g.free)

  abbrev pub queued : Ghost
  queued = requeued sys b g s i l new id lookup' pool' o2 limit' queue' (drop 1 g.free)

  pub link_order-linked : link_order sys s id price sz ts l b ≡ linked
  unfolding link_order
  link_order-linked = refl

  fresh : Carve.IsFresh sys.page_at b.orders b.order_pool g.free new pool'
  fresh = get_order-IsFresh sys.page_at ok.pages b.orders b.order_pool g.free core.pool

  -- An order that is in some queue is not the new one.
  queued_ne : (u : Bool) (j : ℕ) (q : Ptr) → j < b.range → has q (g.queue u j) ≡ true → q ≢ new
  queued_ne u j q hj m = let r = core.order u j q hj m in fresh.unused q r.issued r.unused

  new-not-mem : has new (g.queue s i) ≡ false
  new-not-mem = elim (Bool-cases (has new (g.queue s i))) [
    | inl m ↦ absurd (queued_ne s i new hi m refl)
    | inr out ↦ out
  ]

  -- The fields of an order that was there.
  module _ (q : Ptr) (ne : q ≢ new) where
    o1-same : o1 q ≡ b.orders q
    o1-same = put_ne b.orders new order q (λ e. ne (sym e))

  level : IsLimit b.orders (b.limits l) (g.queue s i)
  level = (core.level s i hi).limit nn

  level1 : IsLimit o1 (b.limits l) (g.queue s i)
  level1 =
      IsLimit-frame b.orders o1 (b.limits l) (g.queue s i)
        (λ q m.
          let e = o1-same q (queued_ne s i q hi m) in
          (ap (λ o. o.next) e, ap (λ o. o.prev) e, ap (λ o. o.size) e))
        level

  level2 : IsLimit o2 limit' queue'
  level2 = add_order-IsLimit o1 (b.limits l) new (g.queue s i) fresh.nonnull new-not-mem level1

  new_ne_tail : new ≢ (b.limits l).tail
  new_ne_tail e = elim (tail-cases b.orders (b.limits l) (g.queue s i) level) [
    | inl none ↦ fresh.nonnull (e ∙ none)
    | inr m ↦ queued_ne s i (b.limits l).tail hi m (sym e)
  ]

  links : IsLinked o1 o2 (b.limits l).tail new
  links = add_order-IsLinked o1 (b.limits l) new new_ne_tail

  -- Outside the new order and the tail the links are as they were.
  links-same :
      (q : Ptr)
      → q ≢ new
      → q ≢ (b.limits l).tail
      → ((o2 q).next ≡ (b.orders q).next) × ((o2 q).prev ≡ (b.orders q).prev)
  links-same q ne nt = (
    links.keep_next q ne nt ∙ ap (λ o. o.next) (o1-same q ne),
    links.keep_prev q ne ∙ ap (λ o. o.prev) (o1-same q ne),
  )

  -- The other fields are as they were outside the new order.
  record IsKept (q : Ptr) : Type 0 where
    id_eq : (o2 q).id ≡ (b.orders q).id
    price_eq : (o2 q).price ≡ (b.orders q).price
    side_eq : (o2 q).side ≡ (b.orders q).side
    parent_eq : (o2 q).parent ≡ (b.orders q).parent
    size_eq : (o2 q).size ≡ (b.orders q).size
    time_eq : (o2 q).unix_time ≡ (b.orders q).unix_time

  fields : (q : Ptr) → q ≢ new → IsKept q
  fields q ne =
      let (i', p, d, r, z, w) = add_order-order o1 (b.limits l) new q in
      let e = o1-same q ne in
      record {
        id_eq = i' ∙ ap (λ o. o.id) e;
        price_eq = p ∙ ap (λ o. o.price) e;
        side_eq = d ∙ ap (λ o. o.side) e;
        parent_eq = r ∙ ap (λ o. o.parent) e;
        size_eq = z ∙ ap (λ o. o.size) e;
        time_eq = w ∙ ap (λ o. o.unix_time) e;
      }

  -- The fields of the new order.
  new-fields :
      ((o2 new).id ≡ id)
      × ((o2 new).price ≡ price)
      × ((o2 new).side ≡ s)
      × ((o2 new).parent ≡ l)
      × ((o2 new).size ≡ sz)
      × ((o2 new).unix_time ≡ ts)
  new-fields =
      let (i', p, d, r, z, w) = add_order-order o1 (b.limits l) new new in
      let e = put_self b.orders new order in
      (
        i' ∙ ap (λ o. o.id) e,
        p ∙ ap (λ o. o.price) e,
        d ∙ ap (λ o. o.side) e,
        r ∙ ap (λ o. o.parent) e,
        z ∙ ap (λ o. o.size) e,
        w ∙ ap (λ o. o.unix_time) e,
      )

  table :
      IsMap lookup' × ((k : ℕ) → view lookup' k ≡ (if id == k then new else view b.order_lookup k))
  table = insert-view sys.fresh_page ok.zeroed b.order_lookup id new core.map

  pub table-new : view lookup' id ≡ new
  table-new = table.1 id ∙ ground arith

  table-other : (k : ℕ) → k ≢ id → view lookup' k ≡ view b.order_lookup k
  table-other k ne = table.1 k ∙ ground arith

  -- A queued order has another id.
  id_ne :
      (u : Bool) (j : ℕ) (q : Ptr) → j < b.range → has q (g.queue u j) ≡ true → (b.orders q).id ≢ id
  id_ne u j q hj m e =
      let r = core.order u j q hj m in
      Carve.Issued-nonnull sys.page_at b.order_pool q ok.pages r.issued
        (sym r.listed ∙ ap (view b.order_lookup) e ∙ free_id)

  pub half-linked : (u : Bool) → half u linked ≡ half u b
  unfolding half
  half-linked true = refl
  half-linked false = refl

  price_at-linked : (u : Bool) (j : ℕ) → price_at u linked j ≡ price_at u b j
  price_at-linked true j = refl
  price_at-linked false j = refl

  -- An order of another level is not the tail of this one.
  far_ne_tail :
      (u : Bool) (j : ℕ) (q : Ptr)
      → j < b.range
      → here s i u j ≡ false
      → has q (g.queue u j) ≡ true
      → q ≢ (b.limits l).tail
  far_ne_tail u j q hj off m e =
      let r = core.order u j q hj m in
      elim (tail-cases b.orders (b.limits l) (g.queue s i) level) [
        | inl none ↦ Carve.Issued-nonnull sys.page_at b.order_pool q ok.pages r.issued (e ∙ none)
        | inr m' ↦ slots-apart sys b g s i u j core hi hj off nn (
            sym (core.order s i (b.limits l).tail hi m').parent
            ∙ ap (λ t. (b.orders t).parent) (sym e)
            ∙ r.parent)
      ]

  untouched :
      (u : Bool) (j : ℕ) (q : Ptr)
      → j < b.range
      → here s i u j ≡ false
      → has q (g.queue u j) ≡ true
      → IsUntouched sys b g s i l new id lookup' pool' o2 limit' queue' (drop 1 g.free) q
  untouched u j q hj off m =
      let ne = queued_ne u j q hj m in
      let f = fields q ne in
      let (n, p) = links-same q ne (far_ne_tail u j q hj off m) in
      let r = core.order u j q hj m in
      record {
        next = n;
        prev = p;
        size = f.size_eq;
        id = f.id_eq;
        price = f.price_eq;
        side = f.side_eq;
        parent = f.parent_eq;
        listed = table-other (b.orders q).id (id_ne u j q hj m);
        issued = fresh.kept q;
        unused = not-mem-drop q g.free r.unused;
      }

  level-linked : IsLevel sys linked queued s i
  level-linked =
      let old = core.level s i hi in
      let (p, d) = add_order-keeps o1 (b.limits l) new in
      let e = put_self b.limits l limit' in
      let there = here_self s i in
      record {
        empty = λ z. absurd (nn (rw (half-linked s) at z));
        limit = λ _. rw (there, half-linked s, e) level2;
        price = λ _. rw (half-linked s, e, price_at-linked s i) (p ∙ old.price nn);
        side = λ _. rw (half-linked s, e) (d ∙ old.side nn);
        made = λ _. rw (half-linked s) (old.made nn);
        unused = λ _. rw (half-linked s) (old.unused nn);
      }

  resting-old : (q : Ptr) → has q (g.queue s i) ≡ true → IsResting sys linked queued s i q
  resting-old q m =
      let r = core.order s i q hi m in
      let f = fields q (queued_ne s i q hi m) in
      record {
        parent = rw (half-linked s) (f.parent_eq ∙ r.parent);
        price = rw (price_at-linked s i) (f.price_eq ∙ r.price);
        side = f.side_eq ∙ r.side;
        listed =
            ap (view lookup') f.id_eq ∙ table-other (b.orders q).id (id_ne s i q hi m) ∙ r.listed;
        size = rw f.size_eq r.size;
        issued = fresh.kept q r.issued;
        unused = not-mem-drop q g.free r.unused;
      }

  resting-new : IsResting sys linked queued s i new
  resting-new =
      let (i', p, d, r, z, w) = new-fields in
      record {
        parent = rw (half-linked s) r;
        price = rw (price_at-linked s i) (p ∙ at);
        side = d;
        listed = ap (view lookup') i' ∙ table-new;
        size = rw z small;
        issued = fresh.issued;
        unused = fresh.taken;
      }

  resting : (q : Ptr) → has q queue' ≡ true → IsResting sys linked queued s i q
  resting q m = elim (ℕ_discrete q new) [
    | yes e ↦ subst (IsResting sys linked queued s i) (sym e) resting-new
    | no ne ↦ resting-old q (ground (arith, has-snoc q new (g.queue s i)))
  ]

  IsFound-new : IsFound linked queued id
  IsFound-new =
      let (i', p, d, r, z, w) = new-fields in
      record {
        place = i;
        in_range = hi;
        mem = rw (table-new, d, here_self s i) (ground (arith, has-snoc new new (g.queue s i)));
        id_eq = rw table-new i';
      }

  found_ne : (k : ℕ) → k ≢ id → view b.order_lookup k ≢ null → view b.order_lookup k ≢ new
  found_ne k _ ne = let f = core.found k ne in queued_ne _ f.place _ f.in_range f.mem

  relink : IsRelink sys b g s i l new id lookup' pool' o2 limit' queue' (drop 1 g.free)
  relink = record {
    in_range = hi;
    at = refl;
    nonnull = nn;
    level = level-linked;
    resting = resting;
    far = untouched;
    named = λ q ne. let f = fields q ne in (f.id_eq, f.side_eq);
    kept = λ q _ m. ground (arith, has-snoc q new (g.queue s i));
    table = table-other;
    other = found_ne;
    found = λ _. IsFound-new;
  }

  pool-linked : Carve.IsPool sys.page_at o2 pool' (drop 1 g.free)
  pool-linked =
      Carve.IsPool-frame sys.page_at b.orders o2 pool' (drop 1 g.free)
        (λ q m. (links-same q (free_ne q m) (free_ne_tail q m)).0) fresh.rest
    where
      free_ne : (q : Ptr) → has q (drop 1 g.free) ≡ true → q ≢ new
      free_ne q m e = false≢true (sym fresh.taken ∙ ap (λ x. has x (drop 1 g.free)) (sym e) ∙ m)

      free_ne_tail : (q : Ptr) → has q (drop 1 g.free) ≡ true → q ≢ (b.limits l).tail
      free_ne_tail q m e = elim (tail-cases b.orders (b.limits l) (g.queue s i) level) [
        | inl none ↦
            Carve.Issued-nonnull sys.page_at b.order_pool q ok.pages
              (core.pool.issued q (mem-drop q g.free m)) (e ∙ none)
        | inr m' ↦ false≢true (
            sym (core.order s i (b.limits l).tail hi m').unused
            ∙ ap (λ x. has x g.free) (sym e)
            ∙ mem-drop q g.free m)
      ]

  -- Linking a new order at the end of a level's queue keeps the book well formed but for its best
  -- price.
  pub link_order-IsCore : IsCore sys linked queued
  link_order-IsCore =
      IsCore-relinked sys b g s i l new id lookup' pool' o2 limit' queue' (drop 1 g.free) core
        relink table.0 pool-linked
        (Fresh.put-IsPool sys.node_at b.limits b.limit_pool g.free_limits l limit'
          ((core.level s i hi).unused nn) core.nodes)

  -- The client sees the new order under its id, and the others as they were.
  pub entry-linked :
      (k : ℕ)
      → entry linked k ≡ (
          if id == k
          then some (record { side = s; price = price; size = sz; time = ts })
          else entry b k)
  entry-linked k = elim (ℕ_discrete id k) [
    | yes e ↦
        let t : (id == k) ≡ true = ground arith in
        let (i', p, d, r, z, w) = new-fields in
        rw t (
          entry-some linked k new (ap (view lookup') (sym e) ∙ table-new) fresh.nonnull
          ∙ ground (arith, p, d, z, w))
    | no ne ↦
        let t : (id == k) ≡ false = ground arith in
        rw t (
          entry-same b linked k (table-other k (λ e. ne (sym e))) (λ full.
            let f = fields (view b.order_lookup k) (found_ne k (λ e. ne (sym e)) full) in
            ground (arith, f.price_eq, f.side_eq, f.size_eq, f.time_eq)))
  ]
