-- ===== src/Book/Resize.antt =====
-- `modify_order` where the order keeps its place in its queue: its size, its time, and the volume of
-- its level change.
use hft_backtester.Prelude.{
  ℕ, ◌+◌, ◌%◌, ◌<◌, ◌^◌, ◌≡◌, ◌≢◌, inl, inr, refl, sym, ap, subst, ◌∙◌, Bool, true, false, ◌==◌,
  if◌then◌else◌, ℕ_discrete, Bool-cases, some, arith,
}
use hft_backtester.Heap.{Ptr, null, Limit, Orders, put, put_self, put_ne}
use hft_backtester.Limit.Chain.{has, total, IsLimit, Chain-same, total-resized}
use hft_backtester.OrderPool.Carve
use hft_backtester.LimitPool.Fresh
use hft_backtester.PageMap.View.{view}
use hft_backtester.Book.{Book, System, half}
use hft_backtester.Book.Invariant.{
  IsSystem, Ghost, IsCore, IsBook, IsLevel, IsResting, IsFound, price_at,
}
use hft_backtester.Book.Entry.{entry, entry-some, entry-same}
use hft_backtester.Book.Place.{here, here_iff, here_self, slots-apart}
use hft_backtester.Book.Relink.{relinked, requeued, IsUntouched, IsRelink, IsCore-relinked}

module _ (sys : System) (ok : IsSystem sys) (b : Book) (g : Ghost) (book : IsBook sys b g)
    (s : Bool) (i : ℕ) (hi : i < b.range) (t : Ptr) (mine : has t (g.queue s i) ≡ true) (sz ts : ℕ)
    (small : sz < 2 ^ 32) where
  abbrev pub l : Ptr
  l = (b.orders t).parent

  abbrev id : ℕ
  id = (b.orders t).id

  abbrev pub orders' : Orders
  orders' = put b.orders t (record (b.orders t) { size = sz; unix_time = ts })

  record IsSame (q : Ptr) : Type 0 where
    id_eq : (orders' q).id ≡ (b.orders q).id
    price_eq : (orders' q).price ≡ (b.orders q).price
    side_eq : (orders' q).side ≡ (b.orders q).side
    parent_eq : (orders' q).parent ≡ (b.orders q).parent
    next_eq : (orders' q).next ≡ (b.orders q).next
    prev_eq : (orders' q).prev ≡ (b.orders q).prev

  same : (q : Ptr) → IsSame q
  unfolding put
  same q = record {
    id_eq = ground arith;
    price_eq = ground arith;
    side_eq = ground arith;
    parent_eq = ground arith;
    next_eq = ground arith;
    prev_eq = ground arith;
  }

  other : (q : Ptr) → q ≢ t → orders' q ≡ b.orders q
  other q ne = put_ne b.orders t _ q (λ e. ne (sym e))

  self : orders' t ≡ record (b.orders t) { size = sz; unix_time = ts }
  self = put_self b.orders t _

  it : IsResting sys b g s i t
  it = book.core.order s i t hi mine

  slot_ne : (half s b).slot i ≢ null
  slot_ne e = cc (mine, (book.core.level s i hi).empty e)

  -- An order of another level is another order.
  far_ne :
      (u : Bool) (j : ℕ) (q : Ptr)
      → j < b.range
      → here s i u j ≡ false
      → has q (g.queue u j) ≡ true
      → q ≢ t
  far_ne u j q hj off m e =
      slots-apart sys b g s i u j book.core hi hj off slot_ne (
        sym it.parent ∙ ap (λ y. (b.orders y).parent) (sym e) ∙ (book.core.order u j q hj m).parent)

  pub old_limit : IsLimit b.orders (b.limits l) (g.queue s i)
  old_limit =
      subst (λ p. IsLimit b.orders (b.limits p) (g.queue s i)) (sym it.parent)
        ((book.core.level s i hi).limit slot_ne)

  -- The sum of the sizes follows the change.
  pub total-resize :
      total orders' (g.queue s i) + (b.orders t).size ≡ total b.orders (g.queue s i) + sz
  total-resize =
      let e =
        total-resized b.orders orders' t (λ q ne. ap (λ o. o.size) (other q ne)) null _ _
          (g.queue s i) old_limit.chain mine in
      e ∙ ap (λ o. total b.orders (g.queue s i) + o.size) self

  -- the level afterwards
  module _ (limit : Limit) (head_eq : limit.head ≡ (b.limits l).head)
      (tail_eq : limit.tail ≡ (b.limits l).tail) (price_eq : limit.price ≡ (b.limits l).price)
      (side_eq : limit.side ≡ (b.limits l).side)
      (volume_eq : limit.volume ≡ total orders' (g.queue s i) % 2 ^ 32) where
    abbrev pub resized : Book
    resized =
        relinked sys b g s i l t id b.order_lookup b.order_pool orders' limit (g.queue s i) g.free

    abbrev pub ghost' : Ghost
    ghost' =
        requeued sys b g s i l t id b.order_lookup b.order_pool orders' limit (g.queue s i) g.free

    half-resized : (u : Bool) → half u resized ≡ half u b
    unfolding half
    half-resized true = refl
    half-resized false = refl

    price_at-resized : (u : Bool) (j : ℕ) → price_at u resized j ≡ price_at u b j
    price_at-resized true j = refl
    price_at-resized false j = refl

    limit-resized : IsLimit orders' limit (g.queue s i)
    limit-resized = record {
      chain =
          rw (head_eq, tail_eq)
            (Chain-same b.orders orders' (λ q. (same q).next_eq) (λ q. (same q).prev_eq) null _ _
              (g.queue s i) old_limit.chain);
      volume = volume_eq;
    }

    level-resized : IsLevel sys resized ghost' s i
    level-resized =
        let old = book.core.level s i hi in
        let e = put_self b.limits l limit in
        let there = here_self s i in
        let at = it.parent in
        record {
          empty = λ z. absurd (slot_ne (rw (half-resized s) at z));
          limit = λ _. rw (there, half-resized s, ← at, e) limit-resized;
          price = λ _.
              rw (half-resized s, ← at, e, price_at-resized s i)
                (price_eq ∙ ap (λ x. (b.limits x).price) at ∙ old.price slot_ne);
          side = λ _.
              rw (half-resized s, ← at, e)
                (side_eq ∙ ap (λ x. (b.limits x).side) at ∙ old.side slot_ne);
          made = λ _. rw (half-resized s) (old.made slot_ne);
          unused = λ _. rw (half-resized s) (old.unused slot_ne);
        }

    size-lt : (q : Ptr) → (b.orders q).size < 2 ^ 32 → (orders' q).size < 2 ^ 32
    size-lt q h = elim (ℕ_discrete q t) [ yes e ↦ rw (e, self) small | no ne ↦ rw (other q ne) h ]

    resting : (q : Ptr) → has q (g.queue s i) ≡ true → IsResting sys resized ghost' s i q
    resting q m =
        let r = book.core.order s i q hi m in
        let f = same q in
        record {
          parent = rw (half-resized s) (f.parent_eq ∙ r.parent);
          price = rw (price_at-resized s i) (f.price_eq ∙ r.price);
          side = f.side_eq ∙ r.side;
          listed = ap (view b.order_lookup) f.id_eq ∙ r.listed;
          size = size-lt q r.size;
          issued = r.issued;
          unused = r.unused;
        }

    untouched :
        (u : Bool) (j : ℕ) (q : Ptr)
        → j < b.range
        → here s i u j ≡ false
        → has q (g.queue u j) ≡ true
        → IsUntouched sys b g s i l t id b.order_lookup b.order_pool orders' limit
            (g.queue s i)
            g.free
            q
    untouched u j q hj off m =
        let f = same q in
        record {
          next = f.next_eq;
          prev = f.prev_eq;
          size = ap (λ o. o.size) (other q (far_ne u j q hj off m));
          id = f.id_eq;
          price = f.price_eq;
          side = f.side_eq;
          parent = f.parent_eq;
          listed = refl;
          issued = λ h. h;
          unused = (book.core.order u j q hj m).unused;
        }

    pub queue-resized : (u : Bool) (j : ℕ) → ghost'.queue u j ≡ g.queue u j
    queue-resized u j = elim (Bool-cases (here s i u j)) [
      | inl on ↦
          let (su, ij) = here_iff s i u j on in
          rw on (
            subst (λ v. g.queue s i ≡ g.queue v j) su
              (subst (λ k. g.queue s i ≡ g.queue s k) ij refl))
      | inr off ↦ rw off refl
    ]

    found_ne : (k : ℕ) → k ≢ id → view b.order_lookup k ≢ null → view b.order_lookup k ≢ t
    found_ne k ne full e = ne (sym (book.core.found k full).id_eq ∙ ap (λ q. (b.orders q).id) e)

    IsFound-resized : (k : ℕ) → view b.order_lookup k ≢ null → IsFound resized ghost' k
    IsFound-resized k full =
        let f = book.core.found k full in
        let h = same (view b.order_lookup k) in
        record {
          place = f.place;
          in_range = f.in_range;
          mem = rw (h.side_eq, queue-resized (b.orders (view b.order_lookup k)).side f.place) f.mem;
          id_eq = h.id_eq ∙ f.id_eq;
        }

    relink :
        IsRelink sys b g s i l t id b.order_lookup b.order_pool orders' limit (g.queue s i) g.free
    relink = record {
      in_range = hi;
      at = sym it.parent;
      nonnull = λ e. slot_ne (sym it.parent ∙ e);
      level = level-resized;
      resting = resting;
      far = untouched;
      named = λ q ne. let f = same q in (f.id_eq, f.side_eq);
      kept = λ q ne m. m;
      table = λ k ne. refl;
      other = found_ne;
      found = IsFound-resized id;
    }

    pool-resized : Carve.IsPool sys.page_at orders' b.order_pool g.free
    pool-resized =
        Carve.IsPool-frame sys.page_at b.orders orders' b.order_pool g.free
          (λ q m. (same q).next_eq) book.core.pool

    core-resized : IsCore sys resized ghost'
    core-resized =
        IsCore-relinked sys b g s i l t id b.order_lookup b.order_pool orders' limit (g.queue s i)
          g.free book.core relink book.core.map pool-resized
          (Fresh.put-IsPool sys.node_at b.limits b.limit_pool g.free_limits l limit
            (subst (λ x. has x g.free_limits ≡ false) (sym it.parent)
              ((book.core.level s i hi).unused slot_ne))
            book.core.nodes)

    -- The book stays well formed.
    pub resized-IsBook : IsBook sys resized ghost'
    resized-IsBook = record {
      core = core-resized;
      full = λ u j hj ne. rw (queue-resized u j) (book.full u j hj (rw (half-resized u) at ne));
      best = λ u. rw (half-resized u) (book.best u);
    }

    -- A client sees the new size and time under the order's id, and the others as they were.
    pub entry-resized :
        (k : ℕ)
        → entry resized k ≡ (
            if id == k
            then some (record { side = s; price = (b.orders t).price; size = sz; time = ts })
            else entry b k)
    entry-resized k = elim (ℕ_discrete id k) [
      | yes e ↦
          let at : (id == k) ≡ true = ground arith in
          rw at (
            entry-some resized k t (ap (view b.order_lookup) (sym e) ∙ it.listed)
              (Carve.Issued-nonnull sys.page_at b.order_pool t ok.pages it.issued)
            ∙ rw self (ground (arith, it.side)))
      | no ne ↦
          let at : (id == k) ≡ false = ground arith in
          rw at (
            entry-same b resized k refl
              (λ full. rw (other (view b.order_lookup k) (found_ne k (λ e. ne (sym e)) full)) refl))
    ]
