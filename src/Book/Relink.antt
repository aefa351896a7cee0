-- ===== src/Book/Relink.antt =====
-- A change at one level: what has to be shown of the other levels, once for all operations.
use hft_backtester.Prelude.{
  ℕ, ◌<◌, ◌≡◌, ◌≢◌, inl, inr, refl, sym, ap, subst, ◌∙◌, List, Bool, true, false, if◌then◌else◌,
  Bool-cases, ℕ_discrete,
}
use hft_backtester.Heap.{Ptr, null, Limit, Orders, put, put_ne}
use hft_backtester.Limit.Chain.{has, IsLimit, Chain-frame, total-frame, SameOn}
use hft_backtester.OrderPool.{OrderPool}
use hft_backtester.OrderPool.Carve
use hft_backtester.PageMap.{PageMap}
use hft_backtester.PageMap.View.{IsMap, view}
use hft_backtester.LimitPool.Fresh
use hft_backtester.Book.{Book, System, half}
use hft_backtester.Book.Invariant.{Ghost, IsCore, IsLevel, IsResting, IsFound, price_at}
use hft_backtester.Book.Place.{here, here_iff, slots-apart}

abbrev pub update : (Bool → ℕ → List Ptr) → Bool → ℕ → List Ptr → Bool → ℕ → List Ptr
update q s i xs u j = if here s i u j then xs else q u j

pub IsLimit-frame :
    (o o' : Orders) (l : Limit) (xs : List Ptr) → SameOn o o' xs → IsLimit o l xs → IsLimit o' l xs
IsLimit-frame o o' l xs same v = record {
  chain = Chain-frame o o' null l.head l.tail xs same v.chain;
  volume = rw (total-frame o o' xs same) v.volume;
}

module _ (sys : System) (b : Book) (g : Ghost) (s : Bool) (i : ℕ) (l : Ptr) (t : Ptr)
    (key : ℕ) where
  module _ (lookup : PageMap) (pool : OrderPool) (orders : Orders) (limit : Limit) (xs : List Ptr)
      (free : List Ptr) where
    -- the book and its queues afterwards
    abbrev pub relinked : Book
    relinked = record b {
      order_lookup = lookup;
      order_pool = pool;
      orders = orders;
      limits = put b.limits l limit;
    }

    abbrev pub requeued : Ghost
    requeued = record g { queue = update g.queue s i xs; free = free }

    -- What is asked of an order of another level.
    pub record IsUntouched (q : Ptr) : Type 0 where
      pub next : (orders q).next ≡ (b.orders q).next
      pub prev : (orders q).prev ≡ (b.orders q).prev
      pub size : (orders q).size ≡ (b.orders q).size
      pub id : (orders q).id ≡ (b.orders q).id
      pub price : (orders q).price ≡ (b.orders q).price
      pub side : (orders q).side ≡ (b.orders q).side
      pub parent : (orders q).parent ≡ (b.orders q).parent
      pub listed : view lookup (b.orders q).id ≡ view b.order_lookup (b.orders q).id
      pub issued : Carve.Issued sys.page_at b.order_pool q → Carve.Issued sys.page_at pool q
      pub unused : has q free ≡ false

    -- What is asked of the change.
    pub record IsRelink : Type 0 where
      pub in_range : i < b.range
      pub at : (half s b).slot i ≡ l
      pub nonnull : l ≢ null
      pub level : IsLevel sys relinked requeued s i
      pub resting : (p : Ptr) → has p xs ≡ true → IsResting sys relinked requeued s i p
      pub far :
          (u : Bool) (j : ℕ) (q : Ptr)
          → j < b.range
          → here s i u j ≡ false
          → has q (g.queue u j) ≡ true
          → IsUntouched q
      pub named :
          (q : Ptr)
          → q ≢ t
          → ((orders q).id ≡ (b.orders q).id) × ((orders q).side ≡ (b.orders q).side)
      pub kept : (q : Ptr) → q ≢ t → has q (g.queue s i) ≡ true → has q xs ≡ true
      pub table : (k : ℕ) → k ≢ key → view lookup k ≡ view b.order_lookup k
      pub other : (k : ℕ) → k ≢ key → view b.order_lookup k ≢ null → view b.order_lookup k ≢ t
      pub found : view lookup key ≢ null → IsFound relinked requeued key

    module _ (core : IsCore sys b g) (r : IsRelink) where
      half-relinked : (u : Bool) → half u relinked ≡ half u b
      unfolding half
      half-relinked true = refl
      half-relinked false = refl

      price_at-relinked : (u : Bool) (j : ℕ) → price_at u relinked j ≡ price_at u b j
      price_at-relinked true j = refl
      price_at-relinked false j = refl

      mem-requeued :
          (u : Bool) (j : ℕ) (q : Ptr)
          → q ≢ t
          → has q (g.queue u j) ≡ true
          → has q (update g.queue s i xs u j) ≡ true
      mem-requeued u j q ne m = elim (Bool-cases (here s i u j)) [
        | inl on ↦
            let (su, ij) = here_iff s i u j on in
            let mine : has q (g.queue s i) ≡ true =
              subst (λ v. has q (g.queue v i) ≡ true) (sym su)
                (subst (λ k. has q (g.queue u k) ≡ true) (sym ij) m) in
            rw on (r.kept q ne mine)
        | inr off ↦ rw off m
      ]

      level-far :
          (u : Bool) (j : ℕ)
          → j < b.range
          → here s i u j ≡ false
          → IsLevel sys relinked requeued u j
      level-far u j hj off =
          let p = core.level u j hj in
          let other = λ (ne : (half u b).slot j ≢ null).
            put_ne b.limits l limit ((half u b).slot j) (λ e.
              slots-apart sys b g s i u j core r.in_range hj off (λ z. r.nonnull (sym r.at ∙ z))
                (r.at ∙ e)) in
          record {
            empty = λ e. rw off (p.empty (rw (half-relinked u) at e));
            limit = λ ne.
                let ne' = rw (half-relinked u) at ne in
                rw (off, half-relinked u, other ne')
                  (IsLimit-frame b.orders orders _ (g.queue u j)
                    (λ q m. let h = r.far u j q hj off m in (h.next, h.prev, h.size))
                    (p.limit ne'));
            price = λ ne.
                let ne' = rw (half-relinked u) at ne in
                rw (half-relinked u, other ne', price_at-relinked u j) (p.price ne');
            side = λ ne.
                let ne' = rw (half-relinked u) at ne in
                rw (half-relinked u, other ne') (p.side ne');
            made = λ ne. let ne' = rw (half-relinked u) at ne in rw (half-relinked u) (p.made ne');
            unused =
                λ ne. let ne' = rw (half-relinked u) at ne in rw (half-relinked u) (p.unused ne');
          }

      order-far :
          (u : Bool) (j : ℕ) (q : Ptr)
          → j < b.range
          → has q (g.queue u j) ≡ true
          → IsUntouched q
          → IsResting sys relinked requeued u j q
      order-far u j q hj m h =
          let p = core.order u j q hj m in
          record {
            parent = rw (half-relinked u) (h.parent ∙ p.parent);
            price = rw (price_at-relinked u j) (h.price ∙ p.price);
            side = h.side ∙ p.side;
            listed = ap (view lookup) h.id ∙ h.listed ∙ p.listed;
            size = rw h.size p.size;
            issued = h.issued p.issued;
            unused = h.unused;
          }

      IsFound-far : (k : ℕ) → k ≢ key → view b.order_lookup k ≢ null → IsFound relinked requeued k
      IsFound-far k other ne =
          let p = core.found k ne in
          let q : Ptr = view b.order_lookup k in
          let e : view lookup k ≡ q = r.table k other in
          let (same_id, same_side) = r.named q (r.other k other ne) in
          record {
            place = p.place;
            in_range = p.in_range;
            mem =
                rw (e, same_side)
                  (mem-requeued (b.orders q).side p.place q (r.other k other ne) p.mem);
            id_eq = rw e (same_id ∙ p.id_eq);
          }

      level-relinked : (u : Bool) (j : ℕ) → j < b.range → IsLevel sys relinked requeued u j
      level-relinked u j hj = elim (Bool-cases (here s i u j)) [
        | inl on ↦
            let (su, ij) = here_iff s i u j on in
            subst (λ v. IsLevel sys relinked requeued v j) su
              (subst (λ k. IsLevel sys relinked requeued s k) ij r.level)
        | inr off ↦ level-far u j hj off
      ]

      -- Every order of the queues knows its level afterwards.
      order-relinked :
          (u : Bool) (j : ℕ) (q : Ptr)
          → j < b.range
          → has q (update g.queue s i xs u j) ≡ true
          → IsResting sys relinked requeued u j q
      order-relinked u j q hj m = elim (Bool-cases (here s i u j)) [
        | inl on ↦
            let (su, ij) = here_iff s i u j on in
            let mine : has q xs ≡ true = rw on at m in
            subst (λ v. IsResting sys relinked requeued v j q) su
              (subst (λ k. IsResting sys relinked requeued s k q) ij (r.resting q mine))
        | inr off ↦
            let theirs : has q (g.queue u j) ≡ true = rw off at m in
            order-far u j q hj theirs (r.far u j q hj off theirs)
      ]

      -- What the table leads to is in a queue afterwards.
      IsFound-relinked : (k : ℕ) → view lookup k ≢ null → IsFound relinked requeued k
      IsFound-relinked k ne = elim (ℕ_discrete k key) [
        | yes e ↦ subst (IsFound relinked requeued) (sym e) (r.found (rw e at ne))
        | no other ↦ IsFound-far k other (rw (r.table k other) at ne)
      ]

      pub IsCore-relinked :
          IsMap lookup
          → Carve.IsPool sys.page_at orders pool free
          → Fresh.IsPool sys.node_at (put b.limits l limit) b.limit_pool g.free_limits
          → IsCore sys relinked requeued
      IsCore-relinked map carve nodes = record {
        window = record {
          ordered = core.window.ordered;
          small = core.window.small;
          range = core.window.range;
        };
        level = level-relinked;
        order = order-relinked;
        found = IsFound-relinked;
        map = map;
        pool = carve;
        nodes = nodes;
      }
