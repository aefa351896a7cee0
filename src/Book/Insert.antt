-- ===== src/Book/Insert.antt =====
-- `get_or_insert_limit`: the level of a price, made if there is none.
use hft_backtester.Prelude.{
  ℕ, ◌<◌, ◌≤◌, ◌≡◌, ◌≢◌, inl, inr, refl, sym, ◌∙◌, [], Bool, true, false, ◌==◌, ltb, lt→ltb,
  Bool-cases, drop, arith, Returns, returns,
}
use hft_backtester.Heap.{Ptr, null, Limits}
use hft_backtester.Limit.Chain.{not-mem-drop}
use hft_backtester.LimitPool
use hft_backtester.LimitPool.{LimitPool}
use hft_backtester.LimitPool.Fresh
use hft_backtester.Book.{
  Book, System, half, set_half, index, slot_at, set_slot, get_or_insert_limit,
}
use hft_backtester.Book.Invariant.{IsSystem, Ghost, IsCore, IsLevel, price_at}
use hft_backtester.Book.Window.{index-lt-range, price_at-index}
use hft_backtester.Book.Place.{here}
use hft_backtester.Book.Reslot.{
  reslotted, refreed, half-here, half-there, IsReslot, IsCore-reslotted, best-reslotted,
  half-limits, price_at-reslotted,
}

-- What `get_or_insert_limit` promises: a level of the price, and all else as it was.
pub record IsPlaced (sys : System) (b : Book) (g : Ghost) (s : Bool) (i : ℕ) (r : Ptr × Book)
    : Type 0 where
  pub ghost : Ghost
  pub core : IsCore sys r.1 ghost
  pub queue_eq : ghost.queue ≡ g.queue
  pub at : (half s r.1).slot i ≡ r.0
  pub nonnull : r.0 ≢ null
  pub best_eq : (u : Bool) → (half u r.1).best ≡ (half u b).best
  pub slots : (u : Bool) (j : ℕ) → here s i u j ≡ false → (half u r.1).slot j ≡ (half u b).slot j
  pub range_eq : r.1.range ≡ b.range
  pub max_eq : r.1.max ≡ b.max
  pub min_eq : r.1.min ≡ b.min
  pub lookup_eq : r.1.order_lookup ≡ b.order_lookup
  pub orders_eq : r.1.orders ≡ b.orders

module _ (sys : System) (ok : IsSystem sys) (b : Book) (g : Ghost) (core : IsCore sys b g)
    (s : Bool) (i : ℕ) (hi : i < b.range) (price : ℕ) (at : price ≡ price_at s b i)
    (none : (half s b).slot i ≡ null) where
  abbrev new : Ptr
  new = (LimitPool.acquire sys.node_at b.limits b.limit_pool price s).0

  abbrev limits' : Limits
  limits' = (LimitPool.acquire sys.node_at b.limits b.limit_pool price s).1

  abbrev pool' : LimitPool
  pool' = (LimitPool.acquire sys.node_at b.limits b.limit_pool price s).2

  fresh : Fresh.IsFresh sys.node_at b.limits b.limit_pool g.free_limits price s new limits' pool'
  fresh =
      Fresh.acquire-IsFresh sys.node_at ok.nodes b.limits b.limit_pool g.free_limits price s
        core.nodes

  empty : g.queue s i ≡ []
  empty = (core.level s i hi).empty none

  abbrev filled : Book
  filled =
      reslotted sys b g core s i hi empty new (half s b).best limits' pool' (drop 1 g.free_limits)

  abbrev ghost' : Ghost
  ghost' =
      refreed sys b g core s i hi empty new (half s b).best limits' pool' (drop 1 g.free_limits)

  level-filled : IsLevel sys filled ghost' s i
  unfolding set_half
  level-filled =
      let e =
        half-here sys b g core s i hi empty new (half s b).best limits' pool'
          (drop 1 g.free_limits) in
      record {
        empty = λ z. absurd (fresh.nonnull (sym e ∙ z));
        limit = λ _. rw (e, fresh.blank, empty) (record { chain = (refl, refl); volume = refl });
        price = λ _.
            rw
              (
                e,
                fresh.blank,
                price_at-reslotted sys b g core s i hi empty new (half s b).best limits' pool'
                    (drop 1 g.free_limits) s i,
              )
              at;
        side = λ _. rw (e, fresh.blank) refl;
        made = λ _. rw e fresh.made;
        unused = λ _. rw e fresh.taken;
      }

  reslot :
      IsReslot sys b g core s i hi empty new (half s b).best limits' pool' (drop 1 g.free_limits)
  reslot = record {
    level = level-filled;
    same = λ u j hj off ne. fresh.same _ (aside u j hj off ne);
    made = fresh.kept;
    unused = λ u j hj off ne. not-mem-drop _ g.free_limits ((core.level u j hj).unused ne);
    nodes = fresh.rest;
  }
    where
      aside :
          (u : Bool) (j : ℕ)
          → j < b.range
          → here s i u j ≡ false
          → (half u b).slot j ≢ null
          → (half u b).slot j ≢ new
      aside u j hj off ne = let l = core.level u j hj in fresh.unused _ (l.made ne) (l.unused ne)

  -- A level is made.
  insert-IsPlaced : IsPlaced sys b g s i (new, filled)
  unfolding set_half
  insert-IsPlaced = record {
    ghost = ghost';
    core =
        IsCore-reslotted sys b g core s i hi empty new (half s b).best limits' pool'
          (drop 1 g.free_limits) reslot;
    queue_eq = refl;
    at =
        half-here sys b g core s i hi empty new (half s b).best limits' pool'
          (drop 1 g.free_limits);
    nonnull = fresh.nonnull;
    best_eq =
        best-reslotted sys b g core s i hi empty new (half s b).best limits' pool'
          (drop 1 g.free_limits) refl;
    slots =
        half-there sys b g core s i hi empty new (half s b).best limits' pool'
          (drop 1 g.free_limits);
    range_eq = refl;
    max_eq = refl;
    min_eq = refl;
    lookup_eq = refl;
    orders_eq = refl;
  }

module _ (sys : System) (ok : IsSystem sys) (b : Book) (g : Ghost) (core : IsCore sys b g)
    (s : Bool) (price : ℕ) (lo : b.min ≤ price) (hi : price ≤ b.max) where
  abbrev i : ℕ
  i = index s b price

  keep-IsPlaced : (half s b).slot i ≢ null → IsPlaced sys b g s i ((half s b).slot i, b)
  keep-IsPlaced ne = record {
    ghost = g;
    core = core;
    queue_eq = refl;
    at = refl;
    nonnull = ne;
    best_eq = λ u. refl;
    slots = λ u j off. refl;
    range_eq = refl;
    max_eq = refl;
    min_eq = refl;
    lookup_eq = refl;
    orders_eq = refl;
  }

  -- For a price in the window `get_or_insert_limit` stays in the vector and returns a level.
  pub get_or_insert_limit-IsPlaced :
      Returns (IsPlaced sys b g s i) (get_or_insert_limit sys s price b)
  unfolding get_or_insert_limit slot_at set_slot
  get_or_insert_limit-IsPlaced =
      let inside : ltb i b.range ≡ true =
        lt→ltb i b.range (index-lt-range s b price core.window lo hi) in
      elim (Bool-cases ((half s b).slot i == null)) [
        | inl e ↦
            let none : (half s b).slot i ≡ null = ground arith in
            let (new, ls, pool) = LimitPool.acquire sys.node_at b.limits b.limit_pool price s in
            rw (inside, e, half-limits s b ls pool)
              (returns (
                insert-IsPlaced sys ok b g core s i (index-lt-range s b price core.window lo hi)
                  price (sym (price_at-index s b price core.window lo hi)) none))
        | inr e ↦ rw (inside, e) (returns (keep-IsPlaced (ground arith)))
      ]
