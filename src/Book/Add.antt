-- ===== src/Book/Add.antt =====
-- `add_order`: a new order keeps the book well formed, at the end of its level's queue.
use hft_backtester.Prelude.{
  ℕ, ◌<◌, ◌≤◌, ◌^◌, ◌≡◌, ◌≢◌, inl, inr, refl, sym, ap, subst, ◌∙◌, List, [], ◌∷◌, ◌++◌, Bool, true,
  false, ◌==◌, Bool-cases, some, Returns, returns, Returns-bind, min, if◌then◌else◌,
}
use hft_backtester.Heap.{Ptr, null}
use hft_backtester.PageMap.View.{view}
use hft_backtester.Book.{Book, System, half, set_half, set_best, index, add_order, link_order}
use hft_backtester.Book.Invariant.{IsSystem, Ghost, IsBook, IsBest, IsFull, price_at}
use hft_backtester.Book.Window.{index-lt-range, price_at-index}
use hft_backtester.Book.Place.{here, here_ne, here_ne_side}
use hft_backtester.Book.Best.{
  min-IsBest, IsBest-ext, set_best-IsBest, set_best-IsCore, set_best-slot, entry-set_best,
}
use hft_backtester.Book.Insert.{IsPlaced, get_or_insert_limit-IsPlaced}
use hft_backtester.Book.Link.{
  new, linked, queued, link_order-linked, link_order-IsCore, entry-linked, half-linked, table-new,
}
use hft_backtester.Book.Entry.{entry, entry_of, entry-same}

-- What `add_order` promises of the book afterwards: it is well formed, its queues are those of before
-- with one order more at the end of the queue of its level, and a client sees the order under its id
-- and the others as they were.
pub record IsAdded (sys : System) (b : Book) (g : Ghost) (s : Bool) (id price sz ts : ℕ) (b' : Book)
    : Type 0 where
  pub ghost : Ghost
  pub book : IsBook sys b' ghost
  pub queue_eq :
      (u : Bool) (j : ℕ)
      → ghost.queue u j ≡ (
          if here s (index s b price) u j
          then g.queue s (index s b price) ++ view b'.order_lookup id ∷ []
          else g.queue u j)
  pub entry_eq :
      (k : ℕ)
      → entry b' k ≡ (
          if id == k
          then some (record { side = s; price = price; size = sz; time = ts })
          else entry b k)
  pub min_eq : b'.min ≡ b.min
  pub max_eq : b'.max ≡ b.max

pub index-same :
    (s : Bool) (b c : Book) (px : ℕ) → c.max ≡ b.max → c.min ≡ b.min → index s c px ≡ index s b px
unfolding index
index-same true b c px e f = rw e refl
index-same false b c px e f = rw f refl

price_at-same :
    (s : Bool) (b c : Book) (j : ℕ)
    → c.max ≡ b.max
    → c.min ≡ b.min
    → price_at s b j ≡ price_at s c j
price_at-same true b c j e f = rw e refl
price_at-same false b c j e f = rw f refl

-- a queue with one more at its end is not empty
snoc-nonempty : (xs : List Ptr) (q : Ptr) → xs ++ q ∷ [] ≢ []
snoc-nonempty [] q e = cc
snoc-nonempty (x ∷ xs) q e = cc

module _ (sys : System) (ok : IsSystem sys) (b : Book) (g : Ghost) (book : IsBook sys b g)
    (s : Bool) (id price sz ts : ℕ) (lo : b.min ≤ price) (hi : price ≤ b.max) (small : sz < 2 ^ 32)
    (free_id : view b.order_lookup id ≡ null) where
  abbrev i : ℕ
  i = index s b price

  module _ (b1 : Book) (p : IsPlaced sys b g s i ((half s b1).slot i, b1)) where
    inside : i < b1.range
    inside = rw p.range_eq (index-lt-range s b price book.core.window lo hi)

    at : price ≡ price_at s b1 i
    at =
        sym (price_at-index s b price book.core.window lo hi)
        ∙ price_at-same s b b1 i p.max_eq p.min_eq

    free1 : view b1.order_lookup id ≡ null
    free1 = ap (λ m. view m id) p.lookup_eq ∙ free_id

    abbrev after : Book
    after = linked sys ok b1 p.ghost p.core s i inside p.nonnull id price sz ts at small free1

    abbrev next_best : ℕ
    next_best = min (half s after).best (index s after price)

    abbrev done : Book
    done = set_best s after next_best

    range-done : done.range ≡ b.range
    unfolding set_best set_half
    range-done = p.range_eq

    abbrev ghost' : Ghost
    ghost' = queued sys ok b1 p.ghost p.core s i inside p.nonnull id price sz ts at small free1

    half-after : (u : Bool) → half u after ≡ half u b1
    half-after =
        half-linked sys ok b1 p.ghost p.core s i inside p.nonnull id price sz ts at small free1

    -- The slots of the levels but for the one of the price are those of before.
    slot-other : (j : ℕ) → j ≢ i → (half s b1).slot j ≡ (half s b).slot j
    slot-other j ne = p.slots s j (here_ne s i j (λ e. ne (sym e)))

    best-side : IsBest (record { slot = (half s after).slot; best = next_best }) b.range
    best-side =
        rw (half-after s, p.best_eq s, index-same s b after price p.max_eq p.min_eq)
          (min-IsBest (half s b) (half s b1).slot b.range i (book.best s)
            (index-lt-range s b price book.core.window lo hi) p.nonnull slot-other)

    IsBest-done : (u : Bool) → IsBest (half u done) b.range
    IsBest-done = set_best-IsBest s after next_best b.range best-side λ u ne. rw (half-after u) (
        IsBest-ext (half u b) (half u b1) b.range (p.best_eq u)
          (λ j. p.slots u j (here_ne_side s u i j ne)) (book.best u))

    slot-done : (u : Bool) (j : ℕ) → (half u done).slot j ≡ (half u b1).slot j
    slot-done u j =
        ap (λ f. f j) (set_best-slot s u after next_best) ∙ ap (λ h. h.slot j) (half-after u)

    table-done :
        view after.order_lookup id
        ≡ new sys ok b1 p.ghost p.core s i inside p.nonnull id price sz ts at small free1
    table-done =
        table-new sys ok b1 p.ghost p.core s i inside p.nonnull id price sz ts at small free1

    queue-done :
        (u : Bool) (j : ℕ)
        → ghost'.queue u j
          ≡ (if here s i u j then g.queue s i ++ view done.order_lookup id ∷ [] else g.queue u j)
    unfolding set_best set_half
    queue-done u j =
        rw p.queue_eq
          (ap (λ x. if here s i u j then g.queue s i ++ x ∷ [] else g.queue u j) (sym table-done))

    IsFull-done : IsFull done ghost'
    IsFull-done u j hj ne = elim (Bool-cases (here s i u j)) [
      | inl on ↦ rw (queue-done u j, on) (snoc-nonempty (g.queue s i) _)
      | inr off ↦
          rw (queue-done u j, off)
            (book.full u j (rw (← range-done) hj) (λ e. ne (slot-done u j ∙ p.slots u j off ∙ e)))
    ]

    entry-done :
        (k : ℕ)
        → entry done k ≡ (
            if id == k
            then some (record { side = s; price = price; size = sz; time = ts })
            else entry b k)
    entry-done k =
        entry-set_best s after next_best k
        ∙ entry-linked sys ok b1 p.ghost p.core s i inside p.nonnull id price sz ts at small free1 k
        ∙ ap
            (λ x.
              if id == k
              then some (record { side = s; price = price; size = sz; time = ts })
              else x)
            (entry-same b b1 k (ap (λ m. view m k) p.lookup_eq)
              (λ _. ap (λ o. entry_of (o (view b.order_lookup k))) p.orders_eq))

    done-IsAdded : IsAdded sys b g s id price sz ts done
    unfolding set_best set_half
    done-IsAdded = record {
      ghost = ghost';
      book = record {
        core = set_best-IsCore sys s after ghost' next_best (
            link_order-IsCore sys ok b1 p.ghost p.core s i inside p.nonnull id price sz ts at small
              free1);
        full = IsFull-done;
        best = λ u. subst (IsBest (half u done)) (sym range-done) (IsBest-done u);
      };
      queue_eq = queue-done;
      entry_eq = entry-done;
      min_eq = p.min_eq;
      max_eq = p.max_eq;
    }

  -- the rest of `add_order`, at any name of the level
  finish :
      (b1 : Book) (l : Ptr)
      → (half s b1).slot i ≡ l
      → IsPlaced sys b g s i (l, b1)
      → Returns (IsAdded sys b g s id price sz ts) (
          let b' : Book = link_order sys s id price sz ts l b1 in
          some (set_best s b' (min (half s b').best (index s b' price))))
  finish b1 l e p =
      let p' = subst (λ x. IsPlaced sys b g s i (x, b1)) (sym e) p in
      let same =
        link_order-linked sys ok b1 p'.ghost p'.core s i (inside b1 p') p'.nonnull id price sz ts
          (at b1 p') small (free1 b1 p') in
      rw (← e, same) (returns (done-IsAdded b1 p'))

  -- Adding an order with a price in the window and a new id succeeds, and does what is promised.
  pub add_order-IsAdded :
      Returns (IsAdded sys b g s id price sz ts) (add_order sys s id price sz ts b)
  unfolding add_order
  add_order-IsAdded =
      Returns-bind (get_or_insert_limit-IsPlaced sys ok b g book.core s price lo hi)
        (λ r p. finish r.1 r.0 p.at p)
