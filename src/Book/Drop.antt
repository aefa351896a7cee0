-- ===== src/Book/Drop.antt =====
-- The last part of `cancel_order`: a level that is empty gives up its slot and its memory, and the
-- best price is found again.
use hft_backtester.Prelude.{
  ℕ, ◌-◌, ◌<◌, ◌≡◌, ◌≢◌, inl, inr, refl, sym, ap, subst, ◌∙◌, [], ◌∷◌, Bool, false, lt→ltb,
  Bool-cases, arith, Returns, returns,
}
use hft_backtester.Heap.{Ptr, null, put}
use hft_backtester.Limit.Chain.{has, IsLimit}
use hft_backtester.LimitPool
use hft_backtester.LimitPool.{LimitPool}
use hft_backtester.LimitPool.Fresh
use hft_backtester.Book.{
  Book, System, half, set_half, set_best, set_slot, index, adjust_bbo, skip, drop_limit,
}
use hft_backtester.Book.Invariant.{Ghost, IsCore, IsLevel, IsBook, IsBest, IsFull, price_at}
use hft_backtester.Book.Entry.{entry}
use hft_backtester.Book.Window.{index-price_at}
use hft_backtester.Book.Place.{here, here_iff, slots-apart}
use hft_backtester.Book.Best.{skip-IsBest, set_best-IsBest, set_best-IsCore, set_best-slot}
use hft_backtester.Book.Reslot.{
  reslotted, refreed, half-here, half-there, IsReslot, IsCore-reslotted, half-set_half_self,
  half-set_half_other, half-limits,
}

-- What holds of the book afterwards: it is well formed, with the same queues and orders.
pub record IsDropped (sys : System) (b : Book) (g : Ghost) (b' : Book) : Type 0 where
  pub ghost : Ghost
  pub book : IsBook sys b' ghost
  pub queue_eq : ghost.queue ≡ g.queue
  pub entry_eq : (k : ℕ) → entry b' k ≡ entry b k
  pub lookup_eq : b'.order_lookup ≡ b.order_lookup
  pub min_eq : b'.min ≡ b.min
  pub max_eq : b'.max ≡ b.max

module _ (sys : System) (b : Book) (g : Ghost) (core : IsCore sys b g) (s : Bool) (i : ℕ)
    (hi : i < b.range) (l : Ptr) (nn : l ≢ null) (at : (half s b).slot i ≡ l)
    (empty : g.queue s i ≡ [])
    (full : (u : Bool) (j : ℕ)
      → j < b.range
      → here s i u j ≡ false
      → (half u b).slot j ≢ null
      → g.queue u j ≢ [])
    (best : (u : Bool) → IsBest (half u b) b.range) where
  abbrev pool' : LimitPool
  pool' = LimitPool.release b.limit_pool l

  abbrev cleared : Book
  cleared =
      reslotted sys b g core s i hi empty null (half s b).best b.limits pool' (l ∷ g.free_limits)

  abbrev ghost' : Ghost
  ghost' = refreed sys b g core s i hi empty null (half s b).best b.limits pool' (l ∷ g.free_limits)

  slot_ne : (half s b).slot i ≢ null
  slot_ne e = nn (sym at ∙ e)

  old : IsLevel sys b g s i
  old = core.level s i hi

  limit : IsLimit b.orders (b.limits l) []
  limit =
      subst (IsLimit b.orders (b.limits l)) empty
        (subst (λ p. IsLimit b.orders (b.limits p) (g.queue s i)) at (old.limit slot_ne))

  reslot :
      IsReslot sys b g core s i hi empty null (half s b).best b.limits pool' (l ∷ g.free_limits)
  reslot =
      let none =
        half-here sys b g core s i hi empty null (half s b).best b.limits pool'
          (l ∷ g.free_limits) in
      record {
        level = record {
          empty = λ _. empty;
          limit = λ z. absurd (z none);
          price = λ z. absurd (z none);
          side = λ z. absurd (z none);
          made = λ z. absurd (z none);
          unused = λ z. absurd (z none);
        };
        same = λ u j hj off ne. refl;
        made = λ q h. rw (Fresh.release-made b.limit_pool l) h;
        unused = λ u j hj off ne.
            let far = slots-apart sys b g s i u j core hi hj off slot_ne in
            let kept = (core.level u j hj).unused ne in ground (arith, far, kept, at);
        nodes =
            Fresh.release-IsPool sys.node_at b.limits b.limit_pool g.free_limits l core.nodes nn
              (subst (λ p. has p g.free_limits ≡ false) at (old.unused slot_ne))
              (subst (Fresh.IsMade sys.node_at b.limit_pool.made) at (old.made slot_ne))
              limit.chain;
      }

  core' : IsCore sys cleared ghost'
  core' =
      IsCore-reslotted sys b g core s i hi empty null (half s b).best b.limits pool'
        (l ∷ g.free_limits) reslot

  abbrev next_best : ℕ
  next_best =
      skip (half s cleared).slot cleared.range (cleared.range - (half s cleared).best)
        (half s cleared).best

  abbrev done : Book
  done = set_best s cleared next_best

  half-cleared :
      half s cleared ≡ record { slot = put (half s b).slot i null; best = (half s b).best }
  half-cleared = half-set_half_self s _ _

  range-cleared : cleared.range ≡ b.range
  unfolding set_half
  range-cleared = refl

  still-none : (j : ℕ) → j < (half s b).best → put (half s b).slot i null j ≡ null
  unfolding put
  still-none j h = let e = (best s).none_before j h in ground arith

  best-side : IsBest (record { slot = (half s cleared).slot; best = next_best }) b.range
  best-side =
      rw (half-cleared, range-cleared)
        (skip-IsBest (put (half s b).slot i null) b.range (b.range - (half s b).best)
          (half s b).best (best s).bound (omega arith) still-none)

  IsBest-done : (u : Bool) → IsBest (half u done) b.range
  IsBest-done = set_best-IsBest s cleared next_best b.range best-side λ u ne.
      rw
        (
          half-set_half_other s u
              (record { slot = put (half s b).slot i null; best = (half s b).best })
              (record b { limits = b.limits; limit_pool = pool' }) ne,
          half-limits u b b.limits pool',
        )
        (best u)

  range-done : done.range ≡ b.range
  unfolding set_half set_best
  range-done = refl

  slot-done : (u : Bool) (j : ℕ) → here s i u j ≡ false → (half u done).slot j ≡ (half u b).slot j
  slot-done u j off =
      ap (λ f. f j) (set_best-slot s u cleared next_best)
      ∙ half-there sys b g core s i hi empty null (half s b).best b.limits pool' (l ∷ g.free_limits)
          u j off

  slot-gone : (half s done).slot i ≡ null
  slot-gone =
      ap (λ f. f i) (set_best-slot s s cleared next_best)
      ∙ half-here sys b g core s i hi empty null (half s b).best b.limits pool' (l ∷ g.free_limits)

  IsFull-done : IsFull done ghost'
  IsFull-done u j hj ne = elim (Bool-cases (here s i u j)) [
    | inl on ↦
        let (su, ij) = here_iff s i u j on in
        absurd (
          ne (
            subst (λ v. (half v done).slot j ≡ null) su
              (subst (λ k. (half s done).slot k ≡ null) ij slot-gone)))
    | inr off ↦ full u j (rw (← range-done) hj) off (λ e. ne (slot-done u j off ∙ e))
  ]

  entry-done : (k : ℕ) → entry done k ≡ entry b k
  unfolding set_half set_best entry
  entry-done k = refl

  done-IsDropped : IsDropped sys b g done
  unfolding set_half set_best
  done-IsDropped = record {
    ghost = ghost';
    book = record {
      core = set_best-IsCore sys s cleared ghost' next_best core';
      full = IsFull-done;
      best = λ u. subst (IsBest (half u done)) (sym range-done) (IsBest-done u);
    };
    queue_eq = refl;
    entry_eq = entry-done;
    lookup_eq = refl;
    min_eq = refl;
    max_eq = refl;
  }

  index-limit : index s b (b.limits l).price ≡ i
  index-limit =
      rw ((subst (λ p. (b.limits p).price ≡ price_at s b i) at (old.price slot_ne)))
        (index-price_at s b i core.window hi)

  -- Dropping an empty level succeeds, and the book is well formed again.
  pub drop_limit-IsDropped : Returns (IsDropped sys b g) (drop_limit sys s l b)
  unfolding drop_limit set_slot adjust_bbo set_half
  drop_limit-IsDropped = rw (index-limit, lt→ltb i b.range hi) (returns done-IsDropped)
