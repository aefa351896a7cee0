-- ===== src/Book/Reslot.antt =====
-- A level with an empty queue gets another slot: `get_or_insert_limit` fills it, `cancel_order`
-- clears it.
use hft_backtester.Prelude.{
  ℕ, ◌<◌, ◌≡◌, ◌≢◌, inl, inr, refl, sym, subst, ◌∙◌, List, [], Bool, true, false, Bool-cases, arith,
}
use hft_backtester.Heap.{Ptr, null, Limits, put}
use hft_backtester.Limit.Chain.{has}
use hft_backtester.LimitPool.{LimitPool}
use hft_backtester.LimitPool.Fresh
use hft_backtester.Book.{Half, Book, System, half, set_half}
use hft_backtester.Book.Invariant.{Ghost, IsCore, IsLevel, IsResting, price_at}
use hft_backtester.Book.Place.{here, here_iff}

-- `set_half` replaces one half.
pub half-set_half_self : (s : Bool) (h : Half) (b : Book) → half s (set_half s h b) ≡ h
unfolding half set_half
half-set_half_self true h b = refl
half-set_half_self false h b = refl

pub half-set_half_other :
    (s u : Bool) (h : Half) (b : Book) → s ≢ u → half u (set_half s h b) ≡ half u b
unfolding half set_half
half-set_half_other true true h b ne = absurd (ne refl)
half-set_half_other true false h b ne = refl
half-set_half_other false true h b ne = refl
half-set_half_other false false h b ne = absurd (ne refl)

-- The halves do not see the limits.
pub half-limits :
    (u : Bool) (b : Book) (ls : Limits) (p : LimitPool)
    → half u (record b { limits = ls; limit_pool = p }) ≡ half u b
unfolding half
half-limits true b ls p = refl
half-limits false b ls p = refl

-- Neither best index changes where the half keeps its own.
best-set_half :
    (s u : Bool) (h : Half) (b : Book) (ls : Limits) (p : LimitPool)
    → h.best ≡ (half s b).best
    → (half u (set_half s h (record b { limits = ls; limit_pool = p }))).best ≡ (half u b).best
unfolding half set_half
best-set_half true true h b ls p e = e
best-set_half true false h b ls p e = refl
best-set_half false true h b ls p e = refl
best-set_half false false h b ls p e = e

module _ (sys : System) (b : Book) (g : Ghost) (core : IsCore sys b g) (s : Bool) (i : ℕ)
    (hi : i < b.range) (empty : g.queue s i ≡ []) (slot : Ptr) (best : ℕ) (limits : Limits)
    (pool : LimitPool) (free : List Ptr) where
  -- the book and its free limits afterwards
  abbrev pub reslotted : Book
  reslotted =
      set_half s (record { slot = put (half s b).slot i slot; best = best })
        (record b { limits = limits; limit_pool = pool })

  abbrev pub refreed : Ghost
  refreed = record g { free_limits = free }

  pub half-here : (half s reslotted).slot i ≡ slot
  unfolding half set_half put
  half-here = ground arith

  slot-there :
      (v u : Bool) (j : ℕ)
      → here v i u j ≡ false
      → let h : Half = record { slot = put (half v b).slot i slot; best = best } in
        (half u (set_half v h (record b { limits = limits; limit_pool = pool }))).slot j
        ≡ (half u b).slot j
  unfolding half set_half put
  slot-there true true j off = ground arith
  slot-there true false j off = refl
  slot-there false true j off = refl
  slot-there false false j off = ground arith

  pub half-there :
      (u : Bool) (j : ℕ) → here s i u j ≡ false → (half u reslotted).slot j ≡ (half u b).slot j
  unfolding half set_half put
  half-there u j off = slot-there s u j off

  pub best-reslotted :
      best ≡ (half s b).best → (u : Bool) → (half u reslotted).best ≡ (half u b).best
  best-reslotted e u =
      best-set_half s u (record { slot = put (half s b).slot i slot; best = best }) b limits pool e

  pub price_at-reslotted : (u : Bool) (j : ℕ) → price_at u reslotted j ≡ price_at u b j
  unfolding set_half
  price_at-reslotted true j = refl
  price_at-reslotted false j = refl

  -- What is asked of the change.
  pub record IsReslot : Type 0 where
    pub level : IsLevel sys reslotted refreed s i
    pub same :
        (u : Bool) (j : ℕ)
        → j < b.range
        → here s i u j ≡ false
        → (half u b).slot j ≢ null
        → limits ((half u b).slot j) ≡ b.limits ((half u b).slot j)
    pub made :
        (l : Ptr)
        → Fresh.IsMade sys.node_at b.limit_pool.made l
        → Fresh.IsMade sys.node_at pool.made l
    pub unused :
        (u : Bool) (j : ℕ)
        → j < b.range
        → here s i u j ≡ false
        → (half u b).slot j ≢ null
        → has ((half u b).slot j) free ≡ false
    pub nodes : Fresh.IsPool sys.node_at limits pool free

  module _ (r : IsReslot) where
    level-far :
        (u : Bool) (j : ℕ) → j < b.range → here s i u j ≡ false → IsLevel sys reslotted refreed u j
    unfolding set_half
    level-far u j hj off =
        let p = core.level u j hj in
        let e = half-there u j off in
        let old =
          λ (z : (half u reslotted).slot j ≢ null) (y : (half u b).slot j ≡ null). z (e ∙ y) in
        record {
          empty = λ z. p.empty (sym e ∙ z);
          limit = λ z. let ne = old z in rw (e, r.same u j hj off ne) (p.limit ne);
          price = λ z.
              let ne = old z in rw (e, r.same u j hj off ne, price_at-reslotted u j) (p.price ne);
          side = λ z. let ne = old z in rw (e, r.same u j hj off ne) (p.side ne);
          made = λ z. let ne = old z in rw e (r.made ((half u b).slot j) (p.made ne));
          unused = λ z. let ne = old z in rw e (r.unused u j hj off ne);
        }

    level-reslotted : (u : Bool) (j : ℕ) → j < b.range → IsLevel sys reslotted refreed u j
    level-reslotted u j hj = elim (Bool-cases (here s i u j)) [
      | inl on ↦
          let (su, ij) = here_iff s i u j on in
          subst (λ v. IsLevel sys reslotted refreed v j) su
            (subst (λ k. IsLevel sys reslotted refreed s k) ij r.level)
      | inr off ↦ level-far u j hj off
    ]

    order-reslotted :
        (u : Bool) (j : ℕ) (q : Ptr)
        → j < b.range
        → has q (g.queue u j) ≡ true
        → IsResting sys reslotted refreed u j q
    unfolding set_half
    order-reslotted u j q hj m =
        let p = core.order u j q hj m in
        elim (Bool-cases (here s i u j)) [
          | inl on ↦
              let (su, ij) = here_iff s i u j on in
              let nothing : g.queue u j ≡ [] =
                subst (λ v. g.queue v j ≡ []) su (subst (λ k. g.queue s k ≡ []) ij empty) in
              cc (m, nothing)
          | inr off ↦ record {
            parent = p.parent ∙ sym (half-there u j off);
            price = rw (price_at-reslotted u j) p.price;
            side = p.side;
            listed = p.listed;
            size = p.size;
            issued = p.issued;
            unused = p.unused;
          }
        ]

    pub IsCore-reslotted : IsCore sys reslotted refreed
    unfolding set_half
    IsCore-reslotted = record {
      window = record {
        ordered = core.window.ordered;
        small = core.window.small;
        range = core.window.range;
      };
      level = level-reslotted;
      order = order-reslotted;
      found = λ k ne.
          let f = core.found k ne in
          record { place = f.place; in_range = f.in_range; mem = f.mem; id_eq = f.id_eq };
      map = core.map;
      pool = core.pool;
      nodes = r.nodes;
    }
