-- ===== src/Book/Entry.antt =====
-- What a client sees of the resting orders: under an id, the side, price, size and time of its order.
use hft_backtester.Prelude.{
  ℕ, ◌≡◌, ◌≢◌, inl, inr, refl, ap, Option, none, some, Bool, false, ◌==◌, if◌then◌else◌, Bool-cases,
  arith,
}
use hft_backtester.Heap.{Ptr, null, Order}
use hft_backtester.PageMap.View.{view}
use hft_backtester.Book.{Book}

pub record Entry : Type 0 where
  pub side : Bool
  pub price : ℕ
  pub size : ℕ
  pub time : ℕ

abbrev pub entry_of : Order → Entry
entry_of o = record { side = o.side; price = o.price; size = o.size; time = o.unix_time }

unfoldable pub entry : Book → ℕ → Option Entry
entry b id =
    if view b.order_lookup id == null
    then none
    else some (entry_of (b.orders (view b.order_lookup id)))

pub entry-null : (b : Book) (id : ℕ) → view b.order_lookup id ≡ null → entry b id ≡ none
unfolding entry
entry-null b id e = rw e

pub entry-some :
    (b : Book) (id : ℕ) (p : Ptr)
    → view b.order_lookup id ≡ p
    → p ≢ null
    → entry b id ≡ some (entry_of (b.orders p))
unfolding entry
entry-some b id p e ne = let t : (p == null) ≡ false = ground arith in rw (e, t) refl

-- The same order with the same fields.
pub entry-same :
    (b c : Book) (id : ℕ)
    → view c.order_lookup id ≡ view b.order_lookup id
    → (view b.order_lookup id ≢ null
        → entry_of (c.orders (view b.order_lookup id))
          ≡ entry_of (b.orders (view b.order_lookup id)))
    → entry c id ≡ entry b id
unfolding entry
entry-same b c id e same = elim (Bool-cases (view b.order_lookup id == null)) [
  | inl t ↦ rw (e, t) refl
  | inr t ↦ rw (e, t) (ap some (same (ground arith)))
]
