-- ===== src/Book/Quote.antt =====
-- The best prices that a client reads, against the resting orders.
use hft_backtester.Prelude.{ℕ, ◌<◌, ◌≤◌, ◌≡◌, ◌≢◌, List, [], ◌∷◌, Bool, true, false, some}
use hft_backtester.Heap.{Ptr, null}
use hft_backtester.OrderPool.Carve
use hft_backtester.Book.{Book, System, half, best_price, get_best_price}
use hft_backtester.Book.Invariant.{IsSystem, Ghost, IsBook, price_at}
use hft_backtester.Book.Entry.{Entry, entry}

-- At least as good a price for this side: not lower for a bid, not higher for an ask.
abbrev pub NoWorse : Bool → ℕ → ℕ → Type 0
NoWorse true p q = q ≤ p
NoWorse false p q = p ≤ q

-- A resting order of this side at this price.
pub record Rests (b : Book) (s : Bool) (price : ℕ) : Type 0 where
  pub id : ℕ
  pub order : Entry
  pub seen : entry b id ≡ some order
  pub side_eq : order.side ≡ s
  pub price_eq : order.price ≡ price

-- What the two accessors promise: they agree, no resting order of the side has a better price, and if
-- any order of the side rests then one rests at that price.
pub record IsQuote (b : Book) (s : Bool) : Type 0 where
  pub agree : best_price s b ≡ get_best_price s b
  pub bound :
      (id : ℕ) (e : Entry)
      → entry b id ≡ some e
      → e.side ≡ s
      → NoWorse s (get_best_price s b) e.price
  pub attained : (price : ℕ) → Rests b s price → Rests b s (get_best_price s b)

module _ (sys : System) (ok : IsSystem sys) (b : Book) (g : Ghost) (book : IsBook sys b g)
    (s : Bool) where
  abbrev top : ℕ
  top = (half s b).best

  -- Where an order that a client sees rests.
  record IsAt (e : Entry) : Type 0 where
    index : ℕ
    inside : index < b.range
    slot_ne : (half s b).slot index ≢ null
    price_eq : e.price ≡ price_at s b index

first : List Ptr → Ptr
first [] = null
first (x ∷ xs) = x

rest : List Ptr → List Ptr
rest [] = []
rest (x ∷ xs) = xs
