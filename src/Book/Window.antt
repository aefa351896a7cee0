-- ===== src/Book/Window.antt =====
-- Prices and indices: inside the window they correspond.
use hft_backtester.Prelude.{
  ℕ, ◌<◌, ◌≤◌, ◌^◌, ◌≡◌, ◌⊎◌, subst, ap, ◌∙◌, sym, Bool, true, false, ◌≢◌, arith, index_diff,
}
use hft_backtester.Heap.{null}
use hft_backtester.Book.{Book, System, half, index}
use hft_backtester.Book.Invariant.{Ghost, IsWindow, IsLevel, price_at}

pub index-lt-range :
    (s : Bool) (b : Book) (px : ℕ) → IsWindow b → b.min ≤ px → px ≤ b.max → index s b px < b.range
unfolding index index_diff
index-lt-range true b px w lo hi = omega (arith, w.small, w.range)
index-lt-range false b px w lo hi = omega (arith, w.small, w.range)

-- The price of the level at the index of a price in the window is that price.
pub price_at-index :
    (s : Bool) (b : Book) (px : ℕ)
    → IsWindow b
    → b.min ≤ px
    → px ≤ b.max
    → price_at s b (index s b px) ≡ px
unfolding index index_diff
price_at-index true b px w lo hi = omega (arith, w.small)
price_at-index false b px w lo hi = omega (arith, w.small)

pub index-price_at :
    (s : Bool) (b : Book) (i : ℕ) → IsWindow b → i < b.range → index s b (price_at s b i) ≡ i
unfolding index index_diff
index-price_at true b i w h = omega (arith, w.small, w.range)
index-price_at false b i w h = omega (arith, w.small, w.range)

-- A price outside the window, as an int32_t that is not negative, has an index past the vectors.
pub index-out_of_range :
    (s : Bool) (b : Book) (px : ℕ)
    → IsWindow b
    → px < 2 ^ 31
    → (px < b.min) ⊎ (b.max < px)
    → b.range ≤ index s b px
unfolding index index_diff
index-out_of_range true b px w small h = omega (arith, w.small, w.range)
index-out_of_range false b px w small h = omega (arith, w.small, w.range)

price_at-injective :
    (s : Bool) (b : Book) (i j : ℕ)
    → IsWindow b
    → i < b.range
    → j < b.range
    → price_at s b i ≡ price_at s b j
    → i ≡ j
price_at-injective true b i j w hi hj e = omega (arith, w.range)
price_at-injective false b i j w hi hj e = omega (arith, w.range)

-- Two levels that share a limit are one.
pub slot-injective :
    (sys : System) (b : Book) (g : Ghost) (s t : Bool) (i j : ℕ)
    → IsWindow b
    → i < b.range
    → j < b.range
    → IsLevel sys b g s i
    → IsLevel sys b g t j
    → (half s b).slot i ≢ null
    → (half s b).slot i ≡ (half t b).slot j
    → (s ≡ t) × (i ≡ j)
slot-injective sys b g s t i j w hi hj p q ne e =
    let ne' : (half t b).slot j ≢ null = λ z. ne (e ∙ z) in
    let sides : s ≡ t = sym (p.side ne) ∙ ap (λ l. (b.limits l).side) e ∙ q.side ne' in
    let prices : price_at s b i ≡ price_at t b j =
      sym (p.price ne) ∙ ap (λ l. (b.limits l).price) e ∙ q.price ne' in
    (
      sides,
      price_at-injective t b i j w hi hj
          (subst (λ u. price_at u b i ≡ price_at t b j) sides prices),
    )
