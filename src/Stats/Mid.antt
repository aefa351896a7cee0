-- ===== src/Stats/Mid.antt =====
-- The mid price and the order imbalance.
use hft_backtester.Prelude.{
  Returns, returns, ◌+◌, ◌*◌, ◌/◌, ◌%◌, ◌^◌, ◌<◌, ◌≤◌, ◌≡◌, refl, Bool, true, false, none, ltb,
  add32, Bool-cases, inl, inr, arith,
}
use hft_backtester.Floats.{Floats}
use hft_backtester.Book.{Book, half, slot_at, get_best_price}
use hft_backtester.Stats.{
  Stats, half_in_points, get_mid_price, update_voi, calculate_voi, calculate_voi_curr,
}

-- With prices whose sum is an int32_t, the mid price in points lies between the best prices in
-- points, and is their mean up to the rounding of the two divisions.
pub get_mid_price-between :
    (b : Book)
    → get_best_price true b + get_best_price false b < 2 ^ 31
    → get_best_price true b ≤ get_best_price false b
    → (get_best_price true b / 100 ≤ get_mid_price b)
      × (get_mid_price b ≤ get_best_price false b / 100)
      × (200 * get_mid_price b ≤ get_best_price true b + get_best_price false b)
      × (get_best_price true b + get_best_price false b < 200 * get_mid_price b + 200)
unfolding get_mid_price half_in_points add32
get_mid_price-between b small le =
    let small' : ltb ((get_best_price true b + get_best_price false b) % 2 ^ 32) (2 ^ 31) ≡ true =
      ground arith in
    rw small' (omega arith, omega arith, omega arith, omega arith)

-- With the best index of a side at the end of its vector, as when nothing of the side rests, both voi
-- functions read past the vector.
pub update_voi-empty :
    (F : Floats) (b : Book) (st : Stats F) (s : Bool)
    → b.range ≤ (half s b).best
    → (calculate_voi F b st ≡ none) × (calculate_voi_curr F b st ≡ none)
unfolding calculate_voi calculate_voi_curr update_voi slot_at
update_voi-empty F b st true le =
    let out : ltb (half true b).best b.range ≡ false = ground arith in rw out (refl, refl)
update_voi-empty F b st false le =
    let out : ltb (half false b).best b.range ≡ false = ground arith in
    elim (Bool-cases (ltb (half true b).best b.range)) [
      | inl e ↦ rw (e, out) (refl, refl)
      | inr e ↦ rw e (refl, refl)
    ]

-- With both best indices in range, the update of the order imbalance returns.
pub calculate_voi_curr-returns :
    (F : Floats) (b : Book) (st : Stats F)
    → (half true b).best < b.range
    → (half false b).best < b.range
    → Returns (λ (r : Stats F). r.mid_prices_curr ≡ st.mid_prices_curr) (calculate_voi_curr F b st)
unfolding calculate_voi_curr update_voi slot_at
calculate_voi_curr-returns F b st bid ask =
    let in_bids : ltb (half true b).best b.range ≡ true = ground arith in
    let in_asks : ltb (half false b).best b.range ≡ true = ground arith in
    rw (in_bids, in_asks) (returns refl)
