-- ===== src/Stats.antt =====
-- The statistics of `Orderbook` in include/book/orderbook.h: volumes near the best prices, their
-- imbalance, the order imbalance (voi) and the mid prices. int32_t are bit patterns.
pub mod Volume
pub mod Mid
use hft_backtester.Prelude.{
  ℕ, zero, suc, ◌+◌, ◌-◌, ◌/◌, ◌^◌, Option, none, some, Bool, true, false, ◌&&◌, ◌==◌, List, [],
  ◌∷◌, ◌++◌, if◌then◌else◌, ltb, add32, sub32, ◌>>=◌,
}
use hft_backtester.Heap.{Ptr, null, Limits}
use hft_backtester.Floats.{Floats, widen}
use hft_backtester.Book.{Book, half, slot_at, get_best_price}

module _ (F : Floats) where
  -- The members that the statistics keep; `vwap` is never set, since no message leads to it.
  pub record Stats : Type 0 where
    pub bid_vol : ℕ
    pub ask_vol : ℕ
    pub vwap : F.Real
    pub imbalance : F.Real
    pub prev_best_bid : ℕ
    pub prev_best_ask : ℕ
    pub prev_best_bid_volume : ℕ
    pub prev_best_ask_volume : ℕ
    pub voi : ℕ
    pub mid_prices : List ℕ
    pub mid_prices_curr : List ℕ
    pub voi_history : List ℕ
    pub voi_history_curr : List ℕ

-- `bids_[i] ? bids_[i]->volume_ : 0`, or of `asks_`
pub volume_of : Bool → Book → ℕ → ℕ
volume_of s b i = if (half s b).slot i == null then 0 else (b.limits ((half s b).slot i)).volume

-- The loop of `calculate_vols`, with the rounds that are left, and the two sums.
pub sum_vols : Book → (rounds bid_idx ask_idx bid_vol ask_vol : ℕ) → ℕ × ℕ
sum_vols b zero i j v w = (v, w)
sum_vols b (suc k) i j v w =
    let rest =
      sum_vols b k (i + 1) (j + 1) (add32 v (volume_of true b i)) (add32 w (volume_of false b j)) in
    if ltb i b.range && ltb j b.range then rest else (v, w)

-- The bit pattern of (w / 2) / 100, where the division of a negative number rounds towards 0.
pub half_in_points : ℕ → ℕ
half_in_points w = if ltb w (2 ^ 31) then w / 2 / 100 else sub32 0 ((2 ^ 32 - w) / 2 / 100)

pub get_mid_price : Book → ℕ
get_mid_price b = half_in_points (add32 (get_best_price true b) (get_best_price false b))

-- The change of the volume at the best price: all of it at a better price, none at a worse one.
pub side_voi : (same better : Bool) (vol prev : ℕ) → ℕ
side_voi same better vol prev = if same then sub32 vol prev else if better then vol else 0

module _ (F : Floats) where
  pub calculate_vols : ℕ → Book → Stats F → Stats F
  unfolding sum_vols
  calculate_vols ct b st =
      let (v, w) = sum_vols b ct (half true b).best (half false b).best 0 0 in
      record st { bid_vol = v; ask_vol = w }

  pub calculate_imbalance : Stats F → Stats F
  calculate_imbalance st =
      let total : ℕ = widen (add32 st.bid_vol st.ask_vol) in
      record st {
        imbalance =
            if ltb 0 total
            then F.over (F.minus (F.of_int32 st.bid_vol) (F.of_int32 st.ask_vol))
                (F.of_uint64 total)
            else F.of_int32 0;
      }

  -- What `calculate_voi` and `calculate_voi_curr` share; they read the slots at the best indices,
  -- which is out of range when a side is empty.
  pub update_voi : Book → Stats F → Option (Stats F)
  unfolding side_voi
  update_voi b st = do
    bid ← slot_at true b (half true b).best
    ask ← slot_at false b (half false b).best
    let bid_price : ℕ = get_best_price true b
    let ask_price : ℕ = get_best_price false b
    let bid_vol : ℕ = (if bid == null then 0 else (b.limits bid).volume)
    let ask_vol : ℕ = (if ask == null then 0 else (b.limits ask).volume)
    let bid_voi : ℕ =
        side_voi (bid_price == st.prev_best_bid) (ltb st.prev_best_bid bid_price) bid_vol
          st.prev_best_bid_volume
    let ask_voi : ℕ =
        side_voi (ask_price == st.prev_best_ask) (ltb ask_price st.prev_best_ask) ask_vol
          st.prev_best_ask_volume
    some (record st {
      voi = sub32 bid_voi ask_voi;
      prev_best_bid = bid_price;
      prev_best_ask = ask_price;
      prev_best_bid_volume = bid_vol;
      prev_best_ask_volume = ask_vol;
    })

  pub calculate_voi : Book → Stats F → Option (Stats F)
  calculate_voi b st = do
    st' ← update_voi b st
    some (record st' { voi_history = st'.voi_history ++ st'.voi ∷ [] })

  pub calculate_voi_curr : Book → Stats F → Option (Stats F)
  calculate_voi_curr b st = do
    st' ← update_voi b st
    some (record st' { voi_history_curr = st'.voi_history_curr ++ st'.voi ∷ [] })

  pub add_mid_price : Book → Stats F → Stats F
  add_mid_price b st = record st { mid_prices = st.mid_prices ++ get_mid_price b ∷ [] }

  pub add_mid_price_curr : Book → Stats F → Stats F
  add_mid_price_curr b st = record st {
    mid_prices_curr = st.mid_prices_curr ++ get_mid_price b ∷ [];
  }
