-- ===== src/Strategy.antt =====
-- The accounting that the strategies share (include/strategy.h), and the imbalance strategy of
-- src/strategies/imbalance_strat.cpp. Logging is output and left out; int32_t are bit patterns.
pub mod Account
pub mod Close
use hft_backtester.Prelude.{
  ℕ, zero, suc, ◌+◌, ◌-◌, ◌*◌, ◌%◌, ◌^◌, ℤ, pos, negsuc, ◌+ℤ◌, ◌-ℤ◌, ltb_ℤ, pos_part, neg_part,
  Bool, true, false, ◌&&◌, List, [], ◌∷◌, ◌++◌, if◌then◌else◌, add32, sub32,
}
use hft_backtester.Floats.{Floats}
use hft_backtester.Book.{Book, get_best_price}
use hft_backtester.Stats
use hft_backtester.Stats.{Stats}

-- The members of `Strategy`; `position` is a signed number of 32 bits, and `trade_queue` is oldest first,
-- each with its side and price.
pub record Strategy (F : Floats) : Type 0 where
  pub position : ℤ
  pub buy_qty : ℕ
  pub sell_qty : ℕ
  pub real_total_buy_px : ℕ
  pub real_total_sell_px : ℕ
  pub theo_total_buy_px : ℕ
  pub theo_total_sell_px : ℕ
  pub fees : F.Real
  pub pnl : ℕ
  pub prev_pnl : ℕ
  pub point_value : ℕ
  pub trade_queue : List (Bool × ℕ)

abbrev pub max_pos : ℤ
max_pos = pos 1

abbrev pub fees_per_side : ℕ
fees_per_side = 1

-- `std::abs` of a position
abbrev pub magnitude : ℤ → ℕ
magnitude p = pos_part p + neg_part p

-- `+= 1` and `-= 1` of an int, which wrap at its ends.
pub increment : ℤ → ℤ
increment p = if ltb_ℤ p (pos (2 ^ 31 - 1)) then p +ℤ pos 1 else negsuc (2 ^ 31 - 1)

pub decrement : ℤ → ℤ
decrement p = if ltb_ℤ (negsuc (2 ^ 31 - 1)) p then p -ℤ pos 1 else pos (2 ^ 31 - 1)

module _ (F : Floats) where
  -- `trade_size` is not read.
  pub execute_trade : Bool → ℕ → Strategy F → Strategy F
  unfolding increment decrement
  execute_trade is_buy price st =
      let st' : Strategy F =
        (if is_buy
          then record st {
            trade_queue = st.trade_queue ++ (true, price) ∷ [];
            position = increment st.position;
            buy_qty = add32 st.buy_qty 1;
            real_total_buy_px = add32 st.real_total_buy_px price;
          }
          else record st {
            trade_queue = st.trade_queue ++ (false, price) ∷ [];
            position = decrement st.position;
            sell_qty = add32 st.sell_qty 1;
            real_total_sell_px = add32 st.real_total_sell_px price;
          }) in
      record st' { fees = F.plus st'.fees (F.of_int32 fees_per_side) }

  pub update_theo_values : Book → Strategy F → Strategy F
  update_theo_values b st =
      if ltb_ℤ (pos 0) st.position
      then record st {
        theo_total_sell_px = get_best_price true b * magnitude st.position % 2 ^ 32;
        theo_total_buy_px = 0;
      }
      else if ltb_ℤ st.position (pos 0)
      then record st {
        theo_total_buy_px = get_best_price false b * magnitude st.position % 2 ^ 32;
        theo_total_sell_px = 0;
      }
      else record st { theo_total_buy_px = 0; theo_total_sell_px = 0 }

  pub calculate_pnl : Strategy F → Strategy F
  calculate_pnl st = record st {
    pnl = F.to_int32 (
        F.minus
          (F.of_int32 (
            st.point_value
            * sub32 (sub32 (add32 st.real_total_sell_px st.theo_total_sell_px) st.real_total_buy_px)
                st.theo_total_buy_px
            % 2 ^ 32))
          st.fees);
  }

  pub reset : Strategy F → Strategy F
  reset st = record st {
    position = pos 0;
    buy_qty = 0;
    sell_qty = 0;
    real_total_sell_px = 0;
    real_total_buy_px = 0;
    theo_total_buy_px = 0;
    theo_total_sell_px = 0;
    fees = F.of_int32 0;
    pnl = 0;
    prev_pnl = 0;
  }

  -- The trades of the two branches of `on_book_update`: on a signal to buy, on a signal to sell.
  pub trade_on : (buy sell : Bool) → Book → Strategy F → Strategy F
  unfolding execute_trade
  trade_on buy sell b st =
      if buy && ltb_ℤ st.position max_pos
      then execute_trade true (get_best_price false b) st
      else if sell && ltb_ℤ (pos 0 -ℤ max_pos) st.position
      then execute_trade false (get_best_price true b) st
      else st

  -- `ImbalanceStrat::on_book_update`, with the statistics of the book that it updates.
  pub on_book_update : Book → Stats F × Strategy F → Stats F × Strategy F
  unfolding trade_on
  on_book_update b (stats, st) =
      let stats' : Stats F = Stats.calculate_imbalance F (Stats.calculate_vols F 40 b stats) in
      let mid : F.Real = F.of_int32 (Stats.get_mid_price b) in
      let buy : Bool = F.lt (F.of_int32 0) stats'.imbalance && F.lt mid stats'.vwap in
      let sell : Bool = F.lt stats'.imbalance (F.of_int32 0) && F.lt stats'.vwap mid in
      (stats', calculate_pnl (update_theo_values b (trade_on buy sell b st)))

  -- A round of the loops of `close_positions`: a trade at the best price of the other side.
  pub close_round : Bool → Book → Strategy F → Strategy F
  unfolding execute_trade
  close_round is_buy b st = calculate_pnl (
      update_theo_values b
        (execute_trade is_buy (get_best_price (if is_buy then false else true) b) st))

  -- The loops, with the rounds that are left at most.
  pub sell_out : ℕ → Book → Strategy F → Strategy F
  sell_out zero b st = st
  sell_out (suc k) b st =
      let rest = sell_out k b (close_round false b st) in
      if ltb_ℤ (pos 0) st.position then rest else st

  pub buy_in : ℕ → Book → Strategy F → Strategy F
  buy_in zero b st = st
  buy_in (suc k) b st =
      let rest = buy_in k b (close_round true b st) in
      if ltb_ℤ st.position (pos 0) then rest else st

  pub close_positions : Book → Strategy F → Strategy F
  unfolding sell_out buy_in
  close_positions b st =
      let st' : Strategy F = sell_out (pos_part st.position) b st in
      buy_in (neg_part st'.position) b st'
