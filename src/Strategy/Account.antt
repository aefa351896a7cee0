-- ===== src/Strategy/Account.antt =====
-- What trades do to the account, and the limit on the position.
use hft_backtester.Prelude.{
  ℕ, ◌+◌, ◌-◌, ◌%◌, ◌^◌, ◌<◌, ◌≤◌, ◌≡◌, refl, ℤ, pos, negsuc, ◌+ℤ◌, ◌-ℤ◌, ltb_ℤ, pos_part, neg_part,
  Bool, true, false, ◌&&◌, List, [], ◌∷◌, if◌then◌else◌, add32, Bool-cases, inl, inr, arith,
}
use hft_backtester.Floats.{Floats}
use hft_backtester.Book.{Book}
use hft_backtester.Stats.{Stats}
use hft_backtester.Strategy.{
  Strategy, max_pos, magnitude, increment, decrement, execute_trade, update_theo_values,
  calculate_pnl, trade_on,
}

-- The theoretical values and the profit leave the rest of the account alone.
pub record Settled {F : Floats} (st st' : Strategy F) : Type 0 where
  pub position_eq : st'.position ≡ st.position
  pub queue_eq : st'.trade_queue ≡ st.trade_queue
  pub buy_eq : st'.real_total_buy_px ≡ st.real_total_buy_px
  pub sell_eq : st'.real_total_sell_px ≡ st.real_total_sell_px

pub settle-Settled :
    (F : Floats) (b : Book) (st : Strategy F)
    → Settled st (calculate_pnl F (update_theo_values F b st))
unfolding calculate_pnl update_theo_values
settle-Settled F b st = elim (Bool-cases (ltb_ℤ (pos 0) st.position)) [
  | inl e ↦ rw e (record { position_eq = refl; queue_eq = refl; buy_eq = refl; sell_eq = refl })
  | inr e ↦ rw e (elim (Bool-cases (ltb_ℤ st.position (pos 0))) [
    | inl d ↦ rw d (record { position_eq = refl; queue_eq = refl; buy_eq = refl; sell_eq = refl })
    | inr d ↦ rw d (record { position_eq = refl; queue_eq = refl; buy_eq = refl; sell_eq = refl })
  ])
]

-- Trades one after the other, each a side and a price.
pub execute_all : (F : Floats) → List (Bool × ℕ) → Strategy F → Strategy F
execute_all F [] st = st
execute_all F ((s, p) ∷ ts) st = execute_all F ts (execute_trade F s p st)

-- How many trades are of a side, and the sum of their prices.
abbrev pub count : Bool → List (Bool × ℕ) → ℕ
count s [] = 0
count true ((t, p) ∷ ts) = if t then 1 + count true ts else count true ts
count false ((t, p) ∷ ts) = if t then count false ts else 1 + count false ts

abbrev pub paid : Bool → List (Bool × ℕ) → ℕ
paid s [] = 0
paid true ((t, p) ∷ ts) = if t then p + paid true ts else paid true ts
paid false ((t, p) ∷ ts) = if t then paid false ts else p + paid false ts

-- The int that is a position: from -2 ^ 31 to 2 ^ 31 - 1.
pub record IsInt32 (p : ℤ) : Type 0 where
  pub above : neg_part p ≤ 2 ^ 31
  pub below : pos_part p < 2 ^ 31

-- The bits of an int.
abbrev pub bits32 : ℤ → ℕ
bits32 p = (pos_part p + 2 ^ 32 - neg_part p) % 2 ^ 32

pub increment-IsInt32 :
    (p : ℤ) → IsInt32 p → IsInt32 (increment p) × (bits32 (increment p) ≡ add32 (bits32 p) 1)
unfolding increment add32 ◌+ℤ◌
increment-IsInt32 (pos n) i =
    let below = i.below in (record { above = ground arith; below = ground arith }, ground arith)
increment-IsInt32 (negsuc n) i =
    let above = i.above in (record { above = ground arith; below = ground arith }, ground arith)

pub decrement-IsInt32 :
    (p : ℤ) → IsInt32 p → IsInt32 (decrement p) × (add32 (bits32 (decrement p)) 1 ≡ bits32 p)
unfolding decrement add32 ◌-ℤ◌
decrement-IsInt32 (pos n) i =
    let below = i.below in (record { above = ground arith; below = ground arith }, ground arith)
decrement-IsInt32 (negsuc n) i =
    let above = i.above in (record { above = ground arith; below = ground arith }, ground arith)

pub record Traded {F : Floats} (ts : List (Bool × ℕ)) (st st' : Strategy F) : Type 0 where
  pub int32 : IsInt32 st'.position
  pub position :
      (bits32 st'.position + count false ts) % 2 ^ 32
      ≡ (bits32 st.position + count true ts) % 2 ^ 32
  pub buys : st'.real_total_buy_px ≡ (st.real_total_buy_px + paid true ts) % 2 ^ 32
  pub sells : st'.real_total_sell_px ≡ (st.real_total_sell_px + paid false ts) % 2 ^ 32

-- From a position that is an int and totals of 32 bits, trades leave such a position, more by the number
-- of buys less the number of sells, and change the two totals by the sums of their prices: each modulo
-- 2 ^ 32.
pub execute_all-Traded :
    (F : Floats) (ts : List (Bool × ℕ)) (st : Strategy F)
    → IsInt32 st.position
    → st.real_total_buy_px < 2 ^ 32
    → st.real_total_sell_px < 2 ^ 32
    → Traded ts st (execute_all F ts st)
unfolding execute_all execute_trade add32
execute_all-Traded F [] st i hb hs = record {
  int32 = i;
  position = omega arith;
  buys = omega arith;
  sells = omega arith;
}
execute_all-Traded F ((true, p) ∷ ts) st i hb hs =
    let next = execute_trade F true p st in
    let (i', step) = increment-IsInt32 st.position i in
    let r = execute_all-Traded F ts next i' (omega arith) (omega (arith, hs)) in
    record {
      int32 = r.int32;
      position = omega (arith, r.position, step);
      buys = omega (arith, r.buys);
      sells = omega (arith, r.sells);
    }
execute_all-Traded F ((false, p) ∷ ts) st i hb hs =
    let next = execute_trade F false p st in
    let (i', step) = decrement-IsInt32 st.position i in
    let r = execute_all-Traded F ts next i' (omega (arith, hb)) (omega arith) in
    record {
      int32 = r.int32;
      position = omega (arith, r.position, step);
      buys = omega (arith, r.buys);
      sells = omega (arith, r.sells);
    }

pub trade_on-bound :
    (F : Floats) (buy sell : Bool) (b : Book) (st : Strategy F)
    → magnitude st.position ≤ 1
    → magnitude (trade_on F buy sell b st).position ≤ 1
unfolding trade_on execute_trade increment decrement ◌+ℤ◌ ◌-ℤ◌
trade_on-bound F buy sell b st h = elim (Bool-cases (buy && ltb_ℤ st.position max_pos)) [
  | inl e ↦ rw e (ground arith)
  | inr e ↦ rw e (elim (Bool-cases (sell && ltb_ℤ (pos 0 -ℤ max_pos) st.position)) [
    | inl d ↦ rw d (ground arith)
    | inr d ↦ rw d h
  ])
]
