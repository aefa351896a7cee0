-- ===== src/Tests/Trades.antt =====
-- The statistics and the strategies.
use hft_backtester.Prelude.{
  ◌<◌, List, ℕ, ◌+◌, ◌*◌, ◌/◌, ◌%◌, ◌^◌, ◌<◌, ◌≤◌, ◌≡◌, refl, negsuc, true, false, [], ◌∷◌, ◌++◌,
  replicate, pos_part, neg_part, ltb, leb, if◌then◌else◌, length, Returns, ◌-◌, ◌==◌, sub32, arith,
}
use hft_backtester.Floats.{Floats}
use hft_backtester.Heap.{blank_limit}
use hft_backtester.Book.{Book, half, get_best_price}
use hft_backtester.Book.New.{built}
use hft_backtester.Stats.{Stats, get_mid_price, calculate_vols}
use hft_backtester.Stats.Volume.{volumes, visited, calculate_vols-volumes}
use hft_backtester.Stats.Mid.{get_mid_price-between}
use hft_backtester.Strategy.{Strategy, magnitude, on_book_update, close_positions}
use hft_backtester.Strategy.Account.{Traded, execute_all, execute_all-Traded}
use hft_backtester.Strategy.Close.{Closed, close_positions-Closed}
use hft_backtester.Linear
use hft_backtester.Linear.{Model, predict_price_change, fit_model, max_lag, forecast_window}
use hft_backtester.Linear.Total.{on_book_update-small, IsDesign, fit_model-IsDesign}
use hft_backtester.Tests.{rising, rising-IsSystem}

-- whole numbers in place of floating-point numbers
abbrev pub whole : Floats
whole = record {
  Real = ℕ;
  of_int32 = λ w. w;
  of_uint64 = λ w. w;
  to_int32 = λ w. w;
  plus = λ v w. v + w;
  minus = λ v w. sub32 v w;
  times = λ v w. v * w;
  over = λ v w. v / w;
  lt = λ v w. ltb v w;
  le = λ v w. leb v w;
}

abbrev pub book : Book
book = built rising rising-IsSystem 100000 100010 (omega arith) (omega arith)

abbrev pub stats : Stats whole
stats = record {
  bid_vol = 3;
  ask_vol = 4;
  vwap = 0;
  imbalance = 0;
  prev_best_bid = 0;
  prev_best_ask = 0;
  prev_best_bid_volume = 0;
  prev_best_ask_volume = 0;
  voi = 0;
  mid_prices = [];
  mid_prices_curr = [];
  voi_history = [];
  voi_history_curr = [];
}

-- one contract short
abbrev pub short : Strategy whole
short = record {
  position = negsuc 0;
  buy_qty = 0;
  sell_qty = 1;
  real_total_buy_px = 0;
  real_total_sell_px = 100003;
  theo_total_buy_px = 0;
  theo_total_sell_px = 0;
  fees = 1;
  pnl = 0;
  prev_pnl = 0;
  point_value = 5;
  trade_queue = (false, 100003) ∷ [];
}

-- A buy and two sells.
execute_all-Traded_example :
    Traded
      ((true, 100001) ∷ (false, 100002) ∷ (false, 100004) ∷ [])
      short
      (execute_all whole ((true, 100001) ∷ (false, 100002) ∷ (false, 100004) ∷ []) short)
execute_all-Traded_example =
    execute_all-Traded whole ((true, 100001) ∷ (false, 100002) ∷ (false, 100004) ∷ []) short
      (record { above = omega arith; below = omega arith }) (omega arith) (omega arith)

close_positions-Closed_example :
    Closed
      (replicate (pos_part short.position) (false, get_best_price true book)
        ++ replicate (neg_part short.position) (true, get_best_price false book))
      short
      (close_positions whole book short)
close_positions-Closed_example = close_positions-Closed whole book short

-- a bid at 100005 and an ask at 100007
abbrev quoted : Book
quoted = record book {
  bids = record { slot = λ j. if j == 5 then 64 else 0; best = 5 };
  asks = record { slot = λ j. if j == 7 then 128 else 0; best = 7 };
  limits = λ p. record blank_limit {
    price = if p == 64 then 100005 else 100007;
    volume = if p == 64 then 12 else 30;
  };
}

calculate_vols-volumes_example :
    let n = visited quoted 40 (half true quoted).best (half false quoted).best in
    calculate_vols whole 40 quoted stats ≡ record stats {
      bid_vol = volumes true quoted n (half true quoted).best % 2 ^ 32;
      ask_vol = volumes false quoted n (half false quoted).best % 2 ^ 32;
    }
calculate_vols-volumes_example = calculate_vols-volumes whole 40 quoted stats

quoted-bid : get_best_price true quoted ≡ 100005
unfolding get_best_price half
quoted-bid = refl

quoted-ask : get_best_price false quoted ≡ 100007
unfolding get_best_price half
quoted-ask = refl

get_mid_price-between_example :
    (get_best_price true quoted / 100 ≤ get_mid_price quoted)
    × (get_mid_price quoted ≤ get_best_price false quoted / 100)
    × (200 * get_mid_price quoted ≤ get_best_price true quoted + get_best_price false quoted)
    × (get_best_price true quoted + get_best_price false quoted < 200 * get_mid_price quoted + 200)
get_mid_price-between_example =
    get_mid_price-between quoted (omega (arith, quoted-bid, quoted-ask))
      (omega (arith, quoted-bid, quoted-ask))

-- a solver that gives seven times the number of its rows
abbrev solve : List (List ℕ × ℕ) → List ℕ
solve rows = replicate 7 (length rows)

abbrev trained : Stats whole
trained = record stats { voi_history = replicate 67 3; mid_prices = replicate 67 1000 }

abbrev model : Model whole
model = record { account = short; coefficients = replicate 7 0; threshold = 2 }

fit_model-IsDesign_example :
    Returns
      (λ (m' : Model whole).
        (rows : List (List ℕ × ℕ)) × IsDesign whole rows
          (length trained.voi_history - forecast_window - max_lag)
        × (m' ≡ record model { coefficients = solve rows }))
      (fit_model whole solve trained model)
fit_model-IsDesign_example =
    fit_model-IsDesign whole solve trained model (omega arith) (omega arith)

bid-inside : (half true quoted).best < quoted.range
unfolding half
bid-inside = omega arith

ask-inside : (half false quoted).best < quoted.range
unfolding half
ask-inside = omega arith

on_book_update-small_example :
    Returns
      (λ (r : Stats whole × Model whole). magnitude r.1.account.position ≤ 1)
      (Linear.on_book_update whole quoted (stats, model))
on_book_update-small_example =
    on_book_update-small whole quoted stats model (omega arith) refl bid-inside ask-inside
