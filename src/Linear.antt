-- ===== src/Linear.antt =====
-- `LinearModelStrategy` of src/strategies/linear_model_strat.cpp: a linear model of the order
-- imbalances of the last updates predicts the change of the mid price. Its accounting repeats the code
-- of the imbalance strategy, with a trade size of 1, and is that strategy's on the account of the
-- model. `none` is an index out of range of a vector.
pub mod Total
use hft_backtester.Prelude.{
  ℕ, zero, suc, ◌+◌, ◌-◌, ◌^◌, Option, none, some, Bool, true, false, List, [], ◌∷◌, ◌++◌,
  if◌then◌else◌, ltb, sub32, length, get_elem?, replicate, ◌>>=◌,
}
use hft_backtester.Floats.{Floats}
use hft_backtester.Book.{Book}
use hft_backtester.Stats
use hft_backtester.Stats.{Stats}
use hft_backtester.Strategy
use hft_backtester.Strategy.{Strategy}

abbrev pub max_lag : ℕ
max_lag = 5

abbrev pub forecast_window : ℕ
forecast_window = 60

module _ (F : Floats) where
  -- The members that it adds; its own `fees_` stands in place of that of `Strategy`.
  pub record Model : Type 0 where
    pub account : Strategy F
    pub coefficients : List F.Real
    pub threshold : ℕ

  -- What the constructor sets, after that of `Strategy`.
  pub new_model : (is_es : Bool) → Strategy F → Model
  new_model is_es st = record {
    account = record st { point_value = if is_es then 5 else 2; fees = F.of_int32 0 };
    coefficients = replicate (max_lag + 2) (F.of_int32 0);
    threshold = if is_es then 2 else 20;
  }

  abbrev pub with_account : Model → Strategy F → Model
  with_account m st = record m { account = st }

  pub execute_trade : Bool → ℕ → Model → Model
  execute_trade is_buy price m = with_account m (Strategy.execute_trade F is_buy price m.account)

  pub update_theo_values : Book → Model → Model
  update_theo_values b m = with_account m (Strategy.update_theo_values F b m.account)

  pub calculate_pnl : Model → Model
  calculate_pnl m = with_account m (Strategy.calculate_pnl F m.account)

  pub close_positions : Book → Model → Model
  close_positions b m = with_account m (Strategy.close_positions F b m.account)

  -- The loop of `predict_price_change`, from index `i` of `rounds` that are left.
  pub add_terms : List F.Real → List ℕ → (rounds i : ℕ) → F.Real → Option F.Real
  add_terms coeffs voi zero i acc = some acc
  add_terms coeffs voi (suc k) i acc = do
    v ← get_elem? voi (length voi - 1 - i)
    c ← get_elem? coeffs (i + 1)
    add_terms coeffs voi k (i + 1) (F.plus acc (F.times c (F.of_int32 v)))

  pub predict_price_change : List F.Real → List ℕ → Option F.Real
  predict_price_change coeffs voi =
      if ltb (length voi) (max_lag + 1)
      then some (F.of_int32 0)
      else get_elem? coeffs 0 >>= add_terms coeffs voi (max_lag + 1) 0

  pub on_book_update : Book → Stats F × Model → Option (Stats F × Model)
  on_book_update b (stats, m) = do
    voi_stats ← Stats.calculate_voi_curr F b stats
    let stats' : Stats F = Stats.add_mid_price_curr F b voi_stats
    change ← predict_price_change m.coefficients stats'.voi_history_curr
    let buy : Bool = F.le (F.of_int32 m.threshold) change
    let sell : Bool = F.le change (F.of_int32 (sub32 0 m.threshold))
    let traded : Model = with_account m (Strategy.trade_on F buy sell b m.account)
    some (stats', calculate_pnl (update_theo_values b traded))

  pub reset : Model → Model
  reset m = record m {
    account = Strategy.reset F m.account;
    coefficients = replicate (max_lag + 2) (F.of_int32 0);
  }

  -- A row of X after its first entry: the imbalances from `i` on.
  pub lags : List ℕ → (rounds i : ℕ) → Option (List F.Real)
  lags voi zero i = some []
  lags voi (suc k) i = do v ← get_elem? voi i; rest ← lags voi k (i + 1); some (F.of_int32 v ∷ rest)

  -- The sum of the changes of the mid price from `from` to each of the prices from `i` on.
  pub add_changes : List ℕ → ℕ → (rounds i : ℕ) → F.Real → Option F.Real
  add_changes mids from zero i acc = some acc
  add_changes mids from (suc k) i acc = do
    p ← get_elem? mids i
    add_changes mids from k (i + 1) (F.plus acc (F.of_int32 (sub32 p from)))

  -- A row of X with its entry of y.
  pub sample : List ℕ → List ℕ → ℕ → Option (List F.Real × F.Real)
  sample voi mids i = do
    xs ← lags voi (max_lag + 1) i
    from ← get_elem? mids (i + max_lag)
    total ← add_changes mids from forecast_window (i + max_lag + 1) (F.of_int32 0)
    some (F.of_int32 1 ∷ xs, F.over total (F.of_int32 forecast_window))

  pub samples : List ℕ → List ℕ → (rounds i : ℕ) → Option (List (List F.Real × F.Real))
  samples voi mids zero i = some []
  samples voi mids (suc k) i = do
    s ← sample voi mids i
    rest ← samples voi mids k (i + 1)
    some (s ∷ rest)

  -- The solver is a library's. A matrix of a negative number of rows is refused by an assertion.
  pub fit_model :
      (solve : List (List F.Real × F.Real) → List F.Real) → Stats F → Model → Option Model
  fit_model solve stats m =
      if ltb (length stats.voi_history) (forecast_window + max_lag) then none else do
        rows ←
            samples stats.voi_history stats.mid_prices
              (length stats.voi_history - forecast_window - max_lag) 0
        some (record m { coefficients = solve rows })
