-- ===== src/Linear/Total.antt =====
-- When the linear model stays inside its vectors.
use hft_backtester.Prelude.{
  ℕ, pos, true, false, zero, suc, ◌+◌, ◌-◌, ◌<◌, ◌≤◌, ◌≡◌, refl, inl, inr, false, List, [], ◌∷◌,
  ltb, length, get_elem?, Bool-cases, arith, Returns, returns, Returns-bind,
}
use hft_backtester.Floats.{Floats}
use hft_backtester.Book.{Book, half}
use hft_backtester.Strategy.{magnitude, trade_on}
use hft_backtester.Strategy.Account.{settle-Settled, trade_on-bound}
use hft_backtester.Strategy.Close.{close_positions-Closed}
use hft_backtester.Stats.{Stats}
use hft_backtester.Stats.Mid.{calculate_voi_curr-returns}
use hft_backtester.Linear.{
  close_positions, on_book_update, update_theo_values, calculate_pnl, Model, add_terms,
  predict_price_change, lags, add_changes, sample, samples, fit_model, max_lag, forecast_window,
}

-- any result
abbrev pub Defined : {A : Type 0} → A → Type 0
Defined a = Unit

get_elem?-Defined :
    {A : Type 0} → (xs : List A) (i : ℕ) → i < length xs → Returns Defined (get_elem? xs i)
get_elem?-Defined [] i h = elim h [ ]
get_elem?-Defined (x ∷ xs) zero h = returns tt
get_elem?-Defined (x ∷ xs) (suc i) h = get_elem?-Defined xs i (omega arith)

module _ (F : Floats) where
  add_terms-Defined :
      (coeffs : List F.Real) (voi : List ℕ) (k i : ℕ) (acc : F.Real)
      → i + k < length coeffs
      → i + k ≤ length voi
      → Returns Defined (add_terms F coeffs voi k i acc)
  unfolding add_terms
  add_terms-Defined coeffs voi zero i acc hc hv = returns tt
  add_terms-Defined coeffs voi (suc k) i acc hc hv =
      Returns-bind (get_elem?-Defined voi (length voi - 1 - i) (omega arith)) λ v _.
        Returns-bind (get_elem?-Defined coeffs (i + 1) (omega arith))
          λ c _. add_terms-Defined coeffs voi k (i + 1) _ (omega arith) (omega arith)

  -- With the seven coefficients of the constructor or of a fit, the prediction is defined however
  -- short the history is.
  pub predict_price_change-Defined :
      (coeffs : List F.Real) (voi : List ℕ)
      → length coeffs ≡ max_lag + 2
      → Returns Defined (predict_price_change F coeffs voi)
  unfolding predict_price_change
  predict_price_change-Defined coeffs voi seven =
      elim (Bool-cases (ltb (length voi) (max_lag + 1))) [
        | inl e ↦ rw e (returns tt)
        | inr e ↦ rw e (
            Returns-bind (get_elem?-Defined coeffs 0 (omega (arith, seven))) λ c _.
              add_terms-Defined coeffs voi (max_lag + 1) 0 c (omega (arith, seven)) (ground arith))
      ]

  length-lags :
      (voi : List ℕ) (k i : ℕ)
      → i + k ≤ length voi
      → Returns (λ (xs : List F.Real). length xs ≡ k) (lags F voi k i)
  unfolding lags
  length-lags voi zero i h = returns refl
  length-lags voi (suc k) i h = Returns-bind (get_elem?-Defined voi i (omega arith)) λ v _.
      Returns-bind (length-lags voi k (i + 1) (omega arith)) λ rest e. returns (omega (arith, e))

  add_changes-Defined :
      (mids : List ℕ) (from k i : ℕ) (acc : F.Real)
      → i + k ≤ length mids
      → Returns Defined (add_changes F mids from k i acc)
  unfolding add_changes
  add_changes-Defined mids from zero i acc h = returns tt
  add_changes-Defined mids from (suc k) i acc h =
      Returns-bind (get_elem?-Defined mids i (omega arith))
        λ p _. add_changes-Defined mids from k (i + 1) _ (omega arith)

  length-sample :
      (voi mids : List ℕ) (i : ℕ)
      → i + (max_lag + 1) ≤ length voi
      → i + max_lag + 1 + forecast_window ≤ length mids
      → Returns (λ (s : List F.Real × F.Real). length s.0 ≡ max_lag + 2) (sample F voi mids i)
  unfolding sample
  length-sample voi mids i hv hm = Returns-bind (length-lags voi (max_lag + 1) i hv) λ xs e.
      Returns-bind (get_elem?-Defined mids (i + max_lag) (omega arith)) λ from _.
        Returns-bind
          (add_changes-Defined mids from forecast_window (i + max_lag + 1) _ (omega arith))
          λ total _. returns (omega (arith, e))

  -- every row has one entry for the constant and one for each lag
  abbrev pub AllWide : List (List F.Real × F.Real) → Type 0
  AllWide [] = Unit
  AllWide (s ∷ rows) = (length s.0 ≡ max_lag + 2) × AllWide rows

  pub record IsDesign (rows : List (List F.Real × F.Real)) (n : ℕ) : Type 0 where
    pub wide : AllWide rows
    pub count : length rows ≡ n

  samples-IsDesign :
      (voi mids : List ℕ) (k i : ℕ)
      → i + k + (forecast_window + max_lag) ≤ length voi
      → length voi ≤ length mids
      → Returns (λ (rows : List (List F.Real × F.Real)). IsDesign rows k) (samples F voi mids k i)
  unfolding samples
  samples-IsDesign voi mids zero i hv hm = returns (record { wide = tt; count = refl })
  samples-IsDesign voi mids (suc k) i hv hm =
      Returns-bind (length-sample voi mids i (omega arith) (omega arith)) λ s e.
        Returns-bind (samples-IsDesign voi mids k (i + 1) (omega arith) hm)
          λ rest d. returns (record { wide = (e, d.wide); count = omega (arith, d.count) })

  -- With a mid price for every order imbalance and at least 65 of them, the fit stays inside both
  -- histories, and what the solver gets is a row of seven entries for each imbalance but the last 65.
  pub fit_model-IsDesign :
      (solve : List (List F.Real × F.Real) → List F.Real) (stats : Stats F) (m : Model F)
      → forecast_window + max_lag ≤ length stats.voi_history
      → length stats.voi_history ≤ length stats.mid_prices
      → Returns
          (λ (m' : Model F).
            (rows : List (List F.Real × F.Real)) × IsDesign rows
              (length stats.voi_history - forecast_window - max_lag)
            × (m' ≡ record m { coefficients = solve rows }))
          (fit_model F solve stats m)
  unfolding fit_model
  fit_model-IsDesign solve stats m enough paired =
      let is : ltb (length stats.voi_history) (forecast_window + max_lag) ≡ false = ground arith in
      rw is (
        Returns-bind
          (samples-IsDesign stats.voi_history stats.mid_prices
            (length stats.voi_history - forecast_window - max_lag) 0 (omega arith) paired)
          λ rows d. returns (rows, d, refl))

-- Closing the positions of the model from any position ends without one, and keeps its coefficients
-- and its threshold.
pub close_positions-flat :
    (F : Floats) (b : Book) (m : Model F)
    → ((close_positions F b m).account.position ≡ pos 0)
      × ((close_positions F b m).coefficients ≡ m.coefficients)
      × ((close_positions F b m).threshold ≡ m.threshold)
unfolding close_positions
close_positions-flat F b m = ((close_positions-Closed F b m.account).flat, refl, refl)

-- With seven coefficients and a level in range at both best indices, an update of the book returns,
-- and the position stays within one contract either way, if it was so before.
pub on_book_update-small :
    (F : Floats) (b : Book) (stats : Stats F) (m : Model F)
    → magnitude m.account.position ≤ 1
    → length m.coefficients ≡ max_lag + 2
    → (half true b).best < b.range
    → (half false b).best < b.range
    → Returns
        (λ (r : Stats F × Model F). magnitude r.1.account.position ≤ 1)
        (on_book_update F b (stats, m))
unfolding on_book_update calculate_pnl update_theo_values
on_book_update-small F b stats m small seven bid ask =
    Returns-bind (calculate_voi_curr-returns F b stats bid ask) λ st _.
      Returns-bind (predict_price_change-Defined F m.coefficients _ seven) λ change _. returns (
        rw ((settle-Settled F b (trade_on F _ _ b m.account)).position_eq)
          (trade_on-bound F _ _ b m.account small))
