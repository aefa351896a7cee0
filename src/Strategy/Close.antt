-- ===== src/Strategy/Close.antt =====
-- `close_positions` of both strategies: with no rounds to spare its loops end with no position.
use hft_backtester.Prelude.{
  ℕ, zero, suc, ◌≡◌, refl, sym, subst, ◌∙◌, ap, ℤ, pos, negsuc, ◌+ℤ◌, ◌-ℤ◌, ltb_ℤ, pos_part,
  neg_part, eq_of_parts, Bool, true, false, List, [], ◌∷◌, ◌++◌, replicate, arith,
}
use hft_backtester.Floats.{Floats}
use hft_backtester.Book.{Book, get_best_price}
use hft_backtester.Strategy.{
  Strategy, increment, decrement, execute_trade, close_round, sell_out, buy_in, close_positions,
}
use hft_backtester.Strategy.Account.{settle-Settled}

-- No position, and these trades more in the queue.
pub record Closed {F : Floats} (ts : List (Bool × ℕ)) (st st' : Strategy F) : Type 0 where
  pub flat : st'.position ≡ pos 0
  pub queue_eq : st'.trade_queue ≡ st.trade_queue ++ ts

append-nil : {A : Type 0} → (xs : List A) → xs ++ [] ≡ xs
append-nil [] = refl
append-nil (x ∷ xs) = ap (λ ys. x ∷ ys) (append-nil xs)

append-cons :
    {A : Type 0} → (xs : List A) (y : A) (ys : List A) → (xs ++ y ∷ []) ++ ys ≡ xs ++ y ∷ ys
append-cons [] y ys = refl
append-cons (x ∷ xs) y ys = ap (λ zs. x ∷ zs) (append-cons xs y ys)

module _ (F : Floats) (b : Book) where
  sell-position : (st : Strategy F) → (close_round F false b st).position ≡ decrement st.position
  unfolding close_round execute_trade
  sell-position st =
      (settle-Settled F b (execute_trade F false (get_best_price true b) st)).position_eq

  sell-queue :
      (st : Strategy F)
      → (close_round F false b st).trade_queue
        ≡ st.trade_queue ++ (false, get_best_price true b) ∷ []
  unfolding close_round execute_trade
  sell-queue st = (settle-Settled F b (execute_trade F false (get_best_price true b) st)).queue_eq

  buy-position : (st : Strategy F) → (close_round F true b st).position ≡ increment st.position
  unfolding close_round execute_trade
  buy-position st =
      (settle-Settled F b (execute_trade F true (get_best_price false b) st)).position_eq

  buy-queue :
      (st : Strategy F)
      → (close_round F true b st).trade_queue
        ≡ st.trade_queue ++ (true, get_best_price false b) ∷ []
  unfolding close_round execute_trade
  buy-queue st = (settle-Settled F b (execute_trade F true (get_best_price false b) st)).queue_eq

  less-one : (n : ℕ) → decrement (pos (suc n)) ≡ pos n
  unfolding decrement ◌-ℤ◌
  less-one n = ground arith

  more-one :
      (n : ℕ) (p : ℤ)
      → pos_part p ≡ 0
      → neg_part p ≡ suc n
      → (pos_part (increment p) ≡ 0) × (neg_part (increment p) ≡ n)
  unfolding increment ◌+ℤ◌
  more-one n (pos k) z e = (omega (arith, e), omega (arith, e))
  more-one n (negsuc k) z e = (ground arith, ground arith)

  sell_out-Closed :
      (n : ℕ) (st : Strategy F)
      → st.position ≡ pos n
      → Closed (replicate n (false, get_best_price true b)) st (sell_out F n b st)
  unfolding sell_out
  sell_out-Closed zero st e = record { flat = e; queue_eq = sym (append-nil st.trade_queue) }
  sell_out-Closed (suc n) st e =
      let more : ltb_ℤ (pos 0) st.position ≡ true = rw e (ground arith) in
      let r =
        sell_out-Closed n (close_round F false b st)
          (sell-position st ∙ ap decrement e ∙ less-one n) in
      rw more (record {
        flat = r.flat;
        queue_eq =
            r.queue_eq
            ∙ ap (λ q. q ++ replicate n (false, get_best_price true b)) (sell-queue st)
            ∙ append-cons st.trade_queue _ _;
      })

  buy_in-Closed :
      (n : ℕ) (st : Strategy F)
      → pos_part st.position ≡ 0
      → neg_part st.position ≡ n
      → Closed (replicate n (true, get_best_price false b)) st (buy_in F n b st)
  unfolding buy_in
  buy_in-Closed zero st z e = record {
    flat = eq_of_parts st.position (pos 0) (omega (arith, z, e));
    queue_eq = sym (append-nil st.trade_queue);
  }
  buy_in-Closed (suc n) st z e =
      let more : ltb_ℤ st.position (pos 0) ≡ true = ground (arith, z, e) in
      let (z', e') = more-one n st.position z e in
      let r =
        buy_in-Closed n (close_round F true b st) (ap pos_part (buy-position st) ∙ z')
          (ap neg_part (buy-position st) ∙ e') in
      rw more (record {
        flat = r.flat;
        queue_eq =
            r.queue_eq
            ∙ ap (λ q. q ++ replicate n (true, get_best_price false b)) (buy-queue st)
            ∙ append-cons st.trade_queue _ _;
      })

  close-at :
      (p : ℤ) (st : Strategy F)
      → st.position ≡ p
      → Closed
          (replicate (pos_part p) (false, get_best_price true b)
            ++ replicate (neg_part p) (true, get_best_price false b))
          st
          (let st' : Strategy F = sell_out F (pos_part p) b st in
            buy_in F (neg_part st'.position) b st')
  unfolding sell_out buy_in
  close-at (pos n) st e =
      let r = sell_out-Closed n st e in
      let sales : List (Bool × ℕ) = replicate n (false, get_best_price true b) in
      let nil : sales ++ [] ≡ sales = append-nil sales in rw (r.flat, nil) r
  close-at (negsuc n) st e =
      let r = buy_in-Closed (suc n) st (ap pos_part e) (ap neg_part e) in
      subst (λ k. Closed (replicate (suc n) (true, get_best_price false b)) st (buy_in F k b st))
        (sym (ap neg_part e)) r

  -- Closing from any position ends with none: a long one is sold one by one at the best bid, a short
  -- one is bought back one by one at the best ask, and there is no other trade.
  pub close_positions-Closed :
      (st : Strategy F)
      → Closed
          (replicate (pos_part st.position) (false, get_best_price true b)
            ++ replicate (neg_part st.position) (true, get_best_price false b))
          st
          (close_positions F b st)
  unfolding close_positions
  close_positions-Closed st = close-at st.position st refl
