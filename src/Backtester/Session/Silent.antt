-- ===== src/Backtester/Session/Silent.antt =====
-- What the loops do with the time that a book tells.
use hft_backtester.Prelude.{
  ℕ, ◌≡◌, refl, ap, ◌∙◌, Bool, true, none, some, List, ◌∷◌, drop, pos, Option-cases, inl, inr,
  ◌>>=◌,
}
use hft_backtester.Message.{Message}
use hft_backtester.Text.{Bytes}
use hft_backtester.Clock.{blank_cache}
use hft_backtester.Clock.Empty.{get_formatted_time_fast-empty, parse_time-empty}
use hft_backtester.Floats.{Floats}
use hft_backtester.Book.{Book, System, process_msg}
use hft_backtester.Stats.{Stats}
use hft_backtester.Backtester.{Backtester}
use hft_backtester.Backtester.Session.{
  going, told, run_round, rounds, run_backtest, train_round, train_rounds, train_model, fitted,
}

module _ (F : Floats) (sys : System) (local_text : ℕ → Bytes) where
  told-undefined : (r : Book × Stats F) (m : Message) → told F sys local_text r m blank_cache ≡ none
  unfolding told
  told-undefined (b, stats) m = elim (Option-cases (process_msg sys m b)) [
    | inl fails ↦ rw fails refl
    | inr (b', works) ↦
        rw (works, get_formatted_time_fast-empty local_text b', parse_time-empty) refl
  ]

  run_round-undefined :
      (m : Message) (bt : Backtester F)
      → bt.cache ≡ blank_cache
      → run_round F sys local_text m (pos 0) bt ≡ none
  unfolding run_round
  run_round-undefined m bt blank = elim (Option-cases bt.book) [
    | inl gone ↦ rw gone refl
    | inr (r, here) ↦ rw (here, blank, told-undefined r m) refl
  ]

  train_round-undefined :
      (m : Message) (bt : Backtester F)
      → bt.cache ≡ blank_cache
      → train_round F sys local_text m (pos 0) bt ≡ none
  unfolding train_round
  train_round-undefined m bt blank = elim (Option-cases bt.train_book) [
    | inl gone ↦ rw gone refl
    | inr (r, here) ↦ rw (here, blank, told-undefined r m) refl
  ]

  -- In a thread whose static variables are blank, the time of a book is too short for `parse_time`: a
  -- backtest that has a message left and is not stopped before it, and a training that has a message,
  -- read behind the end of the string.
  pub run_backtest-undefined :
      (observe : ℕ → Bool) (solve : List (List F.Real × F.Real) → List F.Real) (bt : Backtester F)
      (m n : Message) (ms ns : List Message)
      → bt.cache ≡ blank_cache
      → drop bt.current_message_index bt.messages ≡ m ∷ ms
      → bt.train_messages ≡ n ∷ ns
      → observe 0 ≡ true
      → (run_backtest F sys local_text observe bt ≡ none)
        × (train_model F sys local_text solve bt ≡ none)
  unfolding run_backtest rounds train_model train_rounds
  run_backtest-undefined observe solve bt m n ms ns blank left some_training on =
      let start : Backtester F = record bt { train_message_index = 0 } in
      (
        rw (left, on, run_round-undefined m bt blank) refl,
        ap
              (λ l.
                train_rounds F sys local_text l (some (going (pos 0) start))
                >>= fitted F sys local_text solve)
              some_training
            ∙ ap (λ o. train_rounds F sys local_text ns o >>= fitted F sys local_text solve)
                (train_round-undefined n start blank),
      )
