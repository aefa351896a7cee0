-- ===== src/MarketDataIngestor/Unkept.antt =====
-- A recorded stream in which no price counts for the window.
use hft_backtester.Prelude.{
  ℕ, ◌+◌, ◌-◌, ◌^◌, ◌≤◌, ◌≡◌, ◌⊎◌, inl, inr, refl, ap, sym, subst, ◌∙◌, Bool, true, false,
  Bool-cases, some, List, [], ◌∷◌, length, pos, negsuc, arith, Returns, returns, ◌>>=◌, suc,
}
use hft_backtester.Message.{Message}
use hft_backtester.Book.{Book, System, new_book, get_best_price}
use hft_backtester.Book.New.{new_book-returns}
use hft_backtester.Book.Process.{is_ignored, process_msg-ignored}
use hft_backtester.MarketDataIngestor.{
  MarketDataIngestor, is_kept, book_over, new_ingestor, ingest, ingested, ingest_market_data,
  start_perf_tracking, end_perf_tracking,
}
use hft_backtester.MarketDataIngestor.Window.{some_kept, window-unkept}

-- The book is the new one, with two slots and no quote, and all messages were processed, or
-- those before `running_` was false.
pub record IsInert (sys : System) (observe : ℕ → Bool) (ms : List Message) (g : MarketDataIngestor)
    : Type 0 where
  pub book_eq : new_book sys (2 ^ 31 - 1) (2 ^ 31) ≡ some g.orderbook
  pub range_eq : g.orderbook.range ≡ 2
  pub no_quote : (s : Bool) → get_best_price s g.orderbook ≡ 0
  pub processed_le : g.messages_processed ≤ length ms
  pub ends : (g.messages_processed ≡ length ms) ⊎ (observe g.messages_processed ≡ false)
  pub completed : g.completed ≡ true

unkept-ignored : (m : Message) → is_kept m ≡ false → is_ignored m ≡ true
unkept-ignored m h = ground arith

-- The loop leaves the book as it is.
ingest-unkept :
    (sys : System) (observe : ℕ → Bool) (k : ℕ) (ms : List Message) (b : Book)
    → some_kept ms ≡ false
    → (n : ℕ) × (ingest sys observe k ms b ≡ some (b, k + n))
      × (n ≤ length ms)
      × ((n ≡ length ms) ⊎ (observe (k + n) ≡ false))
unfolding ingest
ingest-unkept sys observe k [] b h = (0, ap (λ i. some (b, i)) (omega arith), omega arith, inl refl)
ingest-unkept sys observe k (m ∷ ms) b h = elim (Bool-cases (observe k)) [
  | inl on ↦
      let skip = process_msg-ignored sys m b (unkept-ignored m (ground arith)) in
      let (n, eq, le, ends) = ingest-unkept sys observe (k + 1) ms b (ground arith) in
      let shift : k + 1 + n ≡ k + suc n = omega arith in
      (
        suc n,
        rw (on, skip) (eq ∙ ap (λ i. some (b, i)) shift),
        omega arith,
        elim ends [ inl all ↦ inl (ap suc all) | inr off ↦ inr (sym (ap observe shift) ∙ off) ],
      )
  | inr off ↦
      let stay : k + 0 ≡ k = omega arith in
      (0, rw off (ap (λ i. some (b, i)) (sym stay)), omega arith, inr (ap observe stay ∙ off))
]

-- Without a price that counts for the window, its size wraps to two: the constructor succeeds, every
-- message is ignored, and the thread leaves the new book, without a quote, when all messages are
-- processed or `running_` is false.
pub ingest_market_data-IsInert :
    (sys : System) (observe : ℕ → Bool) (begin finish : ℕ) (ms : List Message)
    → some_kept ms ≡ false
    → Returns
        (IsInert sys observe ms)
        (new_ingestor sys ms >>= ingest_market_data sys observe begin finish)
unfolding new_ingestor book_over ingest_market_data ingested start_perf_tracking end_perf_tracking
ingest_market_data-IsInert sys observe begin finish ms h =
    let (b, made, range_eq, no_quote) = new_book-returns sys (2 ^ 31 - 1) (2 ^ 31) (omega arith) in
    let (n, eq, le, ends) = ingest-unkept sys observe 0 ms b h in
    let zero_add : 0 + n ≡ n = omega arith in
    rw (window-unkept (pos (2 ^ 31 - 1)) (negsuc (2 ^ 31 - 1)) ms h, made, eq, zero_add)
      (returns (record {
        book_eq = made;
        range_eq = range_eq;
        no_quote = no_quote;
        processed_le = le;
        ends = subst (λ i. (n ≡ length ms) ⊎ (observe i ≡ false)) zero_add ends;
        completed = refl;
      }))
