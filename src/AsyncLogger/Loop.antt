-- ===== src/AsyncLogger/Loop.antt =====
-- The thread that writes the log.
use hft_backtester.Prelude.{
  ℕ, ◌+◌, ◌<◌, ◌≤◌, ◌≡◌, ◌⊎◌, refl, ap, ◌∙◌, true, Bool-cases, inl, inr, List, [], ◌∷◌, length,
  get_or, take, leb, arith, false≢true, Returns, returns, Returns-bind,
}
use hft_backtester.Text.{Bytes}
use hft_backtester.Floats.{Floats}
use hft_backtester.AsyncLogger.{
  Buffer, LogEntry, format_log_entry, Batch, other_text, batched, csv_round, csv_rounds, csv_loop,
}
use hft_backtester.AsyncLogger.File.{IsBuffer, flush_buffer-IsBuffer, write_to_buffer-IsWritten}

module _ (F : Floats) (shown : F.Real → Bytes) (size : ℕ) where
  abbrev pub line : LogEntry F shown → Bytes
  line e = format_log_entry F shown e

  -- No line is longer than the buffer.
  abbrev pub AllFit : List (LogEntry F shown) → Type 0
  AllFit [] = Unit
  AllFit (e ∷ es) = (length (line e) ≤ size) × AllFit es

  -- What a round leaves: the line of the entry is in the buffer, which was flushed if the text of the
  -- time differs from that of the last flush.
  record IsRound (e : LogEntry F shown) (s s' : Batch F shown) : Type 0 where
    buffer : IsBuffer size s'.buffer
    from : ℕ
    from_eq : (from ≡ s.buffer.offset) ⊎ (from ≡ 0)
    line_at : (i : ℕ) → i < length (line e) → s'.buffer.bytes (from + i) ≡ get_or (line e) i 0
    flushed :
        other_text F shown s.last_flush_time (take 17 e.timestamp) ≡ true → s'.buffer.offset ≡ 0

  batched-IsBuffer :
      (e : LogEntry F shown) (s : Batch F shown)
      → IsBuffer size s.buffer
      → let s' = batched F shown e s in
        IsBuffer size s'.buffer
        × ((i : ℕ) → s'.buffer.bytes i ≡ s.buffer.bytes i)
        × (other_text F shown s.last_flush_time (take 17 e.timestamp) ≡ true → s'.buffer.offset ≡ 0)
  unfolding batched
  batched-IsBuffer e s v =
      let (v', start, kept) = flush_buffer-IsBuffer size s.buffer v in
      elim (Bool-cases (leb 1000 s.entries_since_flush)) [
        | inl many ↦ rw many (v', kept, λ h. start)
        | inr few ↦ elim (Bool-cases (other_text F shown s.last_flush_time (take 17 e.timestamp))) [
          | inl other ↦ rw (few, other) (v', kept, λ h. start)
          | inr same ↦ rw (few, same) (v, λ i. refl, λ h. absurd (false≢true h))
        ]
      ]

  csv_round-IsRound :
      (e : LogEntry F shown) (s : Batch F shown)
      → IsBuffer size s.buffer
      → length (line e) ≤ size
      → Returns (IsRound e s) (csv_round F shown e s)
  unfolding csv_round
  csv_round-IsRound e s v fit =
      Returns-bind (write_to_buffer-IsWritten size (line e) s.buffer v fit) λ b w.
        let (v', kept, flushed) =
          batched-IsBuffer e
            (record s { buffer = b; entries_since_flush = s.entries_since_flush + 1 }) w.buffer in
        returns (record {
          buffer = v';
          from = w.from;
          from_eq = w.from_eq;
          line_at = λ i lt. kept (w.from + i) ∙ w.line_at i lt;
          flushed = flushed;
        })

  csv_rounds-IsBuffer :
      (es : List (LogEntry F shown)) (s : Batch F shown)
      → IsBuffer size s.buffer
      → AllFit es
      → Returns (λ s'. IsBuffer size s'.buffer) (csv_rounds F shown es s)
  unfolding csv_rounds
  csv_rounds-IsBuffer [] s v fit = returns v
  csv_rounds-IsBuffer (e ∷ es) s v (now, later) =
      Returns-bind (csv_round-IsRound e s v now) λ s' r. csv_rounds-IsBuffer es s' r.buffer later

  -- When no line is longer than the buffer, the loop writes inside the buffer, and ends with the disk up
  -- to date.
  pub csv_loop-IsBuffer :
      (es : List (LogEntry F shown)) (b : Buffer)
      → IsBuffer size b
      → AllFit es
      → Returns
          (λ b'. IsBuffer size b' × (b'.offset ≡ 0) × ((i : ℕ) → b'.disk i ≡ b'.bytes i))
          (csv_loop F shown es b)
  unfolding csv_loop
  csv_loop-IsBuffer es b v fit =
      Returns-bind
        (csv_rounds-IsBuffer es
          (record { buffer = b; last_flush_time = []; entries_since_flush = 0 }) v fit)
        λ s w.
          let (v', start, kept) = flush_buffer-IsBuffer size s.buffer w in
          returns (v', start, v'.synced start)

  -- The entry behind a flush is written over the start of the file: over the entries that were flushed.
  pub csv_rounds-overwrites :
      (e f : LogEntry F shown) (s : Batch F shown)
      → IsBuffer size s.buffer
      → other_text F shown s.last_flush_time (take 17 e.timestamp) ≡ true
      → length (line e) ≤ size
      → length (line f) ≤ size
      → Returns
          (λ s'. (i : ℕ) → i < length (line f) → s'.buffer.bytes i ≡ get_or (line f) i 0)
          (csv_rounds F shown (e ∷ f ∷ []) s)
  unfolding csv_rounds
  csv_rounds-overwrites e f s v differs fit_e fit_f =
      Returns-bind (csv_round-IsRound e s v fit_e) λ s' r.
        Returns-bind (csv_round-IsRound f s' r.buffer fit_f) λ s'' t.
          let from_eq = t.from_eq in
          let start : t.from ≡ 0 = omega (arith, r.flushed differs) in
          returns λ i lt. ap s''.buffer.bytes (omega (arith, start)) ∙ t.line_at i lt
