-- ===== src/AsyncLogger.antt =====
-- `AsyncLogger` of include/async_logger.h and src/async_logger.cpp: the lines of its file, as the thread
-- of `csv_loop` writes them into the mapped buffer. `none` is a write past the buffer. `shown` is how a
-- stream prints the `float` of a profit with six digits.
pub mod File
pub mod Loop
use hft_backtester.Prelude.{
  ℕ, zero, suc, ◌+◌, ◌/◌, ◌%◌, ◌≤◌, Bool, true, false, not, ◌||◌, Option, none, some, List, [], ◌∷◌,
  ◌++◌, length, get_or, take, ltb, leb, ◌==◌, ◌&&◌, ◌-◌, if◌then◌else◌, ℤ, pos, negsuc, ◌>>=◌,
}
use hft_backtester.Text.{Bytes}
use hft_backtester.Floats.{Floats}
use hft_backtester.Clock.{less}

-- `log_buffer_`, `buffer_size_`, `buffer_offset_`, and the file as it is on the disk.
pub record Buffer : Type 0 where
  pub bytes : ℕ → ℕ
  pub size : ℕ
  pub offset : ℕ
  pub disk : ℕ → ℕ

-- `memcpy`
pub copied : (ℕ → ℕ) → ℕ → Bytes → ℕ → ℕ
copied f from line i =
    if leb from i && ltb i (from + length line) then get_or line (i - from) 0 else f i

pub flush_buffer : Buffer → Buffer
flush_buffer b = if ltb 0 b.offset then record b { disk = b.bytes; offset = 0 } else b

pub appended : Bytes → Buffer → Option Buffer
unfolding copied
appended line b =
    if ltb b.size (b.offset + length line)
    then none
    else some (record b { bytes = copied b.bytes b.offset line; offset = b.offset + length line })

pub write_to_buffer : Bytes → Buffer → Option Buffer
unfolding flush_buffer appended
write_to_buffer line b =
    appended line (if ltb b.size (b.offset + length line) then flush_buffer b else b)

-- The decimal digits of a number, with the digits that are left at most.
unfoldable pub digits : ℕ → ℕ → Bytes
digits zero n = []
digits (suc k) n =
    let rest = digits k (n / 10) in (if ltb n 10 then [] else rest) ++ (b'0' + n % 10) ∷ []

-- An int32_t, of at most ten digits.
unfoldable pub decimal : ℤ → Bytes
unfolding digits
decimal (pos n) = digits 10 n
decimal (negsuc n) = b'-' ∷ digits 10 (n + 1)

module _ (F : Floats) (shown : F.Real → Bytes) where
  pub record LogEntry : Type 0 where
    pub timestamp : Bytes
    pub bid : ℤ
    pub ask : ℤ
    pub position : ℤ
    pub trade_count : ℤ
    pub pnl : F.Real
    pub instrument_id : Bytes

  unfoldable pub format_log_entry : LogEntry → Bytes
  unfolding decimal
  format_log_entry e =
      e.timestamp
      ++ b','
        ∷ (decimal e.bid
            ++ b','
              ∷ (decimal e.ask
                  ++ b','
                    ∷ (decimal e.position
                        ++ b','
                          ∷ (decimal e.trade_count
                              ++ b',' ∷ (shown e.pnl ++ b',' ∷ (e.instrument_id ++ b'\n' ∷ []))))))

  -- What `csv_loop` keeps.
  pub record Batch : Type 0 where
    pub buffer : Buffer
    pub last_flush_time : Bytes
    pub entries_since_flush : ℕ

  abbrev pub other_text : Bytes → Bytes → Bool
  other_text s t = less s t || less t s

  -- The end of a round: the buffer is flushed after 1000 entries, or when the text of the time differs.
  pub batched : LogEntry → Batch → Batch
  unfolding flush_buffer
  batched e s =
      if leb 1000 s.entries_since_flush || other_text s.last_flush_time (take 17 e.timestamp)
      then record {
        buffer = flush_buffer s.buffer;
        last_flush_time = take 17 e.timestamp;
        entries_since_flush = 0;
      }
      else s

  pub csv_round : LogEntry → Batch → Option Batch
  unfolding write_to_buffer format_log_entry batched
  csv_round e s = write_to_buffer (format_log_entry e) s.buffer >>= λ b.
      some (batched e (record s { buffer = b; entries_since_flush = s.entries_since_flush + 1 }))

  -- The loop over the entries that are dequeued.
  pub csv_rounds : List LogEntry → Batch → Option Batch
  unfolding csv_round
  csv_rounds [] s = some s
  csv_rounds (e ∷ es) s = csv_round e s >>= csv_rounds es

  pub csv_loop : List LogEntry → Buffer → Option Buffer
  unfolding csv_rounds flush_buffer
  csv_loop es b =
      csv_rounds es (record { buffer = b; last_flush_time = []; entries_since_flush = 0 }) >>= λ s.
      some (flush_buffer s.buffer)

-- `timestamp,bid,ask,position,trade_count,pnl,instrument`, the first line of the constructor
abbrev pub title : Bytes
title =
    b't' ∷ b'i' ∷ b'm' ∷ b'e' ∷ b's' ∷ b't' ∷ b'a' ∷ b'm' ∷ b'p' ∷ b',' ∷ b'b' ∷ b'i' ∷ b'd' ∷ b','
    ∷ b'a' ∷ b's' ∷ b'k' ∷ b',' ∷ b'p' ∷ b'o' ∷ b's' ∷ b'i' ∷ b't' ∷ b'i' ∷ b'o' ∷ b'n' ∷ b','
    ∷ b't' ∷ b'r' ∷ b'a' ∷ b'd' ∷ b'e' ∷ b'_' ∷ b'c' ∷ b'o' ∷ b'u' ∷ b'n' ∷ b't' ∷ b',' ∷ b'p'
    ∷ b'n' ∷ b'l' ∷ b',' ∷ b'i' ∷ b'n' ∷ b's' ∷ b't' ∷ b'r' ∷ b'u' ∷ b'm' ∷ b'e' ∷ b'n' ∷ b't'
    ∷ b'\n' ∷ []

-- The buffer of the constructor over the bytes of the file, which ftruncate made `size` long.
pub new_buffer : (ℕ → ℕ) → (size : ℕ) → Option Buffer
unfolding write_to_buffer
new_buffer file size =
    write_to_buffer title (record { bytes = file; size = size; offset = 0; disk = file })
