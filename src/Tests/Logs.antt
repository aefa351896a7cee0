-- ===== src/Tests/Logs.antt =====
-- Two log entries in a buffer of 100 bytes, and a connection that loses a line.
use hft_backtester.Prelude.{
  ℕ, ◌<◌, ◌≤◌, ◌≡◌, refl, true, false, some, none, List, [], ◌∷◌, ◌++◌, length, get_or, pos, negsuc,
  arith, Returns,
}
use hft_backtester.Text.{Bytes}
use hft_backtester.AsyncLogger.{
  Buffer, LogEntry, Batch, csv_loop, csv_rounds, format_log_entry, decimal, digits,
}
use hft_backtester.AsyncLogger.File.{IsBuffer}
use hft_backtester.AsyncLogger.Loop.{csv_loop-IsBuffer, csv_rounds-overwrites}
use hft_backtester.Connection.{Connection, Answers, process_database_queue, destroy_connection}
use hft_backtester.Connection.Sockets.{IsTight, Among, process_database_queue-IsTight}
use hft_backtester.Tests.Trades.{whole}

abbrev mute : ℕ → Bytes
mute r = b'0' ∷ []

abbrev bought : LogEntry whole mute
bought = record {
  timestamp = b'.' ∷ b'0' ∷ [];
  bid = pos 100005;
  ask = pos 100007;
  position = pos 1;
  trade_count = pos 1;
  pnl = 0;
  instrument_id = b'e' ∷ b's' ∷ [];
}

abbrev sold : LogEntry whole mute
sold = record bought { position = negsuc 0; trade_count = pos 2 }

abbrev empty_buffer : Buffer
empty_buffer = record { bytes = λ i. 0; size = 100; offset = 0; disk = λ i. 0 }

empty_buffer-IsBuffer : IsBuffer 100 empty_buffer
empty_buffer-IsBuffer = record { size_eq = refl; offset_le = omega arith; synced = λ e i. refl }

abbrev first_batch : Batch whole mute
first_batch = record { buffer = empty_buffer; last_flush_time = []; entries_since_flush = 0 }

bought_fits : length (format_log_entry whole mute bought) ≤ 100
unfolding format_log_entry decimal digits
bought_fits = omega arith

sold_fits : length (format_log_entry whole mute sold) ≤ 100
unfolding format_log_entry decimal digits
sold_fits = omega arith

csv_loop-IsBuffer_example :
    Returns
      (λ b'. IsBuffer 100 b' × (b'.offset ≡ 0) × ((i : ℕ) → b'.disk i ≡ b'.bytes i))
      (csv_loop whole mute (bought ∷ sold ∷ []) empty_buffer)
csv_loop-IsBuffer_example =
    csv_loop-IsBuffer whole mute 100 (bought ∷ sold ∷ []) empty_buffer empty_buffer-IsBuffer
      (bought_fits, (sold_fits, tt))

csv_rounds-overwrites_example :
    Returns
      (λ s'.
        (i : ℕ)
        → i < length (format_log_entry whole mute sold)
        → s'.buffer.bytes i ≡ get_or (format_log_entry whole mute sold) i 0)
      (csv_rounds whole mute (bought ∷ sold ∷ []) first_batch)
csv_rounds-overwrites_example =
    csv_rounds-overwrites whole mute 100 bought sold first_batch empty_buffer-IsBuffer refl
      bought_fits sold_fits

abbrev fine : Answers
fine = record { socket = some 4; options = true; connects = true; takes = some 1 }

abbrev refused : Answers
refused = record { socket = some 4; options = true; connects = false; takes = some 1 }

abbrev unconnected : Connection
unconnected = record { sock = none; active = false; opened = []; sent = [] }

-- of two bytes the first is taken
abbrev short_send : Answers
short_send = record { socket = none; options = true; connects = true; takes = some 1 }

-- The first line is lost, the second is sent, the third in part.
abbrev three_lines : List (Bytes × Answers)
three_lines = (b'1' ∷ [], refused) ∷ (b'2' ∷ [], fine) ∷ (b'3' ∷ b'4' ∷ [], short_send) ∷ []

process_database_queue-IsTight_example :
    let c = process_database_queue three_lines unconnected in
    IsTight c
    × ((kept : List Bytes) × (c.sent ≡ [] ++ kept) × Among kept three_lines)
    × ((destroy_connection c).opened ≡ [])
process_database_queue-IsTight_example =
    process_database_queue-IsTight three_lines unconnected
      (record { opened_eq = refl; active_eq = refl })
