-- ===== src/Parser.antt =====
-- `Parser` of src/parser.cpp. The file is its bytes, and behind them in memory stands the rest of the
-- last page: zeros, or nothing when the file fills its pages. A search for a comma is not bounded by
-- the line, nor by the file.
pub mod Line
pub mod Stream
use hft_backtester.Prelude.{
  ℕ, zero, suc, ◌%◌, ◌^◌, Bool, true, false, Option, none, some, List, [], ◌∷◌, ◌++◌, ◌==◌,
  if◌then◌else◌, length, signed32, ◌>>=◌,
}
use hft_backtester.Message.{Message}
use hft_backtester.Text.{Bytes, after_char, first, strtoull, strtol}

-- How `parse` ends: it returns, it throws, or it does what the language does not define.
pub data Outcome : Type 0 where
  parsed : List Message → Outcome
  refused : List Message → Outcome
  faulted : Outcome

-- What the system makes of the file.
pub data Source : Type 0 where
  not_opened : Source
  no_stats : Source
  not_mapped : Source
  mapped : (file padding : Bytes) → Source

pub parse_line : Bytes → Option Message
parse_line start = do
  ts_event ← strtoull start
  at_action ← after_char b',' start
  action ← first at_action
  at_side ← after_char b',' at_action
  side ← first at_side
  at_price ← after_char b',' at_side
  price ← strtol at_price
  at_size ← after_char b',' at_price
  size ← strtoull at_size
  at_id ← after_char b',' at_size
  order_id ← strtoull at_id
  some (record {
    id = order_id;
    time = ts_event;
    size = size % 2 ^ 32;
    price = signed32 (price % 2 ^ 32);
    action = action;
    side = side == b'B';
  })

-- `memchr(current, '\n', end - current) + 1`; `none` is no newline before the end.
pub after_line : Bytes → Option Bytes
after_line [] = none
after_line (x ∷ xs) = let rest = after_line xs in if x == b'\n' then some xs else rest

-- The first loop of `parse_mapped_data`; `none` is its exception.
pub skip_lines : ℕ → Bytes → Option Bytes
unfolding after_line
skip_lines zero s = some s
skip_lines (suc k) [] = some []
skip_lines (suc k) (x ∷ xs) = after_line (x ∷ xs) >>= skip_lines k

-- Where the next round starts: at the end if there is no newline.
pub or_end : Option Bytes → Bytes
or_end none = []
or_end (some s) = s

-- The second loop, with the rounds that are left at most.
pub parse_lines : Bytes → ℕ → Bytes → List Message → Option (List Message)
unfolding or_end after_line
parse_lines padding zero s stream = some stream
parse_lines padding (suc k) [] stream = some stream
parse_lines padding (suc k) (x ∷ xs) stream = do
  m ← parse_line (x ∷ xs ++ padding)
  parse_lines padding k (or_end (after_line (x ∷ xs))) (stream ++ m ∷ [])

pub ended : Option (List Message) → Outcome
ended none = faulted
ended (some stream) = parsed stream

-- What is left after the header.
pub parse_body : Bytes → Option Bytes → List Message → Outcome
unfolding parse_lines ended
parse_body padding none stream = refused stream
parse_body padding (some body) stream = ended (parse_lines padding (length body) body stream)

pub parse_mapped_data : Bytes → Bytes → List Message → Outcome
unfolding skip_lines parse_body
parse_mapped_data file padding stream = parse_body padding (skip_lines 2 file) stream

-- The stream that is there already stays in front.
pub parse : Source → List Message → Outcome
unfolding parse_mapped_data
parse not_opened stream = refused stream
parse no_stats stream = refused stream
parse not_mapped stream = refused stream
parse (mapped file padding) stream = parse_mapped_data file padding stream
