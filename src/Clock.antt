-- ===== src/Clock.antt =====
-- The time of a book as text: `get_formatted_time_fast` of include/book/orderbook.h, and how
-- src/backtester.cpp reads and compares such texts.
pub mod Empty
pub mod Day
use hft_backtester.Prelude.{
  ℕ, ◌+◌, ◌-◌, ◌*◌, ◌/◌, ◌%◌, Bool, true, false, not, Option, none, some, List, [], ◌∷◌, ◌++◌,
  length, get_elem?, ltb, ◌==◌, if◌then◌else◌, ℤ, pos, negsuc, sub_ℕ, ◌+ℤ◌, ◌*ℤ◌, ◌>>=◌,
}
use hft_backtester.Text.{Bytes}
use hft_backtester.Book.{Book}

-- `current_message_time_` in nanoseconds. It starts at the epoch, and the assignment in `process_msg` is
-- commented out.
pub current_message_time : Book → ℕ
current_message_time b = 0

-- The static variables of a thread.
pub record Cache : Type 0 where
  pub last_second : ℕ
  pub last_second_str : Bytes

abbrev pub blank_cache : Cache
blank_cache = record { last_second = 0; last_second_str = [] }

-- `%03d` of a number below 1000
unfoldable pub three_digits : ℕ → Bytes
three_digits n = (b'0' + n / 100 % 10) ∷ (b'0' + n / 10 % 10) ∷ (b'0' + n % 10) ∷ []

-- `local_text` is what localtime_r and strftime make of a second in the zone of the system.
pub get_formatted_time_fast : (local_text : ℕ → Bytes) → Book → Cache → Bytes × Cache
unfolding current_message_time three_digits
get_formatted_time_fast local_text b cache =
    let now : ℕ = current_message_time b / 1000000000 in
    let ms : ℕ = current_message_time b / 1000000 % 1000 in
    let cache' : Cache =
      if now == cache.last_second
      then cache
      else record { last_second = now; last_second_str = local_text now } in
    (cache'.last_second_str ++ b'.' ∷ three_digits ms, cache')

-- `time_str[i]`: the zero byte at the end, and none behind it.
unfoldable pub char_at : Bytes → ℕ → Option ℕ
char_at s i = if i == length s then some 0 else get_elem? s i

-- Two characters as a number.
unfoldable pub two_digits : ℕ → ℕ → ℤ
two_digits a b = sub_ℕ a b'0' *ℤ pos 10 +ℤ sub_ℕ b b'0'

unfoldable pub parse_time : Bytes → Option ℤ
unfolding char_at two_digits
parse_time s = do
  h1 ← char_at s 11
  h2 ← char_at s 12
  m1 ← char_at s 14
  m2 ← char_at s 15
  s1 ← char_at s 17
  s2 ← char_at s 18
  some (two_digits h1 h2 *ℤ pos 3600 +ℤ two_digits m1 m2 *ℤ pos 60 +ℤ two_digits s1 s2)

-- `s < t` of two strings.
abbrev pub less : Bytes → Bytes → Bool
less s [] = false
less [] (y ∷ ys) = true
less (x ∷ xs) (y ∷ ys) = if ltb x y then true else if x == y then less xs ys else false
