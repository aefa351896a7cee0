-- ===== src/Clock/Empty.antt =====
-- A thread that starts with empty static variables has only the milliseconds of the epoch.
use hft_backtester.Prelude.{ℕ, ◌≡◌, refl, [], ◌∷◌, none}
use hft_backtester.Text.{Bytes}
use hft_backtester.Book.{Book}
use hft_backtester.Clock.{
  blank_cache, get_formatted_time_fast, current_message_time, three_digits, parse_time, char_at,
}

-- `.000`
abbrev pub no_time : Bytes
no_time = b'.' ∷ b'0' ∷ b'0' ∷ b'0' ∷ []

pub get_formatted_time_fast-empty :
    (local_text : ℕ → Bytes) (b : Book)
    → get_formatted_time_fast local_text b blank_cache ≡ (no_time, blank_cache)
unfolding get_formatted_time_fast current_message_time three_digits
get_formatted_time_fast-empty local_text b = refl

pub parse_time-empty : parse_time no_time ≡ none
unfolding parse_time char_at
parse_time-empty = refl
