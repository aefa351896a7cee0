-- ===== src/Clock/Day.antt =====
-- The texts of the times of one day, and how they are read and compared.
use hft_backtester.Prelude.{
  ℕ, ◌+◌, ◌*◌, ◌/◌, ◌%◌, ◌<◌, ◌≡◌, refl, true, false, some, [], ◌∷◌, ◌++◌, ltb, ◌==◌, if◌then◌else◌,
  pos, arith, ◌+ℤ◌, ◌*ℤ◌,
}
use hft_backtester.Text.{Bytes}
use hft_backtester.Clock.{less, parse_time, char_at, two_digits, three_digits}

-- A time of a day, to the millisecond.
pub record TimeOfDay : Type 0 where
  pub hour : ℕ
  pub minute : ℕ
  pub second : ℕ
  pub milli : ℕ
  pub hour_lt : hour < 24
  pub minute_lt : minute < 60
  pub second_lt : second < 60
  pub milli_lt : milli < 1000

abbrev pub second_of_day : TimeOfDay → ℕ
second_of_day t = t.hour * 3600 + t.minute * 60 + t.second

-- A number below 100 in two digits, before a text.
abbrev pub padded : ℕ → Bytes → Bytes
padded n rest = (b'0' + n / 10) ∷ (b'0' + n % 10) ∷ rest

-- ` hh:mm:ss.mmm`
abbrev pub clock_text : TimeOfDay → Bytes
clock_text t =
    b' '
    ∷ padded t.hour (b':' ∷ padded t.minute (b':' ∷ padded t.second (b'.' ∷ three_digits t.milli)))

pub less-append : (p s t : Bytes) → less (p ++ s) (p ++ t) ≡ less s t
less-append [] s t = refl
less-append (x ∷ xs) s t =
    let test : ltb x x ≡ false = ground arith in
    let same : (x == x) ≡ true = ground arith in rw (test, same) (less-append xs s t)

less-padded :
    (n k : ℕ) (s t : Bytes)
    → n < 100
    → k < 100
    → less (padded n s) (padded k t)
      ≡ (if ltb n k then true else if n == k then less s t else false)
less-padded n k s t h h' = ground arith

less-three_digits : (n : ℕ) → less (three_digits n) (three_digits 0) ≡ false
unfolding three_digits
less-three_digits n = ground arith

-- A text of the clock is before another without milliseconds when its second is.
pub less-clock_text :
    (t u : TimeOfDay)
    → u.milli ≡ 0
    → less (clock_text t) (clock_text u) ≡ ltb (second_of_day t) (second_of_day u)
less-clock_text t u whole =
    let t_hour = t.hour_lt in
    let t_minute = t.minute_lt in
    let t_second = t.second_lt in
    let u_hour = u.hour_lt in
    let u_minute = u.minute_lt in
    let u_second = u.second_lt in
    rw
      (
        less-padded t.hour u.hour
            (b':' ∷ padded t.minute (b':' ∷ padded t.second (b'.' ∷ three_digits t.milli)))
            (b':' ∷ padded u.minute (b':' ∷ padded u.second (b'.' ∷ three_digits u.milli)))
            (omega arith) (omega arith),
        less-padded t.minute u.minute (b':' ∷ padded t.second (b'.' ∷ three_digits t.milli))
            (b':' ∷ padded u.second (b'.' ∷ three_digits u.milli)) (omega arith) (omega arith),
        less-padded t.second u.second (b'.' ∷ three_digits t.milli) (b'.' ∷ three_digits u.milli)
            (omega arith) (omega arith),
        whole,
        less-three_digits t.milli,
      )
      (ground arith)

two_digits-padded : (n : ℕ) → n < 100 → two_digits (b'0' + n / 10) (b'0' + n % 10) ≡ pos n
unfolding two_digits ◌*ℤ◌ ◌+ℤ◌
two_digits-padded n h = ground arith

seconds_lem :
    (h m s : ℕ) → pos h *ℤ pos 3600 +ℤ pos m *ℤ pos 60 +ℤ pos s ≡ pos (h * 3600 + m * 60 + s)
unfolding ◌*ℤ◌ ◌+ℤ◌
seconds_lem h m s = ground arith

-- Behind a date the text of the clock is read as its second of the day.
pub parse_time-clock_text :
    (a b c d : ℕ) (t : TimeOfDay)
    → parse_time (b'2' ∷ b'0' ∷ b'2' ∷ b'4' ∷ b'-' ∷ a ∷ b ∷ b'-' ∷ c ∷ d ∷ clock_text t)
      ≡ some (pos (second_of_day t))
unfolding parse_time char_at three_digits
parse_time-clock_text a b c d t =
    let t_hour = t.hour_lt in
    let t_minute = t.minute_lt in
    let t_second = t.second_lt in
    rw
      (
        two_digits-padded t.hour (omega arith),
        two_digits-padded t.minute (omega arith),
        two_digits-padded t.second (omega arith),
        seconds_lem t.hour t.minute t.second,
      )
      refl
