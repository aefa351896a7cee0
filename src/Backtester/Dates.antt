-- ===== src/Backtester/Dates.antt =====
-- The trading times of a day, as the loops read and compare them.
use hft_backtester.Prelude.{
  Bool-cases, inl, inr, ◌≡◌, refl, Bool, true, false, some, [], ◌∷◌, ◌++◌, length, ltb, ◌==◌,
  get_or, pos, arith,
}
use hft_backtester.Text.{Bytes}
use hft_backtester.Clock.{less, parse_time, three_digits}
use hft_backtester.Clock.Day.{
  TimeOfDay, second_of_day, clock_text, less-append, less-clock_text, parse_time-clock_text,
}
use hft_backtester.Floats.{Floats}
use hft_backtester.Backtester.{Backtester, extract_date, opening, closing, set_trading_times}

-- The day in 2024 of a file: its third and fourth characters are the month, the next two the day.
abbrev pub date_of : Bytes → Bytes
date_of name =
    b'2'
    ∷ b'0'
    ∷ b'2'
    ∷ b'4'
    ∷ b'-'
    ∷ get_or name 2 0
    ∷ get_or name 3 0
    ∷ b'-'
    ∷ get_or name 4 0
    ∷ get_or name 5 0
    ∷ []

-- The text of a time on the day of a file
abbrev pub text_on : Bytes → TimeOfDay → Bytes
text_on name t = date_of name ++ clock_text t

-- From half past nine to four on the day of a file: as the loops compare texts, the times of that day
-- before the start and those before the end are the ones that are earlier on the clock; and every text
-- of that day is read as its second of the day, as is the start and the end.
pub record IsDay (name start_time end_time : Bytes) : Type 0 where
  pub before_start :
      (t : TimeOfDay) → less (text_on name t) start_time ≡ ltb (second_of_day t) 34200
  pub before_end : (t : TimeOfDay) → less (text_on name t) end_time ≡ ltb (second_of_day t) 57600
  pub seconds : (t : TimeOfDay) → parse_time (text_on name t) ≡ some (pos (second_of_day t))
  pub start_seconds : parse_time start_time ≡ some (pos 34200)
  pub end_seconds : parse_time end_time ≡ some (pos 57600)

-- A name of fewer than eight characters has no day, and the times are the ones before.
abbrev pub IsTimed : Bool → (name old_start old_end start_time end_time : Bytes) → Type 0
IsTimed true name old_start old_end start_time end_time =
    (start_time ≡ old_start) × (end_time ≡ old_end)
IsTimed false name old_start old_end start_time end_time = IsDay name start_time end_time

abbrev opens_at : TimeOfDay
opens_at = record {
  hour = 9;
  minute = 30;
  second = 0;
  milli = 0;
  hour_lt = omega arith;
  minute_lt = omega arith;
  second_lt = omega arith;
  milli_lt = omega arith;
}

abbrev closes_at : TimeOfDay
closes_at = record {
  hour = 16;
  minute = 0;
  second = 0;
  milli = 0;
  hour_lt = omega arith;
  minute_lt = omega arith;
  second_lt = omega arith;
  milli_lt = omega arith;
}

date_of-IsDay : (name : Bytes) → IsDay name (date_of name ++ opening) (date_of name ++ closing)
unfolding three_digits
date_of-IsDay name =
    let read = λ (t : TimeOfDay).
      parse_time-clock_text (get_or name 2 0) (get_or name 3 0) (get_or name 4 0) (get_or name 5 0)
        t in
    record {
      before_start = λ t.
          rw (less-append (date_of name) (clock_text t) opening) (less-clock_text t opens_at refl);
      before_end = λ t.
          rw (less-append (date_of name) (clock_text t) closing) (less-clock_text t closes_at refl);
      seconds = read;
      start_seconds = read opens_at;
      end_seconds = read closes_at;
    }

-- Eight characters are enough for a date.
extract_date-date_of :
    (name : Bytes) → ltb (length name) 8 ≡ false → extract_date name ≡ date_of name
unfolding extract_date
extract_date-date_of (u ∷ v ∷ a ∷ b ∷ c ∷ d ∷ rest) h = rw h refl
extract_date-date_of [] h = cc h
extract_date-date_of (u ∷ []) h = cc h
extract_date-date_of (u ∷ v ∷ []) h = cc h
extract_date-date_of (u ∷ v ∷ a ∷ []) h = cc h
extract_date-date_of (u ∷ v ∷ a ∷ b ∷ []) h = cc h
extract_date-date_of (u ∷ v ∷ a ∷ b ∷ c ∷ []) h = cc h

extract_date-short : (name : Bytes) → ltb (length name) 8 ≡ true → extract_date name ≡ []
unfolding extract_date
extract_date-short name h = rw h refl

-- The times of the backtest and those of the training are each set from their own file, and kept if its
-- name has fewer than eight characters. They are half past nine and four of the day in 2024 that the
-- third to sixth character of the name give as month and day: against every text of a time of that day,
-- they compare as the clock does, and `parse_time` reads every such text, and them, as the second of the
-- day.
pub set_trading_times-IsTimed :
    (F : Floats) (backtest_file train_file : Bytes) (bt : Backtester F)
    → let bt' = set_trading_times F backtest_file train_file bt in
      IsTimed
        (ltb (length backtest_file) 8)
        backtest_file
        bt.start_time
        bt.end_time
        bt'.start_time
        bt'.end_time
      × IsTimed
          (ltb (length train_file) 8)
          train_file
          bt.train_start_time
          bt.train_end_time
          bt'.train_start_time
          bt'.train_end_time
unfolding set_trading_times
set_trading_times-IsTimed F backtest_file train_file bt =
    elim (Bool-cases (ltb (length backtest_file) 8)) [
      | inl e ↦ elim (Bool-cases (ltb (length train_file) 8)) [
        | inl f ↦ elim (Bool-cases (length train_file == 0)) [
          | inl g ↦ rw (e, f, g) ((refl, refl), (refl, refl))
          | inr g ↦ rw (e, f, g) ((refl, refl), (refl, refl))
        ]
        | inr f ↦
            let named : (length train_file == 0) ≡ false = ground arith in
            rw (extract_date-short backtest_file e, extract_date-date_of train_file f, e, f, named)
              ((refl, refl), date_of-IsDay train_file)
      ]
      | inr e ↦ elim (Bool-cases (ltb (length train_file) 8)) [
        | inl f ↦ elim (Bool-cases (length train_file == 0)) [
          | inl g ↦
              rw (extract_date-date_of backtest_file e, extract_date-short train_file f, e, f, g)
                (date_of-IsDay backtest_file, (refl, refl))
          | inr g ↦
              rw (extract_date-date_of backtest_file e, extract_date-short train_file f, e, f, g)
                (date_of-IsDay backtest_file, (refl, refl))
        ]
        | inr f ↦
            let named : (length train_file == 0) ≡ false = ground arith in
            rw
              (extract_date-date_of backtest_file e, extract_date-date_of train_file f, e, f, named)
              (date_of-IsDay backtest_file, date_of-IsDay train_file)
      ]
    ]
