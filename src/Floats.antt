-- ===== src/Floats.antt =====
-- Floating-point numbers, of which nothing is assumed: the type and the operations that the program
-- uses. An int32_t or a uint64_t is converted from its bit pattern.
use hft_backtester.Prelude.{ℕ, Bool, ◌^◌, ◌+◌, ◌-◌, ltb, if◌then◌else◌}

pub record Floats : Type 1 where
  pub Real : Type 0
  pub of_int32 : ℕ → Real
  pub of_uint64 : ℕ → Real
  pub to_int32 : Real → ℕ
  pub plus : Real → Real → Real
  pub minus : Real → Real → Real
  pub times : Real → Real → Real
  pub over : Real → Real → Real
  pub lt : Real → Real → Bool
  pub le : Real → Real → Bool

-- The conversion of an int32_t to uint64_t.
abbrev pub widen : ℕ → ℕ
widen w = if ltb w (2 ^ 31) then w else w + 2 ^ 64 - 2 ^ 32
