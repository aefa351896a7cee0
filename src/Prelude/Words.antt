-- ===== src/Prelude/Words.antt =====
-- Machine words as native numbers: a 32-bit value is its bit pattern, below 2 ^ 32.
use Prim.Native.Nat.{ℕ, ◌+◌, ◌-◌, ◌%◌, ◌^◌, ◌<◌}
use native.Mathlib.Omega.{arith}
use hft_backtester.Prelude.Tests.{ltb, if◌then◌else◌}
use hft_backtester.Prelude.Int.{ℤ, pos, negsuc}

abbrev pub u32_mod : ℕ
u32_mod = 2 ^ 32

-- a + b and a - b in 32 bits, signed or unsigned: the bit pattern is the same.
unfoldable pub add32 : ℕ → ℕ → ℕ
add32 a b = (a + b) % 2 ^ 32

unfoldable pub sub32 : ℕ → ℕ → ℕ
sub32 a b = (a + 2 ^ 32 - b) % 2 ^ 32

-- The int32_t difference of two non-negative int32_t, converted to size_t.
unfoldable pub index_diff : ℕ → ℕ → ℕ
index_diff a b = (a + 2 ^ 64 - b) % 2 ^ 64

-- The integer that a bit pattern stands for as an int32_t.
abbrev pub signed32 : ℕ → ℤ
signed32 w = if ltb w (2 ^ 31) then pos w else negsuc (2 ^ 32 - w - 1)

pub add32-lt : (a b : ℕ) → add32 a b < 2 ^ 32
unfolding add32
add32-lt a b = omega arith

pub sub32-lt : (a b : ℕ) → sub32 a b < 2 ^ 32
unfolding sub32
sub32-lt a b = omega arith
