-- ===== src/Text.antt =====
-- The C library's functions on text that the program calls. A text is the bytes from a pointer to the
-- end of readable memory; `none` is a read past that end, or a use of the null pointer of a search
-- that found nothing.
pub mod Numeral
use hft_backtester.Prelude.{
  ℕ, ◌+◌, ◌-◌, ◌*◌, ◌%◌, ◌^◌, Bool, true, false, ◌&&◌, ◌||◌, Option, none, some, List, [], ◌∷◌,
  ◌==◌, if◌then◌else◌, ltb, leb, ◌>>=◌,
}

abbrev pub Bytes : Type 0
Bytes = List ℕ

-- `strchr(s, c) + 1`, for a byte that is not NUL
pub after_char : ℕ → Bytes → Option Bytes
after_char c [] = none
after_char c (x ∷ xs) =
    let rest = after_char c xs in if x == c then some xs else if x == 0 then none else rest

-- `*s`
unfoldable pub first : Bytes → Option ℕ
first [] = none
first (x ∷ xs) = some x

abbrev pub is_digit : ℕ → Bool
is_digit c = leb b'0' c && leb c b'9'

abbrev pub is_space : ℕ → Bool
is_space c = c == 32 || leb 9 c && leb c 13

-- The value of the digits at the front behind `n`, with no bound.
pub number : ℕ → Bytes → Option ℕ
number n [] = none
number n (x ∷ xs) =
    let rest = number (n * 10 + (x - b'0')) xs in if is_digit x then rest else some n

abbrev pub with_sign : Bool → Option ℕ → Option (Bool × ℕ)
with_sign neg o = o >>= λ n. some (neg, n)

-- An optional sign and digits: whether it is negative, and the magnitude.
pub signed_number : Bytes → Option (Bool × ℕ)
unfolding number
signed_number [] = none
signed_number (x ∷ xs) =
    if x == b'-'
    then with_sign true (number 0 xs)
    else if x == b'+'
    then with_sign false (number 0 xs)
    else with_sign false (number 0 (x ∷ xs))

pub skip_space : Bytes → Bytes
skip_space [] = []
skip_space (x ∷ xs) = let rest = skip_space xs in if is_space x then rest else x ∷ xs

-- The bit pattern of an `unsigned long long`, saturated; a minus sign negates modulo 2 ^ 64.
abbrev pub clamp_unsigned : Bool × ℕ → ℕ
clamp_unsigned (neg, n) =
    if ltb (2 ^ 64 - 1) n then 2 ^ 64 - 1 else if neg then (2 ^ 64 - n) % 2 ^ 64 else n

-- The bit pattern of a `long` of 64 bits, saturated.
abbrev pub clamp_signed : Bool × ℕ → ℕ
clamp_signed (neg, n) =
    if neg
    then (if ltb (2 ^ 63) n then 2 ^ 63 else (2 ^ 64 - n) % 2 ^ 64)
    else if ltb (2 ^ 63 - 1) n
    then 2 ^ 63 - 1
    else n

-- `strtoull(s, nullptr, 10)`, which is `strtoul` too
pub strtoull : Bytes → Option ℕ
unfolding signed_number skip_space
strtoull s = do v ← signed_number (skip_space s); some (clamp_unsigned v)

-- `strtol(s, nullptr, 10)`
pub strtol : Bytes → Option ℕ
unfolding signed_number skip_space
strtol s = do v ← signed_number (skip_space s); some (clamp_signed v)
