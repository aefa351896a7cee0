-- ===== src/Text/Numeral.antt =====
-- Digits are read back as the number that they spell.
use hft_backtester.Prelude.{
  ℕ, ◌+◌, ◌-◌, ◌*◌, ◌%◌, ◌^◌, ◌<◌, ◌≤◌, ◌≡◌, refl, ap, ◌∙◌, Bool, true, false, some, [], ◌∷◌, ◌++◌,
  ◌==◌, arith, ltb, ◌>>=◌,
}
use hft_backtester.Limit.Chain.{has}
use hft_backtester.Text.{
  Bytes, after_char, number, signed_number, skip_space, strtoull, strtol, is_digit, is_space,
  clamp_unsigned, clamp_signed, with_sign,
}

-- Digits that spell `r` behind `n`.
abbrev pub Spells : ℕ → Bytes → ℕ → Type 0
Spells n [] r = n ≡ r
Spells n (x ∷ xs) r = (is_digit x ≡ true) × Spells (n * 10 + (x - b'0')) xs r

number-Spells :
    (s : Bytes) (n r c : ℕ) (rest : Bytes)
    → Spells n s r
    → is_digit c ≡ false
    → number n (s ++ c ∷ rest) ≡ some r
unfolding number
number-Spells [] n r c rest e stop = rw stop (ap some e)
number-Spells (x ∷ xs) n r c rest (d, e) stop =
    rw d (number-Spells xs (n * 10 + (x - b'0')) r c rest e stop)

-- A numeral: one digit or more, of value `r`.
pub record Numeral (s : Bytes) (r : ℕ) : Type 0 where
  pub lead : ℕ
  pub others : Bytes
  pub split : s ≡ lead ∷ others
  pub spells : Spells 0 (lead ∷ others) r

signed_number-digits :
    (x : ℕ) (xs : Bytes) (r c : ℕ) (rest : Bytes)
    → Spells 0 (x ∷ xs) r
    → is_digit c ≡ false
    → signed_number (skip_space (x ∷ xs ++ c ∷ rest)) ≡ some (false, r)
unfolding signed_number skip_space
signed_number-digits x xs r c rest (d, e) stop =
    let no_space : is_space x ≡ false = ground arith in
    let no_minus : (x == b'-') ≡ false = ground arith in
    let no_plus : (x == b'+') ≡ false = ground arith in
    rw (no_space, no_minus, no_plus)
      (ap (with_sign false) (number-Spells (x ∷ xs) 0 r c rest (d, e) stop))

-- A numeral below 2 ^ 64 is read back, whatever byte but a digit ends it.
pub strtoull-Numeral :
    (s : Bytes) (r c : ℕ) (rest : Bytes)
    → Numeral s r
    → r < 2 ^ 64
    → is_digit c ≡ false
    → strtoull (s ++ c ∷ rest) ≡ some r
unfolding strtoull
strtoull-Numeral s r c rest v small stop =
    let fits : ltb (2 ^ 64 - 1) r ≡ false = ground arith in
    rw (v.split) (
      ap (λ o. o >>= λ (p : Bool × ℕ). some (clamp_unsigned p))
        (signed_number-digits v.lead v.others r c rest v.spells stop)
      ∙ rw fits refl)

signed_number-minus :
    (x : ℕ) (xs : Bytes) (r c : ℕ) (rest : Bytes)
    → Spells 0 (x ∷ xs) r
    → is_digit c ≡ false
    → signed_number (skip_space (b'-' ∷ (x ∷ xs ++ c ∷ rest))) ≡ some (true, r)
unfolding signed_number skip_space
signed_number-minus x xs r c rest spells stop =
    ap (with_sign true) (number-Spells (x ∷ xs) 0 r c rest spells stop)

-- A numeral that fits a `long` is read back by `strtol`, and one behind a minus sign is read as the
-- bit pattern of its negative.
pub strtol-Numeral :
    (s : Bytes) (r c : ℕ) (rest : Bytes)
    → Numeral s r
    → r < 2 ^ 63
    → is_digit c ≡ false
    → strtol (s ++ c ∷ rest) ≡ some r
unfolding strtol
strtol-Numeral s r c rest v small stop =
    let fits : ltb (2 ^ 63 - 1) r ≡ false = ground arith in
    rw (v.split) (
      ap (λ o. o >>= λ (p : Bool × ℕ). some (clamp_signed p))
        (signed_number-digits v.lead v.others r c rest v.spells stop)
      ∙ rw fits refl)

pub strtol-minus :
    (s : Bytes) (r c : ℕ) (rest : Bytes)
    → Numeral s r
    → r ≤ 2 ^ 63
    → is_digit c ≡ false
    → strtol (b'-' ∷ (s ++ c ∷ rest)) ≡ some ((2 ^ 64 - r) % 2 ^ 64)
unfolding strtol
strtol-minus s r c rest v small stop =
    let fits : ltb (2 ^ 63) r ≡ false = ground arith in
    rw (v.split) (
      ap (λ o. o >>= λ (p : Bool × ℕ). some (clamp_signed p))
        (signed_number-minus v.lead v.others r c rest v.spells stop)
      ∙ rw fits refl)

-- A byte that does not stand in a text, and the text behind its first place.
pub has-append : (c : ℕ) (s t : Bytes) → has c s ≡ false → has c (s ++ t) ≡ has c t
has-append c [] t h = refl
has-append c (x ∷ xs) t h = ground (arith, has-append c xs t)

pub after_char-found :
    (c : ℕ) (s rest : Bytes)
    → has c s ≡ false
    → has 0 s ≡ false
    → after_char c (s ++ c ∷ rest) ≡ some rest
unfolding after_char
after_char-found c [] rest h z = ground arith
after_char-found c (x ∷ xs) rest h z =
    let no : (x == c) ≡ false = ground arith in
    let some_byte : (x == 0) ≡ false = ground arith in
    rw (no, some_byte) (after_char-found c xs rest (ground arith) (ground arith))

-- Digits hold no other byte.
Spells-lacks : (c : ℕ) (s : Bytes) (n r : ℕ) → is_digit c ≡ false → Spells n s r → has c s ≡ false
Spells-lacks c [] n r stop e = refl
Spells-lacks c (x ∷ xs) n r stop (d, e) =
    let later = Spells-lacks c xs (n * 10 + (x - b'0')) r stop e in ground arith

pub Numeral-lacks : (c : ℕ) (s : Bytes) (r : ℕ) → is_digit c ≡ false → Numeral s r → has c s ≡ false
Numeral-lacks c s r stop v = rw (v.split) (Spells-lacks c (v.lead ∷ v.others) 0 r stop v.spells)
