-- ===== src/Parser/Line.antt =====
-- A line that spells a message is read as that message.
use hft_backtester.Prelude.{
  ℕ, ◌+◌, ◌-◌, ◌%◌, ◌^◌, ◌<◌, ◌≡◌, ◌≢◌, refl, false, some, [], ◌∷◌, ◌++◌, ◌==◌, arith, ℤ, pos,
  negsuc, signed32,
}
use mathlib.Core.List.{append_assoc}
use hft_backtester.Limit.Chain.{has}
use hft_backtester.Message.{Message}
use hft_backtester.Text.{Bytes, after_char, first, strtol, is_digit}
use hft_backtester.Text.Numeral.{
  Numeral, strtoull-Numeral, strtol-Numeral, strtol-minus, after_char-found, Numeral-lacks,
}
use hft_backtester.Parser.{parse_line}

-- A price: a numeral, or a minus sign and one.
pub data Price (s : Bytes) : ℤ → Type 0 where
  plain : {n : ℕ} → Numeral s n → n < 2 ^ 31 → Price s (pos n)
  minus : {n : ℕ} (t : Bytes) → s ≡ b'-' ∷ t → Numeral t (n + 1) → n < 2 ^ 31 → Price s (negsuc n)

-- A byte that is a field of its own.
pub record IsMark (c : ℕ) : Type 0 where
  pub comma : c ≢ b','
  pub newline : c ≢ b'\n'
  pub zero_byte : c ≢ 0

-- `time,action,side,price,size,id`
pub record IsLine (m : Message) (line : Bytes) : Type 0 where
  pub time : Bytes
  pub side : ℕ
  pub price : Bytes
  pub size : Bytes
  pub id : Bytes
  pub split :
      line ≡ time ++ b',' ∷ m.action ∷ b',' ∷ side ∷ b',' ∷ (price ++ b',' ∷ (size ++ b',' ∷ id))
  pub time_is : Numeral time m.time
  pub time_lt : m.time < 2 ^ 64
  pub action_mark : IsMark m.action
  pub side_mark : IsMark side
  pub side_is : (side == b'B') ≡ m.side
  pub price_is : Price price m.price
  pub size_is : Numeral size m.size
  pub size_lt : m.size < 2 ^ 32
  pub id_is : Numeral id m.id
  pub id_lt : m.id < 2 ^ 64

pub Price-lacks :
    (c : ℕ) (s : Bytes) (p : ℤ) → is_digit c ≡ false → c ≢ b'-' → Price s p → has c s ≡ false
Price-lacks c s (pos n) stop ne (plain v small) = Numeral-lacks c s n stop v
Price-lacks c s (negsuc n) stop ne (minus t e v small) =
    let later = Numeral-lacks c t (n + 1) stop v in rw e (ground arith)

-- the bit pattern of a `long`
bits : ℤ → ℕ
bits (pos n) = n
bits (negsuc n) = (2 ^ 64 - (n + 1)) % 2 ^ 64

strtol-Price :
    (s : Bytes) (p : ℤ) (c : ℕ) (rest : Bytes)
    → Price s p
    → is_digit c ≡ false
    → (strtol (s ++ c ∷ rest) ≡ some (bits p)) × (signed32 (bits p % 2 ^ 32) ≡ p)
unfolding bits
strtol-Price s (pos n) c rest (plain v small) stop =
    (strtol-Numeral s n c rest v (omega arith) stop, ground arith)
strtol-Price s (negsuc n) c rest (minus t e v small) stop =
    (rw e (strtol-minus t (n + 1) c rest v (omega arith) stop), ground arith)

past_mark : (c : ℕ) (rest : Bytes) → IsMark c → after_char b',' (c ∷ b',' ∷ rest) ≡ some rest
past_mark c rest v =
    let comma = v.comma in
    let zero_byte = v.zero_byte in after_char-found b',' (c ∷ []) rest (ground arith) (ground arith)

-- A line that spells a message is read as that message, with any text behind its newline.
pub parse_line-IsLine :
    (m : Message) (line rest : Bytes) → IsLine m line → parse_line (line ++ b'\n' ∷ rest) ≡ some m
unfolding parse_line first
parse_line-IsLine m line rest v =
    let tail : Bytes = v.id ++ b'\n' ∷ rest in
    let at_size : Bytes = v.size ++ b',' ∷ tail in
    let at_price : Bytes = v.price ++ b',' ∷ at_size in
    let flat : line ++ b'\n' ∷ rest ≡ v.time ++ b',' ∷ m.action ∷ b',' ∷ v.side ∷ b',' ∷ at_price =
      rw (v.split) (simp append_assoc) in
    let past_time =
      after_char-found b',' v.time (m.action ∷ b',' ∷ v.side ∷ b',' ∷ at_price)
        (Numeral-lacks b',' v.time m.time refl v.time_is)
        (Numeral-lacks 0 v.time m.time refl v.time_is) in
    let past_price =
      after_char-found b',' v.price at_size
        (Price-lacks b',' v.price m.price refl (omega arith) v.price_is)
        (Price-lacks 0 v.price m.price refl (omega arith) v.price_is) in
    let past_size =
      after_char-found b',' v.size tail (Numeral-lacks b',' v.size m.size refl v.size_is)
        (Numeral-lacks 0 v.size m.size refl v.size_is) in
    let (price_bits, price_eq) = strtol-Price v.price m.price b',' at_size v.price_is refl in
    let size_eq : m.size % 2 ^ 32 ≡ m.size = omega (arith, v.size_lt) in
    rw
      (
        flat,
        strtoull-Numeral v.time m.time b',' _ v.time_is v.time_lt refl,
        past_time,
        past_mark m.action (v.side ∷ b',' ∷ at_price) v.action_mark,
        past_mark v.side at_price v.side_mark,
        price_bits,
        past_price,
        strtoull-Numeral v.size m.size b',' _ v.size_is (omega (arith, v.size_lt)) refl,
        past_size,
        strtoull-Numeral v.id m.id b'\n' _ v.id_is v.id_lt refl,
        size_eq,
        price_eq,
        v.side_is,
      )
      refl
