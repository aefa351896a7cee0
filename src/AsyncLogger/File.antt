-- ===== src/AsyncLogger/File.antt =====
-- Where the lines of the log go.
use hft_backtester.Prelude.{
  ℕ, ◌+◌, ◌<◌, ◌≤◌, ◌≡◌, ◌⊎◌, refl, ap, sym, ◌∙◌, true, false, Bool-cases, inl, inr, length, get_or,
  ltb, leb, arith, Returns, returns, Returns-mono,
}
use hft_backtester.Text.{Bytes}
use hft_backtester.AsyncLogger.{Buffer, copied, flush_buffer, appended, write_to_buffer}

-- The offset is in the buffer, and the disk is up to date when it is 0.
pub record IsBuffer (size : ℕ) (b : Buffer) : Type 0 where
  pub size_eq : b.size ≡ size
  pub offset_le : b.offset ≤ size
  pub synced : b.offset ≡ 0 → (i : ℕ) → b.disk i ≡ b.bytes i

-- The line stands behind what was there, or at the start when it does not fit there.
pub record IsWritten (size : ℕ) (line : Bytes) (b b' : Buffer) : Type 0 where
  pub buffer : IsBuffer size b'
  pub from : ℕ
  pub from_eq : (from ≡ b.offset) ⊎ (from ≡ 0)
  pub offset_eq : b'.offset ≡ from + length line
  pub line_at : (i : ℕ) → i < length line → b'.bytes (from + i) ≡ get_or line i 0
  pub before_at : (i : ℕ) → i < from → b'.bytes i ≡ b.bytes i

copied_inside :
    (f : ℕ → ℕ) (from : ℕ) (line : Bytes) (i : ℕ)
    → i < length line
    → copied f from line (from + i) ≡ get_or line i 0
unfolding copied
copied_inside f from line i lt =
    let low : leb from (from + i) ≡ true = ground arith in
    let high : ltb (from + i) (from + length line) ≡ true = ground arith in
    rw (low, high) (ap (λ j. get_or line j 0) (omega arith))

copied_before :
    (f : ℕ → ℕ) (from : ℕ) (line : Bytes) (i : ℕ) → i < from → copied f from line i ≡ f i
unfolding copied
copied_before f from line i lt = let low : leb from i ≡ false = ground arith in rw low refl

copied_none :
    (f : ℕ → ℕ) (from : ℕ) (line : Bytes) (i : ℕ) → length line ≡ 0 → copied f from line i ≡ f i
unfolding copied
copied_none f from line i e = elim (Bool-cases (leb from i)) [
  | inl low ↦ let high : ltb i (from + length line) ≡ false = ground arith in rw (low, high) refl
  | inr high ↦ rw high refl
]

pub flush_buffer-IsBuffer :
    (size : ℕ) (b : Buffer)
    → IsBuffer size b
    → IsBuffer size (flush_buffer b)
      × ((flush_buffer b).offset ≡ 0)
      × ((i : ℕ) → (flush_buffer b).bytes i ≡ b.bytes i)
unfolding flush_buffer
flush_buffer-IsBuffer size b v = elim (Bool-cases (ltb 0 b.offset)) [
  | inl used ↦ rw used (
    record { size_eq = v.size_eq; offset_le = omega arith; synced = λ e i. refl },
    refl,
    λ i. refl,
  )
  | inr empty ↦ rw empty (v, ground arith, λ i. refl)
]

appended-IsWritten :
    (size : ℕ) (line : Bytes) (b : Buffer)
    → IsBuffer size b
    → b.offset + length line ≤ size
    → Returns
        (λ b'.
          IsBuffer size b'
          × (b'.offset ≡ b.offset + length line)
          × ((i : ℕ) → i < length line → b'.bytes (b.offset + i) ≡ get_or line i 0)
          × ((i : ℕ) → i < b.offset → b'.bytes i ≡ b.bytes i))
        (appended line b)
unfolding appended
appended-IsWritten size line b v fits =
    let room : ltb b.size (b.offset + length line) ≡ false = let e = v.size_eq in ground arith in
    rw room (
      returns (
        record {
          size_eq = v.size_eq;
          offset_le = fits;
          synced = λ e i.
              v.synced (omega (arith, e)) i
              ∙ sym (copied_none b.bytes b.offset line i (omega (arith, e)));
        },
        refl,
        copied_inside b.bytes b.offset line,
        copied_before b.bytes b.offset line,
      ))

-- A line that is no longer than the buffer is written inside it: behind the last one, or at the start if
-- it does not fit there.
pub write_to_buffer-IsWritten :
    (size : ℕ) (line : Bytes) (b : Buffer)
    → IsBuffer size b
    → length line ≤ size
    → Returns (IsWritten size line b) (write_to_buffer line b)
unfolding write_to_buffer
write_to_buffer-IsWritten size line b v fits =
    let same = v.size_eq in
    elim (Bool-cases (ltb b.size (b.offset + length line))) [
      | inl long ↦
          let (v', start, kept) = flush_buffer-IsBuffer size b v in
          rw long (
            Returns-mono (appended-IsWritten size line (flush_buffer b) v' (omega arith))
              λ b' (w, off, inside, before). record {
                buffer = w;
                from = (flush_buffer b).offset;
                from_eq = inr start;
                offset_eq = off;
                line_at = inside;
                before_at = λ i lt. absurd (omega (arith, lt, start));
              })
      | inr short ↦ rw short (
          Returns-mono (appended-IsWritten size line b v (ground arith))
            λ b' (w, off, inside, before). record {
              buffer = w;
              from = b.offset;
              from_eq = inl refl;
              offset_eq = off;
              line_at = inside;
              before_at = before;
            })
    ]
