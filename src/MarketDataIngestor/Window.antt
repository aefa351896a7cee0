-- ===== src/MarketDataIngestor/Window.antt =====
-- The window of the constructor spans every price that counts.
use hft_backtester.Prelude.{
  ℕ, ◌-◌, ◌^◌, ◌≤◌, ◌≡◌, refl, ap, sym, ◌∙◌, Bool, true, false, not, ◌||◌, Bool-cases, inl, inr,
  List, [], ◌∷◌, if◌then◌else◌, ltb, ℤ, pos, negsuc, pos_part, ltb_ℤ, arith, ◌≤ℤ◌, subst,
  false≢true,
}
use hft_backtester.Message.{Message}
use hft_backtester.MarketDataIngestor.{is_kept, smaller, larger, window}

-- Every price that counts lies between the two.
abbrev pub Covers : ℕ → ℕ → List Message → Type 0
Covers lo hi [] = Unit
Covers lo hi (m ∷ ms) =
    (is_kept m ≡ true → (lo ≤ pos_part m.price) × (pos_part m.price ≤ hi)) × Covers lo hi ms

abbrev pub some_kept : List Message → Bool
some_kept [] = false
some_kept (m ∷ ms) = is_kept m || some_kept ms

-- A price that counts is no negative one.
kept_price :
    (p : ℤ)
    → not (ltb_ℤ p (pos 99) || ltb_ℤ (pos 1000000) p) ≡ true
    → (p ≡ pos (pos_part p)) × (pos_part p ≤ 1000000)
kept_price (pos n) h = ground arith
kept_price (negsuc n) h = ground arith

-- What a window from `a` to `b` becomes over the messages.
pub record Span (a b : ℤ) (ms : List Message) : Type 0 where
  pub low : ℕ
  pub high : ℕ
  pub window_eq : window a b ms ≡ (pos low, pos high)
  pub low_le : pos low ≤ℤ a
  pub high_ge : b ≤ℤ pos high
  pub ordered : low ≤ high
  pub high_le : high ≤ 1000000
  pub covers : Covers low high ms

-- A price that counts widens the window to itself.
Span-kept :
    (a b : ℤ) (m : Message) (ms : List Message)
    → is_kept m ≡ true
    → Span (smaller a m.price) (larger b m.price) ms
    → Span a b (m ∷ ms)
unfolding window smaller larger
Span-kept a b m ms kept s =
    let (e, small) = kept_price m.price kept in
    let low_le = s.low_le in
    let high_ge = s.high_ge in
    record {
      low = s.low;
      high = s.high;
      window_eq = rw kept s.window_eq;
      low_le = ground arith;
      high_ge = ground arith;
      ordered = s.ordered;
      high_le = s.high_le;
      covers = (λ h. (ground arith, ground arith), s.covers);
    }

Span-lost :
    (a b : ℤ) (m : Message) (ms : List Message)
    → is_kept m ≡ false
    → Span a b ms
    → Span a b (m ∷ ms)
unfolding window
Span-lost a b m ms lost s = record {
  low = s.low;
  high = s.high;
  window_eq = rw lost s.window_eq;
  low_le = s.low_le;
  high_ge = s.high_ge;
  ordered = s.ordered;
  high_le = s.high_le;
  covers = (λ h. absurd (false≢true (sym lost ∙ h)), s.covers);
}

smaller-pos : (a n : ℕ) → smaller (pos a) (pos n) ≡ pos (if ltb n a then n else a)
unfolding smaller
smaller-pos a n = ground arith

larger-pos : (a n : ℕ) → larger (pos a) (pos n) ≡ pos (if ltb a n then n else a)
unfolding larger
larger-pos a n = ground arith

larger-negsuc : (a n : ℕ) → larger (negsuc a) (pos n) ≡ pos n
unfolding larger
larger-negsuc a n = ground arith

window-Span : (lo hi : ℕ) (ms : List Message) → lo ≤ hi → hi ≤ 1000000 → Span (pos lo) (pos hi) ms
unfolding window
window-Span lo hi [] le small = record {
  low = lo;
  high = hi;
  window_eq = refl;
  low_le = omega arith;
  high_ge = omega arith;
  ordered = le;
  high_le = small;
  covers = tt;
}
window-Span lo hi (m ∷ ms) le small = elim (Bool-cases (is_kept m)) [
  | inl kept ↦
      let (e, price_le) = kept_price m.price kept in
      let n = pos_part m.price in
      let low_eq : pos (if ltb n lo then n else lo) ≡ smaller (pos lo) m.price =
        sym (ap (smaller (pos lo)) e ∙ smaller-pos lo n) in
      let high_eq : pos (if ltb hi n then n else hi) ≡ larger (pos hi) m.price =
        sym (ap (larger (pos hi)) e ∙ larger-pos hi n) in
      Span-kept (pos lo) (pos hi) m ms kept (
        subst (λ a. Span a (larger (pos hi) m.price) ms) low_eq
          (subst (λ b. Span (pos (if ltb n lo then n else lo)) b ms) high_eq
            (window-Span (if ltb n lo then n else lo) (if ltb hi n then n else hi) ms (ground arith)
              (ground arith))))
  | inr lost ↦ Span-lost (pos lo) (pos hi) m ms lost (window-Span lo hi ms le small)
]

-- The window of the constructor, when there is a price that counts.
pub initial-Span :
    (ms : List Message) → some_kept ms ≡ true → Span (pos (2 ^ 31 - 1)) (negsuc (2 ^ 31 - 1)) ms
initial-Span [] h = absurd (false≢true h)
initial-Span (m ∷ ms) h = elim (Bool-cases (is_kept m)) [
  | inl kept ↦
      let (e, price_le) = kept_price m.price kept in
      let n = pos_part m.price in
      let low_eq : pos n ≡ smaller (pos (2 ^ 31 - 1)) m.price =
        sym (ap (smaller (pos (2 ^ 31 - 1))) e ∙ smaller-pos (2 ^ 31 - 1) n ∙ ground arith) in
      let high_eq : pos n ≡ larger (negsuc (2 ^ 31 - 1)) m.price =
        sym (ap (larger (negsuc (2 ^ 31 - 1))) e ∙ larger-negsuc (2 ^ 31 - 1) n) in
      Span-kept (pos (2 ^ 31 - 1)) (negsuc (2 ^ 31 - 1)) m ms kept (
        subst (λ a. Span a (larger (negsuc (2 ^ 31 - 1)) m.price) ms) low_eq
          (subst (λ b. Span (pos n) b ms) high_eq (window-Span n n ms (omega arith) price_le)))
  | inr lost ↦
      Span-lost (pos (2 ^ 31 - 1)) (negsuc (2 ^ 31 - 1)) m ms lost (initial-Span ms (ground arith))
]

-- Without one the window stays as it starts.
pub window-unkept : (a b : ℤ) (ms : List Message) → some_kept ms ≡ false → window a b ms ≡ (a, b)
unfolding window
window-unkept a b [] h = refl
window-unkept a b (m ∷ ms) h =
    let lost : is_kept m ≡ false = ground arith in rw lost (window-unkept a b ms (ground arith))
