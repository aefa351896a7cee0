-- ===== src/Stats/Volume.antt =====
-- `calculate_vols` against sums of the volumes of the levels from the best ones on.
use hft_backtester.Prelude.{
  ℕ, zero, suc, ◌+◌, ◌-◌, ◌%◌, ◌^◌, ◌<◌, ◌≡◌, refl, ap, ap₂, ◌∙◌, Bool, true, false, ◌&&◌, ltb, min,
  max, add32, Bool-cases, inl, inr, arith,
}
use hft_backtester.Book.{Book, half}
use hft_backtester.Floats.{Floats}
use hft_backtester.Stats.{Stats, volume_of, sum_vols, calculate_vols}

-- The sum of the volumes of `count` indices from `i` on.
abbrev pub volumes : Bool → Book → (count i : ℕ) → ℕ
volumes s b zero i = 0
volumes s b (suc k) i = volume_of s b i + volumes s b k (i + 1)

-- How many indices the loop visits: it stops where either side ends.
abbrev pub visited : Book → (rounds i j : ℕ) → ℕ
visited b rounds i j = min rounds (b.range - max i j)

add32_shift : (v a r : ℕ) → (add32 v a + r) % 2 ^ 32 ≡ (v + (a + r)) % 2 ^ 32
unfolding add32
add32_shift v a r = omega arith

zero_sum : (n : ℕ) → (0 + n) % 2 ^ 32 ≡ n % 2 ^ 32
zero_sum n = ap (λ k. k % 2 ^ 32) (omega arith)

sum_vols-volumes :
    (b : Book) (rounds i j v w : ℕ)
    → v < 2 ^ 32
    → w < 2 ^ 32
    → sum_vols b rounds i j v w ≡ (
      (v + volumes true b (visited b rounds i j) i) % 2 ^ 32,
      (w + volumes false b (visited b rounds i j) j) % 2 ^ 32,
    )
unfolding sum_vols add32
sum_vols-volumes b zero i j v w hv hw =
    let n : visited b zero i j ≡ 0 = omega arith in
    let ev : (v + 0) % 2 ^ 32 ≡ v = omega arith in
    let ew : (w + 0) % 2 ^ 32 ≡ w = omega arith in rw (n, ev, ew) refl
sum_vols-volumes b (suc k) i j v w hv hw = elim (Bool-cases (ltb i b.range && ltb j b.range)) [
  | inl e ↦
      let n : visited b (suc k) i j ≡ suc (visited b k (i + 1) (j + 1)) = ground arith in
      rw (e, n)
        (sum_vols-volumes b k (i + 1) (j + 1) (add32 v (volume_of true b i))
            (add32 w (volume_of false b j)) (omega arith) (omega arith)
          ∙ ap₂ (λ x y. (x, y)) (add32_shift v (volume_of true b i) _)
              (add32_shift w (volume_of false b j) _))
  | inr e ↦
      let n : visited b (suc k) i j ≡ 0 = ground arith in
      let ev : (v + 0) % 2 ^ 32 ≡ v = omega arith in
      let ew : (w + 0) % 2 ^ 32 ≡ w = omega arith in rw (e, n, ev, ew) refl
]

-- Both volumes sum, modulo 2 ^ 32, the first `ct` levels from the best price on, or as many as the
-- side with the higher best index has left; nothing else changes.
pub calculate_vols-volumes :
    (F : Floats) (ct : ℕ) (b : Book) (st : Stats F)
    → let n = visited b ct (half true b).best (half false b).best in
      calculate_vols F ct b st ≡ record st {
        bid_vol = volumes true b n (half true b).best % 2 ^ 32;
        ask_vol = volumes false b n (half false b).best % 2 ^ 32;
      }
unfolding calculate_vols
calculate_vols-volumes F ct b st =
    ap (λ (p : ℕ × ℕ). record st { bid_vol = p.0; ask_vol = p.1 })
      (sum_vols-volumes b ct (half true b).best (half false b).best 0 0 (omega arith) (omega arith)
        ∙ ap₂ (λ x y. (x, y)) (zero_sum _) (zero_sum _))
