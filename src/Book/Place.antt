-- ===== src/Book/Place.antt =====
-- A level's place in a book: its side and its index.
use hft_backtester.Prelude.{
  ℕ, ◌<◌, ◌≡◌, ◌≢◌, refl, sym, subst, ◌∙◌, Bool, true, false, ◌==◌, false≢true, arith,
}
use hft_backtester.Heap.{null}
use hft_backtester.Book.{Book, System, half}
use hft_backtester.Book.Invariant.{Ghost, IsCore}
use hft_backtester.Book.Window.{slot-injective}

-- the same place
abbrev pub here : Bool → ℕ → Bool → ℕ → Bool
here true i true j = i == j
here false i false j = i == j
here true i false j = false
here false i true j = false

pub here_iff : (s : Bool) (i : ℕ) (u : Bool) (j : ℕ) → here s i u j ≡ true → (s ≡ u) × (i ≡ j)
here_iff true i true j h = (refl, ground arith)
here_iff false i false j h = (refl, ground arith)
here_iff true i false j h = cc
here_iff false i true j h = cc

pub here_self : (s : Bool) (i : ℕ) → here s i s i ≡ true
here_self true i = ground arith
here_self false i = ground arith

pub here_ne : (s : Bool) (i j : ℕ) → i ≢ j → here s i s j ≡ false
here_ne true i j ne = ground arith
here_ne false i j ne = ground arith

pub here_ne_side : (s u : Bool) (i j : ℕ) → s ≢ u → here s i u j ≡ false
here_ne_side true true i j ne = absurd (ne refl)
here_ne_side true false i j ne = refl
here_ne_side false true i j ne = refl
here_ne_side false false i j ne = absurd (ne refl)

-- Another place has another limit.
pub slots-apart :
    (sys : System) (b : Book) (g : Ghost) (s : Bool) (i : ℕ) (u : Bool) (j : ℕ)
    → IsCore sys b g
    → i < b.range
    → j < b.range
    → here s i u j ≡ false
    → (half s b).slot i ≢ null
    → (half s b).slot i ≢ (half u b).slot j
slots-apart sys b g s i u j core hi hj off nn e =
    let (su, ij) =
      slot-injective sys b g s u i j core.window hi hj (core.level s i hi) (core.level u j hj) nn
        e in
    false≢true (
      sym off
      ∙ subst (λ v. here s i v j ≡ true) su (subst (λ k. here s i s k ≡ true) ij (here_self s i)))
