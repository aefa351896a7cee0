-- ===== src/Book/Best.antt =====
-- The best index of a side: `std::min` of `add_order` and the loop of `adjust_bbo`.
use hft_backtester.Prelude.{
  ℕ, zero, suc, ◌+◌, ◌<◌, ◌≤◌, ◌≡◌, ◌≢◌, inl, inr, refl, sym, ap, Bool, true, false, ◌&&◌, ◌==◌,
  Bool-cases, ltb, min, ℕ_discrete, dec_lt, arith, ◌∙◌,
}
use hft_backtester.Heap.{Ptr, null}
use hft_backtester.Book.{Half, Book, System, half, set_half, set_best, skip}
use hft_backtester.Book.Entry.{entry}
use hft_backtester.Book.Invariant.{Ghost, IsCore, IsBest, price_at}

-- With enough rounds the loop stops at the first level from `best` on, or at the end.
pub skip-IsBest :
    (slot : ℕ → Ptr) (range rounds best : ℕ)
    → best ≤ range
    → range ≤ best + rounds
    → ((j : ℕ) → j < best → slot j ≡ null)
    → IsBest (record { slot = slot; best = skip slot range rounds best }) range
unfolding skip
skip-IsBest slot range zero best hb hr none = record {
  bound = hb;
  none_before = none;
  some_at = λ h. absurd (omega arith);
}
skip-IsBest slot range (suc k) best hb hr none =
    elim (Bool-cases (ltb best range && (slot best == null))) [
      | inl e ↦ rw e (
          skip-IsBest slot range k (best + 1) (ground arith) (omega arith) (λ j h.
            elim (ℕ_discrete j best) [
              | yes at ↦ rw at (ground arith)
              | no below ↦ none j (omega arith)
            ]))
      | inr e ↦ rw e (record { bound = hb; none_before = none; some_at = λ h. ground arith })
    ]

-- A level at index `i` that is not null: the least of the best index and `i` is the best.
pub min-IsBest :
    (h : Half) (slot : ℕ → Ptr) (range i : ℕ)
    → IsBest h range
    → i < range
    → slot i ≢ null
    → ((j : ℕ) → j ≢ i → slot j ≡ h.slot j)
    → IsBest (record { slot = slot; best = min h.best i }) range
min-IsBest h slot range i v hi nn same = record {
  bound = omega (arith, v.bound);
  none_before = λ j lt. same j (omega arith) ∙ v.none_before j (omega arith);
  some_at = λ lt. elim (dec_lt h.best i) [
    | yes below ↦
        let e : min h.best i ≡ h.best = omega arith in
        let ne : h.best ≢ i = omega arith in rw (e, same h.best ne) (v.some_at (omega arith))
    | no above ↦ let e : min h.best i ≡ i = omega arith in rw e nn
  ];
}

pub IsBest-ext :
    (h k : Half) (range : ℕ)
    → k.best ≡ h.best
    → ((j : ℕ) → k.slot j ≡ h.slot j)
    → IsBest h range
    → IsBest k range
IsBest-ext h k range e same v = record {
  bound = rw e v.bound;
  none_before = λ j lt. same j ∙ v.none_before j (rw e at lt);
  some_at = λ lt. rw (same k.best, e) (v.some_at (rw e at lt));
}

-- The best index of one side is set, the other side is left alone.
pub set_best-IsBest :
    (s : Bool) (b : Book) (n range : ℕ)
    → IsBest (record { slot = (half s b).slot; best = n }) range
    → ((u : Bool) → s ≢ u → IsBest (half u b) range)
    → (u : Bool) → IsBest (half u (set_best s b n)) range
unfolding set_best set_half half
set_best-IsBest true b n range v others true = v
set_best-IsBest true b n range v others false = others false (λ e. cc)
set_best-IsBest false b n range v others true = others true (λ e. cc)
set_best-IsBest false b n range v others false = v

pub set_best-slot :
    (s u : Bool) (b : Book) (n : ℕ) → (half u (set_best s b n)).slot ≡ (half u b).slot
unfolding set_best set_half half
set_best-slot true true b n = refl
set_best-slot true false b n = refl
set_best-slot false true b n = refl
set_best-slot false false b n = refl

set_best-price_at :
    (s u : Bool) (b : Book) (n j : ℕ) → price_at u (set_best s b n) j ≡ price_at u b j
unfolding set_best set_half
set_best-price_at s true b n j = refl
set_best-price_at s false b n j = refl

-- All but the best prices is as it was.
pub set_best-IsCore :
    (sys : System) (s : Bool) (b : Book) (g : Ghost) (n : ℕ)
    → IsCore sys b g
    → IsCore sys (set_best s b n) g
unfolding set_best set_half
set_best-IsCore sys s b g n c = record {
  window = record { ordered = c.window.ordered; small = c.window.small; range = c.window.range };
  level = λ u j hj.
      let p = c.level u j hj in
      let e : (half u (set_best s b n)).slot j ≡ (half u b).slot j =
        ap (λ f. f j) (set_best-slot s u b n) in
      record {
        empty = λ z. p.empty (sym e ∙ z);
        limit = λ z. rw e (p.limit (rw e at z));
        price = λ z. rw (e, set_best-price_at s u b n j) (p.price (rw e at z));
        side = λ z. rw e (p.side (rw e at z));
        made = λ z. rw e (p.made (rw e at z));
        unused = λ z. rw e (p.unused (rw e at z));
      };
  order = λ u j q hj m.
      let p = c.order u j q hj m in
      let e : (half u (set_best s b n)).slot j ≡ (half u b).slot j =
        ap (λ f. f j) (set_best-slot s u b n) in
      record {
        parent = p.parent ∙ sym e;
        price = p.price ∙ sym (set_best-price_at s u b n j);
        side = p.side;
        listed = p.listed;
        size = p.size;
        issued = p.issued;
        unused = p.unused;
      };
  found = λ k ne.
      let f = c.found k ne in
      record { place = f.place; in_range = f.in_range; mem = f.mem; id_eq = f.id_eq };
  map = c.map;
  pool = c.pool;
  nodes = c.nodes;
}

pub entry-set_best : (s : Bool) (b : Book) (n k : ℕ) → entry (set_best s b n) k ≡ entry b k
unfolding set_best set_half entry
entry-set_best s b n k = refl
