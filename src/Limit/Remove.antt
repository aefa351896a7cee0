-- ===== src/Limit/Remove.antt =====
-- `Limit::remove_order` takes the order out of the queue, wherever it stands, and its size off the
-- volume.
use hft_backtester.Prelude.{
  ◌+◌, ◌≡◌, ◌≢◌, ◌⊎◌, inl, inr, subst, ◌<◌, ◌^◌, refl, ◌∙◌, true, false, List, [], ◌∷◌, ◌==◌,
  ℕ_discrete, if◌then◌else◌, arith, sub32,
}
use hft_backtester.Heap.{Ptr, null, Limit, Orders}
use hft_backtester.Limit.{remove_order}
use hft_backtester.Limit.Chain.{
  has, Chain, total, IsLimit, without, Chain-frame, mem-nonnull, total-same,
}

-- `o'` is `o` with `t` bridged over.
pub record IsUnlinked (o o' : Orders) (t : Ptr) : Type 0 where
  pub prev_next : (o t).prev ≢ null → (o' (o t).prev).next ≡ (o t).next
  pub next_prev : (o t).next ≢ null → (o' (o t).next).prev ≡ (o t).prev
  pub keep_next : (q : Ptr) → q ≢ (o t).prev → (o' q).next ≡ (o q).next
  pub keep_prev : (q : Ptr) → q ≢ (o t).next → (o' q).prev ≡ (o q).prev
  pub keep_size : (q : Ptr) → (o' q).size ≡ (o q).size

pub remove_order-IsUnlinked :
    (o : Orders) (l : Limit) (t : Ptr) → (o t).prev ≢ t → IsUnlinked o (remove_order o l t).0 t
unfolding remove_order
remove_order-IsUnlinked o l t ne = record {
  prev_next = λ h. ground arith;
  next_prev = λ h. ground arith;
  keep_next = λ q h. ground arith;
  keep_prev = λ q h. ground arith;
  keep_size = λ q. ground arith;
}

-- Where the neighbours of an order of the queue stand.
next-mem :
    (o : Orders) (b p l t : Ptr) (xs : List Ptr)
    → Chain o b p xs l
    → has t xs ≡ true
    → ((o t).next ≡ null) ⊎ (has (o t).next xs ≡ true)
next-mem o b p l t [] c i = cc
next-mem o b p l t (x ∷ []) c i = ground arith
next-mem o b p l t (x ∷ y ∷ ys) c i =
    let (e, n, pr, out, rest) = c in ground (arith, next-mem o x (o x).next l t (y ∷ ys) rest)

prev-mem :
    (o : Orders) (b p l t : Ptr) (xs : List Ptr)
    → Chain o b p xs l
    → has t xs ≡ true
    → ((p ≡ t) × ((o t).prev ≡ b)) ⊎ ((p ≢ t) × (has (o t).prev xs ≡ true))
prev-mem o b p l t [] c i = cc
prev-mem o b p l t (x ∷ xs) c i =
    let (e, n, pr, out, rest) = c in ground (arith, prev-mem o x (o x).next l t xs rest)

-- An order is not its own predecessor.
prev-ne :
    (o : Orders) (b p l t : Ptr) (xs : List Ptr)
    → Chain o b p xs l
    → has b xs ≡ false
    → has t xs ≡ true
    → (o t).prev ≢ t
prev-ne o b p l t [] c out i = cc
prev-ne o b p l t (x ∷ xs) c out i =
    let (e, n, pr, fresh, rest) = c in ground (arith, prev-ne o x (o x).next l t xs rest fresh)

null-not-mem : (o : Orders) (b p l : Ptr) (xs : List Ptr) → Chain o b p xs l → has null xs ≡ false
null-not-mem o b p l [] c = refl
null-not-mem o b p l (x ∷ xs) c =
    let (e, n, pr, fresh, rest) = c in ground (arith, null-not-mem o x (o x).next l xs rest)

not-mem-without : (x t : Ptr) (xs : List Ptr) → has x xs ≡ false → has x (without t xs) ≡ false
not-mem-without x t [] h = refl
not-mem-without x t (y ∷ ys) h = ground (arith, not-mem-without x t ys)

total-without :
    (o : Orders) (t : Ptr) (xs : List Ptr)
    → has t xs ≡ true
    → total o (without t xs) + (o t).size ≡ total o xs
total-without o t [] i = cc
total-without o t (x ∷ xs) i = ground (arith, total-without o t xs)

module _ (o o' : Orders) (t : Ptr) (k : IsUnlinked o o' t) where
  -- the tail afterwards
  abbrev new_tail : Ptr → Ptr
  new_tail l = if (o t).next == null then (o t).prev else l

  -- `t` stands in front
  Chain-unlink_front :
      (b l : Ptr) (xs : List Ptr)
      → t ≢ null
      → (o t).prev ≡ b
      → has t xs ≡ false
      → has b xs ≡ false
      → Chain o t (o t).next xs l
      → Chain o' b (o t).next xs (new_tail l)
  Chain-unlink_front b l [] n pr out apart c = ground arith
  Chain-unlink_front b l (y ∷ ys) n pr out apart c =
      let (e, ny, py, fresh, rest) = c in
      let back : (o' y).prev ≡ b = ground (arith, k.next_prev) in
      let fwd : (o' y).next ≡ (o y).next = k.keep_next y (ground arith) in
      let last : new_tail l ≡ l = ground arith in
      let same =
        Chain-frame o o' y (o y).next l ys
          (λ q i. (k.keep_next q (ground arith), k.keep_prev q (ground arith), k.keep_size q)) in
      (e, ny, back, fresh, rw (fwd, last) (same rest))

  -- the link out of an order before `t`
  Chain-next :
      (x p l : Ptr) (xs : List Ptr)
      → x ≢ null
      → has x xs ≡ false
      → Chain o x p xs l
      → has t xs ≡ true
      → (o x).next ≡ p
      → (o' x).next ≡ (if p == t then (o t).next else p)
  Chain-next x p l xs nx fresh c i e = elim (prev-mem o x p l t xs c i) [
    | inl (at, pr) ↦
        let here : (p == t) ≡ true = ground arith in
        rw here (subst (λ q. (o' q).next ≡ (o t).next) pr (k.prev_next (ground arith)))
    | inr (off, mem) ↦
        let other : (p == t) ≡ false = ground arith in
        let far : x ≢ (o t).prev = ground arith in rw other (k.keep_next x far ∙ e)
  ]

  Chain-unlink :
      (b p l : Ptr) (xs : List Ptr)
      → has t xs ≡ true
      → has b xs ≡ false
      → Chain o b p xs l
      → Chain o' b (if p == t then (o t).next else p) (without t xs) (new_tail l)
  Chain-unlink b p l [] i apart c = cc
  Chain-unlink b p l (x ∷ xs) i apart c = elim (ℕ_discrete t x) [
    | yes here ↦
        let (e, nx, px, fresh, rest) = c in
        let at_p : (p == t) ≡ true = ground arith in
        let at_x : (t == x) ≡ true = ground arith in
        let tn : t ≢ null = ground arith in
        let pr : (o t).prev ≡ b = ground arith in
        let link : Chain o t (o t).next xs l = rw here rest in
        rw (at_p, at_x) (Chain-unlink_front b l xs tn pr (ground arith) (ground arith) link)
    | no other ↦
        let (e, nx, px, fresh, rest) = c in
        let at_p : (p == t) ≡ false = ground arith in
        let at_x : (t == x) ≡ false = ground arith in
        let later : has t xs ≡ true = ground arith in
        let before = prev-mem o x (o x).next l t xs rest later in
        let after = next-mem o x (o x).next l t xs rest later in
        let far : x ≢ (o t).next = ground arith in
        let ih = Chain-unlink x (o x).next l xs later fresh rest in
        rw (at_p, at_x)
          (
            e,
            nx,
            k.keep_prev x far ∙ px,
            not-mem-without x t xs fresh,
            rw (Chain-next x (o x).next l xs nx fresh rest later refl) ih,
          )
  ]

module _ (o : Orders) (l : Limit) (t : Ptr) (xs : List Ptr) (i : has t xs ≡ true) where
  remove_order-ends :
      Chain o null l.head xs l.tail
      → let l' = (remove_order o l t).1 in
        (l'.head ≡ (if l.head == t then (o t).next else l.head))
        × (l'.tail ≡ (if (o t).next == null then (o t).prev else l.tail))
  unfolding remove_order
  remove_order-ends c =
      let before = prev-mem o null l.head l.tail t xs c i in
      let some_prev = mem-nonnull o null l.head l.tail (o t).prev xs c in
      let apart = prev-ne o null l.head l.tail t xs c (null-not-mem o null l.head l.tail xs c) i in
      (ground (arith, before, some_prev), ground (arith, apart))

  remove_order-volume : (remove_order o l t).1.volume ≡ sub32 l.volume (o t).size
  unfolding remove_order
  remove_order-volume = ground arith

  -- Removing an order of the level's queue, wherever it stands, leaves the links standing for the
  -- queue without it, in the same order, and the volume the sum of the remaining sizes modulo
  -- 2 ^ 32, if its own size is a uint32_t.
  pub remove_order-IsLimit :
      (o t).size < 2 ^ 32
      → IsLimit o l xs
      → let (o', l') = remove_order o l t in IsLimit o' l' (without t xs)
  unfolding sub32
  remove_order-IsLimit small v =
      let none_null = null-not-mem o null l.head l.tail xs v.chain in
      let apart = prev-ne o null l.head l.tail t xs v.chain none_null i in
      let k = remove_order-IsUnlinked o l t apart in
      let (front, back) = remove_order-ends v.chain in
      record {
        chain = rw (front, back) (Chain-unlink o _ t k null l.head l.tail xs i none_null v.chain);
        volume = omega (
          arith,
          v.volume,
          remove_order-volume,
          total-without o t xs i,
          total-same o (remove_order o l t).0 k.keep_size (without t xs),
        );
      }

-- `remove_order` writes links and the volume alone.
module _ (o : Orders) (l : Limit) (t : Ptr) where
  pub remove_order-keeps :
      ((remove_order o l t).1.price ≡ l.price) × ((remove_order o l t).1.side ≡ l.side)
  unfolding remove_order
  remove_order-keeps = (refl, refl)

  pub remove_order-order :
      (q : Ptr)
      → let o' = (remove_order o l t).0 in
        ((o' q).id ≡ (o q).id)
        × ((o' q).price ≡ (o q).price)
        × ((o' q).side ≡ (o q).side)
        × ((o' q).parent ≡ (o q).parent)
        × ((o' q).size ≡ (o q).size)
        × ((o' q).unix_time ≡ (o q).unix_time)
  unfolding remove_order
  remove_order-order q =
      (ground arith, ground arith, ground arith, ground arith, ground arith, ground arith)

-- The neighbours of an order of a level, and the links after its removal.
module _ (o : Orders) (l : Limit) (t : Ptr) (xs : List Ptr) (v : IsLimit o l xs)
    (i : has t xs ≡ true) where
  pub prev-cases : ((o t).prev ≡ null) ⊎ (has (o t).prev xs ≡ true)
  prev-cases = elim (prev-mem o null l.head l.tail t xs v.chain i) [
    | inl (_, e) ↦ inl e
    | inr (_, m) ↦ inr m
  ]

  pub next-cases : ((o t).next ≡ null) ⊎ (has (o t).next xs ≡ true)
  next-cases = next-mem o null l.head l.tail t xs v.chain i

  pub remove_order-links : IsUnlinked o (remove_order o l t).0 t
  remove_order-links =
      remove_order-IsUnlinked o l t
        (prev-ne o null l.head l.tail t xs v.chain (null-not-mem o null l.head l.tail xs v.chain) i)
