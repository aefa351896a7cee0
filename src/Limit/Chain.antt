-- ===== src/Limit/Chain.antt =====
-- What the links of a price level stand for: a list of orders, oldest first.
use hft_backtester.Prelude.{
  ℕ, ◌+◌, ◌≡◌, ◌≢◌, ◌↔◌, ◌⊎◌, inl, inr, drop, refl, sym, ap, ◌∙◌, Bool, Bool-cases, true, false,
  ◌||◌, List, [], ◌∷◌, ◌++◌, ◌==◌, if◌then◌else◌, arith, ◌%◌, ◌^◌,
}
use hft_backtester.Heap.{Ptr, null, Limit, Orders}

abbrev pub has : Ptr → List Ptr → Bool
has a [] = false
has a (p ∷ xs) = (a == p) || has a xs

-- From `p`, entered from `b`, the links lead through the distinct orders `xs`, and `l` is the last.
abbrev pub Chain : Orders → (b p : Ptr) → List Ptr → (l : Ptr) → Type 0
Chain o b p [] l = (p ≡ null) × (l ≡ b)
Chain o b p (x ∷ xs) l =
    (p ≡ x) × (x ≢ null) × ((o x).prev ≡ b) × (has x xs ≡ false) × Chain o x (o x).next xs l

-- The sum of the sizes.
abbrev pub total : Orders → List Ptr → ℕ
total o [] = 0
total o (x ∷ xs) = (o x).size + total o xs

-- The level stands for the queue `xs`, and `volume` is the sum of its sizes modulo 2 ^ 32.
pub record IsLimit (o : Orders) (l : Limit) (xs : List Ptr) : Type 0 where
  pub chain : Chain o null l.head xs l.tail
  pub volume : l.volume ≡ total o xs % 2 ^ 32

-- The queue less an order.
abbrev pub without : Ptr → List Ptr → List Ptr
without t [] = []
without t (x ∷ xs) = if t == x then xs else x ∷ without t xs

module _ (o o' : Orders) where
  -- `o'` and `o` agree in the links and sizes of the orders of `xs`
  abbrev pub SameOn : List Ptr → Type 0
  SameOn xs =
      (a : Ptr)
      → has a xs ≡ true
      → ((o' a).next ≡ (o a).next) × ((o' a).prev ≡ (o a).prev) × ((o' a).size ≡ (o a).size)

  pub Chain-frame : (b p l : Ptr) (xs : List Ptr) → SameOn xs → Chain o b p xs l → Chain o' b p xs l
  Chain-frame b p l [] same c = c
  Chain-frame b p l (x ∷ xs) same c =
      let (e, n, pr, out, rest) = c in
      let (sn, sp, _) = same x (ground arith) in
      (
        e,
        n,
        ground arith,
        out,
        rw sn (Chain-frame x (o x).next l xs (λ a i. same a (ground arith)) rest),
      )

  pub total-frame : (xs : List Ptr) → SameOn xs → total o' xs ≡ total o xs
  total-frame [] same = refl
  total-frame (x ∷ xs) same = ground (arith, same x, total-frame xs (λ a i. same a (ground arith)))

pub has-snoc : (a n : Ptr) (xs : List Ptr) → has a (xs ++ n ∷ []) ≡ (has a xs || (a == n))
has-snoc a n [] = ground arith
has-snoc a n (x ∷ xs) = ground (arith, has-snoc a n xs)

pub total-snoc :
    (o : Orders) (n : Ptr) (xs : List Ptr) → total o (xs ++ n ∷ []) ≡ total o xs + (o n).size
total-snoc o n [] = omega arith
total-snoc o n (x ∷ xs) = omega (arith, total-snoc o n xs)

-- The last order of a queue is in it.
pub last-mem :
    (o : Orders) (b p l x : Ptr) (xs : List Ptr) → Chain o b p (x ∷ xs) l → has l (x ∷ xs) ≡ true
last-mem o b p l x [] c = ground arith
last-mem o b p l x (y ∷ ys) c = let h = last-mem o x (o x).next l y ys c.4 in ground arith

-- No order of a queue is null.
pub mem-nonnull :
    (o : Orders) (b p l q : Ptr) (xs : List Ptr) → Chain o b p xs l → has q xs ≡ true → q ≢ null
mem-nonnull o b p l q [] c i = cc
mem-nonnull o b p l q (x ∷ xs) c i =
    let (e, n, pr, out, rest) = c in ground (arith, mem-nonnull o x (o x).next l q xs rest)

pub total-same :
    (o o' : Orders)
    → ((q : Ptr) → (o' q).size ≡ (o q).size)
    → (xs : List Ptr) → total o' xs ≡ total o xs
total-same o o' same [] = refl
total-same o o' same (x ∷ xs) = omega (arith, same x, total-same o o' same xs)

-- The tail of a level is null or one of its orders.
pub tail-cases :
    (o : Orders) (l : Limit) (xs : List Ptr)
    → IsLimit o l xs
    → (l.tail ≡ null) ⊎ (has l.tail xs ≡ true)
tail-cases o l [] v = inl (v.chain.1)
tail-cases o l (x ∷ xs) v = inr (last-mem o null l.head l.tail x xs v.chain)

pub mem-drop : (q : Ptr) (xs : List Ptr) → has q (drop 1 xs) ≡ true → has q xs ≡ true
mem-drop q [] h = h
mem-drop q (x ∷ xs) h = ground arith

pub not-mem-drop : (q : Ptr) (xs : List Ptr) → has q xs ≡ false → has q (drop 1 xs) ≡ false
not-mem-drop q [] h = h
not-mem-drop q (x ∷ xs) h = ground arith

pub not-mem-without_self :
    (o : Orders) (b p l t : Ptr) (xs : List Ptr) → Chain o b p xs l → has t (without t xs) ≡ false
not-mem-without_self o b p l t [] c = refl
not-mem-without_self o b p l t (x ∷ xs) c =
    let (e, n, pr, out, rest) = c in ground (arith, not-mem-without_self o x (o x).next l t xs rest)

pub mem-of_without : (t q : Ptr) (xs : List Ptr) → has q (without t xs) ≡ true → has q xs ≡ true
mem-of_without t q [] m = m
mem-of_without t q (x ∷ xs) m = ground (arith, mem-of_without t q xs)

pub mem-without :
    (t q : Ptr) (xs : List Ptr) → q ≢ t → has q xs ≡ true → has q (without t xs) ≡ true
mem-without t q [] ne m = m
mem-without t q (x ∷ xs) ne m = ground (arith, mem-without t q xs ne)

-- A level is empty just where its queue is.
pub head-null_iff :
    (o : Orders) (l : Limit) (xs : List Ptr) → IsLimit o l xs → ((l.head ≡ null) ↔ (xs ≡ []))
head-null_iff o l [] v = (λ _. refl, λ _. v.chain.0)
head-null_iff o l (x ∷ xs) v =
    let (e, n, _, _, _) = v.chain in (λ h. absurd (n (sym e ∙ h)), λ h. cc)

pub without-absent : (t : Ptr) (xs : List Ptr) → has t xs ≡ false → without t xs ≡ xs
without-absent t [] h = refl
without-absent t (x ∷ xs) h = elim (Bool-cases (t == x)) [
  | inl e ↦ cc (h, e)
  | inr e ↦ rw e (ap (λ z. x ∷ z) (without-absent t xs (rw e at h)))
]

-- The chain sees the links only.
pub Chain-same :
    (o o' : Orders)
    → ((q : Ptr) → (o' q).next ≡ (o q).next)
    → ((q : Ptr) → (o' q).prev ≡ (o q).prev)
    → (b p l : Ptr) (xs : List Ptr) → Chain o b p xs l
    → Chain o' b p xs l
Chain-same o o' sn sp b p l [] c = c
Chain-same o o' sn sp b p l (x ∷ xs) c =
    let (e, n, pr, out, rest) = c in
    (e, n, sp x ∙ pr, out, rw (sn x) (Chain-same o o' sn sp x (o x).next l xs rest))

module _ (o o' : Orders) (t : Ptr) (same : (q : Ptr) → q ≢ t → (o' q).size ≡ (o q).size) where
  total-absent : (xs : List Ptr) → has t xs ≡ false → total o' xs ≡ total o xs
  total-absent [] h = refl
  total-absent (x ∷ xs) h =
      let ne : x ≢ t = ground arith in omega (arith, same x ne, total-absent xs (ground arith))

  -- One order of a queue changes its size.
  pub total-resized :
      (b p l : Ptr) (xs : List Ptr)
      → Chain o b p xs l
      → has t xs ≡ true
      → total o' xs + (o t).size ≡ total o xs + (o' t).size
  total-resized b p l [] c m = cc
  total-resized b p l (x ∷ xs) c m =
      let (e, n, pr, out, rest) = c in
      elim (Bool-cases (t == x)) [
        | inl here ↦
            let at : t ≡ x = ground arith in rw at (omega (arith, total-absent xs (rw at out)))
        | inr off ↦
            let ne : x ≢ t = ground arith in
            omega (arith, same x ne, total-resized x (o x).next l xs rest (rw off at m))
      ]
