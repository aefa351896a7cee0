-- ===== src/Limit/Add.antt =====
-- `Limit::add_order` puts the order at the end of the queue and adds its size to the volume.
use hft_backtester.Prelude.{◌≡◌, ◌≢◌, refl, ◌∙◌, false, List, [], ◌∷◌, ◌++◌, arith, add32}
use hft_backtester.Heap.{Ptr, null, Limit, Orders}
use hft_backtester.Limit.{add_order}
use hft_backtester.Limit.Chain.{
  has, Chain, IsLimit, has-snoc, total-snoc, last-mem, mem-nonnull, total-same,
}

-- `o'` is `o` with `new` linked behind `l`; `l` may be null.
pub record IsLinked (o o' : Orders) (l new : Ptr) : Type 0 where
  pub new_prev : (o' new).prev ≡ l
  pub new_next : (o' new).next ≡ null
  pub last_next : l ≢ null → (o' l).next ≡ new
  pub keep_next : (q : Ptr) → q ≢ new → q ≢ l → (o' q).next ≡ (o q).next
  pub keep_prev : (q : Ptr) → q ≢ new → (o' q).prev ≡ (o q).prev
  pub keep_size : (q : Ptr) → (o' q).size ≡ (o q).size

pub add_order-IsLinked :
    (o : Orders) (l : Limit) (new : Ptr)
    → new ≢ l.tail
    → IsLinked o (add_order o l new).0 l.tail new
unfolding add_order
add_order-IsLinked o l new ne = record {
  new_prev = ground arith;
  new_next = ground arith;
  last_next = λ h. ground arith;
  keep_next = λ q h k. ground arith;
  keep_prev = λ q h. ground arith;
  keep_size = λ q. ground arith;
}

module _ (o o' : Orders) (l new : Ptr) (k : IsLinked o o' l new) (nonnull : new ≢ null) where
  Chain-snoc :
      (b p x : Ptr) (xs : List Ptr)
      → has new (x ∷ xs) ≡ false
      → Chain o b p (x ∷ xs) l
      → Chain o' b p (x ∷ xs ++ new ∷ []) new
  Chain-snoc b p x [] out c =
      let (e, n, pr, _, (_, el)) = c in
      let here : x ≢ new = ground arith in
      (
        e,
        n,
        ground (arith, k.keep_prev x),
        ground arith,
        (
          ground (arith, k.last_next),
          nonnull,
          ground (arith, k.new_prev),
          refl,
          (k.new_next, refl),
        ),
      )
  Chain-snoc b p x (y ∷ ys) out c =
      let (e, n, pr, fresh, rest) = c in
      let last = last-mem o x (o x).next l y ys rest in
      let far : x ≢ l = ground arith in
      (
        e,
        n,
        ground (arith, k.keep_prev x),
        ground (arith, has-snoc x new (y ∷ ys)),
        rw (k.keep_next x (ground arith) far) (Chain-snoc x (o x).next y ys (ground arith) rest),
      )

module _ (o : Orders) (l : Limit) (new : Ptr) where
  -- the head and the tail afterwards
  add_order-ends :
      let l' = (add_order o l new).1 in
      (l.tail ≡ null → l'.head ≡ new) × (l.tail ≢ null → l'.head ≡ l.head) × (l'.tail ≡ new)
  unfolding add_order
  add_order-ends = (λ e. ground arith, λ h. ground arith, refl)

  pub add_order-size : (q : Ptr) → ((add_order o l new).0 q).size ≡ (o q).size
  unfolding add_order
  add_order-size q = ground arith

  add_order-volume : (add_order o l new).1.volume ≡ add32 l.volume (o new).size
  unfolding add_order
  add_order-volume = ground arith

  add_order-Chain :
      (xs : List Ptr)
      → new ≢ null
      → has new xs ≡ false
      → Chain o null l.head xs l.tail
      → let (o', l') = add_order o l new in Chain o' null l'.head (xs ++ new ∷ []) l'.tail
  add_order-Chain [] nonnull out c =
      let (_, e) = c in
      let k = add_order-IsLinked o l new (ground arith) in
      let (front, _, back) = add_order-ends in
      (front e, nonnull, k.new_prev ∙ e, refl, (k.new_next, back))
  add_order-Chain (x ∷ xs) nonnull out c =
      let last = last-mem o null l.head l.tail x xs c in
      let k = add_order-IsLinked o l new (ground arith) in
      let full = mem-nonnull o null l.head l.tail l.tail (x ∷ xs) c last in
      let (_, keep, back) = add_order-ends in
      rw (keep full, back) (Chain-snoc o _ l.tail new k nonnull null l.head x xs out c)

  -- Adding an order that is not in the level's queue appends it: the links stand for the queue
  -- with the order last, and the volume is again the sum of the sizes modulo 2 ^ 32.
  pub add_order-IsLimit :
      (xs : List Ptr)
      → new ≢ null
      → has new xs ≡ false
      → IsLimit o l xs
      → let (o', l') = add_order o l new in IsLimit o' l' (xs ++ new ∷ [])
  unfolding add32
  add_order-IsLimit xs nonnull out v = record {
    chain = add_order-Chain xs nonnull out v.chain;
    volume = omega (
      arith,
      v.volume,
      add_order-volume,
      add_order-size new,
      total-snoc (add_order o l new).0 new xs,
      total-same o (add_order o l new).0 add_order-size xs,
    );
  }

  -- `add_order` writes links and the volume alone.
  pub add_order-keeps :
      ((add_order o l new).1.price ≡ l.price) × ((add_order o l new).1.side ≡ l.side)
  unfolding add_order
  add_order-keeps = (refl, refl)

  pub add_order-order :
      (q : Ptr)
      → let o' = (add_order o l new).0 in
        ((o' q).id ≡ (o q).id)
        × ((o' q).price ≡ (o q).price)
        × ((o' q).side ≡ (o q).side)
        × ((o' q).parent ≡ (o q).parent)
        × ((o' q).size ≡ (o q).size)
        × ((o' q).unix_time ≡ (o q).unix_time)
  unfolding add_order
  add_order-order q =
      (ground arith, ground arith, ground arith, ground arith, ground arith, ground arith)
