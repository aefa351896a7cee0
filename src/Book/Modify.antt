-- ===== src/Book/Modify.antt =====
-- `modify_order`: an unknown order is added; one whose price changes or whose size grows is cancelled
-- and added anew, at the end of its queue; any other keeps its place.
use hft_backtester.Prelude.{
  ℕ, ◌+◌, ◌%◌, ◌<◌, ◌≤◌, ◌^◌, ◌≡◌, ◌≢◌, inl, inr, refl, sym, ap, subst, ◌∙◌, List, [], ◌∷◌, ◌++◌,
  Bool, true, false, not, ◌&&◌, ◌||◌, ◌==◌, if◌then◌else◌, ltb, leb, none, some, Bool-cases, arith,
  Returns, returns, Returns-bind, Returns-mono, ◌>>=◌, add32, sub32, fun_ext,
}
use hft_backtester.Heap.{Ptr, null, Limit, Limits, put}
use hft_backtester.Limit.Chain.{has, without, without-absent, total}
use hft_backtester.PageMap
use hft_backtester.PageMap.{PageMap}
use hft_backtester.PageMap.View.{view}
use hft_backtester.PageMap.Steps.{Keeps}
use hft_backtester.PageMap.Laws.{find-view}
use hft_backtester.Book.{Book, System, index, add_order, cancel_order, modify_order}
use hft_backtester.Book.Invariant.{IsSystem, Ghost, IsBook}
use hft_backtester.Book.Place.{here, here_iff}
use hft_backtester.Book.Entry.{entry}
use hft_backtester.Book.Lookup.{looked_up, entry-looked_up, IsBook-looked_up}
use hft_backtester.Book.Add.{add_order-IsAdded, index-same}
use hft_backtester.Book.Cancel.{null-absent, cancel_order-IsCancelled}
use hft_backtester.Book.Resize

-- The order under the id is known, has this price, and is not smaller than this size.
abbrev pub keeps_place : Book → (id price sz : ℕ) → Bool
keeps_place b id price sz =
    let t : Ptr = view b.order_lookup id in
    not (t == null) && ((b.orders t).price == price && leb sz (b.orders t).size)

-- What `modify_order` promises: the book is well formed; the queues are those of before if the order
-- keeps its place, and otherwise the order is taken out and stands at the end of the queue of its
-- price; a client sees the order as the message has it, and the others as they were.
pub record IsModified (sys : System) (b : Book) (g : Ghost) (s : Bool) (id price sz ts : ℕ)
    (b' : Book) : Type 0 where
  pub ghost : Ghost
  pub book : IsBook sys b' ghost
  pub queue_eq :
      (u : Bool) (j : ℕ)
      → j < b.range
      → ghost.queue u j ≡ (
          if keeps_place b id price sz
          then g.queue u j
          else if here s (index s b price) u j
          then without (view b.order_lookup id) (g.queue u j) ++ view b'.order_lookup id ∷ []
          else without (view b.order_lookup id) (g.queue u j))
  pub entry_eq :
      (k : ℕ)
      → entry b' k ≡ (
          if id == k
          then some (record { side = s; price = price; size = sz; time = ts })
          else entry b k)
  pub min_eq : b'.min ≡ b.min
  pub max_eq : b'.max ≡ b.max

-- An order is appended to the queue of one place.
queue-here :
    (g : Ghost) (s : Bool) (i : ℕ) (u : Bool) (j : ℕ) (xs : List Ptr)
    → (if here s i u j then g.queue s i ++ xs else g.queue u j)
      ≡ (if here s i u j then g.queue u j ++ xs else g.queue u j)
queue-here g s i u j xs = elim (Bool-cases (here s i u j)) [
  | inl on ↦
      let (su, ij) = here_iff s i u j on in
      rw on (
        subst (λ v. g.queue s i ++ xs ≡ g.queue v j ++ xs) su
          (subst (λ k. g.queue s i ++ xs ≡ g.queue s k ++ xs) ij refl))
  | inr off ↦ rw off refl
]

put_same : (ls : Limits) (l : Ptr) → put ls l (ls l) ≡ ls
unfolding put
put_same ls l = fun_ext λ q. elim (Bool-cases (l == q)) [
  | inl e ↦ let at : l ≡ q = ground arith in rw e (ap ls at)
  | inr e ↦ rw e refl
]

module _ (sys : System) (ok : IsSystem sys) (b : Book) (g : Ghost) (book : IsBook sys b g)
    (s : Bool) (id price sz ts : ℕ) (lo : b.min ≤ price) (hi : price ≤ b.max) (small : sz < 2 ^ 32)
    (agree : view b.order_lookup id ≢ null → (b.orders (view b.order_lookup id)).side ≡ s) where
  abbrev t : Ptr
  t = (PageMap.find sys.fresh_page b.order_lookup id).0

  abbrev lookup : PageMap
  lookup = (PageMap.find sys.fresh_page b.order_lookup id).1

  t-view : t ≡ view b.order_lookup id
  t-view = (find-view sys.fresh_page ok.zeroed b.order_lookup id book.core.map).0

  keeps : Keeps b.order_lookup lookup
  keeps = (find-view sys.fresh_page ok.zeroed b.order_lookup id book.core.map).1

  abbrev b1 : Book
  b1 = looked_up sys b g lookup keeps.map keeps.same

  book1 : IsBook sys b1 g
  book1 = IsBook-looked_up sys b g lookup keeps.map keeps.same book

  entry1 : (k : ℕ) → entry b1 k ≡ entry b k
  entry1 = entry-looked_up sys b g lookup keeps.map keeps.same

  index1 : (c : Book) → c.min ≡ b.min → c.max ≡ b.max → index s c price ≡ index s b price
  index1 c e f = index-same s b c price f e

  abbrev Promise : Book → Type 0
  Promise = IsModified sys b g s id price sz ts

  -- an unknown order
  added : view b.order_lookup id ≡ null → Returns Promise (add_order sys s id price sz ts b1)
  added e =
      Returns-mono
        (add_order-IsAdded sys ok b1 g book1 s id price sz ts lo hi small (keeps.same id ∙ e))
        λ b' a. record {
          ghost = a.ghost;
          book = a.book;
          queue_eq = λ u j hj.
              let old =
                without-absent null (g.queue u j) (null-absent sys ok b g book.core u j hj) in
              rw (e, old)
                (a.queue_eq u j
                  ∙ rw (index1 b1 refl refl)
                      (queue-here g s (index s b price) u j (view b'.order_lookup id ∷ [])));
          entry_eq = λ k.
              a.entry_eq k
              ∙ ap
                  (λ x.
                    if id == k
                    then some (record { side = s; price = price; size = sz; time = ts })
                    else x)
                  (entry1 k);
          min_eq = a.min_eq;
          max_eq = a.max_eq;
        }

  entry-twice :
      (b2 b' : Book)
      → ((k : ℕ) → entry b2 k ≡ (if id == k then none else entry b1 k))
      → ((k : ℕ)
          → entry b' k ≡ (
              if id == k
              then some (record { side = s; price = price; size = sz; time = ts })
              else entry b2 k))
      → (k : ℕ)
      → entry b' k ≡ (
          if id == k
          then some (record { side = s; price = price; size = sz; time = ts })
          else entry b k)
  entry-twice b2 b' c a k = elim (Bool-cases (id == k)) [
    | inl e ↦ a k ∙ rw e refl
    | inr e ↦ a k ∙ rw e (c k ∙ rw e (entry1 k))
  ]

  -- an order that loses its place
  readded :
      keeps_place b id price sz ≡ false
      → Returns Promise (cancel_order sys s id b1 >>= add_order sys s id price sz ts)
  readded moves =
      Returns-bind
        (cancel_order-IsCancelled sys ok b1 g book1 s id
          (λ ne. rw (keeps.same id) (agree (rw (keeps.same id) at ne))))
        λ b2 c.
          Returns-mono
            (add_order-IsAdded sys ok b2 c.ghost c.book s id price sz ts (rw c.min_eq lo)
              (rw c.max_eq hi) small c.gone)
            λ b' a. record {
              ghost = a.ghost;
              book = a.book;
              queue_eq = λ u j hj. rw moves (
                  a.queue_eq u j
                  ∙ rw (index1 b2 c.min_eq c.max_eq) (
                      queue-here c.ghost s (index s b price) u j (view b'.order_lookup id ∷ [])
                      ∙ rw (c.queue_eq u j hj, keeps.same id) refl));
              entry_eq = entry-twice b2 b' c.entry_eq a.entry_eq;
              min_eq = a.min_eq ∙ c.min_eq;
              max_eq = a.max_eq ∙ c.max_eq;
            }

  -- an order that keeps its place
  module _ (ne : view b.order_lookup id ≢ null) (same_price : (b.orders t).price ≡ price) where
    abbrev place : ℕ
    place = (book.core.found id ne).place

    inside : place < b.range
    inside = (book.core.found id ne).in_range

    mine : has t (g.queue s place) ≡ true
    mine =
        subst (λ p. has p (g.queue s place) ≡ true) (sym t-view)
          (subst (λ v. has (view b.order_lookup id) (g.queue v place) ≡ true) (agree ne)
            (book.core.found id ne).mem)

    id-t : (b.orders t).id ≡ id
    id-t = ap (λ p. (b.orders p).id) t-view ∙ (book.core.found id ne).id_eq

    keeps-place : sz ≤ (b.orders t).size → keeps_place b id price sz ≡ true
    keeps-place le =
        let n : t ≢ null = λ z. ne (sym t-view ∙ z) in
        rw (← t-view) (ground (arith, n, same_price, le))

    abbrev rest : Limit → Book
    rest limit = record b1 {
      limits = put b.limits (b.orders t).parent limit;
      orders = put b.orders t (record (b.orders t) { size = sz; unix_time = ts });
    }

    module _ (le : sz ≤ (b.orders t).size) (limit : Limit)
        (head_eq : limit.head ≡ (b.limits (b.orders t).parent).head)
        (tail_eq : limit.tail ≡ (b.limits (b.orders t).parent).tail)
        (price_eq : limit.price ≡ (b.limits (b.orders t).parent).price)
        (side_eq : limit.side ≡ (b.limits (b.orders t).parent).side)
        (volume_eq : limit.volume
          ≡ total
              (Resize.orders' sys ok b1 g book1 s place inside t mine sz ts small)
              (g.queue s place)
            % 2 ^ 32) where
      rest-IsModified : Promise (rest limit)
      rest-IsModified = record {
        ghost =
            Resize.ghost' sys ok b1 g book1 s place inside t mine sz ts small limit head_eq tail_eq
              price_eq side_eq volume_eq;
        book =
            Resize.resized-IsBook sys ok b1 g book1 s place inside t mine sz ts small limit head_eq
              tail_eq price_eq side_eq volume_eq;
        queue_eq = λ u j hj. rw (keeps-place le) (
            Resize.queue-resized sys ok b1 g book1 s place inside t mine sz ts small limit head_eq
              tail_eq price_eq side_eq volume_eq u j);
        entry_eq = λ k.
            Resize.entry-resized sys ok b1 g book1 s place inside t mine sz ts small limit head_eq
              tail_eq price_eq side_eq volume_eq k
            ∙ rw (id-t, same_price, entry1 k) refl;
        min_eq = refl;
        max_eq = refl;
      }

    old-volume : (b.limits (b.orders t).parent).volume ≡ total b.orders (g.queue s place) % 2 ^ 32
    old-volume = (Resize.old_limit sys ok b1 g book1 s place inside t mine sz ts small).volume

    totals :
        total (Resize.orders' sys ok b1 g book1 s place inside t mine sz ts small) (g.queue s place)
          + (b.orders t).size
        ≡ total b.orders (g.queue s place) + sz
    totals = Resize.total-resize sys ok b1 g book1 s place inside t mine sz ts small

    size-lt : (b.orders t).size < 2 ^ 32
    size-lt = (book.core.order s place t inside mine).size

    -- a smaller size
    shrunk :
        sz < (b.orders t).size
        → Promise (
            rest (record (b.limits (b.orders t).parent) {
              volume = add32 (b.limits (b.orders t).parent).volume (sub32 sz (b.orders t).size);
            }))
    unfolding add32 sub32
    shrunk lt =
        rest-IsModified (omega (arith, lt))
          (record (b.limits (b.orders t).parent) {
            volume = add32 (b.limits (b.orders t).parent).volume (sub32 sz (b.orders t).size);
          })
          refl refl refl refl (omega (arith, old-volume, totals, size-lt))

    -- the same size
    stamped :
        sz ≡ (b.orders t).size
        → Promise (record b1 { orders = put b.orders t (record (b.orders t) { unix_time = ts }) })
    stamped eq =
        let old =
          rest-IsModified (omega (arith, eq)) (b.limits (b.orders t).parent) refl refl refl refl
            (omega (arith, old-volume, totals, eq)) in
        subst
          (λ ls. Promise (record b1 {
            limits = ls;
            orders = put b.orders t (record (b.orders t) { unix_time = ts });
          }))
          (put_same b.limits (b.orders t).parent)
          (subst
            (λ z. Promise (record b1 {
              limits = put b.limits (b.orders t).parent (b.limits (b.orders t).parent);
              orders = put b.orders t (record (b.orders t) { size = z; unix_time = ts });
            }))
            eq old)

  -- Modifying an order with its side and a price in the window succeeds, and does what is promised.
  pub modify_order-IsModified : Returns Promise (modify_order sys s id price sz ts b)
  unfolding modify_order
  modify_order-IsModified = elim (Bool-cases (t == null)) [
    | inl e ↦ rw e (added (sym t-view ∙ ground arith))
    | inr e ↦
        let ne : view b.order_lookup id ≢ null = λ z. (let n = t-view ∙ z in ground arith) in
        rw e (elim (Bool-cases (not ((b.orders t).price == price) || ltb (b.orders t).size sz)) [
          | inl moves ↦ rw moves (readded (rw (← t-view) (ground arith)))
          | inr stays ↦
              let same_price : (b.orders t).price ≡ price = ground arith in
              rw stays (elim (Bool-cases (ltb sz (b.orders t).size)) [
                | inl lt ↦ rw lt (returns (shrunk ne same_price (ground arith)))
                | inr ge ↦ rw ge (returns (stamped ne same_price (ground arith)))
              ])
        ])
  ]
