-- ===== src/Book/Cancel.antt =====
-- `cancel_order`: the order under an id leaves the book, and its level too if no order is left there.
use hft_backtester.Prelude.{
  ℕ, ◌<◌, ◌≡◌, ◌≢◌, inl, inr, refl, sym, ap, subst, ◌∙◌, [], Bool, true, false, ◌==◌, ℕ_discrete,
  if◌then◌else◌, none, some, Bool-cases, arith, Returns, returns, Returns-mono,
}
use hft_backtester.Heap.{Ptr, null, put_self}
use hft_backtester.Limit
use hft_backtester.Limit.Chain.{has, without, without-absent, head-null_iff}
use hft_backtester.OrderPool.Carve
use hft_backtester.PageMap
use hft_backtester.PageMap.{PageMap}
use hft_backtester.PageMap.View.{view}
use hft_backtester.PageMap.Steps.{Keeps}
use hft_backtester.PageMap.Laws.{find-view}
use hft_backtester.Book.{Book, System, half, cancel_order, drop_limit, unlink_order}
use hft_backtester.Book.Invariant.{IsSystem, Ghost, IsCore, IsBook, IsBest}
use hft_backtester.Book.Place.{here}
use hft_backtester.Book.Entry.{entry, entry-null}
use hft_backtester.Book.Lookup.{looked_up, entry-looked_up, IsBook-looked_up}
use hft_backtester.Book.Drop.{drop_limit-IsDropped}
use hft_backtester.Book.Unlink

-- What `cancel_order` promises: the book is well formed, the order under the id is taken out of its
-- queue, and a client sees nothing under the id and the other orders as they were.
pub record IsCancelled (sys : System) (b : Book) (g : Ghost) (id : ℕ) (b' : Book) : Type 0 where
  pub ghost : Ghost
  pub book : IsBook sys b' ghost
  pub queue_eq :
      (u : Bool) (j : ℕ)
      → j < b.range
      → ghost.queue u j ≡ without (view b.order_lookup id) (g.queue u j)
  pub entry_eq : (k : ℕ) → entry b' k ≡ (if id == k then none else entry b k)
  pub min_eq : b'.min ≡ b.min
  pub max_eq : b'.max ≡ b.max
  pub gone : view b'.order_lookup id ≡ null

-- Null is in no queue.
pub null-absent :
    (sys : System) (ok : IsSystem sys) (b : Book) (g : Ghost)
    → IsCore sys b g
    → (u : Bool) (j : ℕ) → j < b.range
    → has null (g.queue u j) ≡ false
null-absent sys ok b g core u j hj = elim (Bool-cases (has null (g.queue u j))) [
  | inl m ↦ absurd (
      Carve.Issued-nonnull sys.page_at b.order_pool null ok.pages (core.order u j null hj m).issued
        refl)
  | inr m ↦ m
]

module _ (sys : System) (ok : IsSystem sys) (b : Book) (g : Ghost) (book : IsBook sys b g)
    (s : Bool) (i : ℕ) (hi : i < b.range) (t : Ptr) (mine : has t (g.queue s i) ≡ true) (id : ℕ)
    (named : (b.orders t).id ≡ id) (at_id : view b.order_lookup id ≡ t) where
  abbrev rest : Book
  rest = Unlink.unlinked sys ok b g book.core s i hi t mine id named

  abbrev ghost' : Ghost
  ghost' = Unlink.requeue sys ok b g book.core s i hi t mine id named

  abbrev l : Ptr
  l = (b.orders t).parent

  half-rest : (u : Bool) → half u rest ≡ half u b
  unfolding half
  half-rest true = refl
  half-rest false = refl

  core' : IsCore sys rest ghost'
  core' = Unlink.unlink_order-IsCore sys ok b g book.core s i hi t mine id named

  slot-l : (half s b).slot i ≡ l
  slot-l = sym (book.core.order s i t hi mine).parent

  full-off :
      (u : Bool) (j : ℕ)
      → j < b.range
      → here s i u j ≡ false
      → (half u rest).slot j ≢ null
      → ghost'.queue u j ≢ []
  full-off u j hj off ne = rw off (book.full u j hj (rw (half-rest u) at ne))

  gone-rest : view rest.order_lookup id ≡ null
  gone-rest = Unlink.table-id sys ok b g book.core s i hi t mine id named

  queue-rest :
      (u : Bool) (j : ℕ)
      → j < b.range
      → ghost'.queue u j ≡ without (view b.order_lookup id) (g.queue u j)
  queue-rest u j hj =
      Unlink.queue-unlinked sys ok b g book.core s i hi t mine id named u j hj
      ∙ ap (λ p. without p (g.queue u j)) (sym at_id)

  entry-rest : (k : ℕ) → entry rest k ≡ (if id == k then none else entry b k)
  entry-rest = Unlink.entry-unlinked sys ok b g book.core s i hi t mine id named

  IsBest-rest : (u : Bool) → IsBest (half u rest) b.range
  IsBest-rest u = rw (half-rest u) (book.best u)

  kept : without t (g.queue s i) ≢ [] → IsCancelled sys b g id rest
  kept more = record {
    ghost = ghost';
    book = record {
      core = core';
      full = λ u j hj ne. elim (Bool-cases (here s i u j)) [
        | inl on ↦ rw on more
        | inr off ↦ full-off u j hj off ne
      ];
      best = IsBest-rest;
    };
    queue_eq = queue-rest;
    entry_eq = entry-rest;
    min_eq = refl;
    max_eq = refl;
    gone = gone-rest;
  }

  dropped :
      without t (g.queue s i) ≡ [] → Returns (IsCancelled sys b g id) (drop_limit sys s l rest)
  dropped none' =
      Returns-mono
        (drop_limit-IsDropped sys rest ghost' core' s i hi l
          (Unlink.nonnull sys ok b g book.core s i hi t mine id named)
          (ap (λ h. h.slot i) (half-rest s) ∙ slot-l)
          (Unlink.queue-unlinked sys ok b g book.core s i hi t mine id named s i hi ∙ none')
          full-off IsBest-rest)
        λ b' d. record {
          ghost = d.ghost;
          book = d.book;
          queue_eq = λ u j hj. ap (λ q. q u j) d.queue_eq ∙ queue-rest u j hj;
          entry_eq = λ k. d.entry_eq k ∙ entry-rest k;
          min_eq = d.min_eq;
          max_eq = d.max_eq;
          gone = ap (λ m. view m id) d.lookup_eq ∙ gone-rest;
        }

  limit-rest : rest.limits l ≡ Unlink.limit' sys ok b g book.core s i hi t mine id named
  limit-rest = put_self b.limits l (Unlink.limit' sys ok b g book.core s i hi t mine id named)

  -- Cancelling the order at this place succeeds.
  pub found-IsCancelled : Returns (IsCancelled sys b g id) (
      let b1 : Book = unlink_order sys id t b in
      if Limit.is_empty (b1.limits l) then drop_limit sys s l b1 else some b1)
  unfolding Limit.is_empty
  found-IsCancelled =
      let (to, from) =
        head-null_iff _ _ _ (Unlink.level2 sys ok b g book.core s i hi t mine id named) in
      rw (Unlink.unlink_order-unlinked sys ok b g book.core s i hi t mine id named, limit-rest)
        (elim (Bool-cases
          ((Unlink.limit' sys ok b g book.core s i hi t mine id named).head == null)) [
            | inl e ↦ rw e (dropped (to (ground arith)))
            | inr e ↦ rw e (returns (kept (λ h. let z = from h in ground arith)))
          ])

module _ (sys : System) (ok : IsSystem sys) (b : Book) (g : Ghost) (book : IsBook sys b g)
    (s : Bool) (id : ℕ)
    (agree : view b.order_lookup id ≢ null → (b.orders (view b.order_lookup id)).side ≡ s) where
  abbrev t : Ptr
  t = (PageMap.find sys.fresh_page b.order_lookup id).0

  abbrev lookup : PageMap
  lookup = (PageMap.find sys.fresh_page b.order_lookup id).1

  t-view : t ≡ view b.order_lookup id
  t-view = (find-view sys.fresh_page ok.zeroed b.order_lookup id book.core.map).0

  keeps : Keeps b.order_lookup lookup
  keeps = (find-view sys.fresh_page ok.zeroed b.order_lookup id book.core.map).1

  abbrev b1 : Book
  b1 = looked_up sys b g lookup keeps.map keeps.same

  book1 : IsBook sys b1 g
  book1 = IsBook-looked_up sys b g lookup keeps.map keeps.same book

  entry1 : (k : ℕ) → entry b1 k ≡ entry b k
  entry1 = entry-looked_up sys b g lookup keeps.map keeps.same

  -- what was promised of the book with the table looked up
  from_looked_up : (b' : Book) → IsCancelled sys b1 g id b' → IsCancelled sys b g id b'
  from_looked_up b' c = record {
    ghost = c.ghost;
    book = c.book;
    queue_eq = λ u j hj. c.queue_eq u j hj ∙ ap (λ p. without p (g.queue u j)) (keeps.same id);
    entry_eq = λ k. c.entry_eq k ∙ ap (λ x. if id == k then none else x) (entry1 k);
    min_eq = c.min_eq;
    max_eq = c.max_eq;
    gone = c.gone;
  }

  unknown : view b.order_lookup id ≡ null → IsCancelled sys b g id b1
  unknown e = record {
    ghost = g;
    book = book1;
    queue_eq = λ u j hj.
        rw e (sym (without-absent null (g.queue u j) (null-absent sys ok b g book.core u j hj)));
    entry_eq = λ k. entry1 k ∙ elim (ℕ_discrete id k) [
      | yes same ↦
          let at : (id == k) ≡ true = ground arith in
          rw at (entry-null b k (ap (view b.order_lookup) (sym same) ∙ e))
      | no other ↦ let at : (id == k) ≡ false = ground arith in rw at refl
    ];
    min_eq = refl;
    max_eq = refl;
    gone = keeps.same id ∙ e;
  }

  known :
      view b.order_lookup id ≢ null
      → Returns (IsCancelled sys b1 g id) (
          let rest : Book = unlink_order sys id t b1 in
          if Limit.is_empty (rest.limits (b.orders t).parent)
          then drop_limit sys s (b.orders t).parent rest
          else some rest)
  known ne =
      let f = book.core.found id ne in
      let mine : has (view b.order_lookup id) (g.queue s f.place) ≡ true =
        subst (λ v. has (view b.order_lookup id) (g.queue v f.place) ≡ true) (agree ne) f.mem in
      found-IsCancelled sys ok b1 g book1 s f.place f.in_range t
        (subst (λ p. has p (g.queue s f.place) ≡ true) (sym t-view) mine) id
        (ap (λ p. (b.orders p).id) t-view ∙ f.id_eq) (keeps.same id ∙ sym t-view)

  -- Cancelling with the side of the order, if there is one under the id, succeeds and does what is
  -- promised; with no order under the id nothing changes but pages of the table.
  pub cancel_order-IsCancelled : Returns (IsCancelled sys b g id) (cancel_order sys s id b)
  unfolding cancel_order
  cancel_order-IsCancelled = elim (Bool-cases (t == null)) [
    | inl e ↦ rw e (returns (unknown (sym t-view ∙ ground arith)))
    | inr e ↦ rw e (Returns-mono (known (λ z. let n = t-view ∙ z in ground arith)) from_looked_up)
  ]
