-- ===== src/Book/New.antt =====
-- The constructor of `Orderbook`.
use hft_backtester.Prelude.{
  ℕ, ◌+◌, ◌-◌, ◌≤◌, ◌<◌, ◌^◌, ◌≡◌, refl, [], Bool, true, false, none, some, leb, ltb, arith,
  Returns, returns,
}
use hft_backtester.Heap.{null}
use hft_backtester.OrderPool
use hft_backtester.LimitPool
use hft_backtester.PageMap
use hft_backtester.PageMap.View.{IsMap, view}
use hft_backtester.PageMap.Laws.{preallocate-view}
use hft_backtester.Book.{Book, System, half, new_book, get_best_price}
use hft_backtester.Book.Invariant.{IsSystem, Ghost, IsCore, IsBook, IsBest}
use hft_backtester.Book.Entry.{entry, entry-null}

-- What the constructor promises: a book of that window, well formed and with no order.
pub record IsNew (sys : System) (min_px max_px : ℕ) (b : Book) : Type 0 where
  pub ghost : Ghost
  pub book : IsBook sys b ghost
  pub queue_eq : (u : Bool) (j : ℕ) → ghost.queue u j ≡ []
  pub entry_eq : (k : ℕ) → entry b k ≡ none
  pub min_eq : b.min ≡ min_px
  pub max_eq : b.max ≡ max_px

abbrev pub no_orders : Ghost
no_orders = record { queue = λ u j. []; free = []; free_limits = [] }

-- What the constructor makes.
abbrev pub vacant : System → (min_px max_px : ℕ) → Book
vacant sys min_px max_px =
    let range : ℕ = max_px + 1 - min_px in
    record {
      min = min_px;
      max = max_px;
      range = range;
      bids = record { slot = λ _. null; best = range };
      asks = record { slot = λ _. null; best = range };
      order_lookup = PageMap.preallocate sys.fresh_page 1024;
      order_pool = OrderPool.empty_pool;
      limit_pool = LimitPool.empty_pool;
      orders = sys.orders;
      limits = sys.limits;
    }

-- Of any window that does not end before it starts, outside 32 bits too: a book of that many slots and
-- without quotes.
pub new_book-returns :
    (sys : System) (min_px max_px : ℕ)
    → min_px ≤ max_px + 1
    → (b : Book) × (new_book sys min_px max_px ≡ some b)
      × (b.range ≡ max_px + 1 - min_px)
      × ((s : Bool) → get_best_price s b ≡ 0)
unfolding new_book get_best_price half
new_book-returns sys min_px max_px h =
    let ordered : leb min_px (max_px + 1) ≡ true = ground arith in
    let past : ltb (max_px + 1 - min_px) (max_px + 1 - min_px) ≡ false = ground arith in
    (
      vacant sys min_px max_px,
      rw ordered refl,
      refl,
      elim [ true ↦ rw past refl | false ↦ rw past refl ],
    )

module _ (sys : System) (ok : IsSystem sys) (min_px max_px : ℕ) (ordered : min_px ≤ max_px + 1)
    (small : max_px + 1 < 2 ^ 31) where
  abbrev pub built : Book
  built = vacant sys min_px max_px

  table : IsMap built.order_lookup × ((id : ℕ) → view built.order_lookup id ≡ null)
  table = preallocate-view sys.fresh_page ok.zeroed 1024

  slot-null : (u : Bool) (j : ℕ) → (half u built).slot j ≡ null
  unfolding half
  slot-null true j = refl
  slot-null false j = refl

  IsBest-built : (u : Bool) → IsBest (half u built) built.range
  unfolding half
  IsBest-built true = record {
    bound = omega arith;
    none_before = λ i h. refl;
    some_at = λ h. absurd (omega arith);
  }
  IsBest-built false = record {
    bound = omega arith;
    none_before = λ i h. refl;
    some_at = λ h. absurd (omega arith);
  }

  core : IsCore sys built no_orders
  core = record {
    window = record { ordered = ordered; small = small; range = refl };
    level = λ u j hj. record {
      empty = λ z. refl;
      limit = λ z. absurd (z (slot-null u j));
      price = λ z. absurd (z (slot-null u j));
      side = λ z. absurd (z (slot-null u j));
      made = λ z. absurd (z (slot-null u j));
      unused = λ z. absurd (z (slot-null u j));
    };
    order = λ u j q hj m. cc (m);
    found = λ k ne. absurd (ne (table.1 k));
    map = table.0;
    pool = record {
      carving = record {
        done = 64;
        done-le = omega arith;
        none_yet = λ _. (refl, refl);
        last = λ k e. absurd (omega (arith, e));
      };
      chain = refl;
      issued = λ q m. cc (m);
    };
    nodes = record { chain = refl; made = λ q m. cc (m); blank = λ q m. cc (m) };
  }

  pub built-IsBook : IsBook sys built no_orders
  built-IsBook = record {
    core = core;
    full = λ u j hj ne. absurd (ne (slot-null u j));
    best = IsBest-built;
  }

  pub built-empty : (k : ℕ) → view built.order_lookup k ≡ null
  built-empty = table.1

  -- A window whose prices are int32_t gives a new book.
  pub new_book-IsNew : Returns (IsNew sys min_px max_px) (new_book sys min_px max_px)
  unfolding new_book
  new_book-IsNew =
      let e : leb min_px (max_px + 1) ≡ true = ground arith in
      rw e (
        returns (record {
          ghost = no_orders;
          book = built-IsBook;
          queue_eq = λ u j. refl;
          entry_eq = λ k. entry-null built k (table.1 k);
          min_eq = refl;
          max_eq = refl;
        }))
