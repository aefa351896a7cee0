-- ===== src/Book/Lookup.antt =====
-- `find` may add pages to the table; nothing that a book stands for changes by it.
use hft_backtester.Prelude.{ℕ, ◌≡◌, refl, ◌∙◌, Bool, true, false}
use hft_backtester.PageMap.{PageMap}
use hft_backtester.PageMap.View.{IsMap, view}
use hft_backtester.Book.{Book, System, half}
use hft_backtester.Book.Invariant.{Ghost, IsCore, IsBook, price_at}
use hft_backtester.Book.Entry.{entry, entry-same}

module _ (sys : System) (b : Book) (g : Ghost) (m : PageMap) (map : IsMap m)
    (same : (k : ℕ) → view m k ≡ view b.order_lookup k) where
  abbrev pub looked_up : Book
  looked_up = record b { order_lookup = m }

  half-looked_up : (u : Bool) → half u looked_up ≡ half u b
  unfolding half
  half-looked_up true = refl
  half-looked_up false = refl

  price_at-looked_up : (u : Bool) (j : ℕ) → price_at u looked_up j ≡ price_at u b j
  price_at-looked_up true j = refl
  price_at-looked_up false j = refl

  pub entry-looked_up : (k : ℕ) → entry looked_up k ≡ entry b k
  entry-looked_up k = entry-same b looked_up k (same k) (λ _. refl)

  IsCore-looked_up : IsCore sys b g → IsCore sys looked_up g
  IsCore-looked_up c = record {
    window = record { ordered = c.window.ordered; small = c.window.small; range = c.window.range };
    level = λ u j hj.
        let p = c.level u j hj in
        record {
          empty = λ z. p.empty (rw (half-looked_up u) at z);
          limit = λ z. rw (half-looked_up u) (p.limit (rw (half-looked_up u) at z));
          price = λ z.
              rw (half-looked_up u, price_at-looked_up u j) (p.price (rw (half-looked_up u) at z));
          side = λ z. rw (half-looked_up u) (p.side (rw (half-looked_up u) at z));
          made = λ z. rw (half-looked_up u) (p.made (rw (half-looked_up u) at z));
          unused = λ z. rw (half-looked_up u) (p.unused (rw (half-looked_up u) at z));
        };
    order = λ u j q hj i.
        let p = c.order u j q hj i in
        record {
          parent = rw (half-looked_up u) p.parent;
          price = rw (price_at-looked_up u j) p.price;
          side = p.side;
          listed = same (b.orders q).id ∙ p.listed;
          size = p.size;
          issued = p.issued;
          unused = p.unused;
        };
    found = λ k ne.
        let f = c.found k (rw (same k) at ne) in
        record {
          place = f.place;
          in_range = f.in_range;
          mem = rw (same k) f.mem;
          id_eq = rw (same k) f.id_eq;
        };
    map = map;
    pool = c.pool;
    nodes = c.nodes;
  }

  pub IsBook-looked_up : IsBook sys b g → IsBook sys looked_up g
  IsBook-looked_up v = record {
    core = IsCore-looked_up v.core;
    full = λ u j hj ne. v.full u j hj (rw (half-looked_up u) at ne);
    best = λ u. rw (half-looked_up u) (v.best u);
  }
