-- ===== src/Book/Process.antt =====
-- `process_msg` against a plain table of resting orders, and a stream of messages from a new book on.
use hft_backtester.Prelude.{
  ℕ, ◌+◌, ◌<◌, ◌≤◌, ◌^◌, ◌≡◌, ◌≢◌, inl, inr, refl, sym, subst, ◌∙◌, List, [], ◌∷◌, Bool, true,
  false, Option, none, some, ◌||◌, ◌==◌, if◌then◌else◌, Bool-cases, arith, pos, pos_part, ltb_ℤ,
  Returns, returns, Returns-bind, Returns-mono, ◌>>=◌,
}
use hft_backtester.Heap.{null}
use hft_backtester.Message.{Message}
use hft_backtester.PageMap.View.{view}
use hft_backtester.Book.{Book, System, new_book, process_msg, add_order, modify_order, cancel_order}
use hft_backtester.Book.Invariant.{IsSystem, Ghost, IsBook}
use hft_backtester.Book.Entry.{Entry, entry, entry-some, entry_of}
use hft_backtester.Book.Add.{add_order-IsAdded}
use hft_backtester.Book.Cancel.{cancel_order-IsCancelled}
use hft_backtester.Book.Modify.{modify_order-IsModified}
use hft_backtester.Book.New.{new_book-IsNew}

-- The resting orders, by id.
abbrev pub Table : Type 0
Table = ℕ → Option Entry

-- The price is below 100000 or above 800000: `process_msg` ignores the message.
abbrev pub is_ignored : Message → Bool
is_ignored m = ltb_ℤ m.price (pos 100000) || ltb_ℤ (pos 800000) m.price

abbrev pub entry_in : Message → Entry
entry_in m = record { side = m.side; price = pos_part m.price; size = m.size; time = m.time }

-- What a message means: an added or modified order is under its id as the message has it, a cancelled
-- one is gone, and nothing else changes.
abbrev pub meant : Message → Table → Table
meant m table k =
    if is_ignored m
    then table k
    else if m.id == k
    then (if m.action == b'A'
        then some (entry_in m)
        else if m.action == b'M'
        then some (entry_in m)
        else if m.action == b'C'
        then none
        else table k)
    else table k

-- What is asked of a message: its price is in the window, its size is 32 bits, an order that is added
-- has a new id, and any other message has the side of the order under its id, if there is one.
pub record IsSound (min_px max_px : ℕ) (table : Table) (m : Message) : Type 0 where
  pub above : min_px ≤ pos_part m.price
  pub below : pos_part m.price ≤ max_px
  pub size : m.size < 2 ^ 32
  pub fresh : m.action ≡ b'A' → table m.id ≡ none
  pub side : (e : Entry) → table m.id ≡ some e → e.side ≡ m.side

-- The book stands for the table, and its window is this.
pub record Stands (sys : System) (min_px max_px : ℕ) (table : Table) (b : Book) : Type 0 where
  pub ghost : Ghost
  pub book : IsBook sys b ghost
  pub entry_eq : (k : ℕ) → entry b k ≡ table k
  pub min_eq : b.min ≡ min_px
  pub max_eq : b.max ≡ max_px

-- Nothing is seen under an id just where the table leads nowhere.
view-null : (b : Book) (id : ℕ) → entry b id ≡ none → view b.order_lookup id ≡ null
unfolding entry
view-null b id e = ground (arith, e)

pub process_msg-ignored :
    (sys : System) (m : Message) (b : Book) → is_ignored m ≡ true → process_msg sys m b ≡ some b
unfolding process_msg
process_msg-ignored sys m b skip = rw skip refl

module _ (sys : System) (ok : IsSystem sys) (min_px max_px : ℕ) (table : Table) (b : Book)
    (st : Stands sys min_px max_px table b) (m : Message)
    (sound : is_ignored m ≡ false → IsSound min_px max_px table m) where
  abbrev px : ℕ
  px = pos_part m.price

  abbrev Promise : Book → Type 0
  Promise = Stands sys min_px max_px (meant m table)

  agree :
      IsSound min_px max_px table m
      → view b.order_lookup m.id ≢ null
      → (b.orders (view b.order_lookup m.id)).side ≡ m.side
  agree v ne =
      v.side (entry_of (b.orders (view b.order_lookup m.id)))
        (sym (st.entry_eq m.id) ∙ entry-some b m.id (view b.order_lookup m.id) refl ne)

  module _ (seen : is_ignored m ≡ false) where
    v : IsSound min_px max_px table m
    v = sound seen

    lo : b.min ≤ px
    lo = rw (st.min_eq) v.above

    hi : px ≤ b.max
    hi = rw (st.max_eq) v.below

    -- a table that the message makes
    set :
        (o : Option Entry)
        → ((if m.action == b'A'
              then some (entry_in m)
              else if m.action == b'M'
              then some (entry_in m)
              else if m.action == b'C'
              then none
              else table m.id)
            ≡ o)
        → (b' : Book) → ((k : ℕ) → entry b' k ≡ (if m.id == k then o else entry b k))
        → (k : ℕ) → entry b' k ≡ meant m table k
    set o means b' e k = elim (Bool-cases (m.id == k)) [
      | inl same ↦
          let at : m.id ≡ k = ground arith in
          e k
          ∙ rw (seen, same)
              (sym (
                subst
                  (λ z.
                    (if m.action == b'A'
                      then some (entry_in m)
                      else if m.action == b'M'
                      then some (entry_in m)
                      else if m.action == b'C'
                      then none
                      else table z)
                    ≡ o)
                  at means))
      | inr other ↦ e k ∙ rw (seen, other) (st.entry_eq k)
    ]

    added :
        (m.action == b'A') ≡ true → Returns Promise (add_order sys m.side m.id px m.size m.time b)
    added is =
        Returns-mono
          (add_order-IsAdded sys ok b st.ghost st.book m.side m.id px m.size m.time lo hi v.size
            (view-null b m.id (st.entry_eq m.id ∙ v.fresh (ground arith))))
          λ b' a. record {
            ghost = a.ghost;
            book = a.book;
            entry_eq = set (some (entry_in m)) (rw is refl) b' a.entry_eq;
            min_eq = a.min_eq ∙ st.min_eq;
            max_eq = a.max_eq ∙ st.max_eq;
          }

    modified :
        (m.action == b'A') ≡ false
        → (m.action == b'M') ≡ true
        → Returns Promise (modify_order sys m.side m.id px m.size m.time b)
    modified not_a is =
        Returns-mono
          (modify_order-IsModified sys ok b st.ghost st.book m.side m.id px m.size m.time lo hi
            v.size (agree v))
          λ b' a. record {
            ghost = a.ghost;
            book = a.book;
            entry_eq = set (some (entry_in m)) (rw (not_a, is) refl) b' a.entry_eq;
            min_eq = a.min_eq ∙ st.min_eq;
            max_eq = a.max_eq ∙ st.max_eq;
          }

    cancelled :
        (m.action == b'A') ≡ false
        → (m.action == b'M') ≡ false
        → (m.action == b'C') ≡ true
        → Returns Promise (cancel_order sys m.side m.id b)
    cancelled not_a not_m is =
        Returns-mono (cancel_order-IsCancelled sys ok b st.ghost st.book m.side m.id (agree v))
          λ b' c. record {
            ghost = c.ghost;
            book = c.book;
            entry_eq = set none (rw (not_a, not_m, is) refl) b' c.entry_eq;
            min_eq = c.min_eq ∙ st.min_eq;
            max_eq = c.max_eq ∙ st.max_eq;
          }

    nothing :
        (m.action == b'A') ≡ false
        → (m.action == b'M') ≡ false
        → (m.action == b'C') ≡ false
        → Promise b
    nothing not_a not_m not_c = record {
      ghost = st.ghost;
      book = st.book;
      entry_eq = λ k.
          st.entry_eq k
          ∙ rw (seen, not_a, not_m, not_c)
              (elim (Bool-cases (m.id == k)) [ inl e ↦ rw e refl | inr e ↦ rw e refl ]);
      min_eq = st.min_eq;
      max_eq = st.max_eq;
    }

    acts : Returns Promise (
        if m.action == b'A'
        then add_order sys m.side m.id px m.size m.time b
        else if m.action == b'M'
        then modify_order sys m.side m.id px m.size m.time b
        else if m.action == b'C'
        then cancel_order sys m.side m.id b
        else some b)
    acts = elim (Bool-cases (m.action == b'A')) [
      | inl a ↦ rw a (added a)
      | inr a ↦ rw a (elim (Bool-cases (m.action == b'M')) [
        | inl c ↦ rw c (modified a c)
        | inr c ↦ rw c (elim (Bool-cases (m.action == b'C')) [
          | inl d ↦ rw d (cancelled a c d)
          | inr d ↦ rw d (returns (nothing a c d))
        ])
      ])
    ]

  -- A message that is ignored, or sound for the table, succeeds, and the book stands for what the
  -- message means.
  pub process_msg-Stands : Returns Promise (process_msg sys m b)
  unfolding process_msg
  process_msg-Stands = elim (Bool-cases (is_ignored m)) [
    | inl skip ↦ rw skip (
        returns (record {
          ghost = st.ghost;
          book = st.book;
          entry_eq = λ k. st.entry_eq k ∙ rw skip refl;
          min_eq = st.min_eq;
          max_eq = st.max_eq;
        }))
    | inr seen ↦ rw seen (acts seen)
  ]

-- A stream of messages, in order: as every caller of `process_msg` does.
pub replay : System → List Message → Book → Option Book
replay sys [] b = some b
replay sys (m ∷ ms) b = process_msg sys m b >>= replay sys ms

abbrev pub meant_by : List Message → Table → Table
meant_by [] table = table
meant_by (m ∷ ms) table = meant_by ms (meant m table)

-- Each message is ignored, or sound for the table that the messages before it leave.
abbrev pub AllSound : ℕ → ℕ → List Message → Table → Type 0
AllSound min_px max_px [] table = Unit
AllSound min_px max_px (m ∷ ms) table =
    (is_ignored m ≡ false → IsSound min_px max_px table m)
    × AllSound min_px max_px ms (meant m table)

replay-from :
    (sys : System)
    → IsSystem sys
    → (min_px max_px : ℕ) (ms : List Message) (table : Table) (b : Book)
    → Stands sys min_px max_px table b
    → AllSound min_px max_px ms table
    → Returns (Stands sys min_px max_px (meant_by ms table)) (replay sys ms b)
unfolding replay
replay-from sys ok from to [] table b st sound = returns st
replay-from sys ok from to (m ∷ ms) table b st (now, later) =
    Returns-bind (process_msg-Stands sys ok from to table b st m now)
      λ b' st'. replay-from sys ok from to ms (meant m table) b' st' later

-- From a new book on, a stream of sound messages succeeds, and the book stands for what they mean.
pub replay-Stands :
    (sys : System)
    → IsSystem sys
    → (min_px max_px : ℕ) → min_px ≤ max_px + 1
    → max_px + 1 < 2 ^ 31
    → (ms : List Message) → AllSound min_px max_px ms (λ _. none)
    → Returns
        (Stands sys min_px max_px (meant_by ms (λ _. none)))
        (new_book sys min_px max_px >>= replay sys ms)
replay-Stands sys ok from to ordered small ms sound =
    Returns-bind (new_book-IsNew sys ok from to ordered small) λ b n.
      replay-from sys ok from to ms (λ _. none) b
        (record {
          ghost = n.ghost;
          book = n.book;
          entry_eq = n.entry_eq;
          min_eq = n.min_eq;
          max_eq = n.max_eq;
        })
        sound
