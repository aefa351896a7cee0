-- ===== src/Book/Outside.antt =====
-- Prices outside the window, which neither `process_msg` nor `slot` tests.
use hft_backtester.Prelude.{
  ℕ, ◌<◌, ◌≤◌, ◌^◌, ◌≡◌, ◌⊎◌, refl, Bool, true, false, none, ltb, ltb_ℤ, ◌||◌, pos_part, ◌==◌, pos,
  arith,
}
use hft_backtester.Message.{Message}
use hft_backtester.Book.{Book, System, index, slot_at, get_or_insert_limit, add_order, process_msg}
use hft_backtester.Book.Invariant.{IsWindow}
use hft_backtester.Book.Window.{index-out_of_range}

add_order-outside :
    (sys : System) (b : Book) (s : Bool) (id px sz ts : ℕ)
    → IsWindow b
    → px < 2 ^ 31
    → (px < b.min) ⊎ (b.max < px)
    → add_order sys s id px sz ts b ≡ none
unfolding add_order get_or_insert_limit slot_at
add_order-outside sys b s id px sz ts w small out =
    let far = index-out_of_range s b px w small out in
    let is : ltb (index s b px) b.range ≡ false = ground arith in rw is refl

-- An order to add whose price passes the test of 100000 to 800000 and is outside the book's window
-- is an access out of range of the vectors.
pub process_msg-outside :
    (sys : System) (b : Book) (m : Message) (px : ℕ)
    → IsWindow b
    → m.price ≡ pos px
    → 100000 ≤ px
    → px ≤ 800000
    → (px < b.min) ⊎ (b.max < px)
    → m.action ≡ b'A'
    → process_msg sys m b ≡ none
unfolding process_msg
process_msg-outside sys b m px w at lo hi out is =
    let seen : (ltb_ℤ m.price (pos 100000) || ltb_ℤ (pos 800000) m.price) ≡ false =
      rw at (ground arith) in
    let value : pos_part m.price ≡ px = rw at refl in
    let add : (m.action == b'A') ≡ true = ground arith in
    rw (seen, add, value) (add_order-outside sys b m.side m.id px m.size m.time w (omega arith) out)
