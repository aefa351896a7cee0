-- ===== src/Limit.antt =====
-- The operations of `Limit` in include/book/limit.h: an intrusive queue, doubly linked through the
-- orders. `*this` is a value that is returned anew, beside the memory of the orders.
pub mod Chain
pub mod Add
pub mod Remove
use hft_backtester.Prelude.{ℕ, Bool, ◌==◌, if◌then◌else◌, add32, sub32}
use hft_backtester.Heap.{Ptr, null, Order, Limit, Orders, put}

unfoldable pub is_empty : Limit → Bool
is_empty l = l.head == null

pub set_next : Orders → Ptr → Ptr → Orders
set_next o p q = put o p (record (o p) { next = q })

pub set_prev : Orders → Ptr → Ptr → Orders
set_prev o p q = put o p (record (o p) { prev = q })

pub add_order : Orders → Limit → Ptr → Orders × Limit
unfolding put set_next set_prev
add_order o l new =
    let o1 : Orders = set_next (set_prev o new l.tail) new null in
    let o2 : Orders = if l.tail == null then o1 else set_next o1 l.tail new in
    (
      o2,
      record l {
        volume = add32 l.volume (o2 new).size;
        head = if l.tail == null then new else l.head;
        tail = new;
      },
    )

pub remove_order : Orders → Limit → Ptr → Orders × Limit
unfolding put set_next set_prev
remove_order o l t =
    let o1 : Orders = if (o t).prev == null then o else set_next o (o t).prev (o t).next in
    let o2 : Orders = if (o1 t).next == null then o1 else set_prev o1 (o1 t).next (o1 t).prev in
    (
      o2,
      record l {
        volume = sub32 l.volume (o2 t).size;
        head = if (o t).prev == null then (o t).next else l.head;
        tail = if (o1 t).next == null then (o1 t).prev else l.tail;
      },
    )
