-- ===== src/PageMap.antt =====
-- `PageMap` of include/slab_map.h: a table from order ids to orders, in pages of 2 ^ 18 slots.
pub mod View
pub mod Steps
pub mod Laws
use hft_backtester.Prelude.{
  ℕ, zero, suc, ◌+◌, ◌-◌, ◌*◌, Bool, true, false, ◌/◌, ◌%◌, ◌^◌, Option, none, some, List, [], ◌∷◌,
  ◌++◌, ◌==◌, if◌then◌else◌, ltb, leb, length, get_elem?, set, replicate,
}
use hft_backtester.Heap.{Ptr, null, put}

abbrev pub slots_per_page : ℕ
slots_per_page = 2 ^ 18

-- The contents of a page by slot.
abbrev pub Page : Type 0
Page = ℕ → Ptr

-- `none` is a null page; the last of `free_pages_` is the first of the list. `allocs` counts the
-- calls of `alloc_page`.
pub record PageMap : Type 0 where
  pub pages : List (Option Page)
  pub free_pages : List Page
  pub base_id : ℕ
  pub base_page : ℕ
  pub allocs : ℕ

-- `id >> PAGE_SHIFT`, `id & PAGE_MASK` and `id & ~PAGE_MASK`
abbrev pub page_of : ℕ → ℕ
page_of id = id / slots_per_page

abbrev pub slot_of : ℕ → ℕ
slot_of id = id % slots_per_page

abbrev pub first_of_page : ℕ → ℕ
first_of_page id = id / slots_per_page * slots_per_page

pub is_nil {ℓ} : {A : Type ℓ} → List A → Bool
is_nil [] = true
is_nil (x ∷ xs) = false

-- The first three steps of `slot_ptr`: the first page, an id below the base, an id past the end.
pub start_at : PageMap → ℕ → PageMap
start_at m id =
    if is_nil m.pages
    then record m {
      base_id = first_of_page id;
      base_page = first_of_page id / slots_per_page;
      pages = none ∷ [];
    }
    else m

pub rebase : PageMap → ℕ → PageMap
rebase m id =
    if ltb id m.base_id
    then record m {
      pages = replicate (m.base_page - first_of_page id / slots_per_page) none ++ m.pages;
      base_id = first_of_page id;
      base_page = first_of_page id / slots_per_page;
    }
    else m

pub extend : PageMap → ℕ → PageMap
extend m idx =
    if leb (length m.pages) idx
    then record m { pages = m.pages ++ replicate (idx + 1 - length m.pages) none }
    else m

pub read : PageMap → ℕ → ℕ → Ptr
read m idx slot = elim (get_elem? m.pages idx) [ some (some p) ↦ p slot | _ ↦ null ]

pub write : PageMap → ℕ → ℕ → Ptr → PageMap
unfolding put
write m idx slot v = elim (get_elem? m.pages idx) [
  | some (some p) ↦ record m { pages = set m.pages idx (some (put p slot v)) }
  | _ ↦ m
]

-- The contents of the n-th page that the system hands out are the environment's choice.
module _ (fresh_page : ℕ → Page) where
  pub acquire_from : List Page → PageMap → Page × PageMap
  acquire_from [] m = (fresh_page m.allocs, record m { allocs = m.allocs + 1 })
  acquire_from (p ∷ ps) m = (p, record m { free_pages = ps })

  pub acquire_page : PageMap → Page × PageMap
  unfolding acquire_from
  acquire_page m = acquire_from m.free_pages m

  -- The last step of `slot_ptr`: a page that is not there yet.
  pub populate : PageMap → ℕ → PageMap
  unfolding acquire_page
  populate m idx = elim (get_elem? m.pages idx) [
    | some none ↦ (let (p, m') = acquire_page m in record m' { pages = set m'.pages idx (some p) })
    | _ ↦ m
  ]

  -- the map afterwards, and the index of the page
  pub slot_ptr : PageMap → ℕ → PageMap × ℕ
  slot_ptr m id =
      let m2 : PageMap = rebase (start_at m id) id in
      let idx : ℕ = page_of id - m2.base_page in (populate (extend m2 idx) idx, idx)

  -- `alloc_page` and the write of a zero byte, which clears the low byte of slot 0.
  pub touched_page : ℕ → Page
  touched_page n = put (fresh_page n) 0 (fresh_page n 0 / 256 * 256)

  -- `PageMap(preallocate_pages)`: page n - 1 is the last one pushed.
  pub preallocate : ℕ → PageMap
  unfolding touched_page
  preallocate zero = record { pages = []; free_pages = []; base_id = 0; base_page = 0; allocs = 0 }
  preallocate (suc n) =
      let m : PageMap = preallocate n in
      record m { free_pages = touched_page m.allocs ∷ m.free_pages; allocs = m.allocs + 1 }

  -- `find`, `insert` and `erase` all go through `slot_ptr`, so `find` may change the map too.
  pub find : PageMap → ℕ → Ptr × PageMap
  find m id = let (m', idx) = slot_ptr m id in (read m' idx (slot_of id), m')

  pub insert : PageMap → ℕ → Ptr → PageMap
  insert m id p = let (m', idx) = slot_ptr m id in write m' idx (slot_of id) p

  pub erase : PageMap → ℕ → PageMap
  erase m id = insert m id null

pub clear : PageMap → PageMap
clear m = record m { pages = []; free_pages = []; base_id = 0; base_page = 0 }
