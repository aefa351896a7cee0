-- ===== src/PageMap/Laws.antt =====
-- `find`, `insert` and `erase` act on what the map holds as on a function from ids to orders,
-- wherever the id lies with respect to the pages that are there.
use hft_backtester.Prelude.{
  ℕ, ◌-◌, ◌≤◌, ◌≡◌, ◌∙◌, ap, subst, refl, [], zero, suc, ◌==◌, if◌then◌else◌, arith,
}
use hft_backtester.Heap.{Ptr, null, put}
use hft_backtester.PageMap.{
  PageMap, Page, page_of, slot_of, slot_ptr, read, write, find, insert, erase, preallocate,
  touched_page,
}
use hft_backtester.PageMap.View.{IsZeroed, IsMap, AllBlank, view, entry-set-some}
use hft_backtester.PageMap.Steps.{Keeps, IsThere, slot_ptr-Keeps}

read-view :
    (m : PageMap) (id : ℕ)
    → m.base_page ≤ page_of id
    → read m (page_of id - m.base_page) (slot_of id) ≡ view m id
unfolding read view
read-view m id h = ground arith

-- A write through the slot of `id`.
write-view :
    (m : PageMap) (id : ℕ) (v : Ptr)
    → m.base_page ≤ page_of id
    → IsThere m (page_of id - m.base_page)
    → IsMap m
    → let m' = write m (page_of id - m.base_page) (slot_of id) v in
      IsMap m' × ((j : ℕ) → view m' j ≡ (if id == j then v else view m j))
unfolding write view
write-view m id v h (q, e) ok =
    rw (e, write)
      (
        record { aligned = ok.aligned; blank = ok.blank },
        λ j. ground (
          arith,
          entry-set-some m.pages (page_of id - m.base_page) (page_of j - m.base_page) (slot_of j) q
              (put q (slot_of id) v) e,
        ),
      )

module _ (fresh_page : ℕ → Page) (zeroed : IsZeroed fresh_page) where
  -- `find` returns what the map holds under the id, null if nothing, and though it may add pages
  -- it changes no content.
  pub find-view :
      (m : PageMap) (id : ℕ)
      → IsMap m
      → let (p, m') = find fresh_page m id in (p ≡ view m id) × Keeps m m'
  unfolding find
  find-view m id v =
      let (k, there, at, low) = slot_ptr-Keeps fresh_page zeroed m id v in
      let m' = (slot_ptr fresh_page m id).0 in (rw at (read-view m' id low ∙ k.same id), k)

  -- `insert` changes what the map holds under its id, and nothing else.
  pub insert-view :
      (m : PageMap) (id : ℕ) (p : Ptr)
      → IsMap m
      → let m' = insert fresh_page m id p in
        IsMap m' × ((j : ℕ) → view m' j ≡ (if id == j then p else view m j))
  unfolding insert
  insert-view m id p v =
      let (k, there, at, low) = slot_ptr-Keeps fresh_page zeroed m id v in
      let m' = (slot_ptr fresh_page m id).0 in
      let there' = subst (IsThere m') at there in
      let (ok, w) = write-view m' id p low there' k.map in
      rw at (ok, λ j. w j ∙ ap (λ x. if id == j then p else x) (k.same j))

  -- `erase` leaves nothing under its id, and changes nothing else.
  pub erase-view :
      (m : PageMap) (id : ℕ)
      → IsMap m
      → let m' = erase fresh_page m id in
        IsMap m' × ((j : ℕ) → view m' j ≡ (if id == j then null else view m j))
  unfolding erase
  erase-view m id v = insert-view m id null v

  AllBlank-preallocate : (n : ℕ) → AllBlank (preallocate fresh_page n).free_pages
  unfolding preallocate touched_page put
  AllBlank-preallocate zero = tt
  AllBlank-preallocate (suc n) =
      let m = preallocate fresh_page n in
      ((λ s. ground (arith, zeroed m.allocs s, zeroed m.allocs 0)), AllBlank-preallocate n)

  preallocate-fields :
      (n : ℕ)
      → let m = preallocate fresh_page n in (m.pages ≡ []) × (m.base_id ≡ 0) × (m.base_page ≡ 0)
  unfolding preallocate
  preallocate-fields zero = (refl, refl, refl)
  preallocate-fields (suc n) = preallocate-fields n

  -- A new map holds nothing, however many pages it sets aside.
  pub preallocate-view :
      (n : ℕ) → let m = preallocate fresh_page n in IsMap m × ((id : ℕ) → view m id ≡ null)
  unfolding view
  preallocate-view n =
      let (p, b, q) = preallocate-fields n in
      (
        record { aligned = omega arith; blank = AllBlank-preallocate n },
        λ id. rw (p, q) (ground arith),
      )
