-- ===== src/PageMap/Steps.antt =====
-- The steps of `slot_ptr` change no content of a page map, and end with the slot's page there.
use hft_backtester.Prelude.{
  ℕ, zero, suc, ◌+◌, ◌-◌, ◌<◌, ◌≤◌, ◌≡◌, ◌⊎◌, inl, inr, refl, sym, subst, ◌∙◌, Option, none, some,
  List, [], ◌∷◌, ◌/◌, leb, ltb, length, get_elem?, set, replicate, Bool-cases, length-append,
  length-replicate, get_elem?-set_self, arith,
}
use hft_backtester.Heap.{null}
use hft_backtester.PageMap.{
  PageMap, Page, page_of, slot_of, first_of_page, slots_per_page, start_at, rebase, extend,
  populate, slot_ptr, acquire_from, is_nil,
}
use hft_backtester.PageMap.View.{
  IsZeroed, IsMap, AllBlank, view, entry-nil, entry-single, entry-replicate-append,
  entry-append-replicate, entry-set-none,
}

-- Two maps with the same contents.
abbrev pub Same : PageMap → PageMap → Type 0
Same m m' = (id : ℕ) → view m' id ≡ view m id

start_at-Same : (m : PageMap) (id : ℕ) → Same m (start_at m id)
unfolding start_at view
start_at-Same m id j = elim (Bool-cases (is_nil m.pages)) [
  | inl e ↦ rw e (
      ground (
        arith,
        entry-nil m.pages (page_of j - m.base_page) (slot_of j) e,
        entry-single (page_of j - first_of_page id / slots_per_page) (slot_of j),
      ))
  | inr e ↦ rw e refl
]

rebase-Same : (m : PageMap) (id : ℕ) → IsMap m → Same m (rebase m id)
unfolding rebase view
rebase-Same m id v j = elim (Bool-cases (ltb id m.base_id)) [
  | inl e ↦ rw e (rw entry-replicate-append (ground (arith, v.aligned)))
  | inr e ↦ rw e refl
]

extend-Same : (m : PageMap) (idx : ℕ) → Same m (extend m idx)
unfolding extend view
extend-Same m idx j = elim (Bool-cases (leb (length m.pages) idx)) [
  | inl e ↦ rw e (rw entry-append-replicate refl)
  | inr e ↦ rw e refl
]

Slot-cases :
    (o : Option (Option Page)) → (o ≡ none) ⊎ (o ≡ some none) ⊎ ((p : Page) × (o ≡ some (some p)))
Slot-cases none = inl refl
Slot-cases (some none) = inr (inl refl)
Slot-cases (some (some p)) = inr (inr (p, refl))

-- The page of index `idx` is there.
abbrev pub IsThere : PageMap → ℕ → Type 0
IsThere m idx = (p : Page) × (get_elem? m.pages idx ≡ some (some p))

-- What the steps of `slot_ptr` keep: the contents, and the map's own invariant.
pub record Keeps (m m' : PageMap) : Type 0 where
  pub same : Same m m'
  pub map : IsMap m'

pub Keeps-trans : (a b c : PageMap) → Keeps a b → Keeps b c → Keeps a c
Keeps-trans a b c f g = record { same = λ id. g.same id ∙ f.same id; map = g.map }

start_at-Keeps : (m : PageMap) (id : ℕ) → IsMap m → Keeps m (start_at m id)
unfolding start_at
start_at-Keeps m id v = record {
  same = start_at-Same m id;
  map = elim (Bool-cases (is_nil m.pages)) [
    | inl e ↦ rw e (record { aligned = omega arith; blank = v.blank })
    | inr e ↦ rw e v
  ];
}

rebase-Keeps :
    (m : PageMap) (id : ℕ)
    → IsMap m
    → Keeps m (rebase m id) × ((rebase m id).base_page ≤ page_of id)
unfolding rebase
rebase-Keeps m id v = (
  record {
    same = rebase-Same m id v;
    map = elim (Bool-cases (ltb id m.base_id)) [
      | inl e ↦ rw e (record { aligned = omega arith; blank = v.blank })
      | inr e ↦ rw e v
    ];
  },
  ground (arith, v.aligned),
)

extend-Keeps :
    (m : PageMap) (idx : ℕ) → IsMap m → Keeps m (extend m idx) × (idx < length (extend m idx).pages)
unfolding extend
extend-Keeps m idx v = (
  record {
    same = extend-Same m idx;
    map = elim (Bool-cases (leb (length m.pages) idx)) [
      | inl e ↦ rw e (record { aligned = v.aligned; blank = v.blank })
      | inr e ↦ rw e v
    ];
  },
  ground (
    arith,
    length-append m.pages (replicate (idx + 1 - length m.pages) none),
    length-replicate {A = Option Page} (idx + 1 - length m.pages) none,
  ),
)

extend-base : (m : PageMap) (idx : ℕ) → (extend m idx).base_page ≡ m.base_page
unfolding extend
extend-base m idx = ground arith

get_elem?-ne-none :
    (ps : List (Option Page)) (idx : ℕ) → idx < length ps → ¬ (get_elem? ps idx ≡ none)
get_elem?-ne-none [] idx h e = absurd (omega arith)
get_elem?-ne-none (p ∷ ps) zero h e = cc
get_elem?-ne-none (p ∷ ps) (suc idx) h e = get_elem?-ne-none ps idx (omega arith) e

module _ (fresh_page : ℕ → Page) (zeroed : IsZeroed fresh_page) where
  -- `acquire_page` returns a blank page and leaves the table alone.
  record Acquired (m : PageMap) (p : Page) (m' : PageMap) : Type 0 where
    blank : (s : ℕ) → p s ≡ null
    pages : m'.pages ≡ m.pages
    base_page : m'.base_page ≡ m.base_page
    map : IsMap m'

  acquire_from-Acquired :
      (fs : List Page) (m : PageMap)
      → fs ≡ m.free_pages
      → IsMap m
      → let (p, m') = acquire_from fresh_page fs m in Acquired m p m'
  unfolding acquire_from
  acquire_from-Acquired [] m e v = record {
    blank = zeroed m.allocs;
    pages = refl;
    base_page = refl;
    map = record { aligned = v.aligned; blank = v.blank };
  }
  acquire_from-Acquired (f ∷ fs) m e v =
      let b : AllBlank (f ∷ fs) = subst AllBlank (sym e) v.blank in
      record {
        blank = b.0;
        pages = refl;
        base_page = refl;
        map = record { aligned = v.aligned; blank = b.1 };
      }

  populate-none :
      (m : PageMap) (idx : ℕ) (p : Page) (m' : PageMap)
      → Acquired m p m'
      → get_elem? m.pages idx ≡ some none
      → Keeps m (record m' { pages = set m'.pages idx (some p) })
  unfolding view
  populate-none m idx p m' a e = record {
    same = λ id.
        rw (a.pages, a.base_page)
          (ground (
            arith,
            entry-set-none m.pages idx (page_of id - m.base_page) (slot_of id) p e a.blank,
          ));
    map = record { aligned = a.map.aligned; blank = a.map.blank };
  }

  populate-Keeps :
      (m : PageMap) (idx : ℕ)
      → IsMap m
      → idx < length m.pages
      → let m' = populate fresh_page m idx in
        Keeps m m' × IsThere m' idx × (m'.base_page ≡ m.base_page)
  unfolding populate
  populate-Keeps m idx v h = elim (Slot-cases (get_elem? m.pages idx)) [
    | inl e ↦ absurd (get_elem?-ne-none m.pages idx h e)
    | inr (inl e) ↦
        let a = acquire_from-Acquired m.free_pages m refl v in
        let (p, m') = acquire_from fresh_page m.free_pages m in
        rw (e, populate)
          (
            populate-none m idx p m' a e,
            (p, rw a.pages (get_elem?-set_self m.pages idx (some p) h)),
            a.base_page,
          )
    | inr (inr (p, e)) ↦ rw (e, populate) (record { same = λ id. refl; map = v }, (p, e), refl)
  ]

  -- `slot_ptr` changes no content, and ends with the page of the id there and in range.
  pub slot_ptr-Keeps :
      (m : PageMap) (id : ℕ)
      → IsMap m
      → let (m', idx) = slot_ptr fresh_page m id in
        Keeps m m'
        × IsThere m' idx
        × (idx ≡ page_of id - m'.base_page)
        × (m'.base_page ≤ page_of id)
  unfolding slot_ptr
  slot_ptr-Keeps m id v =
      let m1 = start_at m id in
      let k1 = start_at-Keeps m id v in
      let m2 = rebase m1 id in
      let (k2, low) = rebase-Keeps m1 id k1.map in
      let idx = page_of id - m2.base_page in
      let m3 = extend m2 idx in
      let (k3, room) = extend-Keeps m2 idx k2.map in
      let (k4, there, base) = populate-Keeps m3 idx k3.map room in
      let m4 = populate fresh_page m3 idx in
      let k13 = Keeps-trans m m1 m2 k1 k2 in
      let k14 = Keeps-trans m m2 m3 k13 k3 in
      let same_base = base ∙ extend-base m2 idx in
      (Keeps-trans m m3 m4 k14 k4, there, rw same_base refl, rw same_base low)
