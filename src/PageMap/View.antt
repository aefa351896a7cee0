-- ===== src/PageMap/View.antt =====
-- A page map stands for a function from ids to orders: `view`.
use hft_backtester.Prelude.{
  ℕ, zero, suc, ◌-◌, ◌*◌, ◌≡◌, refl, Option, none, some, List, [], ◌∷◌, ◌++◌, ◌==◌, if◌then◌else◌,
  ltb, get_elem?, set, replicate, arith, true,
}
use hft_backtester.Heap.{Ptr, null}
use hft_backtester.PageMap.{PageMap, Page, page_of, slot_of, slots_per_page, is_nil}

-- Anonymous memory of the system is zero.
abbrev pub IsZeroed : (ℕ → Page) → Type 0
IsZeroed fresh_page = (n s : ℕ) → fresh_page n s ≡ null

abbrev pub entry : List (Option Page) → ℕ → ℕ → Ptr
entry ps idx s = elim (get_elem? ps idx) [ some (some p) ↦ p s | _ ↦ null ]

-- What the map holds under an id.
unfoldable pub view : PageMap → ℕ → Ptr
view m id =
    if ltb (page_of id) m.base_page
    then null
    else entry m.pages (page_of id - m.base_page) (slot_of id)

abbrev pub AllBlank : List Page → Type 0
AllBlank [] = Unit {0}
AllBlank (p ∷ ps) = ((s : ℕ) → p s ≡ null) × AllBlank ps

-- The base id is the first id of the base page, and the pages in reserve are blank.
pub record IsMap (m : PageMap) : Type 0 where
  pub aligned : m.base_id ≡ m.base_page * slots_per_page
  pub blank : AllBlank m.free_pages

pub entry-replicate-append :
    (n k s : ℕ) (ps : List (Option Page))
    → entry (replicate n none ++ ps) k s ≡ (if ltb k n then null else entry ps (k - n) s)
entry-replicate-append zero k s ps = ground arith
entry-replicate-append (suc n) zero s ps = ground arith
entry-replicate-append (suc n) (suc k) s ps = ground (arith, entry-replicate-append n k s ps)

entry-replicate : (n k s : ℕ) → entry (replicate n none) k s ≡ null
entry-replicate zero k s = refl
entry-replicate (suc n) zero s = refl
entry-replicate (suc n) (suc k) s = entry-replicate n k s

pub entry-append-replicate :
    (n k s : ℕ) (ps : List (Option Page)) → entry (ps ++ replicate n none) k s ≡ entry ps k s
entry-append-replicate n k s [] = entry-replicate n k s
entry-append-replicate n zero s (p ∷ ps) = refl
entry-append-replicate n (suc k) s (p ∷ ps) = entry-append-replicate n k s ps

pub entry-nil : (ps : List (Option Page)) (k s : ℕ) → is_nil ps ≡ true → entry ps k s ≡ null
unfolding is_nil
entry-nil [] k s e = refl
entry-nil (p ∷ ps) k s e = cc

pub entry-single : (k s : ℕ) → entry (none ∷ []) k s ≡ null
entry-single zero s = refl
entry-single (suc k) s = refl

pub entry-set-none :
    (ps : List (Option Page)) (i k s : ℕ) (p : Page)
    → get_elem? ps i ≡ some none
    → ((t : ℕ) → p t ≡ null)
    → entry (set ps i (some p)) k s ≡ entry ps k s
entry-set-none [] i k s p e z = cc
entry-set-none (q ∷ ps) zero zero s p e z = ground (arith, z s)
entry-set-none (q ∷ ps) zero (suc k) s p e z = refl
entry-set-none (q ∷ ps) (suc i) zero s p e z = refl
entry-set-none (q ∷ ps) (suc i) (suc k) s p e z = entry-set-none ps i k s p e z

pub entry-set-some :
    (ps : List (Option Page)) (i k s : ℕ) (p q : Page)
    → get_elem? ps i ≡ some (some p)
    → entry (set ps i (some q)) k s ≡ (if i == k then q s else entry ps k s)
entry-set-some [] i k s p q e = cc
entry-set-some (x ∷ ps) zero zero s p q e = refl
entry-set-some (x ∷ ps) zero (suc k) s p q e = ground arith
entry-set-some (x ∷ ps) (suc i) zero s p q e = ground arith
entry-set-some (x ∷ ps) (suc i) (suc k) s p q e = ground (arith, entry-set-some ps i k s p q e)
