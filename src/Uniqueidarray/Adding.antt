-- ===== src/Uniqueidarray/Adding.antt =====
-- Adding ids to an array, and searching it then.
use mulle_objc_runtime.Prelude.{
  ℕ, zero, suc, ◌≡◌, ◌≢◌, refl, inl, inr, arith, Option, none, some, Bool, false, true, ◌||◌, List,
  [], ◌∷◌, ◌++◌, ◌==◌, get_elem?, count, leb, ap, ◌∙◌, sym, map_option, eq→==, Bool-cases,
  ne→==-false,
}
use mulle_objc_runtime.Search.{Sign}
use mulle_objc_runtime.Search.Sorted.{Sorted, Found, bsearch-Found}
use mulle_objc_runtime.Search.Sorting.{Sorts, count-Perm, compare_le}
use mulle_objc_runtime.Uniqueid.{uniqueid_compare}
use mulle_objc_runtime.Uniqueidarray.{Uniqueidarray, is_some, search_id, by_adding_ids, sort}

-- Whether the id is among the entries.
abbrev pub contains : ℕ → List ℕ → Bool
contains sought [] = false
contains sought (id ∷ ids) = id == sought || contains sought ids

contains-append :
    (sought : ℕ) (xs ys : List ℕ)
    → contains sought (xs ++ ys) ≡ (contains sought xs || contains sought ys)
contains-append sought [] ys = refl
contains-append sought (x ∷ xs) ys = ground (arith, contains-append sought xs ys)

contains-count :
    (sought : ℕ) (xs : List ℕ) → contains sought xs ≡ leb 1 (count (λ id. id == sought) xs)
contains-count sought [] = refl
contains-count sought (x ∷ xs) = elim (Bool-cases (x == sought)) [
  | inl hit ↦ rw hit (ground arith)
  | inr other ↦ rw other (contains-count sought xs ∙ ap (leb 1) (omega arith))
]

contains-position :
    (sought i : ℕ) (xs : List ℕ) → get_elem? xs i ≡ some sought → contains sought xs ≡ true
contains-position sought i [] at = cc
contains-position sought zero (x ∷ xs) at =
    let same : x ≡ sought = ap (λ o. elim o [ none ↦ 0 | some y ↦ y ]) at in
    rw (eq→== x sought same)
contains-position sought (suc i) (x ∷ xs) at = ground (arith, contains-position sought i xs at)

no_position :
    (sought : ℕ) (xs : List ℕ)
    → ((i p : ℕ) → get_elem? xs i ≡ some p → p ≢ sought)
    → contains sought xs ≡ false
no_position sought [] h = refl
no_position sought (x ∷ xs) h =
    rw (ne→==-false x sought (h 0 x refl)) (no_position sought xs (λ i p at. h (suc i) p at))

Found-contains :
    (sought : ℕ) (xs : List ℕ) (r : Option ℕ)
    → Found (λ id. id) xs sought r
    → is_some r ≡ contains sought xs
Found-contains sought xs none absent = sym (no_position sought xs absent)
Found-contains sought xs (some p) (i, at, e) = sym (contains-position sought i xs (at ∙ ap some e))

-- The array with ids added and sorted is searched in as many rounds as it has entries, and exactly
-- the old and the added ids are found, also if some of them are equal. Of the sort it is asked that
-- it permutes the ids and leaves none before a smaller one.
pub search_id-by_adding_ids :
    (qsort_r : (ℕ → ℕ → Sign) → List ℕ → List ℕ) (p : Uniqueidarray) (uniqueids : List ℕ)
    (sought : ℕ)
    → Sorts uniqueid_compare
        (p.entries ++ uniqueids)
        (qsort_r uniqueid_compare (p.entries ++ uniqueids))
    → search_id (by_adding_ids qsort_r p uniqueids true) sought
      ≡ some (contains sought p.entries || contains sought uniqueids)
unfolding search_id by_adding_ids sort uniqueid_compare
search_id-by_adding_ids qsort_r p uniqueids sought sorts =
    let all = p.entries ++ uniqueids in
    let entries = qsort_r uniqueid_compare all in
    let in_order : Sorted (λ id. id) entries =
      λ i j a b lt at at'. compare_le a b (sorts.ordered i j a b lt at at') in
    let (r, run, found) = bsearch-Found (λ id. id) entries sought in_order in
    let same : contains sought entries ≡ contains sought all =
      contains-count sought entries
      ∙ ap (leb 1) (sym (count-Perm (λ id. id == sought) sorts.permutes))
      ∙ sym (contains-count sought all) in
    ap (map_option is_some) run
    ∙ ap some
        (Found-contains sought entries r found ∙ same ∙ contains-append sought p.entries uniqueids)
