-- ===== src/Uniqueidarray.antt =====
-- Arrays of unique ids, which hold a class's categories, protocols and mixins
-- (src/mulle-objc-uniqueidarray.c and .h).
pub mod Adding
pub mod Finding
use mulle_objc_runtime.Prelude.{
  ℕ, zero, suc, ◌+◌, Bool, true, false, Option, none, some, List, [], ◌∷◌, ◌++◌, length, get_elem?,
  ltb, ◌==◌, if◌then◌else◌, map_option,
}
use mulle_objc_runtime.Search.{Sign, bsearch}
use mulle_objc_runtime.Uniqueid.{uniqueid_compare}

-- `n` is the length of `entries`. Nothing reads `autosort`.
pub record Uniqueidarray : Type 0 where
  pub autosort : ℕ
  pub entries : List ℕ

-- _mulle_objc_uniqueidarray_sort, with mulle_qsort_r
unfoldable pub sort : ((ℕ → ℕ → Sign) → List ℕ → List ℕ) → Uniqueidarray → Uniqueidarray
sort qsort_r p = record p { entries = qsort_r uniqueid_compare p.entries }

-- _mulle_objc_uniqueidarray_by_adding_ids; `calloc` clears the copy's `autosort`.
unfoldable pub by_adding_ids :
    ((ℕ → ℕ → Sign) → List ℕ → List ℕ) → Uniqueidarray → List ℕ → Bool → Uniqueidarray
by_adding_ids qsort_r p uniqueids sorts =
    let copy : Uniqueidarray = record { autosort = 0; entries = p.entries ++ uniqueids } in
    if sorts then sort qsort_r copy else copy

-- _mulle_objc_uniqueidarray_by_adding_uniqueidarray and _mulle_objc_uniqueidarray_by_adding_id
unfoldable pub by_adding_uniqueidarray :
    ((ℕ → ℕ → Sign) → List ℕ → List ℕ) → Uniqueidarray → Uniqueidarray → Bool → Uniqueidarray
by_adding_uniqueidarray qsort_r p q sorts = by_adding_ids qsort_r p q.entries sorts

unfoldable pub by_adding_id :
    ((ℕ → ℕ → Sign) → List ℕ → List ℕ) → Uniqueidarray → ℕ → Bool → Uniqueidarray
by_adding_id qsort_r p uniqueid sorts = by_adding_ids qsort_r p (uniqueid ∷ []) sorts

abbrev pub is_some : Option ℕ → Bool
is_some none = false
is_some (some id) = true

-- _mulle_objc_uniqueidarray_search, the binary search, which only says whether the id is there
unfoldable pub search_id : Uniqueidarray → ℕ → Option Bool
search_id array sought =
    map_option is_some (bsearch (λ id. id) array.entries (length array.entries) sought)

-- _mulle_objc_uniqueidarray_find: `p` is the position in the entries, which the loop does not
-- advance. `none` is a loop that did not end within the fuel.
unfoldable pub find_loop : ℕ → List ℕ → (p sought : ℕ) → Option Bool
find_loop zero entries p sought = none
find_loop (suc fuel) entries p sought = elim (ltb p (length entries)) [
  | false ↦ some false
  | true ↦ elim (get_elem? entries p) [
    | none ↦ none
    | some id ↦ elim (id == sought) [ true ↦ some true | false ↦ find_loop fuel entries p sought ]
  ]
]

unfoldable pub find : ℕ → Uniqueidarray → ℕ → Option Bool
find fuel array sought = find_loop fuel array.entries 0 sought
