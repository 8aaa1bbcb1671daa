-- ===== src/Methodlist/Laws.antt =====
-- Searching and walking method lists.
use mulle_objc_runtime.Prelude.{
  map_option, ℕ, ◌≡◌, inl, inr, some, List, ◌∷◌, ◌++◌, ◌≢◌, leb, length, ap, ◌∙◌, Bool-cases,
}
use mulle_objc_runtime.Search.{Sign, next}
use mulle_objc_runtime.Search as Search
use mulle_objc_runtime.Search.Sorting.{AtMostOnce, Sorts, bsearch-sorted}
use mulle_objc_runtime.Search.Walks.{run, Continues, walk-stops}
use mulle_objc_runtime.Method.{Method, methodid, method_bsearch, method_compare, method_sort}
use mulle_objc_runtime.Methodlist.{
  Methodlist, find, search_method, binary_search, get_count, sort, walk,
}

-- Once a list of methods with different methodids is sorted, the search that the runtime uses,
-- binary from 14 methods on, ends and returns what a linear search of the unsorted list returns.
-- Of the sort it is asked that it permutes the methods and leaves none before a smaller one.
pub search_method-sorted :
    (qsort_r : (Method → Method → Sign) → List Method → List Method) (list : Methodlist) (id : ℕ)
    → AtMostOnce methodid list.methods
    → Sorts method_compare list.methods (qsort_r method_compare list.methods)
    → map_option (λ l. search_method l id) (sort qsort_r (some list)) ≡ some (some (find list id))
unfolding sort method_sort search_method binary_search find get_count method_bsearch method_compare
search_method-sorted qsort_r list id once sorts =
    let methods = qsort_r method_compare list.methods in
    let (binary, linear) = bsearch-sorted methodid list.methods methods id once sorts in
    elim (Bool-cases (leb 14 (length methods))) [
      | inl many ↦ rw (many, binary)
      | inr few ↦ rw (few, linear)
    ]

-- A walk calls the callback on the methods in order, hands on what it changed, and ends with the
-- first command that is not 0, which it returns.
pub walk-run {ℓ} :
    {S : Type ℓ} (callback : Method → Methodlist → S → S × ℕ) (list : Methodlist)
    (before : List Method) (p : Method) (after : List Method) (s : S)
    → list.methods ≡ before ++ p ∷ after
    → Continues (λ m. callback m list) before s
    → (callback p list (run (λ m. callback m list) before s)).1 ≢ 0
    → walk callback list s ≡ callback p list (run (λ m. callback m list) before s)
unfolding walk
walk-run callback list before p after s e continues stops =
    ap (λ l. Search.walk (λ m. callback m list) l s) e
    ∙ walk-stops (λ m. callback m list) before p after s continues stops
