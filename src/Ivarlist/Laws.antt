-- ===== src/Ivarlist/Laws.antt =====
-- Searching sorted ivar lists.
use mulle_objc_runtime.Prelude.{ℕ, ◌≡◌, inl, inr, some, List, leb, length, map_option, Bool-cases}
use mulle_objc_runtime.Search.{Sign}
use mulle_objc_runtime.Search.Sorting.{AtMostOnce, Sorts, bsearch-sorted}
use mulle_objc_runtime.Ivarlist.{
  Ivar, Ivarlist, find, search_smart, ivarid, ivar_compare, ivar_bsearch, ivar_sort, sort,
}

-- Once a list of ivars with different ids is sorted, the search of it, binary from 14 entries on,
-- ends and returns what a linear search of the unsorted list returns. Of the sort it is asked that
-- it permutes the ivars and leaves none before a smaller one.
pub search_smart-sort_ivar :
    (qsort : (Ivar → Ivar → Sign) → List Ivar → List Ivar) (list : Ivarlist) (id : ℕ)
    → AtMostOnce ivarid list.ivars
    → Sorts ivar_compare list.ivars (qsort ivar_compare list.ivars)
    → map_option (λ l. search_smart l id) (sort qsort (some list)) ≡ some (some (find list id))
unfolding sort ivar_sort search_smart find ivar_bsearch ivar_compare
search_smart-sort_ivar qsort list id once sorts =
    let sorted = qsort ivar_compare list.ivars in
    let (binary, linear) = bsearch-sorted ivarid list.ivars sorted id once sorts in
    elim (Bool-cases (leb 14 (length sorted))) [
      | inl many ↦ rw (many, binary)
      | inr few ↦ rw (few, linear)
    ]
