-- ===== src/Propertylist/Laws.antt =====
-- Searching sorted property lists.
use mulle_objc_runtime.Prelude.{ℕ, ◌≡◌, inl, inr, some, List, leb, length, Bool-cases}
use mulle_objc_runtime.Search.{Sign}
use mulle_objc_runtime.Search.Sorting.{AtMostOnce, Sorts, bsearch-sorted}
use mulle_objc_runtime.Propertylist.{
  Property, Propertylist, find, search_smart, propertyid, property_compare, property_bsearch,
  property_sort,
}

-- Once a list of properties with different ids is sorted, the search of it, binary from 14 entries on,
-- ends and returns what a linear search of the unsorted list returns. Of the sort it is asked that
-- it permutes the properties and leaves none before a smaller one.
pub search_smart-sort_property :
    (qsort : (Property → Property → Sign) → List Property → List Property) (list : Propertylist)
    (id : ℕ)
    → AtMostOnce propertyid list.properties
    → Sorts property_compare list.properties (qsort property_compare list.properties)
    → search_smart (record { properties = property_sort qsort list.properties }) id
      ≡ some (find list id)
unfolding property_sort search_smart find property_bsearch property_compare
search_smart-sort_property qsort list id once sorts =
    let sorted = qsort property_compare list.properties in
    let (binary, linear) = bsearch-sorted propertyid list.properties sorted id once sorts in
    elim (Bool-cases (leb 14 (length sorted))) [
      | inl many ↦ rw (many, binary)
      | inr few ↦ rw (few, linear)
    ]
