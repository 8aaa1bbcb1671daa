-- ===== src/Protocollist/Laws.antt =====
-- Searching sorted protocol lists.
use mulle_objc_runtime.Prelude.{ℕ, ◌≡◌, inl, inr, some, List, leb, length, map_option, Bool-cases}
use mulle_objc_runtime.Search.{Sign}
use mulle_objc_runtime.Search.Sorting.{AtMostOnce, Sorts, bsearch-sorted}
use mulle_objc_runtime.Protocollist.{
  Protocol, Protocollist, find, search_smart, protocolid, protocol_compare, protocol_bsearch,
  protocol_sort, sort,
}

-- Once a list of protocols with different ids is sorted, the search of it, binary from 14 entries on,
-- ends and returns what a linear search of the unsorted list returns. Of the sort it is asked that
-- it permutes the protocols and leaves none before a smaller one.
pub search_smart-sort_protocol :
    (qsort : (Protocol → Protocol → Sign) → List Protocol → List Protocol) (list : Protocollist)
    (id : ℕ)
    → AtMostOnce protocolid list.protocols
    → Sorts protocol_compare list.protocols (qsort protocol_compare list.protocols)
    → map_option (λ l. search_smart l id) (sort qsort (some list)) ≡ some (some (find list id))
unfolding sort protocol_sort search_smart find protocol_bsearch protocol_compare
search_smart-sort_protocol qsort list id once sorts =
    let sorted = qsort protocol_compare list.protocols in
    let (binary, linear) = bsearch-sorted protocolid list.protocols sorted id once sorts in
    elim (Bool-cases (leb 14 (length sorted))) [
      | inl many ↦ rw (many, binary)
      | inr few ↦ rw (few, linear)
    ]
