-- ===== src/Load/Strings.antt =====
-- mulle-objc-load.c: the table of strings by their hashes that a file brings along.
use mulle_objc_runtime.Prelude.{ℕ, ◌≡◌, ap, Option, some, List, length, map_option, ◌==◌}
use mulle_objc_runtime.Search.{Sign, compare_ids, bsearch}
use mulle_objc_runtime.Search as Search
use mulle_objc_runtime.Search.Sorting.{AtMostOnce, Sorts, bsearch-sorted}

pub record Hashedstring : Type 0 where
  pub uniqueid : ℕ
  pub string : List ℕ

abbrev pub uniqueid : Hashedstring → ℕ
uniqueid p = p.uniqueid

abbrev pub string : Hashedstring → List ℕ
string p = p.string

-- `_mulle_objc_loadhashedstring_bsearch`
unfoldable pub hashedstring_bsearch : List Hashedstring → ℕ → ℕ → Option (Option (List ℕ))
hashedstring_bsearch buf n sought = map_option (map_option string) (bsearch uniqueid buf n sought)

-- `_mulle_objc_loadhashedstring_find`
unfoldable pub hashedstring_find : List Hashedstring → ℕ → Option (List ℕ)
hashedstring_find buf sought = map_option string (Search.find (λ p. uniqueid p == sought) buf)

-- `_mulle_objc_loadhashedstring_compare_r`
unfoldable pub hashedstring_compare : Hashedstring → Hashedstring → Sign
hashedstring_compare a b = compare_ids (uniqueid a) (uniqueid b)

-- `mulle_objc_loadhashedstring_sort`, with mulle_qsort_r
unfoldable pub hashedstring_sort :
    ((Hashedstring → Hashedstring → Sign) → List Hashedstring → List Hashedstring)
    → List Hashedstring
    → List Hashedstring
hashedstring_sort qsort buf = qsort hashedstring_compare buf

-- The binary search of the sorted table ends and finds what a linear search of the unsorted one
-- finds.
pub hashedstring_bsearch-sort :
    (qsort : (Hashedstring → Hashedstring → Sign) → List Hashedstring → List Hashedstring)
    (buf : List Hashedstring) (id : ℕ)
    → AtMostOnce uniqueid buf
    → Sorts hashedstring_compare buf (qsort hashedstring_compare buf)
    → hashedstring_bsearch (hashedstring_sort qsort buf) (length (hashedstring_sort qsort buf)) id
      ≡ some (hashedstring_find buf id)
unfolding hashedstring_bsearch hashedstring_find hashedstring_compare hashedstring_sort
hashedstring_bsearch-sort qsort buf id once sorts =
    let sorted = qsort hashedstring_compare buf in
    let (binary, linear) = bsearch-sorted uniqueid buf sorted id once sorts in
    ap (map_option (map_option string)) binary
