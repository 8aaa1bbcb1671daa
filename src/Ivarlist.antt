-- ===== src/Ivarlist.antt =====
-- Instance variables and their lists (src/mulle-objc-ivar.c and src/mulle-objc-ivarlist.c, .h).
pub mod Laws
use mulle_objc_runtime.Prelude.{ℕ, ◌+◌, Option, none, some, List, length, leb, ◌==◌, if◌then◌else◌}
use mulle_objc_runtime.Search.{Sign, compare_ids, bsearch}
use mulle_objc_runtime.Search as Search

pub record Ivar : Type 0 where
  pub ivarid : ℕ
  pub name : List ℕ
  pub signature : List ℕ
  pub offset : ℕ

-- `n_ivars` is the length.
pub record Ivarlist : Type 0 where
  pub ivars : List Ivar

abbrev pub ivarid : Ivar → ℕ
ivarid p = p.ivarid

-- _mulle_objc_ivar_bsearch
unfoldable pub ivar_bsearch : List Ivar → ℕ → ℕ → Option (Option Ivar)
ivar_bsearch buf n sought = bsearch ivarid buf n sought

-- _mulle_objc_ivar_compare_r
unfoldable pub ivar_compare : Ivar → Ivar → Sign
ivar_compare a b = compare_ids (ivarid a) (ivarid b)

-- mulle_objc_ivar_sort, with mulle_qsort_r
unfoldable pub ivar_sort : ((Ivar → Ivar → Sign) → List Ivar → List Ivar) → List Ivar → List Ivar
ivar_sort qsort_r ivars = qsort_r ivar_compare ivars

-- _mulle_objc_ivarlist_find
unfoldable pub find : Ivarlist → ℕ → Option Ivar
find list id = Search.find (λ p. ivarid p == id) list.ivars

-- _mulle_objc_ivarlist_search and _mulle_objc_ivarlist_search_smart
unfoldable pub search_smart : Ivarlist → ℕ → Option (Option Ivar)
search_smart list id =
    if leb 14 (length list.ivars)
    then ivar_bsearch list.ivars (length list.ivars) id
    else some (find list id)

-- mulle_objc_ivarlist_sort; NULL is left alone.
unfoldable pub sort :
    ((Ivar → Ivar → Sign) → List Ivar → List Ivar) → Option Ivarlist → Option Ivarlist
sort qsort_r none = none
sort qsort_r (some list) = some (record { ivars = ivar_sort qsort_r list.ivars })

-- _mulle_objc_ivarlist_walk
unfoldable pub walk {ℓ} : {S : Type ℓ} → (Ivar → S → S × ℕ) → Ivarlist → S → S × ℕ
walk f list s = Search.walk f list.ivars s
