-- ===== src/Methodlist.antt =====
-- Method lists (src/mulle-objc-methodlist.c and .h).
pub mod Laws
use mulle_objc_runtime.Prelude.{
  ℕ, ◌+◌, Bool, true, false, Option, none, some, List, [], ◌∷◌, length, leb, ◌==◌, if◌then◌else◌,
}
use mulle_objc_runtime.Search.{Sign, next}
use mulle_objc_runtime.Search as Search
use mulle_objc_runtime.Method.{Method, methodid, method_bsearch, method_sort}

pub record Category : Type 0 where
  pub categoryid : ℕ
  pub categoryname : List ℕ
  pub origin : List ℕ

-- `n_methods` is the length of `methods`.
pub record Methodlist : Type 0 where
  pub loadcategory : Option Category
  pub methods : List Method

-- _mulle_objc_methodlist_get_count
unfoldable pub get_count : Methodlist → ℕ
get_count list = length list.methods

-- _mulle_objc_methodlist_find
unfoldable pub find : Methodlist → ℕ → Option Method
find list id = Search.find (λ p. methodid p == id) list.methods

-- _mulle_objc_methodlist_binary_search
unfoldable pub binary_search : Methodlist → ℕ → Option (Option Method)
binary_search list id = method_bsearch list.methods (get_count list) id

-- _mulle_objc_methodlist_search
unfoldable pub search_method : Methodlist → ℕ → Option (Option Method)
search_method list id =
    if leb 14 (get_count list) then binary_search list id else some (find list id)

-- _mulle_objc_methodlist_linear_impsearch, which is also _mulle_objc_methodlist_impsearch
unfoldable pub linear_impsearch : Methodlist → ℕ → Option Method
linear_impsearch list imp = Search.find (λ p. p.implementation == imp) list.methods

-- _mulle_objc_methodlist_walk; the callback also gets the list.
unfoldable pub walk {ℓ} : {S : Type ℓ} → (Method → Methodlist → S → S × ℕ) → Methodlist → S → S × ℕ
walk callback list s = Search.walk (λ p. callback p list) list.methods s

-- _mulle_objc_methodlist_enumerate
unfoldable pub enumerate : Methodlist → List Method
enumerate list = list.methods

-- mulle_objc_methodlist_sort; NULL is left alone.
unfoldable pub sort :
    ((Method → Method → Sign) → List Method → List Method) → Option Methodlist → Option Methodlist
sort qsort_r none = none
sort qsort_r (some list) = some (record list { methods = method_sort qsort_r list.methods })

-- _mulle_objc_methodlist_get_categoryid, which is 0 for a list that no category loaded
unfoldable pub get_categoryid : Methodlist → ℕ
get_categoryid list = elim list.loadcategory [ none ↦ 0 | some category ↦ category.categoryid ]

-- _mulle_objc_methodlist_get_categoryname
unfoldable pub get_categoryname : Methodlist → Option (List ℕ)
get_categoryname list = elim list.loadcategory [
  | none ↦ none
  | some category ↦ some category.categoryname
]

-- _mulle_objc_methodlist_get_categoryorigin
unfoldable pub get_categoryorigin : Methodlist → Option (List ℕ)
get_categoryorigin list = elim list.loadcategory [
  | none ↦ none
  | some category ↦ some category.origin
]
