-- ===== src/Propertylist.antt =====
-- Properties and their lists (src/mulle-objc-property.c, .h and src/mulle-objc-propertylist.c, .h).
pub mod Laws
pub mod Signatures
use mulle_objc_runtime.Prelude.{
  ℕ, ◌+◌, Bool, ◌||◌, ◌&&◌, Option, none, some, List, [], ◌∷◌, length, leb, ◌==◌, if◌then◌else◌,
}
use mulle_objc_runtime.Search.{Sign, compare_ids, bsearch}
use mulle_objc_runtime.Search as Search

pub record Property : Type 0 where
  pub propertyid : ℕ
  pub ivarid : ℕ
  pub name : List ℕ
  pub signature : List ℕ
  pub getter : ℕ
  pub setter : ℕ
  pub adder : ℕ
  pub remover : ℕ
  pub bits : ℕ

-- `n_properties` is the length.
pub record Propertylist : Type 0 where
  pub properties : List Property

abbrev pub propertyid : Property → ℕ
propertyid p = p.propertyid

-- _mulle_objc_property_bsearch
unfoldable pub property_bsearch : List Property → ℕ → ℕ → Option (Option Property)
property_bsearch buf n sought = bsearch propertyid buf n sought

-- _mulle_objc_property_compare
unfoldable pub property_compare : Property → Property → Sign
property_compare a b = compare_ids (propertyid a) (propertyid b)

-- mulle_objc_property_sort, with mulle_qsort
unfoldable pub property_sort :
    ((Property → Property → Sign) → List Property → List Property) → List Property → List Property
property_sort qsort properties = qsort property_compare properties

-- _mulle_objc_propertylist_find
unfoldable pub find : Propertylist → ℕ → Option Property
find list id = Search.find (λ p. propertyid p == id) list.properties

-- _mulle_objc_propertylist_search and _mulle_objc_propertylist_search_smart
unfoldable pub search_smart : Propertylist → ℕ → Option (Option Property)
search_smart list id =
    if leb 14 (length list.properties)
    then property_bsearch list.properties (length list.properties) id
    else some (find list id)

-- _mulle_objc_propertylist_find_for_methodid
unfoldable pub find_for_methodid : Propertylist → ℕ → Option Property
find_for_methodid list id =
    Search.find (λ p. p.getter == id || p.setter == id || p.adder == id || p.remover == id)
      list.properties

-- _mulle_objc_propertylist_walk
unfoldable pub walk {ℓ} : {S : Type ℓ} → (Property → S → S × ℕ) → Propertylist → S → S × ℕ
walk f list s = Search.walk f list.properties s

-- The character that a pointer into a string points at, NUL at its end.
abbrev pub char_at : List ℕ → ℕ
char_at [] = 0
char_at (c ∷ s) = c

-- strchr of the C library finds the terminating NUL, too.
unfoldable pub strchr : List ℕ → ℕ → Bool
strchr [] c = c == 0
strchr (d ∷ s) c = d == c || strchr s c

-- _mulle_objc_property_signature_find_type, on the signature. The result is the rest of the string.
unfoldable pub signature_find_type : List ℕ → ℕ → Option (List ℕ)
signature_find_type [] type = none
signature_find_type (c ∷ s) type =
    if c == 0x2c && char_at s == type then some s else signature_find_type s type

-- _mulle_objc_propertysignature_next_types
unfoldable pub next_types : List ℕ → List ℕ → Option (List ℕ)
next_types [] types = none
next_types (c ∷ s) types =
    if c == 0x2c && strchr types (char_at s) then some s else next_types s types
