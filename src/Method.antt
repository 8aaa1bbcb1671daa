-- ===== src/Method.antt =====
-- Method descriptors and methods (src/mulle-objc-method.c and .h). A C string is the list of its
-- characters before the terminating NUL.
pub mod Compare
use mulle_objc_runtime.Prelude.{
  ℕ, zero, suc, ◌+◌, ◌-◌, ◌%◌, ◌^◌, Bool, true, false, Option, none, some, List, [], ◌∷◌, ltb, ◌==◌,
  if◌then◌else◌,
}
use mulle_objc_runtime.Search.{Sign, negative, equal, positive, compare_ids, bsearch}

pub record Descriptor : Type 0 where
  pub methodid : ℕ
  pub signature : List ℕ
  pub name : List ℕ
  pub bits : ℕ

-- `implementation` is 0 for NULL.
pub record Method : Type 0 where
  pub descriptor : Descriptor
  pub implementation : ℕ

abbrev pub methodid : Method → ℕ
methodid m = m.descriptor.methodid

-- strcmp of the C library
unfoldable pub strcmp : List ℕ → List ℕ → Sign
strcmp [] [] = equal
strcmp [] (c ∷ b) = negative
strcmp (c ∷ a) [] = positive
strcmp (c ∷ a) (d ∷ b) =
    let rest = strcmp a b in if ltb c d then negative else if c == d then rest else positive

-- `( diff < 0 ? -1 : ! ! diff)` of an int32_t
unfoldable pub sign_of_difference : ℕ → ℕ → Sign
sign_of_difference a b =
    let diff = (a + 2 ^ 32 - b) % 2 ^ 32 in
    if diff == 0 then equal else if ltb diff (2 ^ 31) then positive else negative

-- `if( cmp) return( cmp);` and what follows it
abbrev pub unless_zero : Sign → Sign → Sign
unless_zero negative rest = negative
unless_zero equal rest = rest
unless_zero positive rest = positive

-- _mulle_objc_descriptor_pointer_compare_r
unfoldable pub descriptor_compare : Descriptor → Descriptor → Sign
descriptor_compare a b =
    unless_zero (strcmp a.name b.name)
      (unless_zero (strcmp a.signature b.signature) (sign_of_difference a.bits b.bits))

-- _mulle_objc_method_compare_r
unfoldable pub method_compare : Method → Method → Sign
method_compare a b = compare_ids (methodid a) (methodid b)

-- _mulle_objc_method_bsearch
unfoldable pub method_bsearch : List Method → ℕ → ℕ → Option (Option Method)
method_bsearch buf n sought = bsearch methodid buf n sought

-- mulle_objc_method_sort; the sort is mulle_qsort_r.
unfoldable pub method_sort :
    ((Method → Method → Sign) → List Method → List Method) → List Method → List Method
method_sort qsort_r methods = qsort_r method_compare methods

-- mulle_objc_count_selector_arguments; NULL gives -1.
unfoldable pub count_colons : List ℕ → ℕ
count_colons [] = 0
count_colons (c ∷ s) = if c == 0x3a then count_colons s + 1 else count_colons s

unfoldable pub count_selector_arguments : Option (List ℕ) → ℕ
count_selector_arguments none = 2 ^ 32 - 1
count_selector_arguments (some s) = count_colons s
