-- ===== src/Signature/Compare.antt =====
-- Comparing type encodings: infos, the types of instance variables, the arguments of methods.
use mulle_objc_runtime.Prelude.{
  ℕ, zero, suc, ◌+◌, ◌-◌, ◌==◌, ltb, Bool, true, Option, none, some, List, [], ◌∷◌, if◌then◌else◌,
  length,
}
use mulle_objc_runtime.Signature.{Layout, Typeinfo}
use mulle_objc_runtime.Signature.Walk.{
  Supplied, supplied, no_type, failed, supply_typeinfo, dummy_supplier,
}

-- The sign of a comparison; `fault` for a run past the end of a text.
pub data Sign : Type 0 where
  less equal greater fault : Sign

-- `strncmp`, on bytes, where a text ends in a NUL.
unfoldable pub strncmp : ℕ → List ℕ → List ℕ → Sign
strncmp zero a b = equal
strncmp (suc n) [] [] = equal
strncmp (suc n) [] (d ∷ b) = less
strncmp (suc n) (c ∷ a) [] = greater
strncmp (suc n) (c ∷ a) (d ∷ b) =
    let rest = strncmp n a b in if ltb c d then less else if ltb d c then greater else rest

-- `a->pure_type_end - a->type`
unfoldable pub type_length : Typeinfo → ℕ
type_length info = elim (info.pure_type_end) [ none ↦ 0 | some end ↦ length info.type - length end ]

unfoldable pub or_sign : Sign → Sign → Sign
or_sign equal s = s
or_sign less s = less
or_sign greater s = greater
or_sign fault s = fault

unfoldable pub compare_lengths : ℕ → ℕ → Sign
compare_lengths m n = if m == n then equal else if ltb m n then less else greater

-- `_mulle_objc_typeinfo_compare`.
unfoldable pub typeinfo_compare : Typeinfo → Typeinfo → Sign
typeinfo_compare a b =
    let m = type_length a in
    let n = type_length b in
    or_sign (strncmp (if ltb m n then m else n) a.type b.type) (compare_lengths m n)

-- `if( ! a) return( b ? -1 : 0); if( ! b) return( 1);`, and what is done with two types.
unfoldable pub compare_supplied :
    Supplied → Supplied → (List ℕ → Option Typeinfo → List ℕ → Option Typeinfo → Sign) → Sign
compare_supplied no_type no_type k = equal
compare_supplied no_type (supplied b s j) k = less
compare_supplied (supplied a s i) no_type k = greater
compare_supplied (supplied a s i) (supplied b s' j) k = k a i b j
compare_supplied failed b k = fault
compare_supplied no_type failed k = fault
compare_supplied (supplied a s i) failed k = fault

unfoldable pub compare_infos : Option Typeinfo → Option Typeinfo → Sign
compare_infos (some i) (some j) = typeinfo_compare i j
compare_infos none j = fault
compare_infos (some i) none = fault

module _ (address_align : ℕ → ℕ → ℕ) where
  unfoldable pub supply : List ℕ → Supplied
  supply types = supply_typeinfo address_align types dummy_supplier true

  unfoldable pub ivarsignature_compare : List ℕ → List ℕ → Sign
  ivarsignature_compare a b =
      compare_supplied (supply a) (supply b) (λ a' i b' j. compare_infos i j)

  -- The loop of `_mulle_objc_methodsignature_compare_lenient`.
  unfoldable pub lenient_loop : ℕ → List ℕ → List ℕ → Sign
  lenient_loop zero a b = fault
  lenient_loop (suc f) a b =
      compare_supplied (supply a) (supply b)
        (λ a' i b' j. let rest = lenient_loop f a' b' in or_sign (compare_infos i j) rest)

  unfoldable pub methodsignature_compare_lenient : List ℕ → List ℕ → Sign
  methodsignature_compare_lenient a b =
      compare_supplied (supply a) (supply b) (λ a' i b' j. lenient_loop (length a' + 1) a' b')

  -- `mulle_objc_signature_contains_object` and `.._retainable_type`; -1 is `none`.
  unfoldable pub contains : (Layout → Bool) → List ℕ → Option Bool
  unfolding supply
  contains field [] = none
  contains field (c ∷ s) = elim (supply (c ∷ s)) [
    | supplied rest s' info? ↦ elim info? [ none ↦ none | some info ↦ some (field info.layout) ]
    | no_type ↦ none
    | failed ↦ none
  ]

  unfoldable pub contains_object : List ℕ → Option Bool
  unfolding contains
  contains_object = contains (λ l. l.has_object)

  unfoldable pub contains_retainable_type : List ℕ → Option Bool
  unfolding contains
  contains_retainable_type = contains (λ l. l.has_retainable_type)
