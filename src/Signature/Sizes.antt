-- ===== src/Signature/Sizes.antt =====
-- mulle-objc-signature.c: the size and the alignment of the first type of a signature.
use mulle_objc_runtime.Prelude.{
  ℕ, ◌/◌, ◌%◌, ◌^◌, ◌≡◌, ◌∙◌, refl, Option, none, some, List, [], ◌∷◌, arith,
}
use mulle_objc_runtime.Signature.{supply_scalar_typeinfo}
use mulle_objc_runtime.Signature.Encode.{CType, layout}
use mulle_objc_runtime.Signature.Walk.{
  Supplied, supplied, no_type, failed, dummy_supplier, supply_typeinfo,
}
use mulle_objc_runtime.Signature.Parse.{parse_text, type_parse}
use mulle_objc_runtime.Signature.Compare.{supply}
use mulle_objc_runtime.Signature.Compares.{Sized}
use mulle_objc_runtime.Signature.Frames.{Types, text, IsSignature, supply-text}
use mulle_objc_runtime.Signature.Steps.{frame_start}

-- Where the next type starts, and the size and the alignment.
unfoldable pub size_and_alignment : Supplied → Option (List ℕ × ℕ × ℕ)
size_and_alignment (supplied next s (some info)) =
    some (next, info.layout.bits_size / 8 % 2 ^ 32, info.layout.natural_alignment)
size_and_alignment (supplied next s none) = none
size_and_alignment no_type = none
size_and_alignment failed = none

module _ (address_align : ℕ → ℕ → ℕ) where
  -- `mulle_objc_signature_supply_size_and_alignment` with both pointers. The result is `none` where
  -- it returns NULL, or runs into an assertion.
  unfoldable pub supply_size_and_alignment : List ℕ → Option (List ℕ × ℕ × ℕ)
  unfolding size_and_alignment supply
  supply_size_and_alignment [] = none
  supply_size_and_alignment (c ∷ types) = size_and_alignment (supply address_align (c ∷ types))

module _ (address_align : ℕ → ℕ → ℕ) (aligned_zero : (a : ℕ) → address_align 0 a ≡ 0) where
  supply_cons :
      (s : List ℕ)
      → supply_size_and_alignment address_align s ≡ size_and_alignment (supply address_align s)
  unfolding supply_size_and_alignment supply supply_typeinfo dummy_supplier parse_text type_parse
      supply_scalar_typeinfo size_and_alignment
  supply_cons [] = refl
  supply_cons (c ∷ s) = refl

  -- The size in bytes and the alignment of the first type are those that the parser reports, and
  -- the walk goes on with the second type.
  pub supply_size_and_alignment-text :
      (t : CType) (ds : List ℕ) (r : Types)
      → IsSignature ((t, ds) ∷ r)
      → Sized address_align aligned_zero t
      → supply_size_and_alignment address_align (text ((t, ds) ∷ r))
        ≡ some (
          text r,
          (layout address_align t).bits_size / 8 % 2 ^ 32,
          (layout address_align t).natural_alignment,
        )
  unfolding supply dummy_supplier size_and_alignment frame_start
  supply_size_and_alignment-text t ds r w fits =
      let zero_start = aligned_zero ((layout address_align t).bits_struct_alignment / 8) in
      let (info, e, a, b, c) =
        supply-text address_align aligned_zero 0 0 t ds r w fits.0
          (omega (arith, zero_start, fits.1)) in
      supply_cons (text ((t, ds) ∷ r)) ∙ rw (e, a) refl
