-- ===== src/Signature/Enumerator.antt =====
-- The signature enumerator of mulle-objc-signature.h, and what mulle-objc-signature.c computes with
-- it: the frame of an invocation and the size of a metaABI block.
use mulle_objc_runtime.Prelude.{
  ℕ, zero, suc, ◌+◌, ◌-◌, ◌*◌, ◌/◌, ◌%◌, ◌^◌, ltb, true, false, Option, none, some, List, [], ◌∷◌,
  length, set, to_nat,
}
use mulle_objc_runtime.Signature.{Typeinfo}
use mulle_objc_runtime.Signature.Walk.{
  Signaturesupplier, Supplied, supplied, no_type, failed, supply_typeinfo, dummy_supplier,
}

-- `struct mulle_objc_signatureenumerator`.
pub record Signatureenumerator : Type 0 where
  pub types : Option (List ℕ)
  pub supplier : Signaturesupplier
  pub rval : Option Typeinfo

-- What a call of the enumerator does: it ends, it yields an info (or one that was not filled in,
-- for a malformed type), or it runs past the end of the text.
pub data Yield : Type 0 where
  done : Yield
  yields : Signatureenumerator → Option Typeinfo → Yield
  fails : Yield

-- `struct mulle_methodsignature_arginfo`.
pub record Arginfo : Type 0 where
  pub invocation_offset : ℕ
  pub natural_size : ℕ
  pub type_offset : ℕ
  pub natural_alignment : ℕ
  pub has_retainable_type : ℕ

-- `rover.types = (rover.types && *rover.types) ? rover.types : NULL`
unfoldable pub nonempty : List ℕ → Option (List ℕ)
nonempty [] = none
nonempty (c ∷ s) = some (c ∷ s)

-- A zeroed enumerator has the level 0, 1 in this model.
unfoldable pub start_supplier : Signaturesupplier
start_supplier = record { index = 0; level = 1; invocation_offset = some 0 }

unfoldable pub enumerate_from : Supplied → Yield
unfolding nonempty start_supplier
enumerate_from (supplied rest s info) =
    yields (record { types = nonempty rest; supplier = start_supplier; rval = info }) info
enumerate_from no_type =
    yields (record { types = none; supplier = start_supplier; rval = none }) none
enumerate_from failed = fails

unfoldable pub next_from : Signatureenumerator → Supplied → Yield
unfolding nonempty
next_from rover (supplied rest s info) =
    yields (record rover { types = nonempty rest; supplier = record s { index = s.index + 1 } })
      info
next_from rover no_type =
    yields
      (record rover {
        types = none;
        supplier = record (rover.supplier) { index = rover.supplier.index + 1 };
      })
      none
next_from rover failed = fails

unfoldable pub arginfo : List ℕ → Typeinfo → Arginfo
arginfo types info = record {
  invocation_offset = info.invocation_offset % 2 ^ 32;
  natural_size = info.layout.natural_size % 2 ^ 32;
  type_offset = (length types - length info.type) % 2 ^ 16;
  natural_alignment = info.layout.natural_alignment % 2 ^ 8;
  has_retainable_type = to_nat info.layout.has_retainable_type;
}

module _ (address_align : ℕ → ℕ → ℕ) where
  -- `mulle_objc_signature_enumerate`.
  unfoldable pub enumerate : List ℕ → Yield
  unfolding enumerate_from dummy_supplier start_supplier
  enumerate [] = yields (record { types = none; supplier = start_supplier; rval = none }) none
  enumerate (c ∷ s) = enumerate_from (supply_typeinfo address_align (c ∷ s) dummy_supplier true)

  -- `_mulle_objc_signatureenumerator_next`.
  unfoldable pub enumerator_next : Signatureenumerator → Yield
  unfolding next_from
  enumerator_next rover = elim (rover.types) [
    | none ↦ done
    | some types ↦ next_from rover (supply_typeinfo address_align types rover.supplier true)
  ]

  -- `_mulle_objc_signatureenumerator_rval`, where the offset is asserted not to be -1.
  unfoldable pub enumerator_rval : Signatureenumerator → Option Typeinfo
  enumerator_rval rover = elim (rover.supplier.invocation_offset) [
    | none ↦ none
    | some offset ↦ elim (rover.rval) [
      | none ↦ none
      | some info ↦ some (record info { invocation_offset = offset })
    ]
  ]

  -- The loop of `mulle_objc_signature_fill_arginfos` for the entry `p` of `infos`. The result is
  -- `none` where an assertion fails, an info was not filled in, or the text was overrun.
  unfoldable pub fill_loop :
      ℕ → List ℕ → ℕ → Signatureenumerator → List Arginfo → Option (List Arginfo)
  fill_loop zero types p rover infos = none
  fill_loop (suc f) types p rover infos = elim (enumerator_next rover) [
    | done ↦ elim (enumerator_rval rover) [
      | none ↦ none
      | some info ↦ some (set infos 0 (arginfo types info))
    ]
    | yields rover' info? ↦ elim info? [
      | none ↦ none
      | some info ↦ elim (ltb p (length infos)) [
        | false ↦ none
        | true ↦ fill_loop f types (p + 1) rover' (set infos p (arginfo types info))
      ]
    ]
    | fails ↦ none
  ]

  unfoldable pub fill_from : List ℕ → List Arginfo → Yield → Option (List Arginfo)
  unfolding fill_loop
  fill_from types infos done = none
  fill_from types infos fails = none
  fill_from types infos (yields rover info) = fill_loop (length types + 1) types 1 rover infos

  unfoldable pub fill_arginfos : List ℕ → List Arginfo → Option (List Arginfo)
  unfolding fill_from
  fill_arginfos types [] = some []
  fill_arginfos [] (i ∷ infos) = some (i ∷ infos)
  fill_arginfos (c ∷ s) (i ∷ infos) = fill_from (c ∷ s) (i ∷ infos) (enumerate (c ∷ s))

  -- The calls of `_mulle_objc_signature_sizeof_metaabistruct`, until the types end.
  unfoldable pub exhaust : ℕ → Signatureenumerator → Option Signatureenumerator
  unfolding enumerator_next
  exhaust zero rover = none
  exhaust (suc f) rover = elim (enumerator_next rover) [
    | done ↦ some rover
    | yields rover' info ↦ exhaust f rover'
    | fails ↦ none
  ]

  -- `mulle_metaabi_sizeof_union`: a multiple of five pointers.
  unfoldable pub sizeof_union : ℕ → ℕ
  sizeof_union size = 40 * ((size + 40 - 1) / 40)

  unfoldable pub sizeof_metaabistruct : List ℕ → Option ℕ
  unfolding exhaust enumerate sizeof_union enumerator_rval
  sizeof_metaabistruct types = elim (enumerate types) [
    | done ↦ none
    | fails ↦ none
    | yields rover info ↦ elim (exhaust (length types + 1) rover) [
      | none ↦ none
      | some end ↦ elim (enumerator_rval end) [
        | none ↦ none
        | some rval ↦ some (sizeof_union (rval.invocation_offset + rval.layout.natural_size))
      ]
    ]
  ]
