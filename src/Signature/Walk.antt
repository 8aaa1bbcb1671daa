-- ===== src/Signature/Walk.antt =====
-- From type to type through a signature: `_mulle_objc_signature_supply_typeinfo`, the enumerator
-- of mulle-objc-signature.h and what is computed with them.
use mathlib.Core.List.{tail}
use mulle_objc_runtime.Prelude.{
  ℕ, zero, suc, ◌+◌, ◌/◌, ◌%◌, ◌^◌, ◌==◌, Bool, false, ◌||◌, Option, none, some, List, [], ◌∷◌,
  if◌then◌else◌, length,
}
use mulle_objc_runtime.Signature.{Typeinfo, is_digit, char_at, skip_digits, supply_scalar_typeinfo}
use mulle_objc_runtime.Signature.Parse.{Parsed, parsed, malformed, trapped, out_of_fuel, parse_text}

-- The cursor, NULL, or a run past the terminating NUL or into a failed assertion.
pub data Cursor : Type 0 where
  at : List ℕ → Cursor
  null overrun : Cursor

-- `struct mulle_objc_signaturesupplier`, whose `invocation_offset` is `none` when it is -1. The
-- level is the C code's plus 1, and the supplier function is the default.
pub record Signaturesupplier : Type 0 where
  pub index : ℕ
  pub level : ℕ
  pub invocation_offset : Option ℕ

pub data Supplied : Type 0 where
  supplied : List ℕ → Signaturesupplier → Option Typeinfo → Supplied
  no_type failed : Supplied

-- The cursor behind the next `c`, if there is one.
unfoldable pub skip_past : ℕ → List ℕ → Option (List ℕ)
skip_past c [] = none
skip_past c (x ∷ s) = if x == c then some s else skip_past c s

unfoldable pub skip_char : ℕ → List ℕ → List ℕ
unfolding char_at
skip_char c s = if char_at s == c then tail s else s

-- The sign and the digits of an offset.
unfoldable pub skip_offset : List ℕ → List ℕ
unfolding skip_char skip_digits
skip_offset s = skip_digits (skip_char b'+' (skip_char b'-' s))

unfoldable pub skip_block : List ℕ → Cursor
unfolding skip_past char_at
skip_block s =
    if char_at s == b'<'
    then elim (skip_past b'>' (tail s)) [ none ↦ null | some r ↦ at r ]
    else at s

-- `while( *++next != '"'); ++next`
unfoldable pub skip_quoted : List ℕ → Cursor
unfolding skip_past char_at
skip_quoted s =
    if char_at s == b'"'
    then elim (skip_past b'"' (tail s)) [ none ↦ overrun | some r ↦ at r ]
    else at s

unfoldable pub dummy_supplier : Signaturesupplier
dummy_supplier = record { index = 0; level = 1; invocation_offset = some 0 }

abbrev pub alignof_long_double : ℕ
alignof_long_double = 16

-- `_mulle_objc_signature_skip_extendedtypeinfo`. In the loops for `<` and `"`, which look for the
-- byte `q`, the cursor goes behind that byte, and then the outer loop moves it once more.
unfoldable pub skip_extended : Option ℕ → List ℕ → Cursor
unfolding is_digit
skip_extended none [] = at []
skip_extended none (c ∷ s) =
    if c == b'<'
    then skip_extended (some b'>') s
    else if c == b'"'
    then skip_extended (some b'"') s
    else if c == b'-' || c == b'+' || is_digit c
    then skip_extended none s
    else at (c ∷ s)
skip_extended (some q) [] = null
skip_extended (some q) (c ∷ []) = if c == q then overrun else null
skip_extended (some q) (c ∷ x ∷ s) =
    if c == q then skip_extended none s else skip_extended (some q) (x ∷ s)

unfoldable pub with_name : List ℕ → Option Typeinfo → Option Typeinfo
unfolding char_at
with_name s none = none
with_name s (some info) =
    if char_at s == b'"' then some (record info { name = some s }) else some info

unfoldable pub with_end : List ℕ → Option Typeinfo → Option Typeinfo
with_end s none = none
with_end s (some info) = some (record info { pure_type_end = some s })

unfoldable pub skip_parsed : Parsed → Cursor
unfolding skip_extended
skip_parsed (parsed next info) = skip_extended none next
skip_parsed malformed = null
skip_parsed trapped = overrun
skip_parsed out_of_fuel = overrun

module _ (address_align : ℕ → ℕ → ℕ) where
  -- `_mulle_objc_signature_supply_typeinfo` behind the offset.
  unfoldable pub supply_offset : List ℕ → Signaturesupplier → Option Typeinfo → Supplied
  supply_offset next supplier none =
      supplied next (record supplier { invocation_offset = none }) none
  supply_offset next supplier (some info) = elim (supplier.invocation_offset) [
    | none ↦ failed
    | some offset ↦
        let start =
          address_align offset (
            if supplier.index == 2
            then alignof_long_double
            else info.layout.bits_struct_alignment / 8)
          % 2 ^ 32 in
        supplied next
          (record supplier {
            invocation_offset = some ((start + info.layout.natural_size) % 2 ^ 32);
          })
          (some (record info { invocation_offset = start }))
  ]

  unfoldable pub supply_name : Signaturesupplier → Option Typeinfo → List ℕ → Cursor → Supplied
  unfolding supply_offset
  supply_name supplier info next null = no_type
  supply_name supplier info next overrun = failed
  supply_name supplier info next (at s) = supply_offset (skip_offset s) supplier info

  unfoldable pub supply_behind : Signaturesupplier → Option Typeinfo → Cursor → Supplied
  unfolding supply_name
  supply_behind supplier info null = no_type
  supply_behind supplier info overrun = failed
  supply_behind supplier info (at s) = supply_name supplier (with_name s info) s (skip_quoted s)

  unfoldable pub supply_parsed : Signaturesupplier → Parsed → Supplied
  unfolding supply_behind with_end
  supply_parsed supplier malformed = no_type
  supply_parsed supplier trapped = failed
  supply_parsed supplier out_of_fuel = failed
  supply_parsed supplier (parsed next info) =
      supply_behind supplier (with_end next info) (skip_block next)

  unfoldable pub supply_typeinfo : List ℕ → Signaturesupplier → Bool → Supplied
  unfolding supply_parsed
  supply_typeinfo types supplier want =
      supply_parsed supplier
        (parse_text address_align supply_scalar_typeinfo supplier.level want types)

  unfoldable pub next_type : List ℕ → Cursor
  unfolding skip_parsed
  next_type [] = null
  next_type (c ∷ s) = skip_parsed (parse_text address_align supply_scalar_typeinfo 0 false (c ∷ s))

  -- `mulle_objc_signature_count_typeinfos`; `none` for an overrun, or when the fuel is used up.
  unfoldable pub count_loop : ℕ → ℕ → List ℕ → Option ℕ
  count_loop zero n types = none
  count_loop (suc f) n types = elim (next_type types) [
    | at next ↦ count_loop f (n + 1) next
    | null ↦ some n
    | overrun ↦ none
  ]

  unfoldable pub count_typeinfos : List ℕ → Option ℕ
  unfolding count_loop
  count_typeinfos types = count_loop (length types + 1) 0 types
