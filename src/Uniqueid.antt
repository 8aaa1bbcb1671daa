-- ===== src/Uniqueid.antt =====
-- Unique ids, the 32-bit hashes of names (src/mulle-objc-uniqueid.c and .h).
pub mod Rotation
use Prim.Native.Nat.{bit_or}
use mulle_objc_runtime.Prelude.{
  ℕ, zero, suc, ◌+◌, ◌-◌, ◌*◌, ◌/◌, ◌%◌, ◌^◌, Bool, true, false, ◌||◌, Option, none, some, List, [],
  ◌∷◌, length, ltb, ◌==◌, if◌then◌else◌,
}
use mulle_objc_runtime.Search.{Sign, compare_ids}

-- MULLE_OBJC_NO_UNIQUEID and MULLE_OBJC_INVALID_UNIQUEID
abbrev pub no_uniqueid : ℕ
no_uniqueid = 0

abbrev pub invalid_uniqueid : ℕ
invalid_uniqueid = 2 ^ 32 - 1

-- mulle_objc_uniqueid_is_sane
unfoldable pub is_sane : ℕ → Bool
is_sane uniqueid = if uniqueid == no_uniqueid || uniqueid == invalid_uniqueid then false else true

-- `(value << 4) | (value >> 28)` on uint32_t
unfoldable pub rotate : ℕ → ℕ
rotate value = bit_or (value * 2 ^ 4 % 2 ^ 32) (value / 2 ^ 28)

-- A result and whether `errno` was set to EINVAL.
pub record Result : Type 0 where
  pub value : ℕ
  pub einval : Bool

-- mulle_objc_uniqueid_from_string; the hash is _mulle_fnv1a_32, of a string that is not empty.
unfoldable pub from_string : (List ℕ → ℕ) → Option (List ℕ) → Result
from_string fnv1a none = record { value = invalid_uniqueid; einval = true }
from_string fnv1a (some []) = record { value = invalid_uniqueid; einval = true }
from_string fnv1a (some (c ∷ s)) =
    let value = rotate (fnv1a (c ∷ s)) in
    record { value = if value == no_uniqueid then invalid_uniqueid else value; einval = false }

-- mulle_objc_uniqueid_is_sane_string of a build without DEBUG, which leaves the string alone.
unfoldable pub is_sane_string : ℕ → Result
is_sane_string uniqueid =
    if is_sane uniqueid
    then record { value = 1; einval = false }
    else record { value = 0; einval = true }

-- _mulle_objc_uniqueid_arraycount; the array ends with 0, and may be NULL. `none`: it has no 0.
unfoldable pub count_to_zero : List ℕ → Option ℕ
count_to_zero [] = none
count_to_zero (id ∷ ids) =
    let rest = count_to_zero ids in
    if id == 0 then some 0 else elim rest [ none ↦ none | some n ↦ some (n + 1) ]

unfoldable pub arraycount : Option (List ℕ) → Option ℕ
arraycount none = some 0
arraycount (some ids) = count_to_zero ids

-- _mulle_objc_uniqueid_compare_r
unfoldable pub uniqueid_compare : ℕ → ℕ → Sign
uniqueid_compare a b = compare_ids a b
