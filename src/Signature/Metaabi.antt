-- ===== src/Signature/Metaabi.antt =====
-- How the metaABI passes the arguments of a method: mulle-metaabi.h, mulle-objc-signature.h and
-- `mulle_objc_signature_get_metaabiparamtype` of mulle-objc-signature.c.
use mulle_objc_runtime.Prelude.{ℕ, ◌==◌, leb, ◌&&◌, ◌||◌, none, some, List, [], ◌∷◌, if◌then◌else◌}
use mulle_objc_runtime.Signature.{Layout, char_at}
use mulle_objc_runtime.Signature.Walk.{
  Cursor, at, null, overrun, Supplied, supplied, no_type, failed, next_type,
}
use mulle_objc_runtime.Signature.Compare.{supply}

-- `enum mulle_metaabi_param`, and a run past the end of the text.
pub data Param : Type 0 where
  error void_pointer void as_struct overran : Param

-- `_mulle_metaabi_get_metaabiparamtype`, where a `long long` fits a `void *`.
unfoldable pub metaabi_get_metaabiparamtype : List ℕ → Param
metaabi_get_metaabiparamtype [] = void
metaabi_get_metaabiparamtype (c ∷ s) =
    if c == 0 || c == b'v'
    then void
    else if c == b'?'
    then error
    else if c == b'%'
        || c == b'B'
        || c == b'*'
        || c == b'@'
        || c == b'~'
        || c == b'='
        || c == b'#'
        || c == b':'
        || c == b'c'
        || c == b'C'
        || c == b's'
        || c == b'S'
        || c == b'i'
        || c == b'I'
    then void_pointer
    else if c == b'l' || c == b'L' || c == b'q' || c == b'Q'
    then void_pointer
    else if c == b'^'
    then void_pointer
    else as_struct

-- `info.natural_size <= sizeof( void *) && info.natural_alignment <= alignof( void *)`
unfoldable pub small_param : Layout → Param
small_param l =
    if leb l.natural_size 8 && leb l.natural_alignment 8 then void_pointer else as_struct

unfoldable pub param_of_supplied : Supplied → Param
unfolding small_param
param_of_supplied (supplied r s (some info)) = small_param info.layout
param_of_supplied (supplied r s none) = overran
param_of_supplied no_type = error
param_of_supplied failed = overran

-- The parameter at the cursor; more than one takes a struct.
unfoldable pub first_param : Param → Cursor → Param
first_param void_pointer (at []) = void_pointer
first_param void_pointer (at (c ∷ s)) = as_struct
first_param void_pointer null = void_pointer
first_param void_pointer overrun = overran
first_param error next = error
first_param void next = void
first_param as_struct next = as_struct
first_param overran next = overran

unfoldable pub or_struct : Param → Param → Param
or_struct as_struct p = as_struct
or_struct error p = p
or_struct void_pointer p = p
or_struct void p = p
or_struct overran p = p

module _ (address_align : ℕ → ℕ → ℕ) where
  -- `_mulle_objc_signature_get_metaabiparamtype_for_param`.
  unfoldable pub metaabiparamtype_for_param : List ℕ → Param
  metaabiparamtype_for_param types =
      if char_at types == b'{' || char_at types == b'('
      then param_of_supplied (supply address_align types)
      else metaabi_get_metaabiparamtype types

  unfoldable pub skip : Cursor → Cursor
  skip null = null
  skip overrun = overrun
  skip (at s) = next_type address_align s

  unfoldable pub param_at : Cursor → Param
  unfolding first_param
  param_at null = void
  param_at overrun = overran
  param_at (at s) = first_param (metaabiparamtype_for_param s) (next_type address_align s)

  unfoldable pub get_metaabiparamtype : List ℕ → Param
  get_metaabiparamtype types =
      or_struct (metaabi_get_metaabiparamtype types)
        (param_at (skip (skip (next_type address_align types))))
