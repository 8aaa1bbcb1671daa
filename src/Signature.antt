-- ===== src/Signature.antt =====
-- mulle-objc-signature.c and .h: type encodings. A string is the list of its bytes without the
-- terminating NUL, and a pointer into it is what is left of the list from there on. The sizes are
-- those of a 64-bit machine (LP64).
pub mod Parse
pub mod Encode
pub mod Wellformed
mod Pieces
pub mod Heads
mod Sums
pub mod RoundTrip
pub mod Consume
pub mod Walk
pub mod Enumerator
pub mod Steps
pub mod Frames
pub mod Compare
pub mod Compares
pub mod Extended
pub mod Binary
pub mod Classes
pub mod Metaabi
pub mod Params
pub mod Sizes
pub mod Flat
pub mod Clayout
use mulle_objc_runtime.Prelude.{
  ℕ, ◌*◌, ◌==◌, leb, Bool, true, false, ◌&&◌, ◌||◌, Option, none, List, [], ◌∷◌, if◌then◌else◌,
}

-- What a scalar supplier sets of `struct mulle_objc_typeinfo`.
pub record Layout : Type 0 where
  pub natural_size : ℕ
  pub natural_alignment : ℕ
  pub bits_struct_alignment : ℕ
  pub bits_size : ℕ
  pub has_object : Bool
  pub has_retainable_type : Bool

-- `struct mulle_objc_typeinfo`.
pub record Typeinfo : Type 0 where
  pub type : List ℕ
  pub pure_type_end : Option (List ℕ)
  pub member_type_start : Option (List ℕ)
  pub name : Option (List ℕ)
  pub n_members : ℕ
  pub invocation_offset : ℕ
  pub layout : Layout

-- The supplier's results 0, 1 and -1.
pub data Complexity : Type 0 where
  simple complex invalid : Complexity

abbrev pub no_layout : Layout
no_layout = record {
  natural_size = 0;
  natural_alignment = 0;
  bits_struct_alignment = 0;
  bits_size = 0;
  has_object = false;
  has_retainable_type = false;
}

-- `__SUPPLY_RUNTIME_TYPE_INFO`, for a type whose alignment is its size.
abbrev pub type_info : ℕ → Bool → Bool → Layout
type_info size object retain = record {
  natural_size = size;
  natural_alignment = size;
  bits_struct_alignment = size * 8;
  bits_size = size * 8;
  has_object = object;
  has_retainable_type = retain;
}

abbrev pub c_type_info : ℕ → Layout
c_type_info size = type_info size false false

abbrev pub sizeof_pointer : ℕ
sizeof_pointer = 8

-- `_mulle_objc_signature_supply_scalar_typeinfo`. A method id has 4 bytes, `_C_BOOL` is an `int`.
unfoldable pub supply_scalar_typeinfo : ℕ → Complexity × Layout
supply_scalar_typeinfo c =
    if c == 0
    then (invalid, no_layout)
    else if c == b'v'
    then (simple, no_layout)
    else if c == b'~'
    then (simple, type_info sizeof_pointer true true)
    else if c == b'@'
    then (complex, type_info sizeof_pointer true true)
    else if c == b'='
    then (simple, type_info sizeof_pointer true false)
    else if c == b'#'
    then (simple, type_info sizeof_pointer true false)
    else if c == b':'
    then (simple, c_type_info 4)
    else if c == b'c'
    then (simple, c_type_info 1)
    else if c == b'B'
    then (simple, c_type_info 4)
    else if c == b'C'
    then (simple, c_type_info 1)
    else if c == b's'
    then (simple, c_type_info 2)
    else if c == b'S'
    then (simple, c_type_info 2)
    else if c == b'i'
    then (simple, c_type_info 4)
    else if c == b'I'
    then (simple, c_type_info 4)
    else if c == b'l'
    then (simple, c_type_info 8)
    else if c == b'L'
    then (simple, c_type_info 8)
    else if c == b'q'
    then (simple, c_type_info 8)
    else if c == b'Q'
    then (simple, c_type_info 8)
    else if c == b'f'
    then (simple, c_type_info 4)
    else if c == b'd'
    then (simple, c_type_info 8)
    else if c == b'*'
    then (simple, type_info sizeof_pointer false true)
    else if c == b'?'
    then (simple, c_type_info sizeof_pointer)
    else if c == b'%'
    then (simple, c_type_info sizeof_pointer)
    else (complex, no_layout)

unfoldable pub is_multi_character_type : ℕ → Bool
is_multi_character_type c =
    c == b'^' || c == b'[' || c == b'{' || c == b'(' || c == b'b' || c == b'@'

unfoldable pub is_digit : ℕ → Bool
is_digit c = leb b'0' c && leb c b'9'

-- What a pointer points at, 0 at the end.
unfoldable pub char_at : List ℕ → ℕ
char_at [] = 0
char_at (c ∷ _) = c

-- `while( *s >= '0' && *s <= '9') ++s;`
unfoldable pub skip_digits : List ℕ → List ℕ
unfolding is_digit
skip_digits [] = []
skip_digits (c ∷ s) = if is_digit c then skip_digits s else c ∷ s
