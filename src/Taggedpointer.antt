-- ===== src/Taggedpointer.antt =====
-- Values in pointers (src/mulle-objc-taggedpointer.h). A pointer is its bit pattern; so is an
-- intptr_t, a double (64 bits) and a float (32 bits), since the code only moves their bits.
pub mod Integers
pub mod Floats
use Prim.Native.Nat.{bit_and, bit_or}
use mulle_objc_runtime.Prelude.{
  ℕ, ◌+◌, ◌-◌, ◌*◌, ◌/◌, ◌%◌, ◌^◌, Bool, true, false, ◌||◌, ltb, ◌==◌, if◌then◌else◌,
}

-- sizeof( uintptr_t) is 4 or 8.
pub data Arch : Type 0 where
  bits32 bits64 : Arch

-- UINTPTR_MAX + 1
abbrev pub word_mod : Arch → ℕ
word_mod bits32 = 2 ^ 32
word_mod bits64 = 2 ^ 64

-- mulle_objc_get_taggedpointer_mask
abbrev pub mask : Arch → ℕ
mask bits32 = 0x3
mask bits64 = 0x7

-- mulle_objc_get_taggedpointer_shift
abbrev pub shift : Arch → ℕ
shift bits32 = 2
shift bits64 = 3

-- mulle_objc_taggedpointer_get_index
unfoldable pub get_index : Arch → ℕ → ℕ
get_index a pointer = bit_and pointer (mask a)

-- mulle_objc_taggedpointer_unsignedlostbitsmask: the complement of a word is UINTPTR_MAX less it
unfoldable pub unsignedlostbitsmask : Arch → ℕ
unsignedlostbitsmask a = bit_and (word_mod a - 1) (word_mod a - 1 - (word_mod a - 1) / 2 ^ shift a)

-- mulle_objc_taggedpointer_is_valid_unsigned_value
unfoldable pub is_valid_unsigned_value : Arch → ℕ → Bool
unfolding unsignedlostbitsmask
is_valid_unsigned_value a value = bit_and value (unsignedlostbitsmask a) == 0

-- mulle_objc_create_unsigned_taggedpointer
unfoldable pub create_unsigned : Arch → ℕ → ℕ → ℕ
create_unsigned a value index = bit_or (value * 2 ^ shift a % word_mod a) index

-- mulle_objc_taggedpointer_get_unsigned_value
unfoldable pub get_unsigned_value : Arch → ℕ → ℕ
get_unsigned_value a pointer = pointer / 2 ^ shift a

-- mulle_objc_taggedpointer_signedlostbitsmask
unfoldable pub signedlostbitsmask : Arch → ℕ
signedlostbitsmask a =
    bit_and (word_mod a - 1) (word_mod a - 1 - (word_mod a - 1) / 2 ^ (shift a + 1))

-- mulle_objc_taggedpointer_is_valid_signed_value
unfoldable pub is_valid_signed_value : Arch → ℕ → Bool
unfolding signedlostbitsmask
is_valid_signed_value a value =
    let bits = bit_and value (signedlostbitsmask a) in bits == 0 || bits == signedlostbitsmask a

-- mulle_objc_create_signed_taggedpointer
unfoldable pub create_signed : Arch → ℕ → ℕ → ℕ
create_signed a value index = bit_or (value * 2 ^ shift a % word_mod a) index

-- mulle_objc_taggedpointer_get_signed_value: `>>` of an intptr_t repeats the sign bit
unfoldable pub get_signed_value : Arch → ℕ → ℕ
get_signed_value a pointer =
    if ltb pointer (word_mod a / 2)
    then pointer / 2 ^ shift a
    else pointer / 2 ^ shift a + (word_mod a - word_mod a / 2 ^ shift a)

-- mulle_objc_taggedpointer_is_valid_double_value
unfoldable pub is_valid_double_value : Arch → ℕ → Bool
is_valid_double_value bits32 bits = false
is_valid_double_value bits64 bits = let e = bit_and (bits / 2 ^ 59) 0xf in e == 0x8 || e == 0x7

-- mulle_objc_create_double_taggedpointer: rotate left by 5, put the index into the low 3 bits
unfoldable pub create_double : ℕ → ℕ → ℕ
create_double bits index =
    let c = bit_or (bits * 2 ^ 5 % 2 ^ 64) (bits / 2 ^ 59) in
    bit_or (bit_and c (2 ^ 64 - 1 - 0x7)) index

-- mulle_objc_taggedpointer_get_double_value
unfoldable pub get_double_value : ℕ → ℕ
get_double_value pointer =
    let c =
      (if bit_and pointer 0x8 == 0
        then bit_or pointer 0x7
        else bit_and pointer (2 ^ 64 - 1 - 0x7)) in
    bit_or (c / 2 ^ 5) (c * 2 ^ 59 % 2 ^ 64)

-- mulle_objc_taggedpointer_is_valid_float_value
unfoldable pub is_valid_float_value : Arch → ℕ → Bool
is_valid_float_value bits64 bits = true
is_valid_float_value bits32 bits = let e = bit_and (bits / 2 ^ 28) 0x7 in e == 0x4 || e == 0x3

-- mulle_objc_create_float_taggedpointer
unfoldable pub create_float : Arch → ℕ → ℕ → ℕ
create_float bits32 bits index =
    let c = bit_or (bits * 2 ^ 4 % 2 ^ 32) (bits / 2 ^ 28) in
    bit_or (bit_and c (2 ^ 32 - 1 - 0x3)) index
create_float bits64 bits index = bit_or (bits * 2 ^ 3 % 2 ^ 64) index

-- mulle_objc_taggedpointer_get_float_value
unfoldable pub get_float_value : Arch → ℕ → ℕ
get_float_value bits32 pointer =
    let p = pointer % 2 ^ 32 in
    let c = (if bit_and p 0x4 == 0 then bit_or p 0x3 else bit_and p (2 ^ 32 - 1 - 0x3)) in
    bit_or (c / 2 ^ 4) (c * 2 ^ 28 % 2 ^ 32)
get_float_value bits64 pointer = pointer / 2 ^ 3 % 2 ^ 32
