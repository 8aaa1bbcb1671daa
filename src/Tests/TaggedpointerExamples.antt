-- ===== src/Tests/TaggedpointerExamples.antt =====
-- Tagged pointers at fixed values, and the theorems on them there.
use mulle_objc_runtime.Prelude.{◌-◌, ◌^◌, ◌≡◌, refl, true, false, arith}
use mulle_objc_runtime.Taggedpointer.{
  bits32, bits64, get_index, is_valid_unsigned_value, create_unsigned, get_unsigned_value,
  is_valid_signed_value, create_signed, get_signed_value, is_valid_double_value, create_double,
  get_double_value, is_valid_float_value, create_float, get_float_value,
}
use mulle_objc_runtime.Taggedpointer.Integers.{get-create_unsigned, get-create_signed}
use mulle_objc_runtime.Taggedpointer.Floats.{get-create_double, get-create_float}

-- 1.0 is 0x3ff0…, whose exponent bits behind the top one are 0111.
one_as_double :
    (is_valid_double_value bits64 0x3ff0_0000_0000_0000 ≡ true)
    × (create_double 0x3ff0_0000_0000_0000 5 ≡ 0xfe00_0000_0000_0005)
    × (is_valid_double_value bits64 0x7ff0_0000_0000_0000 ≡ false)
unfolding is_valid_double_value create_double
one_as_double = (refl, refl, refl)

get-create_unsigned_example :
    (get_unsigned_value bits64 (create_unsigned bits64 1848 3) ≡ 1848)
    × (get_index bits64 (create_unsigned bits64 1848 3) ≡ 3)
unfolding is_valid_unsigned_value
get-create_unsigned_example = get-create_unsigned bits64 1848 3 (omega arith) refl (omega arith)

-- -5 comes back.
get-create_signed_example :
    (get_signed_value bits64 (create_signed bits64 (2 ^ 64 - 5) 3) ≡ 2 ^ 64 - 5)
    × (get_index bits64 (create_signed bits64 (2 ^ 64 - 5) 3) ≡ 3)
unfolding is_valid_signed_value
get-create_signed_example = get-create_signed bits64 (2 ^ 64 - 5) 3 (omega arith) refl (omega arith)

get-create_double_example :
    (get_double_value (create_double 0xbff8_0000_0000_0001 5) ≡ 0xbff8_0000_0000_0001)
    × (get_index bits64 (create_double 0xbff8_0000_0000_0001 5) ≡ 5)
unfolding is_valid_double_value
get-create_double_example =
    get-create_double 0xbff8_0000_0000_0001 5 (omega arith) refl (omega arith)

get-create_float_example :
    (get_float_value bits32 (create_float bits32 0x3fc0_0001 2) ≡ 0x3fc0_0001)
    × (get_index bits32 (create_float bits32 0x3fc0_0001 2) ≡ 2)
unfolding is_valid_float_value
get-create_float_example = get-create_float bits32 0x3fc0_0001 2 (omega arith) refl (omega arith)
