-- ===== src/Tests/SignatureExamples.antt =====
-- The theorems on type encodings at the signatures of small methods.
use mulle_objc_runtime.Prelude.{
  ℕ, zero, suc, ◌+◌, ◌*◌, ◌/◌, ◌≡◌, ◌↔◌, refl, arith, true, false, none, some, inl, inr, [], ◌∷◌,
  ◌++◌,
}
use mulle_objc_runtime.Signature.{Typeinfo, char_at, is_digit, supply_scalar_typeinfo}
use mulle_objc_runtime.Signature.Encode.{
  CType, scalar, pointer, array, object, struct, union, last, more, encode, layout,
}
use mulle_objc_runtime.Signature.Wellformed.{IsWellformed, Fits}
use mulle_objc_runtime.Signature.Frames.{
  Types, IsSignature, text, arginfos, frame_end, FrameFits, count_typeinfos-text,
  fill_arginfos-text,
}
use mulle_objc_runtime.Signature.Parse.{parse_text, parsed}
use mulle_objc_runtime.Signature.Clayout.{
  IsAlignment, round_up, IsLaidOut, Agrees, c_size, c_align, passed_as,
}
use mulle_objc_runtime.Signature.Clayout.Agreement.{type_parse-c_layout}
use mulle_objc_runtime.Signature.Consume.{Within, parse_text-consumes}
use mulle_objc_runtime.Signature.Walk.{
  count_typeinfos, next_type, skip_extended, skip_offset, supply_typeinfo, supplied, overrun,
  dummy_supplier,
}
use mulle_objc_runtime.Signature.Enumerator.{Arginfo, fill_arginfos}
use mulle_objc_runtime.Signature.Steps.{frame_start, end-IsPlain}
use mulle_objc_runtime.Signature.Compare.{
  equal, ivarsignature_compare, methodsignature_compare_lenient,
}
use mulle_objc_runtime.Signature.Compares.{
  AllSized, spelled, ivarsignature_compare_iff, methodsignature_compare_lenient_iff,
}
use mulle_objc_runtime.Signature.Extended.{named, next_type-loses}
use mulle_objc_runtime.Signature.Binary.{compatible_step, same_class, types_are_binary_compatible}
use mulle_objc_runtime.Signature.Encode.{value}
use mulle_objc_runtime.Signature.Flat.{
  Flat, record_of, array_of, written, scalars, IsField, IsFlat, same_classes,
  types_are_binary_compatible-written,
}
use mulle_objc_runtime.Signature.Metaabi.{
  void_pointer, or_struct, metaabi_get_metaabiparamtype, get_metaabiparamtype,
}
use mulle_objc_runtime.Signature.Params.{
  returns, combined, takes, scalar_param, several, get_metaabiparamtype-text,
}

-- `mulle_address_align` for an address that is not 0.
abbrev pub address_align : ℕ → ℕ → ℕ
address_align zero alignment = 0
address_align (suc p) zero = suc p
address_align (suc p) (suc alignment) = (suc p + alignment) / suc alignment * suc alignment

aligned_zero : (alignment : ℕ) → address_align 0 alignment ≡ 0
aligned_zero alignment = refl

-- `{?=ci}`
abbrev pub char_and_int : CType
char_and_int = struct (b'?' ∷ []) (more (scalar b'c') (last (scalar b'i')))

abbrev float_pair : CType
float_pair = struct (b'?' ∷ []) (more (scalar b'f') (last (scalar b'f')))

abbrev two_floats : Flat
two_floats = record_of (b'?' ∷ []) (b'f' ∷ b'f' ∷ [])

abbrev float_array : Flat
float_array = array_of (b'2' ∷ []) b'f'

float-IsField : IsField b'f'
unfolding supply_scalar_typeinfo
float-IsField = inl (refl, omega arith)

two_floats-IsFlat : IsFlat two_floats
two_floats-IsFlat = ((omega arith, tt), (float-IsField, (float-IsField, tt)))

float_array-IsFlat : IsFlat float_array
unfolding is_digit value
float_array-IsFlat = ((refl, tt), omega arith, omega arith, float-IsField)

-- `v20@0:8i16`
abbrev pub set_int : Types
set_int =
    (scalar b'v', b'2' ∷ b'0' ∷ [])
    ∷ (object, b'0' ∷ [])
    ∷ (scalar b':', b'8' ∷ [])
    ∷ (scalar b'i', b'1' ∷ b'6' ∷ [])
    ∷ []

char_and_int-IsWellformed : IsWellformed char_and_int
unfolding supply_scalar_typeinfo
char_and_int-IsWellformed = ground arith

char_and_int-Fits : Fits address_align char_and_int
unfolding layout supply_scalar_typeinfo
char_and_int-Fits = ground arith

set_int-IsSignature : IsSignature set_int
unfolding supply_scalar_typeinfo is_digit text char_at encode
set_int-IsSignature = ground arith

rounds : (p a : ℕ) → IsAlignment a → address_align p (a * 8) ≡ round_up p (a * 8)
rounds zero a (inl e) = rw e refl
rounds zero a (inr (inl e)) = rw e refl
rounds zero a (inr (inr (inl e))) = rw e refl
rounds zero a (inr (inr (inr e))) = rw e refl
rounds (suc p) a (inl e) = rw e (omega arith)
rounds (suc p) a (inr (inl e)) = rw e (omega arith)
rounds (suc p) a (inr (inr (inl e))) = rw e (omega arith)
rounds (suc p) a (inr (inr (inr e))) = rw e (omega arith)

char_and_int-IsLaidOut : IsLaidOut char_and_int
char_and_int-IsLaidOut = (omega arith, omega arith)

type_parse-c_layout_example :
    (info : Typeinfo) × (parse_text address_align supply_scalar_typeinfo 0 true
        (encode char_and_int ++ b'8' ∷ [])
      ≡ parsed (b'8' ∷ []) (some info))
    × (info.type ≡ encode char_and_int ++ b'8' ∷ [])
    × Agrees info.layout 8 4
unfolding c_size c_align passed_as
type_parse-c_layout_example =
    type_parse-c_layout address_align rounds aligned_zero char_and_int 0 (b'8' ∷ [])
      char_and_int-IsWellformed char_and_int-IsLaidOut char_and_int-Fits tt

parse_text-consumes_example :
    Within 3 (parse_text address_align supply_scalar_typeinfo 0 true (b'^' ∷ b'i' ∷ b'8' ∷ []))
parse_text-consumes_example =
    parse_text-consumes address_align supply_scalar_typeinfo 0 true (b'^' ∷ b'i' ∷ b'8' ∷ [])

count_typeinfos-text_example : count_typeinfos address_align (text set_int) ≡ some 4
count_typeinfos-text_example =
    count_typeinfos-text address_align aligned_zero set_int set_int-IsSignature

no_arginfo : Arginfo
no_arginfo = record {
  invocation_offset = 0;
  natural_size = 0;
  type_offset = 0;
  natural_alignment = 0;
  has_retainable_type = 0;
}

abbrev set_int_args : Types
set_int_args = (object, b'0' ∷ []) ∷ (scalar b':', b'8' ∷ []) ∷ (scalar b'i', b'1' ∷ b'6' ∷ []) ∷ []

set_int-FrameFits : FrameFits address_align aligned_zero 0 0 set_int_args
unfolding layout supply_scalar_typeinfo frame_start
set_int-FrameFits = ground arith

fill_arginfos-text_example :
    fill_arginfos address_align
      (text set_int)
      (no_arginfo ∷ no_arginfo ∷ no_arginfo ∷ no_arginfo ∷ [])
    ≡ some (
        record {
          invocation_offset = 20;
          natural_size = 0;
          type_offset = 0;
          natural_alignment = 0;
          has_retainable_type = 0;
        }
        ∷ arginfos address_align aligned_zero 10 0 0 set_int_args)
unfolding layout supply_scalar_typeinfo frame_start frame_end text encode
fill_arginfos-text_example =
    fill_arginfos-text address_align aligned_zero (scalar b'v') (b'2' ∷ b'0' ∷ []) set_int_args
      no_arginfo (no_arginfo ∷ no_arginfo ∷ no_arginfo ∷ []) set_int-IsSignature refl tt
      (ground arith) set_int-FrameFits (ground arith)

-- `i8` and `i16`
ivarsignature_compare_iff_example :
    (ivarsignature_compare address_align (b'i' ∷ b'8' ∷ []) (b'i' ∷ b'1' ∷ b'6' ∷ []) ≡ equal)
    ↔ (encode (scalar b'i') ≡ encode (scalar b'i'))
unfolding encode supply_scalar_typeinfo layout is_digit char_at
ivarsignature_compare_iff_example =
    ivarsignature_compare_iff address_align aligned_zero (scalar b'i') (scalar b'i') (b'8' ∷ [])
      (b'1' ∷ b'6' ∷ []) [] [] (ground arith, (tt, ground arith), ground arith, tt, end-IsPlain)
      (ground arith, (tt, ground arith), ground arith, tt, end-IsPlain)

-- `i16@0:8`
abbrev pub get_int : Types
get_int = (scalar b'i', b'1' ∷ b'6' ∷ []) ∷ (object, b'0' ∷ []) ∷ (scalar b':', b'8' ∷ []) ∷ []

get_int-IsSignature : IsSignature get_int
unfolding supply_scalar_typeinfo is_digit text char_at encode
get_int-IsSignature = ground arith

args-AllSized : AllSized address_align aligned_zero set_int_args
unfolding layout supply_scalar_typeinfo
args-AllSized = ground arith

methodsignature_compare_lenient_iff_example :
    (methodsignature_compare_lenient address_align (text set_int) (text get_int) ≡ equal) ↔ (
      spelled address_align aligned_zero set_int_args
      ≡ spelled address_align aligned_zero ((object, b'0' ∷ []) ∷ (scalar b':', b'8' ∷ []) ∷ []))
unfolding layout supply_scalar_typeinfo
methodsignature_compare_lenient_iff_example =
    methodsignature_compare_lenient_iff address_align aligned_zero (scalar b'v') (scalar b'i')
      (b'2' ∷ b'0' ∷ []) (b'1' ∷ b'6' ∷ []) set_int_args
      ((object, b'0' ∷ []) ∷ (scalar b':', b'8' ∷ []) ∷ [])
      (set_int-IsSignature, (tt, ground arith), args-AllSized)
      (get_int-IsSignature, (tt, ground arith), ground arith)

-- `@"A"i`
next_type-loses_example :
    (next_type address_align (named (b'A' ∷ []) (b'i' ∷ [])) ≡ skip_extended none [])
    × (supply_typeinfo address_align (named (b'A' ∷ []) (b'i' ∷ [])) dummy_supplier false
        ≡ supplied
            (skip_offset (b'i' ∷ []))
            (record dummy_supplier { invocation_offset = none })
            none)
    × (next_type address_align (named (b'A' ∷ []) []) ≡ overrun)
next_type-loses_example =
    next_type-loses address_align (b'A' ∷ []) b'i' [] dummy_supplier (ground arith)

-- `{?=ff}` and `[2f]`
types_are_binary_compatible-written_example :
    types_are_binary_compatible 20 (written two_floats) (written float_array) ≡ some true
unfolding written scalars same_classes same_class value
types_are_binary_compatible-written_example =
    types_are_binary_compatible-written 20 two_floats float_array two_floats-IsFlat
      float_array-IsFlat (omega arith)

get_metaabiparamtype-text_example : get_metaabiparamtype address_align (text set_int) ≡ void_pointer
unfolding returns combined takes scalar_param metaabi_get_metaabiparamtype several or_struct
get_metaabiparamtype-text_example =
    get_metaabiparamtype-text address_align aligned_zero (scalar b'v', b'2' ∷ b'0' ∷ [])
      (object, b'0' ∷ []) (scalar b':', b'8' ∷ []) ((scalar b'i', b'1' ∷ b'6' ∷ []) ∷ [])
      set_int-IsSignature (args-AllSized.1.1)

-- The size of a union is not rounded up to its alignment: `(?=[5c]i)` has 5 bytes.
union_size :
    (layout address_align (
      union (b'?' ∷ []) (more (array (b'5' ∷ []) (scalar b'c')) (last (scalar b'i'))))).natural_size
    ≡ 5
unfolding layout supply_scalar_typeinfo
union_size = refl

-- A struct in a union counts as fields of the struct around it: `(?=i{?=ff})` and `{?=iff}`.
union_fields :
    types_are_binary_compatible 40
      (encode (union (b'?' ∷ []) (more (scalar b'i') (last float_pair))))
      (encode (struct (b'?' ∷ []) (more (scalar b'i') (more (scalar b'f') (last (scalar b'f'))))))
    ≡ some true
unfolding types_are_binary_compatible encode compatible_step
union_fields = refl

-- An array of no elements has the fields of one: `[0i]` and `i`.
no_elements :
    types_are_binary_compatible 40 (encode (array (b'0' ∷ []) (scalar b'i'))) (encode (scalar b'i'))
    ≡ some true
unfolding types_are_binary_compatible encode compatible_step
no_elements = refl

-- What a pointer points at counts as one more field: `{?=^i}` and `{?=^f}` are not compatible.
pointed_at :
    types_are_binary_compatible 40
      (encode (struct (b'?' ∷ []) (last (pointer (scalar b'i')))))
      (encode (struct (b'?' ∷ []) (last (pointer (scalar b'f')))))
    ≡ some false
unfolding types_are_binary_compatible encode compatible_step
pointed_at = refl
