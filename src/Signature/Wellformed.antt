-- ===== src/Signature/Wellformed.antt =====
-- Which C types have an encoding that the parser can read, and what may follow it.
use mulle_objc_runtime.Prelude.{ℕ, ◌+◌, ◌^◌, ◌<◌, ◌≡◌, ◌≢◌, false, List, [], ◌∷◌, ◌++◌, arith}
use mulle_objc_runtime.Signature.{
  simple, is_digit, char_at, supply_scalar_typeinfo, is_multi_character_type,
}
use mulle_objc_runtime.Signature.Encode.{
  CType, Members, scalar, object, block, function_pointer, pointer, bitfield, array, struct, union,
  last, more, Digits, value, encode, layout,
}

-- A name has no `=` and not the byte that ends the aggregate.
abbrev pub Name : ℕ → List ℕ → Type 0
Name close [] = Unit
Name close (c ∷ s) = (c ≢ close) × (c ≢ b'=') × Name close s

abbrev pub Scalar : ℕ → Type 0
Scalar c = ((supply_scalar_typeinfo c).0 ≡ simple) × (c ≢ b'?')

abbrev pub Nonempty : List ℕ → Type 0
Nonempty [] = ⊥
Nonempty (c ∷ s) = Unit

abbrev mutual
  pub IsWellformed : CType → Type 0
  IsWellformed (scalar c) = Scalar c
  IsWellformed object = Unit
  IsWellformed block = Unit
  IsWellformed function_pointer = Unit
  IsWellformed (pointer t) = IsWellformed t
  IsWellformed (bitfield ds) = Digits ds × Nonempty ds × (value 0 ds < 2 ^ 32)
  IsWellformed (array ds t) = Digits ds × (value 0 ds < 2 ^ 32) × IsWellformed t
  IsWellformed (struct name ms) = Name b'}' name × AllWellformed ms
  IsWellformed (union name ms) = Name b')' name × AllWellformed ms

  pub AllWellformed : Members → Type 0
  AllWellformed (last t) = IsWellformed t
  AllWellformed (more t ms) = IsWellformed t × AllWellformed ms

-- A bitfield's width ends where no digit follows, and an object before no `?`.
abbrev pub Follows : CType → List ℕ → Type 0
Follows object s = char_at s ≢ b'?'
Follows (pointer t) s = Follows t s
Follows (bitfield ds) s = is_digit (char_at s) ≡ false
Follows t s = Unit

-- A byte with which an encoding starts.
pub record Starts (c : ℕ) : Type 0 where
  pub nonzero : c ≢ 0
  pub not_brace : c ≢ b'}'
  pub not_parenthesis : c ≢ b')'
  pub not_undefined : c ≢ b'?'
  pub not_digit : is_digit c ≡ false
  pub not_block : c ≢ b'<'
  pub not_quote : c ≢ b'"'
  pub not_minus : c ≢ b'-'
  pub not_plus : c ≢ b'+'

pub Scalar-Starts : (c : ℕ) → Scalar c → Starts c
unfolding supply_scalar_typeinfo is_digit
Scalar-Starts c h = ground arith

pub Scalar-single : (c : ℕ) → Scalar c → is_multi_character_type c ≡ false
unfolding supply_scalar_typeinfo is_multi_character_type
Scalar-single c h = ground arith

pub Follows-of :
    (t : CType) (s : List ℕ) → char_at s ≢ b'?' → is_digit (char_at s) ≡ false → Follows t s
Follows-of (scalar c) s h d = tt
Follows-of object s h d = h
Follows-of block s h d = tt
Follows-of function_pointer s h d = tt
Follows-of (pointer t) s h d = Follows-of t s h d
Follows-of (bitfield ds) s h d = d
Follows-of (array ds t) s h d = tt
Follows-of (struct name ms) s h d = tt
Follows-of (union name ms) s h d = tt

pub encode-Starts : (t : CType) (s : List ℕ) → IsWellformed t → Starts (char_at (encode t ++ s))
unfolding encode char_at is_digit
encode-Starts (scalar c) s w = Scalar-Starts c w
encode-Starts object s w = ground arith
encode-Starts block s w = ground arith
encode-Starts function_pointer s w = ground arith
encode-Starts (pointer t) s w = ground arith
encode-Starts (bitfield ds) s w = ground arith
encode-Starts (array ds t) s w = ground arith
encode-Starts (struct name ms) s w = ground arith
encode-Starts (union name ms) s w = ground arith

-- The sizes stay within the C code's integers.
module _ (address_align : ℕ → ℕ → ℕ) where
  abbrev pub MembersFit : ℕ → Members → Type 0
  MembersFit offset (last t) =
      let start = address_align offset (layout address_align t).bits_struct_alignment in
      (start < 2 ^ 32) × (start + (layout address_align t).bits_size < 2 ^ 64)
  MembersFit offset (more t ms) =
      let start = address_align offset (layout address_align t).bits_struct_alignment in
      (start < 2 ^ 32)
      × (start + (layout address_align t).bits_size < 2 ^ 64)
      × MembersFit (start + (layout address_align t).bits_size) ms

  abbrev mutual
    pub Fits : CType → Type 0
    Fits (scalar c) = Unit
    Fits object = Unit
    Fits block = Unit
    Fits function_pointer = Unit
    Fits (pointer t) = Unit
    Fits (bitfield ds) = Unit
    Fits (array ds t) =
        Fits t
        × ((layout address_align (array ds t)).bits_size < 2 ^ 64)
        × ((layout address_align (array ds t)).natural_size < 2 ^ 64)
    Fits (struct name ms) =
        AllFit ms × MembersFit 0 ms × ((layout address_align (struct name ms)).bits_size < 2 ^ 32)
    Fits (union name ms) = AllFit ms

    pub AllFit : Members → Type 0
    AllFit (last t) = Fits t
    AllFit (more t ms) = Fits t × AllFit ms
