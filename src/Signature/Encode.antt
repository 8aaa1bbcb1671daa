-- ===== src/Signature/Encode.antt =====
-- What type encodings stand for: C types, the strings that the compiler writes for them, and the
-- sizes that the runtime gives them, without its parser. They are those of C except for unions,
-- bitfields and `void`.
use mulle_objc_runtime.Prelude.{ℕ, ◌+◌, ◌-◌, ◌*◌, ◌/◌, ◌≡◌, Bool, true, ◌||◌, List, [], ◌∷◌, ◌++◌}
use mulle_objc_runtime.Signature.{
  Layout, type_info, c_type_info, sizeof_pointer, is_digit, supply_scalar_typeinfo,
}
use mulle_objc_runtime.Signature.Parse.{max_or, bitfield_layout}

mutual
  pub data CType : Type 0 where
    scalar : ℕ → CType
    object block function_pointer : CType
    pointer : CType → CType
    bitfield : List ℕ → CType
    array : List ℕ → CType → CType
    struct : List ℕ → Members → CType
    union : List ℕ → Members → CType

  pub data Members : Type 0 where
    last : CType → Members
    more : CType → Members → Members

-- A number by its decimal digits.
abbrev pub Digits : List ℕ → Type 0
Digits [] = Unit
Digits (d ∷ ds) = (is_digit d ≡ true) × Digits ds

unfoldable pub value : ℕ → List ℕ → ℕ
value acc [] = acc
value acc (d ∷ ds) = value (acc * 10 + (d - b'0')) ds

unfoldable mutual
  pub encode : CType → List ℕ
  encode (scalar c) = c ∷ []
  encode object = b'@' ∷ []
  encode block = b'@' ∷ b'?' ∷ []
  encode function_pointer = b'^' ∷ b'?' ∷ []
  encode (pointer t) = b'^' ∷ encode t
  encode (bitfield ds) = b'b' ∷ ds
  encode (array ds t) = b'[' ∷ (ds ++ (encode t ++ (b']' ∷ [])))
  encode (struct name ms) = b'{' ∷ (name ++ (b'=' ∷ (encode_members ms ++ (b'}' ∷ []))))
  encode (union name ms) = b'(' ∷ (name ++ (b'=' ∷ (encode_members ms ++ (b')' ∷ []))))

  pub encode_members : Members → List ℕ
  encode_members (last t) = encode t
  encode_members (more t ms) = encode t ++ encode_members ms

-- Sizes and alignments. A union is not filled up to its alignment, and a bitfield is measured in ints.
module _ (address_align : ℕ → ℕ → ℕ) where
  unfoldable mutual
    unfolding value bitfield_layout

    pub layout : CType → Layout
    layout (scalar c) = (supply_scalar_typeinfo c).1
    layout object = type_info sizeof_pointer true true
    layout block = c_type_info sizeof_pointer
    layout function_pointer = c_type_info sizeof_pointer
    layout (pointer t) = c_type_info sizeof_pointer
    layout (bitfield ds) = bitfield_layout (value 0 ds)
    layout (array ds t) =
        let item = layout t in
        record item {
          bits_size = value 0 ds * item.bits_size;
          natural_size = value 0 ds * item.natural_size;
        }
    layout (struct name ms) =
        let bits = address_align (struct_end 0 ms) (largest (λ l. l.bits_struct_alignment) ms) in
        record {
          natural_size = bits / 8;
          natural_alignment = largest (λ l. l.natural_alignment) ms;
          bits_struct_alignment = largest (λ l. l.bits_struct_alignment) ms;
          bits_size = bits;
          has_object = any (λ l. l.has_object) ms;
          has_retainable_type = any (λ l. l.has_retainable_type) ms;
        }
    layout (union name ms) = record {
      natural_size = largest (λ l. l.natural_size) ms;
      natural_alignment = largest (λ l. l.natural_alignment) ms;
      bits_struct_alignment = largest (λ l. l.bits_struct_alignment) ms;
      bits_size = largest (λ l. l.bits_size) ms;
      has_object = any (λ l. l.has_object) ms;
      has_retainable_type = any (λ l. l.has_retainable_type) ms;
    }

    -- The bit behind the last member, each of which starts at a multiple of its alignment.
    pub struct_end : ℕ → Members → ℕ
    struct_end offset (last t) =
        address_align offset (layout t).bits_struct_alignment + (layout t).bits_size
    struct_end offset (more t ms) =
        struct_end (address_align offset (layout t).bits_struct_alignment + (layout t).bits_size) ms

    pub largest : (Layout → ℕ) → Members → ℕ
    largest f (last t) = f (layout t)
    largest f (more t ms) = max_or (f (layout t)) (largest f ms)

    pub any : (Layout → Bool) → Members → Bool
    any f (last t) = f (layout t)
    any f (more t ms) = f (layout t) || any f ms
