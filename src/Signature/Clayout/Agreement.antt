-- ===== src/Signature/Clayout/Agreement.antt =====
-- Where the parser of src/mulle-objc-signature.c reports the sizes and alignments of C.
use mulle_objc_runtime.Prelude.{
  ℕ, ◌+◌, ◌*◌, ◌/◌, ◌≡◌, ◌∙◌, refl, ap, sym, subst, arith, true, some, List, ◌++◌, zero, suc,
}
use mulle_objc_runtime.Signature.{Layout, Typeinfo, supply_scalar_typeinfo}
use mulle_objc_runtime.Signature.Encode.{
  CType, Members, scalar, object, block, function_pointer, pointer, bitfield, array, struct, union,
  last, more, value, encode, layout, struct_end, largest,
}
use mulle_objc_runtime.Signature.Wellformed.{IsWellformed, AllWellformed, Fits, Follows}
use mulle_objc_runtime.Signature.Parse.{parse_text, parsed}
use mulle_objc_runtime.Signature.RoundTrip.{layout_at, type_parse-encode}
use mulle_objc_runtime.Signature.Clayout.{
  round_up, c_align, c_aligns, c_size, c_end, c_largest, IsLaidOut, AllLaidOut, IsAlignment, Agrees,
  passed_as,
}
use mulle_objc_runtime.Signature.Clayout.Rounding.{
  c_align-IsAlignment, c_aligns-IsAlignment, Scalar-Agrees, round_up-bits, round_up-multiple,
  both_larger, both_bits, bytes, times_assoc,
}

module _ (address_align : ℕ → ℕ → ℕ)
    (rounds : (p a : ℕ) → IsAlignment a → address_align p (a * 8) ≡ round_up p (a * 8)) where
  aligned_end :
      (offset : ℕ) (t : CType) (l : Layout)
      → Agrees l (c_size t) (c_align t)
      → address_align (offset * 8) l.bits_struct_alignment + l.bits_size
        ≡ (round_up offset (c_align t) + c_size t) * 8
  aligned_end offset t l h =
      let a = c_align-IsAlignment t in
      let start : address_align (offset * 8) l.bits_struct_alignment
          ≡ round_up offset (c_align t) * 8 =
        ap (address_align (offset * 8)) h.bits_struct_alignment
        ∙ rounds (offset * 8) (c_align t) a
        ∙ round_up-bits offset (c_align t) a in
      omega (arith, start, h.bits_size)

  -- The members, in each way they count.
  record AllAgree (ms : Members) : Type 0 where
    ends : (offset : ℕ) → struct_end address_align (offset * 8) ms ≡ c_end offset ms * 8
    aligns : largest address_align (λ l. l.natural_alignment) ms ≡ c_aligns ms
    aligns_bits : largest address_align (λ l. l.bits_struct_alignment) ms ≡ c_aligns ms * 8
    sizes : largest address_align (λ l. l.natural_size) ms ≡ c_largest ms
    sizes_bits : largest address_align (λ l. l.bits_size) ms ≡ c_largest ms * 8

  mutual
    unfolding layout c_size c_align c_end c_aligns c_largest largest struct_end

    layout-Agrees :
        (t : CType)
        → IsWellformed t
        → IsLaidOut t
        → Agrees (layout address_align t) (c_size t) (c_align t)
    layout-Agrees (scalar c) w h = Scalar-Agrees c w h
    layout-Agrees object w h = record {
      natural_size = refl;
      natural_alignment = refl;
      bits_struct_alignment = refl;
      bits_size = refl;
    }
    layout-Agrees block w h = record {
      natural_size = refl;
      natural_alignment = refl;
      bits_struct_alignment = refl;
      bits_size = refl;
    }
    layout-Agrees function_pointer w h = record {
      natural_size = refl;
      natural_alignment = refl;
      bits_struct_alignment = refl;
      bits_size = refl;
    }
    layout-Agrees (pointer t) w h = record {
      natural_size = refl;
      natural_alignment = refl;
      bits_struct_alignment = refl;
      bits_size = refl;
    }
    layout-Agrees (bitfield ds) w h = absurd h
    layout-Agrees (array ds t) w h =
        let item = layout-Agrees t w.2 h.1 in
        record {
          natural_size = ap (λ n. value 0 ds * n) item.natural_size;
          natural_alignment = item.natural_alignment;
          bits_struct_alignment = item.bits_struct_alignment;
          bits_size = ap (λ n. value 0 ds * n) item.bits_size ∙ times_assoc (value 0 ds) (c_size t);
        }
    layout-Agrees (struct name ms) w h =
        let all = members-AllAgree ms w.1 h in
        let a = c_aligns-IsAlignment ms in
        let bits : address_align (struct_end address_align 0 ms)
              (largest address_align (λ l. l.bits_struct_alignment) ms)
            ≡ round_up (c_end 0 ms) (c_aligns ms) * 8 =
          ap (λ n. address_align n (largest address_align (λ l. l.bits_struct_alignment) ms))
            (all.ends 0)
          ∙ ap (address_align (c_end 0 ms * 8)) all.aligns_bits
          ∙ rounds (c_end 0 ms * 8) (c_aligns ms) a
          ∙ round_up-bits (c_end 0 ms) (c_aligns ms) a in
        record {
          natural_size = ap (λ n. n / 8) bits ∙ bytes (round_up (c_end 0 ms) (c_aligns ms));
          natural_alignment = all.aligns;
          bits_struct_alignment = all.aligns_bits;
          bits_size = bits;
        }
    layout-Agrees (union name ms) w h =
        let all = members-AllAgree ms w.1 h.0 in
        let size : round_up (c_largest ms) (c_aligns ms) ≡ c_largest ms =
          round_up-multiple (c_largest ms) (c_aligns ms) (c_aligns-IsAlignment ms) h.1 in
        record {
          natural_size = all.sizes ∙ sym size;
          natural_alignment = all.aligns;
          bits_struct_alignment = all.aligns_bits;
          bits_size = all.sizes_bits ∙ ap (λ n. n * 8) (sym size);
        }

    members-AllAgree : (ms : Members) → AllWellformed ms → AllLaidOut ms → AllAgree ms
    members-AllAgree (last t) w h =
        let l = layout-Agrees t w h in
        record {
          ends = λ offset. aligned_end offset t (layout address_align t) l;
          aligns = l.natural_alignment;
          aligns_bits = l.bits_struct_alignment;
          sizes = l.natural_size;
          sizes_bits = l.bits_size;
        }
    members-AllAgree (more t ms) w h =
        let l = layout-Agrees t w.0 h.0 in
        let all = members-AllAgree ms w.1 h.1 in
        record {
          ends = λ offset.
              ap (λ n. struct_end address_align n ms)
                (aligned_end offset t (layout address_align t) l)
              ∙ all.ends (round_up offset (c_align t) + c_size t);
          aligns = both_larger l.natural_alignment all.aligns;
          aligns_bits = both_bits (c_align t) (c_aligns ms) l.bits_struct_alignment all.aligns_bits;
          sizes = both_larger l.natural_size all.sizes;
          sizes_bits = both_bits (c_size t) (c_largest ms) l.bits_size all.sizes_bits;
        }

  layout_at-passed :
      (t : CType) (level : ℕ)
      → layout_at address_align t level ≡ layout address_align (passed_as t level)
  unfolding layout_at passed_as layout
  layout_at-passed (array ds t) zero = refl
  layout_at-passed (array ds t) (suc level) = refl
  layout_at-passed (scalar c) level = refl
  layout_at-passed object level = refl
  layout_at-passed block level = refl
  layout_at-passed function_pointer level = refl
  layout_at-passed (pointer t) level = refl
  layout_at-passed (bitfield ds) level = refl
  layout_at-passed (struct name ms) level = refl
  layout_at-passed (union name ms) level = refl

  passed-Agrees :
      (t : CType) (level : ℕ)
      → IsWellformed t
      → IsLaidOut t
      → Agrees
          (layout address_align (passed_as t level))
          (c_size (passed_as t level))
          (c_align (passed_as t level))
  unfolding passed_as layout c_size c_align
  passed-Agrees (array ds t) zero w h = record {
    natural_size = refl;
    natural_alignment = refl;
    bits_struct_alignment = refl;
    bits_size = refl;
  }
  passed-Agrees (array ds t) (suc level) w h = layout-Agrees (array ds t) w h
  passed-Agrees (scalar c) level w h = layout-Agrees (scalar c) w h
  passed-Agrees object level w h = layout-Agrees object w h
  passed-Agrees block level w h = layout-Agrees block w h
  passed-Agrees function_pointer level w h = layout-Agrees function_pointer w h
  passed-Agrees (pointer t) level w h = layout-Agrees (pointer t) w h
  passed-Agrees (bitfield ds) level w h = layout-Agrees (bitfield ds) w h
  passed-Agrees (struct name ms) level w h = layout-Agrees (struct name ms) w h
  passed-Agrees (union name ms) level w h = layout-Agrees (union name ms) w h

  module _ (aligned_zero : (a : ℕ) → address_align 0 a ≡ 0) where
    -- The parser reads the encoding of a C type up to its end, whatever follows that does not belong
    -- to it, and reports where the type starts and the size and the alignment that the rules of C
    -- give it on a 64-bit machine: members one behind the other at multiples of their alignments in a
    -- struct, one over the other in a union, and both filled up to a multiple of the largest
    -- alignment. On level 0 an array counts as a pointer. The type is well-formed and has no
    -- bitfields, no `void` and no union that C fills up behind its largest member (those get other
    -- sizes); lengths of arrays and sizes stay within the integers of the code; and
    -- `mulle_address_align` rounds up to the alignments 8 to 64 and leaves 0 alone.
    pub type_parse-c_layout :
        (t : CType) (level : ℕ) (rest : List ℕ)
        → IsWellformed t
        → IsLaidOut t
        → Fits address_align t
        → Follows t rest
        → (info : Typeinfo) × (parse_text address_align supply_scalar_typeinfo level true
              (encode t ++ rest)
            ≡ parsed rest (some info))
          × (info.type ≡ encode t ++ rest)
          × Agrees info.layout (c_size (passed_as t level)) (c_align (passed_as t level))
    type_parse-c_layout t level rest w h fits follows =
        let (i, run, shown) =
          type_parse-encode address_align aligned_zero t level true rest w fits follows in
        let (info, found, same, start) = shown in
        (
          info,
          run ∙ ap (parsed rest) found,
          start,
          subst (λ l. Agrees l (c_size (passed_as t level)) (c_align (passed_as t level)))
              (sym (same ∙ layout_at-passed t level)) (passed-Agrees t level w h),
        )
