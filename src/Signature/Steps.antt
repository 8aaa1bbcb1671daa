-- ===== src/Signature/Steps.antt =====
-- One step through a signature that the compiler wrote: a type and the digits of its offset.
use mulle_objc_runtime.Prelude.{
  ℕ, ◌+◌, ◌/◌, ◌%◌, ◌^◌, ◌<◌, ◌≡◌, ◌≢◌, ◌∙◌, ◌==◌, refl, true, false, none, some, List, [], ◌∷◌,
  ◌++◌, arith, ne→==-false, if◌then◌else◌,
}
use mulle_objc_runtime.Signature.{Layout, Typeinfo, is_digit, char_at, supply_scalar_typeinfo}
use mulle_objc_runtime.Signature.Encode.{CType, Digits, encode, layout}
use mulle_objc_runtime.Signature.Wellformed.{IsWellformed, Follows, Starts, encode-Starts, Fits}
use mulle_objc_runtime.Signature.Pieces.{skip_digits_lem}
use mulle_objc_runtime.Signature.RoundTrip.{type_parse-encode, layout_at-inner}
use mulle_objc_runtime.Signature.Parse.{parse_text}
use mulle_objc_runtime.Signature.Walk.{
  at, supplied, skip_extended, skip_block, skip_quoted, skip_offset, skip_char, skip_parsed,
  next_type, supply_typeinfo, with_name, alignof_long_double,
}

-- What begins neither an offset nor extended information.
pub record IsPlain (c : ℕ) : Type 0 where
  pub not_digit : is_digit c ≡ false
  pub not_block : c ≢ b'<'
  pub not_quote : c ≢ b'"'
  pub not_minus : c ≢ b'-'
  pub not_plus : c ≢ b'+'

pub Starts-IsPlain : (c : ℕ) → Starts c → IsPlain c
Starts-IsPlain c s = record {
  not_digit = s.not_digit;
  not_block = s.not_block;
  not_quote = s.not_quote;
  not_minus = s.not_minus;
  not_plus = s.not_plus;
}

pub end-IsPlain : IsPlain (char_at [])
unfolding is_digit char_at
end-IsPlain = ground arith

-- Behind a type stand digits or what is plain.
record Unextended (c : ℕ) : Type 0 where
  not_block : c ≢ b'<'
  not_quote : c ≢ b'"'
  not_minus : c ≢ b'-'
  not_plus : c ≢ b'+'

digit-Unextended : (c : ℕ) → is_digit c ≡ true → Unextended c
unfolding is_digit
digit-Unextended c h = ground arith

Digits-Unextended :
    (ds rest : List ℕ) → Digits ds → IsPlain (char_at rest) → Unextended (char_at (ds ++ rest))
unfolding char_at
Digits-Unextended [] rest d p = record {
  not_block = p.not_block;
  not_quote = p.not_quote;
  not_minus = p.not_minus;
  not_plus = p.not_plus;
}
Digits-Unextended (x ∷ ds) rest d p = digit-Unextended x d.0

skip_extended_plain : (s : List ℕ) → IsPlain (char_at s) → skip_extended none s ≡ at s
unfolding skip_extended char_at
skip_extended_plain [] p = refl
skip_extended_plain (c ∷ s) p = ground arith

skip_extended_digit :
    (x : ℕ) (s : List ℕ) → is_digit x ≡ true → skip_extended none (x ∷ s) ≡ skip_extended none s
unfolding skip_extended is_digit
skip_extended_digit x s h = ground arith

pub skip_extended-Digits :
    (ds rest : List ℕ)
    → Digits ds
    → IsPlain (char_at rest)
    → skip_extended none (ds ++ rest) ≡ at rest
skip_extended-Digits [] rest d p = skip_extended_plain rest p
skip_extended-Digits (x ∷ ds) rest d p =
    skip_extended_digit x (ds ++ rest) d.0 ∙ skip_extended-Digits ds rest d.1 p

skip_char_other : (c : ℕ) (s : List ℕ) → char_at s ≢ c → skip_char c s ≡ s
unfolding skip_char
skip_char_other c s h = rw (ne→==-false (char_at s) c h)

skip_offset-Digits :
    (ds rest : List ℕ) → Digits ds → IsPlain (char_at rest) → skip_offset (ds ++ rest) ≡ rest
unfolding skip_offset
skip_offset-Digits ds rest d p =
    let u = Digits-Unextended ds rest d p in
    rw (skip_char_other b'-' (ds ++ rest) u.not_minus)
      (rw (skip_char_other b'+' (ds ++ rest) u.not_plus) (skip_digits_lem ds rest d p.not_digit))

skip_block_other : (s : List ℕ) → char_at s ≢ b'<' → skip_block s ≡ at s
unfolding skip_block
skip_block_other s h = rw (ne→==-false (char_at s) b'<' h)

skip_quoted_other : (s : List ℕ) → char_at s ≢ b'"' → skip_quoted s ≡ at s
unfolding skip_quoted
skip_quoted_other s h = rw (ne→==-false (char_at s) b'"' h)

with_name_other :
    (s : List ℕ) (info : Typeinfo) → char_at s ≢ b'"' → with_name s (some info) ≡ some info
unfolding with_name
with_name_other s info h = rw (ne→==-false (char_at s) b'"' h)

-- Where an argument starts in the frame, at the position `index`.
unfoldable pub frame_start : (ℕ → ℕ → ℕ) → ℕ → ℕ → Layout → ℕ
frame_start address_align index offset l =
    address_align offset (if index == 2 then alignof_long_double else l.bits_struct_alignment / 8)

module _ (address_align : ℕ → ℕ → ℕ) (aligned_zero : (a : ℕ) → address_align 0 a ≡ 0) where
  next_type-cons :
      (s : List ℕ)
      → char_at s ≢ 0
      → next_type address_align s
        ≡ skip_parsed (parse_text address_align supply_scalar_typeinfo 0 false s)
  unfolding next_type char_at
  next_type-cons [] h = absurd (h refl)
  next_type-cons (c ∷ s) h = refl

  pub next_type-encode :
      (t : CType) (ds rest : List ℕ)
      → IsWellformed t
      → Digits ds
      → Follows t (ds ++ rest)
      → IsPlain (char_at rest)
      → next_type address_align (encode t ++ (ds ++ rest)) ≡ at rest
  unfolding skip_parsed
  next_type-encode t ds rest w d f p =
      let (i, e, shown) =
        type_parse-encode address_align aligned_zero t 0 false (ds ++ rest) w tt f in
      next_type-cons (encode t ++ (ds ++ rest)) (encode-Starts t (ds ++ rest) w).nonzero
      ∙ rw e (skip_extended-Digits ds rest d p)

  -- One type with its offset is supplied: the info says where the argument lies in the frame.
  pub supply-encode :
      (t : CType) (ds rest : List ℕ) (index offset : ℕ)
      → IsWellformed t
      → Fits address_align t
      → Digits ds
      → Follows t (ds ++ rest)
      → IsPlain (char_at rest)
      → frame_start address_align index offset (layout address_align t)
          + (layout address_align t).natural_size
        < 2 ^ 32
      → let start = frame_start address_align index offset (layout address_align t) in
        (info : Typeinfo) × (supply_typeinfo address_align
            (encode t ++ (ds ++ rest))
            (record { index = index; level = 1; invocation_offset = some offset })
            true
          ≡ supplied rest
              (record {
                index = index;
                level = 1;
                invocation_offset = some (start + (layout address_align t).natural_size);
              })
              (some info))
        × (info.layout ≡ layout address_align t)
        × (info.type ≡ encode t ++ (ds ++ rest))
        × (info.pure_type_end ≡ some (ds ++ rest))
        × (info.invocation_offset ≡ start)
  unfolding supply_typeinfo frame_start
  supply-encode t ds rest index offset w fits d f p small =
      let (i, e, (ti, a, b, c)) =
        type_parse-encode address_align aligned_zero t 1 true (ds ++ rest) w fits f in
      let u = Digits-Unextended ds rest d p in
      let l = layout address_align t in
      let start = frame_start address_align index offset l in
      let layouts : ti.layout ≡ l = b ∙ layout_at-inner address_align aligned_zero t 0 in
      let ended = record ti { pure_type_end = some (ds ++ rest) } in
      let small_start : start % 2 ^ 32 ≡ start = omega arith in
      let small_end : (start + l.natural_size) % 2 ^ 32 ≡ start + l.natural_size = omega arith in
      (
        record ended { invocation_offset = start },
        rw (
          e,
          a,
          skip_block_other (ds ++ rest) u.not_block,
          skip_quoted_other (ds ++ rest) u.not_quote,
          with_name_other (ds ++ rest) ended u.not_quote,
          skip_offset-Digits ds rest d p,
          layouts,
          small_start,
          small_end,
        ),
        layouts,
        c,
        refl,
        refl,
      )
