-- ===== src/Taggedpointer/Floats.antt =====
-- Doubles and floats in tagged pointers: the values that the test accepts come back bit by bit.
use Prim.Native.Nat.{bit_and, bit_or}
use mulle_objc_runtime.Prelude.Bits.{
  bit_and_ones, bit_and_high, bit_or_low, bit_or_comm, bit_or_seven, bit_or_three,
}
use mulle_objc_runtime.Prelude.{
  ℕ, ◌+◌, ◌-◌, ◌*◌, ◌/◌, ◌%◌, ◌^◌, ◌≤◌, ◌<◌, ◌≡◌, refl, ◌⊎◌, inl, inr, true, false, arith, ◌==◌, ap,
  ◌∙◌,
}
use mulle_objc_runtime.Taggedpointer.{
  Arch, bits32, bits64, mask, get_index, is_valid_double_value, create_double, get_double_value,
  is_valid_float_value, create_float, get_float_value,
}
use mulle_objc_runtime.Taggedpointer.Integers.{get_index-low}

-- The test looks at the four exponent bits behind the top one.
is_valid_double_value-exponent :
    (d : ℕ) → is_valid_double_value bits64 d ≡ true → (d / 2 ^ 59 % 16 ≡ 8) ⊎ (d / 2 ^ 59 % 16 ≡ 7)
unfolding is_valid_double_value
is_valid_double_value-exponent d h = ground (arith, bit_and_ones 4 (d / 2 ^ 59))

clear_seven : (c : ℕ) → c < 2 ^ 64 → bit_and c (2 ^ 64 - 1 - 0x7) ≡ c / 8 * 8
clear_seven c h =
    bit_and_high 3 c (2 ^ 61 - 1)
    ∙ ap (λ (t : ℕ). t * 2 ^ 3) (bit_and_ones 61 (c / 8))
    ∙ omega arith

bit_three : (p : ℕ) → bit_and p 0x8 ≡ p / 8 % 2 * 8
bit_three p = bit_and_high 3 p 1 ∙ ap (λ (t : ℕ). t * 2 ^ 3) (bit_and_ones 1 (p / 8))

rotate_left :
    (d : ℕ) → d < 2 ^ 64 → bit_or (d * 2 ^ 5 % 2 ^ 64) (d / 2 ^ 59) ≡ d % 2 ^ 59 * 32 + d / 2 ^ 59
rotate_left d h =
    let e : d * 2 ^ 5 % 2 ^ 64 ≡ d % 2 ^ 59 * 2 ^ 5 = omega arith in
    rw e (bit_or_low 5 (d % 2 ^ 59) (d / 2 ^ 59) (omega arith))

rotate_right :
    (c : ℕ) → c < 2 ^ 64 → bit_or (c / 2 ^ 5) (c * 2 ^ 59 % 2 ^ 64) ≡ c % 32 * 2 ^ 59 + c / 32
rotate_right c h =
    let e : c * 2 ^ 59 % 2 ^ 64 ≡ c % 32 * 2 ^ 59 = omega arith in
    rw e
      (bit_or_comm (c / 2 ^ 5) (c % 32 * 2 ^ 59) ∙ bit_or_low 59 (c % 32) (c / 2 ^ 5) (omega arith))

create_double_sum :
    (d i : ℕ) → d < 2 ^ 64 → i ≤ 7 → create_double d i ≡ (d % 2 ^ 59 * 32 + d / 2 ^ 59) / 8 * 8 + i
unfolding create_double
create_double_sum d i h le =
    let c = d % 2 ^ 59 * 32 + d / 2 ^ 59 in
    rw (rotate_left d h, clear_seven c (omega arith)) (bit_or_low 3 (c / 8) i (omega arith))

-- The index replaces three bits that are all equal to the bit above them, complemented; that bit
-- brings them back.
get_double_value-restores :
    (d c p : ℕ)
    → d < 2 ^ 64
    → (d / 2 ^ 59 % 16 ≡ 8) ⊎ (d / 2 ^ 59 % 16 ≡ 7)
    → c ≡ d % 2 ^ 59 * 32 + d / 2 ^ 59
    → p < 2 ^ 64
    → p / 8 ≡ c / 8
    → get_double_value p ≡ d
unfolding get_double_value
get_double_value-restores d c p h (inl e) ec hp ep =
    let on : (bit_and p 0x8 == 0) ≡ false = ground (arith, bit_three p) in
    let back : bit_and p (2 ^ 64 - 1 - 0x7) ≡ c = clear_seven p hp ∙ omega arith in
    rw (on, back) (rotate_right c (omega arith) ∙ omega arith)
get_double_value-restores d c p h (inr e) ec hp ep =
    let off : (bit_and p 0x8 == 0) ≡ true = ground (arith, bit_three p) in
    let back : bit_or p 0x7 ≡ c = bit_or_seven p ∙ omega arith in
    rw (off, back) (rotate_right c (omega arith) ∙ omega arith)

-- A double that passes `is_valid_double_value` comes back with every bit from a tagged pointer of 64
-- bits with an index of at most the mask, and so does the index.
pub get-create_double :
    (d index : ℕ)
    → d < 2 ^ 64
    → is_valid_double_value bits64 d ≡ true
    → index ≤ mask bits64
    → (get_double_value (create_double d index) ≡ d)
      × (get_index bits64 (create_double d index) ≡ index)
get-create_double d i h ok le =
    let sum = create_double_sum d i h le in
    (
      get_double_value-restores d _ (create_double d i) h (is_valid_double_value-exponent d ok) refl
          (omega (arith, sum)) (omega (arith, sum)),
      get_index-low bits64 (create_double d i) ∙ omega (arith, sum),
    )

is_valid_float_value-exponent :
    (f : ℕ) → is_valid_float_value bits32 f ≡ true → (f / 2 ^ 28 % 8 ≡ 4) ⊎ (f / 2 ^ 28 % 8 ≡ 3)
unfolding is_valid_float_value
is_valid_float_value-exponent f h = ground (arith, bit_and_ones 3 (f / 2 ^ 28))

clear_three : (c : ℕ) → c < 2 ^ 32 → bit_and c (2 ^ 32 - 1 - 0x3) ≡ c / 4 * 4
clear_three c h =
    bit_and_high 2 c (2 ^ 30 - 1)
    ∙ ap (λ (t : ℕ). t * 2 ^ 2) (bit_and_ones 30 (c / 4))
    ∙ omega arith

bit_two : (p : ℕ) → bit_and p 0x4 ≡ p / 4 % 2 * 4
bit_two p = bit_and_high 2 p 1 ∙ ap (λ (t : ℕ). t * 2 ^ 2) (bit_and_ones 1 (p / 4))

rotate_right32 :
    (c : ℕ) → c < 2 ^ 32 → bit_or (c / 2 ^ 4) (c * 2 ^ 28 % 2 ^ 32) ≡ c % 16 * 2 ^ 28 + c / 16
rotate_right32 c h =
    let e : c * 2 ^ 28 % 2 ^ 32 ≡ c % 16 * 2 ^ 28 = omega arith in
    rw e
      (bit_or_comm (c / 2 ^ 4) (c % 16 * 2 ^ 28) ∙ bit_or_low 28 (c % 16) (c / 2 ^ 4) (omega arith))

create_float_sum32 :
    (f i : ℕ)
    → f < 2 ^ 32
    → i ≤ 3
    → create_float bits32 f i ≡ (f % 2 ^ 28 * 16 + f / 2 ^ 28) / 4 * 4 + i
unfolding create_float
create_float_sum32 f i h le =
    let c = f % 2 ^ 28 * 16 + f / 2 ^ 28 in
    let e : f * 2 ^ 4 % 2 ^ 32 ≡ f % 2 ^ 28 * 2 ^ 4 = omega arith in
    let rotated : bit_or (f % 2 ^ 28 * 2 ^ 4) (f / 2 ^ 28) ≡ c =
      bit_or_low 4 (f % 2 ^ 28) (f / 2 ^ 28) (omega arith) in
    rw (e, rotated, clear_three c (omega arith)) (bit_or_low 2 (c / 4) i (omega arith))

get_float_value-restores :
    (f c p : ℕ)
    → f < 2 ^ 32
    → (f / 2 ^ 28 % 8 ≡ 4) ⊎ (f / 2 ^ 28 % 8 ≡ 3)
    → c ≡ f % 2 ^ 28 * 16 + f / 2 ^ 28
    → p < 2 ^ 32
    → p / 4 ≡ c / 4
    → get_float_value bits32 p ≡ f
unfolding get_float_value
get_float_value-restores f c p h (inl e) ec hp ep =
    let whole : p % 2 ^ 32 ≡ p = omega arith in
    let on : (bit_and p 0x4 == 0) ≡ false = ground (arith, bit_two p) in
    let back : bit_and p (2 ^ 32 - 1 - 0x3) ≡ c = clear_three p hp ∙ omega arith in
    rw (whole, on, back) (rotate_right32 c (omega arith) ∙ omega arith)
get_float_value-restores f c p h (inr e) ec hp ep =
    let whole : p % 2 ^ 32 ≡ p = omega arith in
    let off : (bit_and p 0x4 == 0) ≡ true = ground (arith, bit_two p) in
    let back : bit_or p 0x3 ≡ c = bit_or_three p ∙ omega arith in
    rw (whole, off, back) (rotate_right32 c (omega arith) ∙ omega arith)

-- A float that passes `is_valid_float_value`, which on 64 bits all do, comes back with every bit from
-- a tagged pointer with an index of at most the mask, and so does the index.
pub get-create_float :
    (a : Arch) (f index : ℕ)
    → f < 2 ^ 32
    → is_valid_float_value a f ≡ true
    → index ≤ mask a
    → (get_float_value a (create_float a f index) ≡ f)
      × (get_index a (create_float a f index) ≡ index)
unfolding create_float get_float_value
get-create_float bits32 f i h ok le =
    let sum = create_float_sum32 f i h le in
    (
      get_float_value-restores f _ (create_float bits32 f i) h (is_valid_float_value-exponent f ok)
          refl (omega (arith, sum)) (omega (arith, sum)),
      get_index-low bits32 (create_float bits32 f i) ∙ omega (arith, sum),
    )
get-create_float bits64 f i h ok le =
    let e : f * 2 ^ 3 % 2 ^ 64 ≡ f * 2 ^ 3 = omega arith in
    rw (get_index-low, e, bit_or_low 3 f i (omega arith)) (omega arith, omega arith)
