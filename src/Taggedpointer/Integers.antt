-- ===== src/Taggedpointer/Integers.antt =====
-- Unsigned and signed integers in tagged pointers: which values fit, and that they come back.
use Prim.Native.Nat.{bit_and, bit_or}
use mulle_objc_runtime.Prelude.Bits.{bit_and_ones, bit_and_high, bit_or_low}
use mulle_objc_runtime.Prelude.{
  ℕ, ◌+◌, ◌-◌, ◌*◌, ◌/◌, ◌%◌, ◌^◌, ◌≤◌, ◌<◌, ◌≡◌, ◌⊎◌, ◌↔◌, true, arith, ap, ◌∙◌,
}
use mulle_objc_runtime.Taggedpointer.{
  Arch, bits32, bits64, word_mod, mask, shift, get_index, unsignedlostbitsmask,
  is_valid_unsigned_value, create_unsigned, get_unsigned_value, signedlostbitsmask,
  is_valid_signed_value, create_signed, get_signed_value,
}

pub get_index-low : (a : Arch) (p : ℕ) → get_index a p ≡ p % 2 ^ shift a
unfolding get_index
get_index-low bits32 p = bit_and_ones 2 p
get_index-low bits64 p = bit_and_ones 3 p

-- The largest index fits the bits that the shift frees.
index_fits : (a : Arch) (i : ℕ) → i ≤ mask a → i < 2 ^ shift a
index_fits bits32 i h = omega arith
index_fits bits64 i h = omega arith

-- The bits that an unsigned value loses.
lost_unsigned :
    (a : Arch) (v : ℕ)
    → bit_and v (unsignedlostbitsmask a)
      ≡ v / (word_mod a / 2 ^ shift a) % 2 ^ shift a * (word_mod a / 2 ^ shift a)
unfolding unsignedlostbitsmask
lost_unsigned bits32 v = bit_and_high 30 v 3 ∙ ap (λ (t : ℕ). t * 2 ^ 30) (bit_and_ones 2 _)
lost_unsigned bits64 v = bit_and_high 61 v 7 ∙ ap (λ (t : ℕ). t * 2 ^ 61) (bit_and_ones 3 _)

-- The bits that a signed value loses, the sign of what is left included.
lost_signed :
    (a : Arch) (v : ℕ)
    → bit_and v (signedlostbitsmask a)
      ≡ v / (word_mod a / 2 ^ (shift a + 1)) % 2 ^ (shift a + 1) * (word_mod a / 2 ^ (shift a + 1))
unfolding signedlostbitsmask
lost_signed bits32 v = bit_and_high 29 v 7 ∙ ap (λ (t : ℕ). t * 2 ^ 29) (bit_and_ones 3 _)
lost_signed bits64 v = bit_and_high 60 v 15 ∙ ap (λ (t : ℕ). t * 2 ^ 60) (bit_and_ones 4 _)

-- An unsigned value passes the test exactly if shifting it up loses nothing.
pub is_valid_unsigned_value_iff :
    (a : Arch) (value : ℕ)
    → value < word_mod a
    → (is_valid_unsigned_value a value ≡ true) ↔ (value * 2 ^ shift a < word_mod a)
unfolding is_valid_unsigned_value
is_valid_unsigned_value_iff bits32 v h = ground (arith, lost_unsigned bits32 v)
is_valid_unsigned_value_iff bits64 v h = ground (arith, lost_unsigned bits64 v)

tagged :
    (a : Arch) (v i : ℕ)
    → i < 2 ^ shift a
    → bit_or (v * 2 ^ shift a % word_mod a) i ≡ v % (word_mod a / 2 ^ shift a) * 2 ^ shift a + i
tagged bits32 v i h =
    let e : v * 2 ^ 2 % 2 ^ 32 ≡ v % 2 ^ 30 * 2 ^ 2 = omega arith in
    rw e (bit_or_low 2 (v % 2 ^ 30) i h)
tagged bits64 v i h =
    let e : v * 2 ^ 3 % 2 ^ 64 ≡ v % 2 ^ 61 * 2 ^ 3 = omega arith in
    rw e (bit_or_low 3 (v % 2 ^ 61) i h)

-- A machine word that passes `is_valid_unsigned_value` comes back from a tagged pointer with an
-- index of at most the mask, and so does the index.
pub get-create_unsigned :
    (a : Arch) (value index : ℕ)
    → value < word_mod a
    → is_valid_unsigned_value a value ≡ true
    → index ≤ mask a
    → (get_unsigned_value a (create_unsigned a value index) ≡ value)
      × (get_index a (create_unsigned a value index) ≡ index)
unfolding create_unsigned get_unsigned_value
get-create_unsigned bits32 v i h ok le =
    rw (get_index-low, tagged bits32 v i (index_fits bits32 i le))
      (let small = (is_valid_unsigned_value_iff bits32 v h).0 ok in (omega arith, omega arith))
get-create_unsigned bits64 v i h ok le =
    rw (get_index-low, tagged bits64 v i (index_fits bits64 i le))
      (let small = (is_valid_unsigned_value_iff bits64 v h).0 ok in (omega arith, omega arith))

-- A signed value, as a bit pattern, passes the test exactly if its magnitude leaves the shifted
-- bits and the sign free: it lies in the lowest or in the highest 2 ^ 60 patterns (2 ^ 29 of 32
-- bits).
pub is_valid_signed_value_iff :
    (a : Arch) (value : ℕ)
    → value < word_mod a
    → (is_valid_signed_value a value ≡ true) ↔ (
        (value < word_mod a / 2 ^ (shift a + 1))
        ⊎ (word_mod a - word_mod a / 2 ^ (shift a + 1) ≤ value))
unfolding is_valid_signed_value
is_valid_signed_value_iff bits32 v h = ground (arith, lost_signed bits32 v)
is_valid_signed_value_iff bits64 v h = ground (arith, lost_signed bits64 v)

-- A signed machine word that passes `is_valid_signed_value` comes back with its sign from a tagged
-- pointer with an index of at most the mask, and so does the index.
pub get-create_signed :
    (a : Arch) (value index : ℕ)
    → value < word_mod a
    → is_valid_signed_value a value ≡ true
    → index ≤ mask a
    → (get_signed_value a (create_signed a value index) ≡ value)
      × (get_index a (create_signed a value index) ≡ index)
unfolding create_signed get_signed_value
get-create_signed bits32 v i h ok le =
    rw (get_index-low, tagged bits32 v i (index_fits bits32 i le))
      (let range = (is_valid_signed_value_iff bits32 v h).0 ok in (ground arith, omega arith))
get-create_signed bits64 v i h ok le =
    rw (get_index-low, tagged bits64 v i (index_fits bits64 i le))
      (let range = (is_valid_signed_value_iff bits64 v h).0 ok in (ground arith, omega arith))
