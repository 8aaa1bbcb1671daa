-- ===== src/Signature/Clayout/Rounding.antt =====
-- Alignments of C types, and rounding in bits and in bytes.
use mulle_objc_runtime.Prelude.{ℕ, ◌*◌, ◌/◌, ◌%◌, ◌≡◌, ◌≢◌, ◌∙◌, ap, sym, arith, inl, inr}
use mulle_objc_runtime.Signature.{supply_scalar_typeinfo}
use mulle_objc_runtime.Signature.Encode.{
  CType, Members, scalar, object, block, function_pointer, pointer, bitfield, array, struct, union,
  last, more,
}
use mulle_objc_runtime.Signature.Wellformed.{Scalar}
use mulle_objc_runtime.Signature.Parse.{max_or}
use mulle_objc_runtime.Signature.Clayout.{
  round_up, larger, c_scalar, c_align, c_aligns, IsAlignment, Agrees,
}

c_scalar-IsAlignment : (c : ℕ) → IsAlignment (c_scalar c)
unfolding c_scalar
c_scalar-IsAlignment c = ground arith

larger-IsAlignment : (a b : ℕ) → IsAlignment a → IsAlignment b → IsAlignment (larger a b)
larger-IsAlignment a b h k = ground arith

mutual
  unfolding c_align

  pub c_align-IsAlignment : (t : CType) → IsAlignment (c_align t)
  c_align-IsAlignment (scalar c) = c_scalar-IsAlignment c
  c_align-IsAlignment object = omega arith
  c_align-IsAlignment block = omega arith
  c_align-IsAlignment function_pointer = omega arith
  c_align-IsAlignment (pointer t) = omega arith
  c_align-IsAlignment (bitfield ds) = omega arith
  c_align-IsAlignment (array ds t) = c_align-IsAlignment t
  c_align-IsAlignment (struct name ms) = c_aligns-IsAlignment ms
  c_align-IsAlignment (union name ms) = c_aligns-IsAlignment ms

  pub c_aligns-IsAlignment : (ms : Members) → IsAlignment (c_aligns ms)
  c_aligns-IsAlignment (last t) = c_align-IsAlignment t
  c_aligns-IsAlignment (more t ms) =
      larger-IsAlignment (c_align t) (c_aligns ms) (c_align-IsAlignment t) (c_aligns-IsAlignment ms)

pub Scalar-Agrees :
    (c : ℕ) → Scalar c → c ≢ b'v' → Agrees (supply_scalar_typeinfo c).1 (c_scalar c) (c_scalar c)
unfolding supply_scalar_typeinfo c_scalar
Scalar-Agrees c h v = record {
  natural_size = ground arith;
  natural_alignment = ground arith;
  bits_struct_alignment = ground arith;
  bits_size = ground arith;
}

-- Rounding in bits is rounding in bytes.
pub round_up-bits : (n a : ℕ) → IsAlignment a → round_up (n * 8) (a * 8) ≡ round_up n a * 8
round_up-bits n a (inl e) = rw e (omega arith)
round_up-bits n a (inr (inl e)) = rw e (omega arith)
round_up-bits n a (inr (inr (inl e))) = rw e (omega arith)
round_up-bits n a (inr (inr (inr e))) = rw e (omega arith)

pub round_up-multiple : (n a : ℕ) → IsAlignment a → n % a ≡ 0 → round_up n a ≡ n
round_up-multiple n a (inl e) h = rw e (omega arith)
round_up-multiple n a (inr (inl e)) h =
    let even : n % 2 ≡ 0 = sym (ap (λ b. n % b) e) ∙ h in rw e (omega arith)
round_up-multiple n a (inr (inr (inl e))) h =
    let four : n % 4 ≡ 0 = sym (ap (λ b. n % b) e) ∙ h in rw e (omega arith)
round_up-multiple n a (inr (inr (inr e))) h =
    let eight : n % 8 ≡ 0 = sym (ap (λ b. n % b) e) ∙ h in rw e (omega arith)

pub both_larger : {a b m n : ℕ} → a ≡ m → b ≡ n → max_or a b ≡ larger m n
both_larger e f = ground arith

pub both_bits : {a b : ℕ} (m n : ℕ) → a ≡ m * 8 → b ≡ n * 8 → max_or a b ≡ larger m n * 8
both_bits m n e f = ground arith

pub bytes : (n : ℕ) → n * 8 / 8 ≡ n
bytes n = omega arith

pub times_assoc : (n m : ℕ) → n * (m * 8) ≡ n * m * 8
times_assoc n m = omega arith
