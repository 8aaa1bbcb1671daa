-- ===== src/Signature/Clayout.antt =====
-- The sizes and alignments that C gives to types on a 64-bit machine, in bytes, written down without
-- the layouts of the runtime.
mod Rounding
pub mod Agreement
use mulle_objc_runtime.Prelude.{
  ℕ, ◌+◌, ◌-◌, ◌*◌, ◌/◌, ◌%◌, ◌^◌, ◌<◌, ◌≡◌, ◌≢◌, ◌⊎◌, ◌==◌, ltb, ◌||◌, zero, if◌then◌else◌,
}
use mulle_objc_runtime.Signature.{Layout}
use mulle_objc_runtime.Signature.Encode.{
  CType, Members, scalar, array, struct, union, bitfield, pointer, last, more, value,
}

-- The least multiple of `a` that is not below `n`.
abbrev pub round_up : ℕ → ℕ → ℕ
round_up n a = (n + (a - 1)) / a * a

abbrev pub larger : ℕ → ℕ → ℕ
larger a b = if ltb a b then b else a

-- `char` has 1 byte, `short` 2, `int`, `float`, `enum` and a selector have 4, all else has 8; a
-- scalar's alignment is its size.
unfoldable pub c_scalar : ℕ → ℕ
c_scalar c =
    if c == b'c' || c == b'C'
    then 1
    else if c == b's' || c == b'S'
    then 2
    else if c == b'i' || c == b'I' || c == b'B' || c == b'f' || c == b':'
    then 4
    else 8

-- An aggregate is aligned like the member with the largest alignment.
unfoldable mutual
  unfolding c_scalar

  pub c_align : CType → ℕ
  c_align (scalar c) = c_scalar c
  c_align (array ds t) = c_align t
  c_align (struct name ms) = c_aligns ms
  c_align (union name ms) = c_aligns ms
  c_align t = 8

  pub c_aligns : Members → ℕ
  c_aligns (last t) = c_align t
  c_aligns (more t ms) = larger (c_align t) (c_aligns ms)

-- A member starts at the first place behind the one before it that is aligned for it; the members
-- of a union all start at its beginning. A struct or a union is filled up to its alignment.
unfoldable mutual
  unfolding c_scalar value c_align

  pub c_size : CType → ℕ
  c_size (scalar c) = c_scalar c
  c_size (array ds t) = value 0 ds * c_size t
  c_size (struct name ms) = round_up (c_end 0 ms) (c_aligns ms)
  c_size (union name ms) = round_up (c_largest ms) (c_aligns ms)
  c_size t = 8

  pub c_end : ℕ → Members → ℕ
  c_end offset (last t) = round_up offset (c_align t) + c_size t
  c_end offset (more t ms) = c_end (round_up offset (c_align t) + c_size t) ms

  pub c_largest : Members → ℕ
  c_largest (last t) = c_size t
  c_largest (more t ms) = larger (c_size t) (c_largest ms)

-- No bitfields, no `void`, array lengths within an int, and no union that C fills up behind its
-- largest member. What a pointer points at does not matter.
abbrev mutual
  pub IsLaidOut : CType → Type 0
  IsLaidOut (scalar c) = c ≢ b'v'
  IsLaidOut (bitfield ds) = ⊥
  IsLaidOut (array ds t) = (value 0 ds < 2 ^ 31) × IsLaidOut t
  IsLaidOut (struct name ms) = AllLaidOut ms
  IsLaidOut (union name ms) = AllLaidOut ms × (c_largest ms % c_aligns ms ≡ 0)
  IsLaidOut t = Unit

  pub AllLaidOut : Members → Type 0
  AllLaidOut (last t) = IsLaidOut t
  AllLaidOut (more t ms) = IsLaidOut t × AllLaidOut ms

-- The alignments of C types.
abbrev pub IsAlignment : ℕ → Type 0
IsAlignment a = (a ≡ 1) ⊎ (a ≡ 2) ⊎ (a ≡ 4) ⊎ (a ≡ 8)

-- A layout with this size and alignment in bytes, also where it counts bits.
pub record Agrees (l : Layout) (size align : ℕ) : Type 0 where
  pub natural_size : l.natural_size ≡ size
  pub natural_alignment : l.natural_alignment ≡ align
  pub bits_struct_alignment : l.bits_struct_alignment ≡ align * 8
  pub bits_size : l.bits_size ≡ size * 8

-- What a decayed parameter is.
unfoldable pub passed_as : CType → ℕ → CType
passed_as (array ds t) zero = pointer t
passed_as t level = t
