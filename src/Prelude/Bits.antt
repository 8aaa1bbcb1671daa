-- ===== src/Prelude/Bits.antt =====
-- The bit operations on words as arithmetic: masks, fields and rotations.
use mathlib.Core.Path.{◌≡◌, refl, ap, ◌∙◌}
use native.Mathlib.Nat.{pow-suc, one-le-pow, div-div-eq-div-mul}
use native.Mathlib.Omega.{arith}
use Prim.Native.Nat.{
  ℕ, zero, suc, ◌+◌, ◌-◌, ◌*◌, ◌/◌, ◌%◌, ◌^◌, ◌≤◌, ◌<◌, min, max, bit_and, bit_or, digits, bitwise,
  bit_and-bitwise, bit_or-bitwise,
}

module _ (z : ℕ → ℕ) (f : ℕ → ℕ → ℕ) where
  -- A round beyond the value of the first number changes nothing.
  one_more : (n a b : ℕ) → a ≤ n → digits z f (suc n) a b ≡ digits z f n a b
  one_more zero zero b h = refl
  one_more zero (suc a) b h = absurd (omega arith)
  one_more (suc n) zero b h = refl
  one_more (suc n) (suc a) b h =
      ap (λ t. t * 2 + f (suc a % 2) (b % 2)) (one_more n (suc a / 2) (b / 2) (omega arith))

  some_more : (d n m a b : ℕ) → m ≡ n + d → a ≤ n → digits z f m a b ≡ digits z f n a b
  some_more zero n m a b e h = ap (λ t. digits z f t a b) (omega arith)
  some_more (suc d) n zero a b e h = absurd (omega arith)
  some_more (suc d) n (suc m) a b e h =
      let e' : m ≡ n + d = omega arith in one_more m a b (omega arith) ∙ some_more d n m a b e' h

  lowest_digit :
      (a b : ℕ)
      → bitwise z f (suc a) b ≡ bitwise z f (suc a / 2) (b / 2) * 2 + f (suc a % 2) (b % 2)
  lowest_digit a b =
      ap (λ t. t * 2 + f (suc a % 2) (b % 2))
        (some_more (a - suc a / 2) (suc a / 2) a (suc a / 2) (b / 2) (omega arith) (omega arith))

pub bit_and_step : (a b : ℕ) → bit_and a b ≡ bit_and (a / 2) (b / 2) * 2 + min (a % 2) (b % 2)
bit_and_step zero b = omega (arith, bit_and-bitwise 0 b, bit_and-bitwise 0 (b / 2))
bit_and_step (suc a) b = simp bit_and-bitwise (lowest_digit (λ _. 0) min a b)

pub bit_or_step : (a b : ℕ) → bit_or a b ≡ bit_or (a / 2) (b / 2) * 2 + max (a % 2) (b % 2)
bit_or_step zero b = omega (arith, bit_or-bitwise 0 b, bit_or-bitwise 0 (b / 2))
bit_or_step (suc a) b = simp bit_or-bitwise (lowest_digit (λ y. y) max a b)

zero_by : (n a : ℕ) → a ≤ n → bit_and a 0 ≡ 0
zero_by n zero h = refl
zero_by zero (suc a) h = absurd (omega arith)
zero_by (suc n) (suc a) h =
    omega (arith, bit_and_step (suc a) 0, zero_by n (suc a / 2) (omega arith))

pub bit_and-zero : (a : ℕ) → bit_and a 0 ≡ 0
bit_and-zero a = zero_by a a (omega arith)

same_by : (n a : ℕ) → a ≤ n → bit_or a 0 ≡ a
same_by n zero h = refl
same_by zero (suc a) h = absurd (omega arith)
same_by (suc n) (suc a) h =
    omega (arith, bit_or_step (suc a) 0, same_by n (suc a / 2) (omega arith))

pub bit_or-zero : (a : ℕ) → bit_or a 0 ≡ a
bit_or-zero a = same_by a a (omega arith)

-- A mask of `k` ones keeps the remainder by `2 ^ k`, for a number given as quotient and remainder.
bit_and_ones_at : (k q r : ℕ) → r < 2 ^ k → bit_and (q * 2 ^ k + r) (2 ^ k - 1) ≡ r
bit_and_ones_at zero q r fits = rw bit_and-zero (omega arith)
bit_and_ones_at (suc k) q r fits = ground (
  arith,
  bit_and_step (q * 2 ^ suc k + r) (2 ^ suc k - 1),
  ap (λ (t : ℕ). q * t) (pow-suc 2 k),
  pow-suc 2 k,
  bit_and_ones_at k q (r / 2) (omega arith),
)

pub bit_and_ones : (k a : ℕ) → bit_and a (2 ^ k - 1) ≡ a % 2 ^ k
bit_and_ones k a = ground (arith, one-le-pow k 2, bit_and_ones_at k (a / 2 ^ k) (a % 2 ^ k))

pub bit_and_double : (a m : ℕ) → bit_and a (m * 2) ≡ bit_and (a / 2) m * 2
bit_and_double a m = omega (arith, bit_and_step a (m * 2), ap (bit_and (a / 2)) (halve m))
  where
    halve : (m : ℕ) → m * 2 / 2 ≡ m
    halve m = omega arith

pub bit_and_times8 : (a m : ℕ) → bit_and a (m * 8) ≡ bit_and (a / 8) m * 8
bit_and_times8 a m =
    let split : m * 8 ≡ m * 2 * 2 * 2 = omega arith in
    let down : a / 2 / 2 / 2 ≡ a / 8 = omega arith in
    rw split (
      rw
        (
          bit_and_double a (m * 2 * 2),
          bit_and_double (a / 2) (m * 2),
          bit_and_double (a / 2 / 2) m,
          down,
        )
        (omega arith))

-- The preshifted mask of a cache: `k` ones above four zeros.
pub bit_and_shifted_ones : (k a : ℕ) → bit_and a ((2 ^ k - 1) * 16) ≡ a / 16 % 2 ^ k * 16
bit_and_shifted_ones k a =
    let m = 2 ^ k - 1 in
    let split : m * 16 ≡ m * 2 * 8 = omega arith in
    let down : a / 8 / 2 ≡ a / 16 = omega arith in
    rw split (
      rw (bit_and_times8 a (m * 2), bit_and_double (a / 8) m, down, bit_and_ones k (a / 16))
        (omega arith))

-- The high bits of an or with a number below 8 are the first number's.
pub bit_or_low3 : (a i : ℕ) → i < 8 → bit_or (a * 8) i ≡ a * 8 + i
bit_or_low3 a i h =
    let up : a * 8 / 2 / 2 / 2 ≡ a = omega arith in
    let none_left : i / 2 / 2 / 2 ≡ 0 = omega arith in
    let top : bit_or (a * 8 / 2 / 2 / 2) (i / 2 / 2 / 2) ≡ a =
      ap (bit_or (a * 8 / 2 / 2 / 2)) none_left ∙ bit_or-zero _ ∙ up in
    omega (
      arith,
      bit_or_step (a * 8) i,
      bit_or_step (a * 8 / 2) (i / 2),
      bit_or_step (a * 8 / 2 / 2) (i / 2 / 2),
      top,
    )

or_comm_by : (n a b : ℕ) → a ≤ n → b ≤ n → bit_or a b ≡ bit_or b a
or_comm_by zero a b p q = ap (λ t. bit_or t b) (omega arith) ∙ ap (bit_or b) (omega arith)
or_comm_by (suc n) a b p q = omega (
  arith,
  bit_or_step a b,
  bit_or_step b a,
  or_comm_by n (a / 2) (b / 2) (omega arith) (omega arith),
)

pub bit_or_comm : (a b : ℕ) → bit_or a b ≡ bit_or b a
bit_or_comm a b = or_comm_by (a + b) a b (omega arith) (omega arith)

-- A field of `k` bits under a high part.
pub bit_or_low : (k q r : ℕ) → r < 2 ^ k → bit_or (q * 2 ^ k) r ≡ q * 2 ^ k + r
bit_or_low zero q r h = ap (bit_or (q * 1)) (omega arith) ∙ bit_or-zero (q * 1) ∙ omega arith
bit_or_low (suc k) q r h =
    let twice : q * 2 ^ suc k ≡ q * 2 ^ k * 2 =
      omega (arith, ap (λ (t : ℕ). q * t) (pow-suc 2 k)) in
    let half : q * 2 ^ suc k / 2 ≡ q * 2 ^ k = omega (arith, twice) in
    omega (
      arith,
      twice,
      bit_or_step (q * 2 ^ suc k) r,
      ap (λ t. bit_or t (r / 2)) half,
      bit_or_low k q (r / 2) (omega (arith, pow-suc 2 k)),
    )

pub bit_and_high : (k a m : ℕ) → bit_and a (m * 2 ^ k) ≡ bit_and (a / 2 ^ k) m * 2 ^ k
bit_and_high zero a m =
    let same : m * 1 ≡ m = omega arith in
    let whole : a / 1 ≡ a = omega arith in
    omega (arith, ap (bit_and a) same, ap (λ t. bit_and t m) whole)
bit_and_high (suc k) a m =
    let twice : m * 2 ^ suc k ≡ m * 2 ^ k * 2 =
      omega (arith, ap (λ (t : ℕ). m * t) (pow-suc 2 k)) in
    let down : a / 2 / 2 ^ k ≡ a / 2 ^ suc k =
      div-div-eq-div-mul a 2 (2 ^ k) ∙ ap (λ (t : ℕ). a / t) (omega (arith, pow-suc 2 k)) in
    let b = bit_and (a / 2 ^ suc k) m in
    let scale : b * 2 ^ suc k ≡ b * 2 ^ k * 2 =
      omega (arith, ap (λ (t : ℕ). b * t) (pow-suc 2 k)) in
    omega (
      arith,
      ap (bit_and a) twice,
      bit_and_double a (m * 2 ^ k),
      bit_and_high k (a / 2) m,
      ap (λ t. bit_and t m * 2 ^ k) down,
      scale,
    )

-- Setting the lowest 3 (or 2) bits.
pub bit_or_seven : (a : ℕ) → bit_or a 7 ≡ a / 8 * 8 + 7
bit_or_seven a =
    let top : bit_or (a / 2 / 2 / 2) 0 ≡ a / 8 = bit_or-zero _ ∙ omega arith in
    omega (arith, bit_or_step a 7, bit_or_step (a / 2) 3, bit_or_step (a / 2 / 2) 1, top)

pub bit_or_three : (a : ℕ) → bit_or a 3 ≡ a / 4 * 4 + 3
bit_or_three a =
    let top : bit_or (a / 2 / 2) 0 ≡ a / 4 = bit_or-zero _ ∙ omega arith in
    omega (arith, bit_or_step a 3, bit_or_step (a / 2) 1, top)
