-- ===== src/Retain/Threads/Sums.antt =====
-- Sums over the first threads.
use mulle_objc_runtime.Prelude.{ℕ, zero, suc, ◌+◌, ◌≤◌, ◌<◌, ◌≡◌, refl, arith}
use native.Mathlib.Decide.{dec_lt}
use mulle_objc_runtime.Retain.Threads.{set_at}

module _ {ℓ} {A : Type ℓ} (w : A → ℕ) where
  unfoldable pub sum_of : ℕ → (ℕ → A) → ℕ
  sum_of zero f = 0
  sum_of (suc n) f = w (f n) + sum_of n f

  sum_of-set_at_past :
      (n : ℕ) (f : ℕ → A) (i : ℕ) (a : A) → n ≤ i → sum_of n (set_at f i a) ≡ sum_of n f
  unfolding sum_of
  sum_of-set_at_past zero f i a h = ground arith
  sum_of-set_at_past (suc n) f i a h = ground (arith, sum_of-set_at_past n f i a)

  -- What one thread weighs is exchanged.
  pub sum_of-set_at :
      (n : ℕ) (f : ℕ → A) (i : ℕ) (a : A)
      → i < n
      → sum_of n (set_at f i a) + w (f i) ≡ sum_of n f + w a
  unfolding sum_of
  sum_of-set_at zero f i a h = absurd (omega arith)
  sum_of-set_at (suc n) f i a h = ground (arith, sum_of-set_at n f i a, sum_of-set_at_past n f i a)

  pub le-sum_of : (n : ℕ) (f : ℕ → A) (i : ℕ) → i < n → w (f i) ≤ sum_of n f
  unfolding sum_of
  le-sum_of zero f i h = absurd (omega arith)
  le-sum_of (suc n) f i h = ground (arith, le-sum_of n f i)

  -- A sum that is not 0 has a thread that weighs something.
  pub sum_of-pos : (n : ℕ) (f : ℕ → A) → 1 ≤ sum_of n f → (i : ℕ) × (i < n) × (1 ≤ w (f i))
  unfolding sum_of
  sum_of-pos zero f h = absurd (omega arith)
  sum_of-pos (suc n) f h = elim (dec_lt 0 (w (f n))) [
    | yes here ↦ (n, omega arith, omega arith)
    | no none ↦ let (i, lt, p) = sum_of-pos n f (omega arith) in (i, omega arith, p)
  ]

  pub sum_of-zero : (n : ℕ) (f : ℕ → A) → ((i : ℕ) → w (f i) ≡ 0) → sum_of n f ≡ 0
  unfolding sum_of
  sum_of-zero zero f h = refl
  sum_of-zero (suc n) f h = omega (arith, h n, sum_of-zero n f h)
