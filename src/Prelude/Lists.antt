-- ===== src/Prelude/Lists.antt =====
-- Arrays as lists with native indices, under the library's names, and the number of elements that
-- pass a test.
use Prim.Native.Nat.{ℕ, zero, suc, ◌+◌, ◌≤◌, ◌<◌}
use mathlib.Core.Path.{◌≡◌, refl, ap}
use mathlib.Core.Logic.{◌≢◌, inl, inr}
use mathlib.Core.Bool.{Bool, true, false}
use mathlib.Core.List.{List, [], ◌∷◌, ◌++◌}
use mathlib.Core.Option.{Option, none, some}
use native.Mathlib.Omega.{arith}
use mulle_objc_runtime.Prelude.Tests.{Bool-cases}

abbrev pub to_nat : Bool → ℕ
to_nat true = 1
to_nat false = 0

module _ {ℓ} {A : Type ℓ} where
  abbrev pub length : List A → ℕ
  length [] = 0
  length (x ∷ xs) = suc (length xs)

  abbrev pub get_elem? : List A → ℕ → Option A
  get_elem? [] i = none
  get_elem? (x ∷ xs) zero = some x
  get_elem? (x ∷ xs) (suc i) = get_elem? xs i

  abbrev pub get_or : List A → ℕ → A → A
  get_or [] i d = d
  get_or (x ∷ xs) zero d = x
  get_or (x ∷ xs) (suc i) d = get_or xs i d

  -- A write out of bounds changes nothing.
  abbrev pub set : List A → ℕ → A → List A
  set [] i v = []
  set (x ∷ xs) zero v = v ∷ xs
  set (x ∷ xs) (suc i) v = x ∷ set xs i v

  abbrev pub replicate : ℕ → A → List A
  replicate zero a = []
  replicate (suc n) a = a ∷ replicate n a

module _ {ℓ} {A : Type ℓ} where
  -- How many elements pass the test.
  abbrev pub count : (A → Bool) → List A → ℕ
  count p [] = 0
  count p (x ∷ xs) = to_nat (p x) + count p xs

  pub length-append : (xs ys : List A) → length (xs ++ ys) ≡ length xs + length ys
  length-append [] ys = omega arith
  length-append (x ∷ xs) ys = omega (arith, length-append xs ys)

  pub length-set : (xs : List A) (i : ℕ) (v : A) → length (set xs i v) ≡ length xs
  length-set [] i v = refl
  length-set (x ∷ xs) zero v = refl
  length-set (x ∷ xs) (suc i) v = ap suc (length-set xs i v)

  pub length-replicate : (n : ℕ) (a : A) → length (replicate n a) ≡ n
  length-replicate zero a = refl
  length-replicate (suc n) a = ap suc (length-replicate n a)

  pub get_or-set_self :
      (xs : List A) (i : ℕ) (v d : A) → i < length xs → get_or (set xs i v) i d ≡ v
  get_or-set_self [] i v d h = elim h [ ]
  get_or-set_self (x ∷ xs) zero v d h = refl
  get_or-set_self (x ∷ xs) (suc i) v d h = get_or-set_self xs i v d (omega arith)

  pub get_or-set_ne :
      (xs : List A) (i j : ℕ) (v d : A) → i ≢ j → get_or (set xs i v) j d ≡ get_or xs j d
  get_or-set_ne [] i j v d h = refl
  get_or-set_ne (x ∷ xs) zero zero v d h = absurd (h refl)
  get_or-set_ne (x ∷ xs) zero (suc j) v d h = refl
  get_or-set_ne (x ∷ xs) (suc i) zero v d h = refl
  get_or-set_ne (x ∷ xs) (suc i) (suc j) v d h = get_or-set_ne xs i j v d (λ e. h (ap suc e))

  pub get_elem?-get_or :
      (xs : List A) (i : ℕ) (d : A) → i < length xs → get_elem? xs i ≡ some (get_or xs i d)
  get_elem?-get_or [] i d h = elim h [ ]
  get_elem?-get_or (x ∷ xs) zero d h = refl
  get_elem?-get_or (x ∷ xs) (suc i) d h = get_elem?-get_or xs i d (omega arith)

  pub get_or-replicate : (n i : ℕ) (a : A) → get_or (replicate n a) i a ≡ a
  get_or-replicate zero i a = refl
  get_or-replicate (suc n) zero a = refl
  get_or-replicate (suc n) (suc i) a = get_or-replicate n i a

  pub count-set :
      (p : A → Bool) (xs : List A) (i : ℕ) (v d : A)
      → i < length xs
      → count p (set xs i v) + to_nat (p (get_or xs i d)) ≡ count p xs + to_nat (p v)
  count-set p [] i v d h = elim h [ ]
  count-set p (x ∷ xs) zero v d h = omega arith
  count-set p (x ∷ xs) (suc i) v d h = omega (arith, count-set p xs i v d (omega arith))

  pub count-replicate : (p : A → Bool) (n : ℕ) (a : A) → p a ≡ false → count p (replicate n a) ≡ 0
  count-replicate p zero a h = refl
  count-replicate p (suc n) a h = rw h (omega (arith, count-replicate p n a h))

  -- With fewer passing elements than elements, some element does not pass.
  pub count-lt-length :
      (p : A → Bool) (xs : List A) (d : A)
      → count p xs < length xs
      → (i : ℕ) × (i < length xs) × (p (get_or xs i d) ≡ false)
  count-lt-length p [] d h = elim h [ ]
  count-lt-length p (x ∷ xs) d h = elim (Bool-cases (p x)) [
    | inl e ↦
        let r = count-lt-length p xs d (omega (arith, ap to_nat e)) in
        (suc r.0, omega (arith, r.1), r.2)
    | inr e ↦ (0, omega arith, e)
  ]

  pub count_le : (p : A → Bool) (xs : List A) → count p xs ≤ length xs
  count_le p [] = omega arith
  count_le p (x ∷ xs) = elim (Bool-cases (p x)) [
    | inl t ↦ omega (arith, ap to_nat t, count_le p xs)
    | inr f ↦ omega (arith, ap to_nat f, count_le p xs)
  ]

  -- With as many passing elements as elements, each passes.
  pub count-eq-length :
      (p : A → Bool) (xs : List A) (d : A)
      → count p xs ≡ length xs
      → (i : ℕ) → i < length xs
      → p (get_or xs i d) ≡ true
  count-eq-length p [] d e i h = elim h [ ]
  count-eq-length p (x ∷ xs) d e zero h = elim (Bool-cases (p x)) [
    | inl t ↦ t
    | inr f ↦ absurd (omega (arith, ap to_nat f, count_le p xs))
  ]
  count-eq-length p (x ∷ xs) d e (suc i) h = elim (Bool-cases (p x)) [
    | inl t ↦ count-eq-length p xs d (omega (arith, ap to_nat t)) i (omega arith)
    | inr f ↦ absurd (omega (arith, ap to_nat f, count_le p xs))
  ]
