-- ===== src/Classsearch/Depth.antt =====
-- The fuel that a search needs: one more than the number of superclasses, and one for the mixins.
use Prim.Native.Nat.{bit_and, bit_or}
use mathlib.Core.List.{reverse, reverse_aux}
use mulle_objc_runtime.Prelude.{
  ℕ, zero, suc, ◌+◌, ◌*◌, ◌/◌, ◌%◌, ◌^◌, ◌<◌, ◌≡◌, ◌≢◌, true, inl, inr, refl, arith, Option, some,
  List, [], ◌∷◌, ◌++◌, ◌==◌, if◌then◌else◌, ap, ◌∙◌, Bool-cases, eq→==, ne→==-false,
}
use native.Mathlib.Decide.{ℕ_discrete as dec_eq}
use mulle_objc_runtime.Prelude.Bits.{bit_or_step, bit_and_ones, bit_and_high}
use mulle_objc_runtime.Classsearch.{
  Class, Classes, has_bit, dont_inherit_protocols, dont_inherit_superclass,
  dont_inherit_protocol_categories,
}
use mulle_objc_runtime.Classsearch.Linear.{
  Place, join, of_mixin, of_mixins, of_protocols, of_superclass, mixin_inheritance, linear,
}

or_odd : (a w : ℕ) → a % 2 ≡ 1 → bit_or a w % 2 ≡ 1
or_odd a w h = omega (arith, bit_or_step a w)

has_bit-one : (a w : ℕ) → a % 2 ≡ 1 → has_bit (bit_or a w) dont_inherit_superclass ≡ true
has_bit-one a w h =
    let e : bit_and (bit_or a w) 1 ≡ 1 = bit_and_ones 1 (bit_or a w) ∙ or_odd a w h in rw e

or_half : (a w : ℕ) → bit_or a w / 2 ≡ bit_or (a / 2) (w / 2)
or_half a w = omega (arith, bit_or_step a w)

has_bit-four : (a w : ℕ) → a / 2 / 2 % 2 ≡ 1 → has_bit (bit_or a w) dont_inherit_protocols ≡ true
has_bit-four a w h =
    let e : bit_or a w / 2 ^ 2 ≡ bit_or (a / 2 / 2) (w / 2 / 2) =
      let quarter : bit_or a w / 2 ^ 2 ≡ bit_or a w / 2 / 2 = omega arith in
      quarter ∙ ap (λ t. t / 2) (or_half a w) ∙ or_half (a / 2) (w / 2) in
    let b : bit_and (bit_or a w) 4 ≡ 4 =
      bit_and_high 2 (bit_or a w) 1
      ∙ ap (λ t. t * 4)
          (bit_and_ones 1 (bit_or a w / 2 ^ 2)
            ∙ ap (λ t. t % 2) e
            ∙ or_odd (a / 2 / 2) (w / 2 / 2) h) in
    rw b

-- The mixins stop below themselves: neither superclasses nor mixins of theirs are searched.
mixin_bits :
    (inheritance w : ℕ)
    → (has_bit (bit_or (mixin_inheritance inheritance) w) dont_inherit_superclass ≡ true)
      × (has_bit (bit_or (mixin_inheritance inheritance) w) dont_inherit_protocols ≡ true)
mixin_bits inheritance w =
    elim (Bool-cases (has_bit inheritance dont_inherit_protocol_categories)) [
      | inl bit ↦ rw bit (has_bit-one 71 w (omega arith), has_bit-four 71 w (omega arith))
      | inr bit ↦ rw bit (has_bit-one 69 w (omega arith), has_bit-four 69 w (omega arith))
    ]

-- The walked classes of a mixin exist.
abbrev pub AllMixins : Classes → Class → List ℕ → Type 0
AllMixins classes c [] = Unit {0}
AllMixins classes c (mixin ∷ rover) =
    ((infra : Class) × (classes mixin ≡ some infra)
      × ((walked : Class) × (classes (if c.is_metaclass then infra.metaclass else mixin)
            ≡ some walked)))
    × AllMixins classes c rover

AllMixins-reverse :
    (classes : Classes) (c : Class) (xs r : List ℕ)
    → AllMixins classes c xs
    → AllMixins classes c r
    → AllMixins classes c (reverse_aux xs r)
AllMixins-reverse classes c [] r a b = b
AllMixins-reverse classes c (x ∷ xs) r a b = AllMixins-reverse classes c xs (x ∷ r) a.1 (a.0, b)

-- No pointer dangles, and a class has fewer superclasses above it than its subclasses have.
pub record IsHierarchy (classes : Classes) (height : ℕ → ℕ) : Type 0 where
  pub superclasses :
      (a : ℕ) (c : Class)
      → classes a ≡ some c
      → c.superclass ≢ 0
      → (c' : Class) × (classes c.superclass ≡ some c') × (height c.superclass < height a)
  pub infraclasses :
      (a : ℕ) (c : Class) → classes a ≡ some c → (c' : Class) × (classes c.infraclass ≡ some c')
  pub mixins : (a : ℕ) (c : Class) → classes a ≡ some c → AllMixins classes c c.mixins

IsDefined : Option (List Place) → Type 0
IsDefined o = (l : List Place) × (o ≡ some l)

given : (l : List Place) → IsDefined (some l)
unfolding IsDefined
given l = (l, refl)

join-IsDefined : (p q : Option (List Place)) → IsDefined p → IsDefined q → IsDefined (join p q)
unfolding IsDefined
join-IsDefined p q (k, e) (l, e') = (k ++ l, rw (e, e'))

module _ (classes : Classes) (height : ℕ → ℕ) (hierarchy : IsHierarchy classes height) where
  enter :
      (fuel a : ℕ) (c : Class) (inheritance : ℕ)
      → classes a ≡ some c
      → IsDefined (of_protocols (linear fuel classes) classes c inheritance)
      → IsDefined (of_superclass (linear fuel classes) classes c inheritance)
      → IsDefined (linear (suc fuel) classes a inheritance)
  unfolding linear
  enter fuel a c inheritance here p s =
      rw (linear, here) (join-IsDefined (some _) _ (given _) (join-IsDefined _ _ p s))

  no_superclass :
      (lin : ℕ → ℕ → Option (List Place)) (c : Class) (inheritance : ℕ)
      → has_bit inheritance dont_inherit_superclass ≡ true
      → IsDefined (of_superclass lin classes c inheritance)
  no_superclass lin c inheritance up = elim (Bool-cases (c.superclass == 0)) [
    | inl root ↦ rw (of_superclass, root) (given [])
    | inr sub ↦ rw (of_superclass, sub, up) (given [])
  ]

  -- A class with both bits set has only its own lists.
  leaf :
      (fuel a : ℕ) (c : Class) (inheritance : ℕ)
      → classes a ≡ some c
      → has_bit inheritance dont_inherit_superclass ≡ true
      → has_bit inheritance dont_inherit_protocols ≡ true
      → IsDefined (linear (suc fuel) classes a inheritance)
  leaf fuel a c inheritance here up across =
      enter fuel a c inheritance here (rw (of_protocols, across) (given []))
        (no_superclass (linear fuel classes) c inheritance up)

  mixins-IsDefined :
      (fuel : ℕ) (c : Class) (inheritance : ℕ) (rover : List ℕ)
      → AllMixins classes c rover
      → IsDefined
          (of_mixins (linear (suc fuel) classes) classes c (mixin_inheritance inheritance) rover)
  mixins-IsDefined fuel c inheritance [] all = given []
  mixins-IsDefined fuel c inheritance (mixin ∷ rover) all =
      elim (Bool-cases (mixin == c.infraclass)) [
        | inl same ↦ rw (of_mixins, same) (mixins-IsDefined fuel c inheritance rover all.1)
        | inr other ↦
            let (infra, here, (walked, there)) = all.0 in
            let (up, across) = mixin_bits inheritance walked.inheritance in
            let one =
              leaf fuel _ walked (bit_or (mixin_inheritance inheritance) walked.inheritance) there
                up across in
            rw (of_mixins, other)
              (join-IsDefined _ _ (rw (of_mixin, here, of_mixin, there) one)
                (mixins-IsDefined fuel c inheritance rover all.1))
      ]

  protocols-IsDefined :
      (fuel a : ℕ) (c : Class) (inheritance : ℕ)
      → classes a ≡ some c
      → IsDefined (of_protocols (linear (suc fuel) classes) classes c inheritance)
  protocols-IsDefined fuel a c inheritance here =
      elim (Bool-cases (has_bit inheritance dont_inherit_protocols)) [
        | inl bit ↦ rw (of_protocols, bit) (given [])
        | inr bit ↦
            let (infra, there) = hierarchy.infraclasses a c here in
            elim (Bool-cases infra.is_mixin) [
              | inl mixin ↦ rw (of_protocols, bit, there, of_protocols, mixin) (given [])
              | inr plain ↦
                  rw (of_protocols, bit, there, of_protocols, plain)
                    (mixins-IsDefined fuel c inheritance (reverse c.mixins)
                      (AllMixins-reverse classes c c.mixins [] (hierarchy.mixins a c here) _))
            ]
      ]

  -- The order is defined with as much fuel as there are superclasses, and two.
  pub linear-IsDefined :
      (fuel a : ℕ) (c : Class) (inheritance : ℕ)
      → classes a ≡ some c
      → height a + 1 < fuel
      → (l : List Place) × (linear fuel classes a inheritance ≡ some l)
  unfolding IsDefined
  linear-IsDefined zero a c inheritance here enough = absurd (omega arith)
  linear-IsDefined (suc zero) a c inheritance here enough = absurd (omega arith)
  linear-IsDefined (suc (suc fuel)) a c inheritance here enough =
      enter (suc fuel) a c inheritance here (protocols-IsDefined fuel a c inheritance here)
        (elim (dec_eq c.superclass 0) [
          | yes root ↦ rw (of_superclass, eq→== c.superclass 0 root) (given [])
          | no sub ↦ elim (Bool-cases (has_bit inheritance dont_inherit_superclass)) [
            | inl up ↦ no_superclass (linear (suc fuel) classes) c inheritance up
            | inr up ↦
                let (supercls, there, higher) = hierarchy.superclasses a c here sub in
                rw (of_superclass, ne→==-false c.superclass 0 sub, up, there)
                  (linear-IsDefined (suc fuel) c.superclass supercls _ there (omega arith))
          ]
        ])
