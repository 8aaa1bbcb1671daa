-- ===== src/Method/Compare.antt =====
-- The comparison of descriptors orders them.
use mulle_objc_runtime.Prelude.{ℕ, ◌^◌, ◌<◌, ◌≡◌, ◌≢◌, ◌↔◌, refl, arith, List, [], ◌∷◌, ap, ◌∙◌}
use native.Mathlib.Decide.{ℕ_discrete as dec_eq}
use mulle_objc_runtime.Search.{Sign, negative, equal, positive}
use mulle_objc_runtime.Method.{
  Descriptor, strcmp, sign_of_difference, unless_zero, descriptor_compare,
}

abbrev pub flip : Sign → Sign
flip negative = positive
flip equal = equal
flip positive = negative

strcmp-flip : (a b : List ℕ) → strcmp b a ≡ flip (strcmp a b)
unfolding strcmp
strcmp-flip [] [] = refl
strcmp-flip [] (d ∷ b) = refl
strcmp-flip (c ∷ a) [] = refl
strcmp-flip (c ∷ a) (d ∷ b) = ground (arith, strcmp-flip a b)

strcmp_refl : (a : List ℕ) → strcmp a a ≡ equal
unfolding strcmp
strcmp_refl [] = refl
strcmp_refl (c ∷ a) = ground (arith, strcmp_refl a)

unequal : (c d : ℕ) (a b : List ℕ) → c ≢ d → strcmp (c ∷ a) (d ∷ b) ≢ equal
unfolding strcmp
unequal c d a b ne e = ground arith

strcmp-equal : (a b : List ℕ) → strcmp a b ≡ equal → a ≡ b
unfolding strcmp
strcmp-equal [] [] e = refl
strcmp-equal [] (d ∷ b) e = cc
strcmp-equal (c ∷ a) [] e = cc
strcmp-equal (c ∷ a) (d ∷ b) e = elim (dec_eq c d) [
  | yes same ↦
      let rest : strcmp a b ≡ equal = ground arith in
      ap (λ t. t ∷ a) same ∙ ap (λ t. d ∷ t) (strcmp-equal a b rest)
  | no other ↦ absurd (unequal c d a b other e)
]

difference-flip :
    (a b : ℕ) → a < 2 ^ 31 → b < 2 ^ 31 → sign_of_difference b a ≡ flip (sign_of_difference a b)
unfolding sign_of_difference
difference-flip a b la lb = ground arith

difference-equal : (a b : ℕ) → a < 2 ^ 32 → b < 2 ^ 32 → (sign_of_difference a b ≡ equal) ↔ (a ≡ b)
unfolding sign_of_difference
difference-equal a b la lb = ground arith

unless_zero-flip :
    (x y z : Sign)
    → unless_zero (flip x) (unless_zero (flip y) (flip z)) ≡ flip (unless_zero x (unless_zero y z))
unless_zero-flip negative y z = refl
unless_zero-flip positive y z = refl
unless_zero-flip equal negative z = refl
unless_zero-flip equal positive z = refl
unless_zero-flip equal equal z = refl

both_equal : (x rest : Sign) → unless_zero x rest ≡ equal → (x ≡ equal) × (rest ≡ equal)
both_equal negative rest e = cc
both_equal equal rest e = (refl, e)
both_equal positive rest e = cc

-- Comparing in the other order gives the opposite sign, and descriptors compare as equal exactly if
-- they agree in name, signature and bits. The bits are asked to leave bit 31 clear.
pub descriptor_compare-flip :
    (a b : Descriptor)
    → a.bits < 2 ^ 31
    → b.bits < 2 ^ 31
    → (descriptor_compare b a ≡ flip (descriptor_compare a b))
      × ((descriptor_compare a b ≡ equal)
          ↔ ((a.name ≡ b.name) × (a.signature ≡ b.signature) × (a.bits ≡ b.bits)))
unfolding descriptor_compare
descriptor_compare-flip a b la lb = (
  rw
      (
        strcmp-flip a.name b.name,
        strcmp-flip a.signature b.signature,
        difference-flip a.bits b.bits la lb,
      )
      (unless_zero-flip (strcmp a.name b.name) (strcmp a.signature b.signature) _),
  (
    λ e.
        let (n, rest) = both_equal (strcmp a.name b.name) _ e in
        let (s, d) = both_equal (strcmp a.signature b.signature) _ rest in
        (
          strcmp-equal a.name b.name n,
          strcmp-equal a.signature b.signature s,
          (difference-equal a.bits b.bits (omega arith) (omega arith)).0 d,
        ),
    λ (n, s, d). rw (
      n,
      s,
      strcmp_refl b.name,
      strcmp_refl b.signature,
      (difference-equal a.bits b.bits (omega arith) (omega arith)).1 d,
    ),
  ),
)
