-- ===== src/Signature/Classes.antt =====
-- Binary compatibility is an equivalence of types, where the comparison comes to an end.
use mulle_objc_runtime.Prelude.{
  ℕ, zero, suc, ◌≡◌, ◌≢◌, ◌∙◌, refl, sym, ◌==◌, Bool, true, false, ◌||◌, Option, some, List,
  if◌then◌else◌, arith, Bool-cases, inl, inr,
}
use mulle_objc_runtime.Signature.Binary.{
  Fields, Field, field, ended, fault, out_of_fuel, same_class, compatible_loop, compatible_step,
  types_are_binary_compatible, fields_of, enumerator_next,
}

-- One byte for each class of types that count as one.
class_of : ℕ → ℕ
class_of a =
    if a == b'=' || a == b'~' || a == b'@' || a == b'#'
    then b'@'
    else if a == b'Q'
    then b'q'
    else if a == b'L'
    then b'l'
    else if a == b'I'
    then b'i'
    else if a == b'S'
    then b's'
    else if a == b'C'
    then b'c'
    else a

same_class_sound : (a b : ℕ) → same_class a b ≡ true → class_of a ≡ class_of b
unfolding same_class class_of
same_class_sound a b h = elim (Bool-cases (a == b'=' || a == b'~' || a == b'@' || a == b'#')) [
  | inl e0 ↦ ground arith
  | inr n0 ↦ elim (Bool-cases (a == b'q' || a == b'Q')) [
    | inl e1 ↦ ground arith
    | inr n1 ↦ elim (Bool-cases (a == b'l' || a == b'L')) [
      | inl e2 ↦ ground arith
      | inr n2 ↦ elim (Bool-cases (a == b'i' || a == b'I')) [
        | inl e3 ↦ ground arith
        | inr n3 ↦ elim (Bool-cases (a == b's' || a == b'S')) [
          | inl e4 ↦ ground arith
          | inr n4 ↦ elim (Bool-cases (a == b'c' || a == b'C')) [
            | inl e5 ↦ ground arith
            | inr n5 ↦ ground arith
          ]
        ]
      ]
    ]
  ]
]

same_class_complete : (a b : ℕ) → class_of a ≡ class_of b → same_class a b ≡ true
unfolding same_class class_of
same_class_complete a b h = elim (Bool-cases (a == b'=' || a == b'~' || a == b'@' || a == b'#')) [
  | inl e0 ↦ ground arith
  | inr n0 ↦ elim (Bool-cases (a == b'q' || a == b'Q')) [
    | inl e1 ↦ ground arith
    | inr n1 ↦ elim (Bool-cases (a == b'l' || a == b'L')) [
      | inl e2 ↦ ground arith
      | inr n2 ↦ elim (Bool-cases (a == b'i' || a == b'I')) [
        | inl e3 ↦ ground arith
        | inr n3 ↦ elim (Bool-cases (a == b's' || a == b'S')) [
          | inl e4 ↦ ground arith
          | inr n4 ↦ elim (Bool-cases (a == b'c' || a == b'C')) [
            | inl e5 ↦ ground arith
            | inr n5 ↦ ground arith
          ]
        ]
      ]
    ]
  ]
]

same_class_self : (a : ℕ) → same_class a a ≡ true
same_class_self a = same_class_complete a a refl

same_class-sym : (a b : ℕ) → same_class a b ≡ true → same_class b a ≡ true
same_class-sym a b h = same_class_complete b a (sym (same_class_sound a b h))

same_class_trans :
    (a b c : ℕ) → same_class a b ≡ true → same_class b c ≡ true → same_class a c ≡ true
same_class_trans a b c h k =
    same_class_complete a c (same_class_sound a b h ∙ same_class_sound b c k)

module _ (next : Fields → Field) where
  step_self :
      (x : Field) (loop : Fields → Fields → Option Bool)
      → ((p : Fields) → loop p p ≢ some false)
      → compatible_step x x loop ≢ some false
  unfolding compatible_step
  step_self (field a p) loop h = rw (same_class_self a) (h p)
  step_self (ended p) loop h = λ e. cc
  step_self fault loop h = λ e. cc
  step_self out_of_fuel loop h = λ e. cc

  loop_self : (f : ℕ) (p : Fields) → compatible_loop f next p p ≢ some false
  unfolding compatible_loop
  loop_self zero p = λ e. cc
  loop_self (suc f) p = step_self (next p) _ (loop_self f)

  step_sym :
      (x y : Field) (loop : Fields → Fields → Option Bool)
      → ((p q : Fields) → loop p q ≡ some true → loop q p ≡ some true)
      → compatible_step x y loop ≡ some true
      → compatible_step y x loop ≡ some true
  unfolding compatible_step
  step_sym (ended p) (ended q) loop h e = refl
  step_sym (ended p) y loop h e = cc
  step_sym (field a p) (field b q) loop h e = ground (arith, same_class-sym a b, h p q)
  step_sym (field a p) y loop h e = cc
  step_sym fault y loop h e = cc
  step_sym out_of_fuel y loop h e = cc

  loop_sym :
      (f : ℕ) (p q : Fields)
      → compatible_loop f next p q ≡ some true
      → compatible_loop f next q p ≡ some true
  unfolding compatible_loop
  loop_sym zero p q h = cc
  loop_sym (suc f) p q h = step_sym (next p) (next q) _ (loop_sym f) h

  step_trans :
      (x y z : Field) (loop : Fields → Fields → Option Bool)
      → ((p q r : Fields) → loop p q ≡ some true → loop q r ≡ some true → loop p r ≡ some true)
      → compatible_step x y loop ≡ some true
      → compatible_step y z loop ≡ some true
      → compatible_step x z loop ≡ some true
  unfolding compatible_step
  step_trans (ended p) (ended q) (ended r) loop h e g = refl
  step_trans (ended p) (ended q) z loop h e g = cc
  step_trans (ended p) y z loop h e g = cc
  step_trans (field a p) (field b q) (field c r) loop h e g =
      ground (arith, same_class_trans a b c, h p q r)
  step_trans (field a p) (field b q) z loop h e g = ground arith
  step_trans (field a p) y z loop h e g = cc
  step_trans fault y z loop h e g = cc
  step_trans out_of_fuel y z loop h e g = cc

  loop_trans :
      (f : ℕ) (p q r : Fields)
      → compatible_loop f next p q ≡ some true
      → compatible_loop f next q r ≡ some true
      → compatible_loop f next p r ≡ some true
  unfolding compatible_loop
  loop_trans zero p q r h k = cc
  loop_trans (suc f) p q r h k = step_trans (next p) (next q) (next r) _ (loop_trans f) h k

-- Binary compatibility is an equivalence: no type is found incompatible with itself, the order of
-- the two types does not matter, and what is compatible with the same type is compatible. A
-- comparison with too little fuel, or one that fails, says neither.
pub compatible_equivalence :
    (fuel : ℕ) (a b c : List ℕ)
    → (types_are_binary_compatible fuel a a ≢ some false)
      × (types_are_binary_compatible fuel a b ≡ some true
          → types_are_binary_compatible fuel b a ≡ some true)
      × (types_are_binary_compatible fuel a b ≡ some true
          → types_are_binary_compatible fuel b c ≡ some true
          → types_are_binary_compatible fuel a c ≡ some true)
unfolding types_are_binary_compatible
compatible_equivalence fuel a b c =
    let next = enumerator_next fuel in
    (
      loop_self next fuel (fields_of a),
      loop_sym next fuel (fields_of a) (fields_of b),
      loop_trans next fuel (fields_of a) (fields_of b) (fields_of c),
    )
