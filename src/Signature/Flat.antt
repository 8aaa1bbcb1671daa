-- ===== src/Signature/Flat.antt =====
-- Binary compatibility of types that are not nested: scalars, and structs and arrays of them.
use mulle_objc_runtime.Prelude.{
  ◌⊎◌, ℕ, zero, suc, ◌+◌, ◌-◌, ◌^◌, ◌≤◌, ◌<◌, ◌≡◌, ◌≢◌, ◌∙◌, refl, ap, Bool, true, false, ◌&&◌,
  some, List, [], ◌∷◌, ◌++◌, arith, length, replicate, ◌==◌, if◌then◌else◌, ne→==-false, lt→ltb,
}
use mulle_objc_runtime.Signature.{is_digit, char_at, skip_digits, supply_scalar_typeinfo}
use mulle_objc_runtime.Signature.Wellformed.{Scalar}
use mulle_objc_runtime.Signature.Parse.{array_length}
use mulle_objc_runtime.Signature.Encode.{Digits, value}
use mulle_objc_runtime.Signature.Walk.{skip_past}
use mulle_objc_runtime.Signature.Pieces.{skip_digits_lem, array_length_lem}
use mulle_objc_runtime.Signature.Binary.{
  Fields, Field, field, ended, same_class, compatible_loop, compatible_step,
  types_are_binary_compatible, fields_of, enumerator_next, fields_loop, at_next, open_array,
  open_aggregate, repeat, top, to_size,
}

-- A scalar, a struct with a name of scalars, and an array of a scalar with the length in digits.
pub data Flat : Type 0 where
  one : ℕ → Flat
  record_of : List ℕ → List ℕ → Flat
  array_of : List ℕ → ℕ → Flat

-- The text of the type.
unfoldable pub written : Flat → List ℕ
written (one c) = c ∷ []
written (record_of name cs) = b'{' ∷ (name ++ (b'=' ∷ (cs ++ (b'}' ∷ []))))
written (array_of ds c) = b'[' ∷ (ds ++ (c ∷ b']' ∷ []))

-- The scalars that it holds.
unfoldable pub scalars : Flat → List ℕ
unfolding value
scalars (one c) = c ∷ []
scalars (record_of name cs) = cs
scalars (array_of ds c) = replicate (value 0 ds) c

-- A byte that is not part of an aggregate.
pub record IsScalar (c : ℕ) : Type 0 where
  pub not_array : c ≢ b'['
  pub not_array_end : c ≢ b']'
  pub not_struct : c ≢ b'{'
  pub not_struct_end : c ≢ b'}'
  pub not_union : c ≢ b'('
  pub not_union_end : c ≢ b')'

abbrev pub AllScalar : List ℕ → Type 0
AllScalar [] = Unit
AllScalar (c ∷ cs) = IsScalar c × AllScalar cs

abbrev pub WithoutEquals : List ℕ → Type 0
WithoutEquals [] = Unit
WithoutEquals (c ∷ s) = (c ≢ b'=') × WithoutEquals s

-- A type that is written with one byte.
abbrev pub IsField : ℕ → Type 0
IsField c = Scalar c ⊎ (c ≡ b'@')

IsField-IsScalar : (c : ℕ) → IsField c → IsScalar c
unfolding supply_scalar_typeinfo
IsField-IsScalar c h = record {
  not_array = ground arith;
  not_array_end = ground arith;
  not_struct = ground arith;
  not_struct_end = ground arith;
  not_union = ground arith;
  not_union_end = ground arith;
}

IsField-no_digit : (c : ℕ) → IsField c → is_digit c ≡ false
unfolding supply_scalar_typeinfo is_digit
IsField-no_digit c h = ground arith

abbrev pub AllFields : List ℕ → Type 0
AllFields [] = Unit
AllFields (c ∷ cs) = IsField c × AllFields cs

all-AllScalar : (cs : List ℕ) → AllFields cs → AllScalar cs
all-AllScalar [] h = tt
all-AllScalar (c ∷ cs) h = (IsField-IsScalar c h.0, all-AllScalar cs h.1)

-- An array has at least one element, and a length within an int.
abbrev pub IsFlat : Flat → Type 0
IsFlat (one c) = IsField c
IsFlat (record_of name cs) = WithoutEquals name × AllFields cs
IsFlat (array_of ds c) = Digits ds × (0 < value 0 ds) × (value 0 ds < 2 ^ 31) × IsField c

-- The same number of scalars, each of the same class as its counterpart.
unfoldable pub same_classes : List ℕ → List ℕ → Bool
unfolding same_class
same_classes [] [] = true
same_classes [] (b ∷ bs) = false
same_classes (a ∷ as') [] = false
same_classes (a ∷ as') (b ∷ bs) = same_class a b && same_classes as' bs

-- The calls of `next` return the fields, and then the end.
abbrev Yields : (Fields → Field) → Fields → List ℕ → Type 0
Yields next p [] = (q : Fields) × (next p ≡ ended q)
Yields next p (c ∷ cs) = (q : Fields) × (next p ≡ field c q) × Yields next q cs

loop-same :
    (next : Fields → Field) (as' bs : List ℕ) (f : ℕ) (p q : Fields)
    → length as' < f
    → Yields next p as'
    → Yields next q bs
    → compatible_loop f next p q ≡ some (same_classes as' bs)
unfolding compatible_loop compatible_step same_classes
loop-same next as' bs zero p q l y z = absurd (omega arith)
loop-same next [] [] (suc f) p q l (p', e) (q', e') = rw (e, e') refl
loop-same next [] (b ∷ bs) (suc f) p q l (p', e) (q', e', z) = rw (e, e') refl
loop-same next (a ∷ as') [] (suc f) p q l (p', e, y) (q', e') = rw (e, e') refl
loop-same next (a ∷ as') (b ∷ bs) (suc f) p q l (p', e, y) (q', e', z) =
    rw (e, e', loop-same next as' bs f p' q' (omega arith) y z)
      (joined (same_class a b) (same_classes as' bs))
  where
    joined : (x y : Bool) → (if x then some y else some false) ≡ some (x && y)
    joined true y = refl
    joined false y = refl

fields_loop-scalar :
    (f : ℕ) (p : Fields) (c : ℕ) (s : List ℕ)
    → IsScalar c
    → top p.stack ≢ b'('
    → top p.stack ≢ b')'
    → fields_loop (suc f) p (c ∷ s)
      ≡ field c (record p { curr = if length p.stack == 0 then [] else s })
unfolding fields_loop
fields_loop-scalar f p c s h u v =
    rw
      (
        ne→==-false c b'[' h.not_array,
        ne→==-false c b']' h.not_array_end,
        ne→==-false c b'{' h.not_struct,
        ne→==-false c b'}' h.not_struct_end,
        ne→==-false c b'(' h.not_union,
        ne→==-false c b')' h.not_union_end,
        ne→==-false (top p.stack) b')' v,
        ne→==-false (top p.stack) b'(' u,
      )
      refl

-- What is left of a struct.
abbrev in_struct : List ℕ → Fields
in_struct cs = record { curr = cs ++ b'}' ∷ []; array_state = []; stack = b'{' ∷ [] }

struct-Yields :
    (f : ℕ) (cs : List ℕ) → AllScalar cs → Yields (enumerator_next (suc f)) (in_struct cs) cs
unfolding enumerator_next at_next repeat fields_loop
struct-Yields f [] h = (_, refl)
struct-Yields f (c ∷ cs) h = (
  in_struct cs,
  fields_loop-scalar f (in_struct (c ∷ cs)) c (cs ++ b'}' ∷ []) h.0 (omega arith) (omega arith),
  struct-Yields f cs h.1,
)

-- What is left of an array with `n` more repeats.
abbrev in_array : ℕ → ℕ → Fields
in_array n c = record { curr = b']' ∷ []; array_state = (c ∷ b']' ∷ [], n) ∷ []; stack = b'[' ∷ [] }

abbrev at_item : ℕ → ℕ → Fields
at_item n c = record {
  curr = c ∷ b']' ∷ [];
  array_state = (c ∷ b']' ∷ [], n) ∷ [];
  stack = b'[' ∷ [];
}

at_next-repeat :
    (n c : ℕ) (s : List ℕ)
    → at_next (record { curr = s; array_state = (c ∷ b']' ∷ [], suc n) ∷ []; stack = b'[' ∷ [] })
      ≡ at_item n c
unfolding at_next repeat
at_next-repeat n c s =
    let one_less : suc n - 1 ≡ n = omega arith in rw (lt→ltb 0 (suc n) (omega arith), one_less) refl

item-field :
    (f n c : ℕ)
    → IsScalar c
    → fields_loop (suc f) (at_item n c) (c ∷ b']' ∷ []) ≡ field c (in_array n c)
item-field f n c h = fields_loop-scalar f (at_item n c) c (b']' ∷ []) h (omega arith) (omega arith)

array-Yields :
    (f : ℕ) (n c : ℕ) → IsScalar c → Yields (enumerator_next (suc f)) (in_array n c) (replicate n c)
unfolding enumerator_next at_next repeat fields_loop
array-Yields f zero c h = (_, refl)
array-Yields f (suc n) c h = (
  in_array n c,
  ap (λ (q : Fields). fields_loop (suc f) q q.curr) (at_next-repeat n c (b']' ∷ []))
      ∙ item-field f n c h,
  array-Yields f n c h,
)

skip_past-equals :
    (name s : List ℕ) → WithoutEquals name → skip_past b'=' (name ++ b'=' ∷ s) ≡ some s
unfolding skip_past
skip_past-equals [] s h = refl
skip_past-equals (c ∷ name) s h = rw (ne→==-false c b'=' h.0) (skip_past-equals name s h.1)

-- A struct's first call goes on inside of it.
struct-start :
    (f : ℕ) (name cs : List ℕ)
    → WithoutEquals name
    → enumerator_next (suc (suc (suc f))) (fields_of (written (record_of name cs)))
      ≡ fields_loop (suc f) (in_struct cs) (cs ++ b'}' ∷ [])
unfolding enumerator_next at_next repeat fields_loop written open_aggregate
struct-start f name cs h = rw (skip_past-equals name (cs ++ b'}' ∷ []) h) refl

opened-repeat :
    (ds : List ℕ) (n c : ℕ)
    → Digits ds
    → value 0 ds ≡ suc n
    → suc n < 2 ^ 31
    → is_digit c ≡ false
    → at_next (record {
      curr = skip_digits (ds ++ c ∷ b']' ∷ []);
      array_state =
          (skip_digits (ds ++ c ∷ b']' ∷ []), to_size (array_length 0 (ds ++ c ∷ b']' ∷ []))) ∷ [];
      stack = b'[' ∷ [];
    })
      ≡ at_item n c
unfolding char_at to_size
opened-repeat ds n c d v b h =
    let count = array_length_lem 0 ds (c ∷ b']' ∷ []) d (omega (arith, v)) h ∙ v in
    rw (skip_digits_lem ds (c ∷ b']' ∷ []) d h, count, lt→ltb (suc n) (2 ^ 31) b)
      (at_next-repeat n c (c ∷ b']' ∷ []))

array-start :
    (f : ℕ) (ds : List ℕ) (n c : ℕ)
    → Digits ds
    → value 0 ds ≡ suc n
    → suc n < 2 ^ 31
    → is_digit c ≡ false
    → enumerator_next (suc (suc (suc f))) (fields_of (written (array_of ds c)))
      ≡ fields_loop (suc f) (at_item n c) (c ∷ b']' ∷ [])
unfolding enumerator_next fields_loop written open_array
array-start f ds n c d v b h =
    ap (λ (q : Fields). fields_loop (suc f) q q.curr) (opened-repeat ds n c d v b h)

array_of-Yields :
    (f : ℕ) (ds : List ℕ) (n c : ℕ)
    → IsFlat (array_of ds c)
    → value 0 ds ≡ n
    → Yields
        (enumerator_next (suc (suc (suc f))))
        (fields_of (written (array_of ds c)))
        (replicate n c)
array_of-Yields f ds zero c h v = absurd (omega (arith, h.1, v))
array_of-Yields f ds (suc n) c h v = (
  in_array n c,
  array-start f ds n c h.0 v (omega (arith, h.2, v)) (IsField-no_digit c h.3)
      ∙ item-field f n c (IsField-IsScalar c h.3),
  array-Yields (suc (suc f)) n c (IsField-IsScalar c h.3),
)

flat-Yields :
    (f : ℕ) (t : Flat)
    → IsFlat t
    → Yields (enumerator_next (suc (suc (suc f)))) (fields_of (written t)) (scalars t)
unfolding scalars written enumerator_next at_next repeat fields_loop
flat-Yields f (one c) h = (
  fields_of [],
  fields_loop-scalar (suc (suc f)) (fields_of (c ∷ [])) c [] (IsField-IsScalar c h) (omega arith)
      (omega arith),
  (_, refl),
)
flat-Yields f (record_of name []) h = (fields_of [], struct-start f name [] h.0 ∙ refl)
flat-Yields f (record_of name (c ∷ cs)) h = (
  in_struct cs,
  struct-start f name (c ∷ cs) h.0
      ∙ fields_loop-scalar f (in_struct (c ∷ cs)) c (cs ++ b'}' ∷ []) (IsField-IsScalar c h.1.0)
          (omega arith) (omega arith),
  struct-Yields (suc (suc f)) cs (all-AllScalar cs h.1.1),
)
flat-Yields f (array_of ds c) h = array_of-Yields f ds (value 0 ds) c h refl

-- Two types that are not nested and hold no pointers are binary compatible exactly if they hold the
-- same number of scalars, each of the same class as its counterpart: structs, arrays and scalars
-- alike. A scalar is a type that is written with one byte, an array has 1 to 2 ^ 31 - 1 of them, and
-- a struct has no `=` in its name. Fuel for three more rounds than the first type has scalars is
-- enough.
pub types_are_binary_compatible-written :
    (fuel : ℕ) (t u : Flat)
    → IsFlat t
    → IsFlat u
    → length (scalars t) + 3 ≤ fuel
    → types_are_binary_compatible fuel (written t) (written u)
      ≡ some (same_classes (scalars t) (scalars u))
unfolding types_are_binary_compatible
types_are_binary_compatible-written zero t u h k l = absurd (omega arith)
types_are_binary_compatible-written (suc zero) t u h k l = absurd (omega arith)
types_are_binary_compatible-written (suc (suc zero)) t u h k l = absurd (omega arith)
types_are_binary_compatible-written (suc (suc (suc f))) t u h k l =
    loop-same (enumerator_next (suc (suc (suc f)))) (scalars t) (scalars u) (suc (suc (suc f))) _ _
      (omega arith) (flat-Yields f t h) (flat-Yields f u k)
