-- ===== src/Signature/Binary.antt =====
-- Binary compatibility of two types: the field enumerator of mulle-objc-signature.c and the
-- comparison of the fields of two types.
use mulle_objc_runtime.Prelude.{
  ℕ, zero, suc, ◌+◌, ◌-◌, ◌^◌, ◌==◌, ltb, leb, Bool, true, false, ◌&&◌, ◌||◌, Option, none, some,
  List, [], ◌∷◌, if◌then◌else◌, length,
}
use mulle_objc_runtime.Signature.Parse.{array_length}
use mulle_objc_runtime.Signature.{skip_digits}
use mulle_objc_runtime.Signature.Walk.{skip_past}

-- `struct mulle_signature_field_enumerator`: the bytes from `curr` up to the sentinel, the arrays
-- that are open with their item and what is left to repeat, and the aggregates that are open, the
-- innermost first.
pub record Fields : Type 0 where
  pub curr : List ℕ
  pub array_state : List (List ℕ × ℕ)
  pub stack : List ℕ

-- A field, the end, or a failed assertion or a read past the sentinel.
pub data Field : Type 0 where
  field : ℕ → Fields → Field
  ended : Fields → Field
  fault out_of_fuel : Field

abbrev pub max_array_depth : ℕ
max_array_depth = 8

abbrev pub max_aggregate_depth : ℕ
max_aggregate_depth = 104

-- The code at the label `next`: an array that is not done yet starts over with its item.
unfoldable pub repeat : Fields → List ℕ → List (List ℕ × ℕ) → Fields
repeat p (b ∷ stack) ((item, n) ∷ arrays) =
    if b == b'[' && ltb 0 n
    then record p { curr = item; array_state = (item, n - 1) ∷ arrays }
    else p
repeat p (b ∷ stack) [] = p
repeat p [] arrays = p

unfoldable pub at_next : Fields → Fields
unfolding repeat
at_next p = repeat p p.stack p.array_state

abbrev pub top : List ℕ → ℕ
top [] = 0
top (b ∷ stack) = b

abbrev pub pop : List ℕ → List ℕ
pop [] = []
pop (b ∷ stack) = stack

abbrev pub pop_array : List (List ℕ × ℕ) → List (List ℕ × ℕ)
pop_array [] = []
pop_array (a ∷ arrays) = arrays

abbrev pub close_all : Fields → Fields
close_all p = record p { curr = [] }

-- An int that is stored in a size_t.
unfoldable pub to_size : ℕ → ℕ
to_size n = if ltb n (2 ^ 31) then n else n + (2 ^ 64 - 2 ^ 32)

-- `[5i`: the number and the item go into the repeater.
unfoldable pub open_array : Fields → List ℕ → Option Fields
unfolding skip_digits array_length to_size
open_array p s =
    if leb max_aggregate_depth (length p.stack + 1) || leb max_array_depth (length p.array_state)
    then none
    else some (record {
      curr = skip_digits s;
      array_state = (skip_digits s, to_size (array_length 0 s)) ∷ p.array_state;
      stack = b'[' ∷ p.stack;
    })

-- A struct's or union's first field stands behind `=`.
unfoldable pub open_aggregate : ℕ → Fields → List ℕ → Option (Option Fields)
unfolding skip_past
open_aggregate b p s =
    if leb max_aggregate_depth (length p.stack + 1) then none else elim (skip_past b'=' s) [
      | none ↦ some none
      | some r ↦ some (some (record p { curr = r; stack = b ∷ p.stack }))
    ]

-- The loop, for the aggregate that `next` found on top of the stack.
unfoldable mutual
  unfolding at_next open_array open_aggregate

  pub fields_loop : ℕ → Fields → List ℕ → Field
  fields_loop zero p s = out_of_fuel
  fields_loop (suc f) p [] = fault
  fields_loop (suc f) p (c ∷ s) =
      let p' = record p { curr = s; stack = pop p.stack } in
      let from_array = resume f (open_array p s) in
      let from_struct = resume_aggregate f (open_aggregate b'{' p s) (record p { curr = [] }) in
      let from_union = resume_aggregate f (open_aggregate b'(' p s) (record p { curr = [] }) in
      let end_array = resume f (some (record p' { array_state = pop_array p.array_state })) in
      let end_other = resume f (some p') in
      let skipped = fields_loop f p s in
      if c == b'['
      then from_array
      else if c == b']'
      then if top p.stack == b'['
        then if length p.stack == 1 then ended (close_all p') else end_array
        else fault
      else if c == b'{'
      then from_struct
      else if c == b'}'
      then if top p.stack == b'{'
        then if length p.stack == 1 then ended (close_all p') else end_other
        else fault
      else if c == b'('
      then from_union
      else if c == b')'
      then if top p.stack == b'(' || top p.stack == b')'
        then if length p.stack == 1 then ended (close_all p') else end_other
        else fault
      else if top p.stack == b')'
      then skipped
      else if top p.stack == b'('
      then field c (record p { curr = s; stack = b')' ∷ pop p.stack })
      else field c (record p { curr = if length p.stack == 0 then [] else s })

  -- `goto next`
  pub resume : ℕ → Option Fields → Field
  resume zero p = out_of_fuel
  resume (suc f) none = fault
  resume (suc f) (some p) = fields_loop f (at_next p) (at_next p).curr

  pub resume_aggregate : ℕ → Option (Option Fields) → Fields → Field
  resume_aggregate zero p q = out_of_fuel
  resume_aggregate (suc f) none q = fault
  resume_aggregate (suc f) (some none) q = ended q
  resume_aggregate (suc f) (some (some p)) q = fields_loop f (at_next p) (at_next p).curr

-- `_mulle_signature_field_enumerator_next`. A call passes over at most the text and opens or closes
-- each of its aggregates, so a multiple of the text is fuel enough for each.
unfoldable pub enumerator_next : ℕ → Fields → Field
unfolding fields_loop at_next
enumerator_next fuel p =
    let q = at_next p in elim (p.curr) [ [] ↦ ended p | c ∷ s ↦ fields_loop fuel q q.curr ]

-- The classes of the switch: the types that count as one.
unfoldable pub same_class : ℕ → ℕ → Bool
same_class a b =
    if a == b'=' || a == b'~' || a == b'@' || a == b'#'
    then b == b'=' || b == b'~' || b == b'@' || b == b'#'
    else if a == b'q' || a == b'Q'
    then b == b'q' || b == b'Q'
    else if a == b'l' || a == b'L'
    then b == b'l' || b == b'L'
    else if a == b'i' || a == b'I'
    then b == b'i' || b == b'I'
    else if a == b's' || a == b'S'
    then b == b's' || b == b'S'
    else if a == b'c' || a == b'C'
    then b == b'c' || b == b'C'
    else a == b

-- What one round makes of two fields; `none` for a fault or a lack of fuel.
unfoldable pub compatible_step : Field → Field → (Fields → Fields → Option Bool) → Option Bool
unfolding same_class
compatible_step (ended p) (ended q) loop = some true
compatible_step (ended p) (field b q) loop = some false
compatible_step (field a p) (ended q) loop = some false
compatible_step (field a p) (field b q) loop = if same_class a b then loop p q else some false
compatible_step fault y loop = none
compatible_step out_of_fuel y loop = none
compatible_step (ended p) y loop = none
compatible_step (field a p) y loop = none

unfoldable pub compatible_loop : ℕ → (Fields → Field) → Fields → Fields → Option Bool
compatible_loop zero next p q = none
compatible_loop (suc f) next p q =
    compatible_step (next p) (next q) (λ p' q'. compatible_loop f next p' q')

abbrev pub fields_of : List ℕ → Fields
fields_of s = record { curr = s; array_state = []; stack = [] }

-- `_mulle_objc_types_are_binary_compatible`, with fuel for the rounds and for each call.
unfoldable pub types_are_binary_compatible : ℕ → List ℕ → List ℕ → Option Bool
unfolding compatible_loop enumerator_next
types_are_binary_compatible fuel a b =
    compatible_loop fuel (enumerator_next fuel) (fields_of a) (fields_of b)
