-- ===== src/Search.antt =====
-- The searches and walks that the method, ivar, property, protocol and uniqueid lists share; each
-- list has its own copy of them in the C source (`_find`, `_bsearch`, `_walk`, `_enumerate`).
pub mod Sorted
pub mod Sorting
pub mod Walks
use mulle_objc_runtime.Prelude.{
  ℕ, zero, suc, ◌+◌, ◌-◌, ◌/◌, Bool, true, false, Option, none, some, List, [], ◌∷◌, ltb, leb, ◌==◌,
  if◌then◌else◌, get_elem?,
}

-- `while( p < sentinel)`: the first entry that passes the test.
unfoldable pub find {ℓ} : {A : Type ℓ} → (A → Bool) → List A → Option A
find test [] = none
find test (p ∷ list) = if test p then some p else find test list

-- The loop of a binary search; `last` is kept as `end`, which is `last + 1`, since it may be -1.
-- An outer `none` is a loop that did not end within the fuel, or a read outside of `buf`.
unfoldable pub bsearch_loop {ℓ} :
    {A : Type ℓ} → (A → ℕ) → ℕ → List A → (first end sought : ℕ) → Option (Option A)
bsearch_loop key zero buf first end sought = none
bsearch_loop key (suc fuel) buf first end sought = elim (ltb first end) [
  | false ↦ some none
  | true ↦
      let middle = (first + (end - 1)) / 2 in
      elim (get_elem? buf middle) [
        | none ↦ none
        | some p ↦ elim (leb (key p) sought) [
          | true ↦ elim (key p == sought) [
            | true ↦ some (some p)
            | false ↦ bsearch_loop key fuel buf (middle + 1) end sought
          ]
          | false ↦ bsearch_loop key fuel buf first middle sought
        ]
      ]
]

-- A binary search of `n` entries: no more rounds than entries, and one to see the end.
unfoldable pub bsearch {ℓ} : {A : Type ℓ} → (A → ℕ) → List A → (n sought : ℕ) → Option (Option A)
bsearch key buf n sought = bsearch_loop key (n + 1) buf 0 n sought

-- A walk: the callback changes what it has access to and returns a command, of which any but 0
-- ends the walk.
unfoldable pub walk {ℓ κ} : {A : Type ℓ} {S : Type κ} → (A → S → S × ℕ) → List A → S → S × ℕ
walk f [] s = (s, 0)
walk f (p ∷ list) s =
    let (s', rval) = f p s in let rest = walk f list s' in if rval == 0 then rest else (s', rval)

-- An enumerator holds the entries from the rover up to the sentinel.
unfoldable pub next {ℓ} : {A : Type ℓ} → List A → Option A × List A
next [] = (none, [])
next (p ∷ rover) = (some p, rover)

-- What a comparison of the C library returns; only the sign of the number is read.
pub data Sign : Type 0 where
  negative equal positive : Sign

-- The comparison of two uniqueids that all the lists are sorted with.
abbrev pub compare_ids : ℕ → ℕ → Sign
compare_ids a_id b_id = if ltb a_id b_id then negative else if a_id == b_id then equal else positive
