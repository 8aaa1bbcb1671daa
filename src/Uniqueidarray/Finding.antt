-- ===== src/Uniqueidarray/Finding.antt =====
-- The linear search of an array of unique ids.
use mulle_objc_runtime.Prelude.{
  ℕ, zero, suc, ◌≡◌, ◌≢◌, refl, ◌∙◌, arith, none, List, ◌∷◌, length, ne→==-false, lt→ltb,
}
use mulle_objc_runtime.Uniqueidarray.{find, find_loop}

nothing_left : (entries : List ℕ) (sought : ℕ) → find_loop 0 entries 0 sought ≡ none
unfolding find_loop
nothing_left entries sought = refl

same_round :
    (fuel id sought : ℕ) (ids : List ℕ)
    → id ≢ sought
    → find_loop (suc fuel) (id ∷ ids) 0 sought ≡ find_loop fuel (id ∷ ids) 0 sought
unfolding find_loop
same_round fuel id sought ids ne = rw (
  find_loop,
  lt→ltb 0 (length (id ∷ ids)) (omega arith),
  find_loop,
  ne→==-false id sought ne,
  find_loop,
)

-- Unless the id sought is that of the first entry, the loop of `_mulle_objc_uniqueidarray_find` over
-- an array with entries never ends: it looks at the first entry again and again, also if a later
-- entry has the id.
pub find-endless :
    (fuel id sought : ℕ) (ids : List ℕ) (autosort : ℕ)
    → id ≢ sought
    → find fuel (record { autosort = autosort; entries = id ∷ ids }) sought ≡ none
unfolding find
find-endless zero id sought ids autosort ne = nothing_left (id ∷ ids) sought
find-endless (suc fuel) id sought ids autosort ne =
    same_round fuel id sought ids ne ∙ find-endless fuel id sought ids autosort ne
