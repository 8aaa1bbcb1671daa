-- ===== src/Tests/CacheRuns.antt =====
-- A cache of four slots in which two keys collide.
use mulle_objc_runtime.Prelude.{ℕ, ◌≡◌, refl, Option, none, some}
use mulle_objc_runtime.Cache.{
  Cache, new, store, probe_entryoffset, probe_pointer, probe_entryindex, add_pointer_inactive,
  add_functionpointer_entry, should_grow, grow_with_strategy, grow,
}

abbrev two_entries : Option (Cache × Option ℕ)
two_entries = elim (add_pointer_inactive (new 1) 1000 0x30) [
  | none ↦ none
  | some (c, o) ↦ add_functionpointer_entry c 2000 0x70
]

after : {A : Type 0} → (Cache → Option A) → Option A
after f = elim two_entries [ none ↦ none | some (c, o) ↦ f c ]

runs : Unit {0}
unfolding new store probe_entryoffset probe_pointer probe_entryindex add_pointer_inactive
    add_functionpointer_entry should_grow grow_with_strategy after
runs = tt

wraps_around : after (λ c. probe_entryindex c 0x70) ≡ some (some 1)
unfolding runs
wraps_around = refl

finds_both :
    (after (λ c. probe_pointer c 0x30) ≡ some 1000)
    × (after (λ c. probe_pointer c 0x70) ≡ some 2000)
unfolding runs
finds_both = (refl, refl)

misses : after (λ c. probe_pointer c 0xb0) ≡ some 0
unfolding runs
misses = refl

grows : after (λ c. some ((grow_with_strategy c grow).size)) ≡ some 8
unfolding runs
grows = refl
