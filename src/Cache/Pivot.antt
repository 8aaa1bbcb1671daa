-- ===== src/Cache/Pivot.antt =====
-- The pivot, a pointer to the current cache that is swapped atomically (src/mulle-objc-cache.c),
-- the swaps and both fill loops, that of src/mulle-objc-impcache.c included. The caches lie on a
-- heap, at addresses that are numbers; 0 is NULL.
use mulle_objc_runtime.Prelude.{
  ℕ, zero, suc, ◌+◌, Bool, true, false, Option, none, some, List, ◌∷◌, ◌==◌, if◌then◌else◌,
}
use mulle_objc_runtime.Cache.{
  Cache, Cachesizing, grow, grow_with_strategy, should_grow, add_functionpointer_entry,
}

-- `retired` lists what was handed to `abafree`: such a cache stays readable until every thread has
-- left it, so it stays in `caches`.
pub record Memory : Type 0 where
  pub caches : ℕ → Option Cache
  pub next : ℕ
  pub pivot : ℕ
  pub retired : List ℕ

abbrev pub update : (ℕ → Option Cache) → ℕ → Option Cache → ℕ → Option Cache
update f a c b = if b == a then c else f b

-- A block that no one has yet.
unfoldable pub allocate : Memory → Cache → Memory
allocate m c = record m { caches = update m.caches m.next (some c); next = m.next + 1 }

-- _mulle_objc_cachepivot_swap and _mulle_objc_impcachepivot_swap: `true` is the 0 of a swap that
-- was made, `false` the -1. A cache that was never published is freed at once.
unfoldable pub swap : Memory → (cache old_cache : ℕ) → Memory × Bool
swap m cache old_cache =
    if m.pivot == old_cache
    then (record m { pivot = cache; retired = old_cache ∷ m.retired }, true)
    else (record m { caches = update m.caches cache none }, false)

-- _mulle_objc_cachepivot_fill_functionpointer: the memory after it and the offset of the entry.
-- `none`: the fuel ran out or the pivot dangles.
unfoldable pub fill_functionpointer : ℕ → Memory → ℕ → ℕ → ℕ → Option (Memory × ℕ)
fill_functionpointer zero m imp uniqueid fillrate = none
fill_functionpointer (suc fuel) m imp uniqueid fillrate = elim (m.caches m.pivot) [
  | none ↦ none
  | some cache ↦ elim (should_grow cache fillrate) [
    | true ↦
        fill_functionpointer fuel
          ((swap (allocate m (grow_with_strategy cache grow)) m.next m.pivot).0) imp uniqueid
          fillrate
    | false ↦ elim (add_functionpointer_entry cache imp uniqueid) [
      | none ↦ none
      | some (cache', entry) ↦ elim entry [
        | some offset ↦ some (record m { caches = update m.caches m.pivot (some cache') }, offset)
        | none ↦
            fill_functionpointer fuel (record m { caches = update m.caches m.pivot (some cache') })
              imp uniqueid fillrate
      ]
    ]
  ]
]

-- _mulle_objc_impcachepivot_convenient_swap, which reads the old cache from the pivot itself
unfoldable pub convenient_swap : Memory → ℕ → Memory × Bool
convenient_swap m cache = swap m cache m.pivot

-- _mulle_objc_impcachepivot_fill. `entry` is the local variable, which the code does not
-- initialise: its first value is an argument here. The `continue` in the grow branch goes to the
-- loop's test, which reads it.
unfoldable pub impcache_fill :
    ℕ → Memory → (imp uniqueid fillrate : ℕ) → Cachesizing → Option ℕ → Option (Memory × ℕ)
impcache_fill zero m imp uniqueid fillrate strategy entry = none
impcache_fill (suc fuel) m imp uniqueid fillrate strategy entry = elim (m.caches m.pivot) [
  | none ↦ none
  | some cache ↦ elim (should_grow cache fillrate) [
    | true ↦
        let m' = (convenient_swap (allocate m (grow_with_strategy cache strategy)) m.next).0 in
        elim entry [
          | some offset ↦ some (m', offset)
          | none ↦ impcache_fill fuel m' imp uniqueid fillrate strategy none
        ]
    | false ↦ elim (add_functionpointer_entry cache imp uniqueid) [
      | none ↦ none
      | some (cache', entry') ↦
          let m' = record m { caches = update m.caches m.pivot (some cache') } in
          elim entry' [
            | some offset ↦ some (m', offset)
            | none ↦ impcache_fill fuel m' imp uniqueid fillrate strategy none
          ]
    ]
  ]
]
