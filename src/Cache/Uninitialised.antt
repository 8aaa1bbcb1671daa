-- ===== src/Cache/Uninitialised.antt =====
-- The fill loop of src/mulle-objc-impcache.c, whose local variable `entry` has no first value.
use mulle_objc_runtime.Prelude.{
  ℕ, zero, suc, ◌+◌, ◌^◌, ◌≤◌, ◌≡◌, ◌≢◌, refl, inl, inr, true, none, some, ◌∷◌, ◌==◌, ◌∙◌, sym,
  Bool-cases, Option-cases, eq→==, ne→==-false, ap, replicate,
}
use mulle_objc_runtime.Cache.{
  Cache, zeroed, init, grow, should_grow, probe_pointer, add_functionpointer_entry,
}
use mulle_objc_runtime.Cache.Valid.{IsValid, init-IsValid}
use mulle_objc_runtime.Cache.Lookup.{lookup, probe_pointer-lookup}
use mulle_objc_runtime.Cache.Fill.{grow_with_strategy-init, init_room}
use mulle_objc_runtime.Cache.Pivot.{
  Memory, update, allocate, swap, fill_functionpointer, convenient_swap, impcache_fill,
}

self : (a : ℕ) → (a == a) ≡ true
self a = eq→== a a refl

-- `_mulle_objc_impcachepivot_fill` tests its local variable `entry` before the first assignment to
-- it. If that happens to hold NULL, the function does the same as
-- `_mulle_objc_cachepivot_fill_functionpointer`, whatever the fuel.
pub impcache_fill-fill_functionpointer :
    (fuel : ℕ) (m : Memory) (imp u rate : ℕ)
    → impcache_fill fuel m imp u rate grow none ≡ fill_functionpointer fuel m imp u rate
unfolding impcache_fill fill_functionpointer convenient_swap allocate
impcache_fill-fill_functionpointer zero m imp u rate = refl
impcache_fill-fill_functionpointer (suc fuel) m imp u rate =
    elim (Option-cases (m.caches m.pivot)) [
      | inl e ↦ rw (e, impcache_fill, fill_functionpointer)
      | inr (c, e) ↦ elim (Bool-cases (should_grow c rate)) [
        | inl g ↦
            rw (e, impcache_fill, fill_functionpointer, g, impcache_fill, fill_functionpointer)
              (impcache_fill-fill_functionpointer fuel _ imp u rate)
        | inr g ↦ elim (Option-cases (add_functionpointer_entry c imp u)) [
          | inl a ↦ rw (
            e, impcache_fill, fill_functionpointer, g, impcache_fill, fill_functionpointer, a,
            impcache_fill, fill_functionpointer,
          )
          | inr ((c', none), a) ↦
              rw
                (
                  e, impcache_fill, fill_functionpointer, g, impcache_fill, fill_functionpointer, a,
                  impcache_fill, fill_functionpointer,
                )
                (impcache_fill-fill_functionpointer fuel _ imp u rate)
          | inr ((c', some o), a) ↦ rw (
            e, impcache_fill, fill_functionpointer, g, impcache_fill, fill_functionpointer, a,
            impcache_fill, fill_functionpointer,
          )
        ]
      ]
    ]

lookup-zeroed : (n u : ℕ) → u ≢ 0 → lookup u (replicate n zeroed) ≡ 0
unfolding lookup
lookup-zeroed zero u nz = refl
lookup-zeroed (suc n) u nz = rw (ne→==-false 0 u (λ e. nz (sym e))) (lookup-zeroed n u nz)

lookup-init : (k u : ℕ) → u ≢ 0 → lookup u (init (2 ^ k)).entries ≡ 0
unfolding init
lookup-init k u nz = lookup-zeroed (2 ^ k) u nz

-- If the local variable `entry` of `_mulle_objc_impcachepivot_fill`, which is tested before the
-- first assignment to it, holds anything but NULL and the cache should grow, the function returns
-- what the variable held, the current cache is the new empty one, and a probe of it does not find
-- the uniqueid: the implementation was not cached. The cache is valid, has 4 to 2 ^ 26 entries, and
-- the uniqueid is not 0.
pub impcache_fill_garbage :
    {k : ℕ} {c : Cache} (fuel : ℕ) (m : Memory) (imp u rate garbage : ℕ)
    → m.caches m.pivot ≡ some c
    → IsValid k c
    → 2 ≤ k
    → 2 ^ suc k ≤ 2 ^ 27
    → should_grow c rate ≡ true
    → u ≢ 0
    → (m' : Memory) × (impcache_fill (suc fuel) m imp u rate grow (some garbage)
        ≡ some (m', garbage))
      × (m'.caches m'.pivot ≡ some (init (2 ^ suc k)))
      × (probe_pointer (init (2 ^ suc k)) u ≡ some 0)
unfolding impcache_fill convenient_swap swap allocate
impcache_fill_garbage {k} {c} fuel m imp u rate garbage here valid big small grows nz = (
  record m {
    caches = update m.caches m.next (some (init (2 ^ suc k)));
    next = m.next + 1;
    pivot = m.next;
    retired = m.pivot ∷ m.retired;
  },
  rw (
    here,
    impcache_fill,
    grows,
    impcache_fill,
    grow_with_strategy-init valid big small,
    self m.pivot,
  ),
  rw (self m.next),
  probe_pointer-lookup (init-IsValid (suc k) small) u nz (init_room (suc k))
      ∙ ap some (lookup-init (suc k) u nz),
)
