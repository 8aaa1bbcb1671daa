-- ===== src/Tests/CacheExamples.antt =====
-- The theorems on the cache at the sample caches.
use mulle_objc_runtime.Prelude.{
  ℕ, ◌^◌, ◌≡◌, refl, arith, some, none, true, [], ◌==◌, if◌then◌else◌, false,
}
use mulle_objc_runtime.Cache.{
  Cache, init, grow, probe_pointer, probe_loop, should_grow, add_functionpointer_entry,
}
use mulle_objc_runtime.Cache.Lookup.{lookup, probe_pointer-lookup}
use mulle_objc_runtime.Cache.Add.{Added, add_functionpointer_entry-Added}
use mulle_objc_runtime.Cache.Pivot.{Memory, fill_functionpointer, impcache_fill}
use mulle_objc_runtime.Cache.Uninitialised.{
  impcache_fill-fill_functionpointer, impcache_fill_garbage,
}
use mulle_objc_runtime.Cache.Fill.{Filled, fill-Filled}
use mulle_objc_runtime.Cache.Full.{last_slot_fills}
use mulle_objc_runtime.Tests.CacheSamples.{one, three}

probe_pointer-lookup_example : probe_pointer one.cache 0x30 ≡ some (lookup 0x30 one.cache.entries)
probe_pointer-lookup_example =
    probe_pointer-lookup one.valid 0x30 (omega arith) (omega (arith, one.count, one.size))

add_functionpointer_entry-Added_example :
    (c' : Cache) × (o : ℕ) × (add_functionpointer_entry one.cache 2000 0x70 ≡ some (c', some o))
    × Added 2 one.cache 2000 0x70 c' o
add_functionpointer_entry-Added_example =
    add_functionpointer_entry-Added one.valid 2000 0x70 (omega (arith, one.count, one.size))
      (omega arith) (omega arith)

-- The cache with three of four slots filled, at address 1.
memory : Memory
memory = record {
  caches = λ a. if a == 1 then some three.cache else none;
  next = 2;
  pivot = 1;
  retired = [];
}

fill-Filled_example :
    (m' : Memory) × (o : ℕ) × (fill_functionpointer 2 memory 4000 0xf0 0 ≡ some (m', o))
    × Filled 2 memory three.cache 4000 0xf0 0 m' o
unfolding memory
fill-Filled_example =
    fill-Filled memory refl three.valid (omega arith) (omega arith) (omega arith) 4000 0xf0 0
      (omega arith) (omega arith) (omega arith)

last_slot_fills_example :
    (should_grow three.cache 90 ≡ false)
    × ((c' : Cache) × (o : ℕ) × (add_functionpointer_entry three.cache 4000 0xf0
          ≡ some (c', some o))
        × (c'.n ≡ c'.size)
        × (probe_loop 1000 c' 0x130 0x130 0 ≡ none))
last_slot_fills_example =
    last_slot_fills 4000 0xf0 0x130 90 1000 three.valid (omega (arith, three.count, three.size))
      (omega arith) (omega (arith, three.size)) (omega arith) (omega arith) (three.absent 0)
      (omega arith) (omega arith) (three.absent 1)

impcache_fill-fill_functionpointer_example :
    impcache_fill 2 memory 4000 0xf0 0 grow none ≡ fill_functionpointer 2 memory 4000 0xf0 0
impcache_fill-fill_functionpointer_example = impcache_fill-fill_functionpointer 2 memory 4000 0xf0 0

three_grows : should_grow three.cache 0 ≡ true
unfolding should_grow
three_grows = ground (arith, three.count, three.size)

impcache_fill_garbage_example :
    (m' : Memory) × (impcache_fill 1 memory 4000 0xf0 0 grow (some 77) ≡ some (m', 77))
    × (m'.caches m'.pivot ≡ some (init (2 ^ 3)))
    × (probe_pointer (init (2 ^ 3)) 0xf0 ≡ some 0)
unfolding memory
impcache_fill_garbage_example =
    impcache_fill_garbage 0 memory 4000 0xf0 0 77 refl three.valid (omega arith) (omega arith)
      three_grows (omega arith)
