-- ===== src/Cache.antt =====
-- The method cache (src/mulle-objc-cache.c and .h): an open hash table of (uniqueid, pointer)
-- entries with linear probing over byte offsets. A pointer is a number and 0 is NULL.
-- The fill loop is in `Cache.Pivot`, the statistics are in `Cache.Stats`.
pub mod Slots
pub mod Stops
pub mod Valid
pub mod Lookup
pub mod Store
pub mod Add
pub mod Pivot
pub mod Fill
pub mod Full
pub mod Uninitialised
use Prim.Native.Nat.{bit_and}
use mulle_objc_runtime.Prelude.{
  map_option, ℕ, zero, suc, ◌+◌, ◌-◌, ◌*◌, ◌/◌, ◌%◌, ◌^◌, Bool, Option, none, some, List, ltb, leb,
  ◌==◌, if◌then◌else◌, get_elem?, set, replicate,
}

-- struct _mulle_objc_cacheentry: the two unions, 8 bytes each on a 64-bit machine. The optional
-- fields of a MULLE_TEST build are left out.
pub record Entry : Type 0 where
  pub key : ℕ
  pub value : ℕ

-- struct _mulle_objc_cache
pub record Cache : Type 0 where
  pub n : ℕ
  pub size : ℕ
  pub mask : ℕ
  pub entries : List Entry

-- sizeof( struct _mulle_objc_cacheentry)
abbrev pub sizeof_entry : ℕ
sizeof_entry = 16

abbrev pub min_cache_size : ℕ
min_cache_size = 4

abbrev pub zeroed : Entry
zeroed = record { key = 0; value = 0 }

-- `calloc` and _mulle_objc_cache_init. The mask is preshifted, and stored in 32 bits.
unfoldable pub init : ℕ → Cache
init size = record {
  n = 0;
  size = size;
  mask = (size - 1) * sizeof_entry % 2 ^ 32;
  entries = replicate size zeroed;
}

-- mulle_objc_cache_new
unfoldable pub new : ℕ → Cache
unfolding init
new size = init (if ltb size min_cache_size then min_cache_size else size)

-- enum mulle_objc_cachesizing_t
pub data Cachesizing : Type 0 where
  shrink stagnate grow : Cachesizing

-- _mulle_objc_cache_get_resize, in 32 bits
unfoldable pub get_resize : Cache → Cachesizing → ℕ
get_resize cache stagnate = cache.size
get_resize cache shrink =
    if leb cache.size (min_cache_size * 2) then min_cache_size else cache.size / 2
get_resize cache grow = cache.size * 2 % 2 ^ 32

-- _mulle_objc_cache_grow_with_strategy
unfoldable pub grow_with_strategy : Cache → Cachesizing → Cache
unfolding new get_resize
grow_with_strategy old_cache strategy = new (get_resize old_cache strategy)

-- _mulle_objc_cache_should_grow
unfoldable pub should_grow : Cache → ℕ → Bool
should_grow cache fillrate =
    if fillrate == 0
    then leb cache.size (cache.n * 3)
    else leb (cache.size * fillrate) (cache.n * 100)

-- What a probe ends at: the entry of the uniqueid or a slot without a value, with its byte offset
-- and the number of slots that were passed.
pub data Probe : Type 0 where
  hit : (offset index : ℕ) (entry : Entry) → Probe
  vacant : (offset index : ℕ) → Probe

-- The loop that the four probe functions share. `none`: the fuel ran out, or a read went out of
-- bounds. The offset is 32 bits wide.
unfoldable pub probe_loop : ℕ → Cache → ℕ → ℕ → ℕ → Option Probe
probe_loop zero cache uniqueid offset index = none
probe_loop (suc fuel) cache uniqueid offset index =
    let o = bit_and offset cache.mask in
    let rest = probe_loop fuel cache uniqueid ((o + sizeof_entry) % 2 ^ 32) (index + 1) in
    elim (get_elem? cache.entries (o / sizeof_entry)) [
      | none ↦ none
      | some entry ↦
          if entry.key == uniqueid
          then some (hit o index entry)
          else if entry.value == 0
          then some (vacant o index)
          else rest
    ]

unfoldable pub probe : Cache → ℕ → Option Probe
unfolding probe_loop
probe cache uniqueid = probe_loop cache.size cache uniqueid uniqueid 0

abbrev offset_of : Probe → ℕ
offset_of (hit o i e) = o
offset_of (vacant o i) = o

abbrev index_of : Probe → Option ℕ
index_of (hit o i e) = some i
index_of (vacant o i) = none

abbrev pointer_of : Probe → ℕ
pointer_of (hit o i e) = e.value
pointer_of (vacant o i) = 0

-- _mulle_objc_cache_probe_entryoffset
unfoldable pub probe_entryoffset : Cache → ℕ → Option ℕ
unfolding probe
probe_entryoffset cache uniqueid = map_option offset_of (probe cache uniqueid)

-- _mulle_objc_cache_probe_entryindex; the inner `none` is the -1
unfoldable pub probe_entryindex : Cache → ℕ → Option (Option ℕ)
unfolding probe
probe_entryindex cache uniqueid = map_option index_of (probe cache uniqueid)

-- _mulle_objc_cache_probe_pointer and _mulle_objc_cache_probe_functionpointer
unfoldable pub probe_pointer : Cache → ℕ → Option ℕ
unfolding probe
probe_pointer cache uniqueid = map_option pointer_of (probe cache uniqueid)

-- The write of the key, the value and the count that the add functions share.
unfoldable pub store : Cache → ℕ → ℕ → ℕ → Cache
store cache offset pointer uniqueid = record cache {
  n = cache.n + 1;
  entries = set cache.entries (offset / sizeof_entry) (record { key = uniqueid; value = pointer });
}

-- _mulle_objc_cache_add_pointer_inactive: the cache after it and the offset of the entry
unfoldable pub add_pointer_inactive : Cache → ℕ → ℕ → Option (Cache × ℕ)
add_pointer_inactive cache pointer uniqueid = elim (probe_entryoffset cache uniqueid) [
  | none ↦ none
  | some o ↦ elim (get_elem? cache.entries (o / sizeof_entry)) [
    | none ↦ none
    | some entry ↦
        if entry.value == 0 then some (store cache o pointer uniqueid, o) else some (cache, o)
  ]
]

-- _mulle_objc_cache_add_functionpointer_inactive, which looks at the key instead
unfoldable pub add_functionpointer_inactive : Cache → ℕ → ℕ → Option (Cache × ℕ)
add_functionpointer_inactive cache pointer uniqueid = elim (probe_entryoffset cache uniqueid) [
  | none ↦ none
  | some o ↦ elim (get_elem? cache.entries (o / sizeof_entry)) [
    | none ↦ none
    | some entry ↦
        if entry.key == 0 then some (store cache o pointer uniqueid, o) else some (cache, o)
  ]
]

-- _mulle_objc_cache_add_pointer_entry and _mulle_objc_cache_add_functionpointer_entry, run by one
-- thread: the compare-and-swap fails exactly if the slot has a value. The inner `none` is the NULL
-- that asks the caller to retry.
unfoldable pub add_functionpointer_entry : Cache → ℕ → ℕ → Option (Cache × Option ℕ)
add_functionpointer_entry cache pointer uniqueid = elim (probe_entryoffset cache uniqueid) [
  | none ↦ none
  | some o ↦ elim (get_elem? cache.entries (o / sizeof_entry)) [
    | none ↦ none
    | some entry ↦
        if entry.value == 0
        then some (store cache o pointer uniqueid, some o)
        else if entry.key == uniqueid
        then some (cache, some o)
        else some (cache, none)
  ]
]
