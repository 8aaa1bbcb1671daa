-- ===== src/Tests/CacheSamples.antt =====
-- Valid caches of four slots with up to three entries, whose keys all have the same home.
use mulle_objc_runtime.Prelude.{
  ℕ, ◌+◌, ◌*◌, ◌^◌, ◌<◌, ◌≡◌, ◌≢◌, refl, arith, eq→==, ne→==-false, ◌∙◌, ap,
}
use mulle_objc_runtime.Cache.{Cache, init}
use mulle_objc_runtime.Cache.Valid.{IsValid, init-IsValid}
use mulle_objc_runtime.Cache.Lookup.{lookup}
use mulle_objc_runtime.Cache.Add.{add_functionpointer_entry-Added}

-- `n` entries in four slots, none of them under `u`.
pub record Sample (n u : ℕ) : Type 0 where
  pub cache : Cache
  pub valid : IsValid 2 cache
  pub count : cache.n ≡ n
  pub size : cache.size ≡ 4
  pub absent : (i : ℕ) → lookup (u + i * 0x40) cache.entries ≡ 0

pub empty : Sample 0 0x30
unfolding init lookup
empty = record {
  cache = init (2 ^ 2);
  valid = init-IsValid 2 (omega arith);
  count = refl;
  size = refl;
  absent = λ i. ground arith;
}

pub add_one : {n u : ℕ} (s : Sample n u) (p : ℕ) → n < 4 → p ≢ 0 → u ≢ 0 → Sample (n + 1) (u + 0x40)
add_one {n} {u} s p lt np nz =
    let (c', o, run, added) =
      add_functionpointer_entry-Added s.valid p u (omega (arith, s.count, s.size)) np nz in
    let new : lookup u s.cache.entries ≡ 0 =
      ap (λ t. lookup t s.cache.entries) (omega arith) ∙ s.absent 0 in
    record {
      cache = c';
      valid = added.valid;
      count = added.counted ∙ rw (eq→== _ 0 new) (omega (arith, s.count));
      size = added.size ∙ s.size;
      absent = λ i.
          added.kept (u + 0x40 + i * 0x40)
          ∙ rw (ne→==-false (u + 0x40 + i * 0x40) u (omega arith))
              (ap (λ t. lookup t s.cache.entries) (omega arith) ∙ s.absent (i + 1));
    }

pub one : Sample 1 0x70
one = add_one empty 1000 (omega arith) (omega arith) (omega arith)

pub three : Sample 3 0xf0
three =
    add_one (add_one one 2000 (omega arith) (omega arith) (omega arith)) 3000 (omega arith)
      (omega arith) (omega arith)
