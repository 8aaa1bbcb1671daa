-- ===== src/Cache/Valid.antt =====
-- The invariant of a cache that nobody is writing to, and that it holds of a new one.
use mulle_objc_runtime.Prelude.{
  ℕ, ◌^◌, ◌≤◌, ◌<◌, ◌≡◌, ◌≢◌, refl, Bool, not, arith, ◌==◌, ap, ◌∙◌, sym, count, length-replicate,
  get_or-replicate, count-replicate, count-lt-length,
}
use mulle_objc_runtime.Cache.{Entry, Cache, zeroed, init}
use mulle_objc_runtime.Cache.Slots.{slot, visit, IsShaped}
use mulle_objc_runtime.Cache.Stops.{Passes}

abbrev pub is_used : Entry → Bool
is_used e = not (e.value == 0)

-- `counted`: `n` is the number of values. `blank`, `named`: a slot has both key and value or
-- neither. `reachable`: the probe for a key passes every slot before the one that holds it.
pub record IsValid (k : ℕ) (c : Cache) : Type 0 where
  pub shaped : IsShaped k c
  pub counted : c.n ≡ count is_used c.entries
  pub blank : (j : ℕ) → (slot c j).value ≡ 0 → (slot c j).key ≡ 0
  pub named : (j : ℕ) → (slot c j).key ≡ 0 → (slot c j).value ≡ 0
  pub reachable :
      (u i : ℕ)
      → u ≢ 0
      → i < c.size
      → (slot c (visit c u i)).key ≡ u
      → (i' : ℕ) → i' < i
      → Passes c u i'

module _ {k : ℕ} {c : Cache} (valid : IsValid k c) where
  -- A cache that is not full has a slot without a value.
  pub vacancy : c.n < c.size → (j : ℕ) × (j < c.size) × ((slot c j).value ≡ 0)
  vacancy h =
      let s = valid.shaped in
      let (j, lt, free) =
        count-lt-length is_used c.entries zeroed (omega (arith, s.size, s.room, valid.counted)) in
      (j, omega (arith, s.size, s.room), ground arith)

-- The constructor builds a valid empty cache, for each power of two that the code may pass.
pub init-IsValid : (k : ℕ) → 2 ^ k ≤ 2 ^ 27 → IsValid k (init (2 ^ k))
unfolding init
init-IsValid k small = record {
  shaped = record {
    size = refl;
    mask = omega arith;
    room = length-replicate (2 ^ k) zeroed;
    small = small;
  };
  counted = sym (count-replicate is_used (2 ^ k) zeroed refl);
  blank = λ j h. ap (λ e. e.key) (get_or-replicate (2 ^ k) j zeroed);
  named = λ j h. ap (λ e. e.value) (get_or-replicate (2 ^ k) j zeroed);
  reachable = λ u i nz lt at.
      absurd (
        nz (sym at ∙ ap (λ e. e.key) (get_or-replicate (2 ^ k) (visit (init (2 ^ k)) u i) zeroed)));
}
