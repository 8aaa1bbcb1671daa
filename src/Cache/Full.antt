-- ===== src/Cache/Full.antt =====
-- A cache without an empty slot: probes for what it does not hold never end, and a fill rate close
-- to the largest one that the code accepts lets a small cache get there.
use native.Mathlib.Nat.{one-le-pow, mod-lt}
use mathlib.Core.Bool.{true≢false}
use mulle_objc_runtime.Prelude.{
  ℕ, zero, suc, ◌+◌, ◌-◌, ◌*◌, ◌/◌, ◌%◌, ◌<◌, ◌≡◌, ◌≢◌, refl, false, arith, none, some, ap, ◌∙◌,
  sym, eq→==, ne→==-false, lt→leb-false, count-eq-length, not,
}
use mulle_objc_runtime.Cache.{Cache, zeroed, should_grow, probe_loop, add_functionpointer_entry}
use mulle_objc_runtime.Cache.Slots.{slot, masked}
use mulle_objc_runtime.Cache.Stops.{read_slot}
use mulle_objc_runtime.Cache.Valid.{IsValid, is_used}
use mulle_objc_runtime.Cache.Lookup.{lookup, lookup-stored}
use mulle_objc_runtime.Cache.Add.{add_functionpointer_entry-Added}

module _ {k : ℕ} {c : Cache} (valid : IsValid k c) where
  full_slot : c.n ≡ c.size → (j : ℕ) → j < c.size → (slot c j).value ≢ 0
  full_slot full j lt z =
      let s = valid.shaped in
      let used =
        count-eq-length is_used c.entries zeroed (omega (arith, s.size, s.room, valid.counted)) j
          (omega (arith, s.size, s.room)) in
      true≢false (sym used ∙ ap not (eq→== _ 0 z))

  -- However many rounds it is given, a probe in a full cache does not end if no slot has the key.
  pub probe_loop-full :
      (u : ℕ)
      → c.n ≡ c.size
      → ((j : ℕ) → j < c.size → (slot c j).key ≢ u)
      → (fuel x i : ℕ) → probe_loop fuel c u x i ≡ none
  unfolding probe_loop
  probe_loop-full u full out zero x i = refl
  probe_loop-full u full out (suc fuel) x i =
      let j = x / 16 % c.size in
      let lt : j < c.size = mod-lt (x / 16) (omega (arith, valid.shaped.size, one-le-pow k 2)) in
      rw
        (
          masked valid.shaped x,
          read_slot valid.shaped j lt,
          probe_loop,
          ne→==-false _ u (out j lt),
          ne→==-false _ 0 (full_slot full j lt),
        )
        (probe_loop-full u full out fuel _ (i + 1))

-- The test before an addition accepts a valid cache with one slot left once the fill rate is above
-- `(size - 1) * 100 / size`, which is 75 for 4 slots and 87 for 8. The addition of a new uniqueid
-- then fills the last slot, and a probe for a third one that the cache does not hold never ends,
-- however many rounds it is given.
pub last_slot_fills :
    {k : ℕ} {c : Cache} (p u q rate fuel : ℕ)
    → IsValid k c
    → c.n + 1 ≡ c.size
    → rate ≢ 0
    → (c.size - 1) * 100 < c.size * rate
    → p ≢ 0
    → u ≢ 0
    → lookup u c.entries ≡ 0
    → q ≢ 0
    → q ≢ u
    → lookup q c.entries ≡ 0
    → (should_grow c rate ≡ false)
      × ((c' : Cache) × (o : ℕ) × (add_functionpointer_entry c p u ≡ some (c', some o))
          × (c'.n ≡ c'.size)
          × (probe_loop fuel c' q q 0 ≡ none))
unfolding should_grow
last_slot_fills {c} p u q rate fuel valid last nr high np nz absent nq ne out =
    let (c', o, run, added) = add_functionpointer_entry-Added valid p u (omega arith) np nz in
    let full : c'.n ≡ c'.size = added.counted ∙ rw (eq→== _ 0 absent) (last ∙ sym added.size) in
    let missing : lookup q c'.entries ≡ 0 = added.kept q ∙ rw (ne→==-false q u ne) out in
    (
      rw (ne→==-false rate 0 nr) (lt→leb-false (c.size * rate) (c.n * 100) (omega arith)),
      (
        c',
        o,
        run,
        full,
        probe_loop-full added.valid q full
            (λ j lt at.
              full_slot added.valid full j lt
                (sym (lookup-stored added.valid q j nq lt at) ∙ missing))
            fuel q 0,
      ),
    )
