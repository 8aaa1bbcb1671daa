-- ===== src/Cache/Stops.antt =====
-- Where a probe ends, and that it ends within one round if some slot has no value.
use Prim.Native.Nat.{bit_and}
use mulle_objc_runtime.Prelude.{
  ℕ, zero, suc, ◌+◌, ◌*◌, ◌/◌, ◌%◌, ◌^◌, ◌≤◌, ◌<◌, ◌≡◌, ◌≢◌, ◌⊎◌, inl, inr, arith, Option, some,
  ◌==◌, if◌then◌else◌, Bool-cases, get_elem?, get_elem?-get_or, ◌∙◌, ap, sym, subst, eq→==,
  ne→==-false,
}
use native.Mathlib.Decide.{dec_lt, ℕ_discrete as dec_eq}
use native.Mathlib.Nat.{add-zero}
use mulle_objc_runtime.Cache.{Cache, zeroed, Probe, hit, vacant, probe_loop, probe}
use mulle_objc_runtime.Cache.Slots.{
  slot, visit, IsShaped, visit-lt, visit-zero, visit-add-one, visit-surjective, masked, offset_step,
}

-- The slot after `i` others does not end the probe for `u`.
abbrev pub Passes : Cache → ℕ → ℕ → Type 0
Passes c u i = ((slot c (visit c u i)).value ≢ 0) × ((slot c (visit c u i)).key ≢ u)

-- The slot after `d` others is the first with the key or without a value.
pub record Stops (c : Cache) (u d : ℕ) : Type 0 where
  pub passed : (i : ℕ) → i < d → Passes c u i
  pub ended : ((slot c (visit c u d)).key ≡ u) ⊎ ((slot c (visit c u d)).value ≡ 0)

-- What the code returns for the slot `j`, reached after `d` others.
abbrev pub outcome : Cache → ℕ → ℕ → ℕ → Probe
outcome c u j d = if (slot c j).key == u then hit (j * 16) d (slot c j) else vacant (j * 16) d

module _ {k : ℕ} {c : Cache} (shaped : IsShaped k c) where
  -- A read at a masked offset is in bounds, and reads the slot.
  pub read_slot : (j : ℕ) → j < c.size → get_elem? c.entries (j * 16 / 16) ≡ some (slot c j)
  read_slot j h =
      let e : j * 16 / 16 ≡ j = omega arith in
      rw e (get_elem?-get_or c.entries j zeroed (omega (arith, shaped.size, shaped.room)))

  next : (u i : ℕ) → (visit c u i * 16 + 16) % 2 ^ 32 / 16 % c.size ≡ visit c u (i + 1)
  next u i =
      ap (λ (t : ℕ). t % c.size) (offset_step shaped (visit c u i) (visit-lt shaped u i))
      ∙ sym (visit-add-one shaped u i)

  at_end :
      (u i o : ℕ) (rest : Option Probe)
      → o ≡ visit c u i * 16
      → ((slot c (visit c u i)).key ≡ u) ⊎ ((slot c (visit c u i)).value ≡ 0)
      → let e = slot c (visit c u i) in
        (if e.key == u then some (hit o i e) else if e.value == 0 then some (vacant o i) else rest)
        ≡ some (outcome c u (visit c u i) i)
  at_end u i o rest h (inl e) = rw (eq→== _ _ e, h)
  at_end u i o rest h (inr e) = elim (Bool-cases ((slot c (visit c u i)).key == u)) [
    | inl p ↦ rw (p, h)
    | inr p ↦ rw (p, eq→== _ _ e, h)
  ]

  probe_loop-outcome :
      (u d fuel i x : ℕ)
      → Stops c u d
      → x / 16 % c.size ≡ visit c u i
      → i ≤ d
      → d < i + fuel
      → probe_loop fuel c u x i ≡ some (outcome c u (visit c u d) d)
  unfolding probe_loop
  probe_loop-outcome u d zero i x st at le lt = absurd (omega arith)
  probe_loop-outcome u d (suc fuel) i x st at le lt =
      let j = visit c u i in
      let here : bit_and x c.mask ≡ j * 16 = masked shaped x ∙ ap (λ (t : ℕ). t * 16) at in
      rw (here, read_slot j (visit-lt shaped u i), probe_loop)
        (elim (dec_lt i d) [
          | yes p ↦
              let (full, other) = st.passed i p in
              rw (ne→==-false _ _ other, ne→==-false _ _ full)
                (probe_loop-outcome u d fuel (i + 1) _ st (rw here (next u i)) (omega arith)
                  (omega arith))
          | no p ↦
              let same : d ≡ i = omega arith in
              rw same (
                at_end u i _ _ here (
                  subst (λ t. ((slot c (visit c u t)).key ≡ u) ⊎ ((slot c (visit c u t)).value ≡ 0))
                    same st.ended))
        ])

  -- From a slot without a value, `m` steps ahead.
  stops_within :
      (u m i : ℕ)
      → ((i' : ℕ) → i' < i → Passes c u i')
      → (slot c (visit c u (i + m))).value ≡ 0
      → (d : ℕ) × (d ≤ i + m) × Stops c u d
  stops_within u zero i before free =
      (i, omega arith, record { passed = before; ended = inr (rw (← add-zero i) free) })
  stops_within u (suc m) i before free = elim (dec_eq (slot c (visit c u i)).key u) [
    | yes e ↦ (i, omega arith, record { passed = before; ended = inl e })
    | no other ↦ elim (dec_eq (slot c (visit c u i)).value 0) [
      | yes e ↦ (i, omega arith, record { passed = before; ended = inr e })
      | no full ↦
          let shift : i + suc m ≡ (i + 1) + m = omega arith in
          let r =
            stops_within u m (i + 1)
              (λ i' h. elim (dec_lt i' i) [
                | yes p ↦ before i' p
                | no p ↦ let e : i' ≡ i = omega arith in subst (Passes c u) (sym e) (full, other)
              ])
              (rw shift at free) in
          (r.0, omega (arith, r.1), r.2)
    ]
  ]

  -- A probe that passes a slot does not end there.
  not-passed : (u d e : ℕ) → Stops c u d → Stops c u e → ¬ (d < e)
  not-passed u d e s t h = elim s.ended [
    | inl same ↦ (t.passed d h).1 same
    | inr free ↦ (t.passed d h).0 free
  ]

  pub Stops-unique : (u d e : ℕ) → Stops c u d → Stops c u e → d ≡ e
  Stops-unique u d e s t = omega (arith, not-passed u d e s t, not-passed u e d t s)

  -- With a slot left, the probe ends within one round, and returns what stands there.
  pub probe-stops :
      (u j : ℕ)
      → j < c.size
      → (slot c j).value ≡ 0
      → (d : ℕ) × (d < c.size) × Stops c u d × (probe c u ≡ some (outcome c u (visit c u d) d))
  unfolding probe
  probe-stops u j h free =
      let (m, lt, at) = visit-surjective shaped u j h in
      let (d, le, st) =
        stops_within u m 0 (λ i' p. absurd (omega arith))
          (subst (λ t. (slot c t).value ≡ 0) (sym at ∙ ap (visit c u) (omega arith)) free) in
      (
        d,
        omega arith,
        st,
        probe_loop-outcome u d c.size 0 u st (sym (visit-zero shaped u)) (omega arith)
            (omega arith),
      )
