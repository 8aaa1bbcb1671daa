-- ===== src/Cache/Lookup.antt =====
-- A probe finds what a scan of all entries finds.
use mulle_objc_runtime.Prelude.{
  ℕ, zero, suc, ◌<◌, ◌≡◌, ◌≢◌, refl, ◌⊎◌, inl, inr, arith, some, List, [], ◌∷◌, ◌==◌, ap, ◌∙◌, sym,
  subst, if◌then◌else◌, length, get_or, eq→==, ne→==-false,
}
use native.Mathlib.Decide.{ℕ_discrete as dec_eq}
use mulle_objc_runtime.Cache.{Entry, Cache, zeroed, probe_pointer}
use mulle_objc_runtime.Cache.Slots.{slot, visit, visit-lt, visit-surjective}
use mulle_objc_runtime.Cache.Stops.{Stops, Stops-unique, probe-stops}
use mulle_objc_runtime.Cache.Valid.{IsValid, vacancy}

-- The reference: the value under the first entry with the key, NULL if there is none.
unfoldable pub lookup : ℕ → List Entry → ℕ
lookup u [] = 0
lookup u (e ∷ es) = if e.key == u then e.value else lookup u es

pub lookup_cases :
    (u : ℕ) (es : List Entry)
    → ((j : ℕ) × (j < length es)
        × ((get_or es j zeroed).key ≡ u)
        × (lookup u es ≡ (get_or es j zeroed).value))
      ⊎ (((j : ℕ) → j < length es → (get_or es j zeroed).key ≢ u) × (lookup u es ≡ 0))
unfolding lookup
lookup_cases u [] = inr ((λ j h. absurd (omega arith)), refl)
lookup_cases u (e ∷ es) = elim (dec_eq e.key u) [
  | yes p ↦ inl (0, omega arith, p, rw (eq→== _ _ p))
  | no p ↦ elim (lookup_cases u es) [
    | inl (j, lt, at, v) ↦ inl (suc j, omega arith, at, rw (ne→==-false _ _ p) v)
    | inr (out, v) ↦ inr (absent p out, rw (ne→==-false _ _ p) v)
  ]
]
  where
    absent :
        e.key ≢ u
        → ((j : ℕ) → j < length es → (get_or es j zeroed).key ≢ u)
        → (j : ℕ) → j < suc (length es)
        → (get_or (e ∷ es) j zeroed).key ≢ u
    absent p out zero lt = p
    absent p out (suc j) lt = out j (omega arith)

module _ {k : ℕ} {c : Cache} (valid : IsValid k c) where
  -- The probe for a stored key stops at its slot.
  pub Stops-stored :
      (u j : ℕ)
      → u ≢ 0
      → j < c.size
      → (slot c j).key ≡ u
      → (d : ℕ) × (d < c.size) × Stops c u d × (visit c u d ≡ j)
  Stops-stored u j nz lt at =
      let (i, li, e) = visit-surjective valid.shaped u j lt in
      let here = subst (λ t. (slot c t).key ≡ u) (sym e) at in
      (i, li, record { passed = valid.reachable u i nz li here; ended = inl here }, e)

  pub in_round : (j : ℕ) → j < length c.entries → j < c.size
  in_round j h = omega (arith, valid.shaped.size, valid.shaped.room)

  pub lookup-hit :
      (u d : ℕ)
      → u ≢ 0
      → Stops c u d
      → d < c.size
      → (slot c (visit c u d)).key ≡ u
      → lookup u c.entries ≡ (slot c (visit c u d)).value
  lookup-hit u d nz st lt at = elim (lookup_cases u c.entries) [
    | inl (j, lj, key, v) ↦
        let (e, le, st', same) = Stops-stored u j nz (in_round j lj) key in
        v
        ∙ ap (λ t. (slot c t).value)
            (sym same ∙ ap (visit c u) (Stops-unique valid.shaped u e d st' st))
    | inr (out, v) ↦ absurd (
        out (visit c u d)
          (omega (arith, visit-lt valid.shaped u d, valid.shaped.size, valid.shaped.room)) at)
  ]

  -- The slots without a value have the key 0.
  pub lookup-zero : lookup 0 c.entries ≡ 0
  lookup-zero = elim (lookup_cases 0 c.entries) [
    | inl (j, lj, at, v) ↦ v ∙ valid.named j at
    | inr (out, v) ↦ v
  ]

  -- A stored key is found wherever it stands.
  pub lookup-stored :
      (u j : ℕ) → u ≢ 0 → j < c.size → (slot c j).key ≡ u → lookup u c.entries ≡ (slot c j).value
  lookup-stored u j nz lt at =
      let (d, ld, st, same) = Stops-stored u j nz lt at in
      lookup-hit u d nz st ld (subst (λ t. (slot c t).key ≡ u) (sym same) at)
      ∙ ap (λ t. (slot c t).value) same

  pub lookup-miss :
      (u d : ℕ) → u ≢ 0 → Stops c u d → (slot c (visit c u d)).key ≢ u → lookup u c.entries ≡ 0
  lookup-miss u d nz st other = elim (lookup_cases u c.entries) [
    | inl (j, lj, key, v) ↦
        let (e, le, st', same) = Stops-stored u j nz (in_round j lj) key in
        absurd (
          other (
            subst (λ t. (slot c t).key ≡ u)
              (sym same ∙ ap (visit c u) (Stops-unique valid.shaped u e d st' st)) key))
    | inr (out, v) ↦ v
  ]

  -- In a valid cache with a slot left the probe for a nonzero uniqueid returns, within one round of
  -- the slots, what a scan of all entries returns.
  pub probe_pointer-lookup :
      (u : ℕ) → u ≢ 0 → c.n < c.size → probe_pointer c u ≡ some (lookup u c.entries)
  unfolding probe_pointer
  probe_pointer-lookup u nz room =
      let (j, lt, free) = vacancy valid room in
      let (d, ld, st, run) = probe-stops valid.shaped u j lt free in
      elim (dec_eq (slot c (visit c u d)).key u) [
        | yes p ↦ rw (run, eq→== _ _ p, lookup-hit u d nz st ld p)
        | no p ↦ rw (run, ne→==-false _ _ p, lookup-miss u d nz st p)
      ]
