-- ===== src/Cache/Store.antt =====
-- Writing an entry into the slot without a value at which its probe stopped.
use native.Mathlib.Decide.{ℕ_discrete as dec_eq}
use mulle_objc_runtime.Prelude.{
  ℕ, ◌+◌, ◌*◌, ◌<◌, ◌≡◌, ◌≢◌, refl, inl, inr, true, false, arith, ◌==◌, ap, ◌∙◌, sym, subst,
  if◌then◌else◌, length, set, eq→==, ne→==-false, length-set, get_or-set_self, get_or-set_ne,
  count-set, count, to_nat, not,
}
use mulle_objc_runtime.Cache.{Entry, Cache, zeroed, store}
use mulle_objc_runtime.Cache.Slots.{slot, home, visit, IsShaped, visit-lt, visit-injective}
use mulle_objc_runtime.Cache.Stops.{Passes, Stops, Stops-unique}
use mulle_objc_runtime.Cache.Valid.{IsValid, is_used}
use mulle_objc_runtime.Cache.Lookup.{
  lookup, lookup_cases, lookup-zero, lookup-zero, lookup-stored, lookup-miss, Stops-stored,
  in_round,
}

module _ {k : ℕ} {c : Cache} (valid : IsValid k c) (u p d : ℕ) (nz : u ≢ 0) (np : p ≢ 0)
    (st : Stops c u d) (free : (slot c (visit c u d)).value ≡ 0) (lt : d < c.size) where
  after : Cache
  unfolding store
  after = store c (visit c u d * 16) p u

  target : ℕ
  target = visit c u d

  inside : target < length c.entries
  unfolding target
  inside = omega (arith, visit-lt valid.shaped u d, valid.shaped.size, valid.shaped.room)

  written : after.entries ≡ set c.entries target (record { key = u; value = p })
  unfolding after target
  written = ap (λ t. set c.entries t (record { key = u; value = p })) (omega arith)

  slot-target : slot after target ≡ record { key = u; value = p }
  slot-target = rw written (get_or-set_self c.entries target _ zeroed inside)

  slot-other : (j : ℕ) → j ≢ target → slot after j ≡ slot c j
  slot-other j ne = rw written (get_or-set_ne c.entries target j _ zeroed (λ e. ne (sym e)))

  visit-after : (q i : ℕ) → visit after q i ≡ visit c q i
  unfolding after visit home
  visit-after q i = refl

  -- A slot with a value is not the target, so it is as before.
  full-other : (j : ℕ) → (slot c j).value ≢ 0 → slot after j ≡ slot c j
  unfolding target
  full-other j full = slot-other j (λ e. full (subst (λ t. (slot c t).value ≡ 0) (sym e) free))

  Passes-after : (q i : ℕ) → Passes c q i → Passes after q i
  Passes-after q i pass =
      let same = ap (slot after) (visit-after q i) ∙ full-other (visit c q i) pass.0 in
      subst (λ e. (e.value ≢ 0) × (e.key ≢ q)) (sym same) pass

  IsShaped-after : IsShaped k after
  unfolding after
  IsShaped-after =
      let s = valid.shaped in
      record {
        size = s.size;
        mask = s.mask;
        room = length-set c.entries _ _ ∙ s.room;
        small = s.small;
      }

  counted-after : after.n ≡ count is_used after.entries
  unfolding target after
  counted-after =
      let v : Entry = record { key = u; value = p } in
      let more = count-set is_used c.entries target v zeroed inside in
      let full : is_used v ≡ true = ap not (ne→==-false p 0 np) in
      let empty : is_used (slot c target) ≡ false = ap not (eq→== _ 0 free) in
      let grown : after.n ≡ c.n + 1 = refl in
      omega (arith, ap (count is_used) written, ap to_nat full, ap to_nat empty, valid.counted)

  reachable-after :
      (q i : ℕ)
      → q ≢ 0
      → i < c.size
      → (slot after (visit after q i)).key ≡ q
      → (i' : ℕ) → i' < i
      → Passes after q i'
  unfolding target
  reachable-after q i nq li at i' h =
      let at' = ap (λ t. (slot after t).key) (sym (visit-after q i)) ∙ at in
      elim (dec_eq (visit c q i) target) [
        | yes e ↦
            let q-u : q ≡ u =
              sym at' ∙ ap (λ t. (slot after t).key) e ∙ ap (λ t. t.key) slot-target in
            let i-d : i ≡ d =
              visit-injective valid.shaped u i d li lt (ap (λ t. visit c t i) (sym q-u) ∙ e) in
            Passes-after q i' (subst (λ t. Passes c t i') (sym q-u) (st.passed i' (omega arith)))
        | no ne ↦
            Passes-after q i'
              (valid.reachable q i nq li (ap (λ t. t.key) (sym (slot-other _ ne)) ∙ at') i' h)
      ]

  -- What holds of every old slot and of the new entry holds of every slot.
  each_slot :
      (P : Entry → Type 0)
      → P (record { key = u; value = p })
      → ((j : ℕ) → P (slot c j))
      → (j : ℕ) → P (slot after j)
  each_slot P new old j = elim (dec_eq j target) [
    | yes e ↦ subst P (sym (ap (slot after) e ∙ slot-target)) new
    | no ne ↦ subst P (sym (slot-other j ne)) (old j)
  ]

  pub IsValid-store : IsValid k (store c (visit c u d * 16) p u)
  unfolding after
  IsValid-store = record {
    shaped = IsShaped-after;
    counted = counted-after;
    blank = each_slot (λ e. e.value ≡ 0 → e.key ≡ 0) (λ h. absurd (np h)) valid.blank;
    named = each_slot (λ e. e.key ≡ 0 → e.value ≡ 0) (λ h. absurd (nz h)) valid.named;
    reachable = reachable-after;
  }

  target_blank : (slot c target).key ≡ 0
  unfolding target
  target_blank = valid.blank target free

  -- No slot held the key before.
  key_is_new : (j : ℕ) → j < c.size → (slot c j).key ≢ u
  unfolding target
  key_is_new j lj at =
      let (e, le, st', same) = Stops-stored valid u j nz lj at in
      nz (
        sym at
        ∙ ap (λ t. (slot c t).key)
            (sym same ∙ ap (visit c u) (Stops-unique valid.shaped u e d st' st))
        ∙ target_blank)

  lookup-other : (q : ℕ) → q ≢ 0 → q ≢ u → lookup q after.entries ≡ lookup q c.entries
  unfolding target store after
  lookup-other q nq ne = elim (lookup_cases q c.entries) [
    | inl (j, lj, at, v) ↦
        let apart : j ≢ target = λ e. nq (sym at ∙ ap (λ t. (slot c t).key) e ∙ target_blank) in
        let same = slot-other j apart in
        lookup-stored IsValid-store q j nq (in_round valid j lj) (ap (λ t. t.key) same ∙ at)
        ∙ ap (λ t. t.value) same
        ∙ sym v
    | inr (out, v) ↦ elim (lookup_cases q after.entries) [
      | inr (out', v') ↦ v' ∙ sym v
      | inl (j, lj, at, v') ↦ elim (dec_eq j target) [
        | yes e ↦
            absurd (ne (sym at ∙ ap (λ t. (slot after t).key) e ∙ ap (λ t. t.key) slot-target))
        | no apart ↦ absurd (
            out j
              (omega (
                arith,
                ap length written,
                length-set c.entries target (record { key = u; value = p }),
              ))
              (ap (λ t. t.key) (sym (slot-other j apart)) ∙ at))
      ]
    ]
  ]

  lookup-store_sane :
      (q : ℕ)
      → q ≢ 0
      → lookup q (store c (visit c u d * 16) p u).entries
        ≡ (if q == u then p else lookup q c.entries)
  unfolding after target
  lookup-store_sane q nq = elim (dec_eq q u) [
    | yes e ↦ rw (eq→== q u e) (
        lookup-stored IsValid-store q target nq (visit-lt valid.shaped u d)
          (ap (λ t. t.key) slot-target ∙ sym e)
        ∙ ap (λ t. t.value) slot-target)
    | no ne ↦ rw (ne→==-false q u ne) (lookup-other q nq ne)
  ]

  -- The write adds the key, and changes what no other key is mapped to.
  pub lookup-store :
      (q : ℕ)
      → lookup q (store c (visit c u d * 16) p u).entries
        ≡ (if q == u then p else lookup q c.entries)
  lookup-store q = elim (dec_eq q 0) [
    | yes e ↦
        rw (e, ne→==-false 0 u (λ z. nz (sym z)))
          (lookup-zero IsValid-store ∙ sym (lookup-zero valid))
    | no nq ↦ lookup-store_sane q nq
  ]

  -- The key had no value before.
  pub lookup-before : lookup u c.entries ≡ 0
  unfolding target
  lookup-before = lookup-miss valid u d nz st (λ e. nz (sym e ∙ target_blank))
