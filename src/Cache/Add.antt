-- ===== src/Cache/Add.antt =====
-- The three functions that add an entry: what each does on a cache that is not full.
use native.Mathlib.Decide.{ℕ_discrete as dec_eq}
use mulle_objc_runtime.Prelude.{
  map_option, ℕ, ◌+◌, ◌*◌, ◌<◌, ◌≡◌, ◌≢◌, refl, ◌⊎◌, inl, inr, some, ◌==◌, ◌∙◌, sym, if◌then◌else◌,
  Bool-cases, eq→==, ne→==-false,
}
use mulle_objc_runtime.Cache.{
  Cache, store, probe_entryoffset, add_pointer_inactive, add_functionpointer_inactive,
  add_functionpointer_entry,
}
use mulle_objc_runtime.Cache.Slots.{slot, visit, visit-lt}
use mulle_objc_runtime.Cache.Stops.{Stops, probe-stops, read_slot}
use mulle_objc_runtime.Cache.Valid.{IsValid, vacancy}
use mulle_objc_runtime.Cache.Store.{IsValid-store, lookup-store, lookup-before}
use mulle_objc_runtime.Cache.Lookup.{lookup, lookup-hit}

-- The cache `c'` and the offset `o` after `p` was added under `u` to `c`.
pub record Added (k : ℕ) (c : Cache) (p u : ℕ) (c' : Cache) (o : ℕ) : Type 0 where
  pub valid : IsValid k c'
  pub size : c'.size ≡ c.size
  pub counted : c'.n ≡ (if lookup u c.entries == 0 then c.n + 1 else c.n)
  pub kept :
      (q : ℕ)
      → lookup q c'.entries ≡ (
          if q == u
          then (if lookup u c.entries == 0 then p else lookup u c.entries)
          else lookup q c.entries)

-- What all three functions do at the slot where the probe stopped.
abbrev at_stop : Cache → ℕ → ℕ → ℕ → Cache × ℕ
at_stop c p u j = if (slot c j).key == u then (c, j * 16) else (store c (j * 16) p u, j * 16)

module _ {k : ℕ} {c : Cache} (valid : IsValid k c) (p u : ℕ) (room : c.n < c.size) (np : p ≢ 0)
    (nz : u ≢ 0) where
  stop : (d : ℕ) × (d < c.size) × Stops c u d × (probe_entryoffset c u ≡ some (visit c u d * 16))
  unfolding probe_entryoffset
  stop =
      let (j, lt, free) = vacancy valid room in
      let (d, ld, st, run) = probe-stops valid.shaped u j lt free in
      (
        d,
        ld,
        st,
        elim (Bool-cases ((slot c (visit c u d)).key == u)) [
          | inl e ↦ rw (run, e)
          | inr e ↦ rw (run, e)
        ],
      )

  module _ (d : ℕ) (ld : d < c.size) (st : Stops c u d) where
    vacant_or_stored :
        (((slot c (visit c u d)).key ≡ u) × ((slot c (visit c u d)).value ≢ 0))
        ⊎ (((slot c (visit c u d)).key ≢ u)
            × ((slot c (visit c u d)).value ≡ 0)
            × ((slot c (visit c u d)).key ≡ 0))
    vacant_or_stored = elim (dec_eq (slot c (visit c u d)).key u) [
      | yes e ↦ inl (e, λ z. nz (sym e ∙ valid.blank _ z))
      | no ne ↦ elim st.ended [ inl e ↦ absurd (ne e) | inr z ↦ inr (ne, z, valid.blank _ z) ]
    ]

    stored-Added :
        (slot c (visit c u d)).key ≡ u
        → (slot c (visit c u d)).value ≢ 0
        → Added k c p u c (visit c u d * 16)
    stored-Added e full =
        let found = ne→==-false _ 0 (λ z. full (sym (lookup-hit valid u d nz st ld e) ∙ z)) in
        record {
          valid = valid;
          size = refl;
          counted = rw found;
          kept = λ q. elim (dec_eq q u) [
            | yes same ↦ rw (eq→== q u same, found, same)
            | no other ↦ rw (ne→==-false q u other)
          ];
        }

    vacant-Added :
        (slot c (visit c u d)).value ≡ 0
        → Added k c p u (store c (visit c u d * 16) p u) (visit c u d * 16)
    unfolding store
    vacant-Added free =
        let absent = eq→== _ 0 (lookup-before valid u p d nz np st free ld) in
        record {
          valid = IsValid-store valid u p d nz np st free ld;
          size = refl;
          counted = rw absent;
          kept = λ q. rw absent (lookup-store valid u p d nz np st free ld q);
        }

    at_stop-Added : let r = at_stop c p u (visit c u d) in Added k c p u r.0 r.1
    at_stop-Added = elim vacant_or_stored [
      | inl (e, full) ↦ rw (eq→== _ u e) (stored-Added e full)
      | inr (ne, free, blank) ↦ rw (ne→==-false _ u ne) (vacant-Added free)
    ]

  add_pointer_inactive-stop : add_pointer_inactive c p u ≡ some (at_stop c p u (visit c u stop.0))
  unfolding add_pointer_inactive
  add_pointer_inactive-stop =
      let (d, ld, st, run) = stop in
      rw
        (
          run,
          add_pointer_inactive,
          read_slot valid.shaped _ (visit-lt valid.shaped u d),
          add_pointer_inactive,
        )
        (elim (vacant_or_stored d ld st) [
          | inl (e, full) ↦ rw (ne→==-false _ 0 full, eq→== _ u e)
          | inr (ne, free, blank) ↦ rw (eq→== _ 0 free, ne→==-false _ u ne)
        ])

  add_functionpointer_inactive-stop :
      add_functionpointer_inactive c p u ≡ some (at_stop c p u (visit c u stop.0))
  unfolding add_functionpointer_inactive
  add_functionpointer_inactive-stop =
      let (d, ld, st, run) = stop in
      rw
        (
          run,
          add_functionpointer_inactive,
          read_slot valid.shaped _ (visit-lt valid.shaped u d),
          add_functionpointer_inactive,
        )
        (elim (vacant_or_stored d ld st) [
          | inl (e, full) ↦ rw (ne→==-false _ 0 (λ z. nz (sym e ∙ z)), eq→== _ u e)
          | inr (ne, free, blank) ↦ rw (eq→== _ 0 blank, ne→==-false _ u ne)
        ])

  add_functionpointer_entry-stop :
      add_functionpointer_entry c p u
      ≡ map_option (λ r. (r.0, some r.1)) (some (at_stop c p u (visit c u stop.0)))
  unfolding add_functionpointer_entry
  add_functionpointer_entry-stop =
      let (d, ld, st, run) = stop in
      rw
        (
          run,
          add_functionpointer_entry,
          read_slot valid.shaped _ (visit-lt valid.shaped u d),
          add_functionpointer_entry,
        )
        (elim (vacant_or_stored d ld st) [
          | inl (e, full) ↦ rw (ne→==-false _ 0 full, eq→== _ u e)
          | inr (ne, free, blank) ↦ rw (eq→== _ 0 free, ne→==-false _ u ne)
        ])

  -- On a valid cache with a slot left, adding a nonzero pointer under a nonzero uniqueid returns
  -- an entry. The cache stays valid and as large; a uniqueid that has a value keeps it, one that
  -- has none gets the pointer and is counted, and no other uniqueid is touched.
  pub add_functionpointer_entry-Added :
      (c' : Cache) × (o : ℕ) × (add_functionpointer_entry c p u ≡ some (c', some o))
      × Added k c p u c' o
  add_functionpointer_entry-Added =
      let (d, ld, st, run) = stop in
      let r = at_stop c p u (visit c u d) in
      (r.0, r.1, add_functionpointer_entry-stop, at_stop-Added d ld st)

  -- The two functions for a cache that no other thread sees yet return the same entry and leave
  -- the same cache as the one with the compare-and-swap, although each looks at another word.
  pub add_inactive_agree :
      (add_functionpointer_inactive c p u ≡ add_pointer_inactive c p u)
      × (add_functionpointer_entry c p u
          ≡ map_option (λ r. (r.0, some r.1)) (add_pointer_inactive c p u))
  add_inactive_agree = (
    add_functionpointer_inactive-stop ∙ sym add_pointer_inactive-stop,
    rw add_pointer_inactive-stop add_functionpointer_entry-stop,
  )
