-- ===== src/Cache/Fill.antt =====
-- The fill loop, run by one thread: two rounds are enough, and what the current cache maps
-- afterwards.
use native.Mathlib.Nat.{pow-suc, one-le-pow}
use mulle_objc_runtime.Prelude.{
  ℕ, zero, suc, ◌+◌, ◌*◌, ◌%◌, ◌^◌, ◌≤◌, ◌<◌, ◌≡◌, ◌≢◌, refl, inl, inr, true, false, arith, some,
  ◌∷◌, ◌==◌, ◌∙◌, if◌then◌else◌, ltb, Bool-cases, eq→==, ne→==-false, leb-false→lt, lt→leb-false,
}
use native.Mathlib.Decide.{ℕ_discrete as dec_eq}
use mulle_objc_runtime.Cache.{Cache, init, grow, grow_with_strategy, should_grow}
use mulle_objc_runtime.Cache.Valid.{IsValid, init-IsValid}
use mulle_objc_runtime.Cache.Add.{Added, add_functionpointer_entry-Added}
use mulle_objc_runtime.Cache.Pivot.{Memory, update, allocate, swap, fill_functionpointer}

four-le-pow : (k : ℕ) → 2 ≤ k → 4 ≤ 2 ^ k
four-le-pow zero h = absurd (omega arith)
four-le-pow (suc zero) h = absurd (omega arith)
four-le-pow (suc (suc k)) h = omega (arith, pow-suc 2 (suc k), pow-suc 2 k, one-le-pow k 2)

-- A new cache has room.
pub init_room : (k : ℕ) → (init (2 ^ k)).n < (init (2 ^ k)).size
unfolding init
init_room k = one-le-pow k 2 (omega arith)

-- The cache that the entry is added to: the current one, or a fresh one of twice the size.
abbrev pub start : Cache → ℕ → ℕ → Cache
start c k rate = if should_grow c rate then init (2 ^ suc k) else c

abbrev pub exponent : Cache → ℕ → ℕ → ℕ
exponent c k rate = if should_grow c rate then suc k else k

module _ {k : ℕ} {c : Cache} (valid : IsValid k c) (big : 2 ≤ k) (small : 2 ^ suc k ≤ 2 ^ 27) where
  pub grow_with_strategy-init : grow_with_strategy c grow ≡ init (2 ^ suc k)
  unfolding grow_with_strategy
  grow_with_strategy-init =
      let e : c.size * 2 % 2 ^ 32 ≡ 2 ^ suc k = omega (arith, valid.shaped.size, pow-suc 2 k) in
      let large : ltb (2 ^ suc k) 4 ≡ false = ground (arith, four-le-pow (suc k) (omega arith)) in
      rw (e, large)

  -- The fill rate leaves a slot for the entry.
  pub room_left : (rate : ℕ) → rate ≤ 90 → should_grow c rate ≡ false → c.n < c.size
  unfolding should_grow
  room_left rate le h = elim (dec_eq rate 0) [
    | yes e ↦
        let q = leb-false→lt c.size (c.n * 3) (rw (eq→== rate 0 e) at h) in
        omega (arith, q, valid.shaped.size, one-le-pow k 2)
    | no ne ↦
        let q = leb-false→lt (c.size * rate) (c.n * 100) (rw (ne→==-false rate 0 ne) at h) in
        let p : c.size * rate ≤ c.size * 90 = grind arith in
        omega (arith, q, p, valid.shaped.size, one-le-pow k 2)
  ]

  start-IsValid : (rate : ℕ) → IsValid (exponent c k rate) (start c k rate)
  start-IsValid rate = elim (Bool-cases (should_grow c rate)) [
    | inl e ↦ rw e (init-IsValid (suc k) small)
    | inr e ↦ rw e valid
  ]

  start_room : (rate : ℕ) → rate ≤ 90 → (start c k rate).n < (start c k rate).size
  start_room rate le = elim (Bool-cases (should_grow c rate)) [
    | inl e ↦ rw e (init_room (suc k))
    | inr e ↦ rw e (room_left rate le e)
  ]

  init_stays : (rate : ℕ) → rate ≤ 90 → should_grow (init (2 ^ suc k)) rate ≡ false
  unfolding should_grow init
  init_stays rate le = elim (dec_eq rate 0) [
    | yes e ↦ rw (eq→== rate 0 e, lt→leb-false (2 ^ suc k) 0 (one-le-pow (suc k) 2 (omega arith)))
    | no ne ↦
        let pos : 0 < 2 ^ suc k * rate = grind (arith, one-le-pow (suc k) 2) in
        rw (ne→==-false rate 0 ne, lt→leb-false (2 ^ suc k * rate) 0 pos)
  ]

self : (a : ℕ) → (a == a) ≡ true
self a = eq→== a a refl

-- A round in which the cache need not grow.
add_round :
    (fuel : ℕ) (m : Memory) {k : ℕ} {c : Cache} (imp u rate : ℕ)
    → m.caches m.pivot ≡ some c
    → IsValid k c
    → should_grow c rate ≡ false
    → c.n < c.size
    → imp ≢ 0
    → u ≢ 0
    → (c' : Cache) × (o : ℕ) × (fill_functionpointer (suc fuel) m imp u rate
        ≡ some (record m { caches = update m.caches m.pivot (some c') }, o))
      × Added k c imp u c' o
unfolding fill_functionpointer
add_round fuel m imp u rate here valid stay room np nz =
    let (c', o, run, added) = add_functionpointer_entry-Added valid imp u room np nz in
    (
      c',
      o,
      rw (here, fill_functionpointer, stay, fill_functionpointer, run, fill_functionpointer),
      added,
    )

-- The memory after the current cache was replaced by one of twice the size.
abbrev grown : Memory → ℕ → Memory
grown m k = record m {
  caches = update m.caches m.next (some (init (2 ^ suc k)));
  next = m.next + 1;
  pivot = m.next;
  retired = m.pivot ∷ m.retired;
}

-- What a call of the fill function leaves behind.
pub record Filled (k : ℕ) (m : Memory) (c : Cache) (imp u rate : ℕ) (m' : Memory) (o : ℕ)
    : Type 0 where
  pub cache : Cache
  pub current : m'.caches m'.pivot ≡ some cache
  pub added : Added (exponent c k rate) (start c k rate) imp u cache o
  -- The cache that was current before can still be read, also after it was replaced.
  pub readable : m'.caches m.pivot ≡ some (if should_grow c rate then c else cache)
  pub retired : m'.retired ≡ (if should_grow c rate then m.pivot ∷ m.retired else m.retired)

module _ {k : ℕ} (m : Memory) {c : Cache} (here : m.caches m.pivot ≡ some c) (valid : IsValid k c)
    (fresh : m.pivot < m.next) (big : 2 ≤ k) (small : 2 ^ suc k ≤ 2 ^ 27) where
  grow_round :
      (fuel imp u rate : ℕ)
      → should_grow c rate ≡ true
      → fill_functionpointer (suc fuel) m imp u rate
        ≡ fill_functionpointer fuel (grown m k) imp u rate
  unfolding fill_functionpointer swap allocate
  grow_round fuel imp u rate grows = rw (
    here,
    fill_functionpointer,
    grows,
    fill_functionpointer,
    grow_with_strategy-init valid big small,
    self m.pivot,
  )

  -- Two rounds of the loop of `_mulle_objc_cachepivot_fill_functionpointer` are enough, if the
  -- current cache is valid and has 4 to 2 ^ 26 entries, the address of the next one is free, the fill
  -- rate is at most 90, and neither the implementation nor the uniqueid is 0. The entry is then in
  -- the current cache, which is the old one or, if the fill rate was reached, a fresh one of twice
  -- the size; the old one is then retired, but can still be read.
  pub fill-Filled :
      (imp u rate : ℕ)
      → rate ≤ 90
      → imp ≢ 0
      → u ≢ 0
      → (m' : Memory) × (o : ℕ) × (fill_functionpointer 2 m imp u rate ≡ some (m', o))
        × Filled k m c imp u rate m' o
  fill-Filled imp u rate le np nz = elim (Bool-cases (should_grow c rate)) [
    | inl grows ↦
        let (c', o, run, added) =
          add_round 0 (grown m k) imp u rate (rw (self m.next)) (init-IsValid (suc k) small)
            (init_stays valid big small rate le) (init_room (suc k)) np nz in
        (
          record (grown m k) { caches = update (grown m k).caches m.next (some c') },
          o,
          grow_round 1 imp u rate grows ∙ run,
          record {
            cache = c';
            current = rw (self m.next);
            added = rw grows added;
            readable = rw (grows, ne→==-false m.pivot m.next (omega arith)) here;
            retired = rw grows;
          },
        )
    | inr stays ↦
        let (c', o, run, added) =
          add_round 1 m imp u rate here valid stays (room_left valid big small rate le stays) np
            nz in
        (
          record m { caches = update m.caches m.pivot (some c') },
          o,
          run,
          record {
            cache = c';
            current = rw (self m.pivot);
            added = rw stays added;
            readable = rw (stays, self m.pivot);
            retired = rw stays;
          },
        )
  ]
