-- ===== src/Search/Sorted.antt =====
-- Binary search on sorted entries: it ends, and finds what a linear search finds.
use mulle_objc_runtime.Prelude.{
  ℕ, zero, suc, ◌+◌, ◌-◌, ◌/◌, ◌≤◌, ◌<◌, ◌≡◌, ◌≢◌, refl, inl, inr, arith, Option, none, some, List,
  [], ◌∷◌, ltb, leb, ◌==◌, get_elem?, length, ap, ◌∙◌, sym, Bool-cases, eq→==, ne→==-false, ltb→lt,
  leb→le, leb-false→lt,
}
use native.Mathlib.Decide.{ℕ_discrete as dec_eq}
use mulle_objc_runtime.Search.{find, bsearch, bsearch_loop}

-- Smaller positions have no greater keys.
abbrev pub Sorted {ℓ} : {A : Type ℓ} → (A → ℕ) → List A → Type ℓ
Sorted {A} key buf =
    (i j : ℕ) (p q : A)
    → i < j
    → get_elem? buf i ≡ some p
    → get_elem? buf j ≡ some q
    → key p ≤ key q

-- What a search for `sought` owes: an entry with that key, or that there is none.
abbrev pub Found {ℓ} : {A : Type ℓ} → (A → ℕ) → List A → ℕ → Option A → Type ℓ
Found {A} key buf sought none = (i : ℕ) (p : A) → get_elem? buf i ≡ some p → key p ≢ sought
Found key buf sought (some p) = (i : ℕ) × (get_elem? buf i ≡ some p) × (key p ≡ sought)

read {ℓ} :
    {A : Type ℓ} (buf : List A) (i : ℕ) → i < length buf → (p : A) × (get_elem? buf i ≡ some p)
read [] i lt = absurd (omega arith)
read (p ∷ buf) zero lt = (p, refl)
read (p ∷ buf) (suc i) lt = read buf i (omega arith)

past {ℓ} :
    {A : Type ℓ} (buf : List A) (i : ℕ) (p : A) → length buf ≤ i → get_elem? buf i ≡ some p → ⊥
past [] i p le at = cc
past (q ∷ buf) zero p le at = omega arith
past (q ∷ buf) (suc i) p le at = past buf i p (omega arith) at

module _ {ℓ} {A : Type ℓ} (key : A → ℕ) (buf : List A) (sought : ℕ) (sorted : Sorted key buf) where
  -- Entries before `first` have smaller keys, those from `end` on have greater ones.
  abbrev Below : ℕ → Type ℓ
  Below first = (i : ℕ) (p : A) → i < first → get_elem? buf i ≡ some p → key p < sought

  abbrev Above : ℕ → Type ℓ
  Above end = (i : ℕ) (p : A) → end ≤ i → get_elem? buf i ≡ some p → sought < key p

  key_of : Option A → ℕ
  key_of none = 0
  key_of (some p) = key p

  at_most :
      (i j : ℕ) (p q : A)
      → i ≤ j
      → get_elem? buf i ≡ some p
      → get_elem? buf j ≡ some q
      → key p ≤ key q
  unfolding key_of
  at_most i j p q le at at' = elim (dec_eq i j) [
    | yes e ↦
        let same : key p ≡ key q = ap key_of (sym at ∙ ap (get_elem? buf) e ∙ at') in
        omega (arith, same)
    | no ne ↦ sorted i j p q (omega arith) at at'
  ]

  loop_lem :
      (fuel first end : ℕ)
      → end ≤ length buf
      → end - first < fuel
      → Below first
      → Above end
      → (r : Option A) × (bsearch_loop key fuel buf first end sought ≡ some r)
        × Found key buf sought r
  unfolding bsearch_loop
  loop_lem zero first end room enough below above = absurd (omega arith)
  loop_lem (suc fuel) first end room enough below above = elim (Bool-cases (ltb first end)) [
    | inr done ↦ (
      none,
      rw (done, bsearch_loop),
      λ i p at e. elim (Bool-cases (ltb i end)) [
        | inl lt ↦ let q = below i p (ground arith) at in omega arith
        | inr ge ↦ let q = above i p (ground arith) at in omega arith
      ],
    )
    | inl more ↦
        let lt : first < end = ltb→lt first end more in
        let middle = (first + (end - 1)) / 2 in
        let (p, at) = read buf middle (omega arith) in
        elim (Bool-cases (leb (key p) sought)) [
          | inr big ↦
              let above' : Above middle = λ i q le at'.
                let o = at_most middle i p q le at at' in
                omega (arith, o, leb-false→lt (key p) sought big) in
              let (r, run, found) =
                loop_lem fuel first middle (omega arith) (omega arith) below above' in
              (r, rw (more, bsearch_loop, at, bsearch_loop, big, bsearch_loop) run, found)
          | inl small ↦ elim (dec_eq (key p) sought) [
            | yes hit ↦ (
              some p,
              rw (
                more,
                bsearch_loop,
                at,
                bsearch_loop,
                small,
                bsearch_loop,
                eq→== (key p) sought hit,
                bsearch_loop,
              ),
              (middle, at, hit),
            )
            | no other ↦
                let below' : Below (middle + 1) = λ i q lt at'.
                  let o = at_most i middle q p (omega arith) at' at in
                  omega (arith, o, leb→le (key p) sought small) in
                let (r, run, found) =
                  loop_lem fuel (middle + 1) end room (omega arith) below' above in
                (
                  r,
                  rw
                      (
                        more,
                        bsearch_loop,
                        at,
                        bsearch_loop,
                        small,
                        bsearch_loop,
                        ne→==-false (key p) sought other,
                        bsearch_loop,
                      )
                      run,
                  found,
                )
          ]
        ]
  ]

  -- A binary search of sorted entries ends after as many rounds as there are entries, reads only
  -- entries, and returns an entry with the key that is searched for if there is one.
  pub bsearch-Found :
      (r : Option A) × (bsearch key buf (length buf) sought ≡ some r) × Found key buf sought r
  unfolding bsearch
  bsearch-Found =
      loop_lem (length buf + 1) 0 (length buf) (omega arith) (omega arith)
        (λ i p lt at. absurd (omega arith)) (λ i p le at. absurd (past buf i p le at))

-- No two entries have the same key.
abbrev pub Distinct {ℓ} : {A : Type ℓ} → (A → ℕ) → List A → Type ℓ
Distinct {A} key buf =
    (i j : ℕ) (p q : A)
    → get_elem? buf i ≡ some p
    → get_elem? buf j ≡ some q
    → key p ≡ key q
    → i ≡ j

module _ {ℓ} {A : Type ℓ} (key : A → ℕ) where
  at_head : (q p : A) → get_elem? (q ∷ []) 0 ≡ some p → key q ≡ key p
  at_head q p at = cc

  later :
      (sought : ℕ) (q : A) (buf : List A)
      → key q ≢ sought
      → (r : Option A) → Found key buf sought r
      → Found key (q ∷ buf) sought r
  later sought q buf other (some p) (i, at, e) = (suc i, at, e)
  later sought q buf other none absent = none_later
    where
      none_later : Found key (q ∷ buf) sought none
      none_later zero p at e = other (at_head q p at ∙ e)
      none_later (suc i) p at e = absent i p at e

  -- The linear search finds the first one.
  pub find-Found :
      (sought : ℕ) (buf : List A) → Found key buf sought (find (λ p. key p == sought) buf)
  unfolding find
  find-Found sought [] = λ i p at e. cc
  find-Found sought (q ∷ buf) = elim (dec_eq (key q) sought) [
    | yes hit ↦ rw (eq→== (key q) sought hit) (0, refl, hit)
    | no other ↦
        rw (ne→==-false (key q) sought other)
          (later sought q buf other (find (λ p. key p == sought) buf) (find-Found sought buf))
  ]

  Found-unique :
      (buf : List A) (sought : ℕ)
      → Distinct key buf
      → (r s : Option A) → Found key buf sought r
      → Found key buf sought s
      → r ≡ s
  Found-unique buf sought distinct none none f g = refl
  Found-unique buf sought distinct none (some q) f (j, at, e) = absurd (f j q at e)
  Found-unique buf sought distinct (some p) none (i, at, e) g = absurd (g i p at e)
  Found-unique buf sought distinct (some p) (some q) (i, at, e) (j, at', e') =
      sym at ∙ ap (get_elem? buf) (distinct i j p q at at' (e ∙ sym e')) ∙ at'

  -- If the entries are sorted and no two have the same key, the two searches agree.
  pub bsearch-find :
      (buf : List A) (sought : ℕ)
      → Sorted key buf
      → Distinct key buf
      → bsearch key buf (length buf) sought ≡ some (find (λ p. key p == sought) buf)
  bsearch-find buf sought sorted distinct =
      let (r, run, found) = bsearch-Found key buf sought sorted in
      run ∙ ap some (Found-unique buf sought distinct r _ found (find-Found sought buf))
