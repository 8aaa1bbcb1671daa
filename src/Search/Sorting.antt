-- ===== src/Search/Sorting.antt =====
-- Sorting a list and searching it then. The sort is the C library's: what is asked of it is that
-- the result has the same entries and that no entry compares as greater than a later one.
use mathlib.Core.List.{Permᴰ}
use mathlib.Core.List.Permᴰ.{nil, cons, swap, trans}
use mulle_objc_runtime.Prelude.{
  ℕ, zero, suc, ◌≤◌, ◌<◌, ◌≡◌, ◌≢◌, refl, inl, inr, Bool, true, false, arith, none, some, List, [],
  ◌∷◌, ltb, ◌==◌, get_elem?, length, ap, ◌∙◌, sym, Bool-cases, count, to_nat, eq→==, ne→==-false,
}
use native.Mathlib.Decide.{ℕ_discrete as dec_eq}
use mulle_objc_runtime.Search.{find, bsearch, Sign, positive, compare_ids}
use mulle_objc_runtime.Search.Sorted.{Sorted, Distinct, bsearch-find}

-- No two entries have the same key.
abbrev pub AtMostOnce {ℓ} : {A : Type ℓ} → (A → ℕ) → List A → Type 0
AtMostOnce key buf = (id : ℕ) → count (λ p. key p == id) buf ≤ 1

-- The order that the comparison stands for.
pub compare_le : (a b : ℕ) → compare_ids a b ≢ positive → a ≤ b
compare_le a b h = elim (Bool-cases (ltb a b)) [
  | inl lt ↦ ground arith
  | inr ge ↦ elim (dec_eq a b) [
    | yes e ↦ omega arith
    | no ne ↦ absurd (h (rw (ge, ne→==-false a b ne)))
  ]
]

module _ {ℓ} {A : Type ℓ} where
  count_pos :
      (t : A → Bool) (buf : List A) (i : ℕ) (p : A)
      → get_elem? buf i ≡ some p
      → t p ≡ true
      → 1 ≤ count t buf
  count_pos t [] i p at e = cc
  count_pos t (q ∷ buf) zero p at e =
      let same : t q ≡ t p = ap (λ o. elim o [ none ↦ false | some x ↦ t x ]) at in
      rw (same, e) (omega arith)
  count_pos t (q ∷ buf) (suc i) p at e = omega (arith, count_pos t buf i p at e)

  count_two :
      (t : A → Bool) (buf : List A) (i j : ℕ) (p q : A)
      → i < j
      → get_elem? buf i ≡ some p
      → get_elem? buf j ≡ some q
      → t p ≡ true
      → t q ≡ true
      → 2 ≤ count t buf
  count_two t [] i j p q lt at at' e e' = cc
  count_two t (r ∷ buf) i zero p q lt at at' e e' = absurd (omega arith)
  count_two t (r ∷ buf) zero (suc j) p q lt at at' e e' =
      let same : t r ≡ t p = ap (λ o. elim o [ none ↦ false | some x ↦ t x ]) at in
      rw (same, e) (omega (arith, count_pos t buf j q at' e'))
  count_two t (r ∷ buf) (suc i) (suc j) p q lt at at' e e' =
      omega (arith, count_two t buf i j p q (omega arith) at at' e e')

  AtMostOnce-Distinct : (key : A → ℕ) (buf : List A) → AtMostOnce key buf → Distinct key buf
  AtMostOnce-Distinct key buf once i j p q at at' e =
      let t : A → Bool = λ x. key x == key q in
      let e1 : t p ≡ true = eq→== (key p) (key q) e in
      let e2 : t q ≡ true = eq→== (key q) (key q) refl in
      elim (dec_eq i j) [
        | yes same ↦ same
        | no ne ↦ elim (Bool-cases (ltb i j)) [
          | inl lt ↦
              absurd
                (omega (arith, once (key q), count_two t buf i j p q (ground arith) at at' e1 e2))
          | inr ge ↦
              absurd
                (omega (arith, once (key q), count_two t buf j i q p (ground arith) at' at e2 e1))
        ]
      ]

  pub count-Perm : (t : A → Bool) {xs ys : List A} → Permᴰ xs ys → count t xs ≡ count t ys
  count-Perm t nil = refl
  count-Perm t (cons e perm) = omega (arith, ap (λ x. to_nat (t x)) e, count-Perm t perm)
  count-Perm t (swap e e') = omega (arith, ap (λ x. to_nat (t x)) e, ap (λ x. to_nat (t x)) e')
  count-Perm t (trans p q) = count-Perm t p ∙ count-Perm t q

  swapped :
      (t : A → Bool) (a b : A) (l : List A)
      → count t (a ∷ b ∷ l) ≤ 1
      → find t (a ∷ b ∷ l) ≡ find t (b ∷ a ∷ l)
  unfolding find
  swapped t a b l once = elim (Bool-cases (t a)) [
    | inl yes_a ↦ elim (Bool-cases (t b)) [
      | inl yes_b ↦ absurd (omega (arith, once, ap to_nat yes_a, ap to_nat yes_b))
      | inr no_b ↦ rw (yes_a, no_b)
    ]
    | inr no_a ↦ rw no_a
  ]

  find-Perm : (t : A → Bool) {xs ys : List A} → Permᴰ xs ys → count t xs ≤ 1 → find t xs ≡ find t ys
  unfolding find
  find-Perm t nil once = refl
  find-Perm t (cons {a} {b} {l₁} {l₂} e perm) once = elim (Bool-cases (t a)) [
    | inl yes_a ↦ let yes_b = sym (ap t e) ∙ yes_a in rw (yes_a, yes_b) (ap some e)
    | inr no_a ↦ let no_b = sym (ap t e) ∙ no_a in rw (no_a, no_b) (find-Perm t perm (omega arith))
  ]
  find-Perm t (swap {a} {b} {a'} {b'} {l} e e') once = rw (sym e, sym e') (swapped t a b l once)
  find-Perm t (trans p q) once = find-Perm t p once ∙ find-Perm t q (omega (arith, count-Perm t p))

  -- What is asked of the sort: the entries are those of `buf`, and none compares as greater than a
  -- later one.
  pub record Sorts (compare : A → A → Sign) (buf sorted : List A) : Type ℓ where
    pub permutes : Permᴰ buf sorted
    pub ordered :
        (i j : ℕ) (p q : A)
        → i < j
        → get_elem? sorted i ≡ some p
        → get_elem? sorted j ≡ some q
        → compare p q ≢ positive

  -- A binary search of the sorted list finds what a linear search of the unsorted one finds.
  pub bsearch-sorted :
      (key : A → ℕ) (buf sorted : List A) (sought : ℕ)
      → AtMostOnce key buf
      → Sorts (λ p q. compare_ids (key p) (key q)) buf sorted
      → (bsearch key sorted (length sorted) sought ≡ some (find (λ p. key p == sought) buf))
        × (find (λ p. key p == sought) sorted ≡ find (λ p. key p == sought) buf)
  bsearch-sorted key buf sorted sought once sorts =
      let once' : AtMostOnce key sorted =
        λ id. omega (arith, once id, count-Perm (λ p. key p == id) sorts.permutes) in
      let in_order : Sorted key sorted =
        λ i j p q lt at at'. compare_le (key p) (key q) (sorts.ordered i j p q lt at at') in
      let same = find-Perm (λ p. key p == sought) sorts.permutes (once sought) in
      (
        bsearch-find key sorted sought in_order (AtMostOnce-Distinct key sorted once')
            ∙ ap some (sym same),
        sym same,
      )
