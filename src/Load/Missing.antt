-- ===== src/Load/Missing.antt =====
-- What misses a class keeps missing it while other classes are installed: dependencies and mixins.
use mulle_objc_runtime.Prelude.{
  ℕ, ◌≡◌, ◌≢◌, ◌∙◌, inl, inr, refl, sym, ap, subst, Bool, true, false, Option, none, some, List, [],
  ◌∷◌, Bool-cases, Option-cases,
}
use mulle_objc_runtime.Load.{
  Dependency, Infraclass, Fulfilled, ready, missing, waitqueue_hash, has_category, check_dependency,
  check_mixin, fulfill_mixins,
}

-- The class is filed under its id.
abbrev pub IsKeyed : (ℕ → Option Infraclass) → Type 0
IsKeyed classes = (id : ℕ) (i : Infraclass) → classes id ≡ some i → i.classid ≡ id

-- `j` is the class `i` with more categories.
pub record Extends (i j : Infraclass) : Type 0 where
  pub same_classid : j.classid ≡ i.classid
  pub name_kept : j.name ≡ i.name
  pub ivarhash_kept : j.ivarhash ≡ i.ivarhash
  pub categories_kept : (x : ℕ) → has_category i x ≡ true → has_category j x ≡ true

-- Only what waits with the hash `h` can notice the difference.
pub record Grows (h : ℕ) (before after : ℕ → Option Infraclass) : Type 0 where
  pub others : (id : ℕ) → waitqueue_hash id ≢ h → after id ≡ before id
  pub kept :
      (id : ℕ) (i : Infraclass)
      → before id ≡ some i
      → (j : Infraclass) × (after id ≡ some j) × Extends i j

-- A dependency on a class with the hash `h`.
abbrev pub Misses : Fulfilled → ℕ → Type 0
Misses f h = (id : ℕ) × (f ≡ missing id) × (waitqueue_hash id ≡ h)

-- The dependencies without the class that was looked up last.
unfoldable pub plain : (ℕ → Option Infraclass) → List Dependency → Fulfilled
unfolding check_dependency
plain classes [] = ready
plain classes (d ∷ ds) = check_dependency (classes d.classid) d (λ i. plain classes ds)

missing_injective : (a b : ℕ) → missing a ≡ missing b → a ≡ b
missing_injective a b e = cc

pub check-met :
    (i : Infraclass) (d : Dependency) (next : Infraclass → Fulfilled)
    → has_category i d.categoryid ≡ true
    → check_dependency (some i) d next ≡ next i
unfolding check_dependency
check-met i d next h = rw (h, check_dependency) refl

pub check-unmet :
    (i : Infraclass) (d : Dependency) (next : Infraclass → Fulfilled)
    → has_category i d.categoryid ≡ false
    → check_dependency (some i) d next ≡ missing d.classid
unfolding check_dependency
check-unmet i d next h = rw (h, check_dependency) refl

pub Misses-hash : (f : Fulfilled) (id k : ℕ) → f ≡ missing id → Misses f k → waitqueue_hash id ≡ k
Misses-hash f id k e m = ap waitqueue_hash (missing_injective id m.0 (sym e ∙ m.1)) ∙ m.2

-- A dependency on a class that is not there, or on a category.
pub check_none :
    (d : Dependency) (next : Infraclass → Fulfilled)
    → check_dependency none d next ≡ missing d.classid
unfolding check_dependency
check_none d next = refl

module _ (before after : ℕ → Option Infraclass) (h k : ℕ) (g : Grows h before after)
    (ne : k ≢ h) where
  pub still :
      (id : ℕ) (o : Option Infraclass) → waitqueue_hash id ≡ k → before id ≡ o → after id ≡ o
  still id o q e = g.others id (λ r. ne (sym q ∙ r)) ∙ e

  pub step-Misses :
      (d : Dependency) (rest rest' : Fulfilled)
      → (Misses rest k → Misses rest' k)
      → Misses (check_dependency (before d.classid) d (λ i. rest)) k
      → Misses (check_dependency (after d.classid) d (λ i. rest')) k
  step-Misses d rest rest' next m = elim (Option-cases (before d.classid)) [
    | inl e ↦
        let b = ap (λ o. check_dependency o d (λ i. rest)) e ∙ check_none d (λ i. rest) in
        let q = Misses-hash _ d.classid k b m in
        (
          d.classid,
          ap (λ o. check_dependency o d (λ i. rest')) (still d.classid none q e)
              ∙ check_none d (λ i. rest'),
          q,
        )
    | inr (i, e) ↦
        let b = ap (λ o. check_dependency o d (λ i. rest)) e in
        elim (Bool-cases (has_category i d.categoryid)) [
          | inl met ↦
              let (j, e', x) = g.kept d.classid i e in
              let r = next (subst (λ f. Misses f k) (b ∙ check-met i d (λ i. rest) met) m) in
              subst (λ f. Misses f k)
                (sym (
                  ap (λ o. check_dependency o d (λ i. rest')) e'
                  ∙ check-met j d (λ i. rest') (x.categories_kept d.categoryid met)))
                r
          | inr unmet ↦
              let q = Misses-hash _ d.classid k (b ∙ check-unmet i d (λ i. rest) unmet) m in
              (
                d.classid,
                ap (λ o. check_dependency o d (λ i. rest')) (still d.classid (some i) q e)
                    ∙ check-unmet i d (λ i. rest') unmet,
                q,
              )
        ]
  ]

  pub plain-Misses : (ds : List Dependency) → Misses (plain before ds) k → Misses (plain after ds) k
  unfolding plain
  plain-Misses [] m = m
  plain-Misses (d ∷ ds) m = step-Misses d (plain before ds) (plain after ds) (plain-Misses ds) m

  pub mixin-Misses :
      (skip : Bool) (id : ℕ) (rest rest' : Fulfilled)
      → (Misses rest k → Misses rest' k)
      → Misses (check_mixin skip (before id) id rest) k
      → Misses (check_mixin skip (after id) id rest') k
  unfolding check_mixin
  mixin-Misses true id rest rest' next m = next m
  mixin-Misses false id rest rest' next m = elim (Option-cases (before id)) [
    | inl e ↦
        let q = Misses-hash _ id k (ap (λ o. check_mixin false o id rest) e) m in
        (id, ap (λ o. check_mixin false o id rest') (still id none q e), q)
    | inr (i, e) ↦
        let (j, e', x) = g.kept id i e in
        subst (λ f. Misses f k) (sym (ap (λ o. check_mixin false o id rest') e'))
          (next (subst (λ f. Misses f k) (ap (λ o. check_mixin false o id rest) e) m))
  ]

  -- A mixin that is not there.
  pub mixins-Misses :
      (skips : ℕ → Bool) (ids : List ℕ) (last last' : Fulfilled)
      → (Misses last k → Misses last' k)
      → Misses (fulfill_mixins before skips ids last) k
      → Misses (fulfill_mixins after skips ids last') k
  unfolding fulfill_mixins
  mixins-Misses skips [] last last' next m = next m
  mixins-Misses skips (id ∷ ids) last last' next m =
      mixin-Misses (skips id) id _ _ (mixins-Misses skips ids last last' next) m
