-- ===== src/Load/Stable.antt =====
-- What a class or category still misses stays the same while other classes are installed.
use mulle_objc_runtime.Prelude.{
  ℕ, ◌≡◌, ◌≢◌, ◌∙◌, inl, inr, refl, sym, ap, subst, Bool, true, false, Option, none, some, List, [],
  ◌∷◌, ◌==◌, if◌then◌else◌, ==_iff, Bool-cases, Option-cases,
}
use mulle_objc_runtime.Load.{
  Dependency, Userdependencies, no_method, returns_null, listed, Infraclass, Loadclass,
  Loadcategory, Fulfilled, fails, has_category, find_class, check_dependency, fulfill_dependencies,
  fulfill_user_dependencies, fulfill_mixins, check_superclass, loadclass_fulfill_dependencies,
  check_class, loadcategory_fulfill_dependencies,
}
use mulle_objc_runtime.Load.Missing.{
  IsKeyed, Grows, Misses, plain, check-met, check-unmet, Misses-hash, still, plain-Misses,
  mixins-Misses,
}

-- A class that was looked up last is the one that is there.
abbrev IsCurrent : (ℕ → Option Infraclass) → Option Infraclass → Type 0
IsCurrent classes none = Unit
IsCurrent classes (some i) = classes i.classid ≡ some i

find_class-current :
    (classes : ℕ → Option Infraclass) (infra : Option Infraclass) (id : ℕ)
    → IsCurrent classes infra
    → find_class classes infra id ≡ classes id
unfolding find_class
find_class-current classes none id c = refl
find_class-current classes (some i) id c = elim (Bool-cases (i.classid == id)) [
  | inl e ↦ rw e (sym c ∙ ap classes ((==_iff i.classid id).0 e))
  | inr e ↦ rw e refl
]

module _ (classes : ℕ → Option Infraclass) (keyed : IsKeyed classes) where
  current : (id : ℕ) (i : Infraclass) → classes id ≡ some i → IsCurrent classes (some i)
  current id i e = ap classes (keyed id i e) ∙ e

  fulfill_dependencies-plain :
      (infra : Option Infraclass) (ds : List Dependency)
      → IsCurrent classes infra
      → fulfill_dependencies classes infra ds ≡ plain classes ds
  unfolding fulfill_dependencies plain
  fulfill_dependencies-plain infra [] c = refl
  fulfill_dependencies-plain infra (d ∷ ds) c =
      ap (λ o. check_dependency o d (λ found. fulfill_dependencies classes (some found) ds))
        (find_class-current classes infra d.classid c)
      ∙ elim (Option-cases (classes d.classid)) [
        | inl e ↦
            ap (λ o. check_dependency o d (λ found. fulfill_dependencies classes (some found) ds)) e
            ∙ sym (ap (λ o. check_dependency o d (λ i. plain classes ds)) e)
        | inr (i, e) ↦
            ap (λ o. check_dependency o d (λ found. fulfill_dependencies classes (some found) ds)) e
            ∙ (check_same i d (λ x. fulfill_dependencies classes (some x) ds)
                  (λ x. plain classes ds)
                  (fulfill_dependencies-plain (some i) ds (current d.classid i e))
                ∙ sym (ap (λ o. check_dependency o d (λ i. plain classes ds)) e))
      ]
    where
      check_same :
          (i : Infraclass) (d : Dependency) (next next' : Infraclass → Fulfilled)
          → next i ≡ next' i
          → check_dependency (some i) d next ≡ check_dependency (some i) d next'
      check_same i d next next' e = elim (Bool-cases (has_category i d.categoryid)) [
        | inl met ↦ check-met i d next met ∙ (e ∙ sym (check-met i d next' met))
        | inr unmet ↦ check-unmet i d next unmet ∙ sym (check-unmet i d next' unmet)
      ]

module _ (before after : ℕ → Option Infraclass) (h k : ℕ) (g : Grows h before after) (ne : k ≢ h)
    (keyed : IsKeyed before) (keyed' : IsKeyed after) where
  user-Misses :
      (infra infra' : Option Infraclass) (user : Userdependencies)
      → IsCurrent before infra
      → IsCurrent after infra'
      → Misses (fulfill_user_dependencies before infra user) k
      → Misses (fulfill_user_dependencies after infra' user) k
  unfolding fulfill_user_dependencies
  user-Misses infra infra' no_method c c' (id, e, q) = absurd (cc)
  user-Misses infra infra' returns_null c c' (id, e, q) = absurd (cc)
  user-Misses infra infra' (listed ds) c c' m =
      subst (λ f. Misses f k) (sym (fulfill_dependencies-plain after keyed' infra' ds c'))
        (plain-Misses before after h k g ne ds
          (subst (λ f. Misses f k) (fulfill_dependencies-plain before keyed infra ds c) m))

  -- A category that misses a class keeps missing it while other classes are installed.
  pub category-Misses :
      (info : Loadcategory)
      → Misses (loadcategory_fulfill_dependencies before info) k
      → Misses (loadcategory_fulfill_dependencies after info) k
  unfolding loadcategory_fulfill_dependencies check_class
  category-Misses info m =
      let next = λ (classes : ℕ → Option Infraclass) (infra : Infraclass).
        fulfill_mixins classes (λ id. id == info.classid) info.mixinids
          (fulfill_user_dependencies classes (some infra) info.dependencies) in
      elim (Option-cases (before info.classid)) [
        | inl e ↦
            let q = Misses-hash _ info.classid k (ap (λ o. check_class info o (next before)) e) m in
            (
              info.classid,
              ap (λ o. check_class info o (next after))
                  (still before after h k g ne info.classid none q e),
              q,
            )
        | inr (i, e) ↦
            let (j, e', x) = g.kept info.classid i e in
            subst (λ f. Misses f k) (sym (ap (λ o. check_class info o (next after)) e'))
              (mixins-Misses before after h k g ne _ info.mixinids _ _
                (user-Misses (some i) (some j) info.dependencies
                  (current before keyed info.classid i e) (current after keyed' info.classid j e'))
                (subst (λ f. Misses f k) (ap (λ o. check_class info o (next before)) e) m))
      ]

  superclass-Misses :
      (ignore : Bool) (info : Loadclass) (rest rest' : Fulfilled)
      → (Misses rest k → Misses rest' k)
      → Misses (check_superclass ignore info (before info.superclassid) rest) k
      → Misses (check_superclass ignore info (after info.superclassid) rest') k
  unfolding check_superclass
  superclass-Misses ignore info rest rest' next m = elim (Option-cases (before info.superclassid)) [
    | inl e ↦
        let q =
          Misses-hash _ info.superclassid k (ap (λ o. check_superclass ignore info o rest) e) m in
        (
          info.superclassid,
          ap (λ o. check_superclass ignore info o rest')
              (still before after h k g ne info.superclassid none q e),
          q,
        )
    | inr (i, e) ↦
        let (j, e', x) = g.kept info.superclassid i e in
        let m' = subst (λ f. Misses f k) (ap (λ o. check_superclass ignore info o rest) e) m in
        subst (λ f. Misses f k) (sym (ap (λ o. check_superclass ignore info o rest') e'))
          (rw (x.name_kept, x.ivarhash_kept) (passed _ m'))
  ]
    where
      passed :
          (b : Bool) → Misses (if b then rest else fails) k → Misses (if b then rest' else fails) k
      passed true m = next m
      passed false (id, e, q) = absurd (cc)

  -- The same of a class.
  pub class-Misses :
      (ignore : Bool) (info : Loadclass)
      → Misses (loadclass_fulfill_dependencies ignore before info) k
      → Misses (loadclass_fulfill_dependencies ignore after info) k
  unfolding loadclass_fulfill_dependencies
  class-Misses ignore info m =
      root-misses (info.superclassid == 0) _ _ _ _
        (mixins-Misses before after h k g ne _ info.mixinids _ _
          (user-Misses none none info.dependencies tt tt))
        (superclass-Misses ignore info _ _ (
          mixins-Misses before after h k g ne _ info.mixinids _ _
            (user-Misses none none info.dependencies tt tt)))
        m
    where
      root-misses :
          (b : Bool) (f f' s s' : Fulfilled)
          → (Misses f k → Misses f' k)
          → (Misses s k → Misses s' k)
          → Misses (elim b [ true ↦ f | false ↦ s ]) k
          → Misses (elim b [ true ↦ f' | false ↦ s' ]) k
      root-misses true f f' s s' a b m = a m
      root-misses false f f' s s' a b m = b m
