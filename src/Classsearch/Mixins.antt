-- ===== src/Classsearch/Mixins.antt =====
-- The search of the mixins returns the first match in the order of Classsearch.Linear.
use Prim.Native.Nat.{bit_or}
use mathlib.Core.Option.{some-injective}
use mulle_objc_runtime.Prelude.{
  Bool, ℕ, ◌≡◌, true, false, inl, inr, refl, Option, none, some, List, [], ◌∷◌, ◌++◌, ◌==◌,
  if◌then◌else◌, ap, ◌∙◌, sym, subst, Option-cases, Bool-cases,
}
use mulle_objc_runtime.Method.{Method}
use mulle_objc_runtime.Classsearch.{Class, Classes, Arguments, State, Error, Hit, fail, found}
use mulle_objc_runtime.Classsearch.Descent.{Search, search_mixins, mixin_match}
use mulle_objc_runtime.Classsearch.Linear.{Place, join, of_mixin, of_mixins, outcome, outcome-cases}
use mulle_objc_runtime.Classsearch.Lists.{IsTame, default_state}

pub join-split :
    (p q : Option (List Place)) (l : List Place)
    → join p q ≡ some l
    → (k k' : List Place) × (p ≡ some k) × (q ≡ some k') × (k ++ k' ≡ l)
join-split none q l h = cc
join-split (some k) none l h = cc
join-split (some k) (some k') l h = (k, k', refl, refl, some-injective _ _ h)

-- A search one level deeper returns the first match in its order, and may be returned as it is.
abbrev pub Agrees : ℕ → Search → (ℕ → ℕ → Option (List Place)) → Type 0
Agrees methodid descend lin =
    (a inheritance : ℕ) (p : Bool) (e : Error) (r : Option Hit) (covered : List Method)
    (l : List Place)
    → lin a inheritance ≡ some l
    → (descend a inheritance (default_state p e r covered)
        ≡ some (outcome methodid l (default_state p e r covered)))
      × IsTame (outcome methodid l (default_state p e r covered)).0

-- The places before one another.
pub IsTame-append :
    (methodid : ℕ) (k l : List Place) (s : State)
    → IsTame (outcome methodid k s).0
    → IsTame (outcome methodid l s).0
    → IsTame (outcome methodid (k ++ l) s).0
IsTame-append methodid k l s a b = elim (outcome-cases methodid k s) [
  | inl (e, rest) ↦ rw (rest l) b
  | inr (m, s', e, rest) ↦ rw (rest l) (rw e at a)
]

module _ (args : Arguments) (silent : args.callback ≡ none) (classes : Classes) (descend : Search)
    (lin : ℕ → ℕ → Option (List Place)) (agrees : Agrees args.methodid descend lin) (cls : ℕ)
    (c : Class) where
  of_mixin-split :
      (inheritance mixin : ℕ) (k : List Place)
      → of_mixin lin classes c inheritance mixin ≡ some k
      → (infra walked : Class) × (classes mixin ≡ some infra)
        × (classes (if c.is_metaclass then infra.metaclass else mixin) ≡ some walked)
        × (lin
              (if c.is_metaclass then infra.metaclass else mixin)
              (bit_or inheritance walked.inheritance)
            ≡ some k)
  of_mixin-split inheritance mixin k h = elim (Option-cases (classes mixin)) [
    | inl e ↦ absurd (let q : none ≡ some k = rw (e, of_mixin) at h in cc)
    | inr (infra, e) ↦
        let walk_cls = if c.is_metaclass then infra.metaclass else mixin in
        elim (Option-cases (classes walk_cls)) [
          | inl e' ↦ absurd (let q : none ≡ some k = rw (of_mixin, e, of_mixin, e') at h in cc)
          | inr (walked, e') ↦ (infra, walked, e, e', rw (of_mixin, e, of_mixin, e') at h)
        ]
  ]

  -- One mixin that is not the class itself.
  mixin_step :
      (inheritance mixin : ℕ) (rover : List ℕ) (p : Bool) (e : Error) (r : Option Hit)
      (covered : List Method) (k : List Place)
      → (mixin == c.infraclass) ≡ false
      → of_mixin lin classes c inheritance mixin ≡ some k
      → ((outcome args.methodid k (default_state p e r covered)
            ≡ (fail, default_state p e r covered))
          → search_mixins descend classes args cls c inheritance
              (mixin ∷ rover)
              none
              (default_state p e r covered)
            ≡ search_mixins descend classes args cls c inheritance rover none
                (default_state p e r covered))
        × ((m : Method) (s' : State)
            → outcome args.methodid k (default_state p e r covered) ≡ (found m, s')
            → search_mixins descend classes args cls c inheritance
                (mixin ∷ rover)
                none
                (default_state p e r covered)
              ≡ some (found m, s'))
  unfolding search_mixins mixin_match
  mixin_step inheritance mixin rover p e r covered k other h =
      let (infra, walked, here, there, run) = of_mixin-split inheritance mixin k h in
      let (down, tame) = agrees _ _ p e r covered k run in
      (
        λ miss. rw (
          search_mixins, other, here, search_mixins, there, search_mixins, down, miss,
          search_mixins,
        ),
        λ m s' hit. rw (
          search_mixins,
          other,
          here,
          search_mixins,
          there,
          search_mixins,
          down,
          hit,
          search_mixins,
          silent,
          mixin_match,
          rw hit at tame,
          search_mixins,
        ),
      )

  no_mixins :
      (inheritance : ℕ) (s : State)
      → (search_mixins descend classes args cls c inheritance [] none s
          ≡ some (outcome args.methodid [] s))
        × IsTame (outcome args.methodid [] s).0
  unfolding search_mixins outcome
  no_mixins inheritance s = (refl, _)

  skip_self :
      (inheritance mixin : ℕ) (rover : List ℕ) (s : State)
      → (mixin == c.infraclass) ≡ true
      → search_mixins descend classes args cls c inheritance (mixin ∷ rover) none s
        ≡ search_mixins descend classes args cls c inheritance rover none s
  unfolding search_mixins
  skip_self inheritance mixin rover s same = rw (search_mixins, same)

  abbrev Outcome : ℕ → List ℕ → List Place → State → Type 0
  Outcome inheritance rover l s =
      (search_mixins descend classes args cls c inheritance rover none s
        ≡ some (outcome args.methodid l s))
      × IsTame (outcome args.methodid l s).0

  first_and_rest :
      (inheritance mixin : ℕ) (rover : List ℕ) (p : Bool) (e : Error) (r : Option Hit)
      (covered : List Method) (k k' : List Place)
      → (mixin == c.infraclass) ≡ false
      → of_mixin lin classes c inheritance mixin ≡ some k
      → Outcome inheritance rover k' (default_state p e r covered)
      → Outcome inheritance (mixin ∷ rover) (k ++ k') (default_state p e r covered)
  first_and_rest inheritance mixin rover p e r covered k k' other hk (run, tame) =
      let s = default_state p e r covered in
      let (miss, hit) = mixin_step inheritance mixin rover p e r covered k other hk in
      let (infra, walked, here, there, deeper) = of_mixin-split inheritance mixin k hk in
      let tame' = (agrees _ _ p e r covered k deeper).1 in
      (
        elim (outcome-cases args.methodid k s) [
          | inl (a, rest) ↦ miss a ∙ run ∙ ap some (sym (rest k'))
          | inr (m, s', a, rest) ↦ hit m s' a ∙ ap some (sym (rest k'))
        ],
        IsTame-append args.methodid k k' s tame' tame,
      )

  -- The loop over the mixins.
  pub search_mixins-outcome :
      (inheritance : ℕ) (rover : List ℕ) (p : Bool) (e : Error) (r : Option Hit)
      (covered : List Method) (l : List Place)
      → of_mixins lin classes c inheritance rover ≡ some l
      → (search_mixins descend classes args cls c inheritance rover none
            (default_state p e r covered)
          ≡ some (outcome args.methodid l (default_state p e r covered)))
        × IsTame (outcome args.methodid l (default_state p e r covered)).0
  search_mixins-outcome inheritance [] p e r covered l h =
      let empty : [] ≡ l = some-injective _ _ h in
      subst
        (λ t.
          (search_mixins descend classes args cls c inheritance [] none
              (default_state p e r covered)
            ≡ some (outcome args.methodid t (default_state p e r covered)))
          × IsTame (outcome args.methodid t (default_state p e r covered)).0)
        empty (no_mixins inheritance (default_state p e r covered))
  search_mixins-outcome inheritance (mixin ∷ rover) p e r covered l h =
      elim (Bool-cases (mixin == c.infraclass)) [
        | inl same ↦
            let h' : of_mixins lin classes c inheritance rover ≡ some l =
              rw (of_mixins, same) at h in
            let (run, tame) = search_mixins-outcome inheritance rover p e r covered l h' in
            (skip_self inheritance mixin rover (default_state p e r covered) same ∙ run, tame)
        | inr other ↦
            let h' : join (of_mixin lin classes c inheritance mixin)
                  (of_mixins lin classes c inheritance rover)
                ≡ some l =
              rw (of_mixins, other) at h in
            let (k, k', hk, hk', e') = join-split _ _ l h' in
            subst (λ t. Outcome inheritance (mixin ∷ rover) t (default_state p e r covered)) e'
              (first_and_rest inheritance mixin rover p e r covered k k' other hk
                (search_mixins-outcome inheritance rover p e r covered k' hk'))
      ]
