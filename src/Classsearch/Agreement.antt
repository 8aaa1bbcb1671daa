-- ===== src/Classsearch/Agreement.antt =====
-- The search of a class returns the first match in the order of Classsearch.Linear.
use mathlib.Core.List.{reverse}
use mathlib.Core.Option.{some-injective}
use mulle_objc_runtime.Prelude.{
  Bool, ℕ, ◌≡◌, false, inl, inr, refl, Option, none, some, List, [], ◌++◌, ◌==◌, if◌then◌else◌, ap,
  ◌∙◌, sym, subst, Option-cases, Bool-cases,
}
use mulle_objc_runtime.Method.{Method}
use mulle_objc_runtime.Classsearch.{
  Class, Classes, Arguments, State, Error, Hit, Found, fail, has_bit, dont_inherit_protocols,
  dont_inherit_superclass, dont_inherit_protocol_categories, dont_inherit_categories,
}
use mulle_objc_runtime.Classsearch.Descent.{
  Search, combine, finish, search_superclass, search_method_super, adjust_inheritance,
  protocol_search_method, next_class,
}
use mulle_objc_runtime.Classsearch.Linear.{
  Place, join, of_protocols, of_superclass, mixin_inheritance, outcome, outcome-cases,
}
use mulle_objc_runtime.Classsearch.Lists.{IsTame, default_state}
use mulle_objc_runtime.Classsearch.Mixins.{Agrees, join-split, IsTame-append, search_mixins-outcome}

module _ (args : Arguments) (silent : args.callback ≡ none) (classes : Classes) (descend : Search)
    (lin : ℕ → ℕ → Option (List Place)) (agrees : Agrees args.methodid descend lin) (cls : ℕ)
    (c : Class) where
  -- What a part of the search owes for the places `l`.
  abbrev pub Owes : Option (Found × State) → List Place → State → Type 0
  Owes result l s =
      (result ≡ some (outcome args.methodid l s)) × IsTame (outcome args.methodid l s).0

  nothing : (s : State) → Owes (some (fail, s)) [] s
  unfolding outcome
  nothing s = (refl, _)

  Owes-empty :
      (result : Option (Found × State)) (l : List Place) (s : State)
      → result ≡ some (fail, s)
      → some [] ≡ some l
      → Owes result l s
  Owes-empty result l s e h =
      subst (λ t. Owes result t s) (some-injective _ _ h) (e ∙ (nothing s).0, (nothing s).1)

  finish-combine :
      (inheritance : ℕ) (l : List Place) (s : State)
      → IsTame (outcome args.methodid l s).0
      → finish (combine none inheritance (outcome args.methodid l s)) ≡ outcome args.methodid l s
  unfolding combine
  finish-combine inheritance l s tame = elim (outcome-cases args.methodid l s) [
    | inl (e, rest) ↦ rw e
    | inr (m, s', e, rest) ↦ rw (e, combine, rw e at tame)
  ]

  search_superclass-outcome :
      (inheritance : ℕ) (p : Bool) (e : Error) (r : Option Hit) (covered : List Method)
      (l : List Place)
      → of_superclass lin classes c inheritance ≡ some l
      → Owes
          (search_superclass descend classes c none inheritance (default_state p e r covered))
          l
          (default_state p e r covered)
  unfolding search_superclass search_method_super
  search_superclass-outcome inheritance p e r covered l h = elim (Bool-cases (c.superclass == 0)) [
    | inl root ↦ Owes-empty _ l _ (rw root) (rw (of_superclass, root) at h)
    | inr sub ↦ elim (Bool-cases (has_bit inheritance dont_inherit_superclass)) [
      | inl bit ↦ Owes-empty _ l _ (rw (sub, bit)) (rw (of_superclass, sub, bit) at h)
      | inr bit ↦ elim (Option-cases (classes c.superclass)) [
        | inl e' ↦ absurd (let q : none ≡ some l = rw (of_superclass, sub, bit, e') at h in cc)
        | inr (supercls, here) ↦
            let inheritance' = adjust_inheritance c supercls inheritance in
            let (down, tame) =
              agrees _ _ p e r covered l (rw (of_superclass, sub, bit, here) at h) in
            (
              rw (search_superclass, sub, bit, here, search_superclass, down, search_superclass)
                  (ap some (finish-combine inheritance' l (default_state p e r covered) tame)),
              tame,
            )
      ]
    ]
  ]

  protocol_search_method-outcome :
      (inheritance : ℕ) (p : Bool) (e : Error) (r : Option Hit) (covered : List Method)
      (l : List Place)
      → has_bit inheritance dont_inherit_protocols ≡ false
      → of_protocols lin classes c inheritance ≡ some l
      → Owes
          (protocol_search_method descend classes args cls c
            (if has_bit inheritance dont_inherit_protocol_categories
              then dont_inherit_categories
              else 0)
            (default_state p e r covered))
          l
          (default_state p e r covered)
  unfolding protocol_search_method
  protocol_search_method-outcome inheritance p e r covered l bit h =
      elim (Option-cases (classes c.infraclass)) [
        | inl e' ↦ absurd (let q : none ≡ some l = rw (of_protocols, bit, e') at h in cc)
        | inr (infra, here) ↦ elim (Bool-cases infra.is_mixin) [
          | inl mixin ↦
              Owes-empty _ l _ (rw (protocol_search_method, here, protocol_search_method, mixin))
                (rw (of_protocols, bit, here, of_protocols, mixin) at h)
          | inr plain ↦
              let (run, tame) =
                search_mixins-outcome args silent classes descend lin agrees cls c
                  (mixin_inheritance inheritance) (reverse c.mixins) p e r covered l
                  (rw (of_protocols, bit, here, of_protocols, plain) at h) in
              (rw (protocol_search_method, here, protocol_search_method, plain) run, tame)
        ]
      ]

  pub next_class-outcome :
      (inheritance : ℕ) (p : Bool) (e : Error) (r : Option Hit) (covered : List Method)
      (l : List Place)
      → join (of_protocols lin classes c inheritance) (of_superclass lin classes c inheritance)
        ≡ some l
      → Owes
          (next_class descend classes args cls c none inheritance (default_state p e r covered))
          l
          (default_state p e r covered)
  unfolding next_class combine
  next_class-outcome inheritance p e r covered l h =
      let s = default_state p e r covered in
      let (k, k', hk, hk', e') = join-split _ _ l h in
      let (up, tame') = search_superclass-outcome inheritance p e r covered k' hk' in
      subst (λ t. Owes (next_class descend classes args cls c none inheritance s) t s) e'
        (elim (Bool-cases (has_bit inheritance dont_inherit_protocols)) [
          | inl bit ↦
              let empty : some [] ≡ some k = rw (of_protocols, bit) at hk in
              subst
                (λ t. Owes (next_class descend classes args cls c none inheritance s) (t ++ k') s)
                (some-injective _ _ empty) (rw bit up, tame')
          | inr bit ↦
              let (run, tame) = protocol_search_method-outcome inheritance p e r covered k bit hk in
              (
                elim (outcome-cases args.methodid k s) [
                  | inl (miss, rest) ↦
                      rw (next_class, bit, run, miss, combine, next_class)
                        (up ∙ ap some (sym (rest k')))
                  | inr (m, s', hit, rest) ↦
                      rw (next_class, bit, run, hit, combine, rw hit at tame, next_class)
                        (ap some (sym (rest k')))
                ],
                IsTame-append args.methodid k k' s tame tame',
              )
        ])
