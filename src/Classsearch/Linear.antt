-- ===== src/Classsearch/Linear.antt =====
-- The order in which a search goes through the method lists, written down without a search: the
-- class's lists, then those of its mixins, then those of its superclasses.
use Prim.Native.Nat.{bit_or}
use mathlib.Core.List.{reverse}
use mulle_objc_runtime.Prelude.{
  ℕ, zero, suc, ◌≡◌, ◌⊎◌, inl, inr, refl, Option, none, some, List, [], ◌∷◌, ◌++◌, ◌==◌,
  if◌then◌else◌, Option-cases,
}
use mulle_objc_runtime.Method.{Method}
use mulle_objc_runtime.Methodlist.{Methodlist, find}
use mulle_objc_runtime.Classsearch.{
  Class, Classes, State, Found, fail, found, has_bit, dont_inherit_superclass,
  dont_inherit_categories, dont_inherit_protocols, dont_inherit_protocol_categories,
  dont_inherit_class, dont_inherit_superclass_inheritance,
}
use mulle_objc_runtime.Classsearch.Descent.{adjust_inheritance}

-- A method list with the class that has it.
abbrev pub Place : Type 0
Place = ℕ × Methodlist

abbrev pub all_but_last : List Methodlist → List Methodlist
all_but_last [] = []
all_but_last (a ∷ []) = []
all_but_last (a ∷ b ∷ l) = a ∷ all_but_last (b ∷ l)

abbrev pub latest_first : List Methodlist → List Methodlist
latest_first [] = []
latest_first (list ∷ lists) = latest_first lists ++ (list ∷ [])

abbrev pub only_first : List Methodlist → List Methodlist
only_first [] = []
only_first (list ∷ lists) = list ∷ []

-- The lists of the categories, the latest first, and the class's own, or only the latter.
abbrev pub own_lists : Class → ℕ → List Methodlist
own_lists c inheritance =
    if has_bit inheritance dont_inherit_categories
    then only_first c.methodlists
    else latest_first c.methodlists

abbrev pub kept : ℕ → List Methodlist → List Methodlist
kept inheritance lists =
    if has_bit inheritance dont_inherit_class then all_but_last lists else lists

abbrev pub places : ℕ → List Methodlist → List Place
places cls [] = []
places cls (list ∷ lists) = (cls, list) ∷ places cls lists

abbrev pub join : Option (List Place) → Option (List Place) → Option (List Place)
join none l = none
join (some k) none = none
join (some k) (some l) = some (k ++ l)

abbrev pub mixin_inheritance : ℕ → ℕ
mixin_inheritance inheritance =
    bit_or
      (if has_bit inheritance dont_inherit_protocol_categories then dont_inherit_categories else 0)
      (bit_or dont_inherit_superclass
        (bit_or dont_inherit_superclass_inheritance dont_inherit_protocols))

-- One mixin, the metaclass of it for a metaclass.
abbrev pub of_mixin : (ℕ → ℕ → Option (List Place)) → Classes → Class → ℕ → ℕ → Option (List Place)
of_mixin lin classes c inheritance mixin = elim (classes mixin) [
  | none ↦ none
  | some infra ↦
      let walk_cls = if c.is_metaclass then infra.metaclass else mixin in
      elim (classes walk_cls) [
        | none ↦ none
        | some walked ↦ lin walk_cls (bit_or inheritance walked.inheritance)
      ]
]

abbrev pub of_mixins :
    (ℕ → ℕ → Option (List Place)) → Classes → Class → ℕ → List ℕ → Option (List Place)
of_mixins lin classes c inheritance [] = some []
of_mixins lin classes c inheritance (mixin ∷ rover) =
    if mixin == c.infraclass
    then of_mixins lin classes c inheritance rover
    else join (of_mixin lin classes c inheritance mixin) (of_mixins lin classes c inheritance rover)

abbrev pub of_protocols : (ℕ → ℕ → Option (List Place)) → Classes → Class → ℕ → Option (List Place)
of_protocols lin classes c inheritance =
    if has_bit inheritance dont_inherit_protocols then some [] else elim (classes c.infraclass) [
      | none ↦ none
      | some infra ↦
          if infra.is_mixin
          then some []
          else of_mixins lin classes c (mixin_inheritance inheritance) (reverse c.mixins)
    ]

abbrev pub of_superclass : (ℕ → ℕ → Option (List Place)) → Classes → Class → ℕ → Option (List Place)
of_superclass lin classes c inheritance =
    if c.superclass == 0
    then some []
    else if has_bit inheritance dont_inherit_superclass
    then some []
    else elim (classes c.superclass) [
      | none ↦ none
      | some supercls ↦
          let inheritance' = adjust_inheritance c supercls inheritance in
          lin c.superclass (
            if has_bit inheritance' dont_inherit_superclass_inheritance
            then inheritance'
            else supercls.inheritance)
    ]

-- `none`: the classes are nested more deeply than the fuel, or a pointer dangles.
unfoldable pub linear : ℕ → Classes → ℕ → ℕ → Option (List Place)
linear zero classes cls inheritance = none
linear (suc fuel) classes cls inheritance = elim (classes cls) [
  | none ↦ none
  | some c ↦
      let lin = linear fuel classes in
      join (some (places cls (kept inheritance (own_lists c inheritance))))
        (join (of_protocols lin classes c inheritance) (of_superclass lin classes c inheritance))
]

-- The first list that has the method, and what the search for it leaves behind.
unfoldable pub outcome : ℕ → List Place → State → Found × State
outcome methodid [] s = (fail, s)
outcome methodid ((cls, list) ∷ l) s = elim (find list methodid) [
  | none ↦ outcome methodid l s
  | some m ↦ (
    found m,
    record s {
      result = some (record { cls = cls; list = list; method = m });
      covered = m ∷ s.covered;
    },
  )
]

-- A list of places has no match, or it has one whatever follows.
pub outcome-cases :
    (methodid : ℕ) (l : List Place) (s : State)
    → ((outcome methodid l s ≡ (fail, s))
        × ((k : List Place) → outcome methodid (l ++ k) s ≡ outcome methodid k s))
      ⊎ ((m : Method) × (s' : State) × (outcome methodid l s ≡ (found m, s'))
          × ((k : List Place) → outcome methodid (l ++ k) s ≡ (found m, s')))
unfolding outcome
outcome-cases methodid [] s = inl (refl, λ k. refl)
outcome-cases methodid ((cls, list) ∷ l) s = elim (Option-cases (find list methodid)) [
  | inl e ↦ elim (outcome-cases methodid l s) [
    | inl (a, b) ↦ inl (rw (e, outcome) a, λ k. rw (e, outcome) (b k))
    | inr (m, s', a, b) ↦ inr (m, s', rw (e, outcome) a, λ k. rw (e, outcome) (b k))
  ]
  | inr (m, e) ↦
      let s' : State = record s {
        result = some (record { cls = cls; list = list; method = m });
        covered = m ∷ s.covered;
      } in
      inr (m, s', rw (e, outcome), λ k. rw (e, outcome))
]
