-- ===== src/Classsearch/Descent.antt =====
-- The search over a class, its mixins and its superclasses (src/mulle-objc-class-search.c).
use Prim.Native.Nat.{bit_or}
use mathlib.Core.List.{reverse}
use mulle_objc_runtime.Prelude.{
  ℕ, zero, suc, Bool, true, false, not, ◌&&◌, Option, none, some, List, [], ◌∷◌, ◌==◌,
  if◌then◌else◌, length,
}
use mulle_objc_runtime.Method.{Method}
use mulle_objc_runtime.Methodlist.{Methodlist}
use mulle_objc_runtime.Classsearch.{
  Class, Classes, Mode, search_overridden_method, search_specific_method, search_super_method,
  search_overridden_method_2, search_specific_method_2, search_super_method_2, einval, eexist,
  ecanceled, other, walk_ok, walk_dont_descend, walk_done, walk_cancel, walk_error, Arguments,
  State, Found, fail, stop, found, Step, returns, goes_on, has_bit, is_hidden_override_fatal,
  as_found, search_lists, dont_inherit_superclass, dont_inherit_categories, dont_inherit_protocols,
  dont_inherit_protocol_categories, dont_inherit_protocol_meta, dont_inherit_superclass_inheritance,
}

-- The search of another class, one level deeper.
abbrev pub Search : Type 0
Search = ℕ → ℕ → State → Option (Found × State)

-- The reverse enumeration of the method lists; with the bit only the first one, which is the
-- class's own.
abbrev pub first_list : List Methodlist → List Methodlist
first_list [] = []
first_list (list ∷ lists) = list ∷ []

unfoldable pub enumerated_lists : Class → ℕ → List Methodlist
enumerated_lists c inheritance =
    if has_bit inheritance dont_inherit_categories
    then first_list c.methodlists
    else reverse c.methodlists

-- A match in a mixin, when it was not refused before: returned, or kept.
unfoldable pub mixin_match : Arguments → ℕ → Method → (before : Option Method) → ℕ → State → Step
mixin_match args cls method (some before) inheritance s = returns stop (record s { error = eexist })
mixin_match args cls method none inheritance s =
    let accepted : Step =
      (if is_hidden_override_fatal method
        then goes_on (some method) inheritance s
        else returns (found method) s) in
    elim args.callback [
      | none ↦ accepted
      | some callback ↦ elim (callback cls inheritance s.result) [
        | walk_ok ↦ goes_on none inheritance s
        | walk_dont_descend ↦ goes_on none inheritance s
        | walk_done ↦ accepted
        | walk_cancel ↦ returns stop (record s { error = ecanceled })
        | walk_error errno ↦ returns stop (record s { error = other errno })
      ]
    ]

-- The loop of _mulle_objc_class_protocol_search_method over the mixins; those equal to the pair's
-- own class are skipped. `none` of `classes` is a pointer that dangles.
unfoldable pub search_mixins :
    Search
    → Classes
    → Arguments
    → ℕ
    → Class
    → ℕ
    → List ℕ
    → Option Method
    → State
    → Option (Found × State)
search_mixins descend classes args cls c inheritance [] before s = some (as_found before, s)
search_mixins descend classes args cls c inheritance (mixin ∷ rover) before s =
    if mixin == c.infraclass
    then search_mixins descend classes args cls c inheritance rover before s
    else elim (classes mixin) [
      | none ↦ none
      | some infra ↦
          let walk_cls = if c.is_metaclass then infra.metaclass else mixin in
          elim (classes walk_cls) [
            | none ↦ none
            | some walked ↦ elim (descend walk_cls (bit_or inheritance walked.inheritance) s) [
              | none ↦ none
              | some (fail, s') ↦
                  search_mixins descend classes args cls c inheritance rover before s'
              | some (stop, s') ↦ some (stop, s')
              | some (found method, s') ↦ elim (mixin_match args cls method before inheritance s') [
                | returns f s'' ↦ some (f, s'')
                | goes_on before' inheritance' s'' ↦
                    search_mixins descend classes args cls c inheritance rover before' s''
              ]
            ]
          ]
    ]

-- _mulle_objc_class_protocol_search_method
unfoldable pub protocol_search_method :
    Search → Classes → Arguments → ℕ → Class → ℕ → State → Option (Found × State)
protocol_search_method descend classes args cls c inheritance s = elim (classes c.infraclass) [
  | none ↦ none
  | some infra ↦
      if infra.is_mixin
      then some (fail, s)
      else search_mixins descend classes args cls c
          (bit_or inheritance (
            bit_or dont_inherit_superclass
              (bit_or dont_inherit_superclass_inheritance dont_inherit_protocols)))
          (reverse c.mixins) none s
]

-- What a search one level deeper has found, next to what was found before.
unfoldable pub combine : Option Method → ℕ → Found × State → Step
combine before inheritance (fail, s) = goes_on before inheritance s
combine before inheritance (stop, s) = returns stop s
combine (some m) inheritance (found method, s) = returns stop (record s { error = eexist })
combine none inheritance (found method, s) =
    if is_hidden_override_fatal method
    then goes_on (some method) inheritance s
    else returns (found method) s

-- The inheritance of the step to the superclass: without `protocol-meta` a root metaclass does not
-- search the mixins of the infra class that it inherits from.
unfoldable pub adjust_inheritance : Class → Class → ℕ → ℕ
adjust_inheritance c supercls inheritance =
    if has_bit inheritance dont_inherit_protocol_meta && c.is_metaclass && not supercls.is_metaclass
    then bit_or
        (if has_bit inheritance dont_inherit_superclass_inheritance
          then inheritance
          else bit_or supercls.inheritance dont_inherit_superclass_inheritance)
        (bit_or dont_inherit_protocols dont_inherit_protocol_meta)
    else inheritance

-- _mulle_objc_class_search_method_super
unfoldable pub search_method_super : Search → ℕ → Class → ℕ → State → Option (Found × State)
search_method_super descend supercls_pointer supercls inheritance s =
    descend supercls_pointer
      (if has_bit inheritance dont_inherit_superclass_inheritance
        then inheritance
        else supercls.inheritance)
      s

abbrev pub finish : Step → Found × State
finish (returns f s) = (f, s)
finish (goes_on before inheritance s) = (as_found before, s)

-- From the label next_class on, after the mixins
unfoldable pub search_superclass :
    Search → Classes → Class → Option Method → ℕ → State → Option (Found × State)
search_superclass descend classes c before inheritance s =
    if c.superclass == 0
    then some (as_found before, s)
    else if has_bit inheritance dont_inherit_superclass
    then some (as_found before, s)
    else elim (classes c.superclass) [
      | none ↦ none
      | some supercls ↦
          let inheritance' = adjust_inheritance c supercls inheritance in
          elim (search_method_super descend c.superclass supercls inheritance' s) [
            | none ↦ none
            | some result ↦ some (finish (combine before inheritance' result))
          ]
    ]

-- From the label next_class on
unfoldable pub next_class :
    Search → Classes → Arguments → ℕ → Class → Option Method → ℕ → State → Option (Found × State)
next_class descend classes args cls c before inheritance s =
    if has_bit inheritance dont_inherit_protocols
    then search_superclass descend classes c before inheritance s
    else elim (protocol_search_method descend classes args cls c
        (if has_bit inheritance dont_inherit_protocol_categories
          then dont_inherit_categories
          else 0)
        s) [
          | none ↦ none
          | some result ↦ elim (combine before inheritance result) [
            | returns f s' ↦ some (f, s')
            | goes_on before' inheritance' s' ↦
                search_superclass descend classes c before' inheritance' s'
          ]
        ]

-- Whether the mode still looks for its starting point, and the mode of the class's own lists.
abbrev pub has_no_start : Mode → Bool
has_no_start search_overridden_method_2 = true
has_no_start search_specific_method_2 = true
has_no_start _ = false

-- The class's own lists, then the rest.
unfoldable pub search_class :
    Search → Classes → Arguments → ℕ → Class → ℕ → State → Option (Found × State)
search_class descend classes args cls c inheritance s =
    if c.classid == args.stop_classid
    then some (stop, s)
    else let rover = enumerated_lists c inheritance in
      elim (search_lists args cls c (length rover) rover 0 none inheritance s) [
        | none ↦ none
        | some (returns f s') ↦ some (f, s')
        | some (goes_on before inheritance' s') ↦
            if has_no_start s'.mode
            then some (stop, record s' { error = einval })
            else next_class descend classes args cls c before inheritance' s'
      ]

-- The switch at the start, for the class with the id that was asked for and the others: `true` if
-- the class's own lists are skipped, and the mode after it.
abbrev pub at_start : Bool → Mode → Bool × Mode
at_start true search_super_method = (true, search_super_method_2)
at_start false search_super_method = (true, search_super_method)
at_start true search_overridden_method = (false, search_overridden_method_2)
at_start false search_overridden_method = (true, search_overridden_method)
at_start true search_specific_method = (false, search_specific_method_2)
at_start false search_specific_method = (true, search_specific_method)
at_start _ mode = (false, mode)

-- _mulle_objc_class_search_method_internal. `none`: the classes are nested more deeply than the
-- fuel, or a pointer dangles.
unfoldable pub search_method_internal :
    ℕ → Classes → Arguments → ℕ → ℕ → State → Option (Found × State)
search_method_internal zero classes args cls inheritance s = none
search_method_internal (suc fuel) classes args cls inheritance s = elim (classes cls) [
  | none ↦ none
  | some c ↦
      let (skips, mode) = at_start (args.classid == c.classid) s.mode in
      let s' : State = record s { mode = mode } in
      let descend = search_method_internal fuel classes args in
      if skips
      then next_class descend classes args cls c none inheritance s'
      else search_class descend classes args cls c inheritance s'
]
