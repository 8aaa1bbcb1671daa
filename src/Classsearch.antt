-- ===== src/Classsearch.antt =====
-- The search for a method in a class (src/mulle-objc-class-search.c and .h): the classes, the
-- arguments and the state of a search, and the search of one class's own method lists. Trace output
-- is left out.
pub mod Descent
pub mod Linear
pub mod Lists
pub mod Mixins
pub mod Agreement
pub mod Default
pub mod Depth
pub mod Retry
pub mod Super
use Prim.Native.Nat.{bit_and, bit_or}
use mulle_objc_runtime.Prelude.{
  ℕ, zero, suc, ◌+◌, Bool, true, false, not, ◌&&◌, Option, none, some, List, [], ◌∷◌, ◌==◌,
  if◌then◌else◌,
}
use mulle_objc_runtime.Method.{Method}
use mulle_objc_runtime.Methodlist.{Methodlist, search_method, linear_impsearch, get_categoryid}

-- The MULLE_OBJC_CLASS_DONT_INHERIT bits.
abbrev pub dont_inherit_superclass : ℕ
dont_inherit_superclass = 0x01

abbrev pub dont_inherit_categories : ℕ
dont_inherit_categories = 0x02

abbrev pub dont_inherit_protocols : ℕ
dont_inherit_protocols = 0x04

abbrev pub dont_inherit_protocol_categories : ℕ
dont_inherit_protocol_categories = 0x08

abbrev pub dont_inherit_protocol_meta : ℕ
dont_inherit_protocol_meta = 0x10

abbrev pub dont_inherit_class : ℕ
dont_inherit_class = 0x20

abbrev pub dont_inherit_superclass_inheritance : ℕ
dont_inherit_superclass_inheritance = 0x40

-- A class, infra or meta. Pointers are addresses, 0 is NULL. `methodlists` and `mixins` are in the
-- order of their addition; the mixins belong to the class pair and are infra classes.
pub record Class : Type 0 where
  pub classid : ℕ
  pub inheritance : ℕ
  pub superclass : ℕ
  pub infraclass : ℕ
  pub metaclass : ℕ
  pub is_metaclass : Bool
  pub is_mixin : Bool
  pub methodlists : List Methodlist
  pub mixins : List ℕ

abbrev pub Classes : Type 0
Classes = ℕ → Option Class

-- enum internal_search_mode
pub data Mode : Type 0 where
  search_default search_imp search_overridden_method search_previous_method search_specific_method :
      Mode
  search_super_method search_overridden_method_2 search_previous_method_2 search_specific_method_2 :
      Mode
  search_super_method_2 search_overridden_method_3 search_specific_method_3 : Mode

pub data Error : Type 0 where
  enoent einval eexist ecanceled : Error
  other : (errno : ℕ) → Error

-- struct _mulle_objc_searchresult, without the error
pub record Hit : Type 0 where
  pub cls : ℕ
  pub list : Methodlist
  pub method : Method

-- mulle_objc_walkcommand_t; an error comes with the errno that the callback has set.
pub data Command : Type 0 where
  walk_ok walk_dont_descend walk_done walk_cancel : Command
  walk_error : (errno : ℕ) → Command

-- struct _mulle_objc_searcharguments. `is_previous` is the comparison with the pointer
-- `previous_method`. What the callback does to its userinfo is not modelled.
pub record Arguments : Type 0 where
  pub methodid : ℕ
  pub classid : ℕ
  pub categoryid : ℕ
  pub imp : ℕ
  pub is_previous : Method → Bool
  pub stop_classid : ℕ
  pub callback : Option (ℕ → ℕ → Option Hit → Command)

-- What a search changes: its mode, the result and its error, and the methods whose coverage bit was
-- set, the latest first.
pub record State : Type 0 where
  pub mode : Mode
  pub error : Error
  pub result : Option Hit
  pub covered : List Method

-- MULLE_OBJC_METHOD_SEARCH_FAIL, NULL, or a method
pub data Found : Type 0 where
  fail stop : Found
  found : Method → Found

-- A part of the search returns from the function, or goes on with what it has found so far, the
-- inheritance and the state.
pub data Step : Type 0 where
  returns : Found → State → Step
  goes_on : Option Method → ℕ → State → Step

abbrev pub has_bit : ℕ → ℕ → Bool
has_bit inheritance bit = not (bit_and inheritance bit == 0)

-- _mulle_objc_descriptor_is_hidden_override_fatal: _mulle_objc_method_check_unexpected_override
abbrev pub is_hidden_override_fatal : Method → Bool
is_hidden_override_fatal m = not (bit_and m.descriptor.bits 0x01 == 0)

abbrev pub as_found : Option Method → Found
as_found none = fail
as_found (some m) = found m

-- The method that a list has, by the mode.
unfoldable pub list_search : Arguments → Mode → Methodlist → Option (Option Method)
list_search args search_imp list = some (linear_impsearch list args.imp)
list_search args _ list = search_method list args.methodid

-- A match that is not refused: it is returned, unless it must not override anything.
unfoldable pub accept : Method → ℕ → State → Step
accept method inheritance s =
    if is_hidden_override_fatal method
    then goes_on (some method) inheritance s
    else returns (found method) (record s { covered = method ∷ s.covered })

-- A match in a class's list, after the tests that depend on the mode. `before` is what the search
-- has found so far.
unfoldable pub match_found :
    Arguments → ℕ → Methodlist → Method → (before : Option Method) → ℕ → State → Step
match_found args cls list method (some before) inheritance s =
    returns stop (record s { error = eexist })
match_found args cls list method none inheritance s =
    let result : Option Hit = some (record { cls = cls; list = list; method = method }) in
    let s' : State = record s { result = result } in
    elim args.callback [
      | none ↦ accept method inheritance s'
      | some callback ↦ elim (callback cls inheritance result) [
        | walk_ok ↦ goes_on none inheritance s'
        | walk_dont_descend ↦ goes_on none (bit_or inheritance dont_inherit_superclass) s'
        | walk_done ↦ accept method inheritance s'
        | walk_cancel ↦ returns stop (record s' { error = ecanceled })
        | walk_error errno ↦ returns stop (record s' { error = other errno })
      ]
    ]

-- The tests of the second switch: whether the match is skipped, and the mode after it.
unfoldable pub skips_match : Arguments → Class → Methodlist → Method → Mode → Bool × Mode
skips_match args c list method search_overridden_method_3 = (
  args.classid == c.classid && args.categoryid == get_categoryid list,
  search_overridden_method_3,
)
skips_match args c list method search_previous_method =
    if args.is_previous method
    then (true, search_previous_method_2)
    else (false, search_previous_method)
skips_match args c list method mode = (false, mode)

-- The tests of the first switch: whether the list is skipped, and the mode after it.
unfoldable pub skips_list : Arguments → Methodlist → Mode → Bool × Mode
skips_list args list search_overridden_method_2 =
    if args.categoryid == get_categoryid list
    then (true, search_overridden_method_3)
    else (true, search_overridden_method_2)
skips_list args list search_specific_method_2 =
    if args.categoryid == get_categoryid list
    then (false, search_specific_method_3)
    else (true, search_specific_method_2)
skips_list args list mode = (false, mode)

-- What a list without the method means.
abbrev pub no_match : Mode → Option Method → ℕ → State → Step
no_match search_specific_method_3 before inheritance s = returns fail s
no_match _ before inheritance s = goes_on before inheritance s

-- One list of the class. `none`: the binary search in it has not ended.
unfoldable pub search_list :
    Arguments → ℕ → Class → Methodlist → Option Method → ℕ → State → Option Step
search_list args cls c list before inheritance s =
    let (skips, mode) = skips_list args list s.mode in
    let s' : State = record s { mode = mode } in
    if skips then some (goes_on before inheritance s') else elim (list_search args mode list) [
      | none ↦ none
      | some none ↦ some (no_match mode before inheritance s')
      | some (some method) ↦
          let (skipped, mode') = skips_match args c list method mode in
          let s'' : State = record s { mode = mode' } in
          elim mode' [
            | search_specific_method_3 ↦ some (returns (found method) s'')
            | _ ↦
                if skipped
                then some (goes_on before inheritance s'')
                else some (match_found args cls list method before inheritance s'')
          ]
    ]

-- The loop over the lists. `i` counts them if the class's own list, the last one, is left out.
unfoldable pub search_lists :
    Arguments
    → ℕ
    → Class
    → (n : ℕ) → List Methodlist
    → (i : ℕ) → Option Method
    → ℕ
    → State
    → Option Step
search_lists args cls c n [] i before inheritance s = some (goes_on before inheritance s)
search_lists args cls c n (list ∷ rover) i before inheritance s =
    if has_bit inheritance dont_inherit_class && i + 1 == n
    then some (goes_on before inheritance s)
    else elim (search_list args cls c list before inheritance s) [
      | none ↦ none
      | some (returns f s') ↦ some (returns f s')
      | some (goes_on before' inheritance' s') ↦
          search_lists args cls c n rover
            (if has_bit inheritance dont_inherit_class then i + 1 else i) before' inheritance' s'
    ]
