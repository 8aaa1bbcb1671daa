-- ===== src/Classsearch/Retry.antt =====
-- The wrapper of the search, which asks for missing classes and searches again
-- (src/mulle-objc-class-search.c, mulle_objc_class_search_method from the label retry on).
use mulle_objc_runtime.Prelude.{
  ℕ, zero, suc, ◌≡◌, ◌≢◌, Bool, true, false, refl, Option, none, some, List, ◌∷◌, if◌then◌else◌,
  eq→==, ne→==-false,
}
use mulle_objc_runtime.Method.{Method}
use mulle_objc_runtime.Methodlist.{Methodlist, find}
use mulle_objc_runtime.Classsearch.{
  Class, Classes, Mode, search_previous_method, search_super_method, search_super_method_2,
  search_overridden_method, Arguments, State, Error, einval, Hit, fail, stop, found, returns,
  has_bit, dont_inherit_class, search_lists, search_list, skips_list, skips_match, list_search,
  match_found, accept,
}
use mulle_objc_runtime.Classsearch.Descent.{search_method_internal, search_class, enumerated_lists}
use mulle_objc_runtime.Classsearch.Lists.{IsSearchable}

-- The modes of a relative search that has not met its anchor.
abbrev pub is_unanchored : Mode → Bool
is_unanchored search_previous_method = true
is_unanchored search_super_method = true
is_unanchored search_overridden_method = true
is_unanchored _ = false

-- From the label retry on, of a universe that is not going away. `missing` is the callback
-- method_is_missing: `none` is a nonzero result, else it may have loaded classes. The mode stays as
-- the search before has left it. An outer `none` is a search or a number of retries that the fuel
-- does not last for.
unfoldable pub search_retry :
    (rounds fuel : ℕ)
    → (Classes → Option Classes)
    → Classes
    → Arguments
    → (cls inheritance : ℕ) → State
    → Option (Option Method × State)
search_retry zero fuel missing classes args cls inheritance s = none
search_retry (suc rounds) fuel missing classes args cls inheritance s =
    elim (search_method_internal fuel classes args cls inheritance s) [
      | none ↦ none
      | some (result, s') ↦
          if is_unanchored s'.mode then some (none, record s' { error = einval }) else elim result [
            | stop ↦ some (none, s')
            | found method ↦ some (some method, s')
            | fail ↦ elim (missing classes) [
              | none ↦ some (none, s')
              | some classes' ↦ search_retry rounds fuel missing classes' args cls inheritance s'
            ]
          ]
    ]

-- A state after a search for a super method has met its anchor.
abbrev pub anchored : Error → Option Hit → List Method → State
anchored e r covered = record {
  mode = search_super_method_2;
  error = e;
  result = r;
  covered = covered;
}

module _ (args : Arguments) (silent : args.callback ≡ none) (cls inheritance : ℕ) (c : Class)
    (list : Methodlist) (lists : List Methodlist) (m : Method)
    (goes : c.classid ≢ args.stop_classid) (anchor : args.classid ≡ c.classid)
    (first : enumerated_lists c inheritance ≡ list ∷ lists)
    (whole : has_bit inheritance dont_inherit_class ≡ false)
    (good : IsSearchable args.methodid list) (has : find list args.methodid ≡ some m) (e : Error)
    (r : Option Hit) (covered : List Method) where
  hit : State
  hit = record {
    mode = search_super_method_2;
    error = e;
    result = some (record { cls = cls; list = list; method = m });
    covered = m ∷ covered;
  }

  first_list_hit :
      search_list args cls c list none inheritance (anchored e r covered)
      ≡ some (returns (found m) hit)
  unfolding search_list skips_list skips_match list_search match_found accept hit
  first_list_hit = rw (good.agrees, has, search_list, silent, match_found, good.overrides m has)

  own_found :
      (fuel : ℕ) (classes : Classes)
      → classes cls ≡ some c
      → search_method_internal (suc fuel) classes args cls inheritance (anchored e r covered)
        ≡ some (found m, hit)
  unfolding search_method_internal search_class search_lists
  own_found fuel classes here = rw (
    search_method_internal,
    here,
    search_method_internal,
    eq→== args.classid c.classid anchor,
    ne→==-false c.classid args.stop_classid goes,
    search_class,
    first,
    search_lists,
    whole,
    search_lists,
    first_list_hit,
    search_lists,
  )

-- A search for the super method that has failed, but whose missing class could be loaded, goes on
-- in the mode of the search before, in which the anchor was met: it does not skip the class that
-- sends the message any more and returns that class's own method, where its first list has one and
-- is sorted and that method may be an override. It is asked that there is no callback and that the
-- class has neither the stop id nor a bit that leaves its lists out.
pub search_retry-super :
    (rounds fuel : ℕ) (missing : Classes → Option Classes) (classes classes' : Classes)
    (args : Arguments) (cls inheritance : ℕ) (c : Class) (list : Methodlist)
    (lists : List Methodlist) (m : Method) (s : State) (e : Error) (r : Option Hit)
    (covered : List Method)
    → search_method_internal (suc fuel) classes args cls inheritance s
      ≡ some (fail, anchored e r covered)
    → missing classes ≡ some classes'
    → classes' cls ≡ some c
    → args.callback ≡ none
    → args.classid ≡ c.classid
    → c.classid ≢ args.stop_classid
    → enumerated_lists c inheritance ≡ list ∷ lists
    → has_bit inheritance dont_inherit_class ≡ false
    → IsSearchable args.methodid list
    → find list args.methodid ≡ some m
    → (s' : State) × (search_retry
          (suc (suc rounds))
          (suc fuel)
          missing
          classes
          args
          cls
          inheritance
          s
        ≡ some (some m, s'))
      × (s'.result ≡ some (record { cls = cls; list = list; method = m }))
unfolding search_retry hit
search_retry-super rounds fuel missing classes classes' args cls inheritance c list lists m s e r
      covered failed loaded here silent anchor goes first whole good has =
    let again =
      own_found args silent cls inheritance c list lists m goes anchor first whole good has e r
        covered fuel classes' here in
    (
      hit args silent cls inheritance c list lists m goes anchor first whole good has e r covered,
      rw (search_retry, failed, search_retry, loaded, search_retry, again),
      refl,
    )
