-- ===== src/Classsearch/Lists.antt =====
-- The search of a class's own lists, in the default mode and without a callback.
use mulle_objc_runtime.Prelude.{
  Bool, ℕ, ◌+◌, ◌≡◌, ◌≢◌, true, false, inl, inr, refl, arith, Option, none, some, List, [], ◌∷◌,
  length, ap, ◌∙◌, sym, Option-cases, Bool-cases, eq→==, ne→==-false,
}
use mulle_objc_runtime.Method.{Method}
use mulle_objc_runtime.Methodlist.{Methodlist, find, search_method}
use mulle_objc_runtime.Classsearch.{
  Error, Class, Arguments, State, Mode, search_default, search_super_method_2, Found, fail, stop,
  found, Step, returns, goes_on, Hit, has_bit, dont_inherit_class, is_hidden_override_fatal,
  search_list, search_lists, skips_list, skips_match, list_search, match_found, accept,
}
use mulle_objc_runtime.Classsearch.Linear.{Place, places, kept, all_but_last, outcome}

-- What is asked of a list: the binary search in it finds what a linear one finds (it is sorted),
-- and the method is not one that must not override anything.
pub record IsSearchable (methodid : ℕ) (list : Methodlist) : Type 0 where
  pub agrees : search_method list methodid ≡ some (find list methodid)
  pub overrides : (m : Method) → find list methodid ≡ some m → is_hidden_override_fatal m ≡ false

abbrev pub AllSearchable : ℕ → List Methodlist → Type 0
AllSearchable methodid [] = Unit {0}
AllSearchable methodid (list ∷ lists) = IsSearchable methodid list × AllSearchable methodid lists

-- A result that may be returned as it is.
abbrev pub IsTame : Found → Type 0
IsTame fail = Unit {0}
IsTame stop = ⊥
IsTame (found m) = is_hidden_override_fatal m ≡ false

-- How the search of one class goes on after it.
abbrev pub as_step : ℕ → Found × State → Step
as_step inheritance (fail, s) = goes_on none inheritance s
as_step inheritance (stop, s) = returns stop s
as_step inheritance (found m, s) = returns (found m) s

-- The modes in which every list is searched and every match is taken: that of a default search, and
-- that of a search for a super method which has met its anchor.
abbrev pub plain_mode : Bool → Mode
plain_mode true = search_default
plain_mode false = search_super_method_2

abbrev pub default_state : Bool → Error → Option Hit → List Method → State
default_state p e r covered = record {
  mode = plain_mode p;
  error = e;
  result = r;
  covered = covered;
}

module _ (args : Arguments) (silent : args.callback ≡ none) (cls : ℕ) (c : Class) where
  search_list-find :
      (list : Methodlist) (inheritance : ℕ) (p : Bool) (e : Error) (r : Option Hit)
      (covered : List Method)
      → IsSearchable args.methodid list
      → search_list args cls c list none inheritance (default_state p e r covered)
        ≡ some (
            as_step inheritance
              (outcome args.methodid ((cls, list) ∷ []) (default_state p e r covered)))
  unfolding search_list skips_list skips_match list_search match_found accept outcome
  search_list-find list inheritance true e r covered good =
      elim (Option-cases (find list args.methodid)) [
        | inl absent ↦ rw (good.agrees, absent, outcome)
        | inr (m, present) ↦ rw (
          good.agrees,
          present,
          search_list,
          outcome,
          silent,
          match_found,
          good.overrides m present,
        )
      ]
  search_list-find list inheritance false e r covered good =
      elim (Option-cases (find list args.methodid)) [
        | inl absent ↦ rw (good.agrees, absent, outcome)
        | inr (m, present) ↦ rw (
          good.agrees,
          present,
          search_list,
          outcome,
          silent,
          match_found,
          good.overrides m present,
        )
      ]

  -- All lists are searched.
  search_all :
      (n i : ℕ) (rover : List Methodlist) (inheritance : ℕ) (p : Bool) (e : Error) (r : Option Hit)
      (covered : List Method)
      → has_bit inheritance dont_inherit_class ≡ false
      → AllSearchable args.methodid rover
      → search_lists args cls c n rover i none inheritance (default_state p e r covered)
        ≡ some (
            as_step inheritance
              (outcome args.methodid (places cls rover) (default_state p e r covered)))
  unfolding search_lists outcome
  search_all n i [] inheritance p e r covered bit good = refl
  search_all n i (list ∷ rover) inheritance p e r covered bit good =
      let one = search_list-find list inheritance p e r covered good.0 in
      elim (Option-cases (find list args.methodid)) [
        | inl absent ↦
            rw (bit, one, absent, search_lists, bit, outcome)
              (search_all n i rover inheritance p e r covered bit good.1)
        | inr (m, present) ↦ rw (bit, one, present, search_lists, outcome)
      ]

  outcome-absent :
      (list : Methodlist) (l : List Place) (s : State)
      → find list args.methodid ≡ none
      → outcome args.methodid ((cls, list) ∷ l) s ≡ outcome args.methodid l s
  unfolding outcome
  outcome-absent list l s absent = rw (outcome, absent, outcome)

  hit_state : Methodlist → Method → State → State
  hit_state list m s = record s {
    result = some (record { cls = cls; list = list; method = m });
    covered = m ∷ s.covered;
  }

  outcome-present :
      (list : Methodlist) (l : List Place) (s : State) (m : Method)
      → find list args.methodid ≡ some m
      → outcome args.methodid ((cls, list) ∷ l) s ≡ (found m, hit_state list m s)
  unfolding outcome hit_state
  outcome-present list l s m present = rw (outcome, present, outcome)

  module _ (n i : ℕ) (list : Methodlist) (rover : List Methodlist) (inheritance : ℕ) (p : Bool)
      (e : Error) (r : Option Hit) (covered : List Method)
      (bit : has_bit inheritance dont_inherit_class ≡ true) (good : IsSearchable args.methodid list)
      (more : i + 1 ≢ n) where
    one_more :
        find list args.methodid ≡ none
        → search_lists args cls c n (list ∷ rover) i none inheritance (default_state p e r covered)
          ≡ search_lists args cls c n rover (i + 1) none inheritance (default_state p e r covered)
    unfolding search_lists outcome
    one_more absent = rw (
      search_lists,
      bit,
      ne→==-false (i + 1) n more,
      search_list-find list inheritance p e r covered good,
      outcome-absent list [] (default_state p e r covered) absent,
      search_lists,
      bit,
    )

    hit_here :
        (m : Method)
        → find list args.methodid ≡ some m
        → search_lists args cls c n (list ∷ rover) i none inheritance (default_state p e r covered)
          ≡ some (returns (found m) (hit_state list m (default_state p e r covered)))
    unfolding search_lists outcome hit_state
    hit_here m present = rw (
      search_lists,
      bit,
      ne→==-false (i + 1) n more,
      search_list-find list inheritance p e r covered good,
      outcome-present list [] (default_state p e r covered) m present,
      search_lists,
    )

  ends :
      (n i inheritance : ℕ) (s : State)
      → search_lists args cls c n [] i none inheritance s
        ≡ some (as_step inheritance (outcome args.methodid [] s))
  unfolding search_lists outcome
  ends n i inheritance s = refl

  ends_early :
      (n i : ℕ) (list : Methodlist) (inheritance : ℕ) (s : State)
      → has_bit inheritance dont_inherit_class ≡ true
      → i + 1 ≡ n
      → search_lists args cls c n (list ∷ []) i none inheritance s
        ≡ some (as_step inheritance (outcome args.methodid [] s))
  unfolding search_lists outcome
  ends_early n i list inheritance s bit last = rw (bit, eq→== (i + 1) n last)

  -- The last list is left out.
  search_all_but_last :
      (n i : ℕ) (rover : List Methodlist) (inheritance : ℕ) (p : Bool) (e : Error) (r : Option Hit)
      (covered : List Method)
      → has_bit inheritance dont_inherit_class ≡ true
      → AllSearchable args.methodid rover
      → i + length rover ≡ n
      → search_lists args cls c n rover i none inheritance (default_state p e r covered)
        ≡ some (
            as_step inheritance (
              outcome args.methodid
                (places cls (all_but_last rover))
                (default_state p e r covered)))
  search_all_but_last n i [] inheritance p e r covered bit good count =
      ends n i inheritance (default_state p e r covered)
  search_all_but_last n i (list ∷ []) inheritance p e r covered bit good count =
      ends_early n i list inheritance (default_state p e r covered) bit (omega arith)
  search_all_but_last n i (list ∷ next ∷ rover) inheritance p e r covered bit good count =
      elim (Option-cases (find list args.methodid)) [
        | inl absent ↦
            one_more n i list (next ∷ rover) inheritance p e r covered bit good.0 (omega arith)
              absent
            ∙ search_all_but_last n (i + 1) (next ∷ rover) inheritance p e r covered bit good.1
                (omega arith)
            ∙ ap (λ t. some (as_step inheritance t))
                (sym (outcome-absent list (places cls (all_but_last (next ∷ rover))) _ absent))
        | inr (m, present) ↦
            hit_here n i list (next ∷ rover) inheritance p e r covered bit good.0 (omega arith) m
              present
            ∙ ap (λ t. some (as_step inheritance t))
                (sym (outcome-present list (places cls (all_but_last (next ∷ rover))) _ m present))
      ]

  pub search_lists-outcome :
      (rover : List Methodlist) (inheritance : ℕ) (p : Bool) (e : Error) (r : Option Hit)
      (covered : List Method)
      → AllSearchable args.methodid rover
      → search_lists args cls c
          (length rover)
          rover
          0
          none
          inheritance
          (default_state p e r covered)
        ≡ some (
            as_step inheritance (
              outcome args.methodid
                (places cls (kept inheritance rover))
                (default_state p e r covered)))
  search_lists-outcome rover inheritance p e r covered good =
      elim (Bool-cases (has_bit inheritance dont_inherit_class)) [
        | inl bit ↦ rw bit (
            search_all_but_last (length rover) 0 rover inheritance p e r covered bit good
              (omega arith))
        | inr bit ↦ rw bit (search_all (length rover) 0 rover inheritance p e r covered bit good)
      ]
