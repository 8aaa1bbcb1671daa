-- ===== src/Classsearch/Default.antt =====
-- The default search as a whole.
use mathlib.Core.List.{reverse_aux, append-nil, append_assoc}
use mathlib.Core.Option.{some-injective}
use mulle_objc_runtime.Prelude.{
  true, false, Bool, ℕ, zero, suc, ◌+◌, ◌≡◌, ◌≢◌, false, inl, inr, refl, Option, none, some, List,
  [], ◌∷◌, ◌++◌, ◌==◌, ◌<◌, ap, ◌∙◌, sym, subst, Option-cases, Bool-cases, ne→==-false,
}
use mulle_objc_runtime.Method.{Method}
use mulle_objc_runtime.Methodlist.{Methodlist, find}
use mulle_objc_runtime.Classsearch.{
  Class, Classes, Arguments, State, Error, Hit, has_bit, dont_inherit_class,
  dont_inherit_categories,
}
use mulle_objc_runtime.Classsearch.Descent.{
  has_no_start, at_start, Search, search_class, enumerated_lists, first_list,
  search_method_internal,
}
use mulle_objc_runtime.Classsearch.Linear.{
  Place, join, of_protocols, of_superclass, linear, places, kept, latest_first, only_first,
  own_lists, all_but_last, outcome, outcome-cases,
}
use mulle_objc_runtime.Classsearch.Lists.{
  IsTame, default_state, plain_mode, AllSearchable, as_step, search_lists-outcome,
}
use mulle_objc_runtime.Classsearch.Mixins.{Agrees, join-split, IsTame-append}
use mulle_objc_runtime.Classsearch.Depth.{IsHierarchy, linear-IsDefined}
use mulle_objc_runtime.Classsearch.Agreement.{next_class-outcome}

AllSearchable-reverse :
    (id : ℕ) (xs r : List Methodlist)
    → AllSearchable id xs
    → AllSearchable id r
    → AllSearchable id (reverse_aux xs r)
AllSearchable-reverse id [] r a b = b
AllSearchable-reverse id (x ∷ xs) r a b = AllSearchable-reverse id xs (x ∷ r) a.1 (a.0, b)

reverse_aux-latest_first : (xs r : List Methodlist) → reverse_aux xs r ≡ latest_first xs ++ r
reverse_aux-latest_first [] r = refl
reverse_aux-latest_first (x ∷ xs) r =
    reverse_aux-latest_first xs (x ∷ r) ∙ sym (append_assoc (latest_first xs) (x ∷ []) r)

enumerated_lists-own_lists :
    (c : Class) (inheritance : ℕ) → enumerated_lists c inheritance ≡ own_lists c inheritance
unfolding enumerated_lists
enumerated_lists-own_lists c inheritance =
    elim (Bool-cases (has_bit inheritance dont_inherit_categories)) [
      | inl bit ↦ rw bit (same c.methodlists)
      | inr bit ↦ rw bit (reverse_aux-latest_first c.methodlists [] ∙ append-nil _)
    ]
  where
    same : (l : List Methodlist) → first_list l ≡ only_first l
    same [] = refl
    same (x ∷ l) = refl

AllSearchable-enumerated :
    (id : ℕ) (c : Class) (inheritance : ℕ)
    → AllSearchable id c.methodlists
    → AllSearchable id (enumerated_lists c inheritance)
unfolding enumerated_lists
AllSearchable-enumerated id c inheritance a =
    elim (Bool-cases (has_bit inheritance dont_inherit_categories)) [
      | inl bit ↦ rw bit (only_first c.methodlists a)
      | inr bit ↦ rw bit (AllSearchable-reverse id c.methodlists [] a _)
    ]
  where
    only_first : (l : List Methodlist) → AllSearchable id l → AllSearchable id (first_list l)
    only_first [] a = _
    only_first (x ∷ l) a = (a.0, _)

AllSearchable-kept :
    (id inheritance : ℕ) (l : List Methodlist)
    → AllSearchable id l
    → AllSearchable id (kept inheritance l)
AllSearchable-kept id inheritance l a = elim (Bool-cases (has_bit inheritance dont_inherit_class)) [
  | inl bit ↦ rw bit (without_last l a)
  | inr bit ↦ rw bit a
]
  where
    without_last : (l : List Methodlist) → AllSearchable id l → AllSearchable id (all_but_last l)
    without_last [] a = _
    without_last (x ∷ []) a = _
    without_last (x ∷ y ∷ l) a = (a.0, without_last (y ∷ l) a.1)

plain_start : (p : Bool) → has_no_start (plain_mode p) ≡ false
plain_start true = refl
plain_start false = refl

plain_at_start : (p same : Bool) → at_start same (plain_mode p) ≡ (false, plain_mode p)
plain_at_start true true = refl
plain_at_start true false = refl
plain_at_start false true = refl
plain_at_start false false = refl

places-IsTame :
    (id cls : ℕ) (l : List Methodlist) (s : State)
    → AllSearchable id l
    → IsTame (outcome id (places cls l) s).0
unfolding outcome
places-IsTame id cls [] s a = _
places-IsTame id cls (list ∷ l) s a = elim (Option-cases (find list id)) [
  | inl e ↦ rw (outcome, e, outcome) (places-IsTame id cls l s a.1)
  | inr (m, e) ↦ rw (outcome, e, outcome) (a.0.overrides m e)
]

module _ (args : Arguments) (silent : args.callback ≡ none) (classes : Classes)
    (searchable : (a : ℕ) (c : Class)
      → classes a ≡ some c
      → AllSearchable args.methodid c.methodlists)
    (goes : (a : ℕ) (c : Class) → classes a ≡ some c → c.classid ≢ args.stop_classid) where
  own : ℕ → Class → ℕ → List Place
  own cls c inheritance = places cls (kept inheritance (own_lists c inheritance))

  search_class-outcome :
      (descend : Search) (lin : ℕ → ℕ → Option (List Place)) (cls : ℕ) (c : Class) (inheritance : ℕ)
      (p : Bool) (e : Error) (r : Option Hit) (covered : List Method) (k : List Place)
      → Agrees args.methodid descend lin
      → classes cls ≡ some c
      → join (of_protocols lin classes c inheritance) (of_superclass lin classes c inheritance)
        ≡ some k
      → (search_class descend classes args cls c inheritance (default_state p e r covered)
          ≡ some (outcome args.methodid (own cls c inheritance ++ k) (default_state p e r covered)))
        × IsTame
            (outcome args.methodid (own cls c inheritance ++ k) (default_state p e r covered)).0
  unfolding search_class own
  search_class-outcome descend lin cls c inheritance p e r covered k agrees here h =
      let s = default_state p e r covered in
      let lists = enumerated_lists c inheritance in
      let good = AllSearchable-enumerated args.methodid c inheritance (searchable cls c here) in
      let run = search_lists-outcome args silent cls c lists inheritance p e r covered good in
      let (run', tame') =
        next_class-outcome args silent classes descend lin agrees cls c inheritance p e r covered k
          h in
      let same_lists = enumerated_lists-own_lists c inheritance in
      let good' : AllSearchable args.methodid (own_lists c inheritance) = rw same_lists at good in
      let tame =
        places-IsTame args.methodid cls (kept inheritance (own_lists c inheritance)) s
          (AllSearchable-kept args.methodid inheritance (own_lists c inheritance) good') in
      let on : (c.classid == args.stop_classid) ≡ false = ne→==-false _ _ (goes cls c here) in
      (
        elim (outcome-cases args.methodid (own cls c inheritance) s) [
          | inl (miss, rest) ↦
              rw (search_class, on, run, same_lists, miss, as_step, search_class, plain_start p)
                (run' ∙ ap some (sym (rest k)))
          | inr (m, s', hit, rest) ↦
              rw (search_class, on, run, same_lists, hit, as_step, search_class)
                (ap some (sym (rest k)))
        ],
        IsTame-append args.methodid (own cls c inheritance) k s tame tame',
      )

  enter_class :
      (fuel cls : ℕ) (c : Class) (inheritance : ℕ) (p : Bool) (e : Error) (r : Option Hit)
      (covered : List Method)
      → classes cls ≡ some c
      → search_method_internal (suc fuel) classes args cls inheritance (default_state p e r covered)
        ≡ search_class
            (search_method_internal fuel classes args)
            classes
            args
            cls
            c
            inheritance
            (default_state p e r covered)
  unfolding search_method_internal
  enter_class fuel cls c inheritance p e r covered here = rw (
    search_method_internal,
    here,
    search_method_internal,
    plain_at_start p (args.classid == c.classid),
  )

  pub agreement :
      (fuel : ℕ)
      → Agrees args.methodid (search_method_internal fuel classes args) (linear fuel classes)
  unfolding linear own
  agreement zero cls inheritance p e r covered l h = absurd (let q : none ≡ some l = h in cc)
  agreement (suc fuel) cls inheritance p e r covered l h = elim (Option-cases (classes cls)) [
    | inl none_here ↦ absurd (let q : none ≡ some l = rw (linear, none_here) at h in cc)
    | inr (c, here) ↦
        let (k0, k, h0, hk, e') = join-split _ _ l (rw (linear, here) at h) in
        let start = own cls c inheritance in
        let (run, tame) =
          search_class-outcome _ (linear fuel classes) cls c inheritance p e r covered k
            (agreement fuel) here hk in
        let whole : start ++ k ≡ l = ap (λ t. t ++ k) (some-injective _ _ h0) ∙ e' in
        subst
          (λ t.
            (search_method_internal (suc fuel) classes args cls inheritance
                (default_state p e r covered)
              ≡ some (outcome args.methodid t (default_state p e r covered)))
            × IsTame (outcome args.methodid t (default_state p e r covered)).0)
          whole (enter_class fuel cls c inheritance p e r covered here ∙ run, tame)
  ]

  -- The default search without a callback, and also one for a super method that has met its anchor,
  -- ends, with fuel for the superclasses and two more, and returns the method of the first list
  -- that has it, in the order: the lists of the class, the latest category first; those of its
  -- mixins, the latest first; those of the superclasses, each with its mixins; all as far as the
  -- inheritance bits allow. It reports the class and the list, and sets the coverage bit of that
  -- method only. It is asked that no pointer dangles and the superclasses end, that the lists are
  -- sorted, that no class has the stop id, and that no method with the id forbids to be an
  -- override.
  pub search_method_internal-outcome :
      (height : ℕ → ℕ) (fuel cls : ℕ) (c : Class) (inheritance : ℕ) (p : Bool) (e : Error)
      (r : Option Hit) (covered : List Method)
      → IsHierarchy classes height
      → classes cls ≡ some c
      → height cls + 1 < fuel
      → (l : List Place) × (linear fuel classes cls inheritance ≡ some l)
        × (search_method_internal fuel classes args cls inheritance (default_state p e r covered)
            ≡ some (outcome args.methodid l (default_state p e r covered)))
  search_method_internal-outcome height fuel cls c inheritance p e r covered hierarchy here enough =
      let (l, order) =
        linear-IsDefined classes height hierarchy fuel cls c inheritance here enough in
      (l, order, (agreement fuel cls inheritance p e r covered l order).0)
