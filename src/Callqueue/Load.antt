-- ===== src/Callqueue/Load.antt =====
-- Scheduling the +load methods of the lists that are loaded, and calling them.
use Prim.Native.Nat.{bit_or}
use mathlib.Core.Option.{some-injective}
use mathlib.Core.List.{append-nil, append_assoc, foldl}
use mulle_objc_runtime.Prelude.{
  refl, ◌≡◌, ◌≢◌, ◌∙◌, ap, Option, none, some, List, [], ◌∷◌, ◌++◌, map_option, ne→==-false, sym,
}
use mulle_objc_runtime.Uniqueid.{is_sane}
use mulle_objc_runtime.Search.{Sign}
use mulle_objc_runtime.Search.Sorting.{AtMostOnce, Sorts}
use mulle_objc_runtime.Method.{Method, methodid, method_compare, method_sort}
use mulle_objc_runtime.Methodlist.{Methodlist, search_method, sort, find}
use mulle_objc_runtime.Methodlist.Laws.{search_method-sorted}
use mulle_objc_runtime.Callqueue.{
  Entry, Pointerarray, Appends, success, add, Metaclass, load_methodid, load_scheduled,
  add_load_to_callqueue, add_load_to_callqueue_nofail, nofail, walk, visit_all,
}
use mulle_objc_runtime.Callqueue.Order.{visit_all-foldl}

abbrev pub scheduled : Metaclass → Option Method → Metaclass
scheduled meta none = meta
scheduled meta (some m) = record meta { state = bit_or meta.state load_scheduled }

abbrev pub load_calls : Metaclass → Option Method → List Entry
load_calls meta none = []
load_calls meta (some m) =
    record { obj = meta.address; uniqueid = load_methodid; imp = m.implementation } ∷ []

abbrev pub HasImplementation : Option Method → Type 0
HasImplementation none = Unit {0}
HasImplementation (some m) = m.implementation ≢ 0

module _ (ops : Pointerarray) (lawful : Appends ops) where
  add_load-found :
      (list : Methodlist) (meta : Metaclass) (loads : ops.Array) (found : Option Method)
      → search_method list load_methodid ≡ some found
      → meta.address ≢ 0
      → HasImplementation found
      → (loads' : ops.Array) × (add_load_to_callqueue ops (some list) meta loads
          ≡ some (scheduled meta found, loads', success))
        × (ops.enumerated loads' ≡ ops.enumerated loads ++ load_calls meta found)
  unfolding add_load_to_callqueue add is_sane
  add_load-found list meta loads none run here imp =
      (loads, rw (run, add_load_to_callqueue), sym (append-nil _))
  add_load-found list meta loads (some m) run here imp = (
    ops.push loads
        (record { obj = meta.address; uniqueid = load_methodid; imp = m.implementation }),
    rw (
      run,
      add_load_to_callqueue,
      ne→==-false meta.address 0 here,
      ne→==-false m.implementation 0 imp,
    ),
    lawful.appends loads _,
  )

-- The class methods of a class or category, as the compiler lists them, and its metaclass.
pub record Loaded : Type 0 where
  pub classmethods : Methodlist
  pub meta : Metaclass

module _ (ops : Pointerarray) (qsort_r : (Method → Method → Sign) → List Method → List Method) where
  abbrev go_on :
      Option (Metaclass × ops.Array)
      → (ops.Array → Option (List Metaclass × ops.Array))
      → Option (List Metaclass × ops.Array)
  go_on none loop = none
  go_on (some (meta, loads)) loop =
      map_option (λ (r : List Metaclass × ops.Array). (meta ∷ r.0, r.1)) (loop loads)

  -- The lists of several classes and categories are sorted and added, one after the other.
  unfoldable pub load_all : List Loaded → ops.Array → Option (List Metaclass × ops.Array)
  load_all [] loads = some ([], loads)
  load_all (x ∷ xs) loads =
      go_on (add_load_to_callqueue_nofail ops (sort qsort_r (some x.classmethods)) x.meta loads)
        (λ loads'. load_all xs loads')

  -- What is asked of each: a metaclass, different method ids that the sort can sort, and an
  -- implementation of +load if there is one.
  pub record IsLoadable (x : Loaded) : Type 0 where
    pub here : x.meta.address ≢ 0
    pub once : AtMostOnce methodid x.classmethods.methods
    pub sorts :
        Sorts method_compare x.classmethods.methods (qsort_r method_compare x.classmethods.methods)
    pub implemented : HasImplementation (find x.classmethods load_methodid)

  abbrev pub AllLoadable : List Loaded → Type 0
  AllLoadable [] = Unit
  AllLoadable (x ∷ xs) = IsLoadable x × AllLoadable xs

-- The +load that a list has, wherever it stands in it.
abbrev pub own_load : Loaded → Option Method
own_load x = find x.classmethods load_methodid

abbrev pub all_scheduled : List Loaded → List Metaclass
all_scheduled [] = []
all_scheduled (x ∷ xs) = scheduled x.meta (own_load x) ∷ all_scheduled xs

abbrev pub all_load_calls : List Loaded → List Entry
all_load_calls [] = []
all_load_calls (x ∷ xs) = load_calls x.meta (own_load x) ++ all_load_calls xs

module _ (ops : Pointerarray) (lawful : Appends ops)
    (qsort_r : (Method → Method → Sign) → List Method → List Method) where
  sorted-search :
      (x : Loaded)
      → IsLoadable ops qsort_r x
      → search_method
          (record x.classmethods { methods = method_sort qsort_r x.classmethods.methods })
          load_methodid
        ≡ some (own_load x)
  unfolding sort
  sorted-search x h =
      some-injective _ _ (search_method-sorted qsort_r x.classmethods load_methodid h.once h.sorts)

  load-step :
      (x : Loaded) (loads : ops.Array)
      → IsLoadable ops qsort_r x
      → (loads' : ops.Array) × (add_load_to_callqueue_nofail ops
            (sort qsort_r (some x.classmethods))
            x.meta
            loads
          ≡ some (scheduled x.meta (own_load x), loads'))
        × (ops.enumerated loads' ≡ ops.enumerated loads ++ load_calls x.meta (own_load x))
  unfolding sort add_load_to_callqueue_nofail nofail
  load-step x loads h =
      let (loads', run, calls) =
        add_load-found ops lawful _ x.meta loads (own_load x) (sorted-search x h) h.here
          h.implemented in
      (loads', ap (nofail ops) run, calls)

  load_all-calls :
      (xs : List Loaded) (loads : ops.Array)
      → AllLoadable ops qsort_r xs
      → (loads' : ops.Array) × (load_all ops qsort_r xs loads ≡ some (all_scheduled xs, loads'))
        × (ops.enumerated loads' ≡ ops.enumerated loads ++ all_load_calls xs)
  unfolding load_all
  load_all-calls [] loads h = (loads, refl, sym (append-nil _))
  load_all-calls (x ∷ xs) loads h =
      let (l, step, calls) = load-step x loads h.0 in
      let (l', rest, more) = load_all-calls xs l h.1 in
      (
        l',
        ap (λ o. go_on ops qsort_r o (load_all ops qsort_r xs)) step
            ∙ ap (λ o. go_on ops qsort_r (some (scheduled x.meta (own_load x), loads)) (λ a. o))
                rest,
        more
            ∙ ap (λ t. t ++ all_load_calls xs) calls
            ∙ append_assoc (ops.enumerated loads) (load_calls x.meta (own_load x))
                (all_load_calls xs),
      )

  -- After any sequence of classes and categories was loaded with a new queue, the execution of the
  -- queue calls the +load of each that has one, with its metaclass as the object, and nothing else,
  -- in the order in which they were loaded; and exactly the metaclasses of those are marked as
  -- scheduled. A +load counts wherever it stands in the list that the compiler wrote. It is asked
  -- that the methods of a list have different ids, that the sort permutes them and leaves none before
  -- a smaller one, that no metaclass and no implementation of +load is NULL, and that the array
  -- enumerates in the order of additions.
  pub walk-load_all :
      {S : Type 0} (call : Entry → S → S) (xs : List Loaded) (s : S)
      → AllLoadable ops qsort_r xs
      → (loads : ops.Array) × (load_all ops qsort_r xs ops.empty ≡ some (all_scheduled xs, loads))
        × (walk ops call loads s ≡ foldl (λ t e. call e t) s (all_load_calls xs))
  unfolding walk
  walk-load_all call xs s h =
      let (loads, run, calls) = load_all-calls xs ops.empty h in
      (
        loads,
        run,
        ap (λ l. visit_all ops call l s) (calls ∙ ap (λ t. t ++ all_load_calls xs) lawful.starts)
            ∙ visit_all-foldl ops lawful call (all_load_calls xs) s,
      )
