-- ===== src/Classsearch/Super.antt =====
-- The search for a super method, from the class that sends the message.
use mulle_objc_runtime.Prelude.{ℕ, suc, ◌≡◌, ◌≢◌, false, Option, none, some, List, ◌∙◌, eq→==}
use mulle_objc_runtime.Method.{Method}
use mulle_objc_runtime.Classsearch.{
  Class, Classes, Arguments, State, Error, Hit, search_super_method,
}
use mulle_objc_runtime.Classsearch.Descent.{search_method_internal, next_class}
use mulle_objc_runtime.Classsearch.Linear.{
  Place, join, of_protocols, of_superclass, linear, outcome,
}
use mulle_objc_runtime.Classsearch.Lists.{AllSearchable, default_state}
use mulle_objc_runtime.Classsearch.Agreement.{next_class-outcome}
use mulle_objc_runtime.Classsearch.Default.{agreement}

-- A state before the anchor of a search for a super method.
abbrev pub super_state : Error → Option Hit → List Method → State
super_state e r covered = record {
  mode = search_super_method;
  error = e;
  result = r;
  covered = covered;
}

module _ (args : Arguments) (silent : args.callback ≡ none) (classes : Classes)
    (searchable : (a : ℕ) (c : Class)
      → classes a ≡ some c
      → AllSearchable args.methodid c.methodlists)
    (goes : (a : ℕ) (c : Class) → classes a ≡ some c → c.classid ≢ args.stop_classid) where
  skips_own :
      (fuel cls : ℕ) (c : Class) (inheritance : ℕ) (e : Error) (r : Option Hit)
      (covered : List Method)
      → classes cls ≡ some c
      → args.classid ≡ c.classid
      → search_method_internal (suc fuel) classes args cls inheritance (super_state e r covered)
        ≡ next_class
            (search_method_internal fuel classes args)
            classes
            args
            cls
            c
            none
            inheritance
            (default_state false e r covered)
  unfolding search_method_internal
  skips_own fuel cls c inheritance e r covered here anchor =
      rw (search_method_internal, here, search_method_internal, eq→== args.classid c.classid anchor)

  -- A search for the super method of the class that sends the message leaves out the class's own
  -- lists, categories included, and returns the first match in the rest of the order of the default
  -- search: its mixins, then its superclasses. It is asked what the default search asks, and that
  -- this order is defined.
  pub search_method_internal-super :
      (fuel cls : ℕ) (c : Class) (inheritance : ℕ) (e : Error) (r : Option Hit)
      (covered : List Method) (l : List Place)
      → classes cls ≡ some c
      → args.classid ≡ c.classid
      → join
          (of_protocols (linear fuel classes) classes c inheritance)
          (of_superclass (linear fuel classes) classes c inheritance)
        ≡ some l
      → search_method_internal (suc fuel) classes args cls inheritance (super_state e r covered)
        ≡ some (outcome args.methodid l (default_state false e r covered))
  search_method_internal-super fuel cls c inheritance e r covered l here anchor order =
      skips_own fuel cls c inheritance e r covered here anchor
      ∙ (next_class-outcome args silent classes _ (linear fuel classes)
          (agreement args silent classes searchable goes fuel) cls c inheritance false e r covered l
          order).0
