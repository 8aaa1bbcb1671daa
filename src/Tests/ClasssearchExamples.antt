-- ===== src/Tests/ClasssearchExamples.antt =====
-- Searches in two classes, of which the second inherits from the first and has a mixin.
use mulle_objc_runtime.Prelude.{
  true, ℕ, ◌<◌, ◌≡◌, ◌≢◌, false, refl, arith, none, some, List, [], ◌∷◌, ◌==◌, if◌then◌else◌, inl,
  inr, Bool-cases, sym, subst, eq→==, ne→==-false,
}
use native.Mathlib.Decide.{ℕ_discrete as dec_eq}
use mathlib.Core.Option.{some-injective}
use mulle_objc_runtime.Search as Search
use mulle_objc_runtime.Method.{Method}
use mulle_objc_runtime.Methodlist.{Methodlist, search_method, binary_search, get_count}
use mulle_objc_runtime.Methodlist as Methodlist
use mulle_objc_runtime.Classsearch.{
  Class, Classes, Arguments, State, Error, enoent, Hit, Found, fail, found, search_super_method,
  has_bit, is_hidden_override_fatal, search_default,
}
use mulle_objc_runtime.Classsearch as Classsearch
use mulle_objc_runtime.Classsearch.Descent.{search_method_internal, enumerated_lists}
use mulle_objc_runtime.Classsearch.Descent as Descent
use mulle_objc_runtime.Classsearch.Linear.{Place, linear, outcome}
use mulle_objc_runtime.Classsearch.Lists.{IsSearchable, AllSearchable, default_state}
use mulle_objc_runtime.Classsearch.Depth.{IsHierarchy, AllMixins}
use mulle_objc_runtime.Classsearch.Default.{search_method_internal-outcome}
use mulle_objc_runtime.Classsearch.Super.{super_state, search_method_internal-super}
use mulle_objc_runtime.Classsearch.Retry.{search_retry, search_retry-super, anchored}

abbrev method : ℕ → ℕ → Method
method id imp = record {
  descriptor = record { methodid = id; signature = 0x76 ∷ []; name = id ∷ []; bits = 0 };
  implementation = imp;
}

abbrev list : Method → Methodlist
list m = record { loadcategory = none; methods = m ∷ [] }

-- The infra class of a pair; `up` is the superclass.
abbrev class : (classid up self : ℕ) → List Methodlist → List ℕ → Class
class classid up self lists mixins = record {
  classid = classid;
  inheritance = 0;
  superclass = up;
  infraclass = self;
  metaclass = 0;
  is_metaclass = false;
  is_mixin = false;
  methodlists = lists;
  mixins = mixins;
}

-- At address 1 the root with method 7, at 3 a mixin with method 8, at 2 the subclass with method 9.
abbrev root : Class
root = class 100 0 1 (list (method 7 70) ∷ []) []

abbrev mixin : Class
mixin = class 300 0 3 (list (method 8 80) ∷ []) []

abbrev sub : Class
sub = class 200 1 2 (list (method 9 90) ∷ []) (3 ∷ [])

abbrev classes : Classes
classes a =
    if a == 1 then some root else if a == 2 then some sub else if a == 3 then some mixin else none

abbrev height : ℕ → ℕ
height a = if a == 2 then 1 else 0

abbrev arguments : (methodid classid : ℕ) → Arguments
arguments methodid classid = record {
  methodid = methodid;
  classid = classid;
  categoryid = 0;
  imp = 0;
  is_previous = λ m. false;
  stop_classid = 0;
  callback = none;
}

-- What holds of the three classes holds of any class that there is.
three_classes {ℓ} :
    (P : ℕ → Class → Type ℓ)
    → P 1 root
    → P 2 sub
    → P 3 mixin
    → (a : ℕ) (c : Class) → classes a ≡ some c
    → P a c
three_classes P one two three a c here = elim (dec_eq a 1) [
  | yes e1 ↦
      let q : some root ≡ some c = rw (eq→== a 1 e1) at here in
      subst (λ x. P x c) (sym e1) (subst (P 1) (some-injective _ _ q) one)
  | no n1 ↦ elim (dec_eq a 2) [
    | yes e2 ↦
        let q : some sub ≡ some c = rw (ne→==-false a 1 n1, eq→== a 2 e2) at here in
        subst (λ x. P x c) (sym e2) (subst (P 2) (some-injective _ _ q) two)
    | no n2 ↦ elim (dec_eq a 3) [
      | yes e3 ↦
          let q : some mixin ≡ some c =
            rw (ne→==-false a 1 n1, ne→==-false a 2 n2, eq→== a 3 e3) at here in
          subst (λ x. P x c) (sym e3) (subst (P 3) (some-injective _ _ q) three)
      | no n3 ↦
          let q : none ≡ some c =
            rw (ne→==-false a 1 n1, ne→==-false a 2 n2, ne→==-false a 3 n3) at here in
          cc
    ]
  ]
]

-- A list of one method is searchable.
one-IsSearchable : (sought id imp : ℕ) → IsSearchable sought (list (method id imp))
unfolding search_method get_count Methodlist.find Search.find
one-IsSearchable sought id imp = record {
  agrees = refl;
  overrides = λ m e. elim (Bool-cases (id == sought)) [
    | inl hit ↦
        let q : some (method id imp) ≡ some m = rw hit at e in rw (sym (some-injective _ _ q))
    | inr other ↦ absurd (let q : none ≡ some m = rw other at e in cc)
  ];
}

hierarchy : IsHierarchy classes height
hierarchy = record {
  superclasses =
      three_classes
        (λ a c.
          c.superclass ≢ 0
          → (c' : Class) × (classes c.superclass ≡ some c') × (height c.superclass < height a))
        (λ ne. absurd (ne refl)) (λ ne. (root, refl, omega arith)) (λ ne. absurd (ne refl));
  infraclasses =
      three_classes (λ a c. (c' : Class) × (classes c.infraclass ≡ some c')) (root, refl)
        (sub, refl) (mixin, refl);
  mixins =
      three_classes (λ a c. AllMixins classes c c.mixins) _ ((mixin, refl, (mixin, refl)), _) _;
}

-- Method 7 is searched in the subclass, and found in the root.
search_method_internal-outcome_example :
    (l : List Place) × (linear 3 classes 2 0 ≡ some l)
    × (search_method_internal 3 classes (arguments 7 0) 2 0 (default_state true enoent none [])
        ≡ some (outcome 7 l (default_state true enoent none [])))
search_method_internal-outcome_example =
    search_method_internal-outcome (arguments 7 0) refl classes
      (three_classes (λ a c. AllSearchable 7 c.methodlists) (one-IsSearchable 7 7 70, _)
        (one-IsSearchable 7 9 90, _) (one-IsSearchable 7 8 80, _))
      (three_classes (λ a c. c.classid ≢ 0) (omega arith) (omega arith) (omega arith)) height 3 2
      sub 0 true enoent none [] hierarchy refl (omega arith)

-- Method 8 is called on super in the subclass, and found in its mixin.
search_method_internal-super_example :
    search_method_internal 3 classes (arguments 8 200) 2 0 (super_state enoent none [])
    ≡ some (
        outcome 8
          ((3, list (method 8 80)) ∷ (1, list (method 7 70)) ∷ [])
          (default_state false enoent none []))
unfolding linear Descent.adjust_inheritance
search_method_internal-super_example =
    search_method_internal-super (arguments 8 200) refl classes
      (three_classes (λ a c. AllSearchable 8 c.methodlists) (one-IsSearchable 8 7 70, _)
        (one-IsSearchable 8 9 90, _) (one-IsSearchable 8 8 80, _))
      (three_classes (λ a c. c.classid ≢ 0) (omega arith) (omega arith) (omega arith)) 2 2 sub 0
      enoent none [] ((3, list (method 8 80)) ∷ (1, list (method 7 70)) ∷ []) refl refl refl

-- The subclass's method 9 is called on super, and no superclass has it.
first_try :
    search_method_internal 3 classes (arguments 9 200) 2 0 (super_state enoent none [])
    ≡ some (fail, anchored enoent none [])
unfolding search_method_internal Descent.next_class Descent.search_class Descent.search_superclass
    Descent.search_method_super Descent.protocol_search_method Descent.search_mixins Descent.combine
    Descent.adjust_inheritance enumerated_lists Classsearch.search_lists Classsearch.search_list
    Classsearch.list_search Classsearch.skips_list search_method get_count Methodlist.find
    Search.find
first_try = refl

-- A class that is of no use was loaded.
abbrev loaded : Classes
loaded a = if a == 4 then some root else classes a

lists_of_sub : enumerated_lists sub 0 ≡ list (method 9 90) ∷ []
unfolding enumerated_lists
lists_of_sub = refl

has_nine : Methodlist.find (list (method 9 90)) 9 ≡ some (method 9 90)
unfolding Methodlist.find Search.find
has_nine = refl

search_retry-super_example :
    (s' : State) × (search_retry 2 3
        (λ cs. some loaded)
        classes
        (arguments 9 200)
        2
        0
        (super_state enoent none [])
      ≡ some (some (method 9 90), s'))
    × (s'.result ≡ some (record { cls = 2; list = list (method 9 90); method = method 9 90 }))
search_retry-super_example =
    search_retry-super 0 2 (λ cs. some loaded) classes loaded (arguments 9 200) 2 0 sub
      (list (method 9 90)) [] (method 9 90) (super_state enoent none []) enoent none [] first_try
      refl refl refl refl (omega arith) lists_of_sub refl (one-IsSearchable 9 9 90) has_nine
