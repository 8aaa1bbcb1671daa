-- ===== src/Load/Enough.antt =====
-- Loading ends: each class or category is installed once, and until then it waits.
use mulle_objc_runtime.Prelude.{
  ℕ, zero, suc, ◌+◌, ◌≤◌, ◌<◌, ◌≡◌, inl, inr, refl, Bool, true, false, not, ◌&&◌, Option, none,
  some, List, [], ◌∷◌, arith, length, length-append, if◌then◌else◌, ◌==◌, Bool-cases,
}
use mulle_objc_runtime.Uniqueid.{is_sane}
use mulle_objc_runtime.Load.{
  Infraclass, Loadclass, Loadcategory, Universe, Outcome, loaded, failed, out_of_fuel, Fulfilled,
  ready, fails, missing, waitqueue_hash,
}
use mulle_objc_runtime.Load.Enqueue.{
  lookup_list, remove_list, and_then, map_list, map_categories, map_classes, loadclass_delayedadd,
  loadcategory_delayedadd, register_class, unless_present, with_class, add_category, with_category,
  retrigger, class_by, category_by, loadclass_enqueue_nofail, loadcategory_enqueue_nofail,
}

-- The entries of the wait queues.
unfoldable pub waiting : Universe → ℕ
waiting u = length u.classestoload + length u.categoriestoload

-- The loading has ended, and at most `n` entries wait.
abbrev pub Ends : ℕ → Outcome → Type 0
Ends n (loaded u) = waiting u ≤ n
Ends n failed = Unit
Ends n out_of_fuel = ⊥

pub and_then-Ends :
    (m n : ℕ) (o : Outcome) (next : Universe → Outcome)
    → Ends m o
    → ((u : Universe) → waiting u ≤ m → Ends n (next u))
    → Ends n (and_then o next)
unfolding and_then
and_then-Ends m n (loaded u) next h k = k u h
and_then-Ends m n failed next h k = tt
and_then-Ends m n out_of_fuel next h k = absurd h

pub Ends-weaken : (m n : ℕ) (o : Outcome) → m ≤ n → Ends m o → Ends n o
Ends-weaken m n (loaded u) l h = omega arith
Ends-weaken m n failed l h = tt
Ends-weaken m n out_of_fuel l h = absurd h

-- Each of the calls finds room for one more entry, which is the one that it is for.
pub map_list-Ends {ℓ} :
    {A : Type ℓ} (n : ℕ) (f : A → Universe → Outcome) (xs : List A) (u : Universe)
    → ((x : A) (u : Universe) → waiting u < n → Ends (waiting u + 1) (f x u))
    → waiting u + length xs ≤ n
    → Ends n (map_list f xs u)
unfolding map_list
map_list-Ends n f [] u k h = omega arith
map_list-Ends n f (x ∷ xs) u k h =
    and_then-Ends (waiting u + 1) n (f x u) (map_list f xs) (k x u (omega arith))
      (λ v q. map_list-Ends n f xs v k (omega arith))

length-lookup_list {ℓ} :
    {A : Type ℓ} (h : ℕ) (xs : List (ℕ × A))
    → length (remove_list h xs) + length (lookup_list h xs) ≡ length xs
unfolding lookup_list remove_list
length-lookup_list h [] = refl
length-lookup_list h ((k, x) ∷ xs) = elim (Bool-cases (k == h)) [
  | inl e ↦ rw e (omega (arith, length-lookup_list h xs))
  | inr e ↦ rw e (omega (arith, length-lookup_list h xs))
]

pub retrigger-Ends :
    (n : ℕ) (categories : Loadcategory → Universe → Outcome)
    (classes : Loadclass → Universe → Outcome) (c : ℕ) (u : Universe)
    → ((x : Loadcategory) (v : Universe) → waiting v < n → Ends (waiting v + 1) (categories x v))
    → ((x : Loadclass) (v : Universe) → waiting v < n → Ends (waiting v + 1) (classes x v))
    → waiting u ≤ n
    → Ends (waiting u) (retrigger categories classes c u)
unfolding retrigger map_categories map_classes waiting
retrigger-Ends n categories classes c u k l h =
    let hash = waitqueue_hash c in
    let m = length-lookup_list hash u.categoriestoload in
    and_then-Ends (waiting u) (waiting u) (map_categories categories c u) (map_classes classes c)
      (map_list-Ends (waiting u) categories _ _ (λ x v q. k x v (omega arith)) (omega arith))
      (λ v q.
        let m' = length-lookup_list hash v.classestoload in
        map_list-Ends (waiting u) classes _ _ (λ x v q. l x v (omega arith)) (omega arith))

pub guard-Ends :
    (b : Bool) (n : ℕ) (o : Outcome) → Ends n o → Ends n (elim b [ false ↦ failed | true ↦ o ])
guard-Ends true n o h = h
guard-Ends false n o h = tt

pub register_class-Ends :
    (c : ℕ) (name : List ℕ) (ivarhash : ℕ) (has_load : Bool) (u : Universe)
    → Ends (waiting u) (register_class c name ivarhash has_load u)
unfolding register_class with_class waiting
register_class-Ends c name ivarhash has_load u = present (u.classes c)
  where
    present :
        (o : Option Infraclass)
        → Ends (waiting u) (unless_present o (with_class c name ivarhash has_load u))
    present none = omega arith
    present (some i) = tt

add_category-Ends :
    (info : Loadcategory) (o : Option Infraclass) (u : Universe)
    → Ends (waiting u) (add_category info o u)
unfolding add_category with_category waiting
add_category-Ends info none u = tt
add_category-Ends info (some i) u = taken _ _ (omega arith)
  where
    taken :
        (b : Bool) (v : Universe)
        → waiting v ≤ waiting u
        → Ends (waiting u) (if b then loaded v else failed)
    taken true v h = h
    taken false v h = tt

class_by-Ends :
    (f : Fulfilled) (info : Loadclass) (next : Universe → Outcome) (u : Universe)
    → ((v : Universe) → waiting v ≤ waiting u → Ends (waiting v) (next v))
    → Ends (waiting u + 1) (class_by f info next u)
unfolding class_by loadclass_delayedadd waiting
class_by-Ends fails info next u k = tt
class_by-Ends (missing id) info next u k =
    omega (arith, length-append u.classestoload ((waitqueue_hash id, info) ∷ []))
class_by-Ends ready info next u k =
    and_then-Ends (waiting u) (waiting u + 1) _ next
      (register_class-Ends info.classid info.classname info.classivarhash info.has_load u)
      (λ v q. Ends-weaken (waiting v) (waiting u + 1) (next v) (omega arith) (k v q))

category_by-Ends :
    (f : Fulfilled) (info : Loadcategory) (next : Universe → Outcome) (u : Universe)
    → ((v : Universe) → waiting v ≤ waiting u → Ends (waiting v) (next v))
    → Ends (waiting u + 1) (category_by f info next u)
unfolding category_by loadcategory_delayedadd waiting
category_by-Ends fails info next u k = tt
category_by-Ends (missing id) info next u k =
    omega (arith, length-append u.categoriestoload ((waitqueue_hash id, info) ∷ []))
category_by-Ends ready info next u k =
    and_then-Ends (waiting u) (waiting u + 1) _ next
      (add_category-Ends info (u.classes info.classid) u)
      (λ v q. Ends-weaken (waiting v) (waiting u + 1) (next v) (omega arith) (k v q))

module _ (ignore : Bool) where
  mutual
    unfolding loadclass_enqueue_nofail loadcategory_enqueue_nofail

    pub loadclass_enqueue_nofail-Ends :
        (f : ℕ) (info : Loadclass) (u : Universe)
        → waiting u < f
        → Ends (waiting u + 1) (loadclass_enqueue_nofail ignore f info u)
    loadclass_enqueue_nofail-Ends zero info u h = absurd (omega arith)
    loadclass_enqueue_nofail-Ends (suc f) info u h =
        guard-Ends (is_sane info.classid && not info.has_owner) (waiting u + 1) _ (
          class_by-Ends _ info _ u (λ v q.
            retrigger-Ends f _ _ info.classid v (loadcategory_enqueue_nofail-Ends f)
              (loadclass_enqueue_nofail-Ends f) (omega arith)))

    pub loadcategory_enqueue_nofail-Ends :
        (f : ℕ) (info : Loadcategory) (u : Universe)
        → waiting u < f
        → Ends (waiting u + 1) (loadcategory_enqueue_nofail ignore f info u)
    loadcategory_enqueue_nofail-Ends zero info u h = absurd (omega arith)
    loadcategory_enqueue_nofail-Ends (suc f) info u h =
        guard-Ends (is_sane info.classid && is_sane info.categoryid) (waiting u + 1) _ (
          category_by-Ends _ info _ u (λ v q.
            retrigger-Ends f _ _ info.classid v (loadcategory_enqueue_nofail-Ends f)
              (loadclass_enqueue_nofail-Ends f) (omega arith)))
