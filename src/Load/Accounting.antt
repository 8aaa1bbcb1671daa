-- ===== src/Load/Accounting.antt =====
-- A fact about one class or category that each step of the loading keeps.
use mulle_objc_runtime.Prelude.{
  ℕ, zero, suc, ◌≡◌, ◌⊎◌, inl, inr, refl, Bool, true, false, not, ◌&&◌, Option, none, some, List,
  [], ◌∷◌, if◌then◌else◌,
}
use mulle_objc_runtime.Uniqueid.{is_sane}
use mulle_objc_runtime.Load.{
  Infraclass, Loadclass, Loadcategory, Loadmixin, Universe, Outcome, loaded, failed, out_of_fuel,
  Fulfilled, ready, fails, missing, waitqueue_hash,
}
use mulle_objc_runtime.Load.Enqueue.{
  Loadinfo, lookup_list, remove_list, and_then, map_list, map_categories, map_classes,
  loadclass_delayedadd, loadcategory_delayedadd, register_class, unless_present, with_class,
  add_category, with_category, retrigger, class_by, category_by, loadclass_enqueue_nofail,
  loadcategory_enqueue_nofail, loadmixin_enqueue_nofail, loadinfo_enqueue_nofail,
}
use mulle_objc_runtime.Load.Waiting.{Holds, and_then-Holds}
use mulle_objc_runtime.Load.Settled.{guard-Holds}

abbrev pub AnyOf {ℓ} : {A : Type ℓ} → (A → Type 0) → List A → Type 0
AnyOf P [] = ⊥
AnyOf P (x ∷ xs) = P x ⊎ AnyOf P xs

-- `P` is kept, and it holds after the class of `IsClass` or the category of `IsCategory` was loaded.
pub record Accounts (P : Universe → Type 0) (IsClass : Loadclass → Type 0)
    (IsCategory : Loadcategory → Type 0) : Type 0 where
  pub class_waits :
      (info : Loadclass) (id : ℕ) (u : Universe)
      → P u ⊎ IsClass info
      → P (loadclass_delayedadd info id u)
  pub category_waits :
      (info : Loadcategory) (id : ℕ) (u : Universe)
      → P u ⊎ IsCategory info
      → P (loadcategory_delayedadd info id u)
  pub registered :
      (c : ℕ) (name : List ℕ) (ivarhash : ℕ) (has_load : Bool) (u : Universe)
      → u.classes c ≡ none
      → P u
      → P (with_class c name ivarhash has_load u)
  pub class_registered :
      (info : Loadclass) (u : Universe)
      → IsClass info
      → P (with_class info.classid info.classname info.classivarhash info.has_load u)
  pub category_added :
      (info : Loadcategory) (i : Infraclass) (u : Universe)
      → u.classes info.classid ≡ some i
      → P u ⊎ IsCategory info
      → P (with_category info i u)
  pub classes_taken :
      (h : ℕ) (u : Universe)
      → P u
      → P (record u { classestoload = remove_list h u.classestoload })
        ⊎ AnyOf IsClass (lookup_list h u.classestoload)
  pub categories_taken :
      (h : ℕ) (u : Universe)
      → P u
      → P (record u { categoriestoload = remove_list h u.categoriestoload })
        ⊎ AnyOf IsCategory (lookup_list h u.categoriestoload)
  pub loads_cleared : (u : Universe) → P u → P (record u { loads = [] })

Holds-anything : (o : Outcome) → Holds (λ u. Unit) o
Holds-anything (loaded u) = tt
Holds-anything failed = tt
Holds-anything out_of_fuel = tt

-- The loop keeps the fact, or one of its calls makes it hold.
map_list-keeps {ℓ} :
    {A : Type ℓ} (P : Universe → Type 0) (Is : A → Type 0) (f : A → Universe → Outcome)
    (xs : List A) (u : Universe)
    → ((x : A) (u : Universe) → P u ⊎ Is x → Holds P (f x u))
    → P u ⊎ AnyOf Is xs
    → Holds P (map_list f xs u)
unfolding map_list
map_list-keeps P Is f [] u k (inl p) = p
map_list-keeps P Is f [] u k (inr a) = absurd a
map_list-keeps P Is f (x ∷ xs) u k (inl p) =
    and_then-Holds P P (f x u) (map_list f xs) (k x u (inl p))
      (λ v q. map_list-keeps P Is f xs v k (inl q))
map_list-keeps P Is f (x ∷ xs) u k (inr (inl a)) =
    and_then-Holds P P (f x u) (map_list f xs) (k x u (inr a))
      (λ v q. map_list-keeps P Is f xs v k (inl q))
map_list-keeps P Is f (x ∷ xs) u k (inr (inr a)) =
    and_then-Holds (λ v. Unit) P (f x u) (map_list f xs) (Holds-anything (f x u))
      (λ v q. map_list-keeps P Is f xs v k (inr a))

module _ (P : Universe → Type 0) (IsClass : Loadclass → Type 0) (IsCategory : Loadcategory → Type 0)
    (laws : Accounts P IsClass IsCategory) where
  retrigger-keeps :
      (categories : Loadcategory → Universe → Outcome) (classes : Loadclass → Universe → Outcome)
      (c : ℕ) (u : Universe)
      → ((x : Loadcategory) (v : Universe) → P v ⊎ IsCategory x → Holds P (categories x v))
      → ((x : Loadclass) (v : Universe) → P v ⊎ IsClass x → Holds P (classes x v))
      → P u
      → Holds P (retrigger categories classes c u)
  unfolding retrigger map_categories map_classes
  retrigger-keeps categories classes c u k l p =
      let h = waitqueue_hash c in
      and_then-Holds P P (map_categories categories c u) (map_classes classes c)
        (map_list-keeps P IsCategory categories (lookup_list h u.categoriestoload) _ k
          (laws.categories_taken h u p))
        (λ v q.
          map_list-keeps P IsClass classes (lookup_list h v.classestoload) _ l
            (laws.classes_taken h v q))

  absent_keeps :
      (Q : Universe → Type 0) (o : Option Infraclass) (v : Universe)
      → (o ≡ none → Q v)
      → Holds Q (unless_present o v)
  unfolding unless_present
  absent_keeps Q none v k = k refl
  absent_keeps Q (some i) v k = tt

  class_by-keeps :
      (f : Fulfilled) (info : Loadclass) (next : Universe → Outcome) (u : Universe)
      → ((v : Universe) → P v → Holds P (next v))
      → P u ⊎ IsClass info
      → Holds P (class_by f info next u)
  unfolding class_by register_class
  class_by-keeps fails info next u k p = tt
  class_by-keeps (missing id) info next u k p = laws.class_waits info id u p
  class_by-keeps ready info next u k p =
      and_then-Holds P P _ next
        (absent_keeps P (u.classes info.classid)
          (with_class info.classid info.classname info.classivarhash info.has_load u)
          (λ e. elim p [
            | inl q ↦
                laws.registered info.classid info.classname info.classivarhash info.has_load u e q
            | inr a ↦ laws.class_registered info u a
          ]))
        k

  category_by-keeps :
      (f : Fulfilled) (info : Loadcategory) (next : Universe → Outcome) (u : Universe)
      → ((v : Universe) → P v → Holds P (next v))
      → P u ⊎ IsCategory info
      → Holds P (category_by f info next u)
  unfolding category_by add_category
  category_by-keeps fails info next u k p = tt
  category_by-keeps (missing id) info next u k p = laws.category_waits info id u p
  category_by-keeps ready info next u k p =
      and_then-Holds P P (add_category info (u.classes info.classid) u) next
        (present (u.classes info.classid) refl) k
    where
      taken : (b : Bool) (v : Universe) → P v → Holds P (if b then loaded v else failed)
      taken true v q = q
      taken false v q = tt

      present :
          (o : Option Infraclass) → u.classes info.classid ≡ o → Holds P (add_category info o u)
      present none e = tt
      present (some i) e = taken _ (with_category info i u) (laws.category_added info i u e p)

  mutual
    unfolding loadclass_enqueue_nofail loadcategory_enqueue_nofail

    loadclass_enqueue_nofail-keeps :
        (ignore : Bool) (f : ℕ) (info : Loadclass) (u : Universe)
        → P u ⊎ IsClass info
        → Holds P (loadclass_enqueue_nofail ignore f info u)
    loadclass_enqueue_nofail-keeps ignore zero info u p = tt
    loadclass_enqueue_nofail-keeps ignore (suc f) info u p =
        guard-Holds ignore (is_sane info.classid && not info.has_owner) P _ (
          class_by-keeps _ info _ u
            (λ v q.
              retrigger-keeps _ _ info.classid v
                (λ x w. loadcategory_enqueue_nofail-keeps ignore f x w)
                (λ x w. loadclass_enqueue_nofail-keeps ignore f x w) q)
            p)

    loadcategory_enqueue_nofail-keeps :
        (ignore : Bool) (f : ℕ) (info : Loadcategory) (u : Universe)
        → P u ⊎ IsCategory info
        → Holds P (loadcategory_enqueue_nofail ignore f info u)
    loadcategory_enqueue_nofail-keeps ignore zero info u p = tt
    loadcategory_enqueue_nofail-keeps ignore (suc f) info u p =
        guard-Holds ignore (is_sane info.classid && is_sane info.categoryid) P _ (
          category_by-keeps _ info _ u
            (λ v q.
              retrigger-keeps _ _ info.classid v
                (λ x w. loadcategory_enqueue_nofail-keeps ignore f x w)
                (λ x w. loadclass_enqueue_nofail-keeps ignore f x w) q)
            p)

  loadmixin_enqueue_nofail-keeps :
      (ignore : Bool) (f : ℕ) (info : Loadmixin) (u : Universe)
      → P u
      → Holds P (loadmixin_enqueue_nofail ignore f info u)
  unfolding loadmixin_enqueue_nofail register_class
  loadmixin_enqueue_nofail-keeps ignore f info u p =
      guard-Holds ignore (is_sane info.classid && not info.has_owner) P _ (
        and_then-Holds P P (register_class info.classid info.classname 0 info.has_load u)
          (retrigger (loadcategory_enqueue_nofail ignore f) (loadclass_enqueue_nofail ignore f)
            info.classid)
          (absent_keeps P (u.classes info.classid)
            (with_class info.classid info.classname 0 info.has_load u)
            (λ e. laws.registered info.classid info.classname 0 info.has_load u e p))
          (λ v q.
            retrigger-keeps _ _ info.classid v (loadcategory_enqueue_nofail-keeps ignore f)
              (loadclass_enqueue_nofail-keeps ignore f) q))

  pub loadinfo_enqueue_nofail-keeps :
      (ignore : Bool) (f : ℕ) (info : Loadinfo) (u : Universe)
      → P u ⊎ (AnyOf IsClass info.loadclasslist ⊎ AnyOf IsCategory info.loadcategorylist)
      → Holds P (loadinfo_enqueue_nofail ignore f info u)
  unfolding loadinfo_enqueue_nofail
  loadinfo_enqueue_nofail-keeps ignore f info u p =
      let start = record u { loads = [] } in
      let first = map_list (loadclass_enqueue_nofail ignore f) info.loadclasslist start in
      let second = map_list (loadmixin_enqueue_nofail ignore f) info.loadmixinlist in
      let third = map_list (loadcategory_enqueue_nofail ignore f) info.loadcategorylist in
      let rest = λ (v : Universe) (q : P v).
        and_then-Holds P P (second v) third
          (map_list-keeps P (λ x. ⊥) _ info.loadmixinlist v
            (λ x w e. elim e [
              | inl r ↦ loadmixin_enqueue_nofail-keeps ignore f x w r
              | inr a ↦ absurd a
            ])
            (inl q))
          (λ w r.
            map_list-keeps P IsCategory _ info.loadcategorylist w
              (loadcategory_enqueue_nofail-keeps ignore f) (inl r)) in
      let classes =
        map_list-keeps P IsClass _ info.loadclasslist start
          (loadclass_enqueue_nofail-keeps ignore f) in
      elim p [
        | inl q ↦
            and_then-Holds P P first (λ v. and_then (second v) third)
              (classes (inl (laws.loads_cleared u q))) rest
        | inr e ↦ elim e [
          | inl a ↦ and_then-Holds P P first (λ v. and_then (second v) third) (classes (inr a)) rest
          | inr a ↦
              and_then-Holds (λ v. Unit) P first (λ v. and_then (second v) third)
                (Holds-anything first)
                (λ v q.
                  and_then-Holds (λ w. Unit) P (second v) third (Holds-anything (second v))
                    (λ w r.
                      map_list-keeps P IsCategory _ info.loadcategorylist w
                        (loadcategory_enqueue_nofail-keeps ignore f) (inr a)))
        ]
      ]
