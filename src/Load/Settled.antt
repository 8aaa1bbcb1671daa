-- ===== src/Load/Settled.antt =====
-- Loading a class or a category leaves the wait queues in order.
use mulle_objc_runtime.Prelude.{
  ℕ, zero, suc, ◌≡◌, ◌≢◌, ◌∙◌, ◌⊎◌, inl, inr, refl, sym, Bool, true, false, not, ◌&&◌, Option, none,
  some, List, arith, if◌then◌else◌,
}
use mulle_objc_runtime.Uniqueid.{is_sane}
use mulle_objc_runtime.Load.{
  Infraclass, Loadclass, Loadcategory, Universe, Outcome, loaded, failed, Fulfilled, ready, fails,
  missing, waitqueue_hash, contains_id, has_category, loadclass_fulfill_dependencies,
  loadcategory_fulfill_dependencies,
}
use mulle_objc_runtime.Load.Enqueue.{
  lookup_list, remove_list, map_list, map_categories, map_classes, loadclass_delayedadd,
  loadcategory_delayedadd, register_class, unless_present, new_classpair, with_class, add_category,
  with_categoryid, with_category, retrigger, class_by, category_by, loadclass_enqueue_nofail,
  loadcategory_enqueue_nofail,
}
use mulle_objc_runtime.Load.Missing.{Extends}
use mulle_objc_runtime.Load.Waiting.{
  AllOf-append, AllOf-weaken, AllOf-remove_list, Holds, and_then-Holds, map_list-Holds, Waits,
  Changed, change,
}

more_categories :
    (i : Infraclass) (c x : ℕ)
    → has_category i x ≡ true
    → has_category (with_categoryid c i) x ≡ true
unfolding has_category contains_id
more_categories i c x h = ground arith

pub with_categoryid-Extends :
    (j i : Infraclass) (c : ℕ) → some j ≡ some i → Extends j (with_categoryid c i)
with_categoryid-Extends j i c e =
    let q : i ≡ j = cc in
    rw q (record {
      same_classid = refl;
      name_kept = refl;
      ivarhash_kept = refl;
      categories_kept = more_categories j c;
    })

module _ (ignore : Bool) where
  pub register_class-Changed :
      (Open : ℕ → Type 0) (c : ℕ) (name : List ℕ) (ivarhash : ℕ) (has_load : Bool) (u : Universe)
      → Waits ignore Open u
      → Holds (Changed ignore (waitqueue_hash c) Open) (register_class c name ivarhash has_load u)
  unfolding register_class unless_present with_class
  register_class-Changed Open c name ivarhash has_load u w = absent (u.classes c) refl
    where
      none-some : (j : Infraclass) → none ≢ some j
      none-some j e = cc

      absent :
          (o : Option Infraclass)
          → u.classes c ≡ o
          → Holds
              (Changed ignore (waitqueue_hash c) Open)
              (unless_present o (with_class c name ivarhash has_load u))
      absent none e =
          change ignore Open u c (new_classpair c name ivarhash)
            (with_class c name ivarhash has_load u) w refl (λ j q. absurd (none-some j (sym e ∙ q)))
            refl refl refl
      absent (some i) e = tt

  pub add_category-Changed :
      (Open : ℕ → Type 0) (info : Loadcategory) (u : Universe)
      → Waits ignore Open u
      → Holds
          (Changed ignore (waitqueue_hash info.classid) Open)
          (add_category info (u.classes info.classid) u)
  unfolding add_category with_category
  add_category-Changed Open info u w = present (u.classes info.classid) refl
    where
      taken :
          (b : Bool) (v : Universe)
          → Changed ignore (waitqueue_hash info.classid) Open v
          → Holds
              (Changed ignore (waitqueue_hash info.classid) Open)
              (if b then loaded v else failed)
      taken true v c = c
      taken false v c = tt

      present :
          (o : Option Infraclass)
          → u.classes info.classid ≡ o
          → Holds (Changed ignore (waitqueue_hash info.classid) Open) (add_category info o u)
      present none e = tt
      present (some i) e = taken _ _ (
          change ignore Open u info.classid (with_categoryid info.categoryid i)
            (with_category info i u) w (w.keyed info.classid i e)
            (λ j q. with_categoryid-Extends j i info.categoryid (sym q ∙ e)) refl refl refl)

  -- Trying again what waits for the class puts the queues in order.
  pub retrigger-Waits :
      (categories : Loadcategory → Universe → Outcome) (classes : Loadclass → Universe → Outcome)
      (Open : ℕ → Type 0) (c : ℕ) (u : Universe)
      → ((D : ℕ → Type 0) (x : Loadcategory) (v : Universe)
          → Waits ignore D v
          → Holds (Waits ignore D) (categories x v))
      → ((D : ℕ → Type 0) (x : Loadclass) (v : Universe)
          → Waits ignore D v
          → Holds (Waits ignore D) (classes x v))
      → Changed ignore (waitqueue_hash c) Open u
      → Holds (Waits ignore Open) (retrigger categories classes c u)
  unfolding retrigger map_categories map_classes
  retrigger-Waits categories classes Open c u k l w =
      let h = waitqueue_hash c in
      let D = λ (k : ℕ). (k ≡ h) ⊎ Open k in
      let left = record u { categoriestoload = remove_list h u.categoriestoload } in
      and_then-Holds (Waits ignore D) (Waits ignore Open)
        (map_list categories (lookup_list h u.categoriestoload) left) (map_classes classes c)
        (map_list-Holds (Waits ignore D) categories (lookup_list h u.categoriestoload) left (k D)
          (record {
            keyed = w.keyed;
            categories =
                AllOf-remove_list _ _ h u.categoriestoload
                  (λ k x ne m. elim m [ inl q ↦ absurd (ne q) | inr r ↦ r ]) w.categories;
            loadclasses =
                AllOf-weaken _ _ u.classestoload
                  (λ e m. elim m [
                    | inl q ↦ inl (inl q)
                    | inr r ↦ elim r [ inl o ↦ inl (inr o) | inr m' ↦ inr m' ]
                  ])
                  w.loadclasses;
          }))
        (λ v w'.
          map_list-Holds (Waits ignore Open) classes (lookup_list h v.classestoload)
            (record v { classestoload = remove_list h v.classestoload }) (l Open)
            (record {
              keyed = w'.keyed;
              categories = w'.categories;
              loadclasses =
                  AllOf-remove_list _ _ h v.classestoload
                    (λ k x ne m. elim m [
                      | inl o ↦ elim o [ inl q ↦ absurd (ne q) | inr o' ↦ inl o' ]
                      | inr r ↦ inr r
                    ])
                    w'.loadclasses;
            }))

  class_by-Waits :
      (Open : ℕ → Type 0) (info : Loadclass) (next : Universe → Outcome) (u : Universe)
      (f : Fulfilled)
      → loadclass_fulfill_dependencies ignore u.classes info ≡ f
      → Waits ignore Open u
      → ((v : Universe)
          → Changed ignore (waitqueue_hash info.classid) Open v
          → Holds (Waits ignore Open) (next v))
      → Holds (Waits ignore Open) (class_by f info next u)
  unfolding class_by loadclass_delayedadd
  class_by-Waits Open info next u fails e w k = tt
  class_by-Waits Open info next u (missing id) e w k = record {
    keyed = w.keyed;
    categories = w.categories;
    loadclasses =
        AllOf-append _ u.classestoload (waitqueue_hash id, info) w.loadclasses (inr (id, e, refl));
  }
  class_by-Waits Open info next u ready e w k =
      and_then-Holds (Changed ignore (waitqueue_hash info.classid) Open) (Waits ignore Open) _ next
        (register_class-Changed Open info.classid info.classname info.classivarhash info.has_load u
          w)
        k

  category_by-Waits :
      (Open : ℕ → Type 0) (info : Loadcategory) (next : Universe → Outcome) (u : Universe)
      (f : Fulfilled)
      → loadcategory_fulfill_dependencies u.classes info ≡ f
      → Waits ignore Open u
      → ((v : Universe)
          → Changed ignore (waitqueue_hash info.classid) Open v
          → Holds (Waits ignore Open) (next v))
      → Holds (Waits ignore Open) (category_by f info next u)
  unfolding category_by loadcategory_delayedadd
  category_by-Waits Open info next u fails e w k = tt
  category_by-Waits Open info next u (missing id) e w k = record {
    keyed = w.keyed;
    categories =
        AllOf-append _ u.categoriestoload (waitqueue_hash id, info) w.categories (id, e, refl);
    loadclasses = w.loadclasses;
  }
  category_by-Waits Open info next u ready e w k =
      and_then-Holds (Changed ignore (waitqueue_hash info.classid) Open) (Waits ignore Open) _ next
        (add_category-Changed Open info u w) k

  pub guard-Holds :
      (b : Bool) (P : Universe → Type 0) (o : Outcome)
      → Holds P o
      → Holds P (elim b [ false ↦ failed | true ↦ o ])
  guard-Holds true P o h = h
  guard-Holds false P o h = tt

  mutual
    unfolding loadclass_enqueue_nofail loadcategory_enqueue_nofail

    pub loadclass_enqueue_nofail-Waits :
        (f : ℕ) (Open : ℕ → Type 0) (info : Loadclass) (u : Universe)
        → Waits ignore Open u
        → Holds (Waits ignore Open) (loadclass_enqueue_nofail ignore f info u)
    loadclass_enqueue_nofail-Waits zero Open info u w = tt
    loadclass_enqueue_nofail-Waits (suc f) Open info u w =
        guard-Holds (is_sane info.classid && not info.has_owner) (Waits ignore Open) _ (
          class_by-Waits Open info _ u _ refl w (λ v c.
            retrigger-Waits _ _ Open info.classid v
              (λ D x v. loadcategory_enqueue_nofail-Waits f D x v)
              (λ D x v. loadclass_enqueue_nofail-Waits f D x v) c))

    pub loadcategory_enqueue_nofail-Waits :
        (f : ℕ) (Open : ℕ → Type 0) (info : Loadcategory) (u : Universe)
        → Waits ignore Open u
        → Holds (Waits ignore Open) (loadcategory_enqueue_nofail ignore f info u)
    loadcategory_enqueue_nofail-Waits zero Open info u w = tt
    loadcategory_enqueue_nofail-Waits (suc f) Open info u w =
        guard-Holds (is_sane info.classid && is_sane info.categoryid) (Waits ignore Open) _ (
          category_by-Waits Open info _ u _ refl w (λ v c.
            retrigger-Waits _ _ Open info.classid v
              (λ D x v. loadcategory_enqueue_nofail-Waits f D x v)
              (λ D x v. loadclass_enqueue_nofail-Waits f D x v) c))
