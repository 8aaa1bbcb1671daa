-- ===== src/Load/Kept.antt =====
-- No class and no category is lost while files are loaded.
use mulle_objc_runtime.Prelude.{
  ℕ, ◌≡◌, ◌∙◌, ◌⊎◌, inl, inr, sym, ap, subst, Bool, true, Option, none, some, List, [], ◌∷◌, ◌++◌,
  ◌==◌, eq→==, Bool-cases, arith,
}
use mulle_objc_runtime.Load.{
  Infraclass, Loadclass, Loadcategory, Universe, Outcome, loaded, failed, out_of_fuel,
  waitqueue_hash, has_category, contains_id,
}
use mulle_objc_runtime.Load.Enqueue.{
  Loadinfo, lookup_list, remove_list, loadclass_delayedadd, loadcategory_delayedadd, put,
  with_class, new_classpair, with_category, with_categoryid, loadinfo_enqueue_nofail,
}
use mulle_objc_runtime.Load.Missing.{Grows}
use mulle_objc_runtime.Load.Waiting.{put-Grows, put-at, Holds}
use mulle_objc_runtime.Load.Settled.{with_categoryid-Extends}
use mulle_objc_runtime.Load.Loadinfo.{Completes, Holds-Completes, fuel_for, ends}
use mulle_objc_runtime.Load.Accounting.{AnyOf, Accounts, loadinfo_enqueue_nofail-keeps}

-- The class is registered, or waits.
abbrev pub IsKept : Loadclass → Universe → Type 0
IsKept x u =
    ((i : Infraclass) × (u.classes x.classid ≡ some i))
    ⊎ AnyOf (λ (e : ℕ × Loadclass). e.1 ≡ x) u.classestoload

-- The category is part of its class, or waits.
abbrev pub CategoryIsKept : Loadcategory → Universe → Type 0
CategoryIsKept x u =
    ((i : Infraclass) × (u.classes x.classid ≡ some i) × (has_category i x.categoryid ≡ true))
    ⊎ AnyOf (λ (e : ℕ × Loadcategory). e.1 ≡ x) u.categoriestoload

AnyOf-append {ℓ} :
    {A : Type ℓ} (P : A → Type 0) (xs : List A) (y : A) → AnyOf P xs ⊎ P y → AnyOf P (xs ++ y ∷ [])
AnyOf-append P [] y (inl a) = absurd a
AnyOf-append P [] y (inr p) = inl p
AnyOf-append P (x ∷ xs) y (inl (inl p)) = inl p
AnyOf-append P (x ∷ xs) y (inl (inr a)) = inr (AnyOf-append P xs y (inl a))
AnyOf-append P (x ∷ xs) y (inr p) = inr (AnyOf-append P xs y (inr p))

-- An entry stays in the queues or is in the list that is taken out.
AnyOf-remove_list {ℓ} :
    {A : Type ℓ} (P : A → Type 0) (h : ℕ) (xs : List (ℕ × A))
    → AnyOf (λ (e : ℕ × A). P e.1) xs
    → AnyOf (λ (e : ℕ × A). P e.1) (remove_list h xs) ⊎ AnyOf P (lookup_list h xs)
unfolding remove_list lookup_list
AnyOf-remove_list P h [] a = absurd a
AnyOf-remove_list P h ((k, x) ∷ xs) (inl p) = elim (Bool-cases (k == h)) [
  | inl e ↦ rw e (inr (inl p))
  | inr e ↦ rw e (inl (inl p))
]
AnyOf-remove_list P h ((k, x) ∷ xs) (inr a) = elim (Bool-cases (k == h)) [
  | inl e ↦ elim (AnyOf-remove_list P h xs a) [ inl b ↦ rw e (inl b) | inr b ↦ rw e (inr (inr b)) ]
  | inr e ↦ elim (AnyOf-remove_list P h xs a) [ inl b ↦ rw e (inl (inr b)) | inr b ↦ rw e (inr b) ]
]

none-some : (i : Infraclass) → none ≡ some i → ⊥
none-some i e = cc

registered-Grows :
    (c : ℕ) (i : Infraclass) (cs : ℕ → Option Infraclass)
    → cs c ≡ none
    → Grows (waitqueue_hash c) cs (put c i cs)
registered-Grows c i cs e = put-Grows c i cs (λ j q. absurd (none-some j (sym e ∙ q)))

added-Grows :
    (c x : ℕ) (i : Infraclass) (cs : ℕ → Option Infraclass)
    → cs c ≡ some i
    → Grows (waitqueue_hash c) cs (put c (with_categoryid x i) cs)
added-Grows c x i cs e =
    put-Grows c (with_categoryid x i) cs (λ j q. with_categoryid-Extends j i x (sym q ∙ e))

IsKept-Accounts : (x : Loadclass) → Accounts (IsKept x) (λ y. y ≡ x) (λ y. ⊥)
unfolding loadclass_delayedadd loadcategory_delayedadd with_class with_category
IsKept-Accounts x = record {
  class_waits = λ info id u p. elim p [
    | inl q ↦ elim q [
      | inl r ↦ inl r
      | inr a ↦ inr (AnyOf-append _ u.classestoload (waitqueue_hash id, info) (inl a))
    ]
    | inr e ↦ inr (AnyOf-append _ u.classestoload (waitqueue_hash id, info) (inr e))
  ];
  category_waits = λ info id u p. elim p [ inl q ↦ q | inr a ↦ absurd a ];
  registered = λ c name ivarhash has_load u e p. elim p [
    | inl (i, q) ↦
        let k =
          (registered-Grows c (new_classpair c name ivarhash) u.classes e).kept x.classid i q in
        inl (k.0, k.1)
    | inr a ↦ inr a
  ];
  class_registered = λ info u e. inl (
    new_classpair info.classid info.classname info.classivarhash,
    put-at info.classid (new_classpair info.classid info.classname info.classivarhash) u.classes
        x.classid (eq→== x.classid info.classid (sym (ap (λ (y : Loadclass). y.classid) e))),
  );
  category_added = λ info i u e p. elim p [
    | inl q ↦ elim q [
      | inl (j, r) ↦
          let k = (added-Grows info.classid info.categoryid i u.classes e).kept x.classid j r in
          inl (k.0, k.1)
      | inr a ↦ inr a
    ]
    | inr a ↦ absurd a
  ];
  classes_taken = λ h u p. elim p [
    | inl r ↦ inl (inl r)
    | inr a ↦ elim (AnyOf-remove_list (λ y. y ≡ x) h u.classestoload a) [
      | inl b ↦ inl (inr b)
      | inr b ↦ inr b
    ]
  ];
  categories_taken = λ h u p. inl p;
  loads_cleared = λ u p. p;
}

has_category-with_categoryid :
    (c : ℕ) (i : Infraclass) → has_category (with_categoryid c i) c ≡ true
unfolding has_category contains_id
has_category-with_categoryid c i = ground arith

CategoryIsKept-Accounts : (x : Loadcategory) → Accounts (CategoryIsKept x) (λ y. ⊥) (λ y. y ≡ x)
unfolding loadclass_delayedadd loadcategory_delayedadd with_class with_category
CategoryIsKept-Accounts x = record {
  class_waits = λ info id u p. elim p [ inl q ↦ q | inr a ↦ absurd a ];
  category_waits = λ info id u p. elim p [
    | inl q ↦ elim q [
      | inl r ↦ inl r
      | inr a ↦ inr (AnyOf-append _ u.categoriestoload (waitqueue_hash id, info) (inl a))
    ]
    | inr e ↦ inr (AnyOf-append _ u.categoriestoload (waitqueue_hash id, info) (inr e))
  ];
  registered = λ c name ivarhash has_load u e p. elim p [
    | inl (i, q, m) ↦
        let k =
          (registered-Grows c (new_classpair c name ivarhash) u.classes e).kept x.classid i q in
        inl (k.0, k.1, k.2.categories_kept x.categoryid m)
    | inr a ↦ inr a
  ];
  class_registered = λ info u a. absurd a;
  category_added = λ info i u e p. elim p [
    | inl q ↦ elim q [
      | inl (j, r, m) ↦
          let k = (added-Grows info.classid info.categoryid i u.classes e).kept x.classid j r in
          inl (k.0, k.1, k.2.categories_kept x.categoryid m)
      | inr a ↦ inr a
    ]
    | inr same ↦ inl (
      with_categoryid info.categoryid i,
      put-at info.classid (with_categoryid info.categoryid i) u.classes x.classid
          (eq→== x.classid info.classid (sym (ap (λ (y : Loadcategory). y.classid) same))),
      subst (λ c. has_category (with_categoryid info.categoryid i) c ≡ true)
          (ap (λ (y : Loadcategory). y.categoryid) same)
          (has_category-with_categoryid info.categoryid i),
    )
  ];
  classes_taken = λ h u p. inl p;
  categories_taken = λ h u p. elim p [
    | inl r ↦ inl (inl r)
    | inr a ↦ elim (AnyOf-remove_list (λ y. y ≡ x) h u.categoriestoload a) [
      | inl b ↦ inl (inr b)
      | inr b ↦ inr b
    ]
  ];
  loads_cleared = λ u p. p;
}

Holds-both :
    (P Q : Universe → Type 0) (o : Outcome) → Holds P o → Holds Q o → Holds (λ v. P v × Q v) o
Holds-both P Q (loaded u) h k = (h, k)
Holds-both P Q failed h k = tt
Holds-both P Q out_of_fuel h k = tt

-- Nothing is lost: after a file is loaded, each of its classes is registered or waits, each of its
-- categories is part of its class or waits, and so are the classes and categories that were
-- there before, unless the process was ended.
pub loadinfo_enqueue_nofail-IsKept :
    (ignore : Bool) (info : Loadinfo) (u : Universe) (x : Loadclass) (y : Loadcategory)
    → IsKept x u ⊎ AnyOf (λ z. z ≡ x) info.loadclasslist
    → CategoryIsKept y u ⊎ AnyOf (λ z. z ≡ y) info.loadcategorylist
    → Completes
        (λ v. IsKept x v × CategoryIsKept y v)
        (loadinfo_enqueue_nofail ignore (fuel_for info u) info u)
loadinfo_enqueue_nofail-IsKept ignore info u x y p q =
    Holds-Completes (λ v. IsKept x v × CategoryIsKept y v) (fuel_for info u) _ (ends ignore info u)
      (Holds-both (IsKept x) (CategoryIsKept y) _
        (loadinfo_enqueue_nofail-keeps (IsKept x) _ _ (IsKept-Accounts x) ignore (fuel_for info u)
          info u (elim p [ inl r ↦ inl r | inr a ↦ inr (inl a) ]))
        (loadinfo_enqueue_nofail-keeps (CategoryIsKept y) _ _ (CategoryIsKept-Accounts y) ignore
          (fuel_for info u) info u (elim q [ inl r ↦ inl r | inr a ↦ inr (inr a) ])))
