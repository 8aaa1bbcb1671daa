-- ===== src/Load/Enqueue.antt =====
-- mulle-objc-load.c: the wait queues and the installation of classes, categories and mixins.
use mulle_objc_runtime.Prelude.{
  ℕ, zero, suc, ◌==◌, Bool, true, false, not, ◌&&◌, ◌||◌, Option, none, some, List, [], ◌∷◌, ◌++◌,
  if◌then◌else◌,
}
use mulle_objc_runtime.Uniqueid.{is_sane}
use mulle_objc_runtime.Load.{
  Dependency, Infraclass, Loadclass, Loadcategory, Loadmixin, Universe, Outcome, loaded, failed,
  out_of_fuel, Fulfilled, ready, fails, missing, waitqueue_hash, contains_id, same_name,
  loadclass_fulfill_dependencies, loadcategory_fulfill_dependencies,
}

-- The lists of a `struct _mulle_objc_loadinfo` that wait for each other.
pub record Loadinfo : Type 0 where
  pub loadclasslist : List Loadclass
  pub loadmixinlist : List Loadmixin
  pub loadcategorylist : List Loadcategory

-- The queue for a hash, and what is left when it is taken out.
unfoldable pub lookup_list {ℓ} : {A : Type ℓ} → ℕ → List (ℕ × A) → List A
lookup_list hash [] = []
lookup_list hash ((k, x) ∷ r) = if k == hash then x ∷ lookup_list hash r else lookup_list hash r

unfoldable pub remove_list {ℓ} : {A : Type ℓ} → ℕ → List (ℕ × A) → List (ℕ × A)
remove_list hash [] = []
remove_list hash ((k, x) ∷ r) =
    if k == hash then remove_list hash r else (k, x) ∷ remove_list hash r

unfoldable pub and_then : Outcome → (Universe → Outcome) → Outcome
and_then (loaded u) next = next u
and_then failed next = failed
and_then out_of_fuel next = out_of_fuel

-- The loop of `map_f` over the list that it took out of the table.
unfoldable pub map_list {ℓ} : {A : Type ℓ} → (A → Universe → Outcome) → List A → Universe → Outcome
unfolding and_then
map_list f [] u = loaded u
map_list f (x ∷ xs) u = and_then (f x u) (map_list f xs)

unfoldable pub map_categories : (Loadcategory → Universe → Outcome) → ℕ → Universe → Outcome
unfolding map_list lookup_list remove_list
map_categories f classid u =
    let hash = waitqueue_hash classid in
    map_list f (lookup_list hash u.categoriestoload)
      (record u { categoriestoload = remove_list hash u.categoriestoload })

unfoldable pub map_classes : (Loadclass → Universe → Outcome) → ℕ → Universe → Outcome
unfolding map_list lookup_list remove_list
map_classes f classid u =
    let hash = waitqueue_hash classid in
    map_list f (lookup_list hash u.classestoload)
      (record u { classestoload = remove_list hash u.classestoload })

-- `mulle_objc_loadclass_delayedadd` and `mulle_objc_loadcategory_delayedadd`
unfoldable pub loadclass_delayedadd : Loadclass → ℕ → Universe → Universe
loadclass_delayedadd info id u = record u {
  classestoload = u.classestoload ++ (waitqueue_hash id, info) ∷ [];
}

unfoldable pub loadcategory_delayedadd : Loadcategory → ℕ → Universe → Universe
loadcategory_delayedadd info id u = record u {
  categoriestoload = u.categoriestoload ++ (waitqueue_hash id, info) ∷ [];
}

unfoldable pub put : ℕ → Infraclass → (ℕ → Option Infraclass) → ℕ → Option Infraclass
put classid infra classes id = if id == classid then some infra else classes id

abbrev pub add_load : Bool → ℕ → ℕ → List Dependency → List Dependency
add_load false classid categoryid loads = loads
add_load true classid categoryid loads =
    loads ++ (record { classid = classid; categoryid = categoryid }) ∷ []

unfoldable pub unless_present : Option Infraclass → Universe → Outcome
unless_present none u = loaded u
unless_present (some infra) u = failed

abbrev pub new_classpair : ℕ → List ℕ → ℕ → Infraclass
new_classpair classid name ivarhash = record {
  classid = classid;
  name = name;
  ivarhash = ivarhash;
  categoryids = [];
}

unfoldable pub with_class : ℕ → List ℕ → ℕ → Bool → Universe → Universe
unfolding put
with_class classid name ivarhash has_load u = record u {
  classes = put classid (new_classpair classid name ivarhash) u.classes;
  loads = add_load has_load classid 0 u.loads;
}

-- A class pair is made and registered, which fails for a duplicate.
unfoldable pub register_class : ℕ → List ℕ → ℕ → Bool → Universe → Outcome
unfolding with_class unless_present
register_class classid name ivarhash has_load u =
    unless_present (u.classes classid) (with_class classid name ivarhash has_load u)

abbrev pub add_categoryid : ℕ → List ℕ → List ℕ
add_categoryid categoryid ids = if categoryid == 0 then ids else categoryid ∷ ids

abbrev pub with_categoryid : ℕ → Infraclass → Infraclass
with_categoryid categoryid infra = record infra {
  categoryids = add_categoryid categoryid infra.categoryids;
}

unfoldable pub with_category : Loadcategory → Infraclass → Universe → Universe
unfolding put
with_category info infra u = record u {
  classes = put info.classid (with_categoryid info.categoryid infra) u.classes;
  loads = add_load info.has_load info.classid info.categoryid u.loads;
}

-- A category is added to its class, once.
unfoldable pub add_category : Loadcategory → Option Infraclass → Universe → Outcome
unfolding with_category contains_id same_name
add_category info none u = failed
add_category info (some infra) u =
    if same_name info.classname infra.name
      && (info.classivarhash == infra.ivarhash)
      && ((info.categoryid == 0) || not (contains_id info.categoryid infra.categoryids))
    then loaded (with_category info infra u)
    else failed

-- What waits for the class is tried again.
unfoldable pub retrigger :
    (Loadcategory → Universe → Outcome) → (Loadclass → Universe → Outcome) → ℕ → Universe → Outcome
unfolding map_categories map_classes and_then
retrigger categories classes classid u =
    and_then (map_categories categories classid u) (map_classes classes classid)

unfoldable pub class_by : Fulfilled → Loadclass → (Universe → Outcome) → Universe → Outcome
unfolding loadclass_delayedadd and_then register_class
class_by fails info next u = failed
class_by (missing id) info next u = loaded (loadclass_delayedadd info id u)
class_by ready info next u =
    and_then (register_class info.classid info.classname info.classivarhash info.has_load u) next

unfoldable pub category_by : Fulfilled → Loadcategory → (Universe → Outcome) → Universe → Outcome
unfolding loadcategory_delayedadd and_then add_category
category_by fails info next u = failed
category_by (missing id) info next u = loaded (loadcategory_delayedadd info id u)
category_by ready info next u = and_then (add_category info (u.classes info.classid) u) next

module _ (ignore_ivarhash_mismatch : Bool) where
  unfoldable mutual
    unfolding class_by category_by retrigger loadclass_fulfill_dependencies
        loadcategory_fulfill_dependencies

    -- `mulle_objc_loadclass_enqueue_nofail`
    pub loadclass_enqueue_nofail : ℕ → Loadclass → Universe → Outcome
    loadclass_enqueue_nofail zero info u = out_of_fuel
    loadclass_enqueue_nofail (suc f) info u = elim (is_sane info.classid && not info.has_owner) [
      | false ↦ failed
      | true ↦
          class_by (loadclass_fulfill_dependencies ignore_ivarhash_mismatch u.classes info) info
            (retrigger (loadcategory_enqueue_nofail f) (loadclass_enqueue_nofail f) info.classid) u
    ]

    -- `mulle_objc_loadcategory_enqueue_nofail`
    pub loadcategory_enqueue_nofail : ℕ → Loadcategory → Universe → Outcome
    loadcategory_enqueue_nofail zero info u = out_of_fuel
    loadcategory_enqueue_nofail (suc f) info u =
        elim (is_sane info.classid && is_sane info.categoryid) [
          | false ↦ failed
          | true ↦
              category_by (loadcategory_fulfill_dependencies u.classes info) info
                (retrigger (loadcategory_enqueue_nofail f) (loadclass_enqueue_nofail f)
                  info.classid)
                u
        ]

  -- `mulle_objc_loadmixin_enqueue_nofail`
  unfoldable pub loadmixin_enqueue_nofail : ℕ → Loadmixin → Universe → Outcome
  unfolding loadclass_enqueue_nofail loadcategory_enqueue_nofail register_class and_then retrigger
  loadmixin_enqueue_nofail f info u = elim (is_sane info.classid && not info.has_owner) [
    | false ↦ failed
    | true ↦
        and_then (register_class info.classid info.classname 0 info.has_load u)
          (retrigger (loadcategory_enqueue_nofail f) (loadclass_enqueue_nofail f) info.classid)
  ]

  -- What `_mulle_objc_loadinfo_enqueue_nofail` does with the queues locked, up to the calls of `+load`
  -- that it has collected. The fuel is for each of the entries.
  unfoldable pub loadinfo_enqueue_nofail : ℕ → Loadinfo → Universe → Outcome
  unfolding map_list and_then loadclass_enqueue_nofail loadcategory_enqueue_nofail
      loadmixin_enqueue_nofail
  loadinfo_enqueue_nofail f info u =
      and_then (map_list (loadclass_enqueue_nofail f) info.loadclasslist (record u { loads = [] }))
        (λ v.
          and_then (map_list (loadmixin_enqueue_nofail f) info.loadmixinlist v)
            (map_list (loadcategory_enqueue_nofail f) info.loadcategorylist))
