-- ===== src/Load.antt =====
-- mulle-objc-load.c and .h: classes, categories and mixins are installed, or wait in a queue for
-- the class that they miss. What ends the process is `failed`.
pub mod Enqueue
pub mod Missing
pub mod Stable
pub mod Waiting
pub mod Settled
pub mod Enough
pub mod Loadinfo
pub mod Accounting
pub mod Kept
pub mod Strings
use mulle_objc_runtime.Prelude.{
  ℕ, zero, suc, ◌+◌, ◌-◌, ◌%◌, ◌^◌, ◌==◌, Bool, true, false, not, ◌&&◌, ◌||◌, Option, none, some,
  List, [], ◌∷◌, ◌++◌, if◌then◌else◌,
}
use mulle_objc_runtime.Uniqueid.{is_sane}

-- `struct _mulle_objc_dependency`
pub record Dependency : Type 0 where
  pub classid : ℕ
  pub categoryid : ℕ

-- What `+dependencies` returns: its entries up to the terminator, or NULL.
pub data Userdependencies : Type 0 where
  no_method returns_null : Userdependencies
  listed : List Dependency → Userdependencies

-- A registered class with the categories of its pair.
pub record Infraclass : Type 0 where
  pub classid : ℕ
  pub name : List ℕ
  pub ivarhash : ℕ
  pub categoryids : List ℕ

-- `struct _mulle_objc_loadclass`, as far as loading looks at it.
pub record Loadclass : Type 0 where
  pub classid : ℕ
  pub classname : List ℕ
  pub superclassid : ℕ
  pub superclassname : List ℕ
  pub superclassivarhash : ℕ
  pub classivarhash : ℕ
  pub mixinids : List ℕ
  pub dependencies : Userdependencies
  pub has_owner : Bool
  pub has_load : Bool

-- `struct _mulle_objc_loadcategory`
pub record Loadcategory : Type 0 where
  pub classid : ℕ
  pub classname : List ℕ
  pub categoryid : ℕ
  pub classivarhash : ℕ
  pub mixinids : List ℕ
  pub dependencies : Userdependencies
  pub has_load : Bool

-- `struct _mulle_objc_loadmixin`
pub record Loadmixin : Type 0 where
  pub classid : ℕ
  pub classname : List ℕ
  pub has_owner : Bool
  pub has_load : Bool

-- The classes by their ids, the wait queues, each entry with the hash it is filed under, and the
-- classes and categories whose `+load` is to be called.
pub record Universe : Type 0 where
  pub classes : ℕ → Option Infraclass
  pub classestoload : List (ℕ × Loadclass)
  pub categoriestoload : List (ℕ × Loadcategory)
  pub loads : List Dependency

pub data Outcome : Type 0 where
  loaded : Universe → Outcome
  failed out_of_fuel : Outcome

-- `ready` is `no_dependency`.
pub data Fulfilled : Type 0 where
  ready fails : Fulfilled
  missing : ℕ → Fulfilled

-- `_mulle_objc_classid_to_waitqueue_hash` with 64 bits.
unfoldable pub waitqueue_hash : ℕ → ℕ
waitqueue_hash classid = let hash = classid % 2 ^ 63 in if hash == 0 then 2 ^ 63 - 1 else hash

unfoldable pub contains_id : ℕ → List ℕ → Bool
contains_id x [] = false
contains_id x (y ∷ ys) = (x == y) || contains_id x ys

unfoldable pub same_name : List ℕ → List ℕ → Bool
same_name [] [] = true
same_name [] (d ∷ t) = false
same_name (c ∷ s) [] = false
same_name (c ∷ s) (d ∷ t) = (c == d) && same_name s t

-- A dependency on the class alone has no category id.
unfoldable pub has_category : Infraclass → ℕ → Bool
unfolding contains_id
has_category infra categoryid = (categoryid == 0) || contains_id categoryid infra.categoryids

-- The class that was looked up last is used again if it is the one.
unfoldable pub find_class : (ℕ → Option Infraclass) → Option Infraclass → ℕ → Option Infraclass
find_class classes none id = classes id
find_class classes (some infra) id = if infra.classid == id then some infra else classes id

unfoldable pub check_dependency :
    Option Infraclass → Dependency → (Infraclass → Fulfilled) → Fulfilled
check_dependency none d next = missing d.classid
check_dependency (some infra) d next = elim (has_category infra d.categoryid) [
  | true ↦ next infra
  | false ↦ missing d.classid
]

-- `_mulle_objc_universe_fulfill_dependencies`
unfoldable pub fulfill_dependencies :
    (ℕ → Option Infraclass) → Option Infraclass → List Dependency → Fulfilled
unfolding check_dependency find_class
fulfill_dependencies classes infra [] = ready
fulfill_dependencies classes infra (d ∷ ds) =
    check_dependency (find_class classes infra d.classid) d
      (λ found. fulfill_dependencies classes (some found) ds)

unfoldable pub fulfill_user_dependencies :
    (ℕ → Option Infraclass) → Option Infraclass → Userdependencies → Fulfilled
unfolding fulfill_dependencies
fulfill_user_dependencies classes infra no_method = ready
fulfill_user_dependencies classes infra returns_null = fails
fulfill_user_dependencies classes infra (listed ds) = fulfill_dependencies classes infra ds

unfoldable pub check_mixin : Bool → Option Infraclass → ℕ → Fulfilled → Fulfilled
check_mixin true found id rest = rest
check_mixin false none id rest = missing id
check_mixin false (some mixin) id rest = rest

-- The loop over the mixins, and then `last`.
unfoldable pub fulfill_mixins :
    (ℕ → Option Infraclass) → (ℕ → Bool) → List ℕ → Fulfilled → Fulfilled
unfolding check_mixin
fulfill_mixins classes skips [] last = last
fulfill_mixins classes skips (id ∷ ids) last =
    check_mixin (skips id) (classes id) id (fulfill_mixins classes skips ids last)

-- `config.ignore_ivarhash_mismatch`
module _ (ignore_ivarhash_mismatch : Bool) where
  unfoldable pub check_superclass : Loadclass → Option Infraclass → Fulfilled → Fulfilled
  check_superclass info none rest = missing info.superclassid
  check_superclass info (some superclass) rest =
      if same_name info.superclassname superclass.name
        && ((superclass.ivarhash == info.superclassivarhash) || ignore_ivarhash_mismatch)
      then rest
      else fails

  -- `_mulle_objc_loadclass_fulfill_dependencies`
  unfoldable pub loadclass_fulfill_dependencies : (ℕ → Option Infraclass) → Loadclass → Fulfilled
  unfolding check_superclass fulfill_mixins fulfill_user_dependencies
  loadclass_fulfill_dependencies classes info =
      let rest =
        fulfill_mixins classes (λ id. (id == info.superclassid) || (id == info.classid))
          info.mixinids (fulfill_user_dependencies classes none info.dependencies) in
      elim (info.superclassid == 0) [
        | true ↦ rest
        | false ↦ check_superclass info (classes info.superclassid) rest
      ]

unfoldable pub check_class : Loadcategory → Option Infraclass → (Infraclass → Fulfilled) → Fulfilled
check_class info none next = missing info.classid
check_class info (some infra) next = next infra

-- `_mulle_objc_loadcategory_fulfill_dependencies`
unfoldable pub loadcategory_fulfill_dependencies :
    (ℕ → Option Infraclass) → Loadcategory → Fulfilled
unfolding check_class fulfill_mixins fulfill_user_dependencies
loadcategory_fulfill_dependencies classes info = check_class info (classes info.classid) (λ infra.
    fulfill_mixins classes (λ id. id == info.classid) info.mixinids
      (fulfill_user_dependencies classes (some infra) info.dependencies))
