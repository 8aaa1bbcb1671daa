-- ===== src/Tests/LoadExamples.antt =====
-- Loading a subclass and a category in front of their class, and the theorems at this file.
use mulle_objc_runtime.Prelude.{◌≡◌, inl, inr, refl, true, false, Option, none, some, List, [], ◌∷◌}
use mulle_objc_runtime.Load.{
  Dependency, no_method, listed, Infraclass, Loadclass, Loadcategory, Loadmixin, Universe, Outcome,
  loaded, failed, out_of_fuel, waitqueue_hash, has_category,
}
use mulle_objc_runtime.Uniqueid.{is_sane}
use mulle_objc_runtime.Load.Enqueue.{Loadinfo, loadinfo_enqueue_nofail}
use mulle_objc_runtime.Load.Enough.{waiting}
use mulle_objc_runtime.Load.Loadinfo.{
  IsSettled, Completes, fuel_for, loadinfo_enqueue_nofail-IsSettled,
}
use mulle_objc_runtime.Load.Kept.{IsKept, CategoryIsKept, loadinfo_enqueue_nofail-IsKept}

abbrev root_class : Loadclass
root_class = record {
  classid = 11;
  classname = b'R' ∷ [];
  superclassid = 0;
  superclassname = [];
  superclassivarhash = 0;
  classivarhash = 7;
  mixinids = 33 ∷ [];
  dependencies = no_method;
  has_owner = false;
  has_load = true;
}

-- It also waits for the category of the root class.
abbrev subclass : Loadclass
subclass = record {
  classid = 22;
  classname = b'S' ∷ [];
  superclassid = 11;
  superclassname = b'R' ∷ [];
  superclassivarhash = 7;
  classivarhash = 8;
  mixinids = [];
  dependencies = listed ((record { classid = 11; categoryid = 44 }) ∷ []);
  has_owner = false;
  has_load = true;
}

abbrev category : Loadcategory
category = record {
  classid = 11;
  classname = b'R' ∷ [];
  categoryid = 44;
  classivarhash = 7;
  mixinids = [];
  dependencies = no_method;
  has_load = true;
}

abbrev mixin : Loadmixin
mixin = record { classid = 33; classname = b'M' ∷ []; has_owner = false; has_load = false }

abbrev empty : Universe
empty = record { classes = λ id. none; classestoload = []; categoriestoload = []; loads = [] }

-- The file with the subclass and the category.
abbrev first_file : Loadinfo
first_file = record {
  loadclasslist = subclass ∷ [];
  loadmixinlist = [];
  loadcategorylist = category ∷ [];
}

abbrev second_file : Loadinfo
second_file = record {
  loadclasslist = root_class ∷ [];
  loadmixinlist = mixin ∷ [];
  loadcategorylist = [];
}

abbrev loads_of : Outcome → Option (List Dependency)
loads_of (loaded u) = some u.loads
loads_of failed = none
loads_of out_of_fuel = none

abbrev then_load : Loadinfo → Outcome → Outcome
then_load info (loaded u) = loadinfo_enqueue_nofail false (fuel_for info u) info u
then_load info failed = failed
then_load info out_of_fuel = out_of_fuel

-- Everything waits until the mixin is there; then the root class, the category and the subclass are
-- loaded, in this order.
loads_in_order :
    loads_of (
      then_load second_file
        (loadinfo_enqueue_nofail false (fuel_for first_file empty) first_file empty))
    ≡ some (
        (record { classid = 11; categoryid = 0 })
        ∷ (record { classid = 11; categoryid = 44 })
        ∷ (record { classid = 22; categoryid = 0 })
        ∷ [])
unfolding loadinfo_enqueue_nofail waiting is_sane waitqueue_hash has_category
loads_in_order = refl

empty-IsSettled : IsSettled false empty
empty-IsSettled = record {
  keyed = λ id i e. absurd (none_some i e);
  categories = tt;
  loadclasses = tt;
}
  where
    none_some : (i : Infraclass) → none ≡ some i → ⊥
    none_some i e = cc

loadinfo_enqueue_nofail-IsSettled_example :
    Completes
      (IsSettled false)
      (loadinfo_enqueue_nofail false (fuel_for first_file empty) first_file empty)
loadinfo_enqueue_nofail-IsSettled_example =
    loadinfo_enqueue_nofail-IsSettled false first_file empty empty-IsSettled

loadinfo_enqueue_nofail-IsKept_example :
    Completes
      (λ v. IsKept subclass v × CategoryIsKept category v)
      (loadinfo_enqueue_nofail false (fuel_for first_file empty) first_file empty)
loadinfo_enqueue_nofail-IsKept_example =
    loadinfo_enqueue_nofail-IsKept false first_file empty subclass category (inr (inl refl))
      (inr (inl refl))
