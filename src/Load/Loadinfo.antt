-- ===== src/Load/Loadinfo.antt =====
-- The classes, mixins and categories of a file are loaded, or wait for what is missing.
use mulle_objc_runtime.Prelude.{ℕ, ◌+◌, ◌<◌, Bool, not, ◌&&◌, [], arith, length}
use mulle_objc_runtime.Uniqueid.{is_sane}
use mulle_objc_runtime.Load.{
  Loadmixin, Universe, Outcome, loaded, failed, out_of_fuel, waitqueue_hash,
}
use mulle_objc_runtime.Load.Enqueue.{
  Loadinfo, map_list, retrigger, loadclass_enqueue_nofail, loadcategory_enqueue_nofail,
  loadmixin_enqueue_nofail, loadinfo_enqueue_nofail,
}
use mulle_objc_runtime.Load.Waiting.{Holds, and_then-Holds, map_list-Holds, Waits, Changed}
use mulle_objc_runtime.Load.Settled.{
  register_class-Changed, retrigger-Waits, guard-Holds, loadclass_enqueue_nofail-Waits,
  loadcategory_enqueue_nofail-Waits,
}
use mulle_objc_runtime.Load.Enough.{
  waiting, Ends, and_then-Ends, Ends-weaken, map_list-Ends, retrigger-Ends, guard-Ends,
  register_class-Ends, loadclass_enqueue_nofail-Ends, loadcategory_enqueue_nofail-Ends,
}

-- Each entry of the wait queues misses the class that it is filed under.
abbrev pub IsSettled : Bool → Universe → Type 0
IsSettled ignore u = Waits ignore (λ k. ⊥) u

-- Fuel for all entries, those that wait and those of the file.
abbrev pub fuel_for : Loadinfo → Universe → ℕ
fuel_for info u =
    waiting u
    + length info.loadclasslist
    + length info.loadmixinlist
    + length info.loadcategorylist
    + 1

-- The loading has an end: `P` holds then, or the process was ended.
abbrev pub Completes : (Universe → Type 0) → Outcome → Type 0
Completes P (loaded u) = P u
Completes P failed = Unit
Completes P out_of_fuel = ⊥

pub Holds-Completes :
    (P : Universe → Type 0) (n : ℕ) (o : Outcome) → Ends n o → Holds P o → Completes P o
Holds-Completes P n (loaded u) e h = h
Holds-Completes P n failed e h = tt
Holds-Completes P n out_of_fuel e h = e

module _ (ignore : Bool) where
  loadmixin_enqueue_nofail-Waits :
      (f : ℕ) (info : Loadmixin) (u : Universe)
      → IsSettled ignore u
      → Holds (IsSettled ignore) (loadmixin_enqueue_nofail ignore f info u)
  unfolding loadmixin_enqueue_nofail
  loadmixin_enqueue_nofail-Waits f info u w =
      guard-Holds ignore (is_sane info.classid && not info.has_owner) (IsSettled ignore) _ (
        and_then-Holds (Changed ignore (waitqueue_hash info.classid) (λ k. ⊥)) (IsSettled ignore) _
          (retrigger (loadcategory_enqueue_nofail ignore f) (loadclass_enqueue_nofail ignore f)
            info.classid)
          (register_class-Changed ignore (λ k. ⊥) info.classid info.classname 0 info.has_load u w)
          (λ v c.
            retrigger-Waits ignore _ _ (λ k. ⊥) info.classid v
              (λ D x v. loadcategory_enqueue_nofail-Waits ignore f D x v)
              (λ D x v. loadclass_enqueue_nofail-Waits ignore f D x v) c))

  loadmixin_enqueue_nofail-Ends :
      (f : ℕ) (info : Loadmixin) (u : Universe)
      → waiting u < f
      → Ends (waiting u + 1) (loadmixin_enqueue_nofail ignore f info u)
  unfolding loadmixin_enqueue_nofail
  loadmixin_enqueue_nofail-Ends f info u h =
      guard-Ends (is_sane info.classid && not info.has_owner) (waiting u + 1) _ (
        and_then-Ends (waiting u) (waiting u + 1) _
          (retrigger (loadcategory_enqueue_nofail ignore f) (loadclass_enqueue_nofail ignore f)
            info.classid)
          (register_class-Ends info.classid info.classname 0 info.has_load u)
          (λ v q. Ends-weaken (waiting v) (waiting u + 1) _ (omega arith) (
            retrigger-Ends f _ _ info.classid v (loadcategory_enqueue_nofail-Ends ignore f)
              (loadclass_enqueue_nofail-Ends ignore f) (omega arith))))

  settles :
      (f : ℕ) (info : Loadinfo) (u : Universe)
      → IsSettled ignore u
      → Holds (IsSettled ignore) (loadinfo_enqueue_nofail ignore f info u)
  unfolding loadinfo_enqueue_nofail
  settles f info u w =
      and_then-Holds (IsSettled ignore) (IsSettled ignore)
        (map_list (loadclass_enqueue_nofail ignore f) info.loadclasslist (record u { loads = [] }))
        _
        (map_list-Holds (IsSettled ignore) _ info.loadclasslist (record u { loads = [] })
          (λ x v. loadclass_enqueue_nofail-Waits ignore f (λ k. ⊥) x v)
          (record { keyed = w.keyed; categories = w.categories; loadclasses = w.loadclasses }))
        (λ v w'.
          and_then-Holds (IsSettled ignore) (IsSettled ignore)
            (map_list (loadmixin_enqueue_nofail ignore f) info.loadmixinlist v)
            (map_list (loadcategory_enqueue_nofail ignore f) info.loadcategorylist)
            (map_list-Holds (IsSettled ignore) _ info.loadmixinlist v
              (loadmixin_enqueue_nofail-Waits f) w')
            (λ v' w''.
              map_list-Holds (IsSettled ignore) _ info.loadcategorylist v'
                (λ x v. loadcategory_enqueue_nofail-Waits ignore f (λ k. ⊥) x v) w''))

  pub ends :
      (info : Loadinfo) (u : Universe)
      → Ends (fuel_for info u) (loadinfo_enqueue_nofail ignore (fuel_for info u) info u)
  unfolding loadinfo_enqueue_nofail waiting
  ends info u =
      let f = fuel_for info u in
      let n = waiting u + length info.loadclasslist in
      let m = n + length info.loadmixinlist in
      and_then-Ends n f
        (map_list (loadclass_enqueue_nofail ignore f) info.loadclasslist (record u { loads = [] }))
        _
        (map_list-Ends n _ info.loadclasslist (record u { loads = [] })
          (λ x v q. loadclass_enqueue_nofail-Ends ignore f x v (omega arith)) (omega arith))
        (λ v q.
          and_then-Ends m f (map_list (loadmixin_enqueue_nofail ignore f) info.loadmixinlist v)
            (map_list (loadcategory_enqueue_nofail ignore f) info.loadcategorylist)
            (map_list-Ends m _ info.loadmixinlist v
              (λ x v q. loadmixin_enqueue_nofail-Ends f x v (omega arith)) (omega arith))
            (λ v' q'.
              map_list-Ends f _ info.loadcategorylist v'
                (λ x v q. loadcategory_enqueue_nofail-Ends ignore f x v q) (omega arith)))

  -- Loading a file ends, and loses no wake-up: if every class and category in the wait queues is
  -- filed under a class that it misses, then so it is afterwards, unless the process was ended.
  -- Nothing waits whose dependencies are there, in whatever order the files come. The fuel is what
  -- is waiting and what is in the file.
  pub loadinfo_enqueue_nofail-IsSettled :
      (info : Loadinfo) (u : Universe)
      → IsSettled ignore u
      → Completes (IsSettled ignore) (loadinfo_enqueue_nofail ignore (fuel_for info u) info u)
  loadinfo_enqueue_nofail-IsSettled info u w =
      Holds-Completes (IsSettled ignore) (fuel_for info u) _ (ends info u)
        (settles (fuel_for info u) info u w)
