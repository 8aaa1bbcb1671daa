-- ===== src/Callqueue.antt =====
-- The queue of +load calls (src/mulle-objc-callqueue.c and .h), and how a method list adds to it
-- (src/mulle-objc-methodlist.c). The concurrent pointer array that it stands on is another
-- library's: a record of operations, with what is asked of them.
pub mod Order
pub mod Load
use Prim.Native.Nat.{bit_or}
use mulle_objc_runtime.Prelude.{
  ℕ, ◌+◌, ◌≡◌, Bool, true, false, not, ◌||◌, Option, none, some, List, [], ◌∷◌, ◌++◌, ◌==◌,
  if◌then◌else◌,
}
use mulle_objc_runtime.Uniqueid.{is_sane}
use mulle_objc_runtime.Method.{Method}
use mulle_objc_runtime.Methodlist.{Methodlist, search_method}

-- An object, a method id and an implementation; 0 is NULL.
pub record Entry : Type 0 where
  pub obj : ℕ
  pub uniqueid : ℕ
  pub imp : ℕ

-- mulle_concurrent_pointerarray: init, add, and what an enumerator returns until it returns NULL.
pub record Pointerarray : Type 1 where
  pub Array : Type 0
  pub empty : Array
  pub push : Array → Entry → Array
  pub enumerated : Array → List Entry

-- Its documented behaviour: an enumerator returns the pointers in the order of their additions.
pub record Appends (ops : Pointerarray) : Type 0 where
  pub starts : ops.enumerated ops.empty ≡ []
  pub appends :
      (a : ops.Array) (e : Entry) → ops.enumerated (ops.push a e) ≡ ops.enumerated a ++ e ∷ []

-- The 0 and the -1 with `errno` EINVAL.
pub data Status : Type 0 where
  success einval : Status

-- MULLE_OBJC_LOAD_METHODID, and the state bit MULLE_OBJC_METACLASS_LOAD_SCHEDULED
abbrev pub load_methodid : ℕ
load_methodid = 0x6075_9e9e

abbrev pub load_scheduled : ℕ
load_scheduled = 0x800

-- The metaclass, as far as this is about it: its address and its state bits.
pub record Metaclass : Type 0 where
  pub address : ℕ
  pub state : ℕ

module _ (ops : Pointerarray) where
  -- mulle_objc_callqueue_init; the arguments say whether the pointers are not NULL.
  unfoldable pub init : (queue allocator : Bool) → Option ops.Array × Status
  init queue allocator =
      if not queue || not allocator then (none, einval) else (some ops.empty, success)

  -- mulle_objc_callqueue_add, of a queue that is not NULL, and of one that may be (`none`)
  unfoldable pub add : ops.Array → (obj methodid imp : ℕ) → ops.Array × Status
  add list obj methodid imp =
      if obj == 0 || imp == 0 || not (is_sane methodid)
      then (list, einval)
      else (ops.push list (record { obj = obj; uniqueid = methodid; imp = imp }), success)

  unfoldable pub add_to : Option ops.Array → (obj methodid imp : ℕ) → Option ops.Array × Status
  add_to none obj methodid imp = (none, einval)
  add_to (some list) obj methodid imp =
      let (list', status) = add list obj methodid imp in (some list', status)

  -- The loop of an enumeration, on what the calls can change.
  unfoldable pub visit_all {ℓ} : {S : Type ℓ} → (Entry → S → S) → List Entry → S → S
  visit_all call [] s = s
  visit_all call (entry ∷ rover) s = visit_all call rover (call entry s)

  -- mulle_objc_callqueue_execute, whose `call` invokes the implementation, and
  -- mulle_objc_callqueue_walk, whose `call` is the callback
  unfoldable pub walk {ℓ} : {S : Type ℓ} → (Entry → S → S) → ops.Array → S → S
  walk call list s = visit_all call (ops.enumerated list) s

  -- mulle_objc_callqueue_done: the entries that are freed
  unfoldable pub done : ops.Array → List Entry
  done list = visit_all (λ entry freed. freed ++ entry ∷ []) (ops.enumerated list) []

  -- mulle_objc_methodlist_add_load_to_callqueue
  unfoldable pub add_load_to_callqueue :
      Option Methodlist → Metaclass → ops.Array → Option (Metaclass × ops.Array × Status)
  add_load_to_callqueue none meta loads = some (meta, loads, success)
  add_load_to_callqueue (some list) meta loads = elim (search_method list load_methodid) [
    | none ↦ none
    | some none ↦ some (meta, loads, success)
    | some (some method) ↦
        let meta' = record meta { state = bit_or meta.state load_scheduled } in
        let (loads', status) = add loads meta.address load_methodid method.implementation in
        some (meta', loads', status)
  ]

  -- The test for a result that is not 0, which ends the process: `none`.
  unfoldable pub nofail : Option (Metaclass × ops.Array × Status) → Option (Metaclass × ops.Array)
  nofail none = none
  nofail (some (meta, loads, success)) = some (meta, loads)
  nofail (some (meta, loads, einval)) = none

  -- mulle_objc_methodlist_add_load_to_callqueue_nofail
  unfoldable pub add_load_to_callqueue_nofail :
      Option Methodlist → Metaclass → ops.Array → Option (Metaclass × ops.Array)
  unfolding add_load_to_callqueue nofail
  add_load_to_callqueue_nofail list meta loads = nofail (add_load_to_callqueue list meta loads)
