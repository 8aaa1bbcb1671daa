-- ===== src/Retain.antt =====
-- Reference counting (src/mulle-objc-retain-release.c and .h). An object is its header's
-- `_retaincount_1`, a 64-bit pattern, with the methods that the runtime called on it.
pub mod Lifecycle
pub mod Once
pub mod Finalize
pub mod Threads
use Prim.Native.Nat.{bit_and}
use mulle_objc_runtime.Prelude.{
  ℕ, ◌+◌, ◌-◌, ◌*◌, ◌%◌, ◌^◌, Bool, true, false, List, [], ◌∷◌, ltb, leb, ◌==◌, if◌then◌else◌, not,
}
use mulle_objc_runtime.Taggedpointer.{bits64, get_index}

-- A message that the runtime sends to the object.
pub data Call : Type 0 where
  finalize dealloc retain release : Call

-- `log` holds the messages, the latest first.
pub record Object : Type 0 where
  pub retaincount_1 : ℕ
  pub log : List Call

-- The class's methods, whose code is not the runtime's, and what the atomic decrement returns for
-- the value that it found.
pub record Methods : Type 0 where
  pub finalize : Object → Object
  pub dealloc : Object → Object
  pub retain : Object → Object
  pub release : Object → Object
  pub retain_count : Object → ℕ
  pub decrement : ℕ → ℕ

-- INTPTR_MIN as a pattern, INTPTR_MAX, -1
abbrev pub intptr_min : ℕ
intptr_min = 2 ^ 63

abbrev pub intptr_max : ℕ
intptr_max = 2 ^ 63 - 1

abbrev pub minus_one : ℕ
minus_one = 2 ^ 64 - 1

-- MULLE_OBJC_SLOW_RELEASE, MULLE_OBJC_NEVER_RELEASE, MULLE_OBJC_INLINE_RELEASE
abbrev pub slow_release : ℕ
slow_release = intptr_max

abbrev pub never_release : ℕ
never_release = intptr_max - 1

abbrev pub inline_release : ℕ
inline_release = intptr_max - 2

-- `a <= b` on intptr_t, and `a < 0`
abbrev pub le_signed : ℕ → ℕ → Bool
le_signed a b = leb ((a + 2 ^ 63) % 2 ^ 64) ((b + 2 ^ 63) % 2 ^ 64)

abbrev pub is_negative : ℕ → Bool
is_negative a = leb intptr_min a

-- The message sends of the runtime: mulle_objc_object_call_inline_partial
abbrev pub send : Call → (Object → Object) → Object → Object
send c method o = method (record o { log = c ∷ o.log })

-- _mulle_objc_object_is_finalized
unfoldable pub is_finalized : Object → Bool
is_finalized o = is_negative o.retaincount_1

-- _mulle_objc_object_get_retaincount_notps_noslow
unfoldable pub get_retaincount_notps_noslow : Object → ℕ
get_retaincount_notps_noslow o =
    let rc = o.retaincount_1 in
    if rc == never_release
    then never_release
    else if rc == minus_one
    then 0
    else if is_negative rc
    then (rc + 2 ^ 64 - intptr_min) % 2 ^ 64
    else rc + 1

-- _mulle_objc_object_get_retaincount and __mulle_objc_object_get_retaincount; `pointer` is the
-- object's address, whose low bits are an index if it is no address
unfoldable pub get_retaincount : Methods → ℕ → Object → ℕ
get_retaincount ms pointer o =
    let rc = o.retaincount_1 in
    if not (get_index bits64 pointer == 0)
    then never_release
    else if rc == never_release
    then never_release
    else if rc == slow_release
    then ms.retain_count o
    else if rc == minus_one
    then 0
    else if is_negative rc
    then (rc + 2 ^ 64 - intptr_min) % 2 ^ 64
    else rc + 1

-- _mulle_objc_object_increment_retaincount and _mulle_objc_object_retain_inline
unfoldable pub increment_retaincount : Methods → ℕ → Object → Object
increment_retaincount ms pointer o =
    let rc = o.retaincount_1 in
    if not (get_index bits64 pointer == 0)
    then o
    else if le_signed rc inline_release
    then record o { retaincount_1 = (rc + 1) % 2 ^ 64 }
    else if rc == slow_release
    then send retain ms.retain o
    else o

-- _mulle_objc_object_decrement_retaincount_waszero
unfoldable pub decrement_retaincount_waszero : Methods → ℕ → Object → Object × Bool
decrement_retaincount_waszero ms pointer o =
    let rc = o.retaincount_1 in
    if not (get_index bits64 pointer == 0)
    then (o, false)
    else if le_signed rc inline_release
    then (record o { retaincount_1 = (rc + minus_one) % 2 ^ 64 }, le_signed (ms.decrement rc) 0)
    else if rc == slow_release
    then (send release ms.release o, false)
    else (o, false)

-- The first half of _mulle_objc_object_tryfinalizetrydealloc
unfoldable pub try_finalize : Methods → Object → Object
try_finalize ms o =
    if o.retaincount_1 == minus_one
    then send finalize ms.finalize
        (record o { retaincount_1 = (o.retaincount_1 + intptr_min + 1) % 2 ^ 64 })
    else o

-- The second half, on the count that was read again
unfoldable pub try_dealloc : Methods → Object → Object
try_dealloc ms o =
    if o.retaincount_1 == intptr_min
    then send dealloc ms.dealloc (record o { retaincount_1 = minus_one })
    else o

-- _mulle_objc_object_tryfinalizetrydealloc
unfoldable pub tryfinalizetrydealloc : Methods → Object → Object
tryfinalizetrydealloc ms o = try_dealloc ms (try_finalize ms o)

-- _mulle_objc_object_release_inline
unfoldable pub release_inline : Methods → ℕ → Object → Object
release_inline ms pointer o =
    let (o', waszero) = decrement_retaincount_waszero ms pointer o in
    if waszero then tryfinalizetrydealloc ms o' else o'

-- _mulle_objc_object_constantify_noatomic, _deconstantify_, _slowify_ and _deslowify_
unfoldable pub constantify : ℕ → Object → Object
constantify pointer o =
    if not (get_index bits64 pointer == 0) then o else record o { retaincount_1 = never_release }

unfoldable pub deconstantify : ℕ → Object → Object
deconstantify pointer o =
    if not (get_index bits64 pointer == 0) then o else record o { retaincount_1 = 0 }

unfoldable pub slowify : ℕ → Object → Object
slowify pointer o =
    if not (get_index bits64 pointer == 0) then o else record o { retaincount_1 = slow_release }

unfoldable pub deslowify : ℕ → Object → Object
deslowify pointer o =
    if not (get_index bits64 pointer == 0) then o else record o { retaincount_1 = 0 }

-- _mulle_objc_object_is_constant
unfoldable pub is_constant : ℕ → Object → Bool
is_constant pointer o =
    if not (get_index bits64 pointer == 0) then true else o.retaincount_1 == never_release

-- _mulle_objc_object_perform_finalize. Each function of the list is what other threads do to the
-- count between the read and the compare-and-swap of one round; when the list is used up, no
-- other thread interferes any more.
unfoldable pub perform_finalize : Methods → List (ℕ → ℕ) → Object → Object
perform_finalize ms [] o =
    if is_negative o.retaincount_1
    then o
    else send finalize ms.finalize
        (record o { retaincount_1 = (o.retaincount_1 + intptr_min + 1) % 2 ^ 64 })
perform_finalize ms (others ∷ rounds) o =
    let rc = o.retaincount_1 in
    let again = perform_finalize ms rounds (record o { retaincount_1 = others rc }) in
    if is_negative rc
    then o
    else if others rc == rc
    then send finalize ms.finalize (record o { retaincount_1 = (rc + intptr_min + 1) % 2 ^ 64 })
    else again
