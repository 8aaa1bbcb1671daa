-- ===== src/Retain/Threads.antt =====
-- Threads that retain and release one object at the same time: each access to `_retaincount_1` in
-- src/mulle-objc-retain-release.c and .h is a step, and the steps of the threads interleave. The
-- object counts inline, it is neither constant nor slow, and no tagged pointer.
pub mod Sums
pub mod Invariant
pub mod Moves
pub mod Safety
pub mod Race
use mulle_objc_runtime.Prelude.{
  ℕ, zero, suc, ◌+◌, ◌%◌, ◌^◌, ◌≤◌, ◌<◌, ◌≡◌, ◌≢◌, Bool, true, false, List, [], ◌==◌, if◌then◌else◌,
}
use mulle_objc_runtime.Retain.{
  Object, Methods, finalize, dealloc, send, intptr_min, minus_one, inline_release, le_signed,
}

-- Where a thread is in a retain or a release; `saw` and `seen` hold what it has read.
pub data Pc : Type 0 where
  resting incrementing decrementing trying finalizing rereading deallocating : Pc
  saw seen : ℕ → Pc

-- The last owner goes on to `_mulle_objc_object_tryfinalizetrydealloc`.
abbrev pub after_decrement : Bool → Pc
after_decrement true = trying
after_decrement false = resting

-- A step of a thread that owns the object as often as the number says.
pub data Move (ms : Methods) : Object → ℕ → Pc → Object → ℕ → Pc → Type 0 where
  read_retain :
      {o : Object} {k : ℕ}
      → 1 ≤ k
      → le_signed o.retaincount_1 inline_release ≡ true
      → Move ms o k resting o k incrementing
  increment :
      {o : Object} {k : ℕ}
      → Move ms o k incrementing
          (record o { retaincount_1 = (o.retaincount_1 + 1) % 2 ^ 64 })
          (suc k)
          resting
  read_release :
      {o : Object} {k : ℕ}
      → 1 ≤ k
      → le_signed o.retaincount_1 inline_release ≡ true
      → Move ms o k resting o k decrementing
  decrement :
      {o : Object} {k : ℕ}
      → Move ms o
          (suc k)
          decrementing
          (record o { retaincount_1 = (o.retaincount_1 + minus_one) % 2 ^ 64 })
          k
          (after_decrement (le_signed (ms.decrement o.retaincount_1) 0))
  read_first : {o : Object} {k : ℕ} → Move ms o k trying o k (saw o.retaincount_1)
  mark_finalized :
      {o : Object} {k v : ℕ}
      → v ≡ minus_one
      → Move ms o k
          (saw v)
          (record o { retaincount_1 = (v + intptr_min + 1) % 2 ^ 64 })
          k
          finalizing
  not_last : {o : Object} {k v : ℕ} → v ≢ minus_one → Move ms o k (saw v) o k (seen v)
  call_finalize :
      {o : Object} {k : ℕ} → Move ms o k finalizing (send finalize ms.finalize o) k rereading
  read_again : {o : Object} {k : ℕ} → Move ms o k rereading o k (seen o.retaincount_1)
  mark_deallocated :
      {o : Object} {k v : ℕ}
      → v ≡ intptr_min
      → Move ms o k (seen v) (record o { retaincount_1 = minus_one }) k deallocating
  still_owned : {o : Object} {k v : ℕ} → v ≢ intptr_min → Move ms o k (seen v) o k resting
  call_dealloc :
      {o : Object} {k : ℕ} → Move ms o k deallocating (send dealloc ms.dealloc o) k resting

abbrev pub set_at {ℓ} : {A : Type ℓ} → (ℕ → A) → ℕ → A → ℕ → A
set_at f i a j = if j == i then a else f j

-- The object, and of each thread how often it owns it and where it is.
pub record Threads : Type 0 where
  pub object : Object
  pub owned : ℕ → ℕ
  pub pc : ℕ → Pc

-- One of the `n` threads makes a step.
pub data Step (ms : Methods) (n : ℕ) (s : Threads) : Threads → Type 0 where
  pick :
      (i : ℕ) {o : Object} {k : ℕ} {p : Pc}
      → i < n
      → Move ms s.object (s.owned i) (s.pc i) o k p
      → Step ms n s (record { object = o; owned = set_at s.owned i k; pc = set_at s.pc i p })

-- What comes of `s`.
pub data Steps (ms : Methods) (n : ℕ) (s : Threads) : Threads → Type 0 where
  start : Steps ms n s s
  later : {t u : Threads} → Steps ms n s t → Step ms n t u → Steps ms n s u
