-- ===== src/Retain/Threads/Invariant.antt =====
-- What the header holds while threads retain and release an object whose -finalize does not bring
-- it back to life.
use mulle_objc_runtime.Prelude.{ℕ, ◌-◌, ◌≤◌, ◌<◌, ◌^◌, ◌≡◌, [], ◌∷◌}
use mulle_objc_runtime.Retain.{Object, finalize, dealloc, intptr_min, minus_one}
use mulle_objc_runtime.Retain.Threads.{
  Pc, resting, incrementing, decrementing, trying, finalizing, rereading, deallocating, saw, seen,
  Threads,
}
use mulle_objc_runtime.Retain.Threads.Sums.{sum_of}

-- A thread that is taking the object down.
abbrev pub ending : Pc → ℕ
ending resting = 0
ending incrementing = 0
ending decrementing = 0
ending _ = 1

-- What the thread that is taking the object down finds in the header, and what was sent so far.
abbrev pub IsAt : Object → Pc → Type 0
IsAt o resting = Unit {0}
IsAt o incrementing = Unit {0}
IsAt o decrementing = Unit {0}
IsAt o trying = (o.retaincount_1 ≡ minus_one) × (o.log ≡ [])
IsAt o (saw v) = (v ≡ minus_one) × (o.retaincount_1 ≡ minus_one) × (o.log ≡ [])
IsAt o finalizing = (o.retaincount_1 ≡ intptr_min) × (o.log ≡ [])
IsAt o rereading = (o.retaincount_1 ≡ intptr_min) × (o.log ≡ finalize ∷ [])
IsAt o (seen v) = (v ≡ intptr_min) × (o.retaincount_1 ≡ intptr_min) × (o.log ≡ finalize ∷ [])
IsAt o deallocating = (o.retaincount_1 ≡ minus_one) × (o.log ≡ finalize ∷ [])

-- A retain or release is made by an owner.
abbrev pub Owns : ℕ → Pc → Type 0
Owns k incrementing = 1 ≤ k
Owns k decrementing = 1 ≤ k
Owns k _ = Unit {0}

abbrev pub owners : ℕ → Threads → ℕ
owners n s = sum_of (λ k. k) n s.owned

abbrev pub enders : ℕ → Threads → ℕ
enders n s = sum_of ending n s.pc

pub record Inv (n : ℕ) (s : Threads) : Type 0 where
  pub few : owners n s ≤ 2 ^ 62
  pub living :
      1 ≤ owners n s
      → (s.object.retaincount_1 ≡ owners n s - 1) × (s.object.log ≡ []) × (enders n s ≡ 0)
  pub one_ends : enders n s ≤ 1
  pub over :
      owners n s ≡ 0
      → enders n s ≡ 0
      → (s.object.retaincount_1 ≡ minus_one) × (s.object.log ≡ dealloc ∷ finalize ∷ [])
  pub at : (i : ℕ) → i < n → IsAt s.object (s.pc i)
  pub owns : (i : ℕ) → i < n → Owns (s.owned i) (s.pc i)
