-- ===== src/Retain/Lifecycle.antt =====
-- The life of an object, as a count of its owners, and that retain and release implement it: the
-- object is finalized when the last owner lets go, comes back to life if -finalize retains it, is
-- never finalized twice, and is deallocated when the last owner lets go after that.
use mulle_objc_runtime.Prelude.{
  ℕ, zero, suc, ◌+◌, ◌-◌, ◌%◌, ◌^◌, ◌≤◌, ◌≡◌, ◌≢◌, refl, Bool, true, false, arith, List, [], ◌∷◌,
  ◌==◌, if◌then◌else◌, not, ap, eq→==, ne→==-false,
}
use native.Mathlib.Decide.{ℕ_discrete as dec_eq}
use mulle_objc_runtime.Taggedpointer.{bits64, get_index}
use mulle_objc_runtime.Retain.{
  Call, finalize, dealloc, Object, Methods, intptr_min, minus_one, increment_retaincount,
  decrement_retaincount_waszero, try_finalize, try_dealloc, tryfinalizetrydealloc, release_inline,
  get_retaincount, is_finalized,
}

-- The specification: `alive n f l` has `n` owners, was finalized or not, and was sent `l`.
pub data Life : Type 0 where
  alive : (owners : ℕ) (finalized : Bool) (log : List Call) → Life
  dead : (log : List Call) → Life

-- The last owner lets go; -finalize makes `extra` new owners.
abbrev pub last_release : ℕ → Bool → List Call → Life
last_release extra false l =
    if extra == 0 then dead (dealloc ∷ finalize ∷ l) else alive extra true (finalize ∷ l)
last_release extra true l = dead (dealloc ∷ l)

pub data Op : Type 0 where
  up down : Op

abbrev pub life_step : ℕ → Op → Life → Life
life_step extra up (alive n f l) = alive (n + 1) f l
life_step extra down (alive n f l) = if n == 1 then last_release extra f l else alive (n - 1) f l
life_step extra op (dead l) = dead l

abbrev pub life : ℕ → List Op → Life → Life
life extra [] s = s
life extra (op ∷ ops) s = life extra ops (life_step extra op s)

-- The object that stands for it.
abbrev pub encode : Life → Object
encode (alive n false l) = record { retaincount_1 = n - 1; log = l }
encode (alive n true l) = record { retaincount_1 = intptr_min + n; log = l }
encode (dead l) = record { retaincount_1 = minus_one; log = l }

-- What is asked of the class: -finalize retains the object `extra` times, -dealloc does not touch
-- the header, and the decrement returns what it found.
pub record Plain (extra : ℕ) (ms : Methods) : Type 0 where
  pub finalizes :
      (o : Object) → ms.finalize o ≡ record o { retaincount_1 = (o.retaincount_1 + extra) % 2 ^ 64 }
  pub deallocs : (o : Object) → ms.dealloc o ≡ o
  pub decrements : (rc : ℕ) → ms.decrement rc ≡ rc

-- Messages go to objects that have an owner, and at most 2 ^ 62.
abbrev pub InRange : Life → Type 0
InRange (alive n f l) = (1 ≤ n) × (n ≤ 2 ^ 62)
InRange (dead l) = ⊥

abbrev pub AllInRange : ℕ → List Op → Life → Type 0
AllInRange extra [] s = Unit {0}
AllInRange extra (op ∷ ops) s = InRange s × AllInRange extra ops (life_step extra op s)

abbrev pub perform : Methods → ℕ → Op → Object → Object
perform ms p up o = increment_retaincount ms p o
perform ms p down o = release_inline ms p o

abbrev pub perform_all : Methods → ℕ → List Op → Object → Object
perform_all ms p [] o = o
perform_all ms p (op ∷ ops) o = perform_all ms p ops (perform ms p op o)

module _ {extra : ℕ} {ms : Methods} (plain : Plain extra ms) (few : extra ≤ 2 ^ 62) where
  dealloc_last :
      (l : List Call)
      → try_dealloc ms (record { retaincount_1 = intptr_min; log = l })
        ≡ encode (dead (dealloc ∷ l))
  unfolding try_dealloc
  dealloc_last l = plain.deallocs _

  last_finalized :
      (l : List Call)
      → tryfinalizetrydealloc ms (encode (alive 0 true l)) ≡ encode (dead (dealloc ∷ l))
  unfolding tryfinalizetrydealloc try_finalize
  last_finalized l = dealloc_last l

  still_owned :
      (n : ℕ) (l : List Call)
      → 1 ≤ n
      → n ≤ 2 ^ 62
      → tryfinalizetrydealloc ms (encode (alive n true l)) ≡ encode (alive n true l)
  unfolding tryfinalizetrydealloc try_finalize try_dealloc
  still_owned n l lo hi = ground arith

  revived :
      (n : ℕ) (l : List Call)
      → n ≢ 0
      → n ≤ 2 ^ 62
      → try_dealloc ms (record { retaincount_1 = (intptr_min + n) % 2 ^ 64; log = l })
        ≡ encode (alive n true l)
  unfolding try_dealloc
  revived n l ne hi = ground arith

  try_last :
      (l : List Call)
      → tryfinalizetrydealloc ms (record { retaincount_1 = minus_one; log = l })
        ≡ encode (last_release extra false l)
  unfolding tryfinalizetrydealloc try_finalize
  try_last l =
      rw (plain.finalizes (record { retaincount_1 = intptr_min; log = finalize ∷ l }))
        (elim (dec_eq extra 0) [
          | yes e ↦ rw e (dealloc_last (finalize ∷ l))
          | no ne ↦ rw (ne→==-false extra 0 ne) (revived extra (finalize ∷ l) ne few)
        ])

  module _ (p : ℕ) (untagged : get_index bits64 p ≡ 0) where
    up_step :
        (n : ℕ) (f : Bool) (l : List Call)
        → InRange (alive n f l)
        → increment_retaincount ms p (encode (alive n f l)) ≡ encode (alive (n + 1) f l)
    unfolding increment_retaincount
    up_step n false l r = ground arith
    up_step n true l r = ground arith

    untagged_test : not (get_index bits64 p == 0) ≡ false
    untagged_test = ap not (eq→== _ 0 untagged)

    decrement_live :
        (n : ℕ) (l : List Call)
        → 1 ≤ n
        → n ≤ 2 ^ 62
        → decrement_retaincount_waszero ms p (encode (alive (suc n) false l))
          ≡ (encode (alive n false l), false)
    unfolding decrement_retaincount_waszero
    decrement_live n l lo hi = rw (untagged_test, plain.decrements) (ground arith)

    decrement_last :
        (l : List Call)
        → decrement_retaincount_waszero ms p (encode (alive 1 false l))
          ≡ (record { retaincount_1 = minus_one; log = l }, true)
    unfolding decrement_retaincount_waszero
    decrement_last l = rw (untagged_test, plain.decrements)

    decrement_finalized :
        (n : ℕ) (l : List Call)
        → n ≤ 2 ^ 62
        → decrement_retaincount_waszero ms p (encode (alive (suc n) true l))
          ≡ (encode (alive n true l), true)
    unfolding decrement_retaincount_waszero
    decrement_finalized n l hi = rw (untagged_test, plain.decrements) (ground arith)

    down_step :
        (n : ℕ) (f : Bool) (l : List Call)
        → InRange (alive n f l)
        → release_inline ms p (encode (alive n f l)) ≡ encode (life_step extra down (alive n f l))
    unfolding release_inline
    down_step zero f l r = absurd (omega arith)
    down_step (suc zero) false l r = rw decrement_last (try_last l)
    down_step (suc zero) true l r = rw (decrement_finalized 0 l (omega arith)) (last_finalized l)
    down_step (suc (suc n)) false l r =
        rw (decrement_live (suc n) l (omega arith) (omega arith)) (ground arith)
    down_step (suc (suc n)) true l r =
        rw
          (
            decrement_finalized (suc n) l (omega arith),
            still_owned (suc n) l (omega arith) (omega arith),
          )
          (ground arith)

    one_step :
        (op : Op) (s : Life)
        → InRange s
        → perform ms p op (encode s) ≡ encode (life_step extra op s)
    one_step up (alive n f l) r = up_step n f l r
    one_step down (alive n f l) r = down_step n f l r
    one_step op (dead l) r = absurd r

    -- Whatever sequence of retains and releases an object goes through, the counting on the header
    -- implements the specification: same messages in the same order, and the count of the owners
    -- in the header. It is asked that messages go to objects with an owner, of which there are at
    -- most 2 ^ 62, that -finalize does nothing to the header but retain, at most 2 ^ 62 times, that
    -- -dealloc leaves it alone, that the atomic decrement returns what it found, and that the pointer
    -- is not tagged.
    pub perform_all-life :
        (ops : List Op) (s : Life)
        → AllInRange extra ops s
        → perform_all ms p ops (encode s) ≡ encode (life extra ops s)
    perform_all-life [] s r = refl
    perform_all-life (op ∷ ops) s r = rw (one_step op s r.0) (perform_all-life ops _ r.1)

    -- The retain count that the runtime reports of an object with 1 to 2 ^ 62 owners, whose pointer is
    -- not tagged, is the number of owners, also while or after the object was finalized, and it
    -- reports finalization.
    pub get_retaincount-owners :
        (n : ℕ) (f : Bool) (l : List Call)
        → InRange (alive n f l)
        → (get_retaincount ms p (encode (alive n f l)) ≡ n)
          × (is_finalized (encode (alive n f l)) ≡ f)
    unfolding get_retaincount is_finalized
    get_retaincount-owners n false l r = ground arith
    get_retaincount-owners n true l r = ground arith
