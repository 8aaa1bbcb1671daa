-- ===== src/Retain/Finalize.antt =====
-- -finalize on demand, also while other threads retain and release.
use mulle_objc_runtime.Prelude.{
  ℕ, ◌+◌, ◌-◌, ◌%◌, ◌^◌, ◌≤◌, ◌<◌, ◌≡◌, if◌then◌else◌, true, false, arith, List, [], ◌∷◌, ◌==◌, ap,
  ◌∙◌, inl, inr, Bool-cases, lt→leb-false,
}
use mulle_objc_runtime.Retain.{
  Call, finalize, Object, Methods, intptr_min, slow_release, perform_finalize, is_negative, send,
}
use mulle_objc_runtime.Retain.Lifecycle.{Plain, alive, encode}

-- What other threads do to the count between two rounds leaves between 1 and 2 ^ 62 owners.
abbrev pub KeepsAlive : List (ℕ → ℕ) → Type 0
KeepsAlive [] = Unit {0}
KeepsAlive (f ∷ fs) = ((rc : ℕ) → f rc < 2 ^ 62) × KeepsAlive fs

-- The owners of the object in the round whose exchange succeeds, if `n` own it before the first.
unfoldable pub at_exchange : List (ℕ → ℕ) → ℕ → ℕ
at_exchange [] n = n
at_exchange (f ∷ fs) n =
    let rest = at_exchange fs (f (n - 1) + 1) in if f (n - 1) == n - 1 then n else rest

abbrev count_as : List Call → ℕ → Object
count_as l rc = record { retaincount_1 = rc; log = l }

module _ {extra : ℕ} {ms : Methods} (plain : Plain extra ms) (few : extra < 2 ^ 62) where
  marked :
      (n : ℕ) (l : List Call)
      → 1 ≤ n
      → n ≤ 2 ^ 62
      → send finalize ms.finalize
          (record { retaincount_1 = (n - 1 + intptr_min + 1) % 2 ^ 64; log = l })
        ≡ encode (alive (n + extra) true (finalize ∷ l))
  marked n l lo hi =
      plain.finalizes
        (record { retaincount_1 = (n - 1 + intptr_min + 1) % 2 ^ 64; log = finalize ∷ l })
      ∙ ap (count_as (finalize ∷ l)) (omega arith)

  not_marked : (n : ℕ) → n ≤ 2 ^ 62 → is_negative (n - 1) ≡ false
  not_marked n hi = lt→leb-false intptr_min (n - 1) (omega arith)

  -- However often other threads retain and release an object that was not finalized, while
  -- `_mulle_objc_object_perform_finalize` tries to mark it, it sends -finalize exactly once, and
  -- marks the object as finalized with exactly the owners that it has when the exchange succeeds
  -- and those that -finalize adds. It is asked that it has between 1 and 2 ^ 62
  -- owners before and in each round, and that -finalize retains fewer than 2 ^ 62 times.
  pub perform_finalize-alive :
      (rounds : List (ℕ → ℕ)) (n : ℕ) (l : List Call)
      → 1 ≤ n
      → n ≤ 2 ^ 62
      → KeepsAlive rounds
      → (1 ≤ at_exchange rounds n)
        × (perform_finalize ms rounds (encode (alive n false l))
            ≡ encode (alive (at_exchange rounds n + extra) true (finalize ∷ l)))
  unfolding perform_finalize at_exchange
  perform_finalize-alive [] n l lo hi keep = (lo, rw (not_marked n hi) (marked n l lo hi))
  perform_finalize-alive (f ∷ fs) n l lo hi keep = elim (Bool-cases (f (n - 1) == n - 1)) [
    | inl e ↦ rw (e, not_marked n hi) (lo, marked n l lo hi)
    | inr e ↦
        let still = keep.0 (n - 1) in
        let (lo', run) =
          perform_finalize-alive fs (f (n - 1) + 1) l (omega arith) (omega arith) keep.1 in
        rw (e, not_marked n hi)
          (lo', ap (λ t. perform_finalize ms fs (count_as l t)) (omega arith) ∙ run)
  ]

  -- An object that was finalized before is left alone.
  pub perform_finalize-finalized :
      (rounds : List (ℕ → ℕ)) (n : ℕ) (l : List Call)
      → n ≤ 2 ^ 62
      → perform_finalize ms rounds (encode (alive n true l)) ≡ encode (alive n true l)
  unfolding perform_finalize
  perform_finalize-finalized [] n l hi = ground arith
  perform_finalize-finalized (f ∷ fs) n l hi = ground arith

  -- `_mulle_objc_object_perform_finalize` does not mark an object that keeps its count elsewhere
  -- (MULLE_OBJC_SLOW_RELEASE) as finalized, if no other thread interferes: the sum of its INTPTR_MAX
  -- with INTPTR_MIN + 1 is 0, so it is sent -finalize, but then it is no longer slow, counts as one
  -- owner and those that -finalize adds, fewer than 2 ^ 62, and can be sent -finalize again.
  pub perform_finalize-slow :
      (l : List Call)
      → perform_finalize ms [] (record { retaincount_1 = slow_release; log = l })
        ≡ encode (alive (extra + 1) false (finalize ∷ l))
  unfolding perform_finalize
  perform_finalize-slow l =
      plain.finalizes (count_as (finalize ∷ l) 0) ∙ ap (count_as (finalize ∷ l)) (omega arith)
