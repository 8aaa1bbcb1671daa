-- ===== src/Retain/Threads/Race.antt =====
-- An object that was finalized while it had owners can be deallocated twice.
use mulle_objc_runtime.Prelude.{
  ℕ, suc, ◌+◌, ◌%◌, ◌^◌, ◌≤◌, ◌<◌, ◌≡◌, ◌≢◌, ◌∙◌, refl, ap, subst, arith, true, List, ◌∷◌,
}
use mulle_objc_runtime.Retain.{
  Call, Object, Methods, dealloc, intptr_min, minus_one, le_signed, send,
}
use mulle_objc_runtime.Retain.Lifecycle.{Plain, alive, encode}
use mulle_objc_runtime.Retain.Threads.{
  resting, decrementing, trying, after_decrement, Move, read_release, decrement, read_first,
  not_last, mark_deallocated, call_dealloc, Threads, pick, Steps, start, later,
}

-- The object was finalized, and each of two threads owns it once.
abbrev pub shared : List Call → Threads
shared l = record { object = encode (alive 2 true l); owned = λ i. 1; pc = λ i. resting }

module _ {ms : Methods} (plain : Plain 0 ms) where
  decrement_last :
      (o : Object) (k : ℕ)
      → le_signed o.retaincount_1 0 ≡ true
      → Move ms o
          (suc k)
          decrementing
          (record o { retaincount_1 = (o.retaincount_1 + minus_one) % 2 ^ 64 })
          k
          trying
  decrement_last o k h =
      subst
        (λ b.
          Move ms o (suc k) decrementing
            (record o { retaincount_1 = (o.retaincount_1 + minus_one) % 2 ^ 64 }) k
            (after_decrement b))
        (ap (λ v. le_signed v 0) (plain.decrements o.retaincount_1) ∙ h) decrement

  two_deallocs :
      (o : Object)
      → (send dealloc ms.dealloc (send dealloc ms.dealloc o)).log ≡ dealloc ∷ dealloc ∷ o.log
  two_deallocs o =
      let first = plain.deallocs (record o { log = dealloc ∷ o.log }) in
      ap (λ (q : Object). q.log) (plain.deallocs _) ∙ ap (λ (q : Object). dealloc ∷ q.log) first

  -- An object that was finalized while it had two owners, as by
  -- `_mulle_objc_object_perform_finalize`, is sent -dealloc twice if they release it at the same
  -- time: each thread decrements the count before either reads it again, so both read that there is
  -- no owner left. So it is for every class whose -finalize and -dealloc leave the header
  -- alone, with an atomic decrement that returns what it found.
  pub deallocated_twice :
      (l : List Call)
      → (t : Threads) × Steps ms 2 (shared l) t × (t.object.log ≡ dealloc ∷ dealloc ∷ l)
  deallocated_twice l =
      let first : 0 < 2 = omega arith in
      let second : 1 < 2 = omega arith in
      let once : 1 ≤ 1 = omega arith in
      let marked : intptr_min ≢ minus_one = omega arith in
      let a = later start (pick 0 first (read_release once refl)) in
      let b = later a (pick 0 first (decrement_last _ 0 refl)) in
      let c = later b (pick 1 second (read_release once refl)) in
      let d = later c (pick 1 second (decrement_last _ 0 refl)) in
      let e = later d (pick 0 first read_first) in
      let f = later e (pick 1 second read_first) in
      let g = later f (pick 0 first (not_last marked)) in
      let h = later g (pick 1 second (not_last marked)) in
      let i = later h (pick 0 first (mark_deallocated refl)) in
      let j = later i (pick 1 second (mark_deallocated refl)) in
      let k = later j (pick 0 first call_dealloc) in
      (
        _,
        later k (pick 1 second call_dealloc),
        two_deallocs (record { retaincount_1 = minus_one; log = l }),
      )
