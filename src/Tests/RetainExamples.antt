-- ===== src/Tests/RetainExamples.antt =====
-- Runs of the reference counting, and the theorems on it applied.
use mulle_objc_runtime.Prelude.{
  ℕ, ◌+◌, ◌-◌, ◌%◌, ◌^◌, ◌≤◌, ◌≡◌, refl, true, false, arith, List, [], ◌∷◌,
}
use mulle_objc_runtime.Taggedpointer.{bits64, get_index}
use mulle_objc_runtime.Retain.{
  finalize, dealloc, Methods, slow_release, perform_finalize, release_inline,
  decrement_retaincount_waszero, tryfinalizetrydealloc, try_finalize, try_dealloc,
  increment_retaincount, get_retaincount, is_finalized, constantify, is_constant,
}
use mulle_objc_runtime.Retain.Lifecycle.{
  Plain, Op, up, down, life, alive, dead, encode, perform_all, perform_all-life,
  get_retaincount-owners, AllInRange,
}
use mulle_objc_runtime.Retain.Once.{finalized_at_most_once, times}
use mulle_objc_runtime.Retain.Finalize.{at_exchange, perform_finalize-alive, perform_finalize-slow}
use mulle_objc_runtime.Retain.Threads.{
  resting, read_release, decrement, Threads, pick, Steps, start, later,
}
use mulle_objc_runtime.Retain.Threads.Sums.{sum_of}
use mulle_objc_runtime.Retain.Threads.Invariant.{owners, enders}
use mulle_objc_runtime.Retain.Threads.Safety.{IsFresh, AllFew, Sent, interleaved-Sent}
use mulle_objc_runtime.Retain.Threads.Race.{shared, deallocated_twice}

abbrev reviving : ℕ → Methods
reviving extra = record {
  finalize = λ o. record o { retaincount_1 = (o.retaincount_1 + extra) % 2 ^ 64 };
  dealloc = λ o. o;
  retain = λ o. o;
  release = λ o. o;
  retain_count = λ o. 1;
  decrement = λ rc. rc;
}

reviving-Plain : (extra : ℕ) → Plain extra (reviving extra)
reviving-Plain extra = record {
  finalizes = λ o. refl;
  deallocs = λ o. refl;
  decrements = λ rc. refl;
}

-- Retained once, released three times: the second release finalizes, which revives it once.
abbrev history : List Op
history = up ∷ down ∷ down ∷ down ∷ []

ends_dead :
    perform_all (reviving 1) 4096 history (encode (alive 1 false []))
    ≡ encode (dead (dealloc ∷ finalize ∷ []))
unfolding increment_retaincount release_inline decrement_retaincount_waszero tryfinalizetrydealloc
    try_finalize try_dealloc get_index
ends_dead = refl

history-AllInRange : AllInRange 1 history (alive 1 false [])
history-AllInRange =
    let both : (1 ≤ 1) × (1 ≤ 2 ^ 62) = (omega arith, omega arith) in
    (both, ((omega arith, omega arith), (both, (both, _))))

aligned : get_index bits64 4096 ≡ 0
unfolding get_index
aligned = refl

perform_all-life_example :
    perform_all (reviving 1) 4096 history (encode (alive 1 false []))
    ≡ encode (life 1 history (alive 1 false []))
perform_all-life_example =
    perform_all-life (reviving-Plain 1) (omega arith) 4096 aligned history (alive 1 false [])
      history-AllInRange

finalized_at_most_once_example :
    let o = perform_all (reviving 1) 4096 history (encode (alive 1 false [])) in
    (times finalize o.log ≤ 1) × (times dealloc o.log ≤ times finalize o.log)
finalized_at_most_once_example =
    finalized_at_most_once 4096 1 history (reviving-Plain 1) (omega arith) aligned
      history-AllInRange

get_retaincount-owners_example :
    (get_retaincount (reviving 1) 4096 (encode (alive 3 true [])) ≡ 3)
    × (is_finalized (encode (alive 3 true [])) ≡ true)
get_retaincount-owners_example =
    get_retaincount-owners (reviving-Plain 1) (omega arith) 4096 aligned 3 true []
      (omega arith, omega arith)

perform_finalize-alive_example :
    (1 ≤ at_exchange ((λ rc. 6) ∷ []) 3)
    × (perform_finalize (reviving 2) ((λ rc. 6) ∷ []) (encode (alive 3 false []))
        ≡ encode (alive (at_exchange ((λ rc. 6) ∷ []) 3 + 2) true (finalize ∷ [])))
perform_finalize-alive_example =
    perform_finalize-alive (reviving-Plain 2) (omega arith) ((λ rc. 6) ∷ []) 3 [] (omega arith)
      (omega arith) ((λ rc. omega arith), _)

perform_finalize-slow_example :
    perform_finalize (reviving 2) [] (record { retaincount_1 = slow_release; log = [] })
    ≡ encode (alive 3 false (finalize ∷ []))
perform_finalize-slow_example = perform_finalize-slow (reviving-Plain 2) (omega arith) []

constantified :
    (is_constant 4096 (constantify 4096 (encode (alive 3 false []))) ≡ true)
    × (get_retaincount (reviving 1) 4096 (constantify 4096 (encode (alive 3 false [])))
        ≡ 2 ^ 63 - 2)
unfolding is_constant constantify get_retaincount get_index
constantified = (refl, refl)

-- Two threads with an owner each.
abbrev two_owners : Threads
two_owners = record { object = encode (alive 2 false []); owned = λ i. 1; pc = λ i. resting }

-- Both check the count, and then both decrement it: the second one has to take the object down.
abbrev both_release : (t : Threads) × Steps (reviving 0) 2 two_owners t
both_release = (
  _,
  later
      (later
        (later (later start (pick 0 (omega arith) (read_release (omega arith) refl)))
          (pick 1 (omega arith) (read_release (omega arith) refl)))
        (pick 0 (omega arith) decrement))
      (pick 1 (omega arith) decrement),
)

two_owners-IsFresh : IsFresh 2 two_owners
unfolding sum_of
two_owners-IsFresh = record {
  owned_by = omega arith;
  few = omega arith;
  counted = refl;
  nothing_sent = refl;
  all_resting = λ i. refl;
}

both_release-AllFew : AllFew both_release.1
unfolding sum_of
both_release-AllFew = ground arith

interleaved-Sent_example :
    (enders 2 both_release.0 ≤ 1)
    × Sent (owners 2 both_release.0) (enders 2 both_release.0) both_release.0.object.log
interleaved-Sent_example =
    interleaved-Sent (reviving-Plain 0) two_owners-IsFresh both_release.1 both_release-AllFew

deallocated_twice_example :
    (t : Threads) × Steps (reviving 0) 2 (shared (finalize ∷ [])) t
    × (t.object.log ≡ dealloc ∷ dealloc ∷ finalize ∷ [])
deallocated_twice_example = deallocated_twice (reviving-Plain 0) (finalize ∷ [])
