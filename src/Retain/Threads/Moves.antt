-- ===== src/Retain/Threads/Moves.antt =====
-- Each step keeps what the header holds.
use mulle_objc_runtime.Prelude.{
  ℕ, ◌+◌, ◌-◌, ◌^◌, ◌≤◌, ◌<◌, ◌≡◌, arith, false, [], ◌∷◌, ◌==◌, inl, inr, Bool-cases,
}
use mulle_objc_runtime.Retain.{Object, Methods, finalize, dealloc, minus_one}
use mulle_objc_runtime.Retain.Lifecycle.{Plain}
use mulle_objc_runtime.Retain.Threads.{
  Pc, resting, incrementing, decrementing, trying, finalizing, rereading, deallocating, saw, seen,
  Move, read_retain, increment, read_release, decrement, read_first, mark_finalized, not_last,
  call_finalize, read_again, mark_deallocated, still_owned, call_dealloc, set_at, Threads, Step,
  pick,
}
use mulle_objc_runtime.Retain.Threads.Sums.{sum_of, sum_of-set_at, le-sum_of}
use mulle_objc_runtime.Retain.Threads.Invariant.{ending, IsAt, Owns, owners, enders, Inv}

module _ {ms : Methods} (plain : Plain 0 ms) {n : ℕ} {s : Threads} (inv : Inv n s) (i : ℕ)
    (lt : i < n) where
  -- The thread `i`, which owned `k` and was at `p`, owns `k'` and is at `p'`; `N` and `E` are the
  -- owners and those that end the object, before and after.
  record Mover (k : ℕ) (p : Pc) (k' : ℕ) (p' : Pc) (N E N' E' : ℕ) : Type 0 where
    here : IsAt s.object p
    own : Owns k p
    owners_count : N' + k ≡ N + k'
    enders_count : E' + ending p ≡ E + ending p'
    owned_le : k ≤ N
    ending_le : ending p ≤ E
    room : N' ≤ 2 ^ 62
    living : 1 ≤ N → (s.object.retaincount_1 ≡ N - 1) × (s.object.log ≡ []) × (E ≡ 0)
    one_ends : E ≤ 1
    over :
        N ≡ 0
        → E ≡ 0
        → (s.object.retaincount_1 ≡ minus_one) × (s.object.log ≡ dealloc ∷ finalize ∷ [])

  -- What is kept of the counts and for the thread itself.
  record Kept (o : Object) (k : ℕ) (p : Pc) (N E : ℕ) : Type 0 where
    living : 1 ≤ N → (o.retaincount_1 ≡ N - 1) × (o.log ≡ []) × (E ≡ 0)
    one_ends : E ≤ 1
    over : N ≡ 0 → E ≡ 0 → (o.retaincount_1 ≡ minus_one) × (o.log ≡ dealloc ∷ finalize ∷ [])
    here : IsAt o p
    own : Owns k p

  Move-Kept :
      {o : Object} {k k' : ℕ} {p p' : Pc} {N E N' E' : ℕ}
      → Move ms s.object k p o k' p'
      → Mover k p k' p' N E N' E'
      → Kept o k' p' N' E'
  Move-Kept (read_retain own r) m = ground arith
  Move-Kept increment m = ground arith
  Move-Kept (read_release own r) m = ground arith
  Move-Kept decrement m = ground (arith, plain.decrements s.object.retaincount_1)
  Move-Kept read_first m = ground arith
  Move-Kept (mark_finalized e) m = ground arith
  Move-Kept (not_last e) m = ground arith
  Move-Kept call_finalize m =
      rw (plain.finalizes (record s.object { log = finalize ∷ s.object.log })) (ground arith)
  Move-Kept read_again m = ground arith
  Move-Kept (mark_deallocated e) m = ground arith
  Move-Kept (still_owned e) m = ground arith
  Move-Kept call_dealloc m =
      rw (plain.deallocs (record s.object { log = dealloc ∷ s.object.log })) (ground arith)

  not_ending-IsAt : (o : Object) (q : Pc) → ending q ≡ 0 → IsAt o q
  not_ending-IsAt o resting e = tt
  not_ending-IsAt o incrementing e = tt
  not_ending-IsAt o decrementing e = tt
  not_ending-IsAt o trying e = absurd (omega arith)
  not_ending-IsAt o (saw v) e = absurd (omega arith)
  not_ending-IsAt o finalizing e = absurd (omega arith)
  not_ending-IsAt o rereading e = absurd (omega arith)
  not_ending-IsAt o (seen v) e = absurd (omega arith)
  not_ending-IsAt o deallocating e = absurd (omega arith)

  -- Another thread does not notice: a step that changes the header is made while no other thread
  -- takes the object down.
  Move-IsAt :
      {o : Object} {k k' : ℕ} {p p' : Pc} {N E N' E' : ℕ} (q : Pc)
      → Move ms s.object k p o k' p'
      → Mover k p k' p' N E N' E'
      → ending q + ending p ≤ E
      → IsAt s.object q
      → IsAt o q
  Move-IsAt q (read_retain own r) m e a = a
  Move-IsAt q increment m e a = not_ending-IsAt _ q (ground arith)
  Move-IsAt q (read_release own r) m e a = a
  Move-IsAt q decrement m e a = not_ending-IsAt _ q (ground arith)
  Move-IsAt q read_first m e a = a
  Move-IsAt q (mark_finalized v) m e a = not_ending-IsAt _ q (ground arith)
  Move-IsAt q (not_last v) m e a = a
  Move-IsAt q call_finalize m e a = not_ending-IsAt _ q (ground arith)
  Move-IsAt q read_again m e a = a
  Move-IsAt q (mark_deallocated v) m e a = not_ending-IsAt _ q (ground arith)
  Move-IsAt q (still_owned v) m e a = a
  Move-IsAt q call_dealloc m e a = not_ending-IsAt _ q (ground arith)

  mover :
      (k' : ℕ) (p' : Pc)
      → sum_of (λ k. k) n (set_at s.owned i k') ≤ 2 ^ 62
      → Mover
          (s.owned i)
          (s.pc i)
          k'
          p'
          (owners n s)
          (enders n s)
          (sum_of (λ k. k) n (set_at s.owned i k'))
          (sum_of ending n (set_at s.pc i p'))
  mover k' p' room = record {
    here = inv.at i lt;
    own = inv.owns i lt;
    owners_count = sum_of-set_at (λ k. k) n s.owned i k' lt;
    enders_count = sum_of-set_at ending n s.pc i p' lt;
    owned_le = le-sum_of (λ k. k) n s.owned i lt;
    ending_le = le-sum_of ending n s.pc i lt;
    room = room;
    living = inv.living;
    one_ends = inv.one_ends;
    over = inv.over;
  }

  -- Two threads that take the object down would both count.
  two_enders : (j : ℕ) → j < n → (j == i) ≡ false → ending (s.pc j) + ending (s.pc i) ≤ enders n s
  two_enders j lt' ne =
      let without = sum_of-set_at ending n s.pc i resting lt in
      let other = le-sum_of ending n (set_at s.pc i resting) j lt' in ground (arith, without, other)

  Move-Inv :
      {o : Object} {k : ℕ} {p : Pc}
      → Move ms s.object (s.owned i) (s.pc i) o k p
      → sum_of (λ k. k) n (set_at s.owned i k) ≤ 2 ^ 62
      → Inv n (record { object = o; owned = set_at s.owned i k; pc = set_at s.pc i p })
  Move-Inv {o} {k} {p} mv room =
      let m = mover k p room in
      let kept = Move-Kept mv m in
      record {
        few = room;
        living = kept.living;
        one_ends = kept.one_ends;
        over = kept.over;
        at = λ j lt'. elim (Bool-cases (j == i)) [
          | inl e ↦ rw e kept.here
          | inr e ↦ rw e (Move-IsAt (s.pc j) mv m (two_enders j lt' e) (inv.at j lt'))
        ];
        owns = λ j lt'. elim (Bool-cases (j == i)) [
          | inl e ↦ rw e kept.own
          | inr e ↦ rw e (inv.owns j lt')
        ];
      }

-- Every step keeps the invariant, as long as there are at most 2 ^ 62 owners.
pub Step-Inv :
    {ms : Methods} {n : ℕ} {s t : Threads}
    → Plain 0 ms
    → Step ms n s t
    → owners n t ≤ 2 ^ 62
    → Inv n s
    → Inv n t
Step-Inv plain (pick i lt mv) room inv = Move-Inv plain inv i lt mv room
