-- ===== src/Retain/Threads/Safety.antt =====
-- Whatever the interleaving, an object is taken down once, after its last owner has let go.
use mulle_objc_runtime.Prelude.{
  ℕ, zero, suc, ◌-◌, ◌^◌, ◌≤◌, ◌≡◌, ◌⊎◌, inl, inr, refl, arith, List, [], ◌∷◌,
}
use mulle_objc_runtime.Retain.{Call, Object, Methods, finalize, dealloc}
use mulle_objc_runtime.Retain.Lifecycle.{Plain}
use mulle_objc_runtime.Retain.Threads.{
  Pc, resting, incrementing, decrementing, trying, finalizing, rereading, deallocating, saw, seen,
  Threads, Steps, start, later,
}
use mulle_objc_runtime.Retain.Threads.Sums.{sum_of-pos, sum_of-zero}
use mulle_objc_runtime.Retain.Threads.Invariant.{ending, IsAt, owners, enders, Inv}
use mulle_objc_runtime.Retain.Threads.Moves.{Step-Inv}

-- An object that was not finalized, with as many owners as the header says, before any thread does
-- something to it.
pub record IsFresh (n : ℕ) (s : Threads) : Type 0 where
  pub owned_by : 1 ≤ owners n s
  pub few : owners n s ≤ 2 ^ 62
  pub counted : s.object.retaincount_1 ≡ owners n s - 1
  pub nothing_sent : s.object.log ≡ []
  pub all_resting : (i : ℕ) → s.pc i ≡ resting

-- There are never more than 2 ^ 62 owners.
abbrev pub AllFew : {ms : Methods} {n : ℕ} {s t : Threads} → Steps ms n s t → Type 0
AllFew start = Unit {0}
AllFew {n = n} (later {u = u} r st) = AllFew r × (owners n u ≤ 2 ^ 62)

-- What was sent to an object with so many owners and so many threads that take it down.
abbrev pub Sent : ℕ → ℕ → List Call → Type 0
Sent (suc k) e l = l ≡ []
Sent zero (suc e) l = (l ≡ []) ⊎ (l ≡ finalize ∷ [])
Sent zero zero l = l ≡ dealloc ∷ finalize ∷ []

fresh-Inv : (n : ℕ) (s : Threads) → IsFresh n s → Inv n s
fresh-Inv n s f =
    let none_ends : enders n s ≡ 0 = sum_of-zero ending n s.pc (λ i. rw (f.all_resting i) refl) in
    record {
      few = f.few;
      living = λ h. (f.counted, f.nothing_sent, none_ends);
      one_ends = omega arith;
      over = λ h e. absurd (omega (arith, f.owned_by));
      at = λ i lt. rw (f.all_resting i) tt;
      owns = λ i lt. rw (f.all_resting i) tt;
    }

steps-Inv :
    {ms : Methods} {n : ℕ} {s t : Threads}
    → Plain 0 ms
    → (r : Steps ms n s t) → AllFew r
    → Inv n s
    → Inv n t
steps-Inv plain start few inv = inv
steps-Inv plain (later r st) few inv = Step-Inv plain st few.1 (steps-Inv plain r few.0 inv)

ending-Sent :
    (o : Object) (p : Pc) → 1 ≤ ending p → IsAt o p → (o.log ≡ []) ⊎ (o.log ≡ finalize ∷ [])
ending-Sent o resting h a = absurd (omega arith)
ending-Sent o incrementing h a = absurd (omega arith)
ending-Sent o decrementing h a = absurd (omega arith)
ending-Sent o trying h a = inl a.1
ending-Sent o (saw v) h a = inl a.2
ending-Sent o finalizing h a = inl a.1
ending-Sent o rereading h a = inr a.1
ending-Sent o (seen v) h a = inr a.2
ending-Sent o deallocating h a = inr a.1

Inv-Sent :
    (n k e : ℕ) (s : Threads) → Inv n s → owners n s ≡ k → enders n s ≡ e → Sent k e s.object.log
Inv-Sent n (suc k) e s inv p q = (inv.living (omega arith)).1
Inv-Sent n zero (suc e) s inv p q =
    let (i, lt, h) = sum_of-pos ending n s.pc (omega arith) in
    ending-Sent s.object (s.pc i) h (inv.at i lt)
Inv-Sent n zero zero s inv p q = (inv.over p q).1

-- However the retains and releases of the threads interleave, an object that was not finalized is
-- sent nothing as long as it has an owner. When it has none, one thread at most takes it down, and
-- afterwards it was sent -finalize and -dealloc, once each and in this order. It is asked that
-- each retain or release is made by an owner, that there are never more than 2 ^ 62 owners, that
-- -finalize and -dealloc leave the header alone, and that the atomic decrement returns what it
-- found.
pub interleaved-Sent :
    {ms : Methods} {n : ℕ} {s t : Threads}
    → Plain 0 ms
    → IsFresh n s
    → (r : Steps ms n s t) → AllFew r
    → (enders n t ≤ 1) × Sent (owners n t) (enders n t) t.object.log
interleaved-Sent {ms} {n} {s} {t} plain fresh r few =
    let inv = steps-Inv plain r few (fresh-Inv n s fresh) in
    (inv.one_ends, Inv-Sent n (owners n t) (enders n t) t inv refl refl)
