-- ===== src/Retain/Once.antt =====
-- How often an object is sent -finalize and -dealloc.
use mulle_objc_runtime.Prelude.{
  ℕ, ◌+◌, ◌-◌, ◌^◌, ◌≤◌, ◌≡◌, refl, Bool, true, false, arith, List, [], ◌∷◌, ◌==◌, inl, inr,
  Bool-cases, to_nat,
}
use mulle_objc_runtime.Taggedpointer.{bits64, get_index}
use mulle_objc_runtime.Retain.{Call, finalize, dealloc, retain, release, Methods}
use mulle_objc_runtime.Retain.Lifecycle.{
  Life, alive, dead, last_release, Op, up, down, life_step, life, encode, Plain, AllInRange,
  perform_all, perform_all-life,
}

abbrev pub same_call : Call → Call → Bool
same_call finalize finalize = true
same_call dealloc dealloc = true
same_call retain retain = true
same_call release release = true
same_call _ _ = false

-- How often a message was sent.
abbrev pub times : Call → List Call → ℕ
times c [] = 0
times c (d ∷ l) = to_nat (same_call c d) + times c l

abbrev Fresh : Life → Type 0
Fresh (alive n false l) = (times finalize l ≡ 0) × (times dealloc l ≡ 0)
Fresh (alive n true l) = (times finalize l ≡ 1) × (times dealloc l ≡ 0)
Fresh (dead l) = (times finalize l ≡ 1) × (times dealloc l ≡ 1)

last_release-Fresh :
    (extra n : ℕ) (f : Bool) (l : List Call) → Fresh (alive n f l) → Fresh (last_release extra f l)
last_release-Fresh extra n true l h = ground arith
last_release-Fresh extra n false l h = elim (Bool-cases (extra == 0)) [
  | inl e ↦ rw e (ground arith)
  | inr e ↦ rw e (ground arith)
]

life_step-Fresh : (extra : ℕ) (op : Op) (s : Life) → Fresh s → Fresh (life_step extra op s)
life_step-Fresh extra up (alive n false l) h = h
life_step-Fresh extra up (alive n true l) h = h
life_step-Fresh extra down (alive n f l) h = elim (Bool-cases (n == 1)) [
  | inl e ↦ rw e (last_release-Fresh extra n f l h)
  | inr e ↦ rw e (same f h)
]
  where
    same : (f : Bool) → Fresh (alive n f l) → Fresh (alive (n - 1) f l)
    same false h = h
    same true h = h
life_step-Fresh extra up (dead l) h = h
life_step-Fresh extra down (dead l) h = h

life-Fresh : (extra : ℕ) (ops : List Op) (s : Life) → Fresh s → Fresh (life extra ops s)
life-Fresh extra [] s h = h
life-Fresh extra (op ∷ ops) s h = life-Fresh extra ops _ (life_step-Fresh extra op s h)

Fresh-times :
    (s : Life)
    → Fresh s
    → (times finalize (encode s).log ≤ 1)
      × (times dealloc (encode s).log ≤ times finalize (encode s).log)
Fresh-times (alive n false l) h = omega arith
Fresh-times (alive n true l) h = omega arith
Fresh-times (dead l) h = omega arith

-- Under any sequence of retains and releases, a new object is sent -finalize at most once, and
-- -dealloc at most as often, however often -finalize brings it back to life. It is asked what the
-- life of an object asks: an owner for each message, at most 2 ^ 62 of them, a -finalize that only
-- retains, a -dealloc that leaves the header alone, and an atomic decrement that returns what it
-- found; the pointer is not tagged.
pub finalized_at_most_once :
    {extra : ℕ} {ms : Methods} (p n : ℕ) (ops : List Op)
    → Plain extra ms
    → extra ≤ 2 ^ 62
    → get_index bits64 p ≡ 0
    → AllInRange extra ops (alive n false [])
    → let o = perform_all ms p ops (encode (alive n false [])) in
      (times finalize o.log ≤ 1) × (times dealloc o.log ≤ times finalize o.log)
finalized_at_most_once {extra} p n ops plain few untagged r =
    rw (perform_all-life plain few p untagged ops (alive n false []) r)
      (Fresh-times _ (life-Fresh extra ops (alive n false []) (refl, refl)))
