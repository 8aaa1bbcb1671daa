-- ===== src/Callqueue/Order.antt =====
-- The calls are made in the order of their additions.
use mulle_objc_runtime.Prelude.{
  ◌≡◌, refl, inl, inr, Bool, not, ◌||◌, List, [], ◌∷◌, ◌++◌, ◌==◌, if◌then◌else◌, ap, ◌∙◌, sym,
  Bool-cases,
}
use mathlib.Core.List.{append-nil, append_assoc, foldl}
use mulle_objc_runtime.Uniqueid.{is_sane}
use mulle_objc_runtime.Callqueue.{
  Entry, Pointerarray, Appends, success, einval, add, walk, visit_all, done,
}

-- Whether a call is accepted.
abbrev pub accepted : Entry → Bool
accepted e = not (e.obj == 0 || e.imp == 0 || not (is_sane e.uniqueid))

abbrev pub accepted_of : List Entry → List Entry
accepted_of [] = []
accepted_of (e ∷ es) = if accepted e then e ∷ accepted_of es else accepted_of es

module _ (ops : Pointerarray) where
  -- A run of additions, whose results the caller looks at or not.
  abbrev pub add_all : List Entry → ops.Array → ops.Array
  add_all [] list = list
  add_all (e ∷ es) list = add_all es (add ops list e.obj e.uniqueid e.imp).0

module _ (ops : Pointerarray) (lawful : Appends ops) where
  add-accepted :
      (list : ops.Array) (e : Entry)
      → (ops.enumerated (add ops list e.obj e.uniqueid e.imp).0
          ≡ (if accepted e then ops.enumerated list ++ e ∷ [] else ops.enumerated list))
        × ((add ops list e.obj e.uniqueid e.imp).1 ≡ (if accepted e then success else einval))
  unfolding add
  add-accepted list e = elim (Bool-cases (e.obj == 0 || e.imp == 0 || not (is_sane e.uniqueid))) [
    | inl bad ↦ rw bad (refl, refl)
    | inr good ↦ rw good (lawful.appends list e, refl)
  ]

  add_all-enumerated :
      (es : List Entry) (list : ops.Array)
      → ops.enumerated (add_all ops es list) ≡ ops.enumerated list ++ accepted_of es
  add_all-enumerated [] list = sym (append-nil _)
  add_all-enumerated (e ∷ es) list = elim (Bool-cases (accepted e)) [
    | inl good ↦
        let more = add ops list e.obj e.uniqueid e.imp in
        let step : ops.enumerated more.0 ≡ ops.enumerated list ++ e ∷ [] =
          (add-accepted list e).0 ∙ rw good in
        add_all-enumerated es more.0
        ∙ ap (λ t. t ++ accepted_of es) step
        ∙ rw good (append_assoc (ops.enumerated list) (e ∷ []) (accepted_of es))
    | inr bad ↦
        let more = add ops list e.obj e.uniqueid e.imp in
        let step : ops.enumerated more.0 ≡ ops.enumerated list = (add-accepted list e).0 ∙ rw bad in
        add_all-enumerated es more.0 ∙ ap (λ t. t ++ accepted_of es) step ∙ rw bad
  ]

  pub visit_all-foldl :
      {S : Type 0} (call : Entry → S → S) (es : List Entry) (s : S)
      → visit_all ops call es s ≡ foldl (λ t e. call e t) s es
  unfolding visit_all
  visit_all-foldl call [] s = refl
  visit_all-foldl call (e ∷ es) s = visit_all-foldl call es (call e s)

  freed_all : (es freed : List Entry) → visit_all ops (λ e l. l ++ e ∷ []) es freed ≡ freed ++ es
  unfolding visit_all
  freed_all [] freed = sym (append-nil freed)
  freed_all (e ∷ es) freed = freed_all es (freed ++ e ∷ []) ∙ append_assoc freed (e ∷ []) es

  -- After a run of additions to a new queue, an execution or a walk makes the accepted calls, those
  -- with an object, an implementation and a sane method id, each once and in the order of their
  -- additions, and the end of the queue frees each of their entries once. Of the array it is asked
  -- that it enumerates in the order of additions.
  pub walk-add_all :
      {S : Type 0} (call : Entry → S → S) (es : List Entry) (s : S)
      → (walk ops call (add_all ops es ops.empty) s ≡ foldl (λ t e. call e t) s (accepted_of es))
        × (done ops (add_all ops es ops.empty) ≡ accepted_of es)
  unfolding walk done
  walk-add_all call es s =
      let all : ops.enumerated (add_all ops es ops.empty) ≡ accepted_of es =
        add_all-enumerated es ops.empty ∙ ap (λ t. t ++ accepted_of es) lawful.starts in
      (
        ap (λ l. visit_all ops call l s) all ∙ visit_all-foldl call (accepted_of es) s,
        ap (λ l. visit_all ops (λ e f. f ++ e ∷ []) l []) all ∙ freed_all (accepted_of es) [],
      )
