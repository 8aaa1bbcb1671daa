-- ===== src/Search/Walks.antt =====
-- What a walk does, in terms of the calls of its callback.
use mulle_objc_runtime.Prelude.{ℕ, ◌≡◌, ◌≢◌, refl, List, [], ◌∷◌, ◌++◌, eq→==, ne→==-false}
use mulle_objc_runtime.Search.{walk}

module _ {ℓ κ} {A : Type ℓ} {S : Type κ} (f : A → S → S × ℕ) where
  -- The callback is called on all of `list` in order, from the state `s`.
  abbrev pub run : List A → S → S
  run [] s = s
  run (p ∷ list) s = run list (f p s).0

  -- It returns 0 each time.
  abbrev pub Continues : List A → S → Type 0
  Continues [] s = Unit {0}
  Continues (p ∷ list) s = ((f p s).1 ≡ 0) × Continues list (f p s).0

  pub walk-Continues : (list : List A) (s : S) → Continues list s → walk f list s ≡ (run list s, 0)
  unfolding walk
  walk-Continues [] s h = refl
  walk-Continues (p ∷ list) s h = rw (eq→== _ 0 h.0) (walk-Continues list _ h.1)

  pub walk-stops :
      (before : List A) (p : A) (after : List A) (s : S)
      → Continues before s
      → (f p (run before s)).1 ≢ 0
      → walk f (before ++ p ∷ after) s ≡ f p (run before s)
  unfolding walk
  walk-stops [] p after s h stops = rw (ne→==-false _ 0 stops)
  walk-stops (q ∷ before) p after s h stops =
      rw (eq→== _ 0 h.0) (walk-stops before p after _ h.1 stops)
