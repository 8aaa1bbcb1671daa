-- ===== src/Load/Waiting.antt =====
-- No class or category is left behind in a wait queue: whatever waits for a class misses it.
use mulle_objc_runtime.Prelude.{
  ℕ, ◌≡◌, ◌≢◌, ◌∙◌, ◌⊎◌, inl, inr, refl, sym, ap, subst, Bool, true, false, Option, some, List, [],
  ◌∷◌, ◌++◌, ◌==◌, eq→==, ne→==-false, ==_iff, Bool-cases,
}
use mulle_objc_runtime.Load.{
  Infraclass, Loadclass, Loadcategory, Universe, Outcome, loaded, failed, out_of_fuel,
  waitqueue_hash, loadclass_fulfill_dependencies, loadcategory_fulfill_dependencies,
}
use mulle_objc_runtime.Load.Enqueue.{remove_list, and_then, map_list, put}
use mulle_objc_runtime.Load.Missing.{IsKeyed, Extends, Grows, Misses}
use mulle_objc_runtime.Load.Stable.{category-Misses, class-Misses}

abbrev pub AllOf {ℓ} : {A : Type ℓ} → (A → Type 0) → List A → Type 0
AllOf P [] = Unit
AllOf P (x ∷ xs) = P x × AllOf P xs

pub AllOf-append {ℓ} :
    {A : Type ℓ} (P : A → Type 0) (xs : List A) (y : A) → AllOf P xs → P y → AllOf P (xs ++ y ∷ [])
AllOf-append P [] y a p = (p, tt)
AllOf-append P (x ∷ xs) y a p = (a.0, AllOf-append P xs y a.1 p)

pub AllOf-weaken {ℓ} :
    {A : Type ℓ} (P Q : A → Type 0) (xs : List A) → ((x : A) → P x → Q x) → AllOf P xs → AllOf Q xs
AllOf-weaken P Q [] w a = tt
AllOf-weaken P Q (x ∷ xs) w a = (w x a.0, AllOf-weaken P Q xs w a.1)

pub AllOf-remove_list {ℓ} :
    {A : Type ℓ} (P Q : ℕ × A → Type 0) (h : ℕ) (xs : List (ℕ × A))
    → ((k : ℕ) (x : A) → k ≢ h → P (k, x) → Q (k, x))
    → AllOf P xs
    → AllOf Q (remove_list h xs)
unfolding remove_list
AllOf-remove_list P Q h [] w a = tt
AllOf-remove_list P Q h ((k, x) ∷ xs) w a =
    let rest = AllOf-remove_list P Q h xs w a.1 in
    elim (Bool-cases (k == h)) [
      | inl e ↦ rw e rest
      | inr e ↦ rw e (w k x (λ q. true-ne-false (sym (eq→== k h q) ∙ e)) a.0, rest)
    ]
  where
    true-ne-false : true ≢ false
    true-ne-false e = cc

-- What holds if the process goes on.
abbrev pub Holds : (Universe → Type 0) → Outcome → Type 0
Holds P (loaded u) = P u
Holds P failed = Unit
Holds P out_of_fuel = Unit

pub and_then-Holds :
    (P Q : Universe → Type 0) (o : Outcome) (next : Universe → Outcome)
    → Holds P o
    → ((u : Universe) → P u → Holds Q (next u))
    → Holds Q (and_then o next)
unfolding and_then
and_then-Holds P Q (loaded u) next h k = k u h
and_then-Holds P Q failed next h k = tt
and_then-Holds P Q out_of_fuel next h k = tt

pub map_list-Holds {ℓ} :
    {A : Type ℓ} (P : Universe → Type 0) (f : A → Universe → Outcome) (xs : List A) (u : Universe)
    → ((x : A) (u : Universe) → P u → Holds P (f x u))
    → P u
    → Holds P (map_list f xs u)
unfolding map_list
map_list-Holds P f [] u k p = p
map_list-Holds P f (x ∷ xs) u k p =
    and_then-Holds P P (f x u) (map_list f xs) (k x u p) (λ v q. map_list-Holds P f xs v k q)

pub put-at :
    (c : ℕ) (i : Infraclass) (cs : ℕ → Option Infraclass) (id : ℕ)
    → (id == c) ≡ true
    → put c i cs id ≡ some i
unfolding put
put-at c i cs id e = rw e refl

put-beside :
    (c : ℕ) (i : Infraclass) (cs : ℕ → Option Infraclass) (id : ℕ)
    → (id == c) ≡ false
    → put c i cs id ≡ cs id
unfolding put
put-beside c i cs id e = rw e refl

pub put-Grows :
    (c : ℕ) (i : Infraclass) (cs : ℕ → Option Infraclass)
    → ((j : Infraclass) → cs c ≡ some j → Extends j i)
    → Grows (waitqueue_hash c) cs (put c i cs)
put-Grows c i cs x = record {
  others = λ id ne. put-beside c i cs id (ne→==-false id c (λ q. ne (ap waitqueue_hash q)));
  kept = λ id j e. elim (Bool-cases (id == c)) [
    | inl q ↦ (i, put-at c i cs id q, x j (sym (ap cs ((==_iff id c).0 q)) ∙ e))
    | inr q ↦ (
      j,
      put-beside c i cs id q ∙ e,
      record {
        same_classid = refl;
        name_kept = refl;
        ivarhash_kept = refl;
        categories_kept = λ y h. h;
      },
    )
  ];
}

put-IsKeyed :
    (c : ℕ) (i : Infraclass) (cs : ℕ → Option Infraclass)
    → i.classid ≡ c
    → IsKeyed cs
    → IsKeyed (put c i cs)
put-IsKeyed c i cs own keyed id j e = elim (Bool-cases (id == c)) [
  | inl q ↦
      ap (λ (a : Infraclass). a.classid) (some_injective j i (sym e ∙ put-at c i cs id q))
      ∙ (own ∙ sym ((==_iff id c).0 q))
  | inr q ↦ keyed id j (sym (put-beside c i cs id q) ∙ e)
]
  where
    some_injective : (a b : Infraclass) → some a ≡ some b → a ≡ b
    some_injective a b e = cc

module _ (ignore : Bool) where
  -- Each entry is filed under the hash of the class that it misses; only entries under the hashes of
  -- `Open` need not be.
  pub record Waits (Open : ℕ → Type 0) (u : Universe) : Type 0 where
    pub keyed : IsKeyed u.classes
    pub categories :
        AllOf
          (λ (e : ℕ × Loadcategory). Misses (loadcategory_fulfill_dependencies u.classes e.1) e.0)
          u.categoriestoload
    pub loadclasses :
        AllOf
          (λ (e : ℕ × Loadclass).
            Open e.0 ⊎ Misses (loadclass_fulfill_dependencies ignore u.classes e.1) e.0)
          u.classestoload

  -- After a class with the hash `h` has changed.
  pub record Changed (h : ℕ) (Open : ℕ → Type 0) (u : Universe) : Type 0 where
    pub keyed : IsKeyed u.classes
    pub categories :
        AllOf
          (λ (e : ℕ × Loadcategory).
            (e.0 ≡ h) ⊎ Misses (loadcategory_fulfill_dependencies u.classes e.1) e.0)
          u.categoriestoload
    pub loadclasses :
        AllOf
          (λ (e : ℕ × Loadclass).
            (e.0 ≡ h)
            ⊎ (Open e.0 ⊎ Misses (loadclass_fulfill_dependencies ignore u.classes e.1) e.0))
          u.classestoload

  pub change :
      (Open : ℕ → Type 0) (u : Universe) (c : ℕ) (i : Infraclass) (v : Universe)
      → Waits Open u
      → i.classid ≡ c
      → ((j : Infraclass) → u.classes c ≡ some j → Extends j i)
      → v.classes ≡ put c i u.classes
      → v.classestoload ≡ u.classestoload
      → v.categoriestoload ≡ u.categoriestoload
      → Changed (waitqueue_hash c) Open v
  change Open u c i v w own x e q q' =
      let h = waitqueue_hash c in
      let g = put-Grows c i u.classes x in
      let keyed' = put-IsKeyed c i u.classes own w.keyed in
      record {
        keyed = subst IsKeyed (sym e) keyed';
        categories =
            rw (e, q')
              (AllOf-weaken _ _ u.categoriestoload
                (λ (k, info) m. elim (Bool-cases (k == h)) [
                  | inl s ↦ inl ((==_iff k h).0 s)
                  | inr s ↦ inr (
                      category-Misses u.classes (put c i u.classes) h k g (ne_of k h s) w.keyed
                        keyed' info m)
                ])
                w.categories);
        loadclasses =
            rw (e, q)
              (AllOf-weaken _ _ u.classestoload
                (λ (k, info) m. elim (Bool-cases (k == h)) [
                  | inl s ↦ inl ((==_iff k h).0 s)
                  | inr s ↦ elim m [
                    | inl o ↦ inr (inl o)
                    | inr m' ↦ inr (
                        inr (
                          class-Misses u.classes (put c i u.classes) h k g (ne_of k h s) w.keyed
                            keyed' ignore info m'))
                  ]
                ])
                w.loadclasses);
      }
    where
      ne_of : (a b : ℕ) → (a == b) ≡ false → a ≢ b
      ne_of a b s q = absurd (false-ne-true (sym s ∙ eq→== a b q))
        where
          false-ne-true : false ≢ true
          false-ne-true e = cc
