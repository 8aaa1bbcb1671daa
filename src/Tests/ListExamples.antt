-- ===== src/Tests/ListExamples.antt =====
-- The theorems on the searches at short lists.
use mathlib.Core.List.Permᴰ.{swap}
use mulle_objc_runtime.Prelude.{
  ℕ, zero, suc, ◌+◌, ◌≤◌, ◌<◌, ◌≡◌, ◌≢◌, refl, inl, inr, arith, Option, none, some, List, [], ◌∷◌,
  ◌==◌, get_elem?, to_nat, map_option, ap, sym, Bool-cases, lt→ltb,
}
use mulle_objc_runtime.Search.{Sign, negative, equal, positive, compare_ids}
use mulle_objc_runtime.Search.Sorting.{Sorts}
use mulle_objc_runtime.Method.{Descriptor, Method, methodid, method_compare}
use mulle_objc_runtime.Methodlist.{Methodlist}
use mulle_objc_runtime.Methodlist as Methodlist
use mulle_objc_runtime.Methodlist.Laws.{search_method-sorted}
use mulle_objc_runtime.Ivarlist.{Ivar, Ivarlist, ivarid, ivar_compare}
use mulle_objc_runtime.Ivarlist as Ivarlist
use mulle_objc_runtime.Ivarlist.Laws.{search_smart-sort_ivar}
use mulle_objc_runtime.Propertylist.Signatures.{visited, counting, attributes, next_types-visited}

-- A sort that is good for two entries.
abbrev pub sort_two {ℓ} : {A : Type ℓ} → (A → A → Sign) → List A → List A
sort_two cmp [] = []
sort_two cmp (a ∷ []) = a ∷ []
sort_two cmp (a ∷ b ∷ l) = elim (cmp a b) [
  | negative ↦ a ∷ b ∷ l
  | equal ↦ a ∷ b ∷ l
  | positive ↦ b ∷ a ∷ l
]

abbrev key_or_zero {ℓ} : {A : Type ℓ} → (A → ℕ) → Option A → ℕ
key_or_zero key none = 0
key_or_zero key (some a) = key a

pub swapped-Sorts {ℓ} :
    {A : Type ℓ} (key : A → ℕ) (a b : A)
    → key a < key b
    → Sorts (λ p q. compare_ids (key p) (key q)) (b ∷ a ∷ []) (a ∷ b ∷ [])
swapped-Sorts {A} key a b lt = record { permutes = swap refl refl; ordered = in_order }
  where
    in_order :
        (i j : ℕ) (p q : A)
        → i < j
        → get_elem? (a ∷ b ∷ []) i ≡ some p
        → get_elem? (a ∷ b ∷ []) j ≡ some q
        → compare_ids (key p) (key q) ≢ positive
    in_order i zero p q le at at' = absurd (omega arith)
    in_order zero (suc zero) p q le at at' =
        let e : key a ≡ key p = ap (key_or_zero key) at in
        let e' : key b ≡ key q = ap (key_or_zero key) at' in
        rw (sym e, sym e', lt→ltb (key a) (key b) lt) (λ h. cc)
    in_order (suc i) (suc zero) p q le at at' = absurd (omega arith)
    in_order i (suc (suc j)) p q le at at' = cc

pub twice_at_most : (a b id : ℕ) → a ≢ b → to_nat (b == id) + (to_nat (a == id) + 0) ≤ 1
twice_at_most a b id ne = elim (Bool-cases (b == id)) [
  | inl hit ↦ ground arith
  | inr other ↦ ground arith
]

abbrev pub method : ℕ → Method
method id = record {
  descriptor = record { methodid = id; signature = 0x76 ∷ []; name = id ∷ []; bits = 0 };
  implementation = id + 1;
}

abbrev pub methodlist : Methodlist
methodlist = record { loadcategory = none; methods = method 9 ∷ method 3 ∷ [] }

search_method-sorted_example :
    map_option (λ l. Methodlist.search_method l 3) (Methodlist.sort sort_two (some methodlist))
    ≡ some (some (Methodlist.find methodlist 3))
unfolding method_compare
search_method-sorted_example =
    search_method-sorted sort_two methodlist 3 (λ id. twice_at_most 3 9 id (omega arith))
      (swapped-Sorts methodid (method 3) (method 9) (omega arith))

abbrev ivar : ℕ → Ivar
ivar id = record { ivarid = id; name = id ∷ []; signature = 0x69 ∷ []; offset = 8 }

abbrev ivarlist : Ivarlist
ivarlist = record { ivars = ivar 9 ∷ ivar 3 ∷ [] }

search_smart-sort_ivar_example :
    map_option (λ l. Ivarlist.search_smart l 3) (Ivarlist.sort sort_two (some ivarlist))
    ≡ some (some (Ivarlist.find ivarlist 3))
unfolding ivar_compare
search_smart-sort_ivar_example =
    search_smart-sort_ivar sort_two ivarlist 3 (λ id. twice_at_most 3 9 id (omega arith))
      (swapped-Sorts ivarid (ivar 3) (ivar 9) (omega arith))

-- "Ti,C," has an attribute of type "C", and an empty one behind the last comma.
next_types-visited_example :
    visited 6 (0x43 ∷ []) (0x54 ∷ 0x69 ∷ 0x2c ∷ 0x43 ∷ 0x2c ∷ [])
    ≡ some (counting (0x43 ∷ []) (attributes (0x54 ∷ 0x69 ∷ 0x2c ∷ 0x43 ∷ 0x2c ∷ [])))
next_types-visited_example =
    next_types-visited 6 (0x43 ∷ []) (0x54 ∷ 0x69 ∷ 0x2c ∷ 0x43 ∷ 0x2c ∷ []) (omega arith)
      (omega arith, (omega arith, (omega arith, (omega arith, (omega arith, tt)))))

abbrev descriptor : ℕ → Descriptor
descriptor bits = record {
  methodid = 77;
  signature = 0x76 ∷ [];
  name = 0x61 ∷ 0x3a ∷ [];
  bits = bits;
}

-- A callback that counts, and stops at methodid 9.
abbrev count_to_nine : Method → Methodlist → ℕ → ℕ × ℕ
count_to_nine m list n = (n + 1, to_nat (methodid m == 9))

abbrev three_methods : Methodlist
three_methods = record { loadcategory = none; methods = method 3 ∷ method 9 ∷ method 12 ∷ [] }
