-- ===== src/Propertylist/Signatures.antt =====
-- Traversing the attributes of a property's signature.
use mulle_objc_runtime.Prelude.{
  ℕ, zero, suc, ◌<◌, ◌≢◌, ◌∙◌, ap, sym, arith, length, false, ◌||◌, map_option, ne→==-false,
  Option-cases, ◌≡◌, refl, inl, inr, Bool, true, ◌&&◌, Option, none, some, List, [], ◌∷◌, ◌==◌,
  if◌then◌else◌, Bool-cases,
}
use mulle_objc_runtime.Propertylist.{strchr, char_at, next_types, signature_find_type}

-- What follows each comma of a string, up to the end of the string, if it passes the test.
abbrev pub after_commas : (List ℕ → Bool) → List ℕ → List (List ℕ)
after_commas t [] = []
after_commas t (c ∷ s) = if c == 0x2c && t s then s ∷ after_commas t s else after_commas t s

-- The attributes from a result on.
abbrev pub from_result : (List ℕ → Bool) → Option (List ℕ) → List (List ℕ)
from_result t none = []
from_result t (some r) = r ∷ after_commas t r

-- Calling next_types on its own result visits what follows each comma and begins with one of the
-- types, all of it and in order, and returns NULL after the last one.
pub next_types-after_commas :
    (types s : List ℕ)
    → after_commas (λ r. strchr types (char_at r)) s
      ≡ from_result (λ r. strchr types (char_at r)) (next_types s types)
unfolding next_types
next_types-after_commas types [] = refl
next_types-after_commas types (c ∷ s) = elim (Bool-cases (c == 0x2c && strchr types (char_at s))) [
  | inl hit ↦ rw hit
  | inr other ↦ rw other (next_types-after_commas types s)
]

-- The same of a single type.
pub signature_find_type-after_commas :
    (type : ℕ) (s : List ℕ)
    → after_commas (λ r. char_at r == type) s
      ≡ from_result (λ r. char_at r == type) (signature_find_type s type)
unfolding signature_find_type
signature_find_type-after_commas type [] = refl
signature_find_type-after_commas type (c ∷ s) = elim (Bool-cases (c == 0x2c && char_at s == type)) [
  | inl hit ↦ rw hit
  | inr other ↦ rw other (signature_find_type-after_commas type s)
]

-- What follows each comma.
unfoldable pub attributes : List ℕ → List (List ℕ)
attributes [] = []
attributes (c ∷ s) = let rest = attributes s in if c == 0x2c then s ∷ rest else rest

abbrev one_of : ℕ → List ℕ → Bool
one_of c [] = false
one_of c (d ∷ types) = d == c || one_of c types

-- An attribute counts if it begins with one of the types, and also if nothing follows the comma.
unfoldable pub counts : List ℕ → List ℕ → Bool
counts types [] = true
counts types (c ∷ s) = one_of c types

unfoldable pub counting : List ℕ → List (List ℕ) → List (List ℕ)
unfolding counts
counting types [] = []
counting types (r ∷ rs) = let rest = counting types rs in if counts types r then r ∷ rest else rest

-- A loop that calls next_types on its own result until that is NULL.
abbrev visit : Option (List ℕ) → (List ℕ → Option (List (List ℕ))) → Option (List (List ℕ))
visit none loop = some []
visit (some r) loop = map_option (λ rs. r ∷ rs) (loop r)

unfoldable pub visited : ℕ → List ℕ → List ℕ → Option (List (List ℕ))
visited zero types s = none
visited (suc fuel) types s = visit (next_types s types) (λ r. visited fuel types r)

-- A C string has no NUL before its end.
abbrev pub WithoutNul : List ℕ → Type 0
WithoutNul [] = Unit
WithoutNul (c ∷ s) = (c ≢ 0) × WithoutNul s

strchr-nul : (types : List ℕ) → strchr types 0 ≡ true
unfolding strchr
strchr-nul [] = refl
strchr-nul (c ∷ types) = elim (Bool-cases (c == 0)) [
  | inl hit ↦ rw hit
  | inr other ↦ rw other (strchr-nul types)
]

strchr-one_of : (c : ℕ) (types : List ℕ) → c ≢ 0 → strchr types c ≡ one_of c types
unfolding strchr
strchr-one_of c [] h = ne→==-false c 0 h
strchr-one_of c (d ∷ types) h = rw (strchr-one_of c types h) refl

strchr-counts : (types r : List ℕ) → WithoutNul r → strchr types (char_at r) ≡ counts types r
unfolding counts strchr
strchr-counts types [] h = strchr-nul types
strchr-counts types (c ∷ r) h = strchr-one_of c types h.0

after_commas-counting :
    (types s : List ℕ)
    → WithoutNul s
    → after_commas (λ r. strchr types (char_at r)) s ≡ counting types (attributes s)
unfolding counting attributes
after_commas-counting types [] h = refl
after_commas-counting types (c ∷ s) h = elim (Bool-cases (c == 0x2c)) [
  | inl comma ↦ rw (comma, strchr-counts types s h.1, after_commas-counting types s h.1) refl
  | inr other ↦ rw other (after_commas-counting types s h.1)
]

-- A result is a part of the signature.
next_types-part :
    (types s r : List ℕ)
    → WithoutNul s
    → next_types s types ≡ some r
    → (length r < length s) × WithoutNul r
unfolding next_types
next_types-part types [] r h e = cc
next_types-part types (c ∷ s) r h e = elim (Bool-cases (c == 0x2c && strchr types (char_at s))) [
  | inl hit ↦
      let found : some s ≡ some r = sym (rw hit) ∙ e in
      let same : s ≡ r = cc in rw (sym same) (omega arith, h.1)
  | inr other ↦
      let (shorter, nul) = next_types-part types s r h.1 (sym (rw other) ∙ e) in (omega arith, nul)
]

-- Whoever calls `_mulle_objc_propertysignature_next_types` on its own result until it is NULL, visits
-- exactly the attributes of the signature (what follows a comma) that begin with one of the types,
-- in order, and one that is not asked for: if the signature ends in a comma, the empty string behind
-- it counts as an attribute of any type, since strchr finds the NUL that terminates `types`. The
-- loop ends within one round more than the signature has bytes, none of which is NUL.
pub next_types-visited :
    (fuel : ℕ) (types s : List ℕ)
    → length s < fuel
    → WithoutNul s
    → visited fuel types s ≡ some (counting types (attributes s))
unfolding visited
next_types-visited zero types s l h = absurd (omega arith)
next_types-visited (suc fuel) types s l h = elim (Option-cases (next_types s types)) [
  | inl e ↦
      let none_left : counting types (attributes s) ≡ [] =
        sym (after_commas-counting types s h) ∙ next_types-after_commas types s ∙ rw e in
      ap (λ o. visit o (visited fuel types)) e ∙ ap some (sym none_left)
  | inr (r, e) ↦
      let (shorter, nul) = next_types-part types s r h e in
      let rest = next_types-visited fuel types r (omega arith) nul in
      let all : counting types (attributes s) ≡ r ∷ counting types (attributes r) =
        sym (after_commas-counting types s h)
        ∙ next_types-after_commas types s
        ∙ ap (from_result (λ t. strchr types (char_at t))) e
        ∙ ap (λ rs. r ∷ rs) (after_commas-counting types r nul) in
      ap (λ o. visit o (visited fuel types)) e
      ∙ ap (map_option (λ rs. r ∷ rs)) rest
      ∙ ap some (sym all)
]
