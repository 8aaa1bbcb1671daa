-- ===== src/Uniqueid/Rotation.antt =====
-- The rotation of the hash keeps all its bits.
use mulle_objc_runtime.Prelude.{
  ℕ, ◌+◌, ◌-◌, ◌*◌, ◌/◌, ◌%◌, ◌^◌, ◌<◌, ◌≡◌, ◌≢◌, true, not, arith, some, List, ◌∷◌, ◌==◌, ◌||◌, ap,
  ◌∙◌,
}
use mulle_objc_runtime.Prelude.Bits.{bit_or_low}
use Prim.Native.Nat.{bit_or}
use mulle_objc_runtime.Uniqueid.{rotate, from_string, is_sane}

rotate_lem : (v : ℕ) → v < 2 ^ 32 → rotate v ≡ v % 2 ^ 28 * 2 ^ 4 + v / 2 ^ 28
unfolding rotate
rotate_lem v lt =
    ap (λ t. bit_or t (v / 2 ^ 28)) (omega arith)
    ∙ bit_or_low 4 (v % 2 ^ 28) (v / 2 ^ 28) (omega arith)

module _ (fnv1a : List ℕ → ℕ) (in_range : (s : List ℕ) → fnv1a s < 2 ^ 32) where
  -- The id of a string with characters is a 32-bit number, never NO_UNIQUEID, and it is sane unless
  -- the hash has all bits clear or all bits set. The hash is asked to return 32-bit numbers.
  pub from_string-is_sane :
      (c : ℕ) (s : List ℕ)
      → let id = (from_string fnv1a (some (c ∷ s))).value in
        let hash = fnv1a (c ∷ s) in
        (id ≢ 0) × (id < 2 ^ 32) × (is_sane id ≡ not (hash == 0 || hash == 2 ^ 32 - 1))
  unfolding from_string is_sane
  from_string-is_sane c s =
      let h = fnv1a (c ∷ s) in
      let bound = in_range (c ∷ s) in
      let e = rotate_lem h bound in (rw e (ground arith), rw e (ground arith), rw e (ground arith))

  -- The rotation adds no collisions: strings with characters that have the same sane id have the
  -- same hash. The hash is asked to return 32-bit numbers.
  pub from_string-injective :
      (c d : ℕ) (s t : List ℕ)
      → is_sane (from_string fnv1a (some (c ∷ s))).value ≡ true
      → (from_string fnv1a (some (c ∷ s))).value ≡ (from_string fnv1a (some (d ∷ t))).value
      → fnv1a (c ∷ s) ≡ fnv1a (d ∷ t)
  unfolding from_string is_sane
  from_string-injective c d s t sane same =
      let e = rotate_lem (fnv1a (c ∷ s)) (in_range (c ∷ s)) in
      let e' = rotate_lem (fnv1a (d ∷ t)) (in_range (d ∷ t)) in
      let bound = in_range (c ∷ s) in let bound' = in_range (d ∷ t) in ground arith
