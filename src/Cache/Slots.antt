-- ===== src/Cache/Slots.antt =====
-- Slots by index instead of byte offset, and the order in which a probe visits them.
use Prim.Native.Nat.{bit_and}
use native.Mathlib.Nat.{
  mod-eq_of_lt, mod-eq-sub-mod, mod-add-mod, mod-lt, one-le-pow, add_assoc, add-zero,
}
use native.Mathlib.Decide.{dec_lt, dec_le}
use mulle_objc_runtime.Prelude.Bits.{bit_and_shifted_ones}
use mulle_objc_runtime.Prelude.{
  ℕ, ◌+◌, ◌-◌, ◌*◌, ◌/◌, ◌%◌, ◌^◌, ◌≤◌, ◌<◌, ◌≡◌, ◌⊎◌, inl, inr, arith, get_or, length, ◌∙◌,
}
use mulle_objc_runtime.Cache.{Entry, Cache, zeroed}

abbrev pub slot : Cache → ℕ → Entry
slot c j = get_or c.entries j zeroed

-- Where the probe for a uniqueid begins.
unfoldable pub home : Cache → ℕ → ℕ
home c u = u / 16 % c.size

-- The slot that the probe for `u` visits after it passed `i` others.
unfoldable pub visit : Cache → ℕ → ℕ → ℕ
visit c u i = (home c u + i) % c.size

-- Size and mask fit each other and the entries: a power of two whose byte offsets fit 32 bits.
pub record IsShaped (k : ℕ) (c : Cache) : Type 0 where
  pub size : c.size ≡ 2 ^ k
  pub mask : c.mask ≡ (2 ^ k - 1) * 16
  pub room : length c.entries ≡ 2 ^ k
  pub small : 2 ^ k ≤ 2 ^ 27

mod_cases : (a n : ℕ) → a < n + n → 0 < n → ((a < n) × (a % n ≡ a)) ⊎ ((n ≤ a) × (a % n ≡ a - n))
mod_cases a n h p = elim (dec_lt a n) [
  | yes q ↦ inl (q, mod-eq_of_lt q)
  | no q ↦ inr (
    omega arith,
    mod-eq-sub-mod {n = a} {m = n} (omega arith) ∙ mod-eq_of_lt {n = a - n} {m = n} (omega arith),
  )
]

module _ {k : ℕ} {c : Cache} (shaped : IsShaped k c) where
  pub size_pos : 0 < c.size
  size_pos = omega (arith, shaped.size, one-le-pow k 2)

  pub home-lt : (u : ℕ) → home c u < c.size
  unfolding home
  home-lt u = mod-lt _ size_pos

  pub visit-lt : (u i : ℕ) → visit c u i < c.size
  unfolding visit
  visit-lt u i = mod-lt _ size_pos

  pub visit-zero : (u : ℕ) → visit c u 0 ≡ u / 16 % c.size
  unfolding visit home
  visit-zero u = rw add-zero (mod-eq_of_lt (mod-lt _ size_pos))

  pub visit-add-one : (u i : ℕ) → visit c u (i + 1) ≡ (visit c u i + 1) % c.size
  unfolding visit
  visit-add-one u i = rw (mod-add-mod (home c u + i) c.size 1, add_assoc (home c u) i 1)

  -- Two slots of one round are the same only if as many were passed.
  pub visit-injective : (u i j : ℕ) → i < c.size → j < c.size → visit c u i ≡ visit c u j → i ≡ j
  unfolding visit
  visit-injective u i j hi hj e =
      let h = home-lt u in
      omega (
        arith,
        mod_cases (home c u + i) c.size (omega arith) size_pos,
        mod_cases (home c u + j) c.size (omega arith) size_pos,
      )

  -- One round visits every slot.
  pub visit-surjective : (u j : ℕ) → j < c.size → (i : ℕ) × (i < c.size) × (visit c u i ≡ j)
  unfolding visit
  visit-surjective u j h =
      let p = home-lt u in
      elim (dec_le (home c u) j) [
        | yes q ↦
            let e : home c u + (j - home c u) ≡ j = omega arith in
            (j - home c u, omega arith, rw e (mod-eq_of_lt h))
        | no q ↦
            let i = j + c.size - home c u in
            (i, omega arith, omega (arith, mod_cases (home c u + i) c.size (omega arith) size_pos))
      ]

  -- The masked offset is sixteen times an index.
  pub masked : (x : ℕ) → bit_and x c.mask ≡ x / 16 % c.size * 16
  masked x = rw (shaped.mask, shaped.size) (bit_and_shifted_ones k x)

  pub offset_step : (j : ℕ) → j < c.size → (j * 16 + 16) % 2 ^ 32 / 16 ≡ j + 1
  offset_step j h = omega (arith, shaped.size, shaped.small)
