-- ===== src/Signature/Pieces.antt =====
-- How the parser reads the parts of an encoding: digits, names and the starts of members.
use mulle_objc_runtime.Prelude.{
  ℕ, ◌+◌, ◌-◌, ◌*◌, ◌%◌, ◌^◌, ◌<◌, ◌≤◌, ◌≡◌, ◌≢◌, ◌∙◌, refl, ap, true, false, List, [], ◌∷◌, ◌++◌,
  arith,
}
use mulle_objc_runtime.Signature.{is_digit, char_at, skip_digits}
use mulle_objc_runtime.Signature.Encode.{Digits, value}
use mulle_objc_runtime.Signature.Wellformed.{Name, Nonempty}
use mulle_objc_runtime.Signature.Parse.{heading, members_at, atoi, atoi_digits, array_length}

pub skip_digits_lem :
    (ds s : List ℕ) → Digits ds → is_digit (char_at s) ≡ false → skip_digits (ds ++ s) ≡ s
unfolding skip_digits char_at is_digit
skip_digits_lem [] [] d h = refl
skip_digits_lem [] (c ∷ s) d h = ground arith
skip_digits_lem (x ∷ ds) s d h = ground (arith, skip_digits_lem ds s)

pub le-value : (acc : ℕ) (ds : List ℕ) → acc ≤ value acc ds
unfolding value
le-value acc [] = omega arith
le-value acc (d ∷ ds) = omega (arith, le-value (acc * 10 + (d - b'0')) ds)

pub array_length_lem :
    (acc : ℕ) (ds s : List ℕ)
    → Digits ds
    → value acc ds < 2 ^ 32
    → is_digit (char_at s) ≡ false
    → array_length acc (ds ++ s) ≡ value acc ds
unfolding array_length value char_at
array_length_lem acc [] [] d b h = refl
array_length_lem acc [] (c ∷ s) d b h = ground arith
array_length_lem acc (x ∷ ds) s d b h =
    let next = acc * 10 + (x - b'0') in
    let fits : next % 2 ^ 32 ≡ next = omega (arith, le-value next ds) in
    rw d.0 (rw fits (array_length_lem next ds s d.1 b h))

pub atoi_digits_lem :
    (acc : ℕ) (ds s : List ℕ)
    → Digits ds
    → is_digit (char_at s) ≡ false
    → atoi_digits acc (ds ++ s) ≡ value acc ds
unfolding atoi_digits value char_at
atoi_digits_lem acc [] [] d h = refl
atoi_digits_lem acc [] (c ∷ s) d h = ground arith
atoi_digits_lem acc (x ∷ ds) s d h = rw d.0 (atoi_digits_lem (acc * 10 + (x - b'0')) ds s d.1 h)

atoi_plain :
    (x : ℕ) (s : List ℕ) → is_digit x ≡ true → atoi (x ∷ s) ≡ (false, atoi_digits 0 (x ∷ s))
unfolding atoi is_digit
atoi_plain x s h = ground arith

pub atoi_lem :
    (ds s : List ℕ)
    → Digits ds
    → Nonempty ds
    → is_digit (char_at s) ≡ false
    → atoi (ds ++ s) ≡ (false, value 0 ds)
atoi_lem [] s d n h = absurd n
atoi_lem (x ∷ ds) s d n h =
    atoi_plain x (ds ++ s) d.0 ∙ ap (λ (v : ℕ). (false, v)) (atoi_digits_lem 0 (x ∷ ds) s d h)

pub heading_lem :
    (close : ℕ) (name s : List ℕ)
    → close ≢ b'='
    → Name close name
    → heading close (name ++ b'=' ∷ s) ≡ members_at s
unfolding heading
heading_lem close [] s e n = ground arith
heading_lem close (x ∷ name) s e n = ground (arith, heading_lem close name s)
