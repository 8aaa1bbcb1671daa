-- ===== src/Signature/Extended.antt =====
-- Class names behind a type, `@"NSString"`: `mulle_objc_signature_next_type` and
-- `_mulle_objc_signature_supply_typeinfo` step over them differently.
use mulle_objc_runtime.Prelude.{
  ℕ, suc, ◌+◌, ◌*◌, ◌≡◌, ◌≢◌, ◌∙◌, refl, false, none, some, List, [], ◌∷◌, ◌++◌, arith, length,
  ne→==-false,
}
use mulle_objc_runtime.Signature.{char_at, supply_scalar_typeinfo}
use mulle_objc_runtime.Signature.Parse.{parse_text, parsed}
use mulle_objc_runtime.Signature.Heads.{parse-object}
use mulle_objc_runtime.Signature.Walk.{
  overrun, Signaturesupplier, supplied, skip_extended, skip_past, skip_offset, next_type,
  supply_typeinfo, skip_block, skip_quoted, with_name,
}

abbrev pub Unquoted : List ℕ → Type 0
Unquoted [] = Unit
Unquoted (c ∷ s) = (c ≢ b'"') × Unquoted s

skip_past-name : (name s : List ℕ) → Unquoted name → skip_past b'"' (name ++ b'"' ∷ s) ≡ some s
unfolding skip_past
skip_past-name [] s u = refl
skip_past-name (c ∷ name) s u = rw (ne→==-false c b'"' u.0) (skip_past-name name s u.1)

in_name :
    (c x : ℕ) (s : List ℕ)
    → c ≢ b'"'
    → skip_extended (some b'"') (c ∷ x ∷ s) ≡ skip_extended (some b'"') (x ∷ s)
unfolding skip_extended
in_name c x s h = rw (ne→==-false c b'"' h)

quote_ends : (x : ℕ) (s : List ℕ) → skip_extended (some b'"') (b'"' ∷ x ∷ s) ≡ skip_extended none s
unfolding skip_extended
quote_ends x s = refl

quote_last : skip_extended (some b'"') (b'"' ∷ []) ≡ overrun
unfolding skip_extended
quote_last = refl

extended-name :
    (name : List ℕ) (x : ℕ) (s : List ℕ)
    → Unquoted name
    → skip_extended (some b'"') (name ++ b'"' ∷ x ∷ s) ≡ skip_extended none s
extended-name [] x s u = quote_ends x s
extended-name (c ∷ []) x s u = in_name c b'"' (x ∷ s) u.0 ∙ extended-name [] x s tt
extended-name (c ∷ d ∷ name) x s u =
    in_name c d (name ++ b'"' ∷ x ∷ s) u.0 ∙ extended-name (d ∷ name) x s u.1

extended-name_end :
    (name : List ℕ) → Unquoted name → skip_extended (some b'"') (name ++ b'"' ∷ []) ≡ overrun
extended-name_end [] u = quote_last
extended-name_end (c ∷ []) u = in_name c b'"' [] u.0 ∙ extended-name_end [] tt
extended-name_end (c ∷ d ∷ name) u =
    in_name c d (name ++ b'"' ∷ []) u.0 ∙ extended-name_end (d ∷ name) u.1

-- An object type with a class name.
abbrev pub named : List ℕ → List ℕ → List ℕ
named name s = b'@' ∷ b'"' ∷ (name ++ b'"' ∷ s)

module _ (address_align : ℕ → ℕ → ℕ) where
  -- The type itself ends before the quote.
  parse-quote :
      (level : ℕ) (s : List ℕ)
      → parse_text address_align supply_scalar_typeinfo level false (b'@' ∷ b'"' ∷ s)
        ≡ parsed (b'"' ∷ s) none
  unfolding parse_text char_at
  parse-quote level s =
      let fuel = 2 * length (b'@' ∷ b'"' ∷ s) in
      let (i, e, h) = parse-object address_align (fuel + 1) level false (b'"' ∷ s) (omega arith) in
      let more : fuel + 2 ≡ suc (fuel + 1) = omega arith in rw (more, e, h)

  next_type-named :
      (name s : List ℕ)
      → next_type address_align (named name s) ≡ skip_extended (some b'"') (name ++ b'"' ∷ s)
  unfolding next_type
  next_type-named name s = rw (parse-quote 0 (name ++ b'"' ∷ s)) refl

  supply-named :
      (name s : List ℕ) (supplier : Signaturesupplier)
      → Unquoted name
      → supply_typeinfo address_align (named name s) supplier false
        ≡ supplied (skip_offset s) (record supplier { invocation_offset = none }) none
  unfolding supply_typeinfo skip_block skip_quoted with_name
  supply-named name s supplier u =
      rw (parse-quote supplier.level (name ++ b'"' ∷ s), skip_past-name name s u)

  -- Behind a class name `next_type` loses one byte of the signature: it goes on behind `x`, where
  -- `supply_typeinfo` goes on with `x`, and where the name ends the signature it reads past the
  -- terminating NUL. The name has no quotes.
  pub next_type-loses :
      (name : List ℕ) (x : ℕ) (s : List ℕ) (supplier : Signaturesupplier)
      → Unquoted name
      → (next_type address_align (named name (x ∷ s)) ≡ skip_extended none s)
        × (supply_typeinfo address_align (named name (x ∷ s)) supplier false
            ≡ supplied (skip_offset (x ∷ s)) (record supplier { invocation_offset = none }) none)
        × (next_type address_align (named name []) ≡ overrun)
  next_type-loses name x s supplier u = (
    next_type-named name (x ∷ s) ∙ extended-name name x s u,
    supply-named name (x ∷ s) supplier u,
    next_type-named name [] ∙ extended-name_end name u,
  )
