-- ===== src/Signature/Compares.antt =====
-- Two types compare as equal exactly if they are written alike, whatever their offsets.
use mathlib.Core.List.{head-eq_of_cons-eq, tail-eq_of_cons-eq}
use mathlib.Core.Path.{ap₂}
use mulle_objc_runtime.Prelude.{
  ℕ, zero, suc, ◌+◌, ◌/◌, ◌^◌, ◌<◌, ◌≡◌, ◌↔◌, ◌∙◌, ltb, refl, sym, subst, some, List, [], ◌∷◌, ◌++◌,
  arith, length, length-append, if◌then◌else◌,
}
use mulle_objc_runtime.Signature.{Typeinfo, char_at, supply_scalar_typeinfo}
use mulle_objc_runtime.Signature.Parse.{parse_text, type_parse}
use mulle_objc_runtime.Signature.Encode.{CType, Digits, encode, layout}
use mulle_objc_runtime.Signature.Wellformed.{IsWellformed, Follows, Fits}
use mulle_objc_runtime.Signature.Walk.{
  Signaturesupplier, supplied, no_type, dummy_supplier, supply_typeinfo,
}
use mulle_objc_runtime.Signature.Steps.{IsPlain, supply-encode, frame_start}
use mulle_objc_runtime.Signature.Frames.{Types, text, IsSignature, text-IsPlain, length-le-text}
use mulle_objc_runtime.Signature.Compare.{
  Sign, less, equal, greater, fault, strncmp, type_length, or_sign, compare_lengths,
  typeinfo_compare, compare_supplied, compare_infos, ivarsignature_compare, lenient_loop,
  methodsignature_compare_lenient, supply,
}

or_sign_equal : (s t : Sign) → or_sign s t ≡ equal → (s ≡ equal) × (t ≡ equal)
unfolding or_sign
or_sign_equal equal t h = (refl, h)
or_sign_equal less t h = cc
or_sign_equal greater t h = cc
or_sign_equal fault t h = cc

compare_lengths_equal : (m n : ℕ) → compare_lengths m n ≡ equal → m ≡ n
unfolding compare_lengths
compare_lengths_equal m n h = ground arith

compare_lengths_refl : (m : ℕ) → compare_lengths m m ≡ equal
unfolding compare_lengths
compare_lengths_refl m = ground arith

strncmp_equal :
    (a b x y : List ℕ) → length a ≡ length b → strncmp (length a) (a ++ x) (b ++ y) ≡ equal → a ≡ b
unfolding strncmp
strncmp_equal [] [] x y e h = refl
strncmp_equal [] (d ∷ b) x y e h = absurd (omega arith)
strncmp_equal (c ∷ a) [] x y e h = absurd (omega arith)
strncmp_equal (c ∷ a) (d ∷ b) x y e h = ground (arith, strncmp_equal a b x y)

strncmp_refl : (a x y : List ℕ) → strncmp (length a) (a ++ x) (a ++ y) ≡ equal
unfolding strncmp
strncmp_refl [] x y = refl
strncmp_refl (c ∷ a) x y = ground (arith, strncmp_refl a x y)

-- The info of a type that is written as `a`, before `x`.
abbrev pub Spells : Typeinfo → List ℕ → List ℕ → Type 0
Spells i a x = (i.type ≡ a ++ x) × (i.pure_type_end ≡ some x)

type_length-Spells : (i : Typeinfo) (a x : List ℕ) → Spells i a x → type_length i ≡ length a
unfolding type_length
type_length-Spells i a x h = rw (h.1, h.0) (omega (arith, length-append a x))

min_same : (m n : ℕ) → m ≡ n → (if ltb m n then m else n) ≡ m
min_same m n h = ground arith

typeinfo_compare_iff :
    (i j : Typeinfo) (a b x y : List ℕ)
    → Spells i a x
    → Spells j b y
    → (typeinfo_compare i j ≡ equal) ↔ (a ≡ b)
unfolding typeinfo_compare or_sign
typeinfo_compare_iff i j a b x y h k = (to, from)
  where
    result : List ℕ → Sign
    result b =
        or_sign
          (strncmp (if ltb (length a) (length b) then length a else length b) (a ++ x) (b ++ y))
          (compare_lengths (length a) (length b))

    step : typeinfo_compare i j ≡ result b
    step = rw (type_length-Spells i a x h, type_length-Spells j b y k, h.0, k.0)

    to : typeinfo_compare i j ≡ equal → a ≡ b
    to e =
        let (s, l) =
          or_sign_equal
            (strncmp (if ltb (length a) (length b) then length a else length b) (a ++ x) (b ++ y)) _
            (sym step ∙ e) in
        let len = compare_lengths_equal (length a) (length b) l in
        strncmp_equal a b x y len (rw (min_same (length a) (length b) len) at s)

    from : a ≡ b → typeinfo_compare i j ≡ equal
    from e = step ∙ subst (λ b. result b ≡ equal) e same
      where
        same : result a ≡ equal
        same = rw (
          min_same (length a) (length a) refl,
          strncmp_refl a x y,
          compare_lengths_refl (length a),
        )

equal_or : or_sign equal equal ≡ equal
unfolding or_sign
equal_or = refl

nil_ne : {a : List ℕ} {l : List (List ℕ)} → [] ≡ a ∷ l → ⊥
nil_ne h = cc

module _ (address_align : ℕ → ℕ → ℕ) (aligned_zero : (a : ℕ) → address_align 0 a ≡ 0) where
  -- A type whose size fits a frame.
  abbrev pub Sized : CType → Type 0
  Sized t = Fits address_align t × ((layout address_align t).natural_size < 2 ^ 32)

  -- What the supplier says of a type that is written before `ds ++ rest`.
  supply-Spells :
      (t : CType) (ds rest : List ℕ)
      → IsWellformed t
      → Sized t
      → Digits ds
      → Follows t (ds ++ rest)
      → IsPlain (char_at rest)
      → (s : Signaturesupplier) × (info : Typeinfo) × (supply address_align
            (encode t ++ (ds ++ rest))
          ≡ supplied rest s (some info))
        × Spells info (encode t) (ds ++ rest)
  unfolding supply dummy_supplier frame_start
  supply-Spells t ds rest w fits d f p =
      let zero_start = aligned_zero ((layout address_align t).bits_struct_alignment / 8) in
      let (info, e, a, b, c, o) =
        supply-encode address_align aligned_zero t ds rest 0 0 w fits.0 d f p
          (omega (arith, zero_start, fits.1)) in
      (_, info, e, (b, c))

  -- The types of two instance variables compare as equal exactly if they are written alike;
  -- what follows, such as an offset, does not count. They are well-formed and of sizes within 32
  -- bits, and what follows cannot be read as a part of them.
  pub ivarsignature_compare_iff :
      (t u : CType) (ds es rest rest' : List ℕ)
      → IsWellformed t × Sized t × Digits ds × Follows t (ds ++ rest) × IsPlain (char_at rest)
      → IsWellformed u × Sized u × Digits es × Follows u (es ++ rest') × IsPlain (char_at rest')
      → (ivarsignature_compare address_align (encode t ++ (ds ++ rest)) (encode u ++ (es ++ rest'))
          ≡ equal)
        ↔ (encode t ≡ encode u)
  unfolding ivarsignature_compare compare_supplied compare_infos
  ivarsignature_compare_iff t u ds es rest rest' h k =
      let (s, i, e, a) = supply-Spells t ds rest h.0 h.1 h.2 h.3 h.4 in
      let (s', j, e', b) = supply-Spells u es rest' k.0 k.1 k.2 k.3 k.4 in
      rw (e, e') (typeinfo_compare_iff i j (encode t) (encode u) (ds ++ rest) (es ++ rest') a b)

  abbrev pub AllSized : Types → Type 0
  AllSized [] = Unit
  AllSized ((t, ds) ∷ r) = Sized t × AllSized r

  -- How the types of a signature are written, without the offsets.
  unfoldable pub spelled : Types → List (List ℕ)
  spelled [] = []
  spelled ((t, ds) ∷ r) = encode t ∷ spelled r

  pub supply-text :
      (t : CType) (ds : List ℕ) (r : Types)
      → IsSignature ((t, ds) ∷ r)
      → Sized t
      → (s : Signaturesupplier) × (info : Typeinfo) × (supply address_align (text ((t, ds) ∷ r))
          ≡ supplied (text r) s (some info))
        × Spells info (encode t) (ds ++ text r)
  unfolding text
  supply-text t ds r w fits = supply-Spells t ds (text r) w.0 fits w.1 w.2 (text-IsPlain r w.3)

  supply-end : supply address_align (text []) ≡ no_type
  unfolding supply text supply_typeinfo dummy_supplier parse_text type_parse supply_scalar_typeinfo
  supply-end = refl

  loop_step :
      (f : ℕ) (a b a' b' : List ℕ) (s s' : Signaturesupplier) (i j : Typeinfo)
      → supply address_align a ≡ supplied a' s (some i)
      → supply address_align b ≡ supplied b' s' (some j)
      → lenient_loop address_align (suc f) a b
        ≡ or_sign (typeinfo_compare i j) (lenient_loop address_align f a' b')
  unfolding lenient_loop compare_supplied compare_infos
  loop_step f a b a' b' s s' i j e e' = rw (e, e')

  ends : (f : ℕ) → lenient_loop address_align (suc f) (text []) (text []) ≡ equal
  unfolding lenient_loop compare_supplied
  ends f = rw supply-end

  shorter :
      (f : ℕ) (b b' : List ℕ) (s : Signaturesupplier) (j : Typeinfo)
      → supply address_align b ≡ supplied b' s (some j)
      → lenient_loop address_align (suc f) (text []) b ≡ less
  unfolding lenient_loop compare_supplied
  shorter f b b' s j e = rw (supply-end, e)

  longer :
      (f : ℕ) (a a' : List ℕ) (s : Signaturesupplier) (i : Typeinfo)
      → supply address_align a ≡ supplied a' s (some i)
      → lenient_loop address_align (suc f) a (text []) ≡ greater
  unfolding lenient_loop compare_supplied
  longer f a a' s i e = rw (supply-end, e)

  loop_iff :
      (r q : Types) (f : ℕ)
      → length r < f
      → IsSignature r
      → IsSignature q
      → AllSized r
      → AllSized q
      → (lenient_loop address_align f (text r) (text q) ≡ equal) ↔ (spelled r ≡ spelled q)
  unfolding spelled
  loop_iff r q zero h w v a b = absurd (omega arith)
  loop_iff [] [] (suc f) h w v a b = ((λ _. refl), λ _. ends f)
  loop_iff [] ((u, es) ∷ q) (suc f) h w v a b =
      let (s, j, e, x) = supply-text u es q v b.0 in
      ((λ m. cc (shorter f (text ((u, es) ∷ q)) (text q) s j e)), λ m. absurd (nil_ne m))
  loop_iff ((t, ds) ∷ r) [] (suc f) h w v a b =
      let (s, i, e, x) = supply-text t ds r w a.0 in
      ((λ m. cc (longer f (text ((t, ds) ∷ r)) (text r) s i e)), λ m. absurd (nil_ne (sym m)))
  loop_iff ((t, ds) ∷ r) ((u, es) ∷ q) (suc f) h w v a b =
      let (s, i, e, x) = supply-text t ds r w a.0 in
      let (s', j, e', y) = supply-text u es q v b.0 in
      let one = typeinfo_compare_iff i j (encode t) (encode u) (ds ++ text r) (es ++ text q) x y in
      let others = loop_iff r q f (omega arith) w.3 v.3 a.1 b.1 in
      let step = loop_step f _ _ (text r) (text q) s s' i j e e' in
      (
        (λ m.
            let (first, rest) = or_sign_equal (typeinfo_compare i j) _ (sym step ∙ m) in
            ap₂ (λ k l. k ∷ l) (one.0 first) (others.0 rest)),
        λ m.
            step
            ∙ (ap₂ or_sign (one.1 (head-eq_of_cons-eq m)) (others.1 (tail-eq_of_cons-eq m))
                ∙ equal_or),
      )

  -- The lenient comparison of two methods finds them equal exactly if they have the same arguments
  -- in the same order, `self` and `_cmd` included. Return values and offsets do not count. The
  -- types of both are well-formed and of sizes within 32 bits.
  pub methodsignature_compare_lenient_iff :
      (t u : CType) (ds es : List ℕ) (r q : Types)
      → IsSignature ((t, ds) ∷ r) × Sized t × AllSized r
      → IsSignature ((u, es) ∷ q) × Sized u × AllSized q
      → (methodsignature_compare_lenient address_align (text ((t, ds) ∷ r)) (text ((u, es) ∷ q))
          ≡ equal)
        ↔ (spelled r ≡ spelled q)
  unfolding methodsignature_compare_lenient compare_supplied
  methodsignature_compare_lenient_iff t u ds es r q h k =
      let (s, i, e, x) = supply-text t ds r h.0 h.1 in
      let (s', j, e', y) = supply-text u es q k.0 k.1 in
      rw (e, e')
        (loop_iff r q (length (text r) + 1) (omega (arith, length-le-text r h.0.3)) h.0.3 k.0.3 h.2
          k.2)
