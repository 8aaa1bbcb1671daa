-- ===== src/Signature/Params.antt =====
-- The metaABI parameter of a method with the types that the compiler wrote.
use mulle_objc_runtime.Prelude.{
  ℕ, ◌≡◌, ◌≢◌, ◌∙◌, refl, ap, List, [], ◌∷◌, ◌++◌, arith, ne→==-false, ◌/◌, ◌==◌, ◌||◌, ltb,
  if◌then◌else◌,
}
use mulle_objc_runtime.Signature.{Layout, char_at, supply_scalar_typeinfo}
use mulle_objc_runtime.Signature.Encode.{
  CType, scalar, object, block, function_pointer, pointer, bitfield, array, struct, union, encode,
  layout,
}
use mulle_objc_runtime.Signature.Wellformed.{Scalar, IsWellformed}
use mulle_objc_runtime.Signature.Walk.{at, next_type, dummy_supplier}
use mulle_objc_runtime.Signature.Compare.{supply}
use mulle_objc_runtime.Signature.Compares.{Sized, AllSized}
use mulle_objc_runtime.Signature.Frames.{
  Types, text, IsSignature, next_type-text, supply-text, text-nonzero,
}
use mulle_objc_runtime.Signature.Steps.{frame_start}
use mulle_objc_runtime.Signature.Metaabi.{
  Param, error, void_pointer, void, as_struct, overran, metaabi_get_metaabiparamtype, small_param,
  param_of_supplied, metaabiparamtype_for_param, skip, first_param, param_at, or_struct,
  get_metaabiparamtype,
}

-- How a value travels, by what it is. A floating-point number (`f`, `d`, `D`) does not travel in a
-- pointer, whatever its size; numbers, selectors, strings and objects do.
unfoldable pub scalar_param : ℕ → Param
scalar_param c =
    if c == b'v'
    then void
    else if c == b'f' || c == b'd' || c == b'D'
    then as_struct
    else void_pointer

unfoldable pub returns : CType → Param
unfolding scalar_param
returns (scalar c) = scalar_param c
returns object = void_pointer
returns block = void_pointer
returns function_pointer = void_pointer
returns (pointer t) = void_pointer
returns (bitfield ds) = as_struct
returns (array ds t) = as_struct
returns (struct name ms) = as_struct
returns (union name ms) = as_struct

-- A struct or union of at most 8 bytes, at addresses that a pointer may have.
unfoldable pub fits_pointer : Layout → Param
fits_pointer l =
    if ltb 8 l.natural_size
    then as_struct
    else if ltb 8 l.natural_alignment
    then as_struct
    else void_pointer

unfoldable pub takes : (ℕ → ℕ → ℕ) → CType → Param
unfolding fits_pointer returns
takes address_align (struct name ms) = fits_pointer (layout address_align (struct name ms))
takes address_align (union name ms) = fits_pointer (layout address_align (union name ms))
takes address_align t = returns t

unfoldable pub several : Param → Param
several void_pointer = as_struct
several p = p

-- What several arguments come to: a pointer's worth for one of them, a struct for more.
unfoldable pub combined : (ℕ → ℕ → ℕ) → Types → Param
unfolding several
combined address_align [] = void
combined address_align ((t, ds) ∷ []) = takes address_align t
combined address_align ((t, ds) ∷ a ∷ r) = several (takes address_align t)

Scalar-param :
    (c : ℕ) (s : List ℕ) → Scalar c → metaabi_get_metaabiparamtype (c ∷ s) ≡ scalar_param c
unfolding supply_scalar_typeinfo metaabi_get_metaabiparamtype scalar_param
Scalar-param c s h = ground arith

small_param-fits : (l : Layout) → small_param l ≡ fits_pointer l
unfolding small_param fits_pointer
small_param-fits l = ground arith

paramtype-encode :
    (t : CType) (s : List ℕ)
    → IsWellformed t
    → metaabi_get_metaabiparamtype (encode t ++ s) ≡ returns t
unfolding encode returns metaabi_get_metaabiparamtype
paramtype-encode (scalar c) s w = Scalar-param c s w
paramtype-encode object s w = refl
paramtype-encode block s w = refl
paramtype-encode function_pointer s w = refl
paramtype-encode (pointer t) s w = refl
paramtype-encode (bitfield ds) s w = refl
paramtype-encode (array ds t) s w = refl
paramtype-encode (struct name ms) s w = refl
paramtype-encode (union name ms) s w = refl

Scalar-plain : (c : ℕ) → Scalar c → (c ≢ b'{') × (c ≢ b'(')
unfolding supply_scalar_typeinfo
Scalar-plain c h = ground arith

paramtype-text :
    (t : CType) (ds : List ℕ) (r : Types)
    → IsWellformed t
    → metaabi_get_metaabiparamtype (text ((t, ds) ∷ r)) ≡ returns t
unfolding text
paramtype-text t ds r w = paramtype-encode t (ds ++ text r) w

text_end : text [] ≡ []
unfolding text
text_end = refl

module _ (address_align : ℕ → ℕ → ℕ) (aligned_zero : (a : ℕ) → address_align 0 a ≡ 0) where
  for_param_plain :
      (s : List ℕ)
      → char_at s ≢ b'{'
      → char_at s ≢ b'('
      → metaabiparamtype_for_param address_align s ≡ metaabi_get_metaabiparamtype s
  unfolding metaabiparamtype_for_param
  for_param_plain s h k = rw (ne→==-false (char_at s) b'{' h, ne→==-false (char_at s) b'(' k)

  -- A struct or a union is measured.
  for_param-sized :
      (t : CType) (ds : List ℕ) (r : Types)
      → IsSignature ((t, ds) ∷ r)
      → Sized address_align aligned_zero t
      → param_of_supplied (supply address_align (text ((t, ds) ∷ r)))
        ≡ fits_pointer (layout address_align t)
  unfolding supply dummy_supplier param_of_supplied frame_start
  for_param-sized t ds r w fits =
      let zero_start = aligned_zero ((layout address_align t).bits_struct_alignment / 8) in
      let (info, e, a, b, c) =
        supply-text address_align aligned_zero 0 0 t ds r w fits.0
          (omega (arith, zero_start, fits.1)) in
      rw (e, a) (small_param-fits (layout address_align t))

  for_param-text :
      (t : CType) (ds : List ℕ) (r : Types)
      → IsSignature ((t, ds) ∷ r)
      → Sized address_align aligned_zero t
      → metaabiparamtype_for_param address_align (text ((t, ds) ∷ r)) ≡ takes address_align t
  unfolding metaabiparamtype_for_param takes text encode char_at returns
  for_param-text (scalar c) ds r w fits =
      let (h, k) = Scalar-plain c w.0 in
      for_param_plain (text ((scalar c, ds) ∷ r)) h k
      ∙ paramtype-encode (scalar c) (ds ++ text r) w.0
  for_param-text object ds r w fits = paramtype-encode object (ds ++ text r) w.0
  for_param-text block ds r w fits = paramtype-encode block (ds ++ text r) w.0
  for_param-text function_pointer ds r w fits = paramtype-encode function_pointer (ds ++ text r) w.0
  for_param-text (pointer t) ds r w fits = paramtype-encode (pointer t) (ds ++ text r) w.0
  for_param-text (bitfield es) ds r w fits = paramtype-encode (bitfield es) (ds ++ text r) w.0
  for_param-text (array es t) ds r w fits = paramtype-encode (array es t) (ds ++ text r) w.0
  for_param-text (struct name ms) ds r w fits = for_param-sized (struct name ms) ds r w fits
  for_param-text (union name ms) ds r w fits = for_param-sized (union name ms) ds r w fits

  first_param-end : (p : Param) (s : List ℕ) → s ≡ [] → first_param p (at s) ≡ p
  unfolding first_param
  first_param-end void_pointer s e = rw e
  first_param-end error s e = refl
  first_param-end void s e = refl
  first_param-end as_struct s e = refl
  first_param-end overran s e = refl

  first_param-more : (p : Param) (s : List ℕ) → char_at s ≢ 0 → first_param p (at s) ≡ several p
  unfolding first_param several char_at
  first_param-more void_pointer [] h = absurd (h refl)
  first_param-more void_pointer (c ∷ s) h = refl
  first_param-more error s h = refl
  first_param-more void s h = refl
  first_param-more as_struct s h = refl
  first_param-more overran s h = refl

  param_at-end : param_at address_align (at (text [])) ≡ void
  unfolding param_at text metaabiparamtype_for_param metaabi_get_metaabiparamtype next_type char_at
  param_at-end = refl

  param_at-text :
      (args : Types)
      → IsSignature args
      → AllSized address_align aligned_zero args
      → param_at address_align (at (text args)) ≡ combined address_align args
  unfolding param_at combined
  param_at-text [] w fits = param_at-end
  param_at-text ((t, ds) ∷ []) w fits =
      rw (next_type-text address_align aligned_zero t ds [] w)
        (first_param-end _ (text []) text_end ∙ for_param-text t ds [] w fits.0)
  param_at-text ((t, ds) ∷ (u, es) ∷ r) w fits =
      rw (next_type-text address_align aligned_zero t ds ((u, es) ∷ r) w) (
        first_param-more _ (text ((u, es) ∷ r)) (text-nonzero address_align aligned_zero u es r w.3)
        ∙ ap several (for_param-text t ds ((u, es) ∷ r) w fits.0))

  -- The metaABI parameter of a method: a struct if it returns a floating-point number, a struct, a
  -- union, an array or a bitfield, whatever its size; else nothing if it has no arguments behind
  -- `self` and `_cmd`; else a pointer if it has a single argument that is an integer, a selector, a
  -- pointer, an object, or a struct or union whose reported size and alignment are at most 8; and else
  -- a struct. A first argument of type void makes it nothing. The types are well-formed, and the sizes
  -- of the arguments are within 32 bits.
  pub get_metaabiparamtype-text :
      (result self sel : CType × List ℕ) (args : Types)
      → IsSignature (result ∷ self ∷ sel ∷ args)
      → AllSized address_align aligned_zero args
      → get_metaabiparamtype address_align (text (result ∷ self ∷ sel ∷ args))
        ≡ or_struct (returns result.0) (combined address_align args)
  unfolding get_metaabiparamtype skip
  get_metaabiparamtype-text (t, ds) (u, es) (v, fs) args w fits =
      rw
        (
          next_type-text address_align aligned_zero t ds ((u, es) ∷ (v, fs) ∷ args) w,
          next_type-text address_align aligned_zero u es ((v, fs) ∷ args) w.3,
          next_type-text address_align aligned_zero v fs args w.3.3,
          param_at-text args w.3.3.3 fits,
        )
        (ap (λ p. or_struct p (combined address_align args)) (paramtype-text t ds _ w.0))
