-- ===== src/Signature/RoundTrip.antt =====
-- Parsing what the compiler writes for a C type.
use mathlib.Core.List.{append_assoc}
use mulle_objc_runtime.Prelude.{
  ℕ, zero, suc, ◌+◌, ◌*◌, ◌≤◌, ◌≡◌, ◌≢◌, ◌∙◌, refl, sym, subst, Bool, true, false, List, [], ◌∷◌,
  ◌++◌, arith, ◌⊎◌, inl, inr, length, Option, length-append,
}
use mulle_objc_runtime.Signature.{
  Layout, Typeinfo, char_at, is_digit, no_layout, c_type_info, sizeof_pointer,
  supply_scalar_typeinfo,
}
use mulle_objc_runtime.Signature.Encode.{
  CType, Members, scalar, object, block, function_pointer, pointer, bitfield, array, struct, union,
  last, more, encode, encode_members, layout,
}
use mulle_objc_runtime.Signature.Wellformed.{
  IsWellformed, AllWellformed, Follows, Follows-of, Starts, encode-Starts, Fits, AllFit,
}
use mulle_objc_runtime.Signature.Heads
use mulle_objc_runtime.Signature.Heads.{Reads, ReadsMembers, Shows, fold_members, parse}
use mulle_objc_runtime.Signature.Parse.{parsed, parse_text, Aggregate, struct_rules, union_rules}
use mulle_objc_runtime.Signature.Sums.{layout-struct, layout-union, layout-array}

-- The calls that parsing takes, one within the other or one after the other.
mutual
  pub cost : CType → ℕ
  cost (scalar c) = 1
  cost object = 1
  cost block = 1
  cost function_pointer = 2
  cost (pointer t) = suc (cost t)
  cost (bitfield ds) = 1
  cost (array ds t) = suc (cost t)
  cost (struct name ms) = suc (cost_members ms)
  cost (union name ms) = suc (cost_members ms)

  pub cost_members : Members → ℕ
  cost_members (last t) = suc (suc (cost t))
  cost_members (more t ms) = suc (cost t + cost_members ms)

-- The outermost array stands for a pointer.
unfoldable pub layout_at : (ℕ → ℕ → ℕ) → CType → ℕ → Layout
layout_at address_align (array ds t) zero = c_type_info sizeof_pointer
layout_at address_align t level = layout address_align t

-- Sizes are asked for only if an info is wanted.
abbrev pub Bounded : (ℕ → ℕ → ℕ) → Bool → CType → Type 0
Bounded address_align false t = Unit
Bounded address_align true t = Fits address_align t

abbrev pub AllBounded : (ℕ → ℕ → ℕ) → Bool → Members → Type 0
AllBounded address_align false ms = Unit
AllBounded address_align true ms = AllFit address_align ms

abbrev IsClose : Aggregate → Type 0
IsClose rules = (rules.close ≡ b'}') ⊎ (rules.close ≡ b')')

mutual
  unfolding cost encode

  pub cost-lt-length : (t : CType) → suc (cost t) ≤ 2 * length (encode t)
  cost-lt-length (scalar c) = omega arith
  cost-lt-length object = omega arith
  cost-lt-length block = omega arith
  cost-lt-length function_pointer = omega arith
  cost-lt-length (pointer t) = omega (arith, cost-lt-length t)
  cost-lt-length (bitfield ds) = omega arith
  cost-lt-length (array ds t) = omega (
    arith,
    cost-lt-length t,
    length-append ds (encode t ++ b']' ∷ []),
    length-append (encode t) (b']' ∷ []),
  )
  cost-lt-length (struct name ms) = omega (
    arith,
    cost_members-le ms,
    length-append name (b'=' ∷ (encode_members ms ++ b'}' ∷ [])),
    length-append (encode_members ms) (b'}' ∷ []),
  )
  cost-lt-length (union name ms) = omega (
    arith,
    cost_members-le ms,
    length-append name (b'=' ∷ (encode_members ms ++ b')' ∷ [])),
    length-append (encode_members ms) (b')' ∷ []),
  )

  cost_members-le : (ms : Members) → cost_members ms ≤ 2 * length (encode_members ms) + 1
  cost_members-le (last t) = omega (arith, cost-lt-length t)
  cost_members-le (more t ms) =
      omega
        (arith, cost-lt-length t, cost_members-le ms, length-append (encode t) (encode_members ms))

array_path :
    (ds : List ℕ) (t : CType) (rest : List ℕ)
    → encode (array ds t) ++ rest ≡ b'[' ∷ (ds ++ (encode t ++ b']' ∷ rest))
unfolding encode
array_path ds t rest = simp append_assoc

struct_path :
    (name : List ℕ) (ms : Members) (rest : List ℕ)
    → encode (struct name ms) ++ rest ≡ b'{' ∷ (name ++ b'=' ∷ (encode_members ms ++ b'}' ∷ rest))
unfolding encode
struct_path name ms rest = simp append_assoc

union_path :
    (name : List ℕ) (ms : Members) (rest : List ℕ)
    → encode (union name ms) ++ rest ≡ b'(' ∷ (name ++ b'=' ∷ (encode_members ms ++ b')' ∷ rest))
unfolding encode
union_path name ms rest = simp append_assoc

members-Starts :
    (ms : Members) (s : List ℕ) → AllWellformed ms → Starts (char_at (encode_members ms ++ s))
unfolding encode_members
members-Starts (last t) s w = encode-Starts t s w
members-Starts (more t ms) s w =
    subst (λ l. Starts (char_at l)) (sym (append_assoc (encode t) (encode_members ms) s))
      (encode-Starts t (encode_members ms ++ s) w.0)

apart : (rules : Aggregate) (c : ℕ) → IsClose rules → Starts c → c ≢ rules.close
apart rules c (inl e) s = rw e s.not_brace
apart rules c (inr e) s = rw e s.not_parenthesis

close-nonzero : (rules : Aggregate) → IsClose rules → rules.close ≢ 0
close-nonzero rules (inl e) = omega arith
close-nonzero rules (inr e) = omega arith

close-Follows :
    (rules : Aggregate) (t : CType) (rest : List ℕ) → IsClose rules → Follows t (rules.close ∷ rest)
unfolding is_digit char_at
close-Follows rules t rest (inl e) = Follows-of t _ (omega arith) (rw e)
close-Follows rules t rest (inr e) = Follows-of t _ (omega arith) (rw e)

module _ (address_align : ℕ → ℕ → ℕ) (aligned_zero : (a : ℕ) → address_align 0 a ≡ 0) where
  -- A result for the layout that an equation gives.
  Reads-at :
      (f level : ℕ) (want : Bool) (s s' rest : List ℕ) (l m : Layout)
      → s ≡ s'
      → (want ≡ true → l ≡ m)
      → Reads address_align f level want s' rest l
      → Reads address_align f level want s rest m
  Reads-at f level true s s' rest l m e p (i, q, (ti, a, b, u)) =
      (i, rw e q, (ti, a, b ∙ p refl, u ∙ sym e))
  Reads-at f level false s s' rest l m e p (i, q, a) = (i, rw e q, a)

  ReadsMembers-at :
      (f level : ℕ) (want : Bool) (rules : Aggregate) (n : ℕ) (start : Layout) (s s' rest : List ℕ)
      (l m : Layout)
      → s ≡ s'
      → (want ≡ true → l ≡ m)
      → ReadsMembers address_align f level want rules n start s' rest l
      → ReadsMembers address_align f level want rules n start s rest m
  ReadsMembers-at f level true rules n start s s' rest l m e p r =
      λ info h. let (ti, q, a, u) = r info h in (ti, rw e q, a ∙ p refl, u)
  ReadsMembers-at f level false rules n start s s' rest l m e p r = rw e r

  pub layout_at-inner :
      (t : CType) (level : ℕ) → layout_at address_align t (suc level) ≡ layout address_align t
  unfolding layout_at
  layout_at-inner (scalar c) level = refl
  layout_at-inner t level = refl

  inner :
      (t : CType) (f level : ℕ) (want : Bool) (s rest : List ℕ)
      → Reads address_align f (suc level) want s rest (layout_at address_align t (suc level))
      → Reads address_align f (suc level) want s rest (layout address_align t)
  inner t f level want s rest =
      Reads-at f (suc level) want s s rest _ _ refl (λ _. layout_at-inner t level)

  bounded :
      (want : Bool) (t : CType) → want ≡ true → Bounded address_align want t → Fits address_align t
  bounded true t e b = b
  bounded false t e b = cc

  item :
      (want : Bool) (ds : List ℕ) (t : CType)
      → Bounded address_align want (array ds t)
      → Bounded address_align want t
  item true ds t b = b.0
  item false ds t b = tt

  struct_items :
      (want : Bool) (name : List ℕ) (ms : Members)
      → Bounded address_align want (struct name ms)
      → AllBounded address_align want ms
  struct_items true name ms b = b.0
  struct_items false name ms b = tt

  union_items :
      (want : Bool) (name : List ℕ) (ms : Members)
      → Bounded address_align want (union name ms)
      → AllBounded address_align want ms
  union_items true name ms b = b
  union_items false name ms b = tt

  last_item :
      (want : Bool) (t : CType)
      → AllBounded address_align want (last t)
      → Bounded address_align want t
  last_item true t b = b
  last_item false t b = tt

  more_item :
      (want : Bool) (t : CType) (ms : Members)
      → AllBounded address_align want (more t ms)
      → Bounded address_align want t
  more_item true t ms b = b.0
  more_item false t ms b = tt

  more_items :
      (want : Bool) (t : CType) (ms : Members)
      → AllBounded address_align want (more t ms)
      → AllBounded address_align want ms
  more_items true t ms b = b.1
  more_items false t ms b = tt

  mutual
    unfolding encode cost fold_members layout_at layout is_digit char_at struct_rules union_rules

    read :
        (t : CType) (f level : ℕ) (want : Bool) (rest : List ℕ)
        → cost t ≤ f
        → IsWellformed t
        → Bounded address_align want t
        → Follows t rest
        → Reads address_align f level want (encode t ++ rest) rest (layout_at address_align t level)
    read (scalar c) zero level want rest h w b n = absurd (omega arith)
    read (scalar c) (suc f) level want rest h w b n =
        Heads.parse-Scalar address_align f level want c rest w
    read object zero level want rest h w b n = absurd (omega arith)
    read object (suc f) level want rest h w b n =
        Heads.parse-object address_align f level want rest n
    read block zero level want rest h w b n = absurd (omega arith)
    read block (suc f) level want rest h w b n = Heads.parse-block address_align f level want rest
    read function_pointer zero level want rest h w b n = absurd (omega arith)
    read function_pointer (suc zero) level want rest h w b n = absurd (omega arith)
    read function_pointer (suc (suc f)) level want rest h w b n =
        Heads.parse-function_pointer address_align f level want rest
    read (pointer t) zero level want rest h w b n = absurd (omega arith)
    read (pointer t) (suc f) level want rest h w b n =
        Heads.parse-pointer address_align f level want (encode t ++ rest) rest
          (layout_at address_align t (suc level)) (encode-Starts t rest w).not_undefined
          (read t f (suc level) false rest (omega arith) w tt n)
    read (bitfield ds) zero level want rest h w b n = absurd (omega arith)
    read (bitfield ds) (suc f) level want rest h w b n =
        Heads.parse-bitfield address_align f level want ds rest w.0 w.1 w.2 n
    read (array ds t) zero level want rest h w b n = absurd (omega arith)
    read (array ds t) (suc f) zero want rest h w b n =
        Reads-at (suc f) 0 want _ _ rest _ _ (array_path ds t rest) (λ _. refl)
          (Heads.parse-decayed address_align f want ds (encode t ++ b']' ∷ rest) rest
            (layout_at address_align t 1) w.0 (encode-Starts t (b']' ∷ rest) w.2).not_digit
            (read t f 1 false (b']' ∷ rest) (omega arith) w.2 tt
              (Follows-of t (b']' ∷ rest) (omega arith) refl)))
    read (array ds t) (suc f) (suc level) want rest h w b n =
        Reads-at (suc f) (suc level) want _ _ rest _ _ (array_path ds t rest)
          (λ e. layout-array address_align ds t (bounded want (array ds t) e b))
          (Heads.parse-array address_align f level want ds (encode t ++ b']' ∷ rest) rest _ w.0 w.1
            (encode-Starts t (b']' ∷ rest) w.2).not_digit
            (inner t f (suc level) want _ _ (
              read t f (suc (suc level)) want (b']' ∷ rest) (omega arith) w.2 (item want ds t b)
                (Follows-of t (b']' ∷ rest) (omega arith) refl))))
    read (struct name ms) zero level want rest h w b n = absurd (omega arith)
    read (struct name ms) (suc f) level want rest h w b n =
        Reads-at (suc f) level want _ _ rest _ _ (struct_path name ms rest)
          (λ e.
            let fits = bounded want (struct name ms) e b in
            layout-struct address_align aligned_zero name ms fits.1 fits.2)
          (Heads.parse-struct address_align f level want name (encode_members ms ++ b'}' ∷ rest)
            rest _ w.0
            (read_members ms f level want (struct_rules address_align) 0 no_layout rest
              (omega arith) w.1 (struct_items want name ms b) (inl refl)))
    read (union name ms) zero level want rest h w b n = absurd (omega arith)
    read (union name ms) (suc f) level want rest h w b n =
        Reads-at (suc f) level want _ _ rest _ _ (union_path name ms rest)
          (λ e. layout-union address_align name ms)
          (Heads.parse-union address_align f level want name (encode_members ms ++ b')' ∷ rest) rest
            _ w.0
            (read_members ms f level want (union_rules address_align) 0 no_layout rest (omega arith)
              w.1 (union_items want name ms b) (inr refl)))

    read_members :
        (ms : Members) (f level : ℕ) (want : Bool) (rules : Aggregate) (n : ℕ) (start : Layout)
        (rest : List ℕ)
        → cost_members ms ≤ f
        → AllWellformed ms
        → AllBounded address_align want ms
        → IsClose rules
        → ReadsMembers address_align f level want rules n start
            (encode_members ms ++ rules.close ∷ rest)
            rest
            (rules.finalize (fold_members address_align rules n start ms))
    read_members (last t) zero level want rules n start rest h w b c = absurd (omega arith)
    read_members (last t) (suc zero) level want rules n start rest h w b c = absurd (omega arith)
    read_members (last t) (suc (suc f)) level want rules n start rest h w b c =
        let begins = encode-Starts t (rules.close ∷ rest) w in
        Heads.members-more address_align (suc f) level want rules n start _ _ _ (rules.close ∷ rest)
          rest begins.nonzero (apart rules _ c begins)
          (inner t (suc f) level want _ _ (
            read t (suc f) (suc level) want (rules.close ∷ rest) (omega arith) w
              (last_item want t b) (close-Follows rules t rest c)))
          (Heads.members-end address_align f level want rules n _ rest (close-nonzero rules c))
    read_members (more t ms) zero level want rules n start rest h w b c = absurd (omega arith)
    read_members (more t ms) (suc f) level want rules n start rest h w b c =
        let tail = encode_members ms ++ rules.close ∷ rest in
        let begins = encode-Starts t tail w.0 in
        let follows = members-Starts ms (rules.close ∷ rest) w.1 in
        ReadsMembers-at (suc f) level want rules n start _ _ rest _ _
          (append_assoc (encode t) (encode_members ms) (rules.close ∷ rest)) (λ _. refl)
          (Heads.members-more address_align f level want rules n start _ _ _ tail rest
            begins.nonzero (apart rules _ c begins)
            (inner t f level want _ _ (
              read t f (suc level) want tail (omega arith) w.0 (more_item want t ms b)
                (Follows-of t tail follows.not_undefined follows.not_digit)))
            (read_members ms f level want rules (suc n) _ rest (omega arith) w.1
              (more_items want t ms b) c))

  -- The parser reads the encoding of a well-formed C type up to its end, whatever follows that does
  -- not belong to it, and with an info asked for it reports where the type starts and the layout that
  -- the rules of the runtime give it. The outermost array counts as a pointer where the level says
  -- so. The sizes stay within the C integers, the amount of fuel is twice the text and two.
  pub type_parse-encode :
      (t : CType) (level : ℕ) (want : Bool) (rest : List ℕ)
      → IsWellformed t
      → Bounded address_align want t
      → Follows t rest
      → (i : Option Typeinfo) × (parse_text address_align supply_scalar_typeinfo level want
            (encode t ++ rest)
          ≡ parsed rest i)
        × Shows want (encode t ++ rest) (layout_at address_align t level) i
  unfolding parse_text
  type_parse-encode t level want rest w b n =
      read t (2 * length (encode t ++ rest) + 2) level want rest
        (omega (arith, cost-lt-length t, length-append (encode t) rest)) w b n
