-- ===== src/Signature/Sums.antt =====
-- What the loop over the members adds up is the layout of the struct or union.
use mathlib.Core.Path.{ap₂}
use mulle_objc_runtime.Prelude.{
  ℕ, zero, suc, ◌+◌, ◌/◌, ◌%◌, ◌^◌, ◌<◌, ◌≡◌, ◌∙◌, refl, sym, ap, subst, Bool, true, false, List,
  arith, ◌||◌,
}
use mulle_objc_runtime.Signature.{Layout, no_layout}
use mulle_objc_runtime.Signature.Encode.{
  CType, Members, array, struct, union, last, more, value, layout, struct_end, largest, any,
}
use mulle_objc_runtime.Signature.Wellformed.{Fits, MembersFit}
use mulle_objc_runtime.Signature.Heads.{fold_members, member_step}
use mulle_objc_runtime.Signature.Parse.{
  struct_rules, union_rules, array_layout, max_or, update_struct_subsequent, update_struct_first,
  finalize_struct, update_union,
}

-- Two layouts that agree field by field.
Layout_path :
    (l m : Layout)
    → l.natural_size ≡ m.natural_size
    → l.natural_alignment ≡ m.natural_alignment
    → l.bits_struct_alignment ≡ m.bits_struct_alignment
    → l.bits_size ≡ m.bits_size
    → l.has_object ≡ m.has_object
    → l.has_retainable_type ≡ m.has_retainable_type
    → l ≡ m
Layout_path l m a b c d e f = λ i. record {
  natural_size = a i;
  natural_alignment = b i;
  bits_struct_alignment = c i;
  bits_size = d i;
  has_object = e i;
  has_retainable_type = f i;
}

max_or_assoc : (a b c : ℕ) → max_or (max_or b a) c ≡ max_or a (max_or b c)
max_or_assoc a b c = ground arith

max_or_comm : (a b : ℕ) → max_or a b ≡ max_or b a
max_or_comm a b = ground arith

max_or-zero : (a : ℕ) → a ≡ max_or 0 a
max_or-zero a = ground arith

zero-max_or : (a : ℕ) → max_or 0 a ≡ a
zero-max_or a = ground arith

or_assoc : (a b c : Bool) → ((a || b) || c) ≡ (a || (b || c))
or_assoc true b c = refl
or_assoc false b c = refl

module _ (address_align : ℕ → ℕ → ℕ) where
  -- The fields of the sum from a layout on.
  pub record Sums (l : Layout) (ms : Members) (r : Layout) : Type 0 where
    pub natural_alignment :
        r.natural_alignment
        ≡ max_or l.natural_alignment (largest address_align (λ k. k.natural_alignment) ms)
    pub bits_struct_alignment :
        r.bits_struct_alignment
        ≡ max_or l.bits_struct_alignment (largest address_align (λ k. k.bits_struct_alignment) ms)
    pub has_object : r.has_object ≡ (l.has_object || any address_align (λ k. k.has_object) ms)
    pub has_retainable_type :
        r.has_retainable_type
        ≡ (l.has_retainable_type || any address_align (λ k. k.has_retainable_type) ms)

  struct-Sums :
      (n : ℕ) (l : Layout) (ms : Members)
      → Sums l ms (fold_members address_align (struct_rules address_align) (suc n) l ms)
  unfolding fold_members member_step struct_rules largest any
  struct-Sums n l (last t) =
      let k = layout address_align t in
      record {
        natural_alignment = max_or_comm k.natural_alignment l.natural_alignment;
        bits_struct_alignment = max_or_comm k.bits_struct_alignment l.bits_struct_alignment;
        has_object = refl;
        has_retainable_type = refl;
      }
  struct-Sums n l (more t ms) =
      let k = layout address_align t in
      let ih = struct-Sums (suc n) (update_struct_subsequent address_align l k) ms in
      record {
        natural_alignment =
            ih.natural_alignment ∙ max_or_assoc l.natural_alignment k.natural_alignment _;
        bits_struct_alignment =
            ih.bits_struct_alignment
            ∙ max_or_assoc l.bits_struct_alignment k.bits_struct_alignment _;
        has_object = ih.has_object ∙ or_assoc l.has_object k.has_object _;
        has_retainable_type =
            ih.has_retainable_type ∙ or_assoc l.has_retainable_type k.has_retainable_type _;
      }

  -- The size in bits that the loop has summed up.
  struct-bits_size :
      (n : ℕ) (l : Layout) (ms : Members)
      → MembersFit address_align l.bits_size ms
      → (fold_members address_align (struct_rules address_align) (suc n) l ms).bits_size
        ≡ struct_end address_align l.bits_size ms
  unfolding fold_members member_step struct_rules struct_end
  struct-bits_size n l (last t) h = omega arith
  struct-bits_size n l (more t ms) h =
      let k = layout address_align t in
      let m = update_struct_subsequent address_align l k in
      let e : m.bits_size ≡ address_align l.bits_size k.bits_struct_alignment + k.bits_size =
        omega arith in
      struct-bits_size (suc n) m ms (subst (λ b. MembersFit address_align b ms) (sym e) h.2)
      ∙ ap (λ b. struct_end address_align b ms) e

  module _ (aligned_zero : (a : ℕ) → address_align 0 a ≡ 0) where
    -- All fields of the sum, from the first member on.
    struct_total :
        (ms : Members)
        → MembersFit address_align 0 ms
        → let r = fold_members address_align (struct_rules address_align) 0 no_layout ms in
          Sums no_layout ms r × (r.bits_size ≡ struct_end address_align 0 ms)
    unfolding fold_members member_step struct_rules largest any struct_end
    struct_total (last t) fits =
        let k = layout address_align t in
        (
          record {
            natural_alignment = max_or-zero k.natural_alignment;
            bits_struct_alignment = max_or-zero k.bits_struct_alignment;
            has_object = refl;
            has_retainable_type = refl;
          },
          omega (arith, aligned_zero k.bits_struct_alignment),
        )
    struct_total (more t ms) fits =
        let k = layout address_align t in
        let first = update_struct_first address_align no_layout k in
        let e : address_align 0 k.bits_struct_alignment + k.bits_size ≡ k.bits_size =
          omega (arith, aligned_zero k.bits_struct_alignment) in
        let s = struct-Sums 0 first ms in
        (
          record {
            natural_alignment = s.natural_alignment ∙ max_or-zero _;
            bits_struct_alignment = s.bits_struct_alignment ∙ max_or-zero _;
            has_object = s.has_object;
            has_retainable_type = s.has_retainable_type;
          },
          struct-bits_size 0 first ms (subst (λ b. MembersFit address_align b ms) e fits.2)
              ∙ ap (λ b. struct_end address_align b ms) (sym e),
        )

    pub layout-struct :
        (name : List ℕ) (ms : Members)
        → MembersFit address_align 0 ms
        → (layout address_align (struct name ms)).bits_size < 2 ^ 32
        → finalize_struct address_align
            (fold_members address_align (struct_rules address_align) 0 no_layout ms)
          ≡ layout address_align (struct name ms)
    unfolding finalize_struct layout
    layout-struct name ms fits small =
        let r = fold_members address_align (struct_rules address_align) 0 no_layout ms in
        let total = struct_total ms fits in
        let alignment = total.0.bits_struct_alignment ∙ zero-max_or _ in
        let bits = ap₂ address_align total.1 alignment in
        let size : address_align r.bits_size r.bits_struct_alignment % 2 ^ 32
            ≡ address_align (struct_end address_align 0 ms)
                (largest address_align (λ l. l.bits_struct_alignment) ms) =
          ap (λ b. b % 2 ^ 32) bits ∙ omega arith in
        Layout_path _ _ (ap (λ b. b / 8) size) (total.0.natural_alignment ∙ zero-max_or _) alignment
          size total.0.has_object total.0.has_retainable_type

  -- The sum of a union from a layout on.
  union_sum : Layout → Members → Layout
  union_sum l ms = record {
    natural_size = max_or l.natural_size (largest address_align (λ k. k.natural_size) ms);
    natural_alignment =
        max_or l.natural_alignment (largest address_align (λ k. k.natural_alignment) ms);
    bits_struct_alignment =
        max_or l.bits_struct_alignment (largest address_align (λ k. k.bits_struct_alignment) ms);
    bits_size = max_or l.bits_size (largest address_align (λ k. k.bits_size) ms);
    has_object = l.has_object || any address_align (λ k. k.has_object) ms;
    has_retainable_type =
        l.has_retainable_type || any address_align (λ k. k.has_retainable_type) ms;
  }

  union_sum-last :
      (l : Layout) (t : CType)
      → update_union address_align l (layout address_align t) ≡ union_sum l (last t)
  unfolding union_sum largest any update_union
  union_sum-last l t =
      let k = layout address_align t in
      Layout_path _ _ (max_or_comm k.natural_size l.natural_size)
        (max_or_comm k.natural_alignment l.natural_alignment)
        (max_or_comm k.bits_struct_alignment l.bits_struct_alignment)
        (max_or_comm k.bits_size l.bits_size) refl refl

  union_sum-more :
      (l : Layout) (t : CType) (ms : Members)
      → union_sum (update_union address_align l (layout address_align t)) ms
        ≡ union_sum l (more t ms)
  unfolding union_sum largest any update_union
  union_sum-more l t ms =
      let k = layout address_align t in
      Layout_path _ _ (max_or_assoc l.natural_size k.natural_size _)
        (max_or_assoc l.natural_alignment k.natural_alignment _)
        (max_or_assoc l.bits_struct_alignment k.bits_struct_alignment _)
        (max_or_assoc l.bits_size k.bits_size _) (or_assoc l.has_object k.has_object _)
        (or_assoc l.has_retainable_type k.has_retainable_type _)

  fold-union :
      (n : ℕ) (l : Layout) (ms : Members)
      → fold_members address_align (union_rules address_align) n l ms ≡ union_sum l ms
  unfolding fold_members member_step union_rules
  fold-union zero l (last t) = union_sum-last l t
  fold-union (suc n) l (last t) = union_sum-last l t
  fold-union zero l (more t ms) = fold-union 1 _ ms ∙ union_sum-more l t ms
  fold-union (suc n) l (more t ms) = fold-union (suc (suc n)) _ ms ∙ union_sum-more l t ms

  pub layout-union :
      (name : List ℕ) (ms : Members)
      → fold_members address_align (union_rules address_align) 0 no_layout ms
        ≡ layout address_align (union name ms)
  unfolding union_sum layout
  layout-union name ms =
      fold-union 0 no_layout ms
      ∙ Layout_path _ _ (zero-max_or _) (zero-max_or _) (zero-max_or _) (zero-max_or _) refl refl

  pub layout-array :
      (ds : List ℕ) (t : CType)
      → Fits address_align (array ds t)
      → array_layout (value 0 ds) (layout address_align t) ≡ layout address_align (array ds t)
  unfolding array_layout layout
  layout-array ds t h = Layout_path _ _ (omega arith) refl refl (omega arith) refl refl
