-- ===== src/Signature/Heads.antt =====
-- What the parser does with the first byte of an encoding.
use mathlib.Core.Path.{ap₂}
use mulle_objc_runtime.Prelude.{
  ℕ, zero, suc, ◌%◌, ◌^◌, ◌<◌, ◌≡◌, ◌≢◌, refl, ap, Bool, true, false, List, [], ◌∷◌, ◌++◌, arith,
  Option, none, some, ne→==-false, eq→==, ◌∙◌,
}
use mulle_objc_runtime.Signature.{
  Layout, Typeinfo, is_digit, char_at, supply_scalar_typeinfo, is_multi_character_type, c_type_info,
  type_info, sizeof_pointer, no_layout,
}
use mulle_objc_runtime.Signature.Encode.{Members, last, more, Digits, value, layout}
use mulle_objc_runtime.Signature.Wellformed.{Scalar, Scalar-single, Name, Nonempty}
use mulle_objc_runtime.Signature.Pieces.{array_length_lem, atoi_lem, skip_digits_lem, heading_lem}
use mulle_objc_runtime.Signature.Parse.{
  Parsed, parsed, type_parse, members, first_info, with_layout, name_members, struct_rules,
  union_rules, start_aggregate, bitfield_layout, Aggregate, array_layout, new_typeinfo,
}

-- A result that says `l` of the type at `s`, if an info is wanted.
abbrev pub Shows : Bool → List ℕ → Layout → Option Typeinfo → Type 0
Shows false s l i = i ≡ none
Shows true s l i = (ti : Typeinfo) × (i ≡ some ti) × (ti.layout ≡ l) × (ti.type ≡ s)

first_info-Shows :
    (want : Bool) (c : ℕ) (s : List ℕ)
    → Shows want
        (c ∷ s)
        (supply_scalar_typeinfo c).1
        (first_info supply_scalar_typeinfo want (c ∷ s))
unfolding first_info char_at
first_info-Shows true c s = (_, refl, refl, refl)
first_info-Shows false c s = refl

pub with_layout-Shows :
    (want : Bool) (s : List ℕ) (l : Layout)
    → Shows want s l (with_layout l 0 (first_info supply_scalar_typeinfo want s))
unfolding with_layout first_info
with_layout-Shows true s l = (_, refl, refl, refl)
with_layout-Shows false s l = refl

unfoldable pub member_step : Aggregate → ℕ → Layout → Layout → Layout
member_step rules zero l tmp = rules.first l tmp
member_step rules (suc n) l tmp = rules.subsequent l tmp

start_members :
    (rules : Aggregate) (info : Option Typeinfo) (name s : List ℕ)
    (loop : List ℕ → Option Typeinfo → Parsed)
    → rules.close ≢ b'='
    → Name rules.close name
    → start_aggregate rules info (name ++ b'=' ∷ s) loop
      ≡ loop s (name_members (name ++ b'=' ∷ s) s info)
unfolding start_aggregate
start_members rules info name s loop h n = rw (heading_lem rules.close name s h n, start_aggregate)

module _ (address_align : ℕ → ℕ → ℕ) where
  -- The parser with the default supplier.
  abbrev pub parse : ℕ → ℕ → Bool → List ℕ → Parsed
  parse = type_parse address_align supply_scalar_typeinfo

  abbrev pub Reads : ℕ → ℕ → Bool → List ℕ → List ℕ → Layout → Type 0
  Reads f level want s rest l =
      (i : Option Typeinfo) × (parse f level want s ≡ parsed rest i) × Shows want s l i

  -- A result of the loop over the members that says `l`, from the info that has layout `l₀`.
  abbrev pub ReadsMembers :
      ℕ → ℕ → Bool → Aggregate → ℕ → Layout → List ℕ → List ℕ → Layout → Type 0
  ReadsMembers f level false rules n start s rest l =
      members address_align supply_scalar_typeinfo f level rules n s none ≡ parsed rest none
  ReadsMembers f level true rules n start s rest l =
      (info : Typeinfo)
      → info.layout ≡ start
      → (ti : Typeinfo) × (members address_align supply_scalar_typeinfo f level rules n s
            (some info)
          ≡ parsed rest (some ti))
        × (ti.layout ≡ l)
        × (ti.type ≡ info.type)

  pub parse-Scalar :
      (f level : ℕ) (want : Bool) (c : ℕ) (s : List ℕ)
      → Scalar c
      → Reads (suc f) level want (c ∷ s) s (supply_scalar_typeinfo c).1
  unfolding type_parse
  parse-Scalar f level true c s h = (
    first_info supply_scalar_typeinfo true (c ∷ s),
    ground (arith, h.0),
    first_info-Shows true c s,
  )
  parse-Scalar f level false c s h = (none, ground (arith, Scalar-single c h), refl)

  pub parse-object :
      (f level : ℕ) (want : Bool) (s : List ℕ)
      → char_at s ≢ b'?'
      → Reads (suc f) level want (b'@' ∷ s) s (type_info sizeof_pointer true true)
  unfolding type_parse supply_scalar_typeinfo is_multi_character_type
  parse-object f level true [] h = (_, refl, with_layout-Shows true (b'@' ∷ []) _)
  parse-object f level true (c ∷ s) h =
      (_, rw (ne→==-false c b'?' h), with_layout-Shows true (b'@' ∷ c ∷ s) _)
  parse-object f level false [] h = (none, refl, refl)
  parse-object f level false (c ∷ s) h = (none, rw (ne→==-false c b'?' h), refl)

  pub parse-block :
      (f level : ℕ) (want : Bool) (s : List ℕ)
      → Reads (suc f) level want (b'@' ∷ b'?' ∷ s) s (c_type_info sizeof_pointer)
  unfolding type_parse supply_scalar_typeinfo is_multi_character_type
  parse-block f level true s = (_, refl, with_layout-Shows true (b'@' ∷ b'?' ∷ s) _)
  parse-block f level false s = (none, refl, refl)

  pub parse-function_pointer :
      (f level : ℕ) (want : Bool) (s : List ℕ)
      → Reads (suc (suc f)) level want (b'^' ∷ b'?' ∷ s) s (c_type_info sizeof_pointer)
  unfolding type_parse supply_scalar_typeinfo is_multi_character_type
  parse-function_pointer f level true s = (_, refl, with_layout-Shows true (b'^' ∷ b'?' ∷ s) _)
  parse-function_pointer f level false s = (none, refl, refl)

  pub parse-pointer :
      (f level : ℕ) (want : Bool) (s rest : List ℕ) (l : Layout)
      → char_at s ≢ b'?'
      → Reads f (suc level) false s rest l
      → Reads (suc f) level want (b'^' ∷ s) rest (c_type_info sizeof_pointer)
  unfolding type_parse supply_scalar_typeinfo is_multi_character_type
  parse-pointer f level true s rest l h r =
      (_, rw (ne→==-false (char_at s) b'?' h) (rw r.1), with_layout-Shows true (b'^' ∷ s) _)
  parse-pointer f level false s rest l h r = (none, rw r.1, refl)

  pub parse-bitfield :
      (f level : ℕ) (want : Bool) (ds s : List ℕ)
      → Digits ds
      → Nonempty ds
      → value 0 ds < 2 ^ 32
      → is_digit (char_at s) ≡ false
      → Reads (suc f) level want (b'b' ∷ (ds ++ s)) s (bitfield_layout (value 0 ds))
  unfolding type_parse supply_scalar_typeinfo is_multi_character_type
  parse-bitfield f level true ds s d n b h =
      let fits : value 0 ds % 2 ^ 32 ≡ value 0 ds = omega arith in
      let info =
        with_layout (bitfield_layout (value 0 ds)) (value 0 ds)
          (first_info supply_scalar_typeinfo true (b'b' ∷ (ds ++ s))) in
      (info, rw (atoi_lem ds s d n h, skip_digits_lem ds s d h, fits), (_, refl, refl, refl))
  parse-bitfield f level false ds s d n b h =
      (none, rw (atoi_lem ds s d n h, skip_digits_lem ds s d h), refl)

  -- An array whose item was read up to `]`.
  pub parse-array :
      (f level : ℕ) (want : Bool) (ds s rest : List ℕ) (l : Layout)
      → Digits ds
      → value 0 ds < 2 ^ 32
      → is_digit (char_at s) ≡ false
      → Reads f (suc (suc level)) want s (b']' ∷ rest) l
      → Reads (suc f) (suc level) want (b'[' ∷ (ds ++ s)) rest (array_layout (value 0 ds) l)
  unfolding type_parse supply_scalar_typeinfo is_multi_character_type
  parse-array f level true ds s rest l d b h (i, e, (ti, p, q, u)) =
      let info = record (new_typeinfo (b'[' ∷ (ds ++ s)) (array_layout (value 0 ds) ti.layout)) {
        member_type_start = some s;
        n_members = value 0 ds;
      } in
      (
        some info,
        rw (array_length_lem 0 ds s d b h, skip_digits_lem ds s d h, e, p),
        (info, refl, ap (array_layout (value 0 ds)) q, refl),
      )
  parse-array f level false ds s rest l d b h (i, e, p) =
      (none, rw (array_length_lem 0 ds s d b h, skip_digits_lem ds s d h, e), refl)

  -- The outermost array, where it stands for a pointer.
  pub parse-decayed :
      (f : ℕ) (want : Bool) (ds s rest : List ℕ) (l : Layout)
      → Digits ds
      → is_digit (char_at s) ≡ false
      → Reads f 1 false s (b']' ∷ rest) l
      → Reads (suc f) 0 want (b'[' ∷ (ds ++ s)) rest (c_type_info sizeof_pointer)
  unfolding type_parse supply_scalar_typeinfo is_multi_character_type
  parse-decayed f true ds s rest l d h (i, e, p) =
      (_, rw (skip_digits_lem ds s d h, e), with_layout-Shows true (b'[' ∷ (ds ++ s)) _)
  parse-decayed f false ds s rest l d h (i, e, p) = (none, rw (skip_digits_lem ds s d h, e), refl)

  pub parse-struct :
      (f level : ℕ) (want : Bool) (name s rest : List ℕ) (l : Layout)
      → Name b'}' name
      → ReadsMembers f level want (struct_rules address_align) 0 no_layout s rest l
      → Reads (suc f) level want (b'{' ∷ (name ++ b'=' ∷ s)) rest l
  unfolding type_parse supply_scalar_typeinfo is_multi_character_type struct_rules
  parse-struct f level true name s rest l n r =
      let new_info = new_typeinfo (b'{' ∷ (name ++ b'=' ∷ s)) no_layout in
      let info = record new_info { name = some (name ++ b'=' ∷ s); member_type_start = some s } in
      let (i, e, shown, type) = r info refl in
      (
        some i,
        start_members (struct_rules address_align) (some new_info) name s
              (members address_align supply_scalar_typeinfo f level (struct_rules address_align) 0)
              (omega arith) n
            ∙ e,
        (i, refl, shown, type),
      )
  parse-struct f level false name s rest l n r = (
    none,
    start_members (struct_rules address_align) none name s
          (members address_align supply_scalar_typeinfo f level (struct_rules address_align) 0)
          (omega arith) n
        ∙ r,
    refl,
  )

  pub parse-union :
      (f level : ℕ) (want : Bool) (name s rest : List ℕ) (l : Layout)
      → Name b')' name
      → ReadsMembers f level want (union_rules address_align) 0 no_layout s rest l
      → Reads (suc f) level want (b'(' ∷ (name ++ b'=' ∷ s)) rest l
  unfolding type_parse supply_scalar_typeinfo is_multi_character_type union_rules
  parse-union f level true name s rest l n r =
      let new_info = new_typeinfo (b'(' ∷ (name ++ b'=' ∷ s)) no_layout in
      let info = record new_info { name = some (name ++ b'=' ∷ s); member_type_start = some s } in
      let (i, e, shown, type) = r info refl in
      (
        some i,
        start_members (union_rules address_align) (some new_info) name s
              (members address_align supply_scalar_typeinfo f level (union_rules address_align) 0)
              (omega arith) n
            ∙ e,
        (i, refl, shown, type),
      )
  parse-union f level false name s rest l n r = (
    none,
    start_members (union_rules address_align) none name s
          (members address_align supply_scalar_typeinfo f level (union_rules address_align) 0)
          (omega arith) n
        ∙ r,
    refl,
  )

  -- How the layouts of the members add up in the loop.
  unfoldable pub fold_members : Aggregate → ℕ → Layout → Members → Layout
  fold_members rules n l (last t) = member_step rules n l (layout address_align t)
  fold_members rules n l (more t ms) =
      fold_members rules (suc n) (member_step rules n l (layout address_align t)) ms

  -- One round of the loop, before another member and at the end.
  pub members-more :
      (f level : ℕ) (want : Bool) (rules : Aggregate) (n : ℕ) (start tl l : Layout)
      (s next rest : List ℕ)
      → char_at s ≢ 0
      → char_at s ≢ rules.close
      → Reads f (suc level) want s next tl
      → ReadsMembers f level want rules (suc n) (member_step rules n start tl) next rest l
      → ReadsMembers (suc f) level want rules n start s rest l
  unfolding members member_step
  members-more f level true rules zero start tl l s next rest z c (i, e, (ti, p, q, u)) r =
      λ info e₀.
        let (to, e', q', u') =
          r (record info { layout = rules.first info.layout ti.layout }) (ap₂ rules.first e₀ q) in
        (to, rw (e, p) e', q', u')
  members-more f level true rules (suc n) start tl l s next rest z c (i, e, (ti, p, q, u)) r =
      λ info e₀.
        let (to, e', q', u') =
          r (record info { layout = rules.subsequent info.layout ti.layout })
            (ap₂ rules.subsequent e₀ q) in
        (
          to,
          rw (ne→==-false (char_at s) 0 z, ne→==-false (char_at s) rules.close c, e, p) e',
          q',
          u',
        )
  members-more f level false rules zero start tl l s next rest z c (i, e, p) r = rw e r
  members-more f level false rules (suc n) start tl l s next rest z c (i, e, p) r =
      rw (ne→==-false (char_at s) 0 z, ne→==-false (char_at s) rules.close c, e) r

  pub members-end :
      (f level : ℕ) (want : Bool) (rules : Aggregate) (n : ℕ) (l : Layout) (rest : List ℕ)
      → rules.close ≢ 0
      → ReadsMembers (suc f) level want rules (suc n) l (rules.close ∷ rest) rest (rules.finalize l)
  unfolding members
  members-end f level true rules n l rest h = λ info e. (
    record info { layout = rules.finalize info.layout; n_members = suc n },
    rw (ne→==-false rules.close 0 h, eq→== rules.close rules.close refl),
    ap rules.finalize e,
    refl,
  )
  members-end f level false rules n l rest h =
      rw (ne→==-false rules.close 0 h, eq→== rules.close rules.close refl)
