-- ===== src/Signature/Parse.antt =====
-- `_mulle_objc_type_parse` and the functions for arrays, bitfields, structs and unions.
use mathlib.Core.List.{tail}
use mulle_objc_runtime.Prelude.{
  ℕ, zero, suc, ◌+◌, ◌-◌, ◌*◌, ◌/◌, ◌%◌, ◌^◌, ◌==◌, ltb, leb, Bool, true, false, ◌&&◌, ◌||◌, Option,
  none, some, List, [], ◌∷◌, if◌then◌else◌, length,
}
use mulle_objc_runtime.Signature.{
  Layout, Typeinfo, Complexity, simple, complex, invalid, type_info, c_type_info, sizeof_pointer,
  is_multi_character_type, is_digit, char_at, skip_digits,
}

-- `malformed` is the NULL result with EINVAL. In a run that is `trapped` an assertion or a test for
-- `abort` failed, or the cursor passed the terminating NUL.
pub data Parsed : Type 0 where
  parsed : List ℕ → Option Typeinfo → Parsed
  malformed trapped out_of_fuel : Parsed

-- What a struct and a union do differently, for an encoding that ends in `close`.
pub record Aggregate : Type 0 where
  pub close : ℕ
  pub first : Layout → Layout → Layout
  pub subsequent : Layout → Layout → Layout
  pub finalize : Layout → Layout

-- The start of an aggregate: its members begin, it ends without any, or the string ends.
pub data Heading : Type 0 where
  members_at no_members_at : List ℕ → Heading
  unterminated : Heading

-- The rounds of the loop in which `n` is 0 and `c` is skipped.
unfoldable pub heading : ℕ → List ℕ → Heading
heading close [] = unterminated
heading close (c ∷ s) =
    if c == close then no_members_at s else if c == b'=' then members_at s else heading close s

-- `atoi`, its sign and its magnitude.
unfoldable pub atoi_digits : ℕ → List ℕ → ℕ
unfolding is_digit
atoi_digits acc [] = acc
atoi_digits acc (c ∷ s) = if is_digit c then atoi_digits (acc * 10 + (c - b'0')) s else acc

unfoldable pub atoi : List ℕ → Bool × ℕ
unfolding atoi_digits
atoi [] = (false, 0)
atoi (c ∷ s) =
    let rest = atoi s in
    if c == 32 || leb 9 c && leb c 13
    then rest
    else if c == b'-'
    then (true, atoi_digits 0 s)
    else if c == b'+'
    then (false, atoi_digits 0 s)
    else (false, atoi_digits 0 (c ∷ s))

-- The digits of an array's length, which goes into an unsigned int.
unfoldable pub array_length : ℕ → List ℕ → ℕ
unfolding is_digit
array_length len [] = len
array_length len (c ∷ s) =
    if is_digit c then array_length ((len * 10 + (c - b'0')) % 2 ^ 32) s else len

unfoldable pub bitfield_layout : ℕ → Layout
bitfield_layout n = record {
  natural_size = ((n + 7) / 8 + 4 - 1) / 4;
  natural_alignment = 0;
  bits_struct_alignment = 1;
  bits_size = n;
  has_object = false;
  has_retainable_type = false;
}

abbrev pub new_typeinfo : List ℕ → Layout → Typeinfo
new_typeinfo s layout = record {
  type = s;
  pure_type_end = none;
  member_type_start = none;
  name = none;
  n_members = 0;
  invocation_offset = 0;
  layout = layout;
}

-- A result that stores the layout and the number of members, if there is a typeinfo.
unfoldable pub with_layout : Layout → ℕ → Option Typeinfo → Option Typeinfo
with_layout layout n none = none
with_layout layout n (some info) = some (record info { layout = layout; n_members = n })

unfoldable pub supply_bitfield_typeinfo : Option Typeinfo → List ℕ → Parsed
unfolding atoi bitfield_layout with_layout
supply_bitfield_typeinfo info s =
    let (negative, len) = atoi s in
    if negative && ltb 0 len
    then trapped
    else parsed (skip_digits s) (with_layout (bitfield_layout (len % 2 ^ 32)) (len % 2 ^ 32) info)

-- `_update_array_typeinfo_with_length`: sizes are of type size_t.
unfoldable pub array_layout : ℕ → Layout → Layout
array_layout n tmp = record tmp {
  bits_size = n * tmp.bits_size % 2 ^ 64;
  natural_size = n * tmp.natural_size % 2 ^ 64;
}

-- After the member of an array, where `]` is asserted.
unfoldable pub finish_array : ℕ → Option Typeinfo → Parsed → Parsed
unfolding array_layout
finish_array n info malformed = malformed
finish_array n info trapped = trapped
finish_array n info out_of_fuel = out_of_fuel
finish_array n info (parsed [] tmp) = trapped
finish_array n none (parsed (c ∷ s) tmp) = if c == b']' then parsed s none else trapped
finish_array n (some info) (parsed (c ∷ s) none) = trapped
finish_array n (some info) (parsed (c ∷ s) (some tmp)) =
    if c == b']'
    then parsed s (some (record info { layout = array_layout n tmp.layout; n_members = n }))
    else trapped

abbrev pub max_or : ℕ → ℕ → ℕ
max_or a b = if ltb b a then a else b

-- `_mulle_objc_signature_supply_object_typeinfo` and `.._block_typeinfo`.
unfoldable pub supply_object_typeinfo : Option Typeinfo → List ℕ → Parsed
unfolding with_layout char_at
supply_object_typeinfo info [] = parsed [] (with_layout (type_info sizeof_pointer true true) 0 info)
supply_object_typeinfo info (c ∷ s) =
    if c == b'?'
    then parsed s (with_layout (c_type_info sizeof_pointer) 0 info)
    else parsed (c ∷ s) (with_layout (type_info sizeof_pointer true true) 0 info)

-- Whether the outermost array stands for a pointer: the C code's level, plus 1, is 0.
abbrev pub decays : ℕ → Bool
decays zero = true
decays (suc level) = false

-- `mulle_address_align` is not the runtime's.
module _ (address_align : ℕ → ℕ → ℕ) where
  unfoldable pub update_struct_first : Layout → Layout → Layout
  update_struct_first info tmp = record tmp { natural_size = info.natural_size }

  unfoldable pub update_struct_subsequent : Layout → Layout → Layout
  update_struct_subsequent info tmp = record {
    natural_size = info.natural_size;
    natural_alignment = max_or tmp.natural_alignment info.natural_alignment;
    bits_struct_alignment = max_or tmp.bits_struct_alignment info.bits_struct_alignment;
    bits_size =
        (address_align info.bits_size tmp.bits_struct_alignment % 2 ^ 32 + tmp.bits_size) % 2 ^ 64;
    has_object = info.has_object || tmp.has_object;
    has_retainable_type = info.has_retainable_type || tmp.has_retainable_type;
  }

  unfoldable pub finalize_struct : Layout → Layout
  finalize_struct info =
      let bits = address_align info.bits_size info.bits_struct_alignment % 2 ^ 32 in
      record info { bits_size = bits; natural_size = bits / 8 }

  unfoldable pub update_union : Layout → Layout → Layout
  update_union info tmp = record {
    natural_size = max_or tmp.natural_size info.natural_size;
    natural_alignment = max_or tmp.natural_alignment info.natural_alignment;
    bits_struct_alignment = max_or tmp.bits_struct_alignment info.bits_struct_alignment;
    bits_size = max_or tmp.bits_size info.bits_size;
    has_object = info.has_object || tmp.has_object;
    has_retainable_type = info.has_retainable_type || tmp.has_retainable_type;
  }

  unfoldable pub struct_rules : Aggregate
  unfolding update_struct_first update_struct_subsequent finalize_struct
  struct_rules = record {
    close = b'}';
    first = update_struct_first;
    subsequent = update_struct_subsequent;
    finalize = finalize_struct;
  }

  unfoldable pub union_rules : Aggregate
  unfolding update_union
  union_rules = record {
    close = b')';
    first = update_union;
    subsequent = update_union;
    finalize = λ info. info;
  }

-- One member goes into its aggregate.
unfoldable pub merge : Aggregate → ℕ → Option Typeinfo → Option Typeinfo → Option Typeinfo
merge rules n none tmp = none
merge rules n (some info) none = some info
merge rules zero (some info) (some tmp) =
    some (record info { layout = rules.first info.layout tmp.layout })
merge rules (suc n) (some info) (some tmp) =
    some (record info { layout = rules.subsequent info.layout tmp.layout })

unfoldable pub finish_aggregate : Aggregate → ℕ → Option Typeinfo → Option Typeinfo
finish_aggregate rules n none = none
finish_aggregate rules n (some info) =
    some (record info { layout = rules.finalize info.layout; n_members = n })

abbrev pub wants : Option Typeinfo → Bool
wants none = false
wants (some _) = true

-- `info->name` is the name's first byte, `info->member_type_start` the first member's.
unfoldable pub name_members : List ℕ → List ℕ → Option Typeinfo → Option Typeinfo
name_members memo s none = none
name_members memo s (some info) =
    some (record info { name = some memo; member_type_start = some s })

unfoldable pub start_array : List ℕ → Option Typeinfo → Option Typeinfo
start_array s none = none
start_array s (some info) = some (record info { member_type_start = some s })

abbrev pub is_first : ℕ → Bool
is_first zero = true
is_first (suc n) = false

-- The result, with the info that was filled in before the call.
unfoldable pub with_info : Option Typeinfo → Parsed → Parsed
with_info info (parsed s _) = parsed s info
with_info info malformed = malformed
with_info info trapped = trapped
with_info info out_of_fuel = out_of_fuel

unfoldable pub enter :
    Aggregate → Option Typeinfo → List ℕ → (List ℕ → Option Typeinfo → Parsed) → Heading → Parsed
unfolding name_members finish_aggregate
enter rules info memo loop (members_at start) = loop start (name_members memo start info)
enter rules info memo loop (no_members_at rest) = parsed rest (finish_aggregate rules 0 info)
enter rules info memo loop unterminated = malformed

unfoldable pub start_aggregate :
    Aggregate → Option Typeinfo → List ℕ → (List ℕ → Option Typeinfo → Parsed) → Parsed
unfolding heading enter
start_aggregate rules info s loop = enter rules info s loop (heading rules.close s)

-- What the loop over the members does with the result for one of them.
unfoldable pub continue :
    Aggregate → ℕ → Option Typeinfo → Parsed → (List ℕ → Option Typeinfo → Parsed) → Parsed
unfolding merge
continue rules n info (parsed s tmp) loop = loop s (merge rules n info tmp)
continue rules n info malformed loop = malformed
continue rules n info trapped loop = trapped
continue rules n info out_of_fuel loop = out_of_fuel

-- `switch( isComplex)`.
unfoldable pub switch : Complexity → Parsed → Parsed → Parsed
switch simple single multi = single
switch complex single multi = multi
switch invalid single multi = malformed

-- A supplier says of a byte how it is parsed, and lays it out. The second argument of
-- `type_parse` is the C code's level plus 1, the third says whether an info is wanted.
module _ (supplier : ℕ → Complexity × Layout) where
  unfoldable pub complexity : Bool → ℕ → Complexity
  complexity true c = (supplier c).0
  complexity false c = if is_multi_character_type c then complex else simple

  unfoldable pub first_info : Bool → List ℕ → Option Typeinfo
  first_info false s = none
  first_info true s = some (new_typeinfo s (supplier (char_at s)).1)

module _ (address_align : ℕ → ℕ → ℕ) (supplier : ℕ → Complexity × Layout) where
  unfoldable mutual
    unfolding supply_bitfield_typeinfo finish_array array_length merge continue with_info
        start_array finish_aggregate complexity switch first_info name_members with_layout
        supply_object_typeinfo skip_digits char_at heading

    pub type_parse : ℕ → ℕ → Bool → List ℕ → Parsed
    type_parse zero level want s = out_of_fuel
    type_parse (suc f) level want [] = switch (complexity supplier want 0) trapped malformed
    type_parse (suc f) level want (c ∷ s) =
        let info = first_info supplier want (c ∷ s) in
        let pointer = with_layout (c_type_info sizeof_pointer) 0 info in
        let pointed = with_info pointer (type_parse f (suc level) false s) in
        let items =
          let n = array_length 0 s in
          let start = skip_digits s in
          if decays level
          then with_info pointer (finish_array n none (type_parse f (suc level) false start))
          else finish_array n (start_array start info) (type_parse f (suc level) want start) in
        let fields =
          start_aggregate (struct_rules address_align) info s
            (members f level (struct_rules address_align) 0) in
        let choices =
          start_aggregate (union_rules address_align) info s
            (members f level (union_rules address_align) 0) in
        let multi =
          if c == b'^'
          then if want && char_at s == b'?' then parsed (tail s) pointer else pointed
          else if c == b'['
          then items
          else if c == b'b'
          then supply_bitfield_typeinfo info s
          else if c == b'@'
          then supply_object_typeinfo info s
          else if c == b'{'
          then fields
          else if c == b'('
          then choices
          else malformed in
        switch (complexity supplier want c) (parsed s info) multi

    -- The loop over the members, of which `n` are read.
    pub members : ℕ → ℕ → Aggregate → ℕ → List ℕ → Option Typeinfo → Parsed
    members zero level rules n s info = out_of_fuel
    members (suc f) level rules n s info =
        let more =
          continue rules n info (type_parse f (suc level) (wants info) s)
            (members f level rules (suc n)) in
        if is_first n
        then more
        else if char_at s == 0
        then malformed
        else if char_at s == rules.close
        then parsed (tail s) (finish_aggregate rules n info)
        else more

  -- `_mulle_objc_type_parse`, with fuel that no text uses up.
  unfoldable pub parse_text : ℕ → Bool → List ℕ → Parsed
  parse_text level want s = type_parse (2 * length s + 2) level want s
