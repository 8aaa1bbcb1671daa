-- ===== src/Signature/Consume.antt =====
-- The parser ends, and what it leaves is shorter than what it was given, for any supplier.
use mathlib.Core.List.{tail}
use mulle_objc_runtime.Prelude.{
  ℕ, zero, suc, ◌+◌, ◌*◌, ◌<◌, ◌≤◌, ◌==◌, Bool, true, false, List, [], ◌∷◌, arith, length, Option,
  none, some, if◌then◌else◌,
}
use mulle_objc_runtime.Signature.{
  Layout, Typeinfo, Complexity, simple, complex, invalid, skip_digits,
}
use mulle_objc_runtime.Signature.Parse.{
  Parsed, parsed, malformed, trapped, out_of_fuel, Heading, members_at, no_members_at, unterminated,
  heading, enter, array_length, finish_array, with_info, start_aggregate, continue, switch,
  type_parse, members, parse_text, Aggregate, supply_bitfield_typeinfo, supply_object_typeinfo,
  is_first, wants, decays, struct_rules, union_rules,
}

-- The run ended, and with fewer than `n` bytes left.
pub Within : ℕ → Parsed → Type 0
Within n (parsed rest i) = length rest < n
Within n malformed = Unit
Within n trapped = Unit
Within n out_of_fuel = ⊥

Within-parsed :
    (n : ℕ) (rest : List ℕ) (i : Option Typeinfo) → length rest < n → Within n (parsed rest i)
unfolding Within
Within-parsed n rest i h = h

Within-malformed : (n : ℕ) → Within n malformed
unfolding Within
Within-malformed n = tt

Within-trapped : (n : ℕ) → Within n trapped
unfolding Within
Within-trapped n = tt

Within-weaken : (m n : ℕ) (r : Parsed) → m ≤ n → Within m r → Within n r
unfolding Within
Within-weaken m n (parsed rest i) h w = omega arith
Within-weaken m n malformed h w = tt
Within-weaken m n trapped h w = tt
Within-weaken m n out_of_fuel h w = w

Within-if :
    (n : ℕ) (b : Bool) (r s : Parsed) → Within n r → Within n s → Within n (if b then r else s)
Within-if n true r s h k = h
Within-if n false r s h k = k

Within-switch :
    (n : ℕ) (c : Complexity) (r s : Parsed) → Within n r → Within n s → Within n (switch c r s)
unfolding switch Within
Within-switch n simple r s h k = h
Within-switch n complex r s h k = k
Within-switch n invalid r s h k = tt

Within-with_info :
    (n : ℕ) (i : Option Typeinfo) (r : Parsed) → Within n r → Within n (with_info i r)
unfolding with_info Within
Within-with_info n i (parsed rest j) h = h
Within-with_info n i malformed h = tt
Within-with_info n i trapped h = tt
Within-with_info n i out_of_fuel h = h

Within-finish_array :
    (n k : ℕ) (i : Option Typeinfo) (r : Parsed) → Within n r → Within n (finish_array k i r)
unfolding finish_array Within
Within-finish_array n k i malformed h = tt
Within-finish_array n k i trapped h = tt
Within-finish_array n k i out_of_fuel h = h
Within-finish_array n k i (parsed [] j) h = tt
Within-finish_array n k none (parsed (c ∷ s) j) h =
    Within-if n (c == b']') (parsed s _) trapped (omega arith) tt
Within-finish_array n k (some i) (parsed (c ∷ s) none) h = tt
Within-finish_array n k (some i) (parsed (c ∷ s) (some j)) h =
    Within-if n (c == b']') (parsed s _) trapped (omega arith) tt

skip_digits_le : (s : List ℕ) → length (skip_digits s) ≤ length s
unfolding skip_digits
skip_digits_le [] = omega arith
skip_digits_le (c ∷ s) = ground (arith, skip_digits_le s)

abbrev HeadingWithin : ℕ → Heading → Type 0
HeadingWithin n (members_at s) = length s < n
HeadingWithin n (no_members_at s) = length s < n
HeadingWithin n unterminated = Unit

heading_weaken : (m n : ℕ) (h : Heading) → m ≤ n → HeadingWithin m h → HeadingWithin n h
heading_weaken m n (members_at s) e h = omega arith
heading_weaken m n (no_members_at s) e h = omega arith
heading_weaken m n unterminated e h = tt

heading_if :
    (n : ℕ) (b : Bool) (g h : Heading)
    → HeadingWithin n g
    → HeadingWithin n h
    → HeadingWithin n (if b then g else h)
heading_if n true g h a b = a
heading_if n false g h a b = b

heading_within : (close : ℕ) (s : List ℕ) → HeadingWithin (length s) (heading close s)
unfolding heading
heading_within close [] = tt
heading_within close (c ∷ s) = heading_if _ (c == close) _ _ (omega arith) (
    heading_if _ (c == b'=') _ _ (omega arith)
      (heading_weaken _ _ (heading close s) (omega arith) (heading_within close s)))

Within-enter :
    (m n : ℕ) (rules : Aggregate) (i : Option Typeinfo) (memo : List ℕ)
    (loop : List ℕ → Option Typeinfo → Parsed) (h : Heading)
    → m ≤ n
    → HeadingWithin m h
    → ((s : List ℕ) (j : Option Typeinfo) → length s < m → Within n (loop s j))
    → Within n (enter rules i memo loop h)
unfolding enter Within
Within-enter m n rules i memo loop (members_at s) e h f = f s _ h
Within-enter m n rules i memo loop (no_members_at s) e h f = omega arith
Within-enter m n rules i memo loop unterminated e h f = tt

Within-start :
    (rules : Aggregate) (i : Option Typeinfo) (s : List ℕ)
    (loop : List ℕ → Option Typeinfo → Parsed)
    → ((r : List ℕ) (j : Option Typeinfo)
        → length r < length s
        → Within (suc (length s)) (loop r j))
    → Within (suc (length s)) (start_aggregate rules i s loop)
unfolding start_aggregate
Within-start rules i s loop f =
    Within-enter (length s) _ rules i s loop (heading rules.close s) (omega arith)
      (heading_within rules.close s) f

Within-continue :
    (m n : ℕ) (rules : Aggregate) (k : ℕ) (i : Option Typeinfo) (r : Parsed)
    (loop : List ℕ → Option Typeinfo → Parsed)
    → Within m r
    → ((s : List ℕ) (j : Option Typeinfo) → length s < m → Within n (loop s j))
    → Within n (continue rules k i r loop)
unfolding continue Within
Within-continue m n rules k i (parsed s tmp) loop h f = f s _ h
Within-continue m n rules k i malformed loop h f = tt
Within-continue m n rules k i trapped loop h f = tt
Within-continue m n rules k i out_of_fuel loop h f = h

skip_less : (s : List ℕ) (n : ℕ) → length s < n → length (skip_digits s) < n
skip_less s n h = omega (arith, skip_digits_le s)

tail_less : (s : List ℕ) (n : ℕ) → length s < n → length (tail s) < n
tail_less [] n h = h
tail_less (c ∷ s) n h = omega arith

Within-bitfield :
    (n : ℕ) (i : Option Typeinfo) (s : List ℕ)
    → length s < n
    → Within n (supply_bitfield_typeinfo i s)
unfolding supply_bitfield_typeinfo
Within-bitfield n i s h =
    Within-if n _ _ _ (Within-trapped n) (Within-parsed n _ _ (skip_less s n h))

Within-object :
    (n : ℕ) (i : Option Typeinfo) (s : List ℕ)
    → length s < n
    → Within n (supply_object_typeinfo i s)
unfolding supply_object_typeinfo
Within-object n i [] h = Within-parsed n _ _ h
Within-object n i (c ∷ s) h =
    Within-if n (c == b'?') _ _ (Within-parsed n _ _ (omega arith)) (Within-parsed n _ _ h)

module _ (address_align : ℕ → ℕ → ℕ) (supplier : ℕ → Complexity × Layout) where
  mutual
    unfolding type_parse

    consumes :
        (f level : ℕ) (want : Bool) (s : List ℕ)
        → 2 * length s + 1 ≤ f
        → Within (length s) (type_parse address_align supplier f level want s)
    consumes zero level want s h = absurd (omega arith)
    consumes (suc f) level want [] h =
        Within-switch 0 _ trapped malformed (Within-trapped 0) (Within-malformed 0)
    consumes (suc f) level want (c ∷ s) h =
        let n : ℕ = suc (length s) in
        let m : ℕ = length s in
        let inner : (l : ℕ) (w : Bool) (r : List ℕ)
            → length r ≤ m
            → Within n (type_parse address_align supplier f l w r) =
          λ l w r k. Within-weaken (length r) n _ (omega arith) (consumes f l w r (omega arith)) in
        Within-switch n _ _ _ (Within-parsed n _ _ (omega arith)) (
          Within-if n _ _ _
            (Within-if n _ _ _ (Within-parsed n _ _ (tail_less s n (omega arith)))
              (Within-with_info n _ _ (inner (suc level) false s (omega arith))))
            (Within-if n _ _ _
              (Within-if n (decays level) _ _
                (Within-with_info n _ _ (
                  Within-finish_array n (array_length 0 s) none _
                    (inner (suc level) false (skip_digits s) (skip_digits_le s))))
                (Within-finish_array n _ _ _
                  (inner (suc level) want (skip_digits s) (skip_digits_le s))))
              (Within-if n _ _ _ (Within-bitfield n _ s (omega arith)) (
                Within-if n _ _ _ (Within-object n _ s (omega arith)) (
                  Within-if n _ _ _
                    (Within-start (struct_rules address_align) _ s _ (λ r j k.
                      Within-weaken (length r + 1) n _ (omega arith) (
                        consumes_members f level (struct_rules address_align) 0 r j (omega arith))))
                    (Within-if n _ _ _
                      (Within-start (union_rules address_align) _ s _ (λ r j k.
                        Within-weaken (length r + 1) n _ (omega arith) (
                          consumes_members f level (union_rules address_align) 0 r j
                            (omega arith))))
                      (Within-malformed n)))))))

    consumes_members :
        (f level : ℕ) (rules : Aggregate) (n : ℕ) (s : List ℕ) (i : Option Typeinfo)
        → 2 * length s + 2 ≤ f
        → Within (length s + 1) (members address_align supplier f level rules n s i)
    consumes_members zero level rules n s i h = absurd (omega arith)
    consumes_members (suc f) level rules n s i h =
        let m : ℕ = length s + 1 in
        let more =
          Within-continue (length s) m rules n i _
            (members address_align supplier f level rules (suc n))
            (consumes f (suc level) (wants i) s (omega arith))
            (λ r j k.
              Within-weaken (length r + 1) m _ (omega arith)
                (consumes_members f level rules (suc n) r j (omega arith))) in
        Within-if m (is_first n) _ _ more (
          Within-if m _ _ _ (Within-malformed m)
            (Within-if m _ _ _ (Within-parsed m _ _ (tail_less s m (omega arith))) more))

  -- The parser ends on every text, whatever the supplier says of the bytes, and where it does not
  -- reject the text or run into an assertion, it leaves less of it than it was given.
  pub parse_text-consumes :
      (level : ℕ) (want : Bool) (s : List ℕ)
      → Within (length s) (parse_text address_align supplier level want s)
  unfolding parse_text
  parse_text-consumes level want s = consumes (2 * length s + 2) level want s (omega arith)
