-- ===== src/Signature/Frames.antt =====
-- A whole signature: how many types it has, and where `mulle_objc_signature_fill_arginfos` puts its
-- arguments in the frame of an invocation.
use mathlib.Core.List.{append_assoc}
use mathlib.Core.Path.{ap₂}
use mulle_objc_runtime.Prelude.{
  ℕ, zero, suc, ◌+◌, ◌-◌, ◌%◌, ◌^◌, ◌<◌, ◌≤◌, ◌≡◌, ◌≢◌, ◌∙◌, refl, sym, ap, true, Option, some,
  List, [], ◌∷◌, ◌++◌, arith, length, length-append, set, to_nat, lt→ltb,
}
use mulle_objc_runtime.Signature.{Layout, Typeinfo, char_at}
use mulle_objc_runtime.Signature.Encode.{CType, Digits, encode, layout}
use mulle_objc_runtime.Signature.Wellformed.{IsWellformed, Follows, encode-Starts, Fits}
use mulle_objc_runtime.Signature.RoundTrip.{cost-lt-length}
use mulle_objc_runtime.Signature.Steps.{
  IsPlain, Starts-IsPlain, end-IsPlain, next_type-encode, supply-encode, frame_start,
}
use mulle_objc_runtime.Signature.Walk.{
  supplied, at, count_loop, count_typeinfos, next_type, supply_typeinfo, dummy_supplier,
}
use mulle_objc_runtime.Signature.Enumerator.{
  Arginfo, arginfo, Signatureenumerator, yields, enumerate, enumerator_next, fill_loop, fill_from,
  fill_arginfos, nonempty, enumerate_from, enumerator_rval, start_supplier,
}

-- The types with the digits behind them.
abbrev pub Types : Type 0
Types = List (CType × List ℕ)

unfoldable pub text : Types → List ℕ
text [] = []
text ((t, ds) ∷ r) = encode t ++ (ds ++ text r)

abbrev pub IsSignature : Types → Type 0
IsSignature [] = Unit
IsSignature ((t, ds) ∷ r) = IsWellformed t × Digits ds × Follows t (ds ++ text r) × IsSignature r

pub text-IsPlain : (r : Types) → IsSignature r → IsPlain (char_at (text r))
unfolding text
text-IsPlain [] w = end-IsPlain
text-IsPlain ((t, ds) ∷ r) w = Starts-IsPlain _ (encode-Starts t (ds ++ text r) w.0)

length-text :
    (t : CType) (ds : List ℕ) (r : Types)
    → length (text ((t, ds) ∷ r)) ≡ length (encode t) + (length ds + length (text r))
unfolding text
length-text t ds r =
    length-append (encode t) (ds ++ text r)
    ∙ ap (λ n. length (encode t) + n) (length-append ds (text r))

pub length-le-text : (r : Types) → IsSignature r → length r ≤ length (text r)
length-le-text [] w = omega arith
length-le-text ((t, ds) ∷ r) w =
    omega (arith, length-le-text r w.3, length-text t ds r, cost-lt-length t)

nonempty_lem : (s : List ℕ) → char_at s ≢ 0 → nonempty s ≡ some s
unfolding nonempty char_at
nonempty_lem [] h = absurd (h refl)
nonempty_lem (c ∷ s) h = refl

set-append :
    (xs : List Arginfo) (y v : Arginfo) (ys : List Arginfo)
    → set (xs ++ y ∷ ys) (length xs) v ≡ xs ++ v ∷ ys
set-append [] y v ys = refl
set-append (x ∷ xs) y v ys = ap (λ l. x ∷ l) (set-append xs y v ys)

length-append_args : (xs ys : List Arginfo) → length (xs ++ ys) ≡ length xs + length ys
length-append_args = length-append

module _ (address_align : ℕ → ℕ → ℕ) (aligned_zero : (a : ℕ) → address_align 0 a ≡ 0) where
  pub next_type-text :
      (t : CType) (ds : List ℕ) (r : Types)
      → IsSignature ((t, ds) ∷ r)
      → next_type address_align (text ((t, ds) ∷ r)) ≡ at (text r)
  unfolding text
  next_type-text t ds r w =
      next_type-encode address_align aligned_zero t ds (text r) w.0 w.1 w.2 (text-IsPlain r w.3)

  counts_more :
      (f n : ℕ) (s s' : List ℕ)
      → next_type address_align s ≡ at s'
      → count_loop address_align (suc f) n s ≡ count_loop address_align f (n + 1) s'
  unfolding count_loop
  counts_more f n s s' e = rw (e, count_loop)

  counts_end : (f n : ℕ) → count_loop address_align (suc f) n (text []) ≡ some n
  unfolding count_loop next_type text
  counts_end f n = refl

  counts :
      (r : Types) (f n : ℕ)
      → length r < f
      → IsSignature r
      → count_loop address_align f n (text r) ≡ some (n + length r)
  counts r zero n h w = absurd (omega arith)
  counts [] (suc f) n h w = counts_end f n ∙ ap some (omega arith)
  counts ((t, ds) ∷ r) (suc f) n h w =
      counts_more f n (text ((t, ds) ∷ r)) (text r) (next_type-text t ds r w)
      ∙ (counts r f (n + 1) (omega arith) w.3 ∙ ap some (omega arith))

  -- The number of types that are counted in a signature, well-formed types written one after the
  -- other with digits between them, is that of the types in it.
  pub count_typeinfos-text :
      (r : Types) → IsSignature r → count_typeinfos address_align (text r) ≡ some (length r)
  unfolding count_typeinfos
  count_typeinfos-text r w =
      counts r (length (text r) + 1) 0 (omega (arith, length-le-text r w)) w ∙ ap some (omega arith)

  -- Each argument's place, from the position `index` and the `offset` on; `n` is the length of the
  -- whole text.
  unfoldable pub arginfos : ℕ → ℕ → ℕ → Types → List Arginfo
  unfolding text
  arginfos n index offset [] = []
  arginfos n index offset ((t, ds) ∷ r) =
      let l = layout address_align t in
      let start = frame_start address_align index offset l in
      record {
        invocation_offset = start;
        natural_size = l.natural_size;
        type_offset = (n - length (text ((t, ds) ∷ r))) % 2 ^ 16;
        natural_alignment = l.natural_alignment % 2 ^ 8;
        has_retainable_type = to_nat l.has_retainable_type;
      }
      ∷ arginfos n (index + 1) (start + l.natural_size) r

  unfoldable pub frame_end : ℕ → ℕ → Types → ℕ
  frame_end index offset [] = offset
  frame_end index offset ((t, ds) ∷ r) =
      let l = layout address_align t in
      frame_end (index + 1) (frame_start address_align index offset l + l.natural_size) r

  abbrev pub FrameFits : ℕ → ℕ → Types → Type 0
  FrameFits index offset [] = Unit
  FrameFits index offset ((t, ds) ∷ r) =
      let l = layout address_align t in
      let end = frame_start address_align index offset l + l.natural_size in
      Fits address_align t × (end < 2 ^ 32) × FrameFits (index + 1) end r

  -- The enumerator in front of the arguments.
  abbrev rover_at : ℕ → ℕ → Option Typeinfo → Types → Signatureenumerator
  rover_at index offset rval r = record {
    types = nonempty (text r);
    supplier = record { index = index; level = 1; invocation_offset = some offset };
    rval = rval;
  }

  nonempty-text :
      (t : CType) (ds : List ℕ) (r : Types)
      → IsSignature ((t, ds) ∷ r)
      → nonempty (text ((t, ds) ∷ r)) ≡ some (text ((t, ds) ∷ r))
  unfolding text
  nonempty-text t ds r w = nonempty_lem _ (encode-Starts t (ds ++ text r) w.0).nonzero

  pub text-nonzero :
      (t : CType) (ds : List ℕ) (r : Types)
      → IsSignature ((t, ds) ∷ r)
      → char_at (text ((t, ds) ∷ r)) ≢ 0
  unfolding text
  text-nonzero t ds r w = (encode-Starts t (ds ++ text r) w.0).nonzero

  pub supply-text :
      (index offset : ℕ) (t : CType) (ds : List ℕ) (r : Types)
      → IsSignature ((t, ds) ∷ r)
      → Fits address_align t
      → frame_start address_align index offset (layout address_align t)
          + (layout address_align t).natural_size
        < 2 ^ 32
      → let l = layout address_align t in
        let start = frame_start address_align index offset l in
        (info : Typeinfo) × (supply_typeinfo address_align
            (text ((t, ds) ∷ r))
            (record { index = index; level = 1; invocation_offset = some offset })
            true
          ≡ supplied
              (text r)
              (record {
                index = index;
                level = 1;
                invocation_offset = some (start + l.natural_size);
              })
              (some info))
        × (info.layout ≡ l)
        × (info.type ≡ text ((t, ds) ∷ r))
        × (info.invocation_offset ≡ start)
  unfolding text
  supply-text index offset t ds r w fits small =
      let (info, e, a, b, c, d) =
        supply-encode address_align aligned_zero t ds (text r) index offset w.0 fits w.1 w.2
          (text-IsPlain r w.3) small in
      (info, e, a, b, d)

  next-text :
      (index offset : ℕ) (rval : Option Typeinfo) (t : CType) (ds : List ℕ) (r : Types)
      → IsSignature ((t, ds) ∷ r)
      → FrameFits index offset ((t, ds) ∷ r)
      → let l = layout address_align t in
        let start = frame_start address_align index offset l in
        (info : Typeinfo) × (enumerator_next address_align
            (rover_at index offset rval ((t, ds) ∷ r))
          ≡ yields (rover_at (index + 1) (start + l.natural_size) rval r) (some info))
        × (info.layout ≡ l)
        × (info.type ≡ text ((t, ds) ∷ r))
        × (info.invocation_offset ≡ start)
  unfolding enumerator_next
  next-text index offset rval t ds r w fits =
      let (info, e, a, b, c) = supply-text index offset t ds r w fits.0 fits.1 in
      (info, rw (nonempty-text t ds r w, e), a, b, c)

  rval-path :
      (whole : List ℕ) (end : ℕ) (l : Layout) (info : Typeinfo)
      → info.layout ≡ l
      → info.type ≡ whole
      → l.natural_size < 2 ^ 32
      → end < 2 ^ 32
      → arginfo whole (record info { invocation_offset = end }) ≡ record {
        invocation_offset = end;
        natural_size = l.natural_size;
        type_offset = 0;
        natural_alignment = l.natural_alignment % 2 ^ 8;
        has_retainable_type = to_nat l.has_retainable_type;
      }
  unfolding arginfo
  rval-path whole end l info a b small fits =
      let n : l.natural_size % 2 ^ 32 ≡ l.natural_size = omega arith in
      let m : end % 2 ^ 32 ≡ end = omega arith in
      let z : (length whole - length whole) % 2 ^ 16 ≡ 0 = omega arith in rw (a, b, n, m, z)

  -- What the entry for a supplied type holds.
  arginfo-path :
      (whole : List ℕ) (index offset : ℕ) (t : CType) (ds : List ℕ) (r : Types) (info : Typeinfo)
      → FrameFits index offset ((t, ds) ∷ r)
      → info.layout ≡ layout address_align t
      → info.type ≡ text ((t, ds) ∷ r)
      → info.invocation_offset ≡ frame_start address_align index offset (layout address_align t)
      → arginfo whole info
          ∷ arginfos
              (length whole)
              (index + 1)
              (frame_start address_align index offset (layout address_align t)
                + (layout address_align t).natural_size)
              r
        ≡ arginfos (length whole) index offset ((t, ds) ∷ r)
  unfolding arginfo arginfos
  arginfo-path whole index offset t ds r info fits a b c =
      let l = layout address_align t in
      let start = frame_start address_align index offset l in
      let small : start % 2 ^ 32 ≡ start = omega (arith, fits.1) in
      let small_size : l.natural_size % 2 ^ 32 ≡ l.natural_size = omega (arith, fits.1) in
      rw (a, b, c, small, small_size)

  arginfos_end : (n index offset : ℕ) → arginfos n index offset [] ≡ []
  unfolding arginfos
  arginfos_end n index offset = refl

  fill_arginfos-cons :
      (s : List ℕ) (i : Arginfo) (infos : List Arginfo)
      → char_at s ≢ 0
      → fill_arginfos address_align s (i ∷ infos)
        ≡ fill_from address_align s (i ∷ infos) (enumerate address_align s)
  unfolding fill_arginfos char_at
  fill_arginfos-cons [] i infos h = absurd (h refl)
  fill_arginfos-cons (c ∷ s) i infos h = refl

  enumerate-cons :
      (s : List ℕ)
      → char_at s ≢ 0
      → enumerate address_align s
        ≡ enumerate_from (supply_typeinfo address_align s dummy_supplier true)
  unfolding enumerate char_at
  enumerate-cons [] h = absurd (h refl)
  enumerate-cons (c ∷ s) h = refl

  fill_end :
      (f index offset p : ℕ) (whole : List ℕ) (rval : Typeinfo) (i : Arginfo) (l : List Arginfo)
      → fill_loop address_align (suc f) whole p (rover_at index offset (some rval) []) (i ∷ l)
        ≡ some (arginfo whole (record rval { invocation_offset = offset }) ∷ l)
  unfolding fill_loop enumerator_next enumerator_rval nonempty text
  fill_end f index offset p whole rval i l = refl

  fill_more :
      (f p : ℕ) (whole : List ℕ) (rover rover' : Signatureenumerator) (info : Typeinfo)
      (l : List Arginfo)
      → enumerator_next address_align rover ≡ yields rover' (some info)
      → p < length l
      → fill_loop address_align (suc f) whole p rover l
        ≡ fill_loop address_align f whole (p + 1) rover' (set l p (arginfo whole info))
  unfolding fill_loop
  fill_more f p whole rover rover' info l q h = rw (q, fill_loop) (rw (lt→ltb p (length l) h))

  fills :
      (r : Types) (f index offset : ℕ) (whole : List ℕ) (rval : Typeinfo) (i : Arginfo)
      (before after : List Arginfo)
      → length r < f
      → length after ≡ length r
      → IsSignature r
      → FrameFits index offset r
      → fill_loop address_align f whole
          (length (i ∷ before))
          (rover_at index offset (some rval) r)
          (i ∷ (before ++ after))
        ≡ some (
            arginfo whole (record rval { invocation_offset = frame_end index offset r })
            ∷ (before ++ arginfos (length whole) index offset r))
  unfolding frame_end
  fills r zero index offset whole rval i before after h e w fits = absurd (omega arith)
  fills [] (suc f) index offset whole rval i before [] h e w fits =
      fill_end f index offset _ whole rval i (before ++ [])
      ∙ ap (λ l. some (arginfo whole (record rval { invocation_offset = offset }) ∷ l))
          (ap (λ l. before ++ l) (sym (arginfos_end (length whole) index offset)))
  fills [] (suc f) index offset whole rval i before (a ∷ after) h e w fits = absurd (omega arith)
  fills ((t, ds) ∷ r) (suc f) index offset whole rval i before [] h e w fits = absurd (omega arith)
  fills ((t, ds) ∷ r) (suc f) index offset whole rval i before (a ∷ after) h e w fits =
      let (info, q, la, ty, of) = next-text index offset (some rval) t ds r w fits in
      let l = layout address_align t in
      let end = frame_start address_align index offset l + l.natural_size in
      let v = arginfo whole info in
      let room : suc (length before) < length (i ∷ (before ++ a ∷ after)) =
        omega (arith, length-append_args before (a ∷ after)) in
      let next = rover_at (index + 1) end (some rval) r in
      let last = frame_end (index + 1) end r in
      let stored : set (i ∷ (before ++ a ∷ after)) (suc (length before)) v
          ≡ i ∷ ((before ++ v ∷ []) ++ after) =
        ap (λ k. i ∷ k) (set-append before a v after ∙ sym (append_assoc before (v ∷ []) after)) in
      let position : suc (length before) + 1 ≡ suc (length (before ++ v ∷ [])) =
        omega (arith, length-append_args before (v ∷ [])) in
      fill_more f (suc (length before)) whole _ next info _ q room
      ∙ (ap₂ (λ p k. fill_loop address_align f whole p next k) position stored
          ∙ (fills r f (index + 1) end whole rval i (before ++ v ∷ []) after (omega arith)
                (omega arith) w.3 fits.2
              ∙ ap (λ k. some (arginfo whole (record rval { invocation_offset = last }) ∷ k))
                  (append_assoc before (v ∷ []) _
                    ∙ ap (λ k. before ++ k)
                        (arginfo-path whole index offset t ds r info fits la ty of))))

  -- `mulle_objc_signature_fill_arginfos` with an entry for each type: behind the entry for the
  -- return value stand the arguments in order, each at the next place in the frame that is a
  -- multiple of its alignment (that of a long double for the third), and the return value lies
  -- behind the last of them, with no alignment of its own. The types are well-formed, written one
  -- after the other with digits between them, and they and the frame fit 32 bits; the address 0
  -- stays 0 when it is aligned.
  pub fill_arginfos-text :
      (t : CType) (ds : List ℕ) (r : Types) (i : Arginfo) (infos : List Arginfo)
      → IsSignature ((t, ds) ∷ r)
      → length infos ≡ length r
      → Fits address_align t
      → frame_start address_align 0 0 (layout address_align t)
          + (layout address_align t).natural_size
        < 2 ^ 32
      → FrameFits 0 0 r
      → frame_end 0 0 r < 2 ^ 32
      → let whole = text ((t, ds) ∷ r) in
        let l = layout address_align t in
        fill_arginfos address_align whole (i ∷ infos)
        ≡ some (
            record {
              invocation_offset = frame_end 0 0 r;
              natural_size = l.natural_size;
              type_offset = 0;
              natural_alignment = l.natural_alignment % 2 ^ 8;
              has_retainable_type = to_nat l.has_retainable_type;
            }
            ∷ arginfos (length whole) 0 0 r)
  unfolding enumerate_from fill_from dummy_supplier start_supplier
  fill_arginfos-text t ds r i infos w e fits small frame end =
      let whole = text ((t, ds) ∷ r) in
      let l = layout address_align t in
      let (info, q, la, ty, of) = supply-text 0 0 t ds r w fits small in
      let begins = text-nonzero t ds r w in
      fill_arginfos-cons whole i infos begins
      ∙ (ap (fill_from address_align whole (i ∷ infos))
            (enumerate-cons whole begins ∙ ap enumerate_from q)
          ∙ (fills r (length whole + 1) 0 0 whole info i [] infos
                (omega (arith, length-le-text ((t, ds) ∷ r) w)) e w.3 frame
              ∙ ap (λ a. some (a ∷ arginfos (length whole) 0 0 r))
                  (rval-path whole (frame_end 0 0 r) l info la ty (omega arith) end)))
