-- ===== src/Ber/Total.antt =====
-- `readObject` and `ToDER` of internal/ber/ber.go neither index out of range nor loop for ever, and
-- what they accept is well formed.
use certkit.Prelude.{ℕ, zero, suc, ◌+◌, ◌-◌, ◌*◌, ◌%◌, ◌≤◌, ◌<◌, ◌≡◌, refl, ap, ◌∙◌, arith}
use certkit.Prelude.{List, [], ◌∷◌, Bool, true, false, ◌&&◌, ◌||◌, not, bit_and, ◌⊎◌, inl, inr}
use certkit.Prelude.{length, take, drop, ltb, leb, ◌==◌, if◌then◌else◌, All, All-drop, ==_iff}
use certkit.Prelude.{length-take, length-drop, subst, Bool-cases}
use certkit.Ber.Encode.{encode}
use mathlib.Core.Bool.{false≢true}
use certkit.Prelude.Bits.{table_holds, table_entry}
use certkit.Result.{ok, err}
use certkit.Result.{
  Ensures, returns, refuses, Ensures-if, Ensures-guard, Ensures-bind, Ensures-total, Ensures-map,
}
use certkit.Ber.Object.{Object, Objects, structured, primitive, nil, cons}
use certkit.Ber.Read.{Error, Extent, skip_tag, read_tag, length_bytes, long_length}
use certkit.Ber.Read.{read_length, is_indefinite_termination, read_object, read_children, to_der}
use certkit.Ber.Read.{cannot_move, length_too_long, length_past_data, length_negative, leading_zero}
use certkit.Ber.Read.{
  too_deep, past_end, indefinite_primitive, child_exceeds_parent, empty_input, trailing_data,
}
use certkit.Ber.Suffix.{byte-Ensures, slice-Ensures}

abbrev pub IsBytes : List ℕ → Type 0
IsBytes = All (λ b. b < 256)

low_seven_checked : table_holds 256 (λ l. bit_and l 0x7f == l % 128) ≡ true
unfolding table_holds
low_seven_checked = refl

pub low_seven : (l : ℕ) → l < 256 → bit_and l 0x7f ≡ l % 128
low_seven l h = (==_iff _ _).0 (table_entry 256 _ l low_seven_checked h)

-- The octets of a high tag number: every octet but the last has its top bit set.
abbrev pub IsHigh : List ℕ → Type 0
IsHigh [] = ⊥
IsHigh (x ∷ []) = x < 0x80
IsHigh (x ∷ y ∷ ys) = (0x80 ≤ x) × IsHigh (y ∷ ys)

-- Identifier octets: the first, and those of a high tag number behind it.
abbrev pub IsTag : List ℕ → Type 0
IsTag [] = ⊥
IsTag (b ∷ more) =
    ((bit_and b 0x1f == 0x1f) ≡ true) × IsHigh more
    ⊎ ((bit_and b 0x1f == 0x1f) ≡ false) × (more ≡ [])

-- The bit that tells a constructed encoding from a primitive one.
abbrev pub is_primitive : List ℕ → Bool
is_primitive [] = true
is_primitive (b ∷ more) = bit_and b 0x20 == 0

IsHigh-cons : (b : ℕ) (xs : List ℕ) → 0x80 ≤ b → IsHigh xs → IsHigh (b ∷ xs)
IsHigh-cons b [] h k = absurd k
IsHigh-cons b (x ∷ xs) h k = (h, k)

module _ (ber : List ℕ) where
  skip_tag-Ensures :
      (fuel offset : ℕ)
      → length ber ≤ offset + fuel
      → offset < length ber
      → Ensures
          (λ last.
            (offset ≤ last)
            × (last < length ber)
            × IsHigh (take (last + 1 - offset) (drop offset ber)))
          (skip_tag fuel ber offset)
  unfolding skip_tag
  skip_tag-Ensures zero offset f h = absurd (omega arith)
  skip_tag-Ensures (suc fuel) offset f h = Ensures-bind (byte-Ensures ber offset h) λ b here.
      Ensures-if (ltb b 0x80) (λ low. returns (omega arith, h, last_octet b here low))
        (λ top. Ensures-guard (ltb (offset + 1) (length ber)) cannot_move λ inside.
          Ensures-map (skip_tag-Ensures fuel (offset + 1) (omega arith) (ground arith))
            λ last (p, q, r). (omega arith, q, octet b last here top p r))
    where
      last_octet :
          (b : ℕ)
          → drop offset ber ≡ b ∷ drop (offset + 1) ber
          → ltb b 0x80 ≡ true
          → IsHigh (take (offset + 1 - offset) (drop offset ber))
      last_octet b here low =
          let one : offset + 1 - offset ≡ 1 = omega arith in rw (one, here) (ground arith)

      octet :
          (b last : ℕ)
          → drop offset ber ≡ b ∷ drop (offset + 1) ber
          → ltb b 0x80 ≡ false
          → offset + 1 ≤ last
          → IsHigh (take (last + 1 - (offset + 1)) (drop (offset + 1) ber))
          → IsHigh (take (last + 1 - offset) (drop offset ber))
      octet b last here top p r =
          let more : last + 1 - offset ≡ suc (last + 1 - (offset + 1)) = omega arith in
          rw (more, here) (IsHigh-cons b _ (ground arith) r)

  -- The first octet, and the offset behind the identifier octets, which leaves room for a length.
  abbrev TagAt : ℕ → ℕ × ℕ → Type 0
  TagAt offset (b, e) =
      (offset + 1 ≤ e)
      × (e < length ber)
      × (more : List ℕ) × (take (e - offset) (drop offset ber) ≡ b ∷ more)
      × IsTag (b ∷ more)

  read_tag-Ensures :
      (offset : ℕ) → offset < length ber → Ensures (TagAt offset) (read_tag ber offset)
  unfolding read_tag
  read_tag-Ensures offset h = Ensures-bind (byte-Ensures ber offset h) λ b here.
      Ensures-guard (ltb (offset + 1) (length ber)) cannot_move λ inside.
        Ensures-if (bit_and b 0x1f == 0x1f)
          (λ high.
            Ensures-bind (skip_tag-Ensures (length ber) (offset + 1) (omega arith) (ground arith))
              λ last (p, q, r). Ensures-guard (ltb (last + 1) (length ber)) cannot_move λ room.
                returns (
                  omega arith,
                  ground arith,
                  take (last + 1 - (offset + 1)) (drop (offset + 1) ber),
                  tag_octets b (last + 1) here (omega arith),
                  inl (high, r),
                ))
          (λ low. returns (omega arith, ground arith, [], one_octet b here, inr (low, refl)))
    where
      tag_octets :
          (b e : ℕ)
          → drop offset ber ≡ b ∷ drop (offset + 1) ber
          → offset + 1 ≤ e
          → take (e - offset) (drop offset ber)
            ≡ b ∷ take (e - (offset + 1)) (drop (offset + 1) ber)
      tag_octets b e here p =
          let more : e - offset ≡ suc (e - (offset + 1)) = omega arith in rw (more, here)

      one_octet :
          (b : ℕ)
          → drop offset ber ≡ b ∷ drop (offset + 1) ber
          → take (offset + 1 - offset) (drop offset ber) ≡ b ∷ []
      one_octet b here = let one : offset + 1 - offset ≡ 1 = omega arith in rw (one, here)

  length_bytes-Ensures :
      (rounds offset n : ℕ)
      → offset + rounds ≤ length ber
      → Ensures (λ r. r.1 ≡ offset + rounds) (length_bytes rounds ber offset n)
  unfolding length_bytes
  length_bytes-Ensures zero offset n h = returns (omega arith)
  length_bytes-Ensures (suc rounds) offset n h =
      Ensures-bind (byte-Ensures ber offset (omega arith)) λ b here.
        Ensures-guard (leb (offset + 1) (length ber)) cannot_move λ inside.
          Ensures-map (length_bytes-Ensures rounds (offset + 1) (n * 256 + b) (omega arith))
            λ r e. omega arith

  -- The length octets stand inside the input, at least one of them.
  abbrev ExtentAt : ℕ → Extent → Type 0
  ExtentAt offset x = (offset + 1 ≤ x.start) × (x.start ≤ length ber)

  long_length-Ensures :
      (n offset : ℕ) → 1 ≤ n → Ensures (ExtentAt (offset - 1)) (long_length ber n offset)
  unfolding long_length
  long_length-Ensures n offset pos = Ensures-guard (leb n 4) length_too_long λ _.
      Ensures-guard (leb (offset + n) (length ber)) length_past_data λ inside.
        Ensures-bind (byte-Ensures ber offset (ground arith)) λ first here.
          Ensures-guard (not (n == 4 && ltb 0x7f first)) length_negative λ _.
            Ensures-guard (not (first == 0)) leading_zero λ _.
              Ensures-bind (length_bytes-Ensures n offset 0 (ground arith))
                λ (v, behind) e. returns (ground arith, ground arith)

  read_length-Ensures :
      (offset : ℕ)
      → IsBytes ber
      → offset < length ber
      → Ensures (ExtentAt offset) (read_length ber offset)
  unfolding read_length
  read_length-Ensures offset bytes h = Ensures-bind (byte-Ensures ber offset h) λ l here.
      Ensures-guard (leb (offset + 1) (length ber)) cannot_move λ inside.
        Ensures-if (ltb 0x80 l)
          (λ long.
            let small : l < 256 = (subst IsBytes here (All-drop _ offset ber bytes)).0 in
            Ensures-map
              (long_length-Ensures (bit_and l 0x7f) (offset + 1)
                (rw (low_seven l small) (ground arith)))
              λ x (p, q). (omega arith, q))
          (λ _.
            Ensures-if (l == 0x80) (λ _. returns (omega arith, omega arith))
              (λ _. returns (omega arith, omega arith)))

-- An object at nesting depth `d` that the reader may yield: its tag fits its form, a primitive
-- object has the length that it states, and no object lies deeper than 128.
mutual
  pub data IsObject : ℕ → Object → Type 0 where
    leaf :
        {d n : ℕ} {tag content : List ℕ}
        → d ≤ 128
        → IsTag tag
        → is_primitive tag ≡ true
        → n ≡ length content
        → IsObject d (primitive tag n content)
    branch :
        {d : ℕ} {tag : List ℕ} {content : Objects}
        → d ≤ 128
        → IsTag tag
        → is_primitive tag ≡ false
        → AreObjects (d + 1) content
        → IsObject d (structured tag content)

  pub data AreObjects : ℕ → Objects → Type 0 where
    none_left : {d : ℕ} → AreObjects d nil
    one_more :
        {d : ℕ} {o : Object} {os : Objects}
        → IsObject d o
        → AreObjects d os
        → AreObjects d (cons o os)

module _ (ber : List ℕ) (bytes : IsBytes ber) where
  abbrev ObjectAt : ℕ → ℕ → Object × ℕ → Type 0
  ObjectAt depth offset (obj, behind) =
      (offset + 2 ≤ behind) × (behind ≤ length ber) × IsObject depth obj

  abbrev ChildrenAt : ℕ → ℕ → ℕ → Bool → Objects × ℕ → Type 0
  ChildrenAt depth offset content_end indefinite (subs, behind) =
      (offset ≤ behind)
      × (behind ≤ length ber)
      × (indefinite ≡ false → behind ≡ content_end)
      × AreObjects depth subs

  termination-Ensures :
      (offset : ℕ) → Ensures (λ _. offset + 2 ≤ length ber) (is_indefinite_termination ber offset)
  unfolding is_indefinite_termination
  termination-Ensures offset =
      Ensures-if (ltb (length ber - offset) 2) (λ _. refuses) (λ far. returns (ground arith))

  terminated-Ensures :
      (indefinite : Bool) (offset : ℕ)
      → Ensures
          (λ terminated. terminated ≡ true → (indefinite ≡ true) × (offset + 2 ≤ length ber))
          (if indefinite then is_indefinite_termination ber offset else ok false)
  terminated-Ensures true offset = Ensures-map (termination-Ensures offset) λ _ h _. (refl, h)
  terminated-Ensures false offset = returns λ e. absurd (false≢true e)

  content-length :
      (start size : ℕ) (content : List ℕ)
      → start + size ≤ length ber
      → content ≡ take (start + size - start) (drop start ber)
      → size ≡ length content
  content-length start size content fits e = omega (
    arith,
    ap length e,
    length-take (start + size - start) (drop start ber),
    length-drop start ber,
  )

  IsTag-taken :
      (offset b tag_end : ℕ) (tag : List ℕ)
      → TagAt ber offset (b, tag_end)
      → tag ≡ take (tag_end - offset) (drop offset ber)
      → IsTag tag × (is_primitive tag ≡ (bit_and b 0x20 == 0))
  IsTag-taken offset b tag_end tag (p, q, more, same, good) e =
      let whole : tag ≡ b ∷ more = e ∙ same in rw whole (good, refl)

mutual
  unfolding read_object

  read_object-Ensures :
      (fuel : ℕ) (ber : List ℕ) (bytes : IsBytes ber) (offset depth : ℕ)
      → length ber + 1 ≤ offset + fuel
      → 1 ≤ fuel
      → Ensures (ObjectAt ber bytes depth offset) (read_object fuel ber offset depth)
  read_object-Ensures zero ber bytes offset depth f g = absurd (omega arith)
  read_object-Ensures (suc fuel) ber bytes offset depth f g =
      Ensures-guard (leb depth 128) too_deep λ shallow.
        Ensures-guard (ltb offset (length ber)) past_end λ inside.
          Ensures-bind (read_tag-Ensures ber offset (ground arith)) λ (b, tag_end) tag.
            Ensures-bind (read_length-Ensures ber tag_end bytes tag.1) λ x at.
              Ensures-guard (leb (x.start + x.size) (length ber)) length_past_data λ fits.
                Ensures-guard (not (x.indefinite && bit_and b 0x20 == 0)) indefinite_primitive λ _.
                  Ensures-bind (slice-Ensures ber offset tag_end (omega arith) (omega arith))
                    λ octets same.
                      let (good, form) = IsTag-taken ber bytes offset b tag_end octets tag same in
                      Ensures-if (bit_and b 0x20 == 0)
                        (λ prim.
                          Ensures-bind
                            (slice-Ensures ber x.start (x.start + x.size) (omega arith)
                              (ground arith))
                            λ content cut. returns (
                              omega arith,
                              ground arith,
                              leaf (ground arith) good (form ∙ prim) (
                                  content-length ber bytes x.start x.size content (ground arith)
                                    cut),
                            ))
                        (λ cons.
                          Ensures-bind
                            (read_children-Ensures fuel ber bytes x.start (x.start + x.size)
                              x.indefinite depth (omega arith) (omega arith) at.1
                              (λ _. omega arith))
                            λ (subs, behind) (p, q, r, s). returns (
                              ground arith,
                              ground arith,
                              branch (ground arith) good (form ∙ cons) s,
                            ))

  read_children-Ensures :
      (fuel : ℕ) (ber : List ℕ) (bytes : IsBytes ber) (offset content_end : ℕ) (indefinite : Bool)
      (depth : ℕ)
      → length ber + 2 ≤ offset + fuel
      → 2 ≤ fuel
      → offset ≤ length ber
      → (indefinite ≡ false → offset ≤ content_end)
      → Ensures
          (ChildrenAt ber bytes (depth + 1) offset content_end indefinite)
          (read_children fuel ber offset content_end indefinite depth)
  read_children-Ensures zero ber bytes offset content_end indefinite depth f g u h =
      absurd (omega arith)
  read_children-Ensures (suc fuel) ber bytes offset content_end indefinite depth f g u h =
      Ensures-if (ltb offset content_end || indefinite)
        (λ more. Ensures-bind (terminated-Ensures ber bytes indefinite offset) λ terminated at_end.
          Ensures-if terminated
            (λ stop.
              let (open_ended, room) = at_end stop in
              returns (omega arith, room, (λ e. cc), none_left))
            (λ _.
              Ensures-bind
                (read_object-Ensures fuel ber bytes offset (depth + 1) (omega arith) (omega arith))
                λ (sub, behind) (p, q, r).
                  Ensures-guard (indefinite || leb behind content_end) child_exceeds_parent λ fits.
                    Ensures-bind
                      (read_children-Ensures fuel ber bytes behind content_end indefinite depth
                        (omega arith) (omega arith) q (λ e. ground arith))
                      λ (subs, last) (p', q', r', s').
                        returns (omega arith, q', r', one_more r s')))
        (λ done. returns (omega arith, u, (λ e. ground arith), none_left))

-- On any input of bytes `ToDER` ends without an index or a slice out of range: it returns an error,
-- or the encoding of one object that spans the whole input, whose tags fit their forms, whose
-- primitive parts have the lengths that they state and that is nested at most 128 deep.
pub to_der_total :
    (ber : List ℕ)
    → IsBytes ber
    → ((obj : Object) × (to_der ber ≡ ok (encode obj))
        × IsObject 0 obj
        × (read_object (length ber + 3) ber 0 0 ≡ ok (obj, length ber)))
      ⊎ ((e : Error) × (to_der ber ≡ err e))
unfolding to_der
to_der_total ber bytes =
    elim (Ensures-total
      (read_object-Ensures (length ber + 3) ber bytes 0 0 (omega arith) (omega arith))) [
        | inl ((obj, offset), e, (p, q, r)) ↦ elim (Bool-cases (length ber == 0)) [
          | inl empty ↦ inr (empty_input, ground arith)
          | inr full ↦ elim (Bool-cases (offset == length ber)) [
            | inl whole ↦ inl (obj, ground arith, r, ground arith)
            | inr rest ↦ inr (trailing_data, ground arith)
          ]
        ]
        | inr (x, e) ↦ elim (Bool-cases (length ber == 0)) [
          | inl empty ↦ inr (empty_input, ground arith)
          | inr full ↦ inr (x, ground arith)
        ]
      ]
