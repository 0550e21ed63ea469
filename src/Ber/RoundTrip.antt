-- ===== src/Ber/RoundTrip.antt =====
-- `readObject` of internal/ber/ber.go reads back what `EncodeTo` wrote, so `ToDER` leaves its own
-- output as it is.
use certkit.Prelude.{ℕ, zero, suc, ◌+◌, ◌-◌, ◌^◌, ◌≤◌, ◌<◌, ◌≡◌, refl, sym, ap, ◌∙◌, arith, subst}
use certkit.Prelude.{List, [], ◌∷◌, ◌++◌, append_assoc, append-nil, bit_and, true, false, inl, inr}
use certkit.Prelude.{length, length-append, length-drop, ◌==◌}
use certkit.Result.{ok}
use certkit.Ber.Object.{Object, Objects, structured, primitive, nil, cons}
use certkit.Ber.Encode.{encode, encode_all, encode_length}
use certkit.Ber.Read.{skip_tag, read_tag, read_object, read_children, to_der}
use certkit.Ber.Read.{read_length, slice}
use certkit.Ber.Suffix.{From, From-length, From-next, From-append, byte-From, slice-From}
use certkit.Ber.Total.{IsBytes, IsHigh, IsTag, is_primitive, to_der_total}
use certkit.Ber.Total.{IsObject, AreObjects, leaf, branch, none_left, one_more}
use certkit.Ber.Lengths.{read_length-encode_length}

skip_tag-From :
    (xs : List ℕ) (fuel : ℕ) (ber : List ℕ) (o y : ℕ) (post : List ℕ)
    → IsHigh xs
    → From ber o (xs ++ y ∷ post)
    → length xs ≤ fuel
    → skip_tag fuel ber o ≡ ok (o + length xs - 1)
unfolding skip_tag
skip_tag-From [] fuel ber o y post high h f = absurd high
skip_tag-From (x ∷ xs) zero ber o y post high h f = absurd (omega arith)
skip_tag-From (x ∷ []) (suc fuel) ber o y post high h f =
    ground (arith, byte-From ber o x (y ∷ post) h)
skip_tag-From (x ∷ x' ∷ xs) (suc fuel) ber o y post high h f =
    let rest = (x' ∷ xs) ++ y ∷ post in
    ground (
      arith,
      byte-From ber o x rest h,
      From-length ber o x rest h,
      skip_tag-From (x' ∷ xs) fuel ber (o + 1) y post high.1 (From-next ber o x rest h)
          (omega arith),
    )

first_octet : List ℕ → ℕ
first_octet [] = 0
first_octet (b ∷ more) = b

read_tag-From :
    (tag : List ℕ) (ber : List ℕ) (o y : ℕ) (post : List ℕ)
    → IsTag tag
    → From ber o (tag ++ y ∷ post)
    → read_tag ber o ≡ ok (first_octet tag, o + length tag)
unfolding read_tag first_octet
read_tag-From [] ber o y post good h = absurd good
read_tag-From (b ∷ []) ber o y post (inl (high, bad)) h = absurd bad
read_tag-From (b ∷ m ∷ more) ber o y post (inl (high, good)) h =
    let rest = (m ∷ more) ++ y ∷ post in
    let next = From-next ber o b rest h in
    ground (
      arith,
      byte-From ber o b rest h,
      From-length ber o b rest h,
      length-append (m ∷ more) (y ∷ post),
      skip_tag-From (m ∷ more) (length ber) ber (o + 1) y post good next,
    )
read_tag-From (b ∷ []) ber o y post (inr (low, alone)) h =
    ground (arith, byte-From ber o b (y ∷ post) h, From-length ber o b (y ∷ post) h)
read_tag-From (b ∷ m ∷ more) ber o y post (inr (low, alone)) h = cc

length-encode_length : (n : ℕ) → 1 ≤ length (encode_length n)
unfolding encode_length
length-encode_length n = ground arith

IsTag-length : (tag : List ℕ) → IsTag tag → 1 ≤ length tag
IsTag-length [] good = absurd good
IsTag-length (b ∷ more) good = omega arith

length-encode : {d : ℕ} {obj : Object} → IsObject d obj → 2 ≤ length (encode obj)
unfolding encode
length-encode (leaf {n} {tag} {content} p good q r) =
    rw (length-append tag, length-append)
      (omega (arith, IsTag-length tag good, length-encode_length n))
length-encode (branch {tag} {content} p good q r) =
    rw (length-append tag, length-append)
      (omega (arith, IsTag-length tag good, length-encode_length (length (encode_all content))))

-- The parts of an encoding that starts at `o`: the tag, the length octets and `inner` behind them.
record Parts (ber : List ℕ) (o : ℕ) (tag : List ℕ) (n : ℕ) (inner post : List ℕ) : Type 0 where
  tag_read : read_tag ber o ≡ ok (first_octet tag, o + length tag)
  length_read :
      read_length ber (o + length tag)
      ≡ ok (record {
        size = n;
        indefinite = false;
        start = o + length tag + length (encode_length n);
      })
  tag_cut : slice ber o (o + length tag) ≡ ok tag
  inner_at : From ber (o + length tag + length (encode_length n)) (inner ++ post)
  whole : o + length tag + length (encode_length n) + length inner + length post ≡ length ber
  inside : o < length ber

parts :
    (ber : List ℕ) (o : ℕ) (tag : List ℕ) (n : ℕ) (inner post : List ℕ)
    → IsTag tag
    → n < 2 ^ 31
    → From ber o ((tag ++ (encode_length n ++ inner)) ++ post)
    → Parts ber o tag n inner post
parts ber o tag n inner post good fits h = record {
  tag_read =
      let (y, ys, e) = octets (encode_length n) (length-encode_length n) in
      read_tag-From tag ber o y (ys ++ (inner ++ post)) good
        (at_tag ∙ ap (λ (l : List ℕ). tag ++ (l ++ (inner ++ post))) e);
  length_read = read_length-encode_length ber n (o + length tag) (inner ++ post) fits at_length;
  tag_cut =
      slice-From ber o (o + length tag) tag _ (omega (arith, size, IsTag-length tag good)) at_tag
        refl;
  inner_at = From-append ber (o + length tag) (encode_length n) (inner ++ post) at_length;
  whole = omega (arith, size, IsTag-length tag good);
  inside = omega (arith, size, IsTag-length tag good);
}
  where
    octets : (xs : List ℕ) → 1 ≤ length xs → (y : ℕ) × (ys : List ℕ) × (xs ≡ y ∷ ys)
    octets [] h = absurd (omega arith)
    octets (y ∷ ys) h = (y, ys, refl)

    at_tag : From ber o (tag ++ (encode_length n ++ (inner ++ post)))
    at_tag = h ∙ simp append_assoc

    at_length : From ber (o + length tag) (encode_length n ++ (inner ++ post))
    at_length = From-append ber o tag (encode_length n ++ (inner ++ post)) at_tag

    size : length ber - o ≡ length tag + (length (encode_length n) + (length inner + length post))
    size = sym (length-drop o ber) ∙ ap length at_tag ∙ simp length-append

first_octet-form :
    (tag : List ℕ) → IsTag tag → is_primitive tag ≡ (bit_and (first_octet tag) 0x20 == 0)
unfolding first_octet
first_octet-form [] good = absurd good
first_octet-form (b ∷ more) good = refl

abbrev behind_length : ℕ → List ℕ → ℕ → ℕ
behind_length o tag n = o + length tag + length (encode_length n)

module _ (fuel : ℕ) (ber : List ℕ) (o d : ℕ) (shallow : d ≤ 128) where
  read_leaf :
      (tag : List ℕ) (n : ℕ) (content post : List ℕ)
      → IsTag tag
      → is_primitive tag ≡ true
      → n ≡ length content
      → Parts ber o tag n content post
      → read_object (suc fuel) ber o d ≡ ok (primitive tag n content, behind_length o tag n + n)
  unfolding read_object
  read_leaf tag n content post good form size p = ground (
    arith,
    p.tag_read,
    p.length_read,
    p.tag_cut,
    p.whole,
    p.inside,
    first_octet-form tag good,
    slice-From ber (behind_length o tag n) (behind_length o tag n + n) content post
        (omega (arith, p.whole)) p.inner_at (ap (λ (k : ℕ). behind_length o tag n + k) size),
  )

  read_branch :
      (tag inner post : List ℕ) (os : Objects)
      → IsTag tag
      → is_primitive tag ≡ false
      → Parts ber o tag (length inner) inner post
      → let from = behind_length o tag (length inner) in
        read_children fuel ber from (from + length inner) false d ≡ ok (os, from + length inner)
        → read_object (suc fuel) ber o d
          ≡ ok (structured tag os, behind_length o tag (length inner) + length inner)
  unfolding read_object
  read_branch tag inner post os good form p children = ground (
    arith,
    p.tag_read,
    p.length_read,
    p.tag_cut,
    p.whole,
    p.inside,
    first_octet-form tag good,
    children,
  )

read_more :
    (fuel : ℕ) (ber : List ℕ) (o d : ℕ) (sub : Object) (subs : Objects) (size content_end : ℕ)
    → 0 < size
    → o + size ≤ content_end
    → read_object fuel ber o (d + 1) ≡ ok (sub, o + size)
    → read_children fuel ber (o + size) content_end false d ≡ ok (subs, content_end)
    → read_children (suc fuel) ber o content_end false d ≡ ok (cons sub subs, content_end)
unfolding read_object
read_more fuel ber o d sub subs size content_end pos fits head rest = ground (arith, head, rest)

read_none :
    (fuel : ℕ) (ber : List ℕ) (o depth content_end : ℕ)
    → content_end ≡ o
    → read_children (suc fuel) ber o content_end false depth ≡ ok (nil, content_end)
unfolding read_object
read_none fuel ber o depth content_end same = ground arith

inner_fits :
    (ber : List ℕ) (o : ℕ) (tag octets inner post : List ℕ)
    → From ber o ((tag ++ (octets ++ inner)) ++ post)
    → length inner ≤ length ber
inner_fits ber o tag octets inner post h =
    let size : length ber - o ≡ length tag + (length octets + length inner) + length post =
      sym (length-drop o ber) ∙ ap length h ∙ simp length-append in
    omega (arith, size)

length-three : (a b c : List ℕ) → length (a ++ (b ++ c)) ≡ length a + length b + length c
length-three a b c = rw (length-append a, length-append b) (omega arith)

mutual
  unfolding encode

  read_object-encode :
      {d : ℕ} {obj : Object}
      → IsObject d obj
      → (fuel : ℕ) (ber : List ℕ) (o : ℕ) (post : List ℕ) → From ber o (encode obj ++ post)
      → length ber < 2 ^ 31
      → length ber + 1 ≤ o + fuel
      → 1 ≤ fuel
      → read_object fuel ber o d ≡ ok (obj, o + length (encode obj))
  read_object-encode wf zero ber o post h small f g = absurd (omega arith)
  read_object-encode (leaf {d} {n} {tag} {content} shallow good form size) (suc fuel) ber o post h
        small f g =
      let fits = inner_fits ber o tag (encode_length n) content post h in
      let p = parts ber o tag n content post good (omega (arith, size, fits)) h in
      read_leaf fuel ber o d shallow tag n content post good form size p
      ∙ ap (λ (e : ℕ). ok (primitive tag n content, e))
          (omega (arith, size, length-three tag (encode_length n) content))
  read_object-encode (branch {d} {tag} {content} shallow good form wfs) (suc fuel) ber o post h
        small f g =
      let inner = encode_all content in
      let n = length inner in
      let fits = inner_fits ber o tag (encode_length n) inner post h in
      let p = parts ber o tag n inner post good (omega (arith, fits)) h in
      let from = behind_length o tag n in
      let room : o + 2 ≤ from = omega (arith, IsTag-length tag good, length-encode_length n) in
      let ends : from ≤ length ber = omega (arith, p.whole) in
      let children =
        read_children-encode wfs fuel ber from d (from + n) post p.inner_at small
          (omega (arith, room)) (omega (arith, room)) refl refl in
      read_branch fuel ber o d shallow tag inner post content good form p children
      ∙ ap (λ (e : ℕ). ok (structured tag content, e))
          (omega (arith, length-three tag (encode_length n) inner))

  read_children-encode :
      {d : ℕ} {os : Objects}
      → AreObjects d os
      → (fuel : ℕ) (ber : List ℕ) (o depth content_end : ℕ) (post : List ℕ)
      → From ber o (encode_all os ++ post)
      → length ber < 2 ^ 31
      → length ber + 2 ≤ o + fuel
      → 2 ≤ fuel
      → d ≡ depth + 1
      → content_end ≡ o + length (encode_all os)
      → read_children fuel ber o content_end false depth ≡ ok (os, content_end)
  read_children-encode wfs zero ber o depth content_end post h small f g e same =
      absurd (omega arith)
  read_children-encode none_left (suc fuel) ber o depth content_end post h small f g e same =
      read_none fuel ber o depth content_end (omega (arith, same))
  read_children-encode (one_more {d} {o = obj} {os} wf wfs) (suc fuel) ber o depth content_end post
        h small f g e same =
      let at : From ber o (encode obj ++ (encode_all os ++ post)) = h ∙ simp append_assoc in
      let long = length-encode wf in
      let avail : length ber - o ≡ length (encode obj) + (length (encode_all os) + length post) =
        sym (length-drop o ber) ∙ ap length at ∙ simp length-append in
      let size : content_end ≡ o + length (encode obj) + length (encode_all os) =
        omega (arith, same, length-append (encode obj) (encode_all os)) in
      let head =
        read_object-encode wf fuel ber o (encode_all os ++ post) at small (omega arith)
          (omega arith) in
      let rest =
        read_children-encode wfs fuel ber (o + length (encode obj)) depth content_end post
          (From-append ber o (encode obj) (encode_all os ++ post) at) small (omega arith)
          (omega (arith, avail)) e size in
      read_more fuel ber o depth obj os (length (encode obj)) content_end (omega arith)
        (omega arith)
        (subst (λ k. read_object fuel ber o k ≡ ok (obj, o + length (encode obj))) e head) rest

-- The DER encoding of a well formed object reads back as that object from any place in an input of
-- less than 2^31 bytes, and the reader stops right behind it.
pub read_object-encode_at :
    {d : ℕ} {obj : Object}
    → IsObject d obj
    → (fuel : ℕ) (ber : List ℕ) (o : ℕ) (post : List ℕ) → From ber o (encode obj ++ post)
    → length ber < 2 ^ 31
    → length ber + 1 ≤ o + fuel
    → 1 ≤ fuel
    → read_object fuel ber o d ≡ ok (obj, o + length (encode obj))
read_object-encode_at = read_object-encode

-- The output of `ToDER` is its own conversion, as long as it is shorter than 2^31 bytes: the
-- result is in the form that the function writes, and converting twice changes nothing.
pub to_der-to_der :
    (ber der : List ℕ)
    → IsBytes ber
    → to_der ber ≡ ok der
    → length der < 2 ^ 31
    → to_der der ≡ ok der
to_der-to_der ber der bytes e small = elim (to_der_total ber bytes) [
  | inl (obj, got, wf, _) ↦
      let same : der ≡ encode obj = cc in
      let long = length-encode wf in
      let again =
        read_object-encode wf (length der + 3) der 0 [] (same ∙ sym (append-nil _)) small
          (omega arith) (omega arith) in
      let size = ap length same in unfold to_der in ground (arith, again, same, size, long)
  | inr (x, got) ↦ cc
]
