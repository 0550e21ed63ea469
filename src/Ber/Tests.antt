-- ===== src/Ber/Tests.antt =====
-- Runs of the converter on small inputs, and the theorems at concrete inputs.
use certkit.Prelude.{ℕ, ◌≡◌, refl, arith, List, [], ◌∷◌, ◌++◌, ◌⊎◌, inr, length}
use certkit.Result.{ok, err}
use certkit.Ber.Object.{Object, structured, primitive, nil, cons}
use certkit.Ber.Encode.{encode, encode_length}
use certkit.Ber.Read.{Error, to_der, read_object, slice, is_indefinite_termination}
use certkit.Ber.Read.{read_tag, read_length, long_length, child_exceeds_parent}
use certkit.Ber.Read.{leading_zero, indefinite_primitive}
use certkit.Ber.Total.{IsObject, leaf, branch, none_left, one_more, to_der_total}
use certkit.Ber.RoundTrip.{read_object-encode_at, to_der-to_der}

-- SEQUENCE of indefinite length with an INTEGER in it.
abbrev open_sequence : List ℕ
open_sequence = 0x30 ∷ 0x80 ∷ 0x02 ∷ 0x81 ∷ 0x01 ∷ 0x05 ∷ 0x00 ∷ 0x00 ∷ []

abbrev closed_sequence : List ℕ
closed_sequence = 0x30 ∷ 0x03 ∷ 0x02 ∷ 0x01 ∷ 0x05 ∷ []

indefinite : to_der open_sequence ≡ ok closed_sequence
unfolding to_der read_object read_tag read_length long_length slice is_indefinite_termination encode
    encode_length
indefinite = refl

child_too_long : to_der (0x30 ∷ 0x03 ∷ 0x04 ∷ 0x02 ∷ 0x01 ∷ 0x02 ∷ []) ≡ err child_exceeds_parent
unfolding to_der read_object read_tag read_length long_length slice is_indefinite_termination encode
    encode_length
child_too_long = refl

padded_length : to_der (0x04 ∷ 0x82 ∷ 0x00 ∷ 0x01 ∷ 0xff ∷ []) ≡ err leading_zero
unfolding to_der read_object read_tag read_length long_length
padded_length = refl

open_string : to_der (0x04 ∷ 0x80 ∷ 0x00 ∷ 0x00 ∷ []) ≡ err indefinite_primitive
unfolding to_der read_object read_tag read_length
open_string = refl

-- A high tag number in two octets behind the first.
high_tag : to_der (0x1f ∷ 0x85 ∷ 0x01 ∷ 0x00 ∷ []) ≡ ok (0x1f ∷ 0x85 ∷ 0x01 ∷ 0x00 ∷ [])
unfolding to_der read_object read_tag read_length slice encode encode_length
high_tag = refl

to_der_total_example :
    ((obj : Object) × (to_der open_sequence ≡ ok (encode obj))
      × IsObject 0 obj
      × (read_object 11 open_sequence 0 0 ≡ ok (obj, 8)))
    ⊎ ((e : Error) × (to_der open_sequence ≡ err e))
to_der_total_example = to_der_total open_sequence (omega arith)

to_der-to_der_example : to_der closed_sequence ≡ ok closed_sequence
to_der-to_der_example =
    to_der-to_der open_sequence closed_sequence (omega arith) indefinite (omega arith)

abbrev five : Object
five = structured (0x30 ∷ []) (cons (primitive (0x02 ∷ []) 1 (0x05 ∷ [])) nil)

five-IsObject : IsObject 0 five
five-IsObject =
    branch (omega arith) (inr (refl, refl)) refl
      (one_more (leaf {content = 0x05 ∷ []} (omega arith) (inr (refl, refl)) refl refl) none_left)

read_object-encode_at_example :
    read_object 9 (encode five ++ (7 ∷ [])) 0 0 ≡ ok (five, length (encode five))
unfolding encode encode_length
read_object-encode_at_example =
    read_object-encode_at five-IsObject 9 (encode five ++ (7 ∷ [])) 0 (7 ∷ []) refl (omega arith)
      (omega arith) (omega arith)
