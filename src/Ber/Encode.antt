-- ===== src/Ber/Encode.antt =====
-- `EncodeTo`, `encodeLength`, `marshalLongLength` and `lengthLength` of internal/ber/ber.go. A
-- `bytes.Buffer` never fails to write, so these functions return the bytes that they append.
use certkit.Prelude.{ℕ, zero, suc, ◌+◌, ◌*◌, ◌/◌, ◌%◌, ◌^◌, List, [], ◌∷◌, ◌++◌, bit_or}
use certkit.Prelude.{length, ltb, leb, if◌then◌else◌}
use certkit.Ber.Object.{Object, Objects, structured, primitive, nil, cons}

-- `for i > 255 { numBytes++; i >>= 8 }`. An `int` is below 256 ^ 8, so 8 rounds are enough.
unfoldable pub length_length_loop : ℕ → ℕ → ℕ → ℕ
length_length_loop zero i num_bytes = num_bytes
length_length_loop (suc fuel) i num_bytes =
    let rest = length_length_loop fuel (i / 2 ^ 8) (num_bytes + 1) in
    if ltb 255 i then rest else num_bytes

unfoldable pub length_length : ℕ → ℕ
unfolding length_length_loop
length_length i = length_length_loop 8 i 1

-- `for ; n > 0; n-- { out.WriteByte(byte(i >> uint((n-1)*8))) }`
unfoldable pub marshal_loop : ℕ → ℕ → List ℕ
marshal_loop zero i = []
marshal_loop (suc n) i = i / 2 ^ (n * 8) % 256 ∷ marshal_loop n i

unfoldable pub marshal_long_length : ℕ → List ℕ
unfolding length_length marshal_loop
marshal_long_length i = marshal_loop (length_length i) i

unfoldable pub encode_length : ℕ → List ℕ
unfolding marshal_long_length
encode_length n =
    if leb 128 n then bit_or 0x80 (length_length n % 256) ∷ marshal_long_length n else n % 256 ∷ []

unfoldable mutual
  pub encode : Object → List ℕ
  encode (structured tag_bytes content) =
      let inner = encode_all content in tag_bytes ++ (encode_length (length inner) ++ inner)
  encode (primitive tag_bytes n content) = tag_bytes ++ (encode_length n ++ content)

  pub encode_all : Objects → List ℕ
  encode_all nil = []
  encode_all (cons o os) = encode o ++ encode_all os
