-- ===== src/Ber/Lengths.antt =====
-- `readObject` of internal/ber/ber.go reads a length back that `encodeLength` wrote.
use certkit.Prelude.{ℕ, ◌+◌, ◌*◌, ◌/◌, ◌%◌, ◌^◌, ◌≤◌, ◌<◌, ◌≡◌, ap, ◌∙◌}
use certkit.Prelude.{List, [], ◌∷◌, ◌++◌, false, bit_and, length}
use certkit.Prelude.{arith, ◌⊎◌, inl, inr, length-append}
use certkit.Result.{ok}
use certkit.Ber.Encode.{length_length, encode_length}
use certkit.Ber.Read.{length_bytes, long_length, read_length}
use certkit.Prelude.{dec_lt}
use certkit.Ber.Total.{low_seven}
use certkit.Ber.Suffix.{From, From-length, From-next, byte-From}

-- The number that big-endian octets stand for, read on from `n`.
abbrev base_256 : ℕ → List ℕ → ℕ
base_256 n [] = n
base_256 n (x ∷ xs) = base_256 (n * 256 + x) xs

module _ (ber : List ℕ) where
  length_bytes-From :
      (xs : List ℕ) (o n : ℕ) (post : List ℕ)
      → From ber o (xs ++ post)
      → length_bytes (length xs) ber o n ≡ ok (base_256 n xs, o + length xs)
  unfolding length_bytes
  length_bytes-From [] o n post h = ground arith
  length_bytes-From (x ∷ xs) o n post h = ground (
    arith,
    byte-From ber o x (xs ++ post) h,
    From-length ber o x (xs ++ post) h,
    length_bytes-From xs (o + 1) (n * 256 + x) post (From-next ber o x (xs ++ post) h),
  )

  long_length-From :
      (x : ℕ) (xs : List ℕ) (o n : ℕ) (post : List ℕ)
      → From ber o (x ∷ (xs ++ post))
      → length (x ∷ xs) ≤ 4
      → 0 < x
      → (length (x ∷ xs) < 4) ⊎ (x ≤ 0x7f)
      → base_256 0 (x ∷ xs) ≡ n
      → long_length ber (length (x ∷ xs)) o
        ≡ ok (record { size = n; indefinite = false; start = o + length (x ∷ xs) })
  unfolding long_length
  long_length-From x xs o n post h few pos small value = ground (
    arith,
    byte-From ber o x (xs ++ post) h,
    From-length ber o x (xs ++ post) h,
    length-append xs post,
    length_bytes-From (x ∷ xs) o 0 post h,
  )

  read_length-long :
      (k o : ℕ) (rest : List ℕ)
      → From ber o ((128 + k) ∷ rest)
      → 1 ≤ k
      → k ≤ 4
      → read_length ber o ≡ long_length ber k (o + 1)
  unfolding read_length
  read_length-long k o rest h pos few =
      let seven : bit_and (128 + k) 0x7f ≡ k = low_seven (128 + k) (omega arith) ∙ omega arith in
      ground (arith, seven, byte-From ber o (128 + k) rest h, From-length ber o (128 + k) rest h)

  read_length-short :
      (n o : ℕ) (post : List ℕ)
      → From ber o (n ∷ post)
      → n < 128
      → read_length ber o ≡ ok (record { size = n; indefinite = false; start = o + 1 })
  unfolding read_length
  read_length-short n o post h small =
      ground (arith, byte-From ber o n post h, From-length ber o n post h)

  read_length-octets :
      (x : ℕ) (xs : List ℕ) (o n : ℕ) (post : List ℕ)
      → From ber o ((128 + length (x ∷ xs)) ∷ x ∷ (xs ++ post))
      → length (x ∷ xs) ≤ 4
      → 0 < x
      → (length (x ∷ xs) < 4) ⊎ (x ≤ 0x7f)
      → base_256 0 (x ∷ xs) ≡ n
      → read_length ber o
        ≡ ok (record { size = n; indefinite = false; start = o + 1 + length (x ∷ xs) })
  read_length-octets x xs o n post h few pos small value =
      read_length-long (length (x ∷ xs)) o (x ∷ (xs ++ post)) h (omega arith) few
      ∙ long_length-From x xs (o + 1) n post (From-next ber o _ (x ∷ (xs ++ post)) h) few pos small
          value

-- The octets of a length of 128 or more: how many there are, and then the length without leading
-- zeros, in a form that the reader accepts.
record LongForm (n : ℕ) : Type 0 where
  first : ℕ
  others : List ℕ
  written : encode_length n ≡ (128 + length (first ∷ others)) ∷ first ∷ others
  few : length (first ∷ others) ≤ 4
  no_leading_zero : 0 < first
  not_negative : (length (first ∷ others) < 4) ⊎ (first ≤ 0x7f)
  value : base_256 0 (first ∷ others) ≡ n

long_octets_1 : (n : ℕ) → 2 ^ 7 ≤ n → n < 2 ^ 8 → LongForm n
long_octets_1 n lo hi = record {
  first = n / 2 ^ (0 * 8) % 256;
  others = [];
  written =
      let width : length_length n ≡ 1 = unfold length_length in ground arith in
      unfold encode_length in ground (arith, width);
  few = omega arith;
  no_leading_zero = omega arith;
  not_negative = inl (omega arith);
  value = omega arith;
}

long_octets_2 : (n : ℕ) → 2 ^ 8 ≤ n → n < 2 ^ 16 → LongForm n
long_octets_2 n lo hi = record {
  first = n / 2 ^ (1 * 8) % 256;
  others = n / 2 ^ (0 * 8) % 256 ∷ [];
  written =
      let width : length_length n ≡ 2 = unfold length_length in ground arith in
      unfold encode_length in ground (arith, width);
  few = omega arith;
  no_leading_zero = omega arith;
  not_negative = inl (omega arith);
  value = omega arith;
}

long_octets_3 : (n : ℕ) → 2 ^ 16 ≤ n → n < 2 ^ 24 → LongForm n
long_octets_3 n lo hi = record {
  first = n / 2 ^ (2 * 8) % 256;
  others = n / 2 ^ (1 * 8) % 256 ∷ n / 2 ^ (0 * 8) % 256 ∷ [];
  written =
      let width : length_length n ≡ 3 = unfold length_length in ground arith in
      unfold encode_length in ground (arith, width);
  few = omega arith;
  no_leading_zero = omega arith;
  not_negative = inl (omega arith);
  value = omega arith;
}

long_octets_4 : (n : ℕ) → 2 ^ 24 ≤ n → n < 2 ^ 31 → LongForm n
long_octets_4 n lo hi = record {
  first = n / 2 ^ (3 * 8) % 256;
  others = n / 2 ^ (2 * 8) % 256 ∷ n / 2 ^ (1 * 8) % 256 ∷ n / 2 ^ (0 * 8) % 256 ∷ [];
  written =
      let width : length_length n ≡ 4 = unfold length_length in ground arith in
      unfold encode_length in ground (arith, width);
  few = omega arith;
  no_leading_zero = omega arith;
  not_negative = inr (omega arith);
  value = omega arith;
}

long_octets : (n : ℕ) → 2 ^ 7 ≤ n → n < 2 ^ 31 → LongForm n
long_octets n lo hi = elim (dec_lt n (2 ^ 8)) [
  | yes p ↦ long_octets_1 n lo p
  | no p ↦ elim (dec_lt n (2 ^ 16)) [
    | yes q ↦ long_octets_2 n (omega arith) q
    | no q ↦ elim (dec_lt n (2 ^ 24)) [
      | yes r ↦ long_octets_3 n (omega arith) r
      | no r ↦ long_octets_4 n (omega arith) hi
    ]
  ]
]

-- Below 2^31 the length octets read back as the length, and the reader stands behind them.
pub read_length-encode_length :
    (ber : List ℕ) (n o : ℕ) (post : List ℕ)
    → n < 2 ^ 31
    → From ber o (encode_length n ++ post)
    → read_length ber o
      ≡ ok (record { size = n; indefinite = false; start = o + length (encode_length n) })
read_length-encode_length ber n o post fits h = elim (dec_lt n (2 ^ 7)) [
  | yes short ↦
      let one : encode_length n ≡ n ∷ [] = unfold encode_length in ground arith in
      rw one (read_length-short ber n o post (rw one at h) short)
  | no long ↦
      let f = long_octets n (omega arith) fits in
      let count : o + length (encode_length n) ≡ o + 1 + length (f.first ∷ f.others) =
        omega (arith, ap length f.written) in
      rw count (
        read_length-octets ber f.first f.others o n post (rw f.written at h) f.few f.no_leading_zero
          f.not_negative f.value)
]
