-- ===== src/Rc2/Cipher.antt =====
-- `Encrypt` and `Decrypt` of internal/pkcs12/internal/rc2/rc2.go, with their guards. The four words
-- `r0` .. `r3` are a record, and the round keys a list.
use certkit.Prelude.{ℕ, zero, suc, ◌+◌, ◌-◌, ◌*◌, ◌/◌, ◌%◌}
use certkit.Prelude.{List, [], ◌∷◌, ◌++◌, bit_and, bit_xor, Bool, false, ◌&&◌, ◌||◌}
use certkit.Prelude.{length, get_or, take, drop, ltb, leb, ◌==◌, if◌then◌else◌}
use certkit.Rc2.Word.{u16, sub16, rotl16}

pub record Block : Type 0 where
  pub r0 : ℕ
  pub r1 : ℕ
  pub r2 : ℕ
  pub r3 : ℕ

-- `c.k[j]`; the array has 64 words, and every index of the rounds is below 64.
abbrev pub word : List ℕ → ℕ → ℕ
word k j = get_or k j 0

-- `^x` on uint16.
abbrev pub not16 : ℕ → ℕ
not16 x = bit_xor x 0xffff

unfoldable pub mix_r0 : List ℕ → ℕ → Block → Block
mix_r0 k j b = record b {
  r0 = rotl16 (u16 (b.r0 + word k j + bit_and b.r3 b.r2 + bit_and (not16 b.r3) b.r1)) 1;
}

unfoldable pub unmix_r0 : List ℕ → ℕ → Block → Block
unmix_r0 k j b = record b {
  r0 =
      sub16 (sub16 (sub16 (rotl16 b.r0 (16 - 1)) (word k j)) (bit_and b.r3 b.r2))
        (bit_and (not16 b.r3) b.r1);
}

unfoldable pub mix_r1 : List ℕ → ℕ → Block → Block
mix_r1 k j b = record b {
  r1 = rotl16 (u16 (b.r1 + word k j + bit_and b.r0 b.r3 + bit_and (not16 b.r0) b.r2)) 2;
}

unfoldable pub unmix_r1 : List ℕ → ℕ → Block → Block
unmix_r1 k j b = record b {
  r1 =
      sub16 (sub16 (sub16 (rotl16 b.r1 (16 - 2)) (word k j)) (bit_and b.r0 b.r3))
        (bit_and (not16 b.r0) b.r2);
}

unfoldable pub mix_r2 : List ℕ → ℕ → Block → Block
mix_r2 k j b = record b {
  r2 = rotl16 (u16 (b.r2 + word k j + bit_and b.r1 b.r0 + bit_and (not16 b.r1) b.r3)) 3;
}

unfoldable pub unmix_r2 : List ℕ → ℕ → Block → Block
unmix_r2 k j b = record b {
  r2 =
      sub16 (sub16 (sub16 (rotl16 b.r2 (16 - 3)) (word k j)) (bit_and b.r1 b.r0))
        (bit_and (not16 b.r1) b.r3);
}

unfoldable pub mix_r3 : List ℕ → ℕ → Block → Block
mix_r3 k j b = record b {
  r3 = rotl16 (u16 (b.r3 + word k j + bit_and b.r2 b.r1 + bit_and (not16 b.r2) b.r0)) 5;
}

unfoldable pub unmix_r3 : List ℕ → ℕ → Block → Block
unmix_r3 k j b = record b {
  r3 =
      sub16 (sub16 (sub16 (rotl16 b.r3 (16 - 5)) (word k j)) (bit_and b.r2 b.r1))
        (bit_and (not16 b.r2) b.r0);
}

-- One pass of a mixing loop: it takes the round keys j .. j + 3.
unfoldable pub mix_round : List ℕ → ℕ → Block → Block
mix_round k j b = mix_r3 k (j + 3) (mix_r2 k (j + 2) (mix_r1 k (j + 1) (mix_r0 k j b)))

-- One pass of an unmixing loop: it takes the round keys j, j - 1, j - 2, j - 3.
unfoldable pub unmix_round : List ℕ → ℕ → Block → Block
unmix_round k j b = unmix_r0 k (j - 3) (unmix_r1 k (j - 2) (unmix_r2 k (j - 1) (unmix_r3 k j b)))

unfoldable pub mash_r0 : List ℕ → Block → Block
mash_r0 k b = record b { r0 = u16 (b.r0 + word k (bit_and b.r3 63)) }

unfoldable pub unmash_r0 : List ℕ → Block → Block
unmash_r0 k b = record b { r0 = sub16 b.r0 (word k (bit_and b.r3 63)) }

unfoldable pub mash_r1 : List ℕ → Block → Block
mash_r1 k b = record b { r1 = u16 (b.r1 + word k (bit_and b.r0 63)) }

unfoldable pub unmash_r1 : List ℕ → Block → Block
unmash_r1 k b = record b { r1 = sub16 b.r1 (word k (bit_and b.r0 63)) }

unfoldable pub mash_r2 : List ℕ → Block → Block
mash_r2 k b = record b { r2 = u16 (b.r2 + word k (bit_and b.r1 63)) }

unfoldable pub unmash_r2 : List ℕ → Block → Block
unmash_r2 k b = record b { r2 = sub16 b.r2 (word k (bit_and b.r1 63)) }

unfoldable pub mash_r3 : List ℕ → Block → Block
mash_r3 k b = record b { r3 = u16 (b.r3 + word k (bit_and b.r2 63)) }

unfoldable pub unmash_r3 : List ℕ → Block → Block
unmash_r3 k b = record b { r3 = sub16 b.r3 (word k (bit_and b.r2 63)) }

unfoldable pub mash : List ℕ → Block → Block
mash k b = mash_r3 k (mash_r2 k (mash_r1 k (mash_r0 k b)))

unfoldable pub unmash : List ℕ → Block → Block
unmash k b = unmash_r0 k (unmash_r1 k (unmash_r2 k (unmash_r3 k b)))

-- `for j <= last { ... }`: the state of the loop is the counter and the block. Sixteen rounds of
-- fuel are enough, since `j` starts at 0, grows by 4 and stops above `last` ≤ 60.
unfoldable pub mix_while : List ℕ → ℕ → ℕ → ℕ × Block → ℕ × Block
mix_while k last zero s = s
mix_while k last (suc fuel) (j, b) =
    let rest = mix_while k last fuel (j + 4, mix_round k j b) in if leb j last then rest else (j, b)

-- `for j >= first { ... }`. The counter is kept as j + 1, because the source's `j` ends at -1.
unfoldable pub unmix_while : List ℕ → ℕ → ℕ → ℕ × Block → ℕ × Block
unmix_while k first zero s = s
unmix_while k first (suc fuel) (suc_j, b) =
    let rest = unmix_while k first fuel (suc_j - 4, unmix_round k (suc_j - 1) b) in
    if leb (first + 1) suc_j then rest else (suc_j, b)

abbrev pub then_mash : List ℕ → ℕ × Block → ℕ × Block
then_mash k (j, b) = (j, mash k b)

abbrev pub then_unmash : List ℕ → ℕ × Block → ℕ × Block
then_unmash k (j, b) = (j, unmash k b)

unfoldable pub encrypt_block : List ℕ → Block → Block
unfolding mix_while
encrypt_block k b =
    let mixed = then_mash k (mix_while k 16 16 (0, b)) in
    let mixed_again = then_mash k (mix_while k 40 16 mixed) in
    let (j, c) = mix_while k 60 16 mixed_again in c

unfoldable pub decrypt_block : List ℕ → Block → Block
unfolding unmix_while
decrypt_block k b =
    let unmixed = then_unmash k (unmix_while k 44 16 (64, b)) in
    let unmixed_again = then_unmash k (unmix_while k 20 16 unmixed) in
    let (j, c) = unmix_while k 3 16 unmixed_again in c

-- `binary.LittleEndian.Uint16` of the two bytes at `i`, and `PutUint16` of four words.
unfoldable pub load : List ℕ → Block
load src = record {
  r0 = get_or src 0 0 + get_or src 1 0 * 256;
  r1 = get_or src 2 0 + get_or src 3 0 * 256;
  r2 = get_or src 4 0 + get_or src 5 0 * 256;
  r3 = get_or src 6 0 + get_or src 7 0 * 256;
}

unfoldable pub store : Block → List ℕ
store b =
    b.r0 % 256
    ∷ b.r0 / 256 % 256
    ∷ b.r1 % 256
    ∷ b.r1 / 256 % 256
    ∷ b.r2 % 256
    ∷ b.r2 / 256 % 256
    ∷ b.r3 % 256
    ∷ b.r3 / 256 % 256
    ∷ []

-- A Go slice: the address of its first byte, and its bytes.
pub record Slice : Type 0 where
  pub address : ℕ
  pub bytes : List ℕ

unfoldable pub any_overlap : Slice → Slice → Bool
any_overlap x y =
    ltb 0 (length x.bytes)
    && ltb 0 (length y.bytes)
    && leb x.address (y.address + (length y.bytes - 1))
    && leb y.address (x.address + (length x.bytes - 1))

unfoldable pub inexact_overlap : Slice → Slice → Bool
unfolding any_overlap
inexact_overlap x y =
    if length x.bytes == 0 || length y.bytes == 0 || x.address == y.address
    then false
    else any_overlap x y

-- A panic of `Encrypt` or `Decrypt`, or what is in `dst` when the call returns.
pub data Outcome : Type 0 where
  input_short output_short bad_overlap : Outcome
  written : List ℕ → Outcome

abbrev pub block_size : ℕ
block_size = 8

abbrev pub first_block : Slice → Slice
first_block s = record s { bytes = take block_size s.bytes }

unfoldable pub crypt : (Block → Block) → Slice → Slice → Outcome
crypt f dst src =
    if ltb (length src.bytes) block_size
    then input_short
    else if ltb (length dst.bytes) block_size
    then output_short
    else if inexact_overlap (first_block dst) (first_block src)
    then bad_overlap
    else written (store (f (load src.bytes)) ++ drop block_size dst.bytes)

unfoldable pub encrypt : List ℕ → Slice → Slice → Outcome
unfolding crypt
encrypt k = crypt (encrypt_block k)

unfoldable pub decrypt : List ℕ → Slice → Slice → Outcome
unfolding crypt
decrypt k = crypt (decrypt_block k)
