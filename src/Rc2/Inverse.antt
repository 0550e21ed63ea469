-- ===== src/Rc2/Inverse.antt =====
-- The unmixing and unmashing steps undo the mixing and mashing steps, hence `Decrypt` undoes
-- `Encrypt` (internal/pkcs12/internal/rc2/rc2.go).
use certkit.Prelude.{ℕ, zero, suc, ◌+◌, ◌-◌, ◌*◌, ◌^◌, ◌<◌, ◌≡◌, refl, arith, ap}
use certkit.Prelude.{List, bit_and}
use certkit.Rc2.Word.{u16, sub16, rotl16}
use certkit.Rc2.Word.{rotl16_undo_1, rotl16_undo_2, rotl16_undo_3, rotl16_undo_5}
use certkit.Rc2.Word.{rotl16_lt_1, rotl16_lt_2, rotl16_lt_3, rotl16_lt_5}
use certkit.Rc2.Cipher.{Block, word, not16, encrypt_block, decrypt_block}
use certkit.Rc2.Cipher.{mix_r0, mix_r1, mix_r2, mix_r3, unmix_r0, unmix_r1, unmix_r2, unmix_r3}
use certkit.Rc2.Cipher.{mash_r0, mash_r1, mash_r2, mash_r3}
use certkit.Rc2.Cipher.{unmash_r0, unmash_r1, unmash_r2, unmash_r3}
use certkit.Rc2.Cipher.{mix_round, unmix_round, mash, unmash}

-- Four uint16 words.
pub record IsBlock (b : Block) : Type 0 where
  pub r0_lt : b.r0 < 2 ^ 16
  pub r1_lt : b.r1 < 2 ^ 16
  pub r2_lt : b.r2 < 2 ^ 16
  pub r3_lt : b.r3 < 2 ^ 16

cancel3 : (a w p q : ℕ) → a < 2 ^ 16 → sub16 (sub16 (sub16 (u16 (a + w + p + q)) w) p) q ≡ a
cancel3 a w p q h = omega arith

cancel1 : (a w : ℕ) → a < 2 ^ 16 → sub16 (u16 (a + w)) w ≡ a
cancel1 a w h = omega arith

u16-lt : (a : ℕ) → u16 a < 2 ^ 16
u16-lt a = omega arith

undo_1 :
    (a w p q : ℕ)
    → a < 2 ^ 16
    → sub16 (sub16 (sub16 (rotl16 (rotl16 (u16 (a + w + p + q)) 1) (16 - 1)) w) p) q ≡ a
undo_1 a w p q h = rw (rotl16_undo_1 (u16 (a + w + p + q)) (u16-lt _)) (cancel3 a w p q h)

undo_2 :
    (a w p q : ℕ)
    → a < 2 ^ 16
    → sub16 (sub16 (sub16 (rotl16 (rotl16 (u16 (a + w + p + q)) 2) (16 - 2)) w) p) q ≡ a
undo_2 a w p q h = rw (rotl16_undo_2 (u16 (a + w + p + q)) (u16-lt _)) (cancel3 a w p q h)

undo_3 :
    (a w p q : ℕ)
    → a < 2 ^ 16
    → sub16 (sub16 (sub16 (rotl16 (rotl16 (u16 (a + w + p + q)) 3) (16 - 3)) w) p) q ≡ a
undo_3 a w p q h = rw (rotl16_undo_3 (u16 (a + w + p + q)) (u16-lt _)) (cancel3 a w p q h)

undo_5 :
    (a w p q : ℕ)
    → a < 2 ^ 16
    → sub16 (sub16 (sub16 (rotl16 (rotl16 (u16 (a + w + p + q)) 5) (16 - 5)) w) p) q ≡ a
undo_5 a w p q h = rw (rotl16_undo_5 (u16 (a + w + p + q)) (u16-lt _)) (cancel3 a w p q h)

unmix-mix_r0 : (k : List ℕ) (j : ℕ) (b : Block) → IsBlock b → unmix_r0 k j (mix_r0 k j b) ≡ b
unfolding mix_r0 unmix_r0
unmix-mix_r0 k j b h =
    ap (λ (x : ℕ). record b { r0 = x })
      (undo_1 b.r0 (word k j) (bit_and b.r3 b.r2) (bit_and (not16 b.r3) b.r1) h.r0_lt)

mix_r0-IsBlock : (k : List ℕ) (j : ℕ) (b : Block) → IsBlock b → IsBlock (mix_r0 k j b)
unfolding mix_r0
mix_r0-IsBlock k j b h = record {
  r0_lt = rotl16_lt_1 _ (u16-lt _);
  r1_lt = h.r1_lt;
  r2_lt = h.r2_lt;
  r3_lt = h.r3_lt;
}

unmix-mix_r1 : (k : List ℕ) (j : ℕ) (b : Block) → IsBlock b → unmix_r1 k j (mix_r1 k j b) ≡ b
unfolding mix_r1 unmix_r1
unmix-mix_r1 k j b h =
    ap (λ (x : ℕ). record b { r1 = x })
      (undo_2 b.r1 (word k j) (bit_and b.r0 b.r3) (bit_and (not16 b.r0) b.r2) h.r1_lt)

mix_r1-IsBlock : (k : List ℕ) (j : ℕ) (b : Block) → IsBlock b → IsBlock (mix_r1 k j b)
unfolding mix_r1
mix_r1-IsBlock k j b h = record {
  r0_lt = h.r0_lt;
  r1_lt = rotl16_lt_2 _ (u16-lt _);
  r2_lt = h.r2_lt;
  r3_lt = h.r3_lt;
}

unmix-mix_r2 : (k : List ℕ) (j : ℕ) (b : Block) → IsBlock b → unmix_r2 k j (mix_r2 k j b) ≡ b
unfolding mix_r2 unmix_r2
unmix-mix_r2 k j b h =
    ap (λ (x : ℕ). record b { r2 = x })
      (undo_3 b.r2 (word k j) (bit_and b.r1 b.r0) (bit_and (not16 b.r1) b.r3) h.r2_lt)

mix_r2-IsBlock : (k : List ℕ) (j : ℕ) (b : Block) → IsBlock b → IsBlock (mix_r2 k j b)
unfolding mix_r2
mix_r2-IsBlock k j b h = record {
  r0_lt = h.r0_lt;
  r1_lt = h.r1_lt;
  r2_lt = rotl16_lt_3 _ (u16-lt _);
  r3_lt = h.r3_lt;
}

unmix-mix_r3 : (k : List ℕ) (j : ℕ) (b : Block) → IsBlock b → unmix_r3 k j (mix_r3 k j b) ≡ b
unfolding mix_r3 unmix_r3
unmix-mix_r3 k j b h =
    ap (λ (x : ℕ). record b { r3 = x })
      (undo_5 b.r3 (word k j) (bit_and b.r2 b.r1) (bit_and (not16 b.r2) b.r0) h.r3_lt)

mix_r3-IsBlock : (k : List ℕ) (j : ℕ) (b : Block) → IsBlock b → IsBlock (mix_r3 k j b)
unfolding mix_r3
mix_r3-IsBlock k j b h = record {
  r0_lt = h.r0_lt;
  r1_lt = h.r1_lt;
  r2_lt = h.r2_lt;
  r3_lt = rotl16_lt_5 _ (u16-lt _);
}

unmash-mash_r0 : (k : List ℕ) (b : Block) → IsBlock b → unmash_r0 k (mash_r0 k b) ≡ b
unfolding mash_r0 unmash_r0
unmash-mash_r0 k b h =
    ap (λ (x : ℕ). record b { r0 = x }) (cancel1 b.r0 (word k (bit_and b.r3 63)) h.r0_lt)

mash_r0-IsBlock : (k : List ℕ) (b : Block) → IsBlock b → IsBlock (mash_r0 k b)
unfolding mash_r0
mash_r0-IsBlock k b h = omega arith

unmash-mash_r1 : (k : List ℕ) (b : Block) → IsBlock b → unmash_r1 k (mash_r1 k b) ≡ b
unfolding mash_r1 unmash_r1
unmash-mash_r1 k b h =
    ap (λ (x : ℕ). record b { r1 = x }) (cancel1 b.r1 (word k (bit_and b.r0 63)) h.r1_lt)

mash_r1-IsBlock : (k : List ℕ) (b : Block) → IsBlock b → IsBlock (mash_r1 k b)
unfolding mash_r1
mash_r1-IsBlock k b h = omega arith

unmash-mash_r2 : (k : List ℕ) (b : Block) → IsBlock b → unmash_r2 k (mash_r2 k b) ≡ b
unfolding mash_r2 unmash_r2
unmash-mash_r2 k b h =
    ap (λ (x : ℕ). record b { r2 = x }) (cancel1 b.r2 (word k (bit_and b.r1 63)) h.r2_lt)

mash_r2-IsBlock : (k : List ℕ) (b : Block) → IsBlock b → IsBlock (mash_r2 k b)
unfolding mash_r2
mash_r2-IsBlock k b h = omega arith

unmash-mash_r3 : (k : List ℕ) (b : Block) → IsBlock b → unmash_r3 k (mash_r3 k b) ≡ b
unfolding mash_r3 unmash_r3
unmash-mash_r3 k b h =
    ap (λ (x : ℕ). record b { r3 = x }) (cancel1 b.r3 (word k (bit_and b.r2 63)) h.r3_lt)

mash_r3-IsBlock : (k : List ℕ) (b : Block) → IsBlock b → IsBlock (mash_r3 k b)
unfolding mash_r3
mash_r3-IsBlock k b h = omega arith

unmix_round-mix_round :
    (k : List ℕ) (j : ℕ) (b : Block) → IsBlock b → unmix_round k (j + 3) (mix_round k j b) ≡ b
unfolding unmix_round mix_round
unmix_round-mix_round k j b h =
    let b0 = mix_r0 k j b in
    let h0 = mix_r0-IsBlock k j b h in
    let b1 = mix_r1 k (j + 1) b0 in
    let h1 = mix_r1-IsBlock k (j + 1) b0 h0 in
    let b2 = mix_r2 k (j + 2) b1 in
    let h2 = mix_r2-IsBlock k (j + 2) b1 h1 in
    let i0 : j + 3 - 3 ≡ j = omega arith in
    let i1 : j + 3 - 2 ≡ j + 1 = omega arith in
    let i2 : j + 3 - 1 ≡ j + 2 = omega arith in
    rw (i0, i1, i2, unmix-mix_r3 k (j + 3) b2 h2, unmix-mix_r2 k (j + 2) b1 h1)
      (rw (unmix-mix_r1 k (j + 1) b0 h0) (unmix-mix_r0 k j b h))

mix_round-IsBlock : (k : List ℕ) (j : ℕ) (b : Block) → IsBlock b → IsBlock (mix_round k j b)
unfolding mix_round
mix_round-IsBlock k j b h =
    mix_r3-IsBlock k _ _ (mix_r2-IsBlock k _ _ (mix_r1-IsBlock k _ _ (mix_r0-IsBlock k j b h)))

unmash-mash : (k : List ℕ) (b : Block) → IsBlock b → unmash k (mash k b) ≡ b
unfolding unmash mash
unmash-mash k b h =
    let b0 = mash_r0 k b in
    let h0 = mash_r0-IsBlock k b h in
    let b1 = mash_r1 k b0 in
    let h1 = mash_r1-IsBlock k b0 h0 in
    let b2 = mash_r2 k b1 in
    let h2 = mash_r2-IsBlock k b1 h1 in
    rw (unmash-mash_r3 k b2 h2, unmash-mash_r2 k b1 h1)
      (rw (unmash-mash_r1 k b0 h0) (unmash-mash_r0 k b h))

mash-IsBlock : (k : List ℕ) (b : Block) → IsBlock b → IsBlock (mash k b)
unfolding mash
mash-IsBlock k b h =
    mash_r3-IsBlock k _ (mash_r2-IsBlock k _ (mash_r1-IsBlock k _ (mash_r0-IsBlock k b h)))

-- A run of `n` mixing rounds from round key `j` on, and the run that undoes it.
mix_rounds : List ℕ → ℕ → ℕ → Block → Block
mix_rounds k j zero b = b
mix_rounds k j (suc n) b = mix_round k (j + 4 * n) (mix_rounds k j n b)

unmix_rounds : List ℕ → ℕ → ℕ → Block → Block
unmix_rounds k j zero b = b
unmix_rounds k j (suc n) b = unmix_rounds k j n (unmix_round k (j + 4 * n + 3) b)

mix_rounds-IsBlock : (k : List ℕ) (j n : ℕ) (b : Block) → IsBlock b → IsBlock (mix_rounds k j n b)
unfolding mix_rounds
mix_rounds-IsBlock k j zero b h = h
mix_rounds-IsBlock k j (suc n) b h = mix_round-IsBlock k _ _ (mix_rounds-IsBlock k j n b h)

unmix_rounds-mix_rounds :
    (k : List ℕ) (j n : ℕ) (b : Block) → IsBlock b → unmix_rounds k j n (mix_rounds k j n b) ≡ b
unfolding mix_rounds unmix_rounds
unmix_rounds-mix_rounds k j zero b h = refl
unmix_rounds-mix_rounds k j (suc n) b h =
    rw (unmix_round-mix_round k (j + 4 * n) (mix_rounds k j n b) (mix_rounds-IsBlock k j n b h))
      (unmix_rounds-mix_rounds k j n b h)

-- The loops of `Encrypt` and `Decrypt` make 5, 6 and 5 rounds, with a mashing round between.
encrypt_block_rounds :
    (k : List ℕ) (b : Block)
    → encrypt_block k b
      ≡ mix_rounds k 44 5 (mash k (mix_rounds k 20 6 (mash k (mix_rounds k 0 5 b))))
unfolding encrypt_block mix_rounds
encrypt_block_rounds k b = refl

decrypt_block_rounds :
    (k : List ℕ) (b : Block)
    → decrypt_block k b
      ≡ unmix_rounds k 0 5 (unmash k (unmix_rounds k 20 6 (unmash k (unmix_rounds k 44 5 b))))
unfolding decrypt_block unmix_rounds
decrypt_block_rounds k b = refl

-- Under any round keys, decrypting an encrypted block of four uint16 words gives the block back.
pub decrypt_block-encrypt_block :
    (k : List ℕ) (b : Block) → IsBlock b → decrypt_block k (encrypt_block k b) ≡ b
decrypt_block-encrypt_block k b h =
    let b1 = mix_rounds k 0 5 b in
    let h1 = mix_rounds-IsBlock k 0 5 b h in
    let b2 = mash k b1 in
    let h2 = mash-IsBlock k b1 h1 in
    let b3 = mix_rounds k 20 6 b2 in
    let h3 = mix_rounds-IsBlock k 20 6 b2 h2 in
    let b4 = mash k b3 in
    let h4 = mash-IsBlock k b3 h3 in
    rw (encrypt_block_rounds k b, decrypt_block_rounds)
      (rw (unmix_rounds-mix_rounds k 44 5 b4 h4, unmash-mash k b3 h3)
        (rw (unmix_rounds-mix_rounds k 20 6 b2 h2, unmash-mash k b1 h1)
          (unmix_rounds-mix_rounds k 0 5 b h)))

pub encrypt_block-IsBlock : (k : List ℕ) (b : Block) → IsBlock b → IsBlock (encrypt_block k b)
encrypt_block-IsBlock k b h =
    let h1 = mix_rounds-IsBlock k 0 5 b h in
    let h3 = mix_rounds-IsBlock k 20 6 _ (mash-IsBlock k _ h1) in
    rw (encrypt_block_rounds k b) (mix_rounds-IsBlock k 44 5 _ (mash-IsBlock k _ h3))
