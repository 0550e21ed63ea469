-- ===== src/Rc2/Tests.antt =====
-- Runs of the RC2 model on the vectors of RFC 2268, and the theorems at concrete inputs.
use certkit.Prelude.{ℕ, ◌+◌, ◌≤◌, ◌<◌, ◌≡◌, refl, arith, List, [], ◌∷◌, ◌++◌, some}
use certkit.Prelude.{◌↔◌, true, length, replicate}
use certkit.Rc2.Table.{pi, pi-permutes}
use certkit.Rc2.Word.{rotl16}
use certkit.Rc2.Key.{expand_key, new_cipher_with_effective_key_bits}
use certkit.Rc2.Cipher.{Block, Slice, encrypt, decrypt, written, any_overlap, inexact_overlap}
use certkit.Rc2.Cipher.{encrypt_block, decrypt_block, bad_overlap, load, store}
use certkit.Rc2.Cipher.{mix_round, mash}
use certkit.Rc2.Cipher.{mix_r0, mix_r1, mix_r2, mix_r3, mash_r0, mash_r1, mash_r2, mash_r3}
use certkit.Rc2.Inverse.{decrypt_block-encrypt_block}
use certkit.Rc2.Schedule.{IsWords, new_cipher_with_effective_key_bits-IsWords}
use certkit.Rc2.Blocks.{decrypt-encrypt, any_overlap_iff}

abbrev zeros : List ℕ
zeros = replicate 8 0

abbrev ones : List ℕ
ones = replicate 8 0xff

abbrev at_address : ℕ → List ℕ → Slice
at_address a bs = record { address = a; bytes = bs }

rfc_63_bits :
    encrypt (expand_key zeros 63) (at_address 100 zeros) (at_address 200 zeros)
    ≡ written (0xeb ∷ 0xb7 ∷ 0x73 ∷ 0xf9 ∷ 0x93 ∷ 0x27 ∷ 0x8e ∷ 0xff ∷ [])
unfolding encrypt expand_key inexact_overlap any_overlap load store encrypt_block mix_round mash
    mix_r0 mix_r1 mix_r2 mix_r3 mash_r0 mash_r1 mash_r2 mash_r3 rotl16 pi
rfc_63_bits = refl

rfc_64_bits :
    encrypt (expand_key ones 64) (at_address 100 ones) (at_address 200 ones)
    ≡ written (0x27 ∷ 0x8b ∷ 0x27 ∷ 0xe4 ∷ 0x2e ∷ 0x2f ∷ 0x0d ∷ 0x49 ∷ [])
unfolding encrypt expand_key inexact_overlap any_overlap load store encrypt_block mix_round mash
    mix_r0 mix_r1 mix_r2 mix_r3 mash_r0 mash_r1 mash_r2 mash_r3 rotl16 pi
rfc_64_bits = refl

shifted_buffer :
    encrypt (expand_key zeros 63) (at_address 101 zeros) (at_address 100 zeros) ≡ bad_overlap
unfolding encrypt inexact_overlap any_overlap
shifted_buffer = refl

pi-permutes_example :
    ((b : ℕ) → b < 256 → (i : ℕ) × (i < 256) × (pi i ≡ b))
    × ((i j : ℕ) → i < 256 → j < 256 → pi i ≡ pi j → i ≡ j)
pi-permutes_example = pi-permutes

abbrev some_block : Block
some_block = record { r0 = 1; r1 = 65535; r2 = 300; r3 = 0 }

decrypt_block-encrypt_block_example :
    decrypt_block (5 ∷ 6 ∷ []) (encrypt_block (5 ∷ 6 ∷ []) some_block) ≡ some_block
decrypt_block-encrypt_block_example =
    decrypt_block-encrypt_block (5 ∷ 6 ∷ []) some_block (record {
      r0_lt = omega arith;
      r1_lt = omega arith;
      r2_lt = omega arith;
      r3_lt = omega arith;
    })

new_cipher_with_effective_key_bits-IsWords_example :
    (((1 ≤ length zeros) × (length zeros ≤ 128) × (1 ≤ 63) × (63 ≤ 1024))
      ↔ ((k : List ℕ) × (new_cipher_with_effective_key_bits zeros 63 ≡ some k)))
    × ((k : List ℕ)
        → new_cipher_with_effective_key_bits zeros 63 ≡ some k
        → (length k ≡ 64) × IsWords k)
new_cipher_with_effective_key_bits-IsWords_example =
    new_cipher_with_effective_key_bits-IsWords zeros 63 (omega arith)

abbrev sealed : List ℕ
sealed = 0xeb ∷ 0xb7 ∷ 0x73 ∷ 0xf9 ∷ 0x93 ∷ 0x27 ∷ 0x8e ∷ 0xff ∷ []

decrypt-encrypt_example :
    decrypt (expand_key zeros 63) (at_address 300 (ones ++ (7 ∷ []))) (at_address 100 sealed)
    ≡ written (zeros ++ (7 ∷ []))
decrypt-encrypt_example =
    decrypt-encrypt (expand_key zeros 63) (at_address 100 zeros) (at_address 200 zeros)
      (at_address 300 (ones ++ (7 ∷ []))) (at_address 100 sealed) sealed (omega arith) rfc_63_bits
      refl (omega arith) (unfold inexact_overlap any_overlap in refl)

any_overlap_iff_example :
    (any_overlap (at_address 101 zeros) (at_address 100 zeros) ≡ true)
    ↔ ((a : ℕ) × (101 ≤ a) × (a < 101 + 8) × (100 ≤ a) × (a < 100 + 8))
any_overlap_iff_example = any_overlap_iff (at_address 101 zeros) (at_address 100 zeros)
