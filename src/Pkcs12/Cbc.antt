-- ===== src/Pkcs12/Cbc.antt =====
-- crypto/cipher's CBC mode, which crypto.go calls: a number of whole blocks under a block cipher.
use certkit.Prelude.{ℕ, zero, suc, ◌/◌, List, [], ◌∷◌, ◌++◌, bit_xor, take, drop, length}
use certkit.Pkcs12.Types.{Cipher}

unfoldable pub xor_bytes : List ℕ → List ℕ → List ℕ
xor_bytes (a ∷ s) (b ∷ t) = bit_xor a b ∷ xor_bytes s t
xor_bytes _ _ = []

module _ (c : Cipher) where
  unfoldable pub encrypt_blocks : ℕ → List ℕ → List ℕ → List ℕ
  unfolding xor_bytes
  encrypt_blocks zero iv src = []
  encrypt_blocks (suc n) iv src =
      let out = c.encrypt (xor_bytes (take c.block_size src) iv) in
      out ++ encrypt_blocks n out (drop c.block_size src)

  unfoldable pub decrypt_blocks : ℕ → List ℕ → List ℕ → List ℕ
  unfolding xor_bytes
  decrypt_blocks zero iv src = []
  decrypt_blocks (suc n) iv src =
      let block = take c.block_size src in
      xor_bytes (c.decrypt block) iv ++ decrypt_blocks n block (drop c.block_size src)

  unfoldable pub cbc_encrypt : List ℕ → List ℕ → List ℕ
  unfolding encrypt_blocks
  cbc_encrypt iv src = encrypt_blocks (length src / c.block_size) iv src

  unfoldable pub cbc_decrypt : List ℕ → List ℕ → List ℕ
  unfolding decrypt_blocks
  cbc_decrypt iv src = decrypt_blocks (length src / c.block_size) iv src
