-- ===== src/Pkcs12/Padding.antt =====
-- crypto.go: pbDecrypt returns what pbEncrypt was given.
use certkit.Prelude.{
  ◌≡◌, refl, sym, ◌∙◌, ap, ℕ, zero, suc, ◌+◌, ◌-◌, ◌*◌, ◌/◌, ◌%◌, ◌≤◌, ◌<◌, List, [], ◌∷◌, ◌++◌,
}
use certkit.Prelude.{
  take, drop, length, replicate, get_or, length-append, length-replicate, arith, All-append,
  All-replicate,
}
use certkit.Prelude.{true, ltb, leb, ◌==◌, not, ◌||◌}
use native.Mathlib.Omega.{div_any}
use native.Mathlib.Nat.{mod-lt, mod-eq_of_lt, mul-div_left, mul-mod_left}
use certkit.Text.{text_eq_refl}
use certkit.Result.{ok, ◌>>=◌, ok-injective}
use certkit.Rc2.Schedule.{IsBytes}
use certkit.Pkcs12.Types.{Cipher, R, AlgorithmIdentifier, Library}
use certkit.Pkcs12.Cbc.{encrypt_blocks, cbc_encrypt, cbc_decrypt}
use certkit.Pkcs12.CbcLaws.{
  IsInvertible, take-append, drop-append, length-encrypt_blocks, decrypt_blocks-encrypt_blocks,
}
use certkit.Pkcs12.Crypto.{
  unpad, decrypt_with, encrypt_with, pb_encrypt, pb_decrypt, pbe_cipher_for,
}

get_or-append :
    (xs ys : List ℕ) (i n d : ℕ) → i ≡ length xs + n → get_or (xs ++ ys) i d ≡ get_or ys n d
get_or-append [] ys i n d e = ap (λ (k : ℕ). get_or ys k d) (omega (arith, e))
get_or-append (x ∷ xs) ys zero n d e = absurd (omega (arith, e))
get_or-append (x ∷ xs) ys (suc i) n d e = get_or-append xs ys i n d (omega (arith, e))

get_or-replicate : (m n p d : ℕ) → n < m → get_or (replicate m p) n d ≡ p
get_or-replicate zero n p d h = absurd (omega (arith, h))
get_or-replicate (suc m) zero p d h = refl
get_or-replicate (suc m) (suc n) p d h = get_or-replicate m n p d (omega (arith, h))

whole_blocks : (m b : ℕ) → 0 < b → m + (b - m % b) ≡ suc (m / b) * b
whole_blocks m b h = omega (arith, div_any m b, mod-lt m h)

module _ (c : Cipher) (law : IsInvertible c) where
  -- How many bytes are added: between one and a block, up to whole blocks.
  unfoldable pad_length : List ℕ → ℕ
  pad_length plain = c.block_size - length plain % c.block_size

  unfoldable with_padding : List ℕ → List ℕ
  unfolding pad_length
  with_padding plain = plain ++ replicate (pad_length plain) (pad_length plain % 256)

  pad_length-bounds : (plain : List ℕ) → (0 < pad_length plain) × (pad_length plain ≤ c.block_size)
  unfolding pad_length
  pad_length-bounds plain =
      let m = mod-lt (length plain) law.positive in (omega (arith, m), omega (arith, m))

  length-with_padding :
      (plain : List ℕ) → length (with_padding plain) ≡ length plain + pad_length plain
  unfolding with_padding
  length-with_padding plain =
      let p = pad_length plain in
      length-append plain (replicate p (p % 256))
      ∙ ap (λ (k : ℕ). length plain + k) (length-replicate p (p % 256))

  padded_blocks :
      (plain : List ℕ)
      → length (with_padding plain) ≡ suc (length plain / c.block_size) * c.block_size
  unfolding pad_length
  padded_blocks plain =
      length-with_padding plain ∙ whole_blocks (length plain) c.block_size law.positive

  -- What the tests of unpad ask for.
  unpad-accepts :
      (xs plain : List ℕ) (p : ℕ)
      → get_or xs (length xs - 1) 0 ≡ p
      → not (p == 0 || ltb c.block_size p) ≡ true
      → leb p (length xs) ≡ true
      → drop (length xs - p) xs ≡ replicate p p
      → take (length xs - p) xs ≡ plain
      → unpad c xs ≡ ok plain
  unfolding unpad
  unpad-accepts xs plain p last inside fits tail head =
      rw (unpad, last, inside, fits, tail, text_eq_refl (replicate p p), head) refl

  unpad-with_padding : (plain : List ℕ) → unpad c (with_padding plain) ≡ ok plain
  unfolding with_padding
  unpad-with_padding plain =
      let p = pad_length plain in
      let (some_, most) = pad_length-bounds plain in
      let byte : p % 256 ≡ p = mod-eq_of_lt (omega (arith, most, law.small)) in
      let l = length-with_padding plain in
      let ps = replicate p (p % 256) in
      let start : length (plain ++ ps) - p ≡ length plain = omega (arith, l) in
      let last : get_or (plain ++ ps) (length (plain ++ ps) - 1) 0 ≡ p =
        get_or-append plain ps (length (plain ++ ps) - 1) (p - 1) 0 (omega (arith, l, some_))
        ∙ get_or-replicate p (p - 1) (p % 256) 0 (omega (arith, some_))
        ∙ byte in
      unpad-accepts (plain ++ ps) plain p last (ground arith) (ground (arith, l))
        (ap (λ (k : ℕ). drop k (plain ++ ps)) start
          ∙ drop-append (length plain) plain ps refl
          ∙ ap (λ (b : ℕ). replicate p b) byte)
        (ap (λ (k : ℕ). take k (plain ++ ps)) start ∙ take-append (length plain) plain ps refl)

  with_padding-IsBytes : (plain : List ℕ) → IsBytes plain → IsBytes (with_padding plain)
  unfolding with_padding
  with_padding-IsBytes plain h =
      let p = pad_length plain in
      All-append _ plain (replicate p (p % 256)) h (All-replicate _ p (p % 256) (omega arith))

  encrypt_with-with_padding :
      (iv plain : List ℕ) → encrypt_with c iv plain ≡ cbc_encrypt c iv (with_padding plain)
  unfolding encrypt_with with_padding pad_length
  encrypt_with-with_padding iv plain = refl

  cbc_decrypt-cbc_encrypt :
      (n : ℕ) (iv src : List ℕ)
      → length src ≡ n * c.block_size
      → length iv ≡ c.block_size
      → IsBytes src
      → IsBytes iv
      → (length (cbc_encrypt c iv src) ≡ n * c.block_size)
        × (cbc_decrypt c iv (cbc_encrypt c iv src) ≡ src)
  unfolding cbc_encrypt cbc_decrypt
  cbc_decrypt-cbc_encrypt n iv src l v s i =
      let count : length src / c.block_size ≡ n =
        ap (λ (k : ℕ). k / c.block_size) l ∙ mul-div_left n law.positive in
      let wide = length-encrypt_blocks c law n iv src in
      let again : length (encrypt_blocks c n iv src) / c.block_size ≡ n =
        ap (λ (k : ℕ). k / c.block_size) wide ∙ mul-div_left n law.positive in
      rw (count, again) (wide, decrypt_blocks-encrypt_blocks c law n iv src l v s i)

  decrypt_with-accepts :
      (iv encrypted plain : List ℕ) (n : ℕ)
      → length encrypted ≡ suc n * c.block_size
      → unpad c (cbc_decrypt c iv encrypted) ≡ ok plain
      → decrypt_with c iv encrypted ≡ ok plain
  unfolding decrypt_with
  decrypt_with-accepts iv encrypted plain n l u =
      let full : ltb 0 (length encrypted) ≡ true = ground (arith, l, law.positive) in
      let whole : (length encrypted % c.block_size == 0) ≡ true =
        ground (arith, ap (λ (k : ℕ). k % c.block_size) l ∙ mul-mod_left (suc n) c.block_size) in
      rw (decrypt_with, full, whole) u

  -- pbDecrypt's decryption undoes pbEncrypt's encryption under one block cipher and IV.
  pub decrypt_with-encrypt_with :
      (iv plain : List ℕ)
      → length iv ≡ c.block_size
      → IsBytes iv
      → IsBytes plain
      → decrypt_with c iv (encrypt_with c iv plain) ≡ ok plain
  decrypt_with-encrypt_with iv plain v i h =
      let n = suc (length plain / c.block_size) in
      let (l, undone) =
        cbc_decrypt-cbc_encrypt n iv (with_padding plain) (padded_blocks plain) v
          (with_padding-IsBytes plain h) i in
      rw (encrypt_with-with_padding iv plain) (
        decrypt_with-accepts iv (cbc_encrypt c iv (with_padding plain)) plain
          (length plain / c.block_size) l (ap (unpad c) undone ∙ unpad-with_padding plain))

pb_encrypt-with :
    (lib : Library) (algorithm : AlgorithmIdentifier) (plain password : List ℕ)
    (p : Cipher × List ℕ)
    → pbe_cipher_for lib algorithm password ≡ ok p
    → pb_encrypt lib algorithm plain password ≡ ok (encrypt_with p.0 p.1 plain)
unfolding pb_encrypt
pb_encrypt-with lib algorithm plain password p q =
    ap (λ (r : R (Cipher × List ℕ)). r >>= (λ p. ok (encrypt_with p.0 p.1 plain))) q

pb_decrypt-with :
    (lib : Library) (algorithm : AlgorithmIdentifier) (encrypted password : List ℕ)
    (p : Cipher × List ℕ)
    → pbe_cipher_for lib algorithm password ≡ ok p
    → pb_decrypt lib algorithm encrypted password ≡ decrypt_with p.0 p.1 encrypted
unfolding pb_decrypt
pb_decrypt-with lib algorithm encrypted password p q =
    ap (λ (r : R (Cipher × List ℕ)). r >>= (λ p. decrypt_with p.0 p.1 encrypted)) q

-- What pbEncrypt returned is decrypted by pbDecrypt under the same algorithm and password, if the
-- cipher for them can be undone and its IV is a block of bytes.
pub pb_decrypt-pb_encrypt :
    (lib : Library) (algorithm : AlgorithmIdentifier) (plain encrypted password iv : List ℕ)
    (c : Cipher)
    → pbe_cipher_for lib algorithm password ≡ ok (c, iv)
    → IsInvertible c
    → length iv ≡ c.block_size
    → IsBytes iv
    → IsBytes plain
    → pb_encrypt lib algorithm plain password ≡ ok encrypted
    → pb_decrypt lib algorithm encrypted password ≡ ok plain
pb_decrypt-pb_encrypt lib algorithm plain encrypted password iv c q law v i h e =
    let z : encrypt_with c iv plain ≡ encrypted =
      ok-injective (sym (pb_encrypt-with lib algorithm plain password (c, iv) q) ∙ e) in
    pb_decrypt-with lib algorithm encrypted password (c, iv) q
    ∙ ap (decrypt_with c iv) (sym z)
    ∙ decrypt_with-encrypt_with c law iv plain v i h
