-- ===== src/Pkcs12/CbcLaws.antt =====
-- CBC decryption undoes CBC encryption, for a block cipher whose decryption undoes its encryption on
-- a block of bytes.
use certkit.Prelude.{◌≡◌, refl, sym, ◌∙◌, ap, ap₂, ℕ, zero, suc, ◌+◌, ◌*◌, ◌<◌, List, [], ◌∷◌, ◌++◌}
use certkit.Prelude.{
  take, drop, length, length-take, length-drop, length-append, take-append-drop, arith,
}
use certkit.Prelude.{All-take, All-drop}
use certkit.Prelude.Xor.{bit_xor_twice, bit_xor-lt}
use certkit.Rc2.Schedule.{IsBytes}
use certkit.Pkcs12.Types.{Cipher}
use certkit.Pkcs12.Cbc.{xor_bytes, encrypt_blocks, decrypt_blocks}

-- A block cipher that can be undone.
pub record IsInvertible (c : Cipher) : Type 0 where
  pub positive : 0 < c.block_size
  pub small : c.block_size < 256
  pub encrypt_length : (x : List ℕ) → length (c.encrypt x) ≡ c.block_size
  pub encrypt_bytes : (x : List ℕ) → IsBytes (c.encrypt x)
  pub decrypt_encrypt :
      (x : List ℕ) → IsBytes x → length x ≡ c.block_size → c.decrypt (c.encrypt x) ≡ x

pub take-append {ℓ} : {A : Type ℓ} (n : ℕ) (xs ys : List A) → length xs ≡ n → take n (xs ++ ys) ≡ xs
take-append zero [] ys e = refl
take-append zero (x ∷ xs) ys e = ground (arith, e)
take-append (suc n) [] ys e = ground (arith, e)
take-append (suc n) (x ∷ xs) ys e =
    ap (λ (t : List _). x ∷ t) (take-append n xs ys (omega (arith, e)))

pub drop-append {ℓ} : {A : Type ℓ} (n : ℕ) (xs ys : List A) → length xs ≡ n → drop n (xs ++ ys) ≡ ys
drop-append zero [] ys e = refl
drop-append zero (x ∷ xs) ys e = ground (arith, e)
drop-append (suc n) [] ys e = ground (arith, e)
drop-append (suc n) (x ∷ xs) ys e = drop-append n xs ys (omega (arith, e))

xor_bytes_twice : (s t : List ℕ) → length s ≡ length t → xor_bytes (xor_bytes s t) t ≡ s
unfolding xor_bytes
xor_bytes_twice [] t e = refl
xor_bytes_twice (a ∷ s) [] e = ground (arith, e)
xor_bytes_twice (a ∷ s) (b ∷ t) e =
    ap₂ (λ (x : ℕ) (y : List ℕ). x ∷ y) (bit_xor_twice a b) (xor_bytes_twice s t (omega (arith, e)))

length-xor_bytes : (s t : List ℕ) → length s ≡ length t → length (xor_bytes s t) ≡ length s
unfolding xor_bytes
length-xor_bytes [] t e = refl
length-xor_bytes (a ∷ s) [] e = ground (arith, e)
length-xor_bytes (a ∷ s) (b ∷ t) e = ap suc (length-xor_bytes s t (omega (arith, e)))

xor_bytes-IsBytes : (s t : List ℕ) → IsBytes s → IsBytes t → IsBytes (xor_bytes s t)
unfolding xor_bytes
xor_bytes-IsBytes [] t p q = tt
xor_bytes-IsBytes (a ∷ s) [] p q = tt
xor_bytes-IsBytes (a ∷ s) (b ∷ t) p q = (bit_xor-lt 8 a b p.0 q.0, xor_bytes-IsBytes s t p.1 q.1)

module _ (c : Cipher) (law : IsInvertible c) where
  pub length-encrypt_blocks :
      (n : ℕ) (iv src : List ℕ) → length (encrypt_blocks c n iv src) ≡ n * c.block_size
  unfolding encrypt_blocks
  length-encrypt_blocks zero iv src = omega arith
  length-encrypt_blocks (suc n) iv src =
      let out = c.encrypt (xor_bytes (take c.block_size src) iv) in
      let rest = encrypt_blocks c n out (drop c.block_size src) in
      length-append out rest
      ∙ ap₂ (λ (x y : ℕ). x + y) (law.encrypt_length (xor_bytes (take c.block_size src) iv))
          (length-encrypt_blocks n out (drop c.block_size src))
      ∙ omega arith

  pub decrypt_blocks-encrypt_blocks :
      (n : ℕ) (iv src : List ℕ)
      → length src ≡ n * c.block_size
      → length iv ≡ c.block_size
      → IsBytes src
      → IsBytes iv
      → decrypt_blocks c n iv (encrypt_blocks c n iv src) ≡ src
  unfolding encrypt_blocks decrypt_blocks
  decrypt_blocks-encrypt_blocks zero iv [] l v s i = refl
  decrypt_blocks-encrypt_blocks zero iv (x ∷ src) l v s i = absurd (omega (arith, l))
  decrypt_blocks-encrypt_blocks (suc n) iv src l v s i =
      let bs = c.block_size in
      let plain = take bs src in
      let mixed = xor_bytes plain iv in
      let out = c.encrypt mixed in
      let later = encrypt_blocks c n out (drop bs src) in
      let wide : length plain ≡ bs = length-take bs src ∙ omega (arith, l) in
      let same : length plain ≡ length iv = wide ∙ sym v in
      let block = take-append bs out later (law.encrypt_length mixed) in
      let rest = drop-append bs out later (law.encrypt_length mixed) in
      let opened : c.decrypt out ≡ mixed =
        law.decrypt_encrypt mixed (xor_bytes-IsBytes plain iv (All-take _ bs src s) i)
          (length-xor_bytes plain iv same ∙ wide) in
      let short : length (drop bs src) ≡ n * bs = length-drop bs src ∙ omega (arith, l) in
      let ih =
        decrypt_blocks-encrypt_blocks n out (drop bs src) short (law.encrypt_length mixed)
          (All-drop _ bs src s) (law.encrypt_bytes mixed) in
      rw (block, rest, opened, xor_bytes_twice plain iv same, ih) (take-append-drop bs src)
