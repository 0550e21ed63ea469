-- ===== src/Pkcs12/Rc2Cipher.antt =====
-- crypto.go's RC2 ciphers, under any expanded key, can be undone, by what is proved of internal/pkcs12/internal/rc2.
use certkit.Prelude.{◌≡◌, refl, ◌∙◌, ap, ℕ, List, [], length, take, arith}
use certkit.Prelude.{append-nil, sym, ◌≤◌}
use certkit.Rc2.Cipher.{encrypt_block, decrypt_block, load, store, Block}
use certkit.Rc2.Inverse.{encrypt_block-IsBlock, decrypt_block-encrypt_block}
use certkit.Rc2.Blocks.{load-store, load-IsBlock, store-load}
use certkit.Rc2.Schedule.{IsBytes}
use certkit.Pkcs12.CbcLaws.{IsInvertible, take-append}
use certkit.Pkcs12.Crypto.{with_key}

store_length : (b : Block) → length (store b) ≡ 8
unfolding store
store_length b = refl

store-IsBytes : (b : Block) → IsBytes (store b)
unfolding store
store-IsBytes b = omega arith

pub with_key-IsInvertible : (k : List ℕ) → IsInvertible (with_key k)
unfolding with_key
with_key-IsInvertible k = record {
  positive = omega arith;
  small = omega arith;
  encrypt_length = λ x. store_length (encrypt_block k (load x));
  encrypt_bytes = λ x. store-IsBytes (encrypt_block k (load x));
  decrypt_encrypt = λ x b l.
      let fits : 8 ≤ length x = omega (arith, l) in
      let block = load-IsBlock x b fits in
      let c = encrypt_block k (load x) in
      let loaded : load (store c) ≡ c =
        ap load (sym (append-nil (store c)))
        ∙ load-store c [] (encrypt_block-IsBlock k (load x) block) in
      ap (λ (y : Block). store (decrypt_block k y)) loaded
      ∙ ap store (decrypt_block-encrypt_block k (load x) block)
      ∙ store-load x b fits
      ∙ ap (take 8) (sym (append-nil x))
      ∙ take-append 8 x [] l;
}
