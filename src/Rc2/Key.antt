-- ===== src/Rc2/Key.antt =====
-- `NewCipherWithEffectiveKeyBits`, `NewCipher` and `expandKey` of
-- internal/pkcs12/internal/rc2/rc2.go. The round keys are a list of 64 uint16 words.
use certkit.Prelude.{ℕ, zero, suc, ◌+◌, ◌-◌, ◌*◌, ◌/◌, ◌%◌, ◌^◌}
use certkit.Prelude.{List, [], ◌∷◌, ◌++◌, bit_and, bit_or, bit_xor, Option, none, some, ◌||◌}
use certkit.Prelude.{length, get_or, set, take, replicate, ltb, if◌then◌else◌}
use certkit.Rc2.Word.{u16}
use certkit.Rc2.Table.{pi}

abbrev byte_at : List ℕ → ℕ → ℕ
byte_at l i = get_or l i 0

-- `l := make([]byte, 128); copy(l, key)`
unfoldable pub padded : List ℕ → List ℕ
padded key = take 128 (key ++ replicate (128 - length key) 0)

-- `for i := t; i < 128; i++ { l[i] = piTable[l[i-1]+l[i-t]] }`, with `n` rounds left.
unfoldable pub stretch : ℕ → ℕ → ℕ → List ℕ → List ℕ
stretch zero t i l = l
stretch (suc n) t i l =
    stretch n t (i + 1) (set l i (pi ((byte_at l (i - 1) + byte_at l (i - t)) % 256)))

-- `for i := 127 - t8; i >= 0; i-- { l[i] = piTable[l[i+1]^l[i+t8]] }`; `n` is i + 1.
unfoldable pub fold_back : ℕ → ℕ → List ℕ → List ℕ
fold_back zero t8 l = l
fold_back (suc i) t8 l =
    fold_back i t8 (set l i (pi (bit_xor (byte_at l (i + 1)) (byte_at l (i + t8)))))

-- `for i := range k { k[i] = uint16(l[2*i]) | uint16(l[2*i+1])<<8 }`, from word `i` on.
unfoldable pub words : ℕ → ℕ → List ℕ → List ℕ
words zero i l = []
words (suc n) i l =
    bit_or (byte_at l (2 * i)) (u16 (byte_at l (2 * i + 1) * 2 ^ 8)) ∷ words n (i + 1) l

-- The effective key length in bytes, and the mask for the bits of its last byte.
abbrev pub effective_bytes : ℕ → ℕ
effective_bytes t1 = (t1 + 7) / 8

abbrev pub effective_mask : ℕ → ℕ
effective_mask t1 = 255 % 2 ^ (8 + t1 - 8 * effective_bytes t1) % 256

unfoldable pub reduce_key : List ℕ → ℕ → List ℕ
reduce_key l t1 =
    let t8 = effective_bytes t1 in
    set l (128 - t8) (pi (bit_and (byte_at l (128 - t8)) (effective_mask t1)))

-- The 128 bytes after both loops of `expandKey`.
unfoldable pub expand_bytes : List ℕ → ℕ → List ℕ
unfolding padded stretch fold_back reduce_key
expand_bytes key t1 =
    let t = length key in
    let stretched = stretch (128 - t) t t (padded key) in
    fold_back (128 - effective_bytes t1) (effective_bytes t1) (reduce_key stretched t1)

unfoldable pub expand_key : List ℕ → ℕ → List ℕ
unfolding words expand_bytes
expand_key key t1 = words 64 0 (expand_bytes key t1)

-- `none` is the error of a key or an effective length that is out of range.
unfoldable pub new_cipher_with_effective_key_bits : List ℕ → ℕ → Option (List ℕ)
new_cipher_with_effective_key_bits key t1 =
    if ltb (length key) 1 || ltb 128 (length key)
    then none
    else if ltb t1 1 || ltb 1024 t1
    then none
    else some (expand_key key t1)

unfoldable pub new_cipher : List ℕ → Option (List ℕ)
unfolding new_cipher_with_effective_key_bits
new_cipher key = new_cipher_with_effective_key_bits key (length key * 8)
