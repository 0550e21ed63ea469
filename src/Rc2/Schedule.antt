-- ===== src/Rc2/Schedule.antt =====
-- The key schedule of internal/pkcs12/internal/rc2/rc2.go yields 64 uint16 words.
use certkit.Prelude.{ℕ, zero, suc, ◌+◌, ◌-◌, ◌*◌, ◌^◌, ◌≤◌, ◌<◌, ◌≡◌, refl, arith, ap}
use certkit.Prelude.{List, bit_or, some, ◌↔◌}
use certkit.Prelude.{length, All, All-set, All-append, All-take}
use certkit.Prelude.{All-replicate, get_or-All}
use certkit.Prelude.Bits.{bit_or_low_high}
use certkit.Rc2.Word.{u16}
use certkit.Rc2.Table.{pi-lt}
use certkit.Rc2.Key.{padded, stretch, fold_back, words, effective_bytes}
use certkit.Rc2.Key.{reduce_key, expand_bytes, expand_key, new_cipher_with_effective_key_bits}

abbrev pub IsBytes : List ℕ → Type 0
IsBytes = All (λ b. b < 256)

abbrev pub IsWords : List ℕ → Type 0
IsWords = All (λ w. w < 2 ^ 16)

padded-IsBytes : (key : List ℕ) → IsBytes key → IsBytes (padded key)
unfolding padded
padded-IsBytes key h =
    All-take _ 128 _ (All-append _ key _ h (All-replicate _ (128 - length key) 0 (omega arith)))

stretch-IsBytes : (n t i : ℕ) (l : List ℕ) → IsBytes l → IsBytes (stretch n t i l)
unfolding stretch
stretch-IsBytes zero t i l h = h
stretch-IsBytes (suc n) t i l h = stretch-IsBytes n t (i + 1) _ (All-set _ l i _ h (pi-lt _))

fold_back-IsBytes : (n t8 : ℕ) (l : List ℕ) → IsBytes l → IsBytes (fold_back n t8 l)
unfolding fold_back
fold_back-IsBytes zero t8 l h = h
fold_back-IsBytes (suc i) t8 l h = fold_back-IsBytes i t8 _ (All-set _ l i _ h (pi-lt _))

length-words : (n i : ℕ) (l : List ℕ) → length (words n i l) ≡ n
unfolding words
length-words zero i l = refl
length-words (suc n) i l = ap suc (length-words n (i + 1) l)

word_sum : (a b : ℕ) → a < 256 → b < 256 → bit_or a (u16 (b * 2 ^ 8)) ≡ b * 256 + a
word_sum a b ha hb =
    let same : u16 (b * 2 ^ 8) ≡ b * 2 ^ 8 = omega arith in rw same (bit_or_low_high 8 b a ha)

words-IsWords : (n i : ℕ) (l : List ℕ) → IsBytes l → IsWords (words n i l)
unfolding words
words-IsWords zero i l h = tt
words-IsWords (suc n) i l h =
    let lo = get_or-All (λ b. b < 256) l (2 * i) 0 h (omega arith) in
    let hi = get_or-All (λ b. b < 256) l (2 * i + 1) 0 h (omega arith) in
    (rw (word_sum _ _ lo hi) (omega arith), words-IsWords n (i + 1) l h)

reduce_key-IsBytes : (l : List ℕ) (t1 : ℕ) → IsBytes l → IsBytes (reduce_key l t1)
unfolding reduce_key
reduce_key-IsBytes l t1 h = All-set _ l (128 - effective_bytes t1) _ h (pi-lt _)

expand_bytes-IsBytes : (key : List ℕ) (t1 : ℕ) → IsBytes key → IsBytes (expand_bytes key t1)
expand_bytes-IsBytes key t1 h =
    let t = length key in
    let start = stretch (128 - t) t t (padded key) in
    let step = stretch-IsBytes (128 - t) t t _ (padded-IsBytes key h) in
    let t8 = effective_bytes t1 in
    rw bytes
      (fold_back-IsBytes (128 - t8) t8 (reduce_key start t1) (reduce_key-IsBytes start t1 step))
  where
    bytes :
        expand_bytes key t1
        ≡ fold_back
            (128 - effective_bytes t1)
            (effective_bytes t1)
            (reduce_key (stretch (128 - length key) (length key) (length key) (padded key)) t1)
    bytes = unfold expand_bytes in refl

length-expand_key : (key : List ℕ) (t1 : ℕ) → length (expand_key key t1) ≡ 64
length-expand_key key t1 = rw key_words (length-words 64 0 (expand_bytes key t1))
  where
    key_words : expand_key key t1 ≡ words 64 0 (expand_bytes key t1)
    key_words = unfold expand_key in refl

expand_key-IsWords : (key : List ℕ) (t1 : ℕ) → IsBytes key → IsWords (expand_key key t1)
expand_key-IsWords key t1 h =
    rw key_words (words-IsWords 64 0 (expand_bytes key t1) (expand_bytes-IsBytes key t1 h))
  where
    key_words : expand_key key t1 ≡ words 64 0 (expand_bytes key t1)
    key_words = unfold expand_key in refl

-- A round key exists exactly when the key has 1 to 128 bytes and the effective length is 1 to
-- 1024 bits; it then has 64 words, each a uint16.
pub new_cipher_with_effective_key_bits-IsWords :
    (key : List ℕ) (t1 : ℕ)
    → IsBytes key
    → (((1 ≤ length key) × (length key ≤ 128) × (1 ≤ t1) × (t1 ≤ 1024))
        ↔ ((k : List ℕ) × (new_cipher_with_effective_key_bits key t1 ≡ some k)))
      × ((k : List ℕ)
          → new_cipher_with_effective_key_bits key t1 ≡ some k
          → (length k ≡ 64) × IsWords k)
new_cipher_with_effective_key_bits-IsWords key t1 h = (
  (
    λ r. (expand_key key t1, unfold new_cipher_with_effective_key_bits in ground arith),
    λ p. unfold new_cipher_with_effective_key_bits in ground arith,
  ),
  λ k e.
      let same : expand_key key t1 ≡ k =
        unfold new_cipher_with_effective_key_bits in ground arith in
      rw (← same) (length-expand_key key t1, expand_key-IsWords key t1 h),
)
