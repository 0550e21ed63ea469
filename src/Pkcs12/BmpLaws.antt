-- ===== src/Pkcs12/BmpLaws.antt =====
-- bmp-string.go: a string of the basic plane is decoded to itself.
use certkit.Prelude.{
  ◌≡◌, refl, ◌∙◌, ap, ap₂, ◌⊎◌, inl, inr, ℕ, zero, suc, ◌+◌, ◌-◌, ◌/◌, ◌%◌, ◌≤◌, ◌<◌, List, [], ◌∷◌,
  ◌++◌,
}
use certkit.Prelude.{take, length, get_or, length-append, arith, All, true, leb, ◌==◌}
use certkit.Result.{ok, ◌>>=◌}
use certkit.Pkcs12.CbcLaws.{take-append}
use certkit.Pkcs12.Bmp.{encode_rune, bmp_string, bmp_string_zero_terminated, strip_terminator}
use certkit.Pkcs12.Bmp.{code_units, utf16_decode, decode_bmp_string}

-- A rune of the basic plane; a Go string has no surrogates.
abbrev pub IsBasic : ℕ → Type 0
IsBasic r = (r < 0x10000) × ((r < 0xd800) ⊎ (0xe000 ≤ r))

-- The bytes of a string, two for a rune.
unfoldable pub pairs : List ℕ → List ℕ
pairs [] = []
pairs (r ∷ rs) = r / 256 ∷ r % 256 ∷ pairs rs

bmp_string-pairs : (s : List ℕ) → All IsBasic s → bmp_string s ≡ ok (pairs s)
unfolding bmp_string pairs
bmp_string-pairs [] h = refl
bmp_string-pairs (r ∷ rs) (h, hs) =
    let fits : (encode_rune r == 0xfffd) ≡ true = ground (arith, h.0) in
    let high : r / 256 % 256 ≡ r / 256 = omega (arith, h.0) in
    rw (fits, bmp_string-pairs rs hs, high) refl

length-pairs : (s : List ℕ) → length (pairs s) ≡ length s + length s
unfolding pairs
length-pairs [] = omega arith
length-pairs (r ∷ rs) = omega (arith, length-pairs rs)

code_units-pairs : (s : List ℕ) → code_units (pairs s) ≡ s
unfolding code_units pairs
code_units-pairs [] = refl
code_units-pairs (r ∷ rs) = ap₂ (λ (x : ℕ) (y : List ℕ). x ∷ y) (omega arith) (code_units-pairs rs)

utf16_decode-basic : (s : List ℕ) → All IsBasic s → utf16_decode s ≡ s
unfolding utf16_decode
utf16_decode-basic [] h = refl
utf16_decode-basic (a ∷ []) ((l, inl p), hs) = ground arith
utf16_decode-basic (a ∷ []) ((l, inr p), hs) = ground arith
utf16_decode-basic (a ∷ b ∷ s) ((l, inl p), hs) = ground (arith, utf16_decode-basic (b ∷ s) hs)
utf16_decode-basic (a ∷ b ∷ s) ((l, inr p), hs) = ground (arith, utf16_decode-basic (b ∷ s) hs)

get_or-past :
    (xs ys : List ℕ) (i n d : ℕ) → i ≡ length xs + n → get_or (xs ++ ys) i d ≡ get_or ys n d
get_or-past [] ys i n d e = ap (λ (k : ℕ). get_or ys k d) (omega (arith, e))
get_or-past (x ∷ xs) ys zero n d e = absurd (omega (arith, e))
get_or-past (x ∷ xs) ys (suc i) n d e = get_or-past xs ys i n d (omega (arith, e))

strip_terminator-append : (bs : List ℕ) → strip_terminator (bs ++ 0 ∷ 0 ∷ []) ≡ bs
unfolding strip_terminator
strip_terminator-append bs =
    let end : List ℕ = 0 ∷ 0 ∷ [] in
    let l : length (bs ++ end) ≡ length bs + 2 = length-append bs end in
    let room : leb 2 (length (bs ++ end)) ≡ true = ground (arith, l) in
    let last : get_or (bs ++ end) (length (bs ++ end) - 1) 1 ≡ 0 =
      get_or-past bs end (length (bs ++ end) - 1) 1 1 (omega (arith, l)) in
    let before : get_or (bs ++ end) (length (bs ++ end) - 2) 1 ≡ 0 =
      get_or-past bs end (length (bs ++ end) - 2) 0 1 (omega (arith, l)) in
    rw (room, last, before)
      (ap (λ (k : ℕ). take k (bs ++ end)) (omega (arith, l)) ∙ take-append (length bs) bs end refl)

-- The zero-terminated encoding of a string of the basic plane exists and is decoded to the string.
pub decode_bmp_string-bmp_string_zero_terminated :
    (s : List ℕ) → All IsBasic s → (bmp_string_zero_terminated s >>= decode_bmp_string) ≡ ok s
unfolding bmp_string_zero_terminated decode_bmp_string
decode_bmp_string-bmp_string_zero_terminated s h =
    let end : List ℕ = 0 ∷ 0 ∷ [] in
    let l : length (pairs s ++ end) ≡ length (pairs s) + 2 = length-append (pairs s) end in
    let even : (length (pairs s ++ end) % 2 == 0) ≡ true = ground (arith, l, length-pairs s) in
    rw (bmp_string-pairs s h, even, strip_terminator-append (pairs s))
      (ap ok (ap utf16_decode (code_units-pairs s) ∙ utf16_decode-basic s h))
