-- ===== src/Pkcs12/Bmp.antt =====
-- internal/pkcs12/bmp-string.go. A Go string is the list of the runes that `range` gives; the
-- functions of unicode/utf16 are written out.
use certkit.Prelude.{ℕ, ◌+◌, ◌-◌, ◌*◌, ◌/◌, ◌%◌, List, [], ◌∷◌, ◌++◌, ◌&&◌}
use certkit.Prelude.{if◌then◌else◌, ltb, leb, ◌==◌, length, take, get_or}
use certkit.Result.{ok, ◌>>=◌, ◌>>◌, guard}
use certkit.Pkcs12.Types.{Error, R}

-- `utf16.EncodeRune(r)` returns the first half of a pair, 0xfffd when `r` needs none.
abbrev pub encode_rune : ℕ → ℕ
encode_rune r =
    if leb 0x10000 r && leb r 0x10ffff then 0xd800 + (r - 0x10000) / 1024 % 1024 else 0xfffd

unfoldable pub bmp_string : List ℕ → R (List ℕ)
bmp_string [] = ok []
bmp_string (r ∷ rs) =
    guard (encode_rune r == 0xfffd) Error.invalid
    >> (bmp_string rs >>= (λ rest. ok (r / 256 % 256 ∷ r % 256 ∷ rest)))

unfoldable pub bmp_string_zero_terminated : List ℕ → R (List ℕ)
unfolding bmp_string
bmp_string_zero_terminated s = bmp_string s >>= λ ret. ok (ret ++ 0 ∷ 0 ∷ [])

unfoldable pub strip_terminator : List ℕ → List ℕ
strip_terminator bs =
    if leb 2 (length bs) && get_or bs (length bs - 1) 1 == 0 && get_or bs (length bs - 2) 1 == 0
    then take (length bs - 2) bs
    else bs

unfoldable pub code_units : List ℕ → List ℕ
code_units (a ∷ b ∷ bs) = (a * 256 + b) ∷ code_units bs
code_units _ = []

-- `utf16.Decode`: a pair of surrogates is one rune, a lone surrogate becomes 0xfffd.
unfoldable pub utf16_decode : List ℕ → List ℕ
utf16_decode [] = []
utf16_decode (a ∷ []) = (if leb 0xd800 a && ltb a 0xe000 then 0xfffd else a) ∷ []
utf16_decode (a ∷ b ∷ s) =
    let one = utf16_decode (b ∷ s) in
    let two = utf16_decode s in
    if leb 0xd800 a && ltb a 0xdc00 && leb 0xdc00 b && ltb b 0xe000
    then ((a - 0xd800) * 1024 + (b - 0xdc00) + 0x10000) ∷ two
    else (if leb 0xd800 a && ltb a 0xe000 then 0xfffd else a) ∷ one

unfoldable pub decode_bmp_string : List ℕ → R (List ℕ)
unfolding strip_terminator code_units utf16_decode
decode_bmp_string bs =
    guard (length bs % 2 == 0) Error.invalid >> ok (utf16_decode (code_units (strip_terminator bs)))
