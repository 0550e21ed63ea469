-- ===== src/Text.antt =====
-- Go strings as lists of runes, and byte slices as lists of bytes: `==` and `bytes.Equal`,
-- `strings.TrimSpace`, `strings.EqualFold` and `hex.EncodeToString` as the code uses them.
use certkit.Prelude.{zero, suc, ◌++◌}
use certkit.Prelude.{ℕ, ◌+◌, ◌/◌, ◌%◌, ◌≡◌, ◌↔◌, refl, Bool, true, false, ◌&&◌, ◌||◌}
use certkit.Prelude.{
  List, [], ◌∷◌, map, ltb, leb, ◌==◌, if◌then◌else◌, length, arith, Bool-cases, inl, inr,
}
use mathlib.Core.List.{reverse}
use Prim.Native.Char.{code}
use Prim.Native.String.{String}

abbrev pub Text : Type 0
Text = List ℕ

-- The runes of a literal.
abbrev pub ascii : String → Text
ascii String.[] = []
ascii (String.◌∷◌ c s) = code c ∷ ascii s

unfoldable pub text_eq : Text → Text → Bool
text_eq [] [] = true
text_eq (a ∷ s) (b ∷ t) = a == b && text_eq s t
text_eq _ _ = false

pub text_eq→eq : (s t : Text) → text_eq s t ≡ true → s ≡ t
unfolding text_eq
text_eq→eq [] [] e = refl
text_eq→eq [] (b ∷ t) e = cc
text_eq→eq (a ∷ s) [] e = cc
text_eq→eq (a ∷ s) (b ∷ t) e = ground (arith, text_eq→eq s t)

pub text_eq_refl : (s : Text) → text_eq s s ≡ true
unfolding text_eq
text_eq_refl [] = refl
text_eq_refl (a ∷ s) = ground (arith, text_eq_refl s)

pub text_eq_iff : (s t : Text) → (text_eq s t ≡ true) ↔ (s ≡ t)
text_eq_iff s t = (text_eq→eq s t, λ e. rw e (text_eq_refl t))

pub text_eq_sym : (s t : Text) → text_eq s t ≡ false → text_eq t s ≡ false
text_eq_sym s t e = elim (Bool-cases (text_eq t s)) [
  | inl h ↦ cc (text_eq→eq t s h, text_eq_refl s)
  | inr h ↦ h
]

-- `unicode.IsSpace`
unfoldable pub is_space : ℕ → Bool
is_space r =
    leb 0x09 r && leb r 0x0d
    || r == 0x20
    || r == 0x85
    || r == 0xa0
    || r == 0x1680
    || leb 0x2000 r && leb r 0x200a
    || r == 0x2028
    || r == 0x2029
    || r == 0x202f
    || r == 0x205f
    || r == 0x3000

unfoldable pub trim_left : Text → Text
trim_left [] = []
trim_left (r ∷ s) = if is_space r then trim_left s else r ∷ s

unfoldable pub trim_space : Text → Text
unfolding trim_left is_space
trim_space s = reverse (trim_left (reverse (trim_left s)))

-- Equality under simple case folding; `fold` sends a rune to one representative of its orbit.
unfoldable pub equal_fold : (ℕ → ℕ) → Text → Text → Bool
unfolding text_eq
equal_fold fold s t = text_eq (map fold s) (map fold t)

pub equal_fold_iff :
    (fold : ℕ → ℕ) (s t : Text) → (equal_fold fold s t ≡ true) ↔ (map fold s ≡ map fold t)
unfolding equal_fold
equal_fold_iff fold s t = text_eq_iff (map fold s) (map fold t)

unfoldable pub hex_digit : ℕ → ℕ
hex_digit n = if ltb n 10 then 48 + n else 87 + n

unfoldable pub hex : List ℕ → Text
unfolding hex_digit
hex [] = []
hex (b ∷ bs) = hex_digit (b / 16) ∷ hex_digit (b % 16) ∷ hex bs

pub length-hex : (bs : List ℕ) → length (hex bs) ≡ length bs + length bs
unfolding hex
length-hex [] = omega arith
length-hex (b ∷ bs) = omega (arith, length-hex bs)

-- The digits of a number, the last one for the least place; the fuel is more than the number.
unfoldable pub digits : ℕ → ℕ → Text
digits zero n = []
digits (suc fuel) n =
    let above = digits fuel (n / 10) ++ (48 + n % 10) ∷ [] in
    if ltb n 10 then (48 + n) ∷ [] else above

-- `strconv.Itoa`, on a number that is not negative.
unfoldable pub decimal : ℕ → Text
unfolding digits
decimal n = digits (suc n) n
