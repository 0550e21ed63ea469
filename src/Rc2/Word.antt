-- ===== src/Rc2/Word.antt =====
-- uint16 arithmetic and `rotl16` of internal/pkcs12/internal/rc2/rc2.go.
use certkit.Prelude.{ℕ, ◌+◌, ◌-◌, ◌*◌, ◌/◌, ◌%◌, ◌^◌, ◌<◌, ◌≡◌, arith, bit_or}
use certkit.Prelude.Bits.{bit_or_low_high}

abbrev pub u16 : ℕ → ℕ
u16 x = x % 2 ^ 16

-- `x - y` on uint16: 2^16 is added before, since `-` on ℕ stops at 0.
abbrev pub sub16 : ℕ → ℕ → ℕ
sub16 x y = u16 (x + 2 ^ 16 - u16 y)

-- `(x >> (16 - b)) | (x << b)`
unfoldable pub rotl16 : ℕ → ℕ → ℕ
rotl16 x b = bit_or (x / 2 ^ (16 - b)) (u16 (x * 2 ^ b))

-- A rotation in plain arithmetic, at each of the eight distances that the rounds use.
rotl16_1 : (x : ℕ) → x < 2 ^ 16 → rotl16 x 1 ≡ x % 2 ^ 15 * 2 ^ 1 + x / 2 ^ 15
unfolding rotl16
rotl16_1 x h =
    let low : u16 (x * 2 ^ 1) ≡ x % 2 ^ 15 * 2 ^ 1 = omega arith in
    rw low (bit_or_low_high 1 (x % 2 ^ 15) (x / 2 ^ 15) (omega arith))

rotl16_2 : (x : ℕ) → x < 2 ^ 16 → rotl16 x 2 ≡ x % 2 ^ 14 * 2 ^ 2 + x / 2 ^ 14
unfolding rotl16
rotl16_2 x h =
    let low : u16 (x * 2 ^ 2) ≡ x % 2 ^ 14 * 2 ^ 2 = omega arith in
    rw low (bit_or_low_high 2 (x % 2 ^ 14) (x / 2 ^ 14) (omega arith))

rotl16_3 : (x : ℕ) → x < 2 ^ 16 → rotl16 x 3 ≡ x % 2 ^ 13 * 2 ^ 3 + x / 2 ^ 13
unfolding rotl16
rotl16_3 x h =
    let low : u16 (x * 2 ^ 3) ≡ x % 2 ^ 13 * 2 ^ 3 = omega arith in
    rw low (bit_or_low_high 3 (x % 2 ^ 13) (x / 2 ^ 13) (omega arith))

rotl16_5 : (x : ℕ) → x < 2 ^ 16 → rotl16 x 5 ≡ x % 2 ^ 11 * 2 ^ 5 + x / 2 ^ 11
unfolding rotl16
rotl16_5 x h =
    let low : u16 (x * 2 ^ 5) ≡ x % 2 ^ 11 * 2 ^ 5 = omega arith in
    rw low (bit_or_low_high 5 (x % 2 ^ 11) (x / 2 ^ 11) (omega arith))

rotl16_11 : (x : ℕ) → x < 2 ^ 16 → rotl16 x 11 ≡ x % 2 ^ 5 * 2 ^ 11 + x / 2 ^ 5
unfolding rotl16
rotl16_11 x h =
    let low : u16 (x * 2 ^ 11) ≡ x % 2 ^ 5 * 2 ^ 11 = omega arith in
    rw low (bit_or_low_high 11 (x % 2 ^ 5) (x / 2 ^ 5) (omega arith))

rotl16_13 : (x : ℕ) → x < 2 ^ 16 → rotl16 x 13 ≡ x % 2 ^ 3 * 2 ^ 13 + x / 2 ^ 3
unfolding rotl16
rotl16_13 x h =
    let low : u16 (x * 2 ^ 13) ≡ x % 2 ^ 3 * 2 ^ 13 = omega arith in
    rw low (bit_or_low_high 13 (x % 2 ^ 3) (x / 2 ^ 3) (omega arith))

rotl16_14 : (x : ℕ) → x < 2 ^ 16 → rotl16 x 14 ≡ x % 2 ^ 2 * 2 ^ 14 + x / 2 ^ 2
unfolding rotl16
rotl16_14 x h =
    let low : u16 (x * 2 ^ 14) ≡ x % 2 ^ 2 * 2 ^ 14 = omega arith in
    rw low (bit_or_low_high 14 (x % 2 ^ 2) (x / 2 ^ 2) (omega arith))

rotl16_15 : (x : ℕ) → x < 2 ^ 16 → rotl16 x 15 ≡ x % 2 ^ 1 * 2 ^ 15 + x / 2 ^ 1
unfolding rotl16
rotl16_15 x h =
    let low : u16 (x * 2 ^ 15) ≡ x % 2 ^ 1 * 2 ^ 15 = omega arith in
    rw low (bit_or_low_high 15 (x % 2 ^ 1) (x / 2 ^ 1) (omega arith))

pub rotl16_undo_1 : (x : ℕ) → x < 2 ^ 16 → rotl16 (rotl16 x 1) 15 ≡ x
rotl16_undo_1 x h =
    let y : rotl16 x 1 < 2 ^ 16 = omega (arith, rotl16_1 x h) in
    omega (arith, rotl16_1 x h, rotl16_15 (rotl16 x 1) y)

pub rotl16_lt_1 : (x : ℕ) → x < 2 ^ 16 → rotl16 x 1 < 2 ^ 16
rotl16_lt_1 x h = omega (arith, rotl16_1 x h)

pub rotl16_undo_2 : (x : ℕ) → x < 2 ^ 16 → rotl16 (rotl16 x 2) 14 ≡ x
rotl16_undo_2 x h =
    let y : rotl16 x 2 < 2 ^ 16 = omega (arith, rotl16_2 x h) in
    omega (arith, rotl16_2 x h, rotl16_14 (rotl16 x 2) y)

pub rotl16_lt_2 : (x : ℕ) → x < 2 ^ 16 → rotl16 x 2 < 2 ^ 16
rotl16_lt_2 x h = omega (arith, rotl16_2 x h)

pub rotl16_undo_3 : (x : ℕ) → x < 2 ^ 16 → rotl16 (rotl16 x 3) 13 ≡ x
rotl16_undo_3 x h =
    let y : rotl16 x 3 < 2 ^ 16 = omega (arith, rotl16_3 x h) in
    omega (arith, rotl16_3 x h, rotl16_13 (rotl16 x 3) y)

pub rotl16_lt_3 : (x : ℕ) → x < 2 ^ 16 → rotl16 x 3 < 2 ^ 16
rotl16_lt_3 x h = omega (arith, rotl16_3 x h)

pub rotl16_undo_5 : (x : ℕ) → x < 2 ^ 16 → rotl16 (rotl16 x 5) 11 ≡ x
rotl16_undo_5 x h =
    let y : rotl16 x 5 < 2 ^ 16 = omega (arith, rotl16_5 x h) in
    omega (arith, rotl16_5 x h, rotl16_11 (rotl16 x 5) y)

pub rotl16_lt_5 : (x : ℕ) → x < 2 ^ 16 → rotl16 x 5 < 2 ^ 16
rotl16_lt_5 x h = omega (arith, rotl16_5 x h)
