-- ===== src/Pkcs12/Numbers.antt =====
-- pbkdf.go: the big-endian numbers of the blocks. SetBytes, Bytes and FillBytes are inverse, and
-- keeping the last bytes is the number modulo a power.
use certkit.Prelude.{◌≡◌, refl, sym, ◌∙◌, ap, ℕ, zero, suc, ◌+◌, ◌-◌, ◌*◌, ◌/◌, ◌%◌, ◌^◌, ◌≤◌, ◌<◌}
use certkit.Prelude.{
  List, [], ◌∷◌, ◌++◌, drop, length, ltb, length-append, arith, Bool-cases, inl, inr,
}
use native.Mathlib.Omega.{div_any}
use native.Mathlib.Nat.{
  mod-lt, pow-suc, mod-one, zero-mod, mod-eq_of_lt, add-mul-mod_self_left, mul_assoc, pow-succ',
}
use certkit.Pkcs12.Kdf.{from_bytes, to_bytes, minimal_bytes, keep_last, add_one_and}

from_bytes-snoc :
    (acc : ℕ) (bs : List ℕ) (b : ℕ) → from_bytes acc (bs ++ b ∷ []) ≡ from_bytes acc bs * 256 + b
unfolding from_bytes
from_bytes-snoc acc [] b = refl
from_bytes-snoc acc (x ∷ bs) b = from_bytes-snoc (acc * 256 + x) bs b

-- FillBytes, then SetBytes: the number, if it fits.
pub from_bytes-to_bytes : (v n : ℕ) → n < 256 ^ v → from_bytes 0 (to_bytes v n) ≡ n
unfolding to_bytes from_bytes
from_bytes-to_bytes zero n f = omega (arith, f)
from_bytes-to_bytes (suc v) n f =
    let p = pow-suc 256 v in
    from_bytes-snoc 0 (to_bytes v (n / 256)) (n % 256)
    ∙ omega (arith, from_bytes-to_bytes v (n / 256) (omega (arith, f, p)))

pub pow-pos : (v : ℕ) → 0 < 256 ^ v
pow-pos zero = omega arith
pow-pos (suc v) = omega (arith, pow-suc 256 v, pow-pos v)

keep_last-drop : (v : ℕ) (xs : List ℕ) → keep_last v xs ≡ drop (length xs - v) xs
unfolding keep_last
keep_last-drop v xs = elim (Bool-cases (ltb v (length xs))) [
  | inl b ↦ rw b refl
  | inr b ↦
      let none_more : 0 ≡ length xs - v = ground (arith, b) in
      rw b (ap (λ (k : ℕ). drop k xs) none_more)
]

drop-before : (k : ℕ) (xs ys : List ℕ) → k ≤ length xs → drop k (xs ++ ys) ≡ drop k xs ++ ys
drop-before zero xs ys l = refl
drop-before (suc k) [] ys l = absurd (omega (arith, l))
drop-before (suc k) (x ∷ xs) ys l = drop-before k xs ys (omega (arith, l))

drop-whole : (k : ℕ) (xs : List ℕ) → length xs ≤ k → drop k xs ≡ []
drop-whole zero [] l = refl
drop-whole zero (x ∷ xs) l = absurd (omega (arith, l))
drop-whole (suc k) [] l = refl
drop-whole (suc k) (x ∷ xs) l = drop-whole k xs (omega (arith, l))

keep_last-snoc :
    (v : ℕ) (xs : List ℕ) (b : ℕ) → keep_last (suc v) (xs ++ b ∷ []) ≡ keep_last v xs ++ b ∷ []
keep_last-snoc v xs b =
    keep_last-drop (suc v) (xs ++ b ∷ [])
    ∙ ap (λ (k : ℕ). drop k (xs ++ b ∷ [])) (omega (arith, length-append xs (b ∷ [])))
    ∙ drop-before (length xs - v) xs (b ∷ []) (omega arith)
    ∙ ap (λ (ys : List ℕ). ys ++ b ∷ []) (sym (keep_last-drop v xs))

no_bytes : (v : ℕ) → from_bytes 0 (keep_last (suc v) []) ≡ 0 % 256 ^ suc v
unfolding from_bytes
no_bytes v =
    ap (from_bytes 0) (keep_last-drop (suc v) [] ∙ drop-whole (0 - suc v) [] (omega arith))
    ∙ sym (zero-mod (256 ^ suc v))

-- The last byte, and the others modulo a power.
split-mod : (v n : ℕ) → n / 256 % 256 ^ v * 256 + n % 256 ≡ n % 256 ^ suc v
split-mod v n =
    let q = n / 256 in
    let p = 256 ^ v in
    let low = q % p * 256 + n % 256 in
    let above = div_any q p in
    let whole : n ≡ low + 256 ^ suc v * (q / p) = omega (
      arith,
      above,
      div_any n 256,
      mul_assoc 256 p (q / p),
      ap (λ (k : ℕ). k * (q / p)) (pow-succ' 256 v),
    ) in
    sym (mod-eq_of_lt (omega (arith, mod-lt q (pow-pos v), pow-suc 256 v)))
    ∙ sym (add-mul-mod_self_left low (256 ^ suc v) (q / p))
    ∙ ap (λ (k : ℕ). k % 256 ^ suc v) (sym whole)

-- The last bytes of a number are the number modulo a power.
from_bytes-keep_last :
    (v fuel n : ℕ) → n ≤ fuel → from_bytes 0 (keep_last v (minimal_bytes fuel n)) ≡ n % 256 ^ v
unfolding minimal_bytes from_bytes
from_bytes-keep_last zero fuel n l =
    let xs = minimal_bytes fuel n in
    ap (from_bytes 0) (keep_last-drop 0 xs ∙ drop-whole (length xs - 0) xs (omega arith))
    ∙ sym (mod-one n)
from_bytes-keep_last (suc v) zero n l =
    let none_left : n ≡ 0 = omega (arith, l) in rw none_left (no_bytes v)
from_bytes-keep_last (suc v) (suc fuel) zero l = no_bytes v
from_bytes-keep_last (suc v) (suc fuel) (suc m) l =
    let n = suc m in
    ap (from_bytes 0) (keep_last-snoc v (minimal_bytes fuel (n / 256)) (n % 256))
    ∙ from_bytes-snoc 0 (keep_last v (minimal_bytes fuel (n / 256))) (n % 256)
    ∙ ap (λ (k : ℕ). k * 256 + n % 256) (from_bytes-keep_last v fuel (n / 256) (omega (arith, l)))
    ∙ split-mod v n

-- A block of I becomes I_j + B + 1 modulo 2 ^ (8 * v), in `v` bytes.
pub add_one_and_lem :
    (v : ℕ) (b block : List ℕ)
    → add_one_and v b block ≡ to_bytes v ((from_bytes 0 block + from_bytes 0 b + 1) % 256 ^ v)
unfolding add_one_and
add_one_and_lem v b block =
    let n = from_bytes 0 block + from_bytes 0 b + 1 in
    ap (to_bytes v) (from_bytes-keep_last v n n (omega arith))
