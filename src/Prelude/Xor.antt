-- ===== src/Prelude/Xor.antt =====
-- Exclusive or undoes itself.
use Prim.Native.Nat.{
  ℕ, zero, suc, ◌+◌, ◌*◌, ◌/◌, ◌%◌, ◌^◌, ◌≤◌, ◌<◌, bit_xor, bit_xor-bitwise, differ,
}
use mathlib.Core.Path.{◌≡◌, refl}
use native.Mathlib.Nat.{pow-suc}
use native.Mathlib.Omega.{arith}
use certkit.Prelude.Bits.{run_any_fuel}

bit_xor-halves : (r s : ℕ) → bit_xor r s ≡ bit_xor (r / 2) (s / 2) * 2 + differ (r % 2) (s % 2)
bit_xor-halves zero s = omega (arith, bit_xor-bitwise 0 s, bit_xor-bitwise 0 (s / 2))
bit_xor-halves (suc r) s =
    let h : suc r / 2 ≤ r = omega arith in
    omega (
      arith,
      bit_xor-bitwise (suc r) s,
      bit_xor-bitwise (suc r / 2) (s / 2),
      run_any_fuel (λ y. y) differ (suc r / 2) (s / 2) r (suc r / 2) h (omega arith),
    )

differ_twice : (a b : ℕ) → a < 2 → b < 2 → differ (differ a b) b ≡ a
differ_twice zero zero h k = refl
differ_twice zero (suc zero) h k = refl
differ_twice (suc zero) zero h k = refl
differ_twice (suc zero) (suc zero) h k = refl
differ_twice zero (suc (suc b)) h k = omega arith
differ_twice (suc zero) (suc (suc b)) h k = omega arith
differ_twice (suc (suc a)) b h k = omega arith

differ-lt : (a b : ℕ) → a < 2 → b < 2 → differ a b < 2
differ-lt zero b h k = k
differ-lt (suc zero) zero h k = h
differ-lt (suc zero) (suc zero) h k = omega arith
differ-lt (suc zero) (suc (suc b)) h k = omega arith
differ-lt (suc (suc a)) b h k = omega arith

xor_step :
    (a b : ℕ) → bit_xor (bit_xor (a / 2) (b / 2)) (b / 2) ≡ a / 2 → bit_xor (bit_xor a b) b ≡ a
xor_step a b ih =
    let x = bit_xor a b in
    let d = differ (a % 2) (b % 2) in
    let low : d < 2 = differ-lt (a % 2) (b % 2) (omega arith) (omega arith) in
    let e = bit_xor-halves a b in
    let half : x / 2 ≡ bit_xor (a / 2) (b / 2) = omega (arith, e, low) in
    let odd : x % 2 ≡ d = omega (arith, e, low) in
    let t = differ_twice (a % 2) (b % 2) (omega arith) (omega arith) in
    let top : bit_xor (x / 2) (b / 2) ≡ a / 2 = rw half ih in
    let bottom : differ (x % 2) (b % 2) ≡ a % 2 = rw odd t in
    omega (arith, bit_xor-halves x b, top, bottom)

xor_twice_below : (n a b : ℕ) → a + b < n → bit_xor (bit_xor a b) b ≡ a
xor_twice_below zero a b h = omega arith
xor_twice_below (suc n) zero zero h = refl
xor_twice_below (suc n) zero (suc b) h =
    xor_step 0 (suc b) (xor_twice_below n (0 / 2) (suc b / 2) (omega arith))
xor_twice_below (suc n) (suc a) b h =
    xor_step (suc a) b (xor_twice_below n (suc a / 2) (b / 2) (omega arith))

pub bit_xor_twice : (a b : ℕ) → bit_xor (bit_xor a b) b ≡ a
bit_xor_twice a b = xor_twice_below (suc (a + b)) a b (omega arith)

pub bit_xor-lt : (k a b : ℕ) → a < 2 ^ k → b < 2 ^ k → bit_xor a b < 2 ^ k
bit_xor-lt zero zero zero h l = omega arith
bit_xor-lt zero zero (suc b) h l = omega arith
bit_xor-lt zero (suc a) b h l = omega arith
bit_xor-lt (suc k) a b h l =
    let p = pow-suc 2 k in
    let low = differ-lt (a % 2) (b % 2) (omega arith) (omega arith) in
    let ih = bit_xor-lt k (a / 2) (b / 2) (omega (arith, p, h)) (omega (arith, p, l)) in
    omega (arith, bit_xor-halves a b, low, ih, p)
