-- ===== src/Prelude/Bits.antt =====
-- `bit_and` and `bit_or` at variables: one equation for the lowest digit, and from it the laws of
-- disjoint fields and low masks at every width. Small ranges are checked by evaluation.
use Prim.Native.Nat.{max, digits, bit_and-bitwise, bit_or-bitwise}
use native.Mathlib.Nat.{pow-suc}
use certkit.Prelude.{ℕ, zero, suc, ◌+◌, ◌*◌, ◌/◌, ◌%◌, ◌^◌, ◌≤◌, ◌<◌, min, bit_and, bit_or}
use certkit.Prelude.{◌≡◌, refl, sym, ◌∙◌, ap, arith, Bool, true, false, if◌then◌else◌, dec_lt}

-- A test of every number below a bound, and what a passed test says of one number.
unfoldable pub table_holds : ℕ → (ℕ → Bool) → Bool
table_holds zero test = true
table_holds (suc bound) test = if test bound then table_holds bound test else false

pub table_entry :
    (bound : ℕ) (test : ℕ → Bool) (entry : ℕ)
    → table_holds bound test ≡ true
    → entry < bound
    → test entry ≡ true
unfolding table_holds
table_entry zero test entry passed below = elim below [ ]
table_entry (suc bound) test entry passed below = elim (dec_lt entry bound) [
  | yes lower ↦ table_entry bound test entry (ground arith) lower
  | no top ↦ let same : entry ≡ bound = omega arith in rw same (ground arith)
]

-- `digits` is the recursion on binary digits that the native operations stand for; `n` is its fuel,
-- which only has to reach the first number.
module _ (base : ℕ → ℕ) (digit : ℕ → ℕ → ℕ) where
  run-zero : (n b : ℕ) → digits base digit n 0 b ≡ base b
  run-zero zero b = refl
  run-zero (suc n) b = refl

  pub run_any_fuel :
      (a b n m : ℕ) → a ≤ n → a ≤ m → digits base digit n a b ≡ digits base digit m a b
  run_any_fuel zero b n m _ _ = run-zero n b ∙ sym (run-zero m b)
  run_any_fuel (suc a) b zero m h _ = elim h [ ]
  run_any_fuel (suc a) b (suc n) zero _ h = elim h [ ]
  run_any_fuel (suc a) b (suc n) (suc m) h k =
      let half_fits : suc a / 2 ≤ a = omega arith in
      rw (run_any_fuel (suc a / 2) (b / 2) n m (omega arith) (omega arith))

pub bit_or-halves : (r s : ℕ) → bit_or r s ≡ bit_or (r / 2) (s / 2) * 2 + max (r % 2) (s % 2)
bit_or-halves zero s = omega (arith, bit_or-bitwise 0 s, bit_or-bitwise 0 (s / 2))
bit_or-halves (suc r) s =
    let h : suc r / 2 ≤ r = omega arith in
    omega (
      arith,
      bit_or-bitwise (suc r) s,
      bit_or-bitwise (suc r / 2) (s / 2),
      run_any_fuel (λ y. y) max (suc r / 2) (s / 2) r (suc r / 2) h (omega arith),
    )

pub bit_and-halves : (r s : ℕ) → bit_and r s ≡ bit_and (r / 2) (s / 2) * 2 + min (r % 2) (s % 2)
bit_and-halves zero s = omega (arith, bit_and-bitwise 0 s, bit_and-bitwise 0 (s / 2))
bit_and-halves (suc r) s =
    let h : suc r / 2 ≤ r = omega arith in
    omega (
      arith,
      bit_and-bitwise (suc r) s,
      bit_and-bitwise (suc r / 2) (s / 2),
      run_any_fuel (λ y. 0) min (suc r / 2) (s / 2) r (suc r / 2) h (omega arith),
    )

double_shift : (k q : ℕ) → q * 2 ^ suc k ≡ q * 2 ^ k * 2
double_shift k q = omega (arith, ap (λ (p : ℕ). q * p) (pow-suc 2 k))

-- `r | (q << k)` is a sum when `r` fits `k` bits.
pub bit_or_low_high : (k q r : ℕ) → r < 2 ^ k → bit_or r (q * 2 ^ k) ≡ q * 2 ^ k + r
bit_or_low_high zero q zero fits = omega (arith, bit_or-bitwise 0 (q * 2 ^ 0))
bit_or_low_high zero q (suc r) fits = absurd (omega arith)
bit_or_low_high (suc k) q r fits = ground (
  arith,
  bit_or-halves r (q * 2 ^ suc k),
  double_shift k q,
  bit_or_low_high k q (r / 2) (omega arith),
)
