-- ===== src/Authority/Total.antt =====
-- key.go and ca.go: validity, serial numbers and keys; the functions end without a panic.
use certkit.Prelude.{◌≡◌, refl, ℕ, ◌<◌, ◌^◌, ◌==◌, List, Option, none, some}
use certkit.Prelude.{ltb, Bool-cases, inl, inr}
use certkit.Prelude.{arith, if◌then◌else◌}
use certkit.Store.Types.{R}
use certkit.Result.{ok, err, panic, stuck}
use certkit.Result.{Ensures, returns, refuses, Ensures-bind, Ensures-if, Ensures-map}
use certkit.Store.Library.{Library, PublicKey, Signer}
use certkit.Store.Types.{KeyAlgorithm}
use certkit.Store.Additions.{Anything}
use certkit.Authority.Library.{AuthorityLibrary, KeyOptions, Curve}
use certkit.Authority.Keys.{
  or_external, generate_private_key, random_serial_number, certificate_validity, subject_key_id,
}
use certkit.Authority.Keys.{or_now, or_length}
use certkit.Authority.Keys.{generate_rsa_key, generate_ec_key, generate_with, curve_of}
use certkit.Authority.Issue.{serial_or_random}

pub or_external-found : {A : Type 0} (o : Option A) → Ensures (λ x. o ≡ some x) (or_external o)
or_external-found none = refuses
or_external-found (some x) = returns refl

module _ (a : AuthorityLibrary) where
  -- The two times are in order, and a given one is kept.
  pub certificate_validity-Ensures :
      (not_before not_after valid_for default_valid_for : ℕ)
      → Ensures
          (λ r. r.0 < r.1)
          (certificate_validity a not_before not_after valid_for default_valid_for)
  unfolding certificate_validity
  certificate_validity-Ensures not_before not_after valid_for default_valid_for =
      let start = or_now not_before a.now in
      let end =
        or_length not_after start (if valid_for == 0 then default_valid_for else valid_for) in
      elim (Bool-cases (ltb start end)) [
        | inl b ↦ rw b (returns (ground (arith, b)))
        | inr b ↦ rw b refuses
      ]

  -- A random serial number is positive, and below the limit when rand.Int keeps it.
  pub random_serial_number-Ensures :
      ((limit n : ℕ) → a.rand_int limit ≡ some n → n < limit)
      → Ensures (λ n. (0 < n) × (n < 2 ^ 128)) (random_serial_number a)
  unfolding random_serial_number
  random_serial_number-Ensures below =
      Ensures-bind (or_external-found (a.rand_int (2 ^ 128))) λ n e.
        let l = below (2 ^ 128) n e in
        elim (Bool-cases (n == 0)) [
          | inl b ↦ rw b (returns (omega arith, omega arith))
          | inr b ↦ rw b (returns (ground (arith, b), l))
        ]

  pub random_serial_number-total : Ensures (Anything {0} {A = ℕ}) (random_serial_number a)
  unfolding random_serial_number
  random_serial_number-total =
      Ensures-bind (or_external-found (a.rand_int (2 ^ 128))) λ n e. returns tt

  pub serial_or_random-total :
      (lib : Library) (o : Option ℕ) → Ensures (Anything {0} {A = ℕ}) (serial_or_random lib a o)
  serial_or_random-total lib (some n) = returns tt
  serial_or_random-total lib none = random_serial_number-total

  generate_rsa_key-total :
      (bits : ℕ) → Ensures (Anything {0} {A = Signer}) (generate_rsa_key a bits)
  unfolding generate_rsa_key
  generate_rsa_key-total bits =
      Ensures-if (ltb (if bits == 0 then 3072 else bits) 2048) (λ q. refuses)
        λ q. Ensures-map (or_external-found _) λ k e. tt

  generate_ec_key-total :
      (o : Option Curve) → Ensures (Anything {0} {A = Signer}) (generate_ec_key a o)
  generate_ec_key-total none = refuses
  generate_ec_key-total (some c) = Ensures-map (or_external-found (a.generate_ec c)) λ k e. tt

  generate_with-total :
      (algorithm : Option KeyAlgorithm) (options : KeyOptions)
      → Ensures (Anything {0} {A = Signer}) (generate_with a algorithm options)
  unfolding generate_with
  generate_with-total none options = generate_rsa_key-total options.rsa_bits
  generate_with-total (some KeyAlgorithm.rsa) options = generate_rsa_key-total options.rsa_bits
  generate_with-total (some KeyAlgorithm.ec) options =
      generate_ec_key-total (curve_of options.curve)
  generate_with-total (some KeyAlgorithm.sm2) options =
      Ensures-map (or_external-found a.generate_sm2) λ k e. tt
  generate_with-total (some KeyAlgorithm.unknown) options = refuses

  pub generate_private_key-total :
      (options : KeyOptions) → Ensures (Anything {0} {A = Signer}) (generate_private_key a options)
  unfolding generate_private_key
  generate_private_key-total options = generate_with-total options.algorithm options

-- What a total function returns is its value.
pub Ensures-itself :
    {A : Type 0} {P : A → Type 0} (r : R A) → Ensures P r → Ensures (λ a. r ≡ ok a) r
Ensures-itself (ok a) h = returns refl
Ensures-itself (err e) h = refuses
Ensures-itself panic h = elim h [ ]
Ensures-itself stuck h = elim h [ ]

pub generate_private_key-itself :
    (a : AuthorityLibrary) (options : KeyOptions)
    → Ensures (λ key. generate_private_key a options ≡ ok key) (generate_private_key a options)
generate_private_key-itself a options =
    Ensures-itself (generate_private_key a options) (generate_private_key-total a options)

pub subject_key_id-total :
    (lib : Library) (key : PublicKey) → Ensures (Anything {0} {A = List ℕ}) (subject_key_id lib key)
unfolding subject_key_id
subject_key_id-total lib key =
    Ensures-bind (or_external-found (lib.marshal_pkix key)) λ der e. returns tt
