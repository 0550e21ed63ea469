-- ===== src/Authority/Keys.antt =====
-- key.go, and what ca.go computes before it issues a certificate: the validity and the issuer.
use certkit.Prelude.{ℕ, ◌+◌, ◌-◌, ◌*◌, ◌^◌, ◌==◌, List, [], ◌∷◌, Option, none, some, Bool}
use certkit.Prelude.{◌&&◌, ◌||◌, not, ltb, take, bit_and, if◌then◌else◌}
use certkit.Text.{Text, text_eq, trim_space, ascii}
use certkit.Result.{ok, err, ◌>>=◌, ◌>>◌, guard}
use certkit.Store.Library.{Library, X509Certificate, PublicKey, Signer}
use certkit.Store.Types.{Error, R, KeyAlgorithm, Entry, Certificate, PrivateKey}
use certkit.Store.Chain.{public_keys_equal}
use certkit.Store.Reconcile.{default_alias}
use certkit.Authority.Library.{AuthorityLibrary, KeyOptions, Curve}

-- The error of a called function, wrapped.
abbrev pub or_external {ℓ} : {A : Type ℓ} → Option A → R A
or_external none = err Error.external
or_external (some a) = ok a

unfoldable pub curve_of : Text → Option Curve
unfolding text_eq
curve_of t =
    if text_eq t [] || text_eq t (ascii "P-256") || text_eq t (ascii "P256")
    then some Curve.p256
    else if text_eq t (ascii "P-384") || text_eq t (ascii "P384")
    then some Curve.p384
    else if text_eq t (ascii "P-521") || text_eq t (ascii "P521")
    then some Curve.p521
    else none

-- KeyUsage bits.
abbrev pub digital_signature : ℕ
digital_signature = 1

abbrev pub key_encipherment : ℕ
key_encipherment = 4

abbrev pub cert_sign : ℕ
cert_sign = 32

abbrev pub crl_sign : ℕ
crl_sign = 64

-- `usage != 0 && usage&bit == 0`
unfoldable pub forbids : ℕ → ℕ → Bool
forbids usage bit = not (usage == 0) && bit_and usage bit == 0

abbrev pub day : ℕ
day = 24 * 3600 * 1000000000

abbrev pub or_now : ℕ → ℕ → ℕ
or_now not_before now = if not_before == 0 then now - 5 * 60 * 1000000000 else not_before

abbrev pub or_length : ℕ → ℕ → ℕ → ℕ
or_length not_after start valid_for = if not_after == 0 then start + valid_for else not_after

module _ (a : AuthorityLibrary) where
  unfoldable pub generate_rsa_key : ℕ → R Signer
  generate_rsa_key requested =
      let bits = if requested == 0 then 3072 else requested in
      if ltb bits 2048 then err Error.invalid_data else or_external (a.generate_rsa bits)

  abbrev pub generate_ec_key : Option Curve → R Signer
  generate_ec_key none = err Error.invalid_data
  generate_ec_key (some curve) = or_external (a.generate_ec curve)

  unfoldable pub generate_with : Option KeyAlgorithm → KeyOptions → R Signer
  unfolding generate_rsa_key curve_of
  generate_with none options = generate_rsa_key options.rsa_bits
  generate_with (some KeyAlgorithm.rsa) options = generate_rsa_key options.rsa_bits
  generate_with (some KeyAlgorithm.ec) options = generate_ec_key (curve_of options.curve)
  generate_with (some KeyAlgorithm.sm2) options = or_external a.generate_sm2
  generate_with (some KeyAlgorithm.unknown) options = err Error.unsupported_algorithm

  unfoldable pub generate_private_key : KeyOptions → R Signer
  unfolding generate_with
  generate_private_key options = generate_with options.algorithm options

  unfoldable pub random_serial_number : R ℕ
  random_serial_number =
      or_external (a.rand_int (2 ^ 128)) >>= λ serial. ok (if serial == 0 then 1 else serial)

  unfoldable pub default_key_usage : PublicKey → Bool → ℕ
  default_key_usage public_key is_ca =
      if is_ca
      then cert_sign + crl_sign + digital_signature
      else if a.is_rsa_public public_key
      then digital_signature + key_encipherment
      else digital_signature

  -- notBefore and notAfter.
  unfoldable pub certificate_validity : ℕ → ℕ → ℕ → ℕ → R (ℕ × ℕ)
  certificate_validity not_before not_after valid_for default_valid_for =
      let start = or_now not_before a.now in
      let end =
        or_length not_after start (if valid_for == 0 then default_valid_for else valid_for) in
      if not (ltb start end) then err Error.invalid_data else ok (start, end)

module _ (lib : Library) where
  unfoldable pub subject_key_id : PublicKey → R (List ℕ)
  subject_key_id public_key =
      or_external (lib.marshal_pkix public_key) >>= λ der. ok (take 20 (lib.sha256 der))

  unfoldable pub issuer_of : Option PrivateKey → List Certificate → R (X509Certificate × Signer)
  unfolding forbids public_keys_equal
  issuer_of none chain = err Error.invalid_data
  issuer_of (some k) [] = err Error.invalid_data
  issuer_of (some k) (c ∷ cs) = do
    let cert = c.certificate
    guard (not (not cert.is_ca || forbids cert.key_usage cert_sign)) Error.invalid_data
    guard (public_keys_equal lib (lib.public k.signer) cert.public_key) Error.key_mismatch
    ok (cert, k.signer)

  unfoldable pub validate_issuer : Option Entry → R (X509Certificate × Signer)
  unfolding issuer_of
  validate_issuer none = err Error.invalid_data
  validate_issuer (some issuer) = issuer_of issuer.private_key issuer.chain

  unfoldable pub default_entry_alias : Text → X509Certificate → Text
  unfolding text_eq trim_space default_alias
  default_entry_alias alias cert =
      if not (text_eq (trim_space alias) []) then trim_space alias else default_alias (some cert)
