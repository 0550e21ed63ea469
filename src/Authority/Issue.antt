-- ===== src/Authority/Issue.antt =====
-- ca.go and csr.go: CreateRootCA, IssueCertificate, SignCertificateRequest.
use certkit.Prelude.{zero, ℕ, ◌+◌, ◌*◌, ◌==◌, List, [], ◌∷◌, Option, none, some, Bool, true, false}
use certkit.Prelude.{◌&&◌, not, leb, length, map, if◌then◌else◌}
use certkit.Result.{ok, err, ◌>>=◌, ◌>>◌, guard}
use certkit.Text.{Text}
use certkit.Store.Library.{Library, X509Certificate, PublicKey, Signer}
use certkit.Store.Types.{Error, R, PrivateKeyStatus, Entry}
use certkit.Store.Operations.{new_certificates, new_private_key}
use certkit.Authority.Library.{
  AuthorityLibrary, CertificateOptions, CsrOptions, RootCaOptions, Template, Parent,
  CertificateRequest, PathLength,
}
use certkit.Authority.Keys.{
  or_external, generate_private_key, random_serial_number, default_key_usage, certificate_validity,
}
use certkit.Authority.Keys.{subject_key_id, validate_issuer, default_entry_alias, day}
use certkit.Authority.Keys.{digital_signature, cert_sign, crl_sign}

abbrev pub or_nothing {ℓ} : {A : Type ℓ} → Option (List A) → List A
or_nothing none = []
or_nothing (some l) = l

-- `if options.X == nil { options.X = request.X }`
abbrev pub or_requested {ℓ} : {A : Type ℓ} → Option (List A) → List A → Option (List A)
or_requested none l = some l
or_requested (some k) l = some k

-- `maxPathLen == 0 && !MaxPathLenZero`
abbrev pub or_unlimited : PathLength → Bool → PathLength
or_unlimited (some zero) false = none
or_unlimited l z = l

abbrev pub chain_of : Entry → List X509Certificate
chain_of issuer = map (λ c. c.certificate) issuer.chain

unfoldable pub default_validity : Bool → ℕ
default_validity is_ca = if is_ca then 5 * 365 * day else 397 * day

-- An ExtKeyUsage is its number: ServerAuth is 1, ClientAuth is 2.
abbrev pub default_ext_key_usage : List ℕ → Bool → List ℕ
default_ext_key_usage usage is_ca = if length usage == 0 && not is_ca then 1 ∷ 2 ∷ [] else usage

module _ (lib : Library) (a : AuthorityLibrary) where
  abbrev pub serial_or_random : Option ℕ → R ℕ
  serial_or_random none = random_serial_number a
  serial_or_random (some serial) = ok serial

  abbrev pub key_usage_or : ℕ → PublicKey → Bool → ℕ
  key_usage_or usage public_key is_ca =
      if usage == 0 then default_key_usage a public_key is_ca else usage

  abbrev pub path_length : CertificateOptions → PathLength
  path_length options =
      if options.is_ca
      then or_unlimited options.max_path_len options.max_path_len_zero
      else options.max_path_len

  unfoldable pub issue_public_key :
      X509Certificate → Signer → PublicKey → CertificateOptions → R X509Certificate
  unfolding certificate_validity random_serial_number subject_key_id default_key_usage
      default_validity
  issue_public_key issuer_cert issuer_key public_key options = do
    (not_before, not_after) ←
        certificate_validity a options.not_before options.not_after options.valid_for
          (default_validity options.is_ca)
    guard (leb not_after issuer_cert.not_after) Error.invalid_data
    serial ← serial_or_random options.serial_number
    ski ← subject_key_id lib public_key
    let template : Template = record {
      serial_number = serial;
      subject = options.subject;
      not_before = not_before;
      not_after = not_after;
      key_usage = key_usage_or options.key_usage public_key options.is_ca;
      ext_key_usage = default_ext_key_usage options.ext_key_usage options.is_ca;
      is_ca = options.is_ca;
      max_path_len = path_length options;
      max_path_len_zero = options.is_ca && options.max_path_len_zero;
      subject_key_id = ski;
      authority_key_id = issuer_cert.subject_key_id;
      dns_names = or_nothing options.dns_names;
      ip_addresses = or_nothing options.ip_addresses;
      email_addresses = or_nothing options.email_addresses;
      uris = or_nothing options.uris;
    }
    der ←
        or_external
          (a.create_certificate template (Parent.issued_by issuer_cert) public_key issuer_key)
    or_external (a.parse_certificate der)

  unfoldable pub new_issued_entry : Text → Signer → List X509Certificate → R Entry
  unfolding new_private_key new_certificates
  new_issued_entry alias key chain = do
    private_key ← new_private_key lib (some key)
    certificates ← new_certificates lib (map some chain)
    ok (record {
      alias = alias;
      created_at = a.now;
      private_key = some private_key;
      private_key_status = PrivateKeyStatus.available;
      chain = certificates;
      trusted = false;
    })

  unfoldable pub create_root_ca : RootCaOptions → R Entry
  unfolding generate_private_key certificate_validity random_serial_number subject_key_id
      default_entry_alias new_issued_entry
  create_root_ca options = do
    key ← generate_private_key a options.key
    (not_before, not_after) ←
        certificate_validity a options.not_before options.not_after options.valid_for
          (10 * 365 * day)
    serial ← random_serial_number a
    ski ← subject_key_id lib (lib.public key)
    let template : Template = record {
      serial_number = serial;
      subject = options.subject;
      not_before = not_before;
      not_after = not_after;
      key_usage = cert_sign + crl_sign + digital_signature;
      ext_key_usage = [];
      is_ca = true;
      max_path_len = or_unlimited options.max_path_len options.max_path_len_zero;
      max_path_len_zero = options.max_path_len_zero;
      subject_key_id = ski;
      authority_key_id = [];
      dns_names = [];
      ip_addresses = [];
      email_addresses = [];
      uris = [];
    }
    der ← or_external (a.create_certificate template Parent.self_signed (lib.public key) key)
    cert ← or_external (a.parse_certificate der)
    new_issued_entry (default_entry_alias lib options.alias cert) key (cert ∷ [])

  -- IssueCertificate has the body of issuePublicKey in its own text.
  unfoldable pub issue_certificate : Entry → CertificateOptions → R Entry
  unfolding validate_issuer generate_private_key issue_public_key default_entry_alias
      new_issued_entry
  issue_certificate issuer options = do
    (issuer_cert, issuer_key) ← validate_issuer lib (some issuer)
    key ← generate_private_key a options.key
    cert ← issue_public_key issuer_cert issuer_key (lib.public key) options
    new_issued_entry (default_entry_alias lib options.alias cert) key (cert ∷ chain_of issuer)

  abbrev der_bytes : Option (List ℕ) → List ℕ → List ℕ
  der_bytes none data_ = data_
  der_bytes (some bytes) data_ = bytes

  unfoldable pub parse_certificate_request : List ℕ → R CertificateRequest
  parse_certificate_request data_ =
      or_external (a.parse_certificate_request (der_bytes (a.pem_bytes data_) data_))

  -- The options, with what they leave out taken from the request.
  unfoldable pub with_request : CertificateRequest → CertificateOptions → CertificateOptions
  with_request request options = record options {
    subject = if length options.subject.names == 0 then request.subject else options.subject;
    dns_names = or_requested options.dns_names request.dns_names;
    ip_addresses = or_requested options.ip_addresses request.ip_addresses;
    email_addresses = or_requested options.email_addresses request.email_addresses;
    uris = or_requested options.uris request.uris;
  }

  unfoldable pub sign_certificate_request : Entry → List ℕ → CertificateOptions → R Entry
  unfolding parse_certificate_request with_request validate_issuer issue_public_key new_certificates
      default_entry_alias
  sign_certificate_request issuer request_data options = do
    request ← parse_certificate_request request_data
    guard (a.check_request_signature request) Error.external
    (issuer_cert, issuer_key) ← validate_issuer lib (some issuer)
    cert ← issue_public_key issuer_cert issuer_key request.public_key (with_request request options)
    certificates ← new_certificates lib (map some (cert ∷ chain_of issuer))
    ok (record {
      alias = default_entry_alias lib options.alias cert;
      created_at = a.now;
      private_key = none;
      private_key_status = PrivateKeyStatus.unset;
      chain = certificates;
      trusted = false;
    })

  -- A key that is nil is none.
  unfoldable pub create_certificate_request : Option Signer → CsrOptions → R (List ℕ)
  create_certificate_request none options = err Error.invalid_data
  create_certificate_request (some key) options =
      or_external (a.create_certificate_request options key)
