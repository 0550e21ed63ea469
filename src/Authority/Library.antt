-- ===== src/Authority/Library.antt =====
-- The types of ca.go and csr.go, and what these files call outside the repository: the clock, the
-- random generators and smx509. `none` is an error where the code does not look at it.
use certkit.Prelude.{ℕ, ◌≡◌, ◌≤◌, ◌<◌, List, Option, some, Bool, true, ltb, length}
use certkit.Text.{Text}
use certkit.Store.Library.{X509Certificate, PublicKey, Signer}
use certkit.Store.Types.{KeyAlgorithm}

-- pkix.Name: `names` is the field Names, which parsing fills and marshalling ignores; `attributes`
-- stands for the fields that are marshalled, CommonName and the others.
pub record Name : Type 0 where
  pub names : List ℕ
  pub attributes : List ℕ

pub data Curve : Type 0 where
  p256 p384 p521 : Curve

-- `algorithm` is none for the empty string; a negative `rsa_bits` is 1, which is as small; `curve` is the text after strings.ToUpper.
pub record KeyOptions : Type 0 where
  pub algorithm : Option KeyAlgorithm
  pub rsa_bits : ℕ
  pub curve : Text

-- The maximal path length, `none` for a negative one; 0 is `some 0`.
abbrev pub PathLength : Type 0
PathLength = Option ℕ

-- A duration that is not positive is 0, which the code treats alike. An empty list stands for nil
-- where the code tests a list by its length; a list that it compares with nil is an Option.
pub record CertificateOptions : Type 0 where
  pub alias : Text
  pub subject : Name
  pub not_before : ℕ
  pub not_after : ℕ
  pub valid_for : ℕ
  pub dns_names : Option (List Text)
  pub ip_addresses : Option (List (List ℕ))
  pub email_addresses : Option (List Text)
  pub uris : Option (List Text)
  pub is_ca : Bool
  pub max_path_len : PathLength
  pub max_path_len_zero : Bool
  pub key_usage : ℕ
  pub ext_key_usage : List ℕ
  pub serial_number : Option ℕ
  pub key : KeyOptions

pub record RootCaOptions : Type 0 where
  pub alias : Text
  pub subject : Name
  pub not_before : ℕ
  pub not_after : ℕ
  pub valid_for : ℕ
  pub max_path_len : PathLength
  pub max_path_len_zero : Bool
  pub key : KeyOptions

-- The template of smx509.CreateCertificate.
pub record Template : Type 0 where
  pub serial_number : ℕ
  pub subject : Name
  pub not_before : ℕ
  pub not_after : ℕ
  pub key_usage : ℕ
  pub ext_key_usage : List ℕ
  pub is_ca : Bool
  pub max_path_len : PathLength
  pub max_path_len_zero : Bool
  pub subject_key_id : List ℕ
  pub authority_key_id : List ℕ
  pub dns_names : List Text
  pub ip_addresses : List (List ℕ)
  pub email_addresses : List Text
  pub uris : List Text

pub record CertificateRequest : Type 0 where
  pub subject : Name
  pub public_key : PublicKey
  pub dns_names : List Text
  pub ip_addresses : List (List ℕ)
  pub email_addresses : List Text
  pub uris : List Text

pub record CsrOptions : Type 0 where
  pub subject : Name
  pub dns_names : List Text
  pub ip_addresses : List (List ℕ)
  pub email_addresses : List Text
  pub uris : List Text

-- The parent of a certificate: its own template, or the certificate of the issuer.
pub data Parent : Type 0 where
  self_signed : Parent
  issued_by : X509Certificate → Parent

pub record AuthorityLibrary : Type 0 where
  pub now : ℕ
  pub generate_rsa : ℕ → Option Signer
  pub generate_ec : Curve → Option Signer
  pub generate_sm2 : Option Signer
  -- rand.Int, below the limit
  pub rand_int : ℕ → Option ℕ
  pub is_rsa_public : PublicKey → Bool
  pub create_certificate : Template → Parent → PublicKey → Signer → Option (List ℕ)
  pub parse_certificate : List ℕ → Option X509Certificate
  -- pem.Decode, the bytes of the first block
  pub pem_bytes : List ℕ → Option (List ℕ)
  pub parse_certificate_request : List ℕ → Option CertificateRequest
  pub check_request_signature : CertificateRequest → Bool
  pub create_certificate_request : CsrOptions → Signer → Option (List ℕ)

-- The certificate says what the template said. Its times are the template's without fractions of a
-- second, a key usage has nine bits, and the key identifier of the parent is written for the
-- authority's.
pub record Follows (t : Template) (parent : Parent) (key : PublicKey) (c : X509Certificate)
    : Type 0 where
  pub has_raw : ltb 0 (length c.raw) ≡ true
  pub public_key : c.public_key ≡ key
  pub is_ca : c.is_ca ≡ t.is_ca
  pub not_after : c.not_after ≤ t.not_after
  pub key_usage : t.key_usage < 512 → c.key_usage ≡ t.key_usage
  pub authority_key_id :
      (p : X509Certificate)
      → parent ≡ Parent.issued_by p
      → t.authority_key_id ≡ p.subject_key_id
      → c.authority_key_id ≡ p.subject_key_id

-- What is documented of the library: a certificate that was created is parsed as its template.
pub record IsIssuing (a : AuthorityLibrary) : Type 0 where
  pub parse_create :
      (t : Template) (parent : Parent) (key : PublicKey) (signer : Signer) (der : List ℕ)
      (c : X509Certificate)
      → a.create_certificate t parent key signer ≡ some der
      → a.parse_certificate der ≡ some c
      → Follows t parent key c
