-- ===== src/Store/Library.antt =====
-- What model.go and open.go call outside the repository: the certificate library, the hash and the
-- Unicode tables. A public key or a signer is an interface value, of which the code only hands the
-- identity on: it is a number here.
use certkit.Prelude.{ℕ, List, Option, Bool}
use certkit.Text.{Text}

abbrev pub PublicKey : Type 0
PublicKey = ℕ

abbrev pub Signer : Type 0
Signer = ℕ

-- The fields of `smx509.Certificate` that the code reads.
pub record X509Certificate : Type 0 where
  pub raw : List ℕ
  pub raw_subject : List ℕ
  pub raw_issuer : List ℕ
  pub subject_key_id : List ℕ
  pub authority_key_id : List ℕ
  pub is_ca : Bool
  pub public_key : PublicKey
  pub common_name : Text
  -- a time is a count from the zero time, which is 0
  pub not_before : ℕ
  pub not_after : ℕ
  -- the bits of KeyUsage
  pub key_usage : ℕ
  pub serial_number : ℕ
  pub crl_distribution_points : List Text
  pub ocsp_server : List Text

-- The concrete type behind a signer.
pub data SignerKind : Type 0 where
  rsa_key ecdsa_key other_key : SignerKind

pub record Library : Type 0 where
  -- the representative of a rune under simple case folding
  pub fold : ℕ → ℕ
  pub sha256 : List ℕ → List ℕ
  -- smx509.MarshalPKIXPublicKey; `none` is its error
  pub marshal_pkix : PublicKey → Option (List ℕ)
  -- crypto.Signer.Public
  pub public : Signer → PublicKey
  -- sm2.IsSM2PublicKey
  pub is_sm2 : PublicKey → Bool
  pub signer_kind : Signer → SignerKind
  -- child.CheckSignatureFrom(parent) == nil
  pub check_signature_from : X509Certificate → X509Certificate → Bool
