-- ===== src/Store/Types.antt =====
-- The data of model.go, format.go and error.go. A pointer to an object that the store owns is the
-- object's value; a pointer that may be nil is an `Option`.
use certkit.Prelude.{ℕ, List, [], Option, Bool}
use certkit.Text.{Text}
use certkit.Result.{Result}
use certkit.Store.Library.{X509Certificate, Signer}

-- The sentinel errors of error.go; `external` is an error of a called library, wrapped.
pub data Error : Type 0 where
  password unsupported_format unknown_format invalid_data key_mismatch alias_conflict : Error
  lossy_conversion no_certificate no_private_key unsupported_algorithm external : Error

abbrev pub R {ℓ} : Type ℓ → Type ℓ
R = Result Error

-- `other` is any string that is not one of the constants; `unset` is the empty one.
pub data Format : Type 0 where
  unset auto unknown pem der pkcs7 pkcs12 jks jceks bks other : Format

pub data PasswordPurpose : Type 0 where
  container private_key : PasswordPurpose

pub record PasswordRequest : Type 0 where
  pub format : Format
  pub alias : Text
  pub purpose : PasswordPurpose

-- What a provider returns: an error, or a password that may be nil. One that panics is not modelled.
pub data Answer : Type 0 where
  refused : Answer
  given : Option (List ℕ) → Answer

abbrev pub PasswordProvider : Type 0
PasswordProvider = PasswordRequest → Answer

pub data Encoding : Type 0 where
  unknown pem der : Encoding

pub data DiagnosticLevel : Type 0 where
  info warning error : DiagnosticLevel

pub record Diagnostic : Type 0 where
  pub level : DiagnosticLevel
  pub code : Text
  pub message : Text
  pub alias : Text

pub record SourceInfo : Type 0 where
  pub format : Format
  pub encoding : Encoding
  pub integrity_verified : Bool

pub record SourceRef : Type 0 where
  pub format : Format
  pub alias : Text
  pub index : ℕ

pub data CertificateRole : Type 0 where
  unknown leaf intermediate root : CertificateRole

pub record Certificate : Type 0 where
  pub id : Text
  pub certificate : X509Certificate
  pub role : CertificateRole
  pub source : SourceRef

pub data KeyAlgorithm : Type 0 where
  unknown rsa ec sm2 : KeyAlgorithm

pub record PrivateKey : Type 0 where
  pub id : Text
  pub signer : Signer
  pub algorithm : KeyAlgorithm
  pub exportable : Bool
  pub source : SourceRef

pub data PrivateKeyStatus : Type 0 where
  unset available unavailable : PrivateKeyStatus

-- `created_at` is the time, 0 for the zero time.
pub record Entry : Type 0 where
  pub alias : Text
  pub created_at : ℕ
  pub private_key : Option PrivateKey
  pub private_key_status : PrivateKeyStatus
  pub chain : List Certificate
  pub trusted : Bool

pub record Store : Type 0 where
  pub source : SourceInfo
  pub entries : List Entry
  pub certificates : List Certificate
  pub private_keys : List PrivateKey
  pub diagnostics : List Diagnostic

-- The zero value of a `SourceRef`.
abbrev pub no_source : SourceRef
no_source = record { format = Format.unset; alias = []; index = 0 }
