-- ===== src/Encode.antt =====
-- encode.go, encode_pem.go, encode_der.go and encode_pkcs7.go. Each encoder takes the report and
-- returns it with the data or the error, as the code changes it through a pointer; encodePKCS12 and
-- encodeJKS are an interface here.
use certkit.Prelude.{
  ℕ, suc, ◌+◌, ◌-◌, List, [], ◌∷◌, ◌++◌, Option, none, some, Bool, true, false, ◌&&◌, ◌||◌, not,
}
use certkit.Prelude.{if◌then◌else◌, ltb, ◌==◌, length}
use certkit.Text.{Text, equal_fold, text_eq}
use certkit.Result.{Result, ok, err, panic, stuck, ◌>>=◌}
use certkit.Store.Library.{Library, Signer}
use certkit.Store.Types.{Error, R, Format, Certificate, PrivateKey, PrivateKeyStatus, Entry, Store}
use certkit.Store.Types.{unset, available, unavailable}
use certkit.Store.Chain.{certificate_role, is_root}
pub mod Losses
pub mod EntryPem
mod Tests

-- The options that these encoders read.
pub record EncodeOptions : Type 0 where
  pub password : List ℕ
  pub allow_lossy : Bool
  pub encrypt_pem_private_key : Bool
  pub exclude_root_certificates : Bool

pub record ConversionReport : Type 0 where
  pub format : Format
  pub certificates_written : ℕ
  pub private_keys_written : ℕ
  pub discarded_certificates : ℕ
  pub discarded_private_keys : ℕ

abbrev pub Outcome : Type 0
Outcome = R (List ℕ) × ConversionReport

abbrev pub Encoder : Type 0
Encoder = Store → EncodeOptions → ConversionReport → Outcome

pub data BlockType : Type 0 where
  certificate private_key encrypted_private_key : BlockType

pub record Marshallers : Type 0 where
  pub pem_encode : BlockType → List ℕ → Option (List ℕ)
  pub marshal_pkcs8 : Signer → Option (List ℕ)
  pub encrypt_pkcs8 : Signer → List ℕ → Option (List ℕ)
  pub degenerate_certificate : List ℕ → Option (List ℕ)
  pub encode_pkcs12 : Encoder
  pub encode_jks : Encoder

unfoldable pub is_unavailable : PrivateKeyStatus → Bool
is_unavailable unavailable = true
is_unavailable available = false
is_unavailable unset = false

unfoldable pub has_unavailable_private_keys : List Entry → Bool
unfolding is_unavailable
has_unavailable_private_keys [] = false
has_unavailable_private_keys (e ∷ es) =
    if is_unavailable e.private_key_status then true else has_unavailable_private_keys es

unfoldable pub raw_certificates : List Certificate → List ℕ
raw_certificates [] = []
raw_certificates (c ∷ cs) = c.certificate.raw ++ raw_certificates cs

module _ (lib : Library) (x : Marshallers) where
  unfoldable pub private_key_entries : Text → List Entry → List Entry
  unfolding text_eq equal_fold
  private_key_entries alias [] = []
  private_key_entries alias (e ∷ es) =
      let rest = private_key_entries alias es in
      elim (e.private_key) [
        | none ↦ rest
        | some k ↦ if text_eq alias [] || equal_fold lib.fold e.alias alias then e ∷ rest else rest
      ]

  unfoldable pub encode_key : List PrivateKey → ConversionReport → Outcome
  encode_key [] report = (err Error.no_private_key, report)
  encode_key (k ∷ ks) report = elim (x.marshal_pkcs8 k.signer) [
    | none ↦ (err Error.external, report)
    | some der ↦
        (ok der, record report { private_keys_written = 1; discarded_private_keys = length ks })
  ]

  -- The last two cases are the store that has certificates, and the one that has none.
  unfoldable pub encode_first : List Certificate → List PrivateKey → ConversionReport → Outcome
  unfolding encode_key
  encode_first [] keys report = encode_key keys report
  encode_first (c ∷ cs) keys report = (
    ok (c.certificate.raw),
    record report {
      certificates_written = 1;
      discarded_certificates = length cs;
      discarded_private_keys = length keys;
    },
  )

  unfoldable pub encode_der : Encoder
  unfolding encode_first
  encode_der s options report =
      if length s.certificates + length s.private_keys == 0
      then (err Error.invalid_data, report)
      else if ltb 1 (length s.certificates + length s.private_keys) && not options.allow_lossy
      then (err Error.lossy_conversion, report)
      else encode_first s.certificates s.private_keys report

  unfoldable pub encode_degenerate : Store → ConversionReport → Outcome
  unfolding raw_certificates
  encode_degenerate s report = elim (x.degenerate_certificate (raw_certificates s.certificates)) [
    | none ↦ (err Error.external, report)
    | some data_ ↦ (
      ok data_,
      record report {
        certificates_written = length s.certificates;
        discarded_private_keys = length s.private_keys;
      },
    )
  ]

  unfoldable pub encode_pkcs7 : Encoder
  unfolding encode_degenerate
  encode_pkcs7 s options report =
      if length s.certificates == 0
      then (err Error.no_certificate, report)
      else if ltb 0 (length s.private_keys) && not options.allow_lossy
      then (err Error.lossy_conversion, report)
      else encode_degenerate s report

  abbrev pub or_external : Option (List ℕ) → R (List ℕ)
  or_external none = err Error.external
  or_external (some b) = ok b

  unfoldable pub encrypted_block : EncodeOptions → PrivateKey → R (List ℕ)
  encrypted_block options k =
      if length options.password == 0
      then err Error.password
      else or_external (x.encrypt_pkcs8 k.signer options.password)
        >>= (λ sealed. or_external (x.pem_encode encrypted_private_key sealed))

  -- The PEM block of a private key.
  unfoldable pub key_block : EncodeOptions → PrivateKey → R (List ℕ)
  unfolding encrypted_block
  key_block options k = or_external (x.marshal_pkcs8 k.signer) >>= (λ der.
      if options.encrypt_pem_private_key
      then encrypted_block options k
      else or_external (x.pem_encode private_key der))

  abbrev pub one_key_more : ConversionReport → ConversionReport
  one_key_more report = record report { private_keys_written = report.private_keys_written + 1 }

  abbrev pub one_certificate_more : ConversionReport → ConversionReport
  one_certificate_more report = record report {
    certificates_written = report.certificates_written + 1;
  }

  abbrev pub one_certificate_less : ConversionReport → ConversionReport
  one_certificate_less report = record report {
    discarded_certificates = report.discarded_certificates + 1;
  }

  -- The step of a loop: the block is appended, or the loop ends with the error.
  abbrev pub appended : R (List ℕ) → ConversionReport → (List ℕ → Outcome) → Outcome
  appended (ok b) report rest = rest b
  appended (err e) report rest = (err e, report)
  appended panic report rest = (panic, report)
  appended stuck report rest = (stuck, report)

  unfoldable pub encode_pem_keys :
      EncodeOptions → List PrivateKey → List ℕ → ConversionReport → Outcome
  unfolding key_block
  encode_pem_keys options [] output report =
      if length output == 0 then (err Error.invalid_data, report) else (ok output, report)
  encode_pem_keys options (k ∷ ks) output report =
      appended (key_block options k) report
        (λ b. encode_pem_keys options ks (output ++ b) (one_key_more report))

  unfoldable pub is_excluded : EncodeOptions → Certificate → Bool
  unfolding certificate_role is_root
  is_excluded options c =
      options.exclude_root_certificates && is_root (certificate_role lib c.certificate)

  unfoldable pub encode_pem_certificates :
      EncodeOptions → List Certificate → List PrivateKey → List ℕ → ConversionReport → Outcome
  unfolding is_excluded encode_pem_keys
  encode_pem_certificates options [] keys output report = encode_pem_keys options keys output report
  encode_pem_certificates options (c ∷ cs) keys output report = elim (is_excluded options c) [
    | true ↦ encode_pem_certificates options cs keys output (one_certificate_less report)
    | false ↦
        appended (or_external (x.pem_encode certificate c.certificate.raw)) report
          (λ b. encode_pem_certificates options cs keys (output ++ b) (one_certificate_more report))
  ]

  unfoldable pub encode_pem : Encoder
  unfolding encode_pem_certificates
  encode_pem s options report =
      encode_pem_certificates options s.certificates s.private_keys [] report

  unfoldable pub encode_format : Format → Encoder
  unfolding encode_pem encode_der encode_pkcs7
  encode_format Format.pem s options report = encode_pem s options report
  encode_format Format.der s options report = encode_der s options report
  encode_format Format.pkcs7 s options report = encode_pkcs7 s options report
  encode_format Format.pkcs12 s options report = x.encode_pkcs12 s options report
  encode_format Format.jks s options report = x.encode_jks s options report
  encode_format Format.jceks s options report = (err Error.unsupported_format, report)
  encode_format Format.bks s options report = (err Error.unsupported_format, report)
  encode_format _ s options report = (err Error.unknown_format, report)

  abbrev pub empty_report : Format → ConversionReport
  empty_report f = record {
    format = f;
    certificates_written = 0;
    private_keys_written = 0;
    discarded_certificates = 0;
    discarded_private_keys = 0;
  }

  unfoldable pub encode_store : Format → Store → EncodeOptions → Outcome
  unfolding has_unavailable_private_keys encode_format
  encode_store f s options =
      if has_unavailable_private_keys s.entries && not options.allow_lossy
      then (err Error.lossy_conversion, empty_report f)
      else encode_format f s options (empty_report f)
