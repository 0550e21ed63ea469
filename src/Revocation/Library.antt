-- ===== src/Revocation/Library.antt =====
-- The types of crl.go and ocsp.go, and what they call outside: the clock, HTTP, smx509 and
-- internal/ocsp. A time is a count of nanoseconds from the zero time, `valid_for` is 0 when it is not
-- positive, and a clock skew is not negative.
use certkit.Prelude.{ℕ, ◌≡◌, List, Option, some, Bool, true, false, map}
use certkit.Text.{Text}
use certkit.Store.Chain.{public_keys_equal}
use certkit.Authority.Keys.{forbids, crl_sign}
use certkit.Store.Library.{Library, X509Certificate, Signer}

pub record RevokedCertificate : Type 0 where
  pub serial_number : Option ℕ
  pub revocation_time : ℕ
  pub reason_code : ℕ

pub record CreateCrlOptions : Type 0 where
  pub number : Option ℕ
  pub this_update : ℕ
  pub next_update : ℕ
  pub valid_for : ℕ
  pub certificates : List RevokedCertificate

pub record CrlOptions : Type 0 where
  pub current_time : ℕ
  pub max_clock_skew : ℕ
  pub max_size : ℕ

pub record CrlResult : Type 0 where
  pub revoked : Bool
  pub reason_code : ℕ
  pub revocation_time : ℕ
  pub this_update : ℕ
  pub next_update : ℕ
  pub signature_valid : Bool
  pub fresh : Bool

-- smx509.RevocationListEntry
pub record RevocationEntry : Type 0 where
  pub serial_number : ℕ
  pub revocation_time : ℕ
  pub reason_code : ℕ

-- The template of smx509.CreateRevocationList.
pub record CrlTemplate : Type 0 where
  pub number : ℕ
  pub this_update : ℕ
  pub next_update : ℕ
  pub entries : List RevocationEntry

-- The fields of smx509.RevocationList that the code reads.
pub record RevocationList : Type 0 where
  pub raw_issuer : List ℕ
  pub authority_key_id : List ℕ
  pub this_update : ℕ
  pub next_update : ℕ
  pub entries : List RevocationEntry

-- What the code reads of an HTTP response; the body is none when reading it fails.
pub record Response : Type 0 where
  pub status_code : ℕ
  pub body : Option (List ℕ)

pub record OcspOptions : Type 0 where
  pub current_time : ℕ
  pub max_clock_skew : ℕ
  pub hash : ℕ
  pub max_size : ℕ

-- The fields of internal/ocsp's Response that the code reads.
pub record OcspResponse : Type 0 where
  pub status : ℕ
  pub serial_number : Option ℕ
  pub produced_at : ℕ
  pub this_update : ℕ
  pub next_update : ℕ
  pub revoked_at : ℕ
  pub revocation_reason : ℕ

pub record OcspResult : Type 0 where
  pub status : ℕ
  pub serial_number : Text
  pub produced_at : ℕ
  pub this_update : ℕ
  pub next_update : ℕ
  pub revoked_at : ℕ
  pub revocation_reason : ℕ
  pub fresh : Bool

pub record RevocationLibrary : Type 0 where
  pub now : ℕ
  -- pem.Decode, the bytes of the first block
  pub pem_bytes : List ℕ → Option (List ℕ)
  pub parse_revocation_list : List ℕ → Option RevocationList
  pub check_list_signature : RevocationList → X509Certificate → Bool
  pub create_revocation_list : CrlTemplate → X509Certificate → Signer → Option (List ℕ)
  -- http.NewRequestWithContext and client.Do
  pub get : Text → Option Response
  pub post : Text → List ℕ → Option Response
  pub create_ocsp_request : X509Certificate → Option X509Certificate → ℕ → Option (List ℕ)
  pub parse_response_for_cert :
      List ℕ → Option X509Certificate → Option X509Certificate → Option OcspResponse

abbrev pub serials : List RevocationEntry → List ℕ
serials es = map (λ e. e.serial_number) es

-- What is documented of a list that was created: it is parsed with the serial numbers of its
-- template, and it names the issuer. When the key is that of the issuer, a CA whose usage allows
-- it, the signature is the issuer's.
pub record IsListing (lib : Library) (x : RevocationLibrary) : Type 0 where
  pub parse_create :
      (t : CrlTemplate) (issuer : X509Certificate) (signer : Signer) (der : List ℕ)
      → x.create_revocation_list t issuer signer ≡ some der
      → (l : RevocationList) × (x.parse_revocation_list der ≡ some l)
        × (l.raw_issuer ≡ issuer.raw_subject)
        × (l.authority_key_id ≡ issuer.subject_key_id)
        × (serials l.entries ≡ serials t.entries)
        × (issuer.is_ca ≡ true
            → forbids issuer.key_usage crl_sign ≡ false
            → public_keys_equal lib (lib.public signer) issuer.public_key ≡ true
            → x.check_list_signature l issuer ≡ true)
