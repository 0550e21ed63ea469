-- ===== src/Formats/Library.antt =====
-- What open_pem.go, open_der.go, open_pkcs7.go, open_jks.go and open_pkcs12.go call outside the
-- repository's own code: encoding/pem, smx509, pkcs8 and pkcs7 of gmsm, keystore-go, and the two
-- libraries of PKCS#12. `none` stands for an error where the code does not look at it.
use certkit.Prelude.{
  ℕ, ◌<◌, ◌≡◌, ◌≢◌, List, [], ◌∷◌, Option, none, some, Bool, true, length, ltb, All,
}
use certkit.Text.{Text, hex}
use certkit.Result.{stuck}
use certkit.Store.Library.{Library, X509Certificate, Signer}
use certkit.Store.Types.{R}
use certkit.Store.Keyed.{IsDistinct}
use certkit.Rc2.Schedule.{IsBytes}

-- A block and its header `friendlyName`; `is_encrypted` is smx509.IsEncryptedPEMBlock of it.
pub record Block : Type 0 where
  pub block_type : Text
  pub friendly_name : Text
  pub is_encrypted : Bool
  pub bytes : List ℕ

-- A key that was parsed: `none` when it is no crypto.Signer.
abbrev pub ParsedKey : Type 0
ParsedKey = Option Signer

pub record JksCertificate : Type 0 where
  pub certificate_type : Text
  pub content : List ℕ

pub record TrustedEntry : Type 0 where
  pub creation_time : ℕ
  pub certificate : JksCertificate

pub record KeyStore : Type 0 where
  pub aliases : List Text
  pub is_trusted_certificate_entry : Text → Bool
  pub get_trusted_certificate_entry : Text → Option TrustedEntry
  pub is_private_key_entry : Text → Bool
  pub get_private_key_entry_certificate_chain : Text → Option (List JksCertificate)
  pub get_private_key_entry : Text → List ℕ → Option (List ℕ)

-- An error of KeyStore.Load, by whether its text has `invalid digest`.
pub data LoadError : Type 0 where
  invalid_digest other_error : LoadError

-- A library of PKCS#12, with its certificates; the second argument is the password.
pub record Pkcs12Reader (C : Type 0) : Type 0 where
  pub to_pem : List ℕ → List ℕ → Option (List Block)
  pub decode_chain : List ℕ → List ℕ → Option (ParsedKey × C × List C)
  pub decode_trust_store : List ℕ → List ℕ → Option (List C)

pub record FormatLibrary : Type 0 where
  -- bytes.TrimSpace
  pub trim_space : List ℕ → List ℕ
  -- the verb %q of fmt
  pub quote : Text → Text
  pub pem_decode : List ℕ → Option (Block × List ℕ)
  pub decrypt_pem_block : Block → List ℕ → Option (List ℕ)
  pub parse_certificate : List ℕ → Option X509Certificate
  pub parse_certificates : List ℕ → Option (List X509Certificate)
  pub parse_encrypted_pkcs8 : List ℕ → List ℕ → Option ParsedKey
  pub parse_pkcs8 : List ℕ → Option ParsedKey
  pub parse_pkcs1 : List ℕ → Option ParsedKey
  pub parse_ec : List ℕ → Option ParsedKey
  pub parse_sm2 : List ℕ → Option ParsedKey
  -- pkcs7.Parse, which may panic
  pub parse_pkcs7 : List ℕ → R (List X509Certificate)
  pub load_jks : List ℕ → Option (List ℕ) → KeyStore × Option LoadError
  -- internal/pkcs12, whose certificates are parsed, and go-pkcs12, whose are given by their Raw
  pub shang_mi : Pkcs12Reader X509Certificate
  pub standard : Pkcs12Reader (List ℕ)

abbrev pub HasRaw : X509Certificate → Type 0
HasRaw c = ltb 0 (length c.raw) ≡ true

-- A parser's keys that sign have public keys which MarshalPKIXPublicKey takes.
abbrev pub HasPublicKeys : Library → (List ℕ → Option ParsedKey) → Type 0
HasPublicKeys lib parse =
    (d : List ℕ) (k : Signer)
    → parse d ≡ some (some k)
    → (der : List ℕ) × (lib.marshal_pkix (lib.public k) ≡ some der)

-- The ID that NewCertificate gives.
abbrev pub raw_id : Library → X509Certificate → Text
raw_id lib c = hex (lib.sha256 c.raw)

-- What the code relies on. A parsed certificate keeps its encoding, pem.Decode consumes input, and
-- pkcs7.Parse ends.
pub record IsParsing (lib : Library) (x : FormatLibrary) : Type 0 where
  pub pem_shrinks :
      (d : List ℕ) (b : Block) (rest : List ℕ)
      → x.pem_decode d ≡ some (b, rest)
      → length rest < length d
  pub pem_bytes :
      (d : List ℕ) (b : Block) (rest : List ℕ)
      → IsBytes d
      → x.pem_decode d ≡ some (b, rest)
      → IsBytes b.bytes × IsBytes rest
  pub certificate_raw :
      (d : List ℕ) (c : X509Certificate) → x.parse_certificate d ≡ some c → HasRaw c
  pub certificates_raw :
      (d : List ℕ) (cs : List X509Certificate) → x.parse_certificates d ≡ some cs → All HasRaw cs
  pub trust_store_raw :
      (d pw : List ℕ) (cs : List X509Certificate)
      → x.shang_mi.decode_trust_store d pw ≡ some cs
      → All HasRaw cs
  pub pkcs7_ends : (d : List ℕ) → x.parse_pkcs7 d ≢ stuck
  pub pkcs8_public : HasPublicKeys lib x.parse_pkcs8
  pub pkcs1_public : HasPublicKeys lib x.parse_pkcs1
  pub ec_public : HasPublicKeys lib x.parse_ec
  pub sm2_public : HasPublicKeys lib x.parse_sm2

-- The certificates of the encodings that can be parsed.
abbrev or_skip : Option X509Certificate → List X509Certificate → List X509Certificate
or_skip none cs = cs
or_skip (some c) cs = c ∷ cs

unfoldable pub parsed : FormatLibrary → List (List ℕ) → List X509Certificate
parsed x [] = []
parsed x (raw ∷ raws) = or_skip (x.parse_certificate raw) (parsed x raws)

-- The trust store of this file, if it has one, has no certificate twice.
pub record HasDistinctTrust (lib : Library) (x : FormatLibrary) (d : List ℕ) : Type 0 where
  pub shang_mi :
      (pw : List ℕ) (cs : List X509Certificate)
      → x.shang_mi.decode_trust_store d pw ≡ some cs
      → IsDistinct (raw_id lib) cs
  pub standard :
      (pw : List ℕ) (raws : List (List ℕ))
      → x.standard.decode_trust_store d pw ≡ some raws
      → IsDistinct (raw_id lib) (parsed x raws)
