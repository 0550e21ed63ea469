-- ===== src/Detect/Model.antt =====
-- detect.go: Detect, detectPEMBlock, isPKCS7ContentType and looksLikeBKS.
use certkit.Prelude.{ℕ, ◌+◌, ◌*◌, List, [], ◌∷◌, Option, none, some, Bool, false, ◌&&◌, ◌||◌, not}
use certkit.Prelude.{if◌then◌else◌, ltb, leb, ◌==◌, length, drop}
use certkit.Text.{Text, text_eq}
use certkit.Result.{ok, err, panic, stuck, ◌>>=◌}
use certkit.Store.Types.{Error, R, Format, Encoding}
use certkit.Pkcs12.Types.{Oid, oid_equal}
use certkit.Ber.Read.{to_der}

pub data Confidence : Type 0 where
  unset low medium high : Confidence

-- `alternatives` is never set.
pub record Detection : Type 0 where
  pub format : Format
  pub encoding : Encoding
  pub confidence : Confidence

-- What is read of a header, when the whole input is one.
pub record ContentInfoHeader : Type 0 where
  pub content_type : Oid

pub record PfxHeader : Type 0 where
  pub version : ℕ
  pub auth_safe : ContentInfoHeader

pub record Parsers : Type 0 where
  pub trim_space : List ℕ → List ℕ
  -- the type of the first PEM block
  pub pem_decode : List ℕ → Option Text
  -- asn1.Unmarshal: what is left and the header
  pub unmarshal_pfx : List ℕ → Option (List ℕ × PfxHeader)
  pub unmarshal_content_info : List ℕ → Option (List ℕ × ContentInfoHeader)
  pub is_certificate : List ℕ → Bool
  pub is_private_key : List ℕ → Bool

abbrev pub oid_pkcs7_data : Oid
oid_pkcs7_data = 1 ∷ 2 ∷ 840 ∷ 113549 ∷ 1 ∷ 7 ∷ 1 ∷ []

abbrev pub oid_pkcs7_signed_data : Oid
oid_pkcs7_signed_data = 1 ∷ 2 ∷ 840 ∷ 113549 ∷ 1 ∷ 7 ∷ 2 ∷ []

abbrev pub oid_pkcs7_enveloped_data : Oid
oid_pkcs7_enveloped_data = 1 ∷ 2 ∷ 840 ∷ 113549 ∷ 1 ∷ 7 ∷ 3 ∷ []

unfoldable pub is_pkcs7_content_type : Oid → Bool
unfolding oid_equal
is_pkcs7_content_type oid =
    oid_equal oid oid_pkcs7_data
    || oid_equal oid oid_pkcs7_signed_data
    || oid_equal oid oid_pkcs7_enveloped_data

-- The labels, in ASCII.
abbrev pub label_pkcs7 : Text
label_pkcs7 = 80 ∷ 75 ∷ 67 ∷ 83 ∷ 55 ∷ []

abbrev pub label_pkcs7_signed_data : Text
label_pkcs7_signed_data =
    80 ∷ 75 ∷ 67 ∷ 83 ∷ 32 ∷ 35 ∷ 55 ∷ 32 ∷ 83 ∷ 73 ∷ 71 ∷ 78 ∷ 69 ∷ 68 ∷ 32 ∷ 68 ∷ 65 ∷ 84 ∷ 65
    ∷ []

abbrev pub label_cms : Text
label_cms = 67 ∷ 77 ∷ 83 ∷ []

abbrev pub label_pkcs12 : Text
label_pkcs12 = 80 ∷ 75 ∷ 67 ∷ 83 ∷ 49 ∷ 50 ∷ []

abbrev pub label_pfx : Text
label_pfx = 80 ∷ 70 ∷ 88 ∷ []

unfoldable pub detect_pem_block : Text → Format
unfolding text_eq
detect_pem_block label =
    if text_eq label label_pkcs7 || text_eq label label_pkcs7_signed_data || text_eq label label_cms
    then Format.pkcs7
    else if text_eq label label_pkcs12 || text_eq label label_pfx
    then Format.pkcs12
    else Format.pem

-- `binary.BigEndian.Uint32(data[at : at+4])`: out of range it panics.
unfoldable pub big_endian : List ℕ → R ℕ
big_endian (a ∷ b ∷ c ∷ d ∷ _) = ok (((a * 256 + b) * 256 + c) * 256 + d)
big_endian _ = panic

unfoldable pub uint32_at : ℕ → List ℕ → R ℕ
unfolding big_endian
uint32_at i data_ = big_endian (drop i data_)

unfoldable pub looks_like_bks : List ℕ → R Bool
unfolding uint32_at
looks_like_bks data_ =
    if ltb (length data_) 16
    then ok false
    else uint32_at 0 data_ >>= λ version.
        if not (version == 1) && not (version == 2)
        then ok false
        else uint32_at 4 data_ >>= λ salt_length.
            if salt_length == 0
              || ltb 1048576 salt_length
              || ltb (length data_) (12 + salt_length + 20)
            then ok false
            else uint32_at (8 + salt_length) data_ >>= λ iterations.
                ok (ltb 0 iterations && leb iterations 100000000)

module _ (p : Parsers) where
  abbrev found : Format → Encoding → Confidence → R Detection
  found f e c = ok (record { format = f; encoding = e; confidence = c })

  -- `rest` is empty and the header passes the test.
  unfoldable pub is_pfx : Option (List ℕ × PfxHeader) → Bool
  unfolding oid_equal
  is_pfx none = false
  is_pfx (some ([], h)) = h.version == 3 && oid_equal h.auth_safe.content_type oid_pkcs7_data
  is_pfx (some (_ ∷ _, h)) = false

  unfoldable pub is_content_info : Option (List ℕ × ContentInfoHeader) → Bool
  unfolding is_pkcs7_content_type
  is_content_info none = false
  is_content_info (some ([], h)) = is_pkcs7_content_type h.content_type
  is_content_info (some (_ ∷ _, h)) = false

  unfoldable pub is_ber_content_info : List ℕ → R Bool
  unfolding is_content_info to_der
  is_ber_content_info data_ = elim (to_der data_) [
    | ok der ↦ ok (is_content_info (p.unmarshal_content_info der))
    | err _ ↦ ok false
    | panic ↦ panic
    | stuck ↦ stuck
  ]

  unfoldable pub detect_parsed : List ℕ → R Detection
  detect_parsed data_ =
      if p.is_certificate data_ || p.is_private_key data_
      then found Format.der Encoding.der Confidence.high
      else err Error.unknown_format

  unfoldable pub detect_asn1 : List ℕ → R Detection
  unfolding is_pfx is_content_info is_ber_content_info detect_parsed
  detect_asn1 data_ =
      if is_pfx (p.unmarshal_pfx data_)
      then found Format.pkcs12 Encoding.der Confidence.high
      else if is_content_info (p.unmarshal_content_info data_)
      then found Format.pkcs7 Encoding.der Confidence.high
      else is_ber_content_info data_ >>= λ ber.
          if ber then found Format.pkcs7 Encoding.der Confidence.high else detect_parsed data_

  -- The switch over the first four bytes; 0 stands for an input that has fewer.
  unfoldable pub magic : List ℕ → R ℕ
  unfolding uint32_at
  magic data_ = if leb 4 (length data_) then uint32_at 0 data_ else ok 0

  unfoldable pub detect_binary : List ℕ → R Detection
  unfolding magic looks_like_bks detect_asn1
  detect_binary data_ = magic data_ >>= λ m.
      if m == 0xfeedfeed
      then found Format.jks Encoding.der Confidence.high
      else if m == 0xcececece
      then found Format.jceks Encoding.der Confidence.high
      else looks_like_bks data_ >>= λ bks.
          if bks then found Format.bks Encoding.der Confidence.medium else detect_asn1 data_

  unfoldable pub detect_trimmed : List ℕ → R Detection
  unfolding detect_pem_block detect_binary
  detect_trimmed [] = err Error.unknown_format
  detect_trimmed (b ∷ bs) = elim (p.pem_decode (b ∷ bs)) [
    | some label ↦ found (detect_pem_block label) Encoding.pem Confidence.high
    | none ↦ detect_binary (b ∷ bs)
  ]

  unfoldable pub detect : List ℕ → R Detection
  unfolding detect_trimmed
  detect data_ = detect_trimmed (p.trim_space data_)
