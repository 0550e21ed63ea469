-- ===== src/Pkcs12/Mac.antt =====
-- internal/pkcs12/mac.go: doMac, verifyMac and computeMac, with PBMAC1 of RFC 9579.
use certkit.Prelude.{ℕ, List, [], ◌∷◌, if◌then◌else◌, ltb, leb, not}
use certkit.Result.{ok, err, ◌>>=◌, ◌>>◌, guard}
use certkit.Text.{text_eq}
use certkit.Pkcs12.Types.{
  Error, R, Oid, oid_equal, AlgorithmIdentifier, Digest, Library, sha1, sha256, sm3,
}
use certkit.Pkcs12.Bmp.{decode_bmp_string}
use certkit.Pkcs12.Kdf.{pbkdf_mac}
use certkit.Pkcs12.Crypto.{
  hash_func, or_invalid, oid_hmac_with_sha1, oid_hmac_with_sha256, oid_hmac_with_sm3,
}

abbrev pub oid_sha1 : Oid
oid_sha1 = 1 ∷ 3 ∷ 14 ∷ 3 ∷ 2 ∷ 26 ∷ []

abbrev pub oid_sha256 : Oid
oid_sha256 = 2 ∷ 16 ∷ 840 ∷ 1 ∷ 101 ∷ 3 ∷ 4 ∷ 2 ∷ 1 ∷ []

abbrev pub oid_sm3 : Oid
oid_sm3 = 1 ∷ 2 ∷ 156 ∷ 10197 ∷ 1 ∷ 401 ∷ []

abbrev pub oid_pbmac1 : Oid
oid_pbmac1 = 1 ∷ 2 ∷ 840 ∷ 113549 ∷ 1 ∷ 5 ∷ 14 ∷ []

pub record DigestInfo : Type 0 where
  pub algorithm : AlgorithmIdentifier
  pub digest : List ℕ

pub record MacData : Type 0 where
  pub mac : DigestInfo
  pub mac_salt : List ℕ
  pub iterations : ℕ

-- The hash and the length of its key.
unfoldable pub mac_scheme : Oid → R (Digest × ℕ)
unfolding oid_equal
mac_scheme algorithm =
    if oid_equal algorithm oid_hmac_with_sha1
    then ok (sha1, 20)
    else if oid_equal algorithm oid_hmac_with_sha256
    then ok (sha256, 32)
    else if oid_equal algorithm oid_hmac_with_sm3
    then ok (sm3, 32)
    else err Error.not_implemented

unfoldable pub mac_prf : Oid → R Digest
unfolding oid_equal
mac_prf algorithm =
    if oid_equal algorithm oid_hmac_with_sha1
    then ok sha1
    else if oid_equal algorithm oid_hmac_with_sha256
    then ok sha256
    else if oid_equal algorithm oid_hmac_with_sm3
    then ok sm3
    else err Error.not_implemented

-- The length that the parameters ask for, 0 for none, between 20 and 64.
unfoldable pub mac_key_length : ℕ → ℕ → R ℕ
mac_key_length asked default_length =
    if ltb 0 asked
    then guard (not (ltb asked 20)) Error.invalid >> guard (leb asked 64) Error.invalid >> ok asked
    else ok default_length

module _ (lib : Library) where
  -- The case of PBMAC1: the hash and the key.
  unfoldable pub pbmac1_key : AlgorithmIdentifier → List ℕ → R (Digest × List ℕ)
  unfolding decode_bmp_string mac_scheme mac_prf mac_key_length
  pbmac1_key algorithm password = do
    params ← or_invalid (lib.unmarshal_pbmac1 algorithm.parameters.full_bytes)
    kdf_params ← or_invalid (lib.unmarshal_pbkdf2 params.kdf.parameters.full_bytes)
    original ← decode_bmp_string password
    scheme ← mac_scheme params.message_auth_scheme.algorithm
    key_len ← mac_key_length kdf_params.key_length scheme.1
    prf ← mac_prf kdf_params.prf.algorithm
    let salt = kdf_params.salt.bytes
    ok (scheme.0, lib.pbkdf2_key (lib.utf8 original) salt kdf_params.iterations key_len prf)

  unfoldable pub mac_key : MacData → List ℕ → R (Digest × List ℕ)
  unfolding oid_equal pbkdf_mac pbmac1_key
  mac_key m password =
      let algorithm = m.mac.algorithm in
      if oid_equal algorithm.algorithm oid_sha1
      then ok (sha1, pbkdf_mac (hash_func lib sha1) m.mac_salt password m.iterations 20)
      else if oid_equal algorithm.algorithm oid_sha256
      then ok (sha256, pbkdf_mac (hash_func lib sha256) m.mac_salt password m.iterations 32)
      else if oid_equal algorithm.algorithm oid_sm3
      then ok (sm3, pbkdf_mac (hash_func lib sm3) m.mac_salt password m.iterations 32)
      else if oid_equal algorithm.algorithm oid_pbmac1
      then pbmac1_key algorithm password
      else err Error.not_implemented

  unfoldable pub do_mac : MacData → List ℕ → List ℕ → R (List ℕ)
  unfolding mac_key
  do_mac m message password = mac_key m password >>= (λ k. ok (lib.hmac k.0 k.1 message))

  unfoldable pub verify_mac : MacData → List ℕ → List ℕ → R (Unit {0})
  unfolding do_mac text_eq
  verify_mac m message password =
      do_mac m message password
      >>= (λ expected. guard (text_eq m.mac.digest expected) Error.incorrect_password)

  unfoldable pub compute_mac : MacData → List ℕ → List ℕ → R MacData
  unfolding do_mac
  compute_mac m message password =
      do_mac m message password
      >>= (λ digest. ok (record m { mac = record (m.mac) { digest = digest } }))
