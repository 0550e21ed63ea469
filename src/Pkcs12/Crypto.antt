-- ===== src/Pkcs12/Crypto.antt =====
-- internal/pkcs12/crypto.go. A cipher in CBC mode is the block cipher and the IV; an encryptable
-- object is its algorithm and its data.
use certkit.Prelude.{ℕ, ◌-◌, ◌%◌, List, [], ◌∷◌, ◌++◌, Option, none, some}
use certkit.Prelude.{
  ◌||◌, not, if◌then◌else◌, ltb, leb, ◌==◌, length, take, drop, replicate, get_or,
}
use certkit.Result.{ok, err, ◌>>=◌, ◌>>◌, guard}
use certkit.Text.{text_eq}
use certkit.Rc2.Key.{new_cipher}
use certkit.Rc2.Cipher.{encrypt_block, decrypt_block, load, store}
use certkit.Pkcs12.Types.{
  Error, R, Oid, oid_equal, AlgorithmIdentifier, HashFunc, Cipher, Digest, Library,
}
use certkit.Pkcs12.Types.{sha1, sha256, sm3}
use certkit.Pkcs12.Bmp.{decode_bmp_string}
use certkit.Pkcs12.Kdf.{pbkdf_enc_key, pbkdf_iv}
use certkit.Pkcs12.Cbc.{cbc_encrypt, cbc_decrypt}

-- The object identifiers of the file.
abbrev pub oid_pbe_with_sha_and_3_key_triple_des_cbc : Oid
oid_pbe_with_sha_and_3_key_triple_des_cbc = 1 ∷ 2 ∷ 840 ∷ 113549 ∷ 1 ∷ 12 ∷ 1 ∷ 3 ∷ []

abbrev pub oid_pbe_with_sha_and_128_bit_rc2_cbc : Oid
oid_pbe_with_sha_and_128_bit_rc2_cbc = 1 ∷ 2 ∷ 840 ∷ 113549 ∷ 1 ∷ 12 ∷ 1 ∷ 5 ∷ []

abbrev pub oid_pbe_with_sha_and_40_bit_rc2_cbc : Oid
oid_pbe_with_sha_and_40_bit_rc2_cbc = 1 ∷ 2 ∷ 840 ∷ 113549 ∷ 1 ∷ 12 ∷ 1 ∷ 6 ∷ []

abbrev pub oid_pbes2 : Oid
oid_pbes2 = 1 ∷ 2 ∷ 840 ∷ 113549 ∷ 1 ∷ 5 ∷ 13 ∷ []

abbrev pub oid_pbkdf2 : Oid
oid_pbkdf2 = 1 ∷ 2 ∷ 840 ∷ 113549 ∷ 1 ∷ 5 ∷ 12 ∷ []

abbrev pub oid_hmac_with_sha1 : Oid
oid_hmac_with_sha1 = 1 ∷ 2 ∷ 840 ∷ 113549 ∷ 2 ∷ 7 ∷ []

abbrev pub oid_hmac_with_sha256 : Oid
oid_hmac_with_sha256 = 1 ∷ 2 ∷ 840 ∷ 113549 ∷ 2 ∷ 9 ∷ []

abbrev pub oid_hmac_with_sm3 : Oid
oid_hmac_with_sm3 = 1 ∷ 2 ∷ 156 ∷ 10197 ∷ 1 ∷ 401 ∷ 2 ∷ []

abbrev pub oid_aes_128_cbc : Oid
oid_aes_128_cbc = 2 ∷ 16 ∷ 840 ∷ 1 ∷ 101 ∷ 3 ∷ 4 ∷ 1 ∷ 2 ∷ []

abbrev pub oid_aes_192_cbc : Oid
oid_aes_192_cbc = 2 ∷ 16 ∷ 840 ∷ 1 ∷ 101 ∷ 3 ∷ 4 ∷ 1 ∷ 22 ∷ []

abbrev pub oid_aes_256_cbc : Oid
oid_aes_256_cbc = 2 ∷ 16 ∷ 840 ∷ 1 ∷ 101 ∷ 3 ∷ 4 ∷ 1 ∷ 42 ∷ []

abbrev pub oid_sm4_cbc : Oid
oid_sm4_cbc = 1 ∷ 2 ∷ 156 ∷ 10197 ∷ 1 ∷ 104 ∷ 2 ∷ []

-- `asn1.TagOctetString`
abbrev tag_octet_string : ℕ
tag_octet_string = 4

-- rc2.NewCipher, as a `cipher.Block`.
unfoldable pub with_key : List ℕ → Cipher
unfolding encrypt_block decrypt_block load store
with_key k = record {
  block_size = 8;
  encrypt = λ b. store (encrypt_block k (load b));
  decrypt = λ b. store (decrypt_block k (load b));
}

unfoldable pub rc2_cipher : List ℕ → Option Cipher
unfolding new_cipher with_key
rc2_cipher key = elim (new_cipher key) [ none ↦ none | some k ↦ some (with_key k) ]

-- The three types that implement pbeCipher.
pub data PbeCipher : Type 0 where
  sha_with_triple_des_cbc sha_with_128_bit_rc2_cbc sha_with_40_bit_rc2_cbc : PbeCipher

abbrev pub or_invalid {ℓ} : {A : Type ℓ} → Option A → R A
or_invalid none = err Error.invalid
or_invalid (some a) = ok a

-- pbDecrypt after the decryption; an index past the end reads 0, which the tests before exclude.
unfoldable pub unpad : Cipher → List ℕ → R (List ℕ)
unfolding text_eq
unpad c decrypted = do
  let ps_len = get_or decrypted (length decrypted - 1) 0
  guard (not (ps_len == 0 || ltb c.block_size ps_len)) Error.decryption
  guard (leb ps_len (length decrypted)) Error.decryption
  let ps = drop (length decrypted - ps_len) decrypted
  guard (text_eq ps (replicate ps_len ps_len)) Error.decryption
  ok (take (length decrypted - ps_len) decrypted)

-- pbDecrypt after pbDecrypterFor.
unfoldable pub decrypt_with : Cipher → List ℕ → List ℕ → R (List ℕ)
unfolding cbc_decrypt unpad
decrypt_with c iv encrypted =
    guard (ltb 0 (length encrypted)) Error.invalid
    >> guard (length encrypted % c.block_size == 0) Error.invalid
    >> unpad c (cbc_decrypt c iv encrypted)

-- pbEncrypt after pbEncrypterFor.
unfoldable pub encrypt_with : Cipher → List ℕ → List ℕ → List ℕ
unfolding cbc_encrypt
encrypt_with c iv decrypted =
    let ps_len = c.block_size - length decrypted % c.block_size in
    cbc_encrypt c iv (decrypted ++ replicate ps_len (ps_len % 256))

module _ (lib : Library) where
  abbrev pub hash_func : Digest → HashFunc
  hash_func sha1 = record { sum = lib.sum sha1; u = 20; v = 64 }
  hash_func sha256 = record { sum = lib.sum sha256; u = 32; v = 64 }
  hash_func sm3 = record { sum = lib.sum sm3; u = 32; v = 64 }

  unfoldable pub create : PbeCipher → List ℕ → Option Cipher
  unfolding rc2_cipher
  create sha_with_triple_des_cbc key = lib.new_triple_des key
  create sha_with_128_bit_rc2_cbc key = rc2_cipher key
  create sha_with_40_bit_rc2_cbc key = rc2_cipher key

  unfoldable pub derive_key : PbeCipher → List ℕ → List ℕ → ℕ → List ℕ
  unfolding pbkdf_enc_key
  derive_key sha_with_triple_des_cbc salt password iterations =
      pbkdf_enc_key (hash_func sha1) salt password iterations 24
  derive_key sha_with_128_bit_rc2_cbc salt password iterations =
      pbkdf_enc_key (hash_func sha1) salt password iterations 16
  derive_key sha_with_40_bit_rc2_cbc salt password iterations =
      pbkdf_enc_key (hash_func sha1) salt password iterations 5

  unfoldable pub derive_iv : PbeCipher → List ℕ → List ℕ → ℕ → List ℕ
  unfolding pbkdf_iv
  derive_iv _ salt password iterations = pbkdf_iv (hash_func sha1) salt password iterations 8

  unfoldable pub prf_for : Oid → R Digest
  unfolding oid_equal
  prf_for algorithm =
      if oid_equal algorithm oid_hmac_with_sha256
      then ok sha256
      else if oid_equal algorithm oid_hmac_with_sm3
      then ok sm3
      else if oid_equal algorithm oid_hmac_with_sha1
      then ok sha1
      else if oid_equal algorithm []
      then ok sha1
      else err Error.not_implemented

  unfoldable pub key_length_for : Oid → R ℕ
  unfolding oid_equal
  key_length_for algorithm =
      if oid_equal algorithm oid_aes_256_cbc
      then ok 32
      else if oid_equal algorithm oid_aes_192_cbc
      then ok 24
      else if oid_equal algorithm oid_aes_128_cbc || oid_equal algorithm oid_sm4_cbc
      then ok 16
      else err Error.not_implemented

  unfoldable pub scheme_cipher : Oid → List ℕ → R Cipher
  unfolding oid_equal
  scheme_cipher algorithm key =
      if oid_equal algorithm oid_aes_256_cbc
        || oid_equal algorithm oid_aes_192_cbc
        || oid_equal algorithm oid_aes_128_cbc
      then or_invalid (lib.new_aes key)
      else if oid_equal algorithm oid_sm4_cbc
      then or_invalid (lib.new_sm4 key)
      else err Error.not_implemented

  unfoldable pub pbes2_cipher_for : AlgorithmIdentifier → List ℕ → R (Cipher × List ℕ)
  unfolding oid_equal prf_for key_length_for scheme_cipher
  pbes2_cipher_for algorithm password = do
    params ← or_invalid (lib.unmarshal_pbes2 algorithm.parameters.full_bytes)
    guard (oid_equal params.kdf.algorithm oid_pbkdf2) Error.not_implemented
    kdf_params ← or_invalid (lib.unmarshal_pbkdf2 params.kdf.parameters.full_bytes)
    guard (kdf_params.salt.tag == tag_octet_string) Error.invalid
    prf ← prf_for kdf_params.prf.algorithm
    key_len ← key_length_for params.encryption_scheme.algorithm
    let key = lib.pbkdf2_key password kdf_params.salt.bytes kdf_params.iterations key_len prf
    let iv = params.encryption_scheme.parameters.bytes
    block ← scheme_cipher params.encryption_scheme.algorithm key
    guard (length iv == block.block_size) Error.invalid
    ok (block, iv)

  unfoldable pub pbe_with : PbeCipher → AlgorithmIdentifier → List ℕ → R (Cipher × List ℕ)
  unfolding derive_key derive_iv create
  pbe_with cipher_type algorithm password = do
    params ← or_invalid (lib.unmarshal_pbe algorithm.parameters.full_bytes)
    let key = derive_key cipher_type params.salt password params.iterations
    let iv = derive_iv cipher_type params.salt password params.iterations
    block ← or_invalid (create cipher_type key)
    ok (block, iv)

  unfoldable pub pbe_cipher_for : AlgorithmIdentifier → List ℕ → R (Cipher × List ℕ)
  unfolding oid_equal pbe_with pbes2_cipher_for decode_bmp_string
  pbe_cipher_for algorithm password =
      if oid_equal algorithm.algorithm oid_pbe_with_sha_and_3_key_triple_des_cbc
      then pbe_with sha_with_triple_des_cbc algorithm password
      else if oid_equal algorithm.algorithm oid_pbe_with_sha_and_128_bit_rc2_cbc
      then pbe_with sha_with_128_bit_rc2_cbc algorithm password
      else if oid_equal algorithm.algorithm oid_pbe_with_sha_and_40_bit_rc2_cbc
      then pbe_with sha_with_40_bit_rc2_cbc algorithm password
      else if oid_equal algorithm.algorithm oid_pbes2
      then decode_bmp_string password
        >>= (λ original. pbes2_cipher_for algorithm (lib.utf8 original))
      else err Error.not_implemented

  unfoldable pub pb_decrypt : AlgorithmIdentifier → List ℕ → List ℕ → R (List ℕ)
  unfolding pbe_cipher_for decrypt_with
  pb_decrypt algorithm data_ password =
      pbe_cipher_for algorithm password >>= (λ p. decrypt_with p.0 p.1 data_)

  unfoldable pub pb_encrypt : AlgorithmIdentifier → List ℕ → List ℕ → R (List ℕ)
  unfolding pbe_cipher_for encrypt_with
  pb_encrypt algorithm decrypted password =
      pbe_cipher_for algorithm password >>= (λ p. ok (encrypt_with p.0 p.1 decrypted))
