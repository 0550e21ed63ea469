-- ===== src/Pkcs12/Tests.antt =====
-- internal/pkcs12 on small data, and the theorems at concrete inputs.
use certkit.Prelude.{
  ◌≡◌, refl, ℕ, ◌%◌, List, [], ◌∷◌, ◌++◌, none, some, length, replicate, arith, inl,
}
use certkit.Result.{ok, ◌>>=◌}
use certkit.Pkcs12.Types.{HashFunc, Library, AlgorithmIdentifier, RawValue}
use certkit.Pkcs12.Bmp.{bmp_string_zero_terminated, decode_bmp_string}
use certkit.Pkcs12.BmpLaws.{decode_bmp_string-bmp_string_zero_terminated}
use certkit.Pkcs12.Kdf.{digest_of, fill_with_repeats, from_bytes, pbkdf}
use certkit.Pkcs12.KdfLaws.{length-pbkdf, pbkdf-derived}
use certkit.Pkcs12.Rfc7292.{derived}
use certkit.Pkcs12.Crypto.{
  encrypt_with, rc2_cipher, with_key, pb_encrypt, pb_decrypt, pbe_cipher_for,
}
use certkit.Pkcs12.Crypto.{oid_pbe_with_sha_and_3_key_triple_des_cbc}
use certkit.Pkcs12.Mac.{MacData, compute_mac, verify_mac, oid_sha1}
use certkit.Pkcs12.MacLaws.{verify_mac_lem, HasSizes, expected, sha1_mac}
use certkit.Pkcs12.Types.{Error, Digest, sha1, sha256, sm3}
use certkit.Prelude.{◌↔◌, ◌⊎◌}
use certkit.Result.{err}
use certkit.Pkcs12.Padding.{pb_decrypt-pb_encrypt}
use certkit.Pkcs12.Rc2Cipher.{with_key-IsInvertible}
use certkit.Rc2.Key.{expand_key}

-- A digest of one byte.
abbrev small_hash : HashFunc
small_hash = record { sum = λ x. (from_bytes 0 x % 251) ∷ []; u = 1; v = 2 }

filled : fill_with_repeats (1 ∷ 2 ∷ 3 ∷ []) 2 ≡ 1 ∷ 2 ∷ 3 ∷ 1 ∷ []
unfolding fill_with_repeats
filled = refl

length-pbkdf_example : length (pbkdf small_hash (1 ∷ []) (2 ∷ []) 3 1 4) ≡ 4
length-pbkdf_example = length-pbkdf small_hash (1 ∷ []) (2 ∷ []) 3 1 4 (omega arith)

digest_length : (x : List ℕ) → length (digest_of small_hash 1 (replicate 2 3) x) ≡ 1
unfolding digest_of
digest_length x = refl

pbkdf-derived_example :
    pbkdf small_hash (1 ∷ []) (2 ∷ []) 1 3 4 ≡ derived small_hash (1 ∷ []) (2 ∷ []) 1 3 4
pbkdf-derived_example = pbkdf-derived small_hash (1 ∷ []) (2 ∷ []) 1 3 4 (omega arith) digest_length

decode_bmp_string-bmp_string_zero_terminated_example :
    (bmp_string_zero_terminated (97 ∷ 0x4e2d ∷ []) >>= decode_bmp_string) ≡ ok (97 ∷ 0x4e2d ∷ [])
decode_bmp_string-bmp_string_zero_terminated_example =
    decode_bmp_string-bmp_string_zero_terminated (97 ∷ 0x4e2d ∷ [])
      ((omega arith, inl (omega arith)), ((omega arith, inl (omega arith)), tt))

abbrev rc2_key : List ℕ
rc2_key = 1 ∷ 2 ∷ 3 ∷ 4 ∷ 5 ∷ []

rc2_opens : rc2_cipher rc2_key ≡ some (with_key (expand_key rc2_key 40))
unfolding rc2_cipher
rc2_opens = refl

-- A hash of zeros, in the size of each.
unfoldable toy_sum : Digest → List ℕ → List ℕ
toy_sum sha1 x = replicate 20 0
toy_sum sha256 x = replicate 32 0
toy_sum sm3 x = replicate 32 0

-- Parameters without salt, one iteration, and a digest of zeros.
abbrev lib : Library
lib = record {
  unmarshal_pbe = λ b. some (record { salt = []; iterations = 1 });
  unmarshal_pbes2 = λ b. none;
  unmarshal_pbkdf2 = λ b. none;
  unmarshal_pbmac1 = λ b. none;
  sum = toy_sum;
  new_triple_des = λ k. some (with_key []);
  new_aes = λ k. none;
  new_sm4 = λ k. none;
  pbkdf2_key = λ p s i n d. [];
  hmac = λ d k m. k ++ m;
  utf8 = λ r. r;
}

abbrev no_parameters : RawValue
no_parameters = record { tag = 0; bytes = []; full_bytes = [] }

abbrev triple_des : AlgorithmIdentifier
triple_des = record {
  algorithm = oid_pbe_with_sha_and_3_key_triple_des_cbc;
  parameters = no_parameters;
}

abbrev zero_iv : List ℕ
zero_iv = 0 ∷ 0 ∷ 0 ∷ 0 ∷ 0 ∷ 0 ∷ 0 ∷ 0 ∷ []

opens : pbe_cipher_for lib triple_des [] ≡ ok (with_key [], zero_iv)
unfolding pbe_cipher_for toy_sum
opens = refl

abbrev sealed : List ℕ
sealed = encrypt_with (with_key []) zero_iv (1 ∷ 2 ∷ 3 ∷ [])

seals : pb_encrypt lib triple_des (1 ∷ 2 ∷ 3 ∷ []) [] ≡ ok sealed
unfolding pb_encrypt toy_sum
seals = refl

pb_decrypt-pb_encrypt_example : pb_decrypt lib triple_des sealed [] ≡ ok (1 ∷ 2 ∷ 3 ∷ [])
unfolding with_key
pb_decrypt-pb_encrypt_example =
    pb_decrypt-pb_encrypt lib triple_des (1 ∷ 2 ∷ 3 ∷ []) sealed [] zero_iv (with_key []) opens
      (with_key-IsInvertible []) refl (omega arith) (omega arith) seals

abbrev mac_data : MacData
mac_data = record {
  mac = record {
    algorithm = record { algorithm = oid_sha1; parameters = no_parameters };
    digest = [];
  };
  mac_salt = 5 ∷ [];
  iterations = 1;
}

abbrev with_digest : MacData
with_digest = record mac_data { mac = record (mac_data.mac) { digest = replicate 20 0 ++ 9 ∷ [] } }

computes : compute_mac lib mac_data (9 ∷ []) [] ≡ ok with_digest
unfolding compute_mac toy_sum
computes = refl

sizes : HasSizes lib
unfolding toy_sum
sizes sha1 x = refl
sizes sha256 x = refl
sizes sm3 x = refl

verify_mac_lem_example :
    (compute_mac lib with_digest (9 ∷ []) []
      ≡ ok (record with_digest {
        mac = record (with_digest.mac) { digest = expected lib with_digest sha1 20 (9 ∷ []) [] };
      }))
    × ((verify_mac lib with_digest (9 ∷ []) [] ≡ ok tt)
        ↔ (with_digest.mac.digest ≡ expected lib with_digest sha1 20 (9 ∷ []) []))
    × ((verify_mac lib with_digest (9 ∷ []) [] ≡ ok tt)
        ⊎ (verify_mac lib with_digest (9 ∷ []) [] ≡ err Error.incorrect_password))
verify_mac_lem_example =
    verify_mac_lem lib with_digest oid_sha1 sha1 20 (9 ∷ []) [] sizes sha1_mac refl

verifies : verify_mac lib with_digest (9 ∷ []) [] ≡ ok tt
unfolding verify_mac toy_sum
verifies = refl

refuses_other : verify_mac lib mac_data (9 ∷ []) [] ≡ err Error.incorrect_password
unfolding verify_mac toy_sum
refuses_other = refl
