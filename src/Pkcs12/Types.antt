-- ===== src/Pkcs12/Types.antt =====
-- internal/pkcs12: the errors of errors.go, the parameters that crypto.go and mac.go read, and what
-- they call outside the repository: encoding/asn1, the block ciphers, the hashes.
use certkit.Prelude.{ℕ, List, [], ◌∷◌, Option, Bool, true, false, ◌==◌, ◌&&◌}
use certkit.Result.{Result}

-- `invalid` is an error with a text of its own.
pub data Error : Type 0 where
  decryption incorrect_password not_implemented invalid : Error

abbrev pub R {ℓ} : Type ℓ → Type ℓ
R = Result Error

abbrev pub Oid : Type 0
Oid = List ℕ

unfoldable pub oid_equal : Oid → Oid → Bool
oid_equal [] [] = true
oid_equal (a ∷ s) (b ∷ t) = a == b && oid_equal s t
oid_equal _ _ = false

-- `bytes` is the content of an ASN.1 value, `full_bytes` all of it.
pub record RawValue : Type 0 where
  pub tag : ℕ
  pub bytes : List ℕ
  pub full_bytes : List ℕ

pub record AlgorithmIdentifier : Type 0 where
  pub algorithm : Oid
  pub parameters : RawValue

pub record PbeParams : Type 0 where
  pub salt : List ℕ
  pub iterations : ℕ

pub record Pbes2Params : Type 0 where
  pub kdf : AlgorithmIdentifier
  pub encryption_scheme : AlgorithmIdentifier

pub record Pbkdf2Params : Type 0 where
  pub salt : RawValue
  pub iterations : ℕ
  pub key_length : ℕ
  pub prf : AlgorithmIdentifier

pub record Pbmac1Params : Type 0 where
  pub kdf : AlgorithmIdentifier
  pub message_auth_scheme : AlgorithmIdentifier

-- `u` is the size of the digest and `v` that of the compression function's input, in bytes.
pub record HashFunc : Type 0 where
  pub sum : List ℕ → List ℕ
  pub u : ℕ
  pub v : ℕ

-- A `cipher.Block`: the size of a block and the two directions on one.
pub record Cipher : Type 0 where
  pub block_size : ℕ
  pub encrypt : List ℕ → List ℕ
  pub decrypt : List ℕ → List ℕ

pub data Digest : Type 0 where
  sha1 sha256 sm3 : Digest

pub record Library : Type 0 where
  pub unmarshal_pbe : List ℕ → Option PbeParams
  pub unmarshal_pbes2 : List ℕ → Option Pbes2Params
  pub unmarshal_pbkdf2 : List ℕ → Option Pbkdf2Params
  pub unmarshal_pbmac1 : List ℕ → Option Pbmac1Params
  pub sum : Digest → List ℕ → List ℕ
  pub new_triple_des : List ℕ → Option Cipher
  pub new_aes : List ℕ → Option Cipher
  pub new_sm4 : List ℕ → Option Cipher
  -- pbkdf2.Key: password, salt, iterations, length and hash
  pub pbkdf2_key : List ℕ → List ℕ → ℕ → ℕ → Digest → List ℕ
  -- hmac.New(hash, key), the message and the sum
  pub hmac : Digest → List ℕ → List ℕ → List ℕ
  -- the bytes of a string in UTF-8, from its runes
  pub utf8 : List ℕ → List ℕ
