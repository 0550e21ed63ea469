-- ===== src/Formats/Toy.antt =====
-- A small library of formats for the tests: it is as IsParsing says.
use certkit.Prelude.{◌≡◌, refl, ℕ, zero, suc, ◌<◌, List, [], ◌∷◌, ◌++◌, Option, none, some, true}
use certkit.Prelude.{length, take, drop, if◌then◌else◌, arith, All}
use certkit.Text.{ascii, text_eq, hex}
use certkit.Result.{panic}
use certkit.Store.Library.{X509Certificate}
use certkit.Store.Tests.{lib}
use certkit.Formats.Library.{
  FormatLibrary, ParsedKey, Block, KeyStore, IsParsing, HasDistinctTrust, parsed,
}
use certkit.Formats.BagSound.{Relies}
use certkit.Formats.RoundTrip.{plain_block}
use certkit.Encode.{BlockType}
use certkit.Store.Keyed.{find_by, IsDistinct}
use certkit.Formats.Library.{HasRaw, HasPublicKeys, raw_id}
use certkit.Rc2.Schedule.{IsBytes}
use certkit.Prelude.{subst, All-take, All-drop, ap, length-drop}
use certkit.Store.Tests.{leaf_certificate, root_certificate, hashes}

-- A toy PEM: a tag, the length and the bytes.
unfoldable pub tag : BlockType → ℕ
tag BlockType.certificate = 0
tag BlockType.private_key = 1
tag BlockType.encrypted_private_key = 2

unfoldable pub block_of_tag : ℕ → BlockType
block_of_tag zero = BlockType.certificate
block_of_tag (suc zero) = BlockType.private_key
block_of_tag (suc (suc n)) = BlockType.encrypted_private_key

unfoldable pub toy_decode : List ℕ → Option (Block × List ℕ)
unfolding block_of_tag
toy_decode (t ∷ n ∷ rest) = some (plain_block (block_of_tag t) (take n rest), drop n rest)
toy_decode _ = none

unfoldable pub toy_encode : BlockType → List ℕ → Option (List ℕ)
unfolding tag
toy_encode t b = some (tag t ∷ length b ∷ b)

unfoldable pub toy_parse : List ℕ → Option X509Certificate
toy_parse [] = none
toy_parse (n ∷ ns) = some (record leaf_certificate { raw = n ∷ ns })

unfoldable pub toy_parse_all : List ℕ → Option (List X509Certificate)
toy_parse_all [] = none
toy_parse_all (n ∷ ns) = some (record leaf_certificate { raw = n ∷ ns } ∷ [])

unfoldable pub toy_pkcs8 : List ℕ → Option ParsedKey
toy_pkcs8 (k ∷ []) = some (some k)
toy_pkcs8 _ = none

-- Two private keys, `a` with the password 1, `b` with 2, and a trusted certificate `c`.
unfoldable pub toy_key_store : KeyStore
unfolding text_eq
toy_key_store = record {
  aliases = ascii "a" ∷ ascii "b" ∷ ascii "c" ∷ [];
  is_trusted_certificate_entry = λ a. text_eq a (ascii "c");
  get_trusted_certificate_entry = λ a. some (record {
    creation_time = 5;
    certificate = record { certificate_type = ascii "X509"; content = 9 ∷ [] };
  });
  is_private_key_entry = λ a. true;
  get_private_key_entry_certificate_chain =
      λ a. some (record { certificate_type = ascii "X.509"; content = 1 ∷ [] } ∷ []);
  get_private_key_entry = λ a p.
      if text_eq p ((if text_eq a (ascii "a") then 1 else 2) ∷ []) then some (7 ∷ []) else none;
}

unfoldable pub toy : FormatLibrary
unfolding toy_key_store toy_decode toy_parse toy_parse_all toy_pkcs8
toy = record {
  trim_space = λ d. d;
  quote = λ t. t;
  pem_decode = toy_decode;
  decrypt_pem_block = λ b p. none;
  parse_certificate = toy_parse;
  parse_certificates = toy_parse_all;
  parse_encrypted_pkcs8 = λ d p. none;
  parse_pkcs8 = toy_pkcs8;
  parse_pkcs1 = λ d. none;
  parse_ec = λ d. none;
  parse_sm2 = λ d. none;
  parse_pkcs7 = λ d. panic;
  load_jks = λ d p. (toy_key_store, none);
  shang_mi = record {
    to_pem = λ d p. none;
    decode_chain = λ d p. none;
    decode_trust_store = λ d p. some (leaf_certificate ∷ root_certificate ∷ []);
  };
  standard = record {
    to_pem = λ d p. none;
    decode_chain = λ d p. none;
    decode_trust_store = λ d p. some ((1 ∷ []) ∷ (2 ∷ []) ∷ []);
  };
}

pub take-length_append : (b rest : List ℕ) → take (length b) (b ++ rest) ≡ b
take-length_append [] rest = refl
take-length_append (a ∷ b) rest = ap (λ l. a ∷ l) (take-length_append b rest)

pub drop-length_append : (b rest : List ℕ) → drop (length b) (b ++ rest) ≡ rest
drop-length_append [] rest = refl
drop-length_append (a ∷ b) rest = drop-length_append b rest

abbrev raw_of : Option X509Certificate → List ℕ
raw_of none = []
raw_of (some c) = c.raw

abbrev all_of : Option (List X509Certificate) → List X509Certificate
all_of none = []
all_of (some cs) = cs

abbrev rest_of : Option (Block × List ℕ) → List ℕ
rest_of none = []
rest_of (some (b, rest)) = rest

abbrev bytes_of : Option (Block × List ℕ) → List ℕ
bytes_of none = []
bytes_of (some (b, rest)) = b.bytes

toy_bytes :
    (d : List ℕ) (b : Block) (rest : List ℕ)
    → IsBytes d
    → toy_decode d ≡ some (b, rest)
    → IsBytes b.bytes × IsBytes rest
unfolding toy_decode
toy_bytes [] b rest h e = cc
toy_bytes (t ∷ []) b rest h e = cc
toy_bytes (t ∷ n ∷ d) b rest (_, (_, h)) e = (
  subst IsBytes (ap (λ o. bytes_of o) e) (All-take _ n d h),
  subst IsBytes (ap (λ o. rest_of o) e) (All-drop _ n d h),
)

toy_raw : (d : List ℕ) (c : X509Certificate) → toy_parse d ≡ some c → HasRaw c
unfolding toy_parse
toy_raw [] c e = cc
toy_raw (n ∷ ns) c e =
    let f : raw_of (toy_parse (n ∷ ns)) ≡ c.raw = ap raw_of e in rw (← f) (ground arith)

toy_raws : (d : List ℕ) (cs : List X509Certificate) → toy_parse_all d ≡ some cs → All HasRaw cs
unfolding toy_parse_all
toy_raws [] cs e = cc
toy_raws (n ∷ ns) cs e = subst (All HasRaw) (ap all_of e) (ground arith, tt)

toy_public : HasPublicKeys lib toy_pkcs8
toy_public d k e = (k ∷ [], refl)

no_public : HasPublicKeys lib (λ d. none)
no_public d k e = (k ∷ [], refl)

toy_shrinks :
    (d : List ℕ) (b : Block) (rest : List ℕ)
    → toy_decode d ≡ some (b, rest)
    → length rest < length d
unfolding toy_decode
toy_shrinks [] b rest e = cc
toy_shrinks (t ∷ []) b rest e = cc
toy_shrinks (t ∷ n ∷ d) b rest e =
    let f : drop n d ≡ rest = ap (λ o. rest_of o) e in rw (← f) (omega (arith, length-drop n d))

pub toy-IsParsing : IsParsing lib toy
unfolding toy
toy-IsParsing = record {
  pem_shrinks = toy_shrinks;
  pem_bytes = toy_bytes;
  certificate_raw = toy_raw;
  certificates_raw = toy_raws;
  trust_store_raw =
      λ d pw cs e. subst (All HasRaw) (ap all_of e) (ground arith, (ground arith, tt));
  pkcs7_ends = λ d e. cc e;
  pkcs8_public = toy_public;
  pkcs1_public = no_public;
  ec_public = no_public;
  sm2_public = no_public;
}

pub toy-Relies : Relies lib toy
toy-Relies = record { hashes = hashes; parsing = toy-IsParsing; digits_fold = λ d l h. refl }

abbrev raws_of : Option (List (List ℕ)) → List (List ℕ)
raws_of none = []
raws_of (some raws) = raws

pub toy-HasDistinctTrust : (d : List ℕ) → HasDistinctTrust lib toy d
unfolding toy parsed find_by text_eq hex toy_parse
toy-HasDistinctTrust d = record {
  shang_mi = λ pw cs e. subst (IsDistinct (raw_id lib)) (ap all_of e) (refl, (refl, tt));
  standard = λ pw raws e.
      subst (λ r. IsDistinct (raw_id lib) (parsed toy r)) (ap raws_of e) (refl, (refl, tt));
}
