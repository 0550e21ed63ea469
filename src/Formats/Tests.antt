-- ===== src/Formats/Tests.antt =====
-- The openers on small data, and the theorems at concrete inputs.
use certkit.Prelude.{◌≡◌, refl, ℕ, List, [], ◌∷◌, ◌++◌, Option, none, some, true, false}
use certkit.Prelude.{length, arith}
use certkit.Text.{Text, ascii, text_eq, hex}
use certkit.Result.{ok, err, Ensures}
use certkit.Store.Types.{Error, R, Store, Certificate, PrivateKey, Entry}
use certkit.Store.Tests.{lib}
use certkit.Store.Reconcile.{OpenOptions, normalize_open_options}
use certkit.Detect.Tests.{parsers}
use certkit.Open.{Opened}
use certkit.Open.Tests.{no_options}
use certkit.Open.Laws.{HasResult}
use certkit.Formats.Keys.{unwrap_pem}
use certkit.Formats.Reader.{open_file, open_file-HasResult}
use certkit.Formats.Alias.{looks_like_shang_mi_pkcs12, marshal_oid, unique_entry_alias}
use certkit.Formats.Pem.{open_pem}
use certkit.Formats.RoundTrip.{plain_block}
use certkit.Encode.{BlockType, Marshallers}
use certkit.Store.Keyed.{find_by}
use certkit.Store.Types.{Format}
use certkit.Store.Tests.{leaf_certificate, hashes}
use certkit.Prelude.{◌⊎◌}
use certkit.Store.Types.{PrivateKeyStatus}
use certkit.Store.Operations.{new_store}
use certkit.Store.Valid.{IsValid, valid}
use certkit.Store.Sessions.{new_store-IsValid}
use certkit.Formats.Alias.{is_taken, numbered_alias}
use certkit.Formats.Fresh.{unique_entry_alias_lem}
use certkit.Formats.Jks.{open_jks, import_entries, decrypt_jks_private_key, load_key_store}
use certkit.Formats.JksSound.{IsComplete, open_jks-IsComplete, import_entries-locked}
use certkit.Formats.Basics.{certificate_item, private_key_item}
use certkit.Formats.RoundTrip.{IsCodec, IsCertificate, IsPrivateKey, HasSameObjects, plain_options}
use certkit.Formats.RoundTrip.{without_passwords, open_pem-encode_pem}
use certkit.Formats.Keys.{only_store}
use certkit.Encode.{EncodeOptions, ConversionReport, encode_pem}
use certkit.Formats.Toy.{
  take-length_append, drop-length_append, toy_encode, toy_decode, tag, block_of_tag,
}
use certkit.Formats.Toy.{
  toy_parse_all, toy, toy-Relies, toy-HasDistinctTrust, toy-IsParsing, toy_key_store,
}

-- The certificates, private keys and entries of a store.
abbrev counts : R Opened → Option (ℕ × ℕ × ℕ)
counts (ok r) = elim (r.store) [
  | none ↦ none
  | some s ↦ some (length s.certificates, length s.private_keys, length s.entries)
]
counts _ = none

-- The object identifier 1.2.156.10197.1.301 in DER.
sm2_oid :
    marshal_oid (1 ∷ 2 ∷ 156 ∷ 10197 ∷ 1 ∷ 301 ∷ [])
    ≡ 6 ∷ 8 ∷ 42 ∷ 129 ∷ 28 ∷ 207 ∷ 85 ∷ 1 ∷ 130 ∷ 45 ∷ []
unfolding marshal_oid
sm2_oid = refl

shang_mi_file :
    looks_like_shang_mi_pkcs12 (1 ∷ 6 ∷ 8 ∷ 42 ∷ 129 ∷ 28 ∷ 207 ∷ 85 ∷ 1 ∷ 130 ∷ 45 ∷ 9 ∷ []) ≡ true
unfolding looks_like_shang_mi_pkcs12
shang_mi_file = refl

abbrev pem_file : List ℕ
pem_file = 0 ∷ 1 ∷ 1 ∷ 1 ∷ 1 ∷ 7 ∷ []

abbrev pem_options : OpenOptions
pem_options = record no_options { format = Format.pem }

-- One certificate and one key.
reads_pem : counts (open_file lib toy parsers pem_file pem_options) ≡ some (1, 1, 1)
unfolding open_file toy find_by text_eq open_pem
reads_pem = refl

open_file-HasResult_example :
    Ensures
      (HasResult (normalize_open_options pem_options))
      (open_file lib toy parsers pem_file pem_options)
open_file-HasResult_example =
    open_file-HasResult lib toy parsers pem_file pem_options toy-Relies
      (toy-HasDistinctTrust (unwrap_pem toy pem_file)) (omega arith) (omega arith)

-- `a` and `a-2` are taken.
abbrev named : Text → Entry
named alias = record {
  alias = alias;
  created_at = 0;
  private_key = none;
  private_key_status = PrivateKeyStatus.unset;
  chain = [];
  trusted = true;
}

abbrev two_aliases : Store
two_aliases = record new_store { entries = named (ascii "a") ∷ named (ascii "a-2") ∷ [] }

third_alias : unique_entry_alias lib two_aliases (ascii "a") ≡ ok (ascii "a-3")
unfolding unique_entry_alias
third_alias = refl

unique_entry_alias_lem_example :
    (a : Text) × (unique_entry_alias lib two_aliases (ascii "a") ≡ ok a)
    × (is_taken lib two_aliases a ≡ false)
    × ((a ≡ ascii "a") ⊎ ((k : ℕ) × (a ≡ numbered_alias (ascii "a") k)))
unique_entry_alias_lem_example =
    unique_entry_alias_lem lib toy-Relies.digits_fold two_aliases (ascii "a")

-- The password of the key store opens the key of `b`, which is not tried: the key of `a` failed.
abbrev password_of_b : OpenOptions
password_of_b = record no_options { password = some (2 ∷ []); format = Format.jks }

reads_jks : counts (open_file lib toy parsers (1 ∷ []) password_of_b) ≡ some (2, 0, 3)
unfolding open_file toy toy_key_store find_by text_eq open_jks
reads_jks = refl

open_jks-IsComplete_example :
    Ensures
      (IsComplete lib toy hashes toy-IsParsing (load_key_store lib toy [] password_of_b).key_store)
      (open_jks lib toy [] password_of_b)
open_jks-IsComplete_example = open_jks-IsComplete lib toy hashes toy-IsParsing [] password_of_b

key_of_a_is_locked :
    decrypt_jks_private_key lib toy toy_key_store (ascii "a") (some (2 ∷ [])) password_of_b ≡ none
unfolding decrypt_jks_private_key toy toy_key_store
key_of_a_is_locked = refl

a_is_not_trusted : toy_key_store.is_trusted_certificate_entry (ascii "a") ≡ false
unfolding toy_key_store
a_is_not_trusted = refl

a_has_a_key : toy_key_store.is_private_key_entry (ascii "a") ≡ true
unfolding toy_key_store
a_has_a_key = refl

import_entries-locked_example :
    Ensures
      (λ r. IsValid r.0 × (r.1 ≡ false) × (r.0.private_keys ≡ []))
      (import_entries lib toy toy_key_store
        (some (2 ∷ []))
        password_of_b
        (ascii "a" ∷ ascii "b" ∷ [])
        new_store
        true)
import_entries-locked_example =
    import_entries-locked lib toy hashes toy-IsParsing toy_key_store (some (2 ∷ [])) password_of_b
      (ascii "a") (ascii "b" ∷ []) new_store new_store-IsValid a_is_not_trusted a_has_a_key
      key_of_a_is_locked

-- A store that is written and read.
abbrev leaf_item : Certificate
leaf_item = certificate_item lib leaf_certificate

abbrev key_item : PrivateKey
key_item = private_key_item lib 7 (7 ∷ [])

abbrev sample : Store
sample = record new_store { certificates = leaf_item ∷ []; private_keys = key_item ∷ [] }

sample-IsValid : IsValid sample
unfolding find_by hex
sample-IsValid = valid (refl, tt) (refl, tt) (refl, tt) tt

marshallers : Marshallers
unfolding toy_encode
marshallers = record {
  pem_encode = toy_encode;
  marshal_pkcs8 = λ k. some (k ∷ []);
  encrypt_pkcs8 = λ k p. none;
  degenerate_certificate = λ d. none;
  encode_pkcs12 = λ s o r. (err Error.unsupported_format, r);
  encode_jks = λ s o r. (err Error.unsupported_format, r);
}

unwrapped : (d c : List ℕ) → some c ≡ some d → c ≡ d
unwrapped d c e = cc e

toy_decode_encode :
    (t : BlockType) (b d rest : List ℕ)
    → toy_encode t b ≡ some d
    → toy_decode (d ++ rest) ≡ some (plain_block t b, rest)
unfolding toy_encode toy_decode tag block_of_tag
toy_decode_encode BlockType.certificate b d rest e =
    rw (← unwrapped d _ e, take-length_append b rest, drop-length_append b rest) refl
toy_decode_encode BlockType.private_key b d rest e =
    rw (← unwrapped d _ e, take-length_append b rest, drop-length_append b rest) refl
toy_decode_encode BlockType.encrypted_private_key b d rest e =
    rw (← unwrapped d _ e, take-length_append b rest, drop-length_append b rest) refl

toy-IsCodec : IsCodec marshallers toy
unfolding marshallers toy
toy-IsCodec = record {
  decode_encode = toy_decode_encode;
  decode_end = refl;
  trim_end = refl;
  parse_marshal = λ k der e. rw (← unwrapped der (k ∷ []) e) refl;
}

abbrev encode_options : EncodeOptions
encode_options = record {
  password = [];
  allow_lossy = false;
  encrypt_pem_private_key = false;
  exclude_root_certificates = false;
}

abbrev report : ConversionReport
report = record {
  format = Format.pem;
  certificates_written = 0;
  private_keys_written = 0;
  discarded_certificates = 0;
  discarded_private_keys = 0;
}

sample-IsCertificate : IsCertificate lib toy leaf_item
unfolding toy toy_parse_all
sample-IsCertificate = record { has_raw = refl; own_id = refl; parses = refl }

sample-IsPrivateKey : IsPrivateKey lib key_item
sample-IsPrivateKey = record { public_der = 7 ∷ []; has_public = refl; own_id = refl }

written : (encode_pem lib marshallers sample (plain_options encode_options) report).0 ≡ ok pem_file
unfolding encode_pem marshallers toy_encode tag
written = refl

open_pem-encode_pem_example :
    (t : Store) × (open_pem lib toy pem_file (without_passwords no_options) ≡ only_store t)
    × HasSameObjects sample t
open_pem-encode_pem_example =
    open_pem-encode_pem lib marshallers toy sample encode_options no_options report pem_file
      toy-IsCodec toy-IsParsing sample-IsValid (sample-IsCertificate, tt) (sample-IsPrivateKey, tt)
      written
