-- ===== src/Encode/Tests.antt =====
-- encode.go at concrete inputs.
use certkit.Prelude.{none}
use certkit.Prelude.{◌≡◌, refl, [], ◌∷◌, some, true, false}
use certkit.Result.{ok, err}
use certkit.Store.Types.{Error, Format, Entry, PrivateKeyStatus}
use certkit.Store.Tests.{lib, full_store, leaf_item, root_item, key_item}
use certkit.Encode.{EncodeOptions, Marshallers, empty_report, encode_store}
use certkit.Store.Given.{given}
use certkit.Encode.EntryPem.{certificate_chain_pem, private_key_pem}
use certkit.Encode.Losses.{Reports, Faithful, encode_store-Faithful}

abbrev marshallers : Marshallers
marshallers = record {
  pem_encode = λ t b. some b;
  marshal_pkcs8 = λ s. some (s ∷ []);
  encrypt_pkcs8 = λ s p. some p;
  degenerate_certificate = λ b. some b;
  encode_pkcs12 = λ s o r. (err Error.unsupported_format, r);
  encode_jks = λ s o r. (err Error.unsupported_format, r);
}

abbrev plain_options : EncodeOptions
plain_options = record {
  password = [];
  allow_lossy = false;
  encrypt_pem_private_key = false;
  exclude_root_certificates = false;
}

-- Two certificates and a key are more than DER holds.
der_is_lossy :
    encode_store lib marshallers Format.der full_store plain_options
    ≡ (err Error.lossy_conversion, empty_report lib marshallers Format.der)
unfolding encode_store
der_is_lossy = refl

pem_has_all : encode_store lib marshallers Format.pem full_store plain_options ≡ (
  ok (1 ∷ 2 ∷ 7 ∷ []),
  record (empty_report lib marshallers Format.pem) {
    certificates_written = 2;
    private_keys_written = 1;
  },
)
unfolding encode_store
pem_has_all = refl

abbrev site : Entry
site = record {
  alias = [];
  created_at = 0;
  private_key = some key_item;
  private_key_status = PrivateKeyStatus.available;
  chain = leaf_item ∷ root_item ∷ [];
  trusted = false;
}

chain_is_written :
    certificate_chain_pem lib marshallers (some (given site)) plain_options ≡ ok (1 ∷ 2 ∷ [])
unfolding certificate_chain_pem
chain_is_written = refl

root_is_left_out :
    certificate_chain_pem lib marshallers
      (some (given site))
      (record plain_options { exclude_root_certificates = true })
    ≡ ok (1 ∷ [])
unfolding certificate_chain_pem
root_is_left_out = refl

nil_is_refused :
    certificate_chain_pem lib marshallers
      (some (record (given site) { chain = none ∷ [] }))
      plain_options
    ≡ err Error.invalid_data
unfolding certificate_chain_pem
nil_is_refused = refl

key_is_written : private_key_pem lib marshallers (some (given site)) plain_options ≡ ok (7 ∷ [])
unfolding private_key_pem
key_is_written = refl

locked_key_is_refused :
    private_key_pem lib marshallers
      (some (given (record site { private_key_status = PrivateKeyStatus.unavailable })))
      plain_options
    ≡ err Error.no_private_key
unfolding private_key_pem
locked_key_is_refused = refl

encode_store-Faithful_example :
    Reports
      (Faithful plain_options full_store)
      (encode_store lib marshallers Format.pem full_store plain_options)
encode_store-Faithful_example =
    encode_store-Faithful lib marshallers Format.pem full_store plain_options refl
