-- ===== src/Encode/EntryPem.antt =====
-- entry_pem.go: the PEM of one entry as a caller has it, on the encoder of encode.go.
use certkit.Prelude.{ℕ, ◌+◌, ◌==◌, List, [], ◌∷◌, Option, none, some, Bool, true, false, length}
use certkit.Prelude.{if◌then◌else◌, not}
use certkit.Result.{ok, err, ◌>>=◌, ◌>>◌, guard}
use certkit.Store.Library.{Library, X509Certificate, Signer}
use certkit.Store.Given.{GivenCertificate, GivenKey, GivenEntry}
use certkit.Store.Types.{Error, R, Format, Certificate, PrivateKey, PrivateKeyStatus, Store}
use certkit.Store.Types.{unset, available, unavailable}
use certkit.Store.Operations.{new_store, insert_certificate, insert_private_key}
use certkit.Encode.{EncodeOptions, Marshallers, encode_store, is_excluded}

unfoldable pub is_available : PrivateKeyStatus → Bool
is_available available = true
is_available unavailable = false
is_available unset = false

abbrev present_certificate : GivenCertificate → Option X509Certificate → R Certificate
present_certificate item none = err Error.invalid_data
present_certificate item (some cert) =
    if length cert.raw == 0
    then err Error.invalid_data
    else ok (record { id = item.id; certificate = cert; role = item.role; source = item.source })

abbrev key_of : GivenKey → Signer → PrivateKey
key_of k signer = record {
  id = k.id;
  signer = signer;
  algorithm = k.algorithm;
  exportable = k.exportable;
  source = k.source;
}

module _ (lib : Library) (x : Marshallers) where
  -- The tests of an item and of its Certificate for nil, and of the bytes for none.
  abbrev present_item : Option GivenCertificate → R Certificate
  present_item none = err Error.invalid_data
  present_item (some item) = present_certificate item item.certificate

  -- The loop over the chain: the store, and how many certificates were written.
  unfoldable pub add_chain :
      EncodeOptions → List (Option GivenCertificate) → Store → ℕ → R (Store × ℕ)
  unfolding is_excluded insert_certificate
  add_chain options [] store written = ok (store, written)
  add_chain options (item ∷ items) store written = present_item item >>= λ c.
      if is_excluded lib x options c
      then add_chain options items store written
      else add_chain options items (insert_certificate c store) (written + 1)

  unfoldable pub certificate_chain_pem : Option GivenEntry → EncodeOptions → R (List ℕ)
  unfolding add_chain encode_store
  certificate_chain_pem none options = err Error.no_certificate
  certificate_chain_pem (some e) options = do
    (store, written) ← add_chain options e.chain new_store 0
    guard (not (written == 0)) Error.no_certificate
    (encode_store lib x Format.pem store options).0

  abbrev pub available_key_pem :
      GivenKey → Option Signer → PrivateKeyStatus → EncodeOptions → R (List ℕ)
  available_key_pem k none status options = err Error.no_private_key
  available_key_pem k (some signer) status options =
      if is_available status
      then (encode_store lib x Format.pem (insert_private_key (key_of k signer) new_store)
          options).0
      else err Error.no_private_key

  abbrev pub given_key_pem : Option GivenKey → PrivateKeyStatus → EncodeOptions → R (List ℕ)
  given_key_pem none status options = err Error.no_private_key
  given_key_pem (some k) status options = available_key_pem k k.signer status options

  unfoldable pub private_key_pem : Option GivenEntry → EncodeOptions → R (List ℕ)
  unfolding is_available insert_private_key encode_store
  private_key_pem none options = err Error.no_private_key
  private_key_pem (some e) options = given_key_pem e.private_key e.private_key_status options
