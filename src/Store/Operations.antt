-- ===== src/Store/Operations.antt =====
-- model.go: the constructors and the methods of `Store`. A method that changes the store returns
-- it; on an error none has been changed. A chain holds no nil: where canonicalCertificates would
-- store one, the model panics.
use certkit.Prelude.{List, [], ◌∷◌, ◌++◌, Option, none, some, Bool, true, false, ltb, length}
use certkit.Prelude.{not, map, if◌then◌else◌}
use certkit.Text.{Text, text_eq, trim_space, equal_fold, hex}
use certkit.Result.{ok, err, panic, ◌>>=◌, ◌>>◌, guard}
use certkit.Store.Library.{Library, X509Certificate, Signer, rsa_key, ecdsa_key, other_key}
use certkit.Store.Types.{
  Error, R, Certificate, PrivateKey, PrivateKeyStatus, Entry, Store, KeyAlgorithm,
}
use certkit.Store.Types.{no_source, Format, Encoding}
use certkit.Store.Keyed.{find_by, insert_by, insert_all, delete_by, is_some}
use certkit.Store.Chain.{certificate_role, public_keys_equal}

abbrev pub new_store : Store
new_store = record {
  source = record {
    format = Format.unknown;
    encoding = Encoding.unknown;
    integrity_verified = true;
  };
  entries = [];
  certificates = [];
  private_keys = [];
  diagnostics = [];
}

abbrev pub certificate_id : Certificate → Text
certificate_id c = c.id

abbrev pub private_key_id : PrivateKey → Text
private_key_id k = k.id

unfoldable pub certificate_by_id : Store → Text → Option Certificate
unfolding find_by
certificate_by_id s id = find_by certificate_id id s.certificates

unfoldable pub private_key_by_id : Store → Text → Option PrivateKey
unfolding find_by
private_key_by_id s id = find_by private_key_id id s.private_keys

-- addCertificate and addPrivateKey.
unfoldable pub insert_certificate : Certificate → Store → Store
unfolding insert_by
insert_certificate cert s = record s { certificates = insert_by certificate_id cert s.certificates }

unfoldable pub insert_private_key : PrivateKey → Store → Store
unfolding insert_by
insert_private_key key s = record s { private_keys = insert_by private_key_id key s.private_keys }

unfoldable pub insert_certificates : List Certificate → Store → Store
unfolding insert_all
insert_certificates certs s = record s {
  certificates = insert_all certificate_id certs s.certificates;
}

unfoldable pub canonical_certificates : Store → List Certificate → R (List Certificate)
unfolding certificate_by_id
canonical_certificates s [] = ok []
canonical_certificates s (item ∷ items) = elim (certificate_by_id s item.id) [
  | none ↦ panic
  | some c ↦ canonical_certificates s items >>= (λ rest. ok (c ∷ rest))
]

-- The private key of an entry, put in the store, and the one the entry then has.
unfoldable pub insert_entry_key : Option PrivateKey → Store → Store
unfolding insert_private_key
insert_entry_key none s = s
insert_entry_key (some k) s = insert_private_key k s

unfoldable pub canonical_key : Store → Option PrivateKey → Option PrivateKey
unfolding private_key_by_id
canonical_key s none = none
canonical_key s (some k) = private_key_by_id s k.id

module _ (lib : Library) where
  unfoldable pub new_certificate : Option X509Certificate → R Certificate
  unfolding hex certificate_role
  new_certificate none = err Error.invalid_data
  new_certificate (some cert) =
      if ltb 0 (length cert.raw)
      then ok (record {
        id = hex (lib.sha256 cert.raw);
        certificate = cert;
        role = certificate_role lib cert;
        source = no_source;
      })
      else err Error.invalid_data

  unfoldable pub new_certificates : List (Option X509Certificate) → R (List Certificate)
  unfolding new_certificate
  new_certificates [] = ok []
  new_certificates (c ∷ cs) = do
    item ← new_certificate c
    items ← new_certificates cs
    ok (item ∷ items)

  unfoldable pub key_algorithm : Signer → KeyAlgorithm
  key_algorithm key =
      if lib.is_sm2 (lib.public key) then KeyAlgorithm.sm2 else elim (lib.signer_kind key) [
        | rsa_key ↦ KeyAlgorithm.rsa
        | ecdsa_key ↦ KeyAlgorithm.ec
        | other_key ↦ KeyAlgorithm.unknown
      ]

  unfoldable pub new_private_key : Option Signer → R PrivateKey
  unfolding hex key_algorithm
  new_private_key none = err Error.invalid_data
  new_private_key (some key) = elim (lib.marshal_pkix (lib.public key)) [
    | none ↦ err Error.external
    | some der ↦ ok (record {
      id = hex (lib.sha256 der);
      signer = key;
      algorithm = key_algorithm key;
      exportable = true;
      source = no_source;
    })
  ]

  unfoldable pub find_entry : Text → List Entry → Option Entry
  unfolding equal_fold
  find_entry alias [] = none
  find_entry alias (e ∷ es) =
      if equal_fold lib.fold e.alias alias then some e else find_entry alias es

  unfoldable pub entry_by_alias : Store → Text → Option Entry
  unfolding find_entry
  entry_by_alias s alias = find_entry alias s.entries

  -- `cert.Certificate.PublicKey` of the first certificate is the key's, or there is no certificate.
  unfoldable pub matches_chain : Signer → List Certificate → Bool
  unfolding public_keys_equal
  matches_chain signer [] = true
  matches_chain signer (c ∷ cs) = public_keys_equal lib (lib.public signer) c.certificate.public_key

  unfoldable pub add_key_pair :
      Text → Option Signer → List (Option X509Certificate) → Store → R Store
  unfolding trim_space text_eq entry_by_alias new_private_key new_certificates matches_chain
      insert_certificates insert_private_key private_key_by_id canonical_certificates
  add_key_pair untrimmed key certs s = do
    let alias = trim_space untrimmed
    guard (not (text_eq alias [])) Error.invalid_data
    guard (not (is_some (entry_by_alias s alias))) Error.alias_conflict
    private_key ← new_private_key key
    certificates ← new_certificates certs
    guard (matches_chain private_key.signer certificates) Error.key_mismatch
    let s₁ = insert_private_key private_key (insert_certificates certificates s)
    chain ← canonical_certificates s₁ certificates
    let entry : Entry = record {
      alias = alias;
      created_at = 0;
      private_key = private_key_by_id s₁ private_key.id;
      private_key_status = PrivateKeyStatus.available;
      chain = chain;
      trusted = false;
    }
    ok (record s₁ { entries = s₁.entries ++ entry ∷ [] })

  unfoldable pub add_trusted_certificate : Text → Option X509Certificate → Store → R Store
  unfolding trim_space text_eq entry_by_alias new_certificate insert_certificate
      canonical_certificates
  add_trusted_certificate untrimmed cert s = do
    let alias = trim_space untrimmed
    guard (not (text_eq alias [])) Error.invalid_data
    guard (not (is_some (entry_by_alias s alias))) Error.alias_conflict
    item ← new_certificate cert
    let s₁ = insert_certificate item s
    chain ← canonical_certificates s₁ (item ∷ [])
    let entry : Entry = record {
      alias = alias;
      created_at = 0;
      private_key = none;
      private_key_status = PrivateKeyStatus.unset;
      chain = chain;
      trusted = true;
    }
    ok (record s₁ { entries = s₁.entries ++ entry ∷ [] })

  unfoldable pub entry_matches : Entry → Bool
  unfolding matches_chain
  entry_matches e = elim (e.private_key) [ none ↦ true | some k ↦ matches_chain k.signer e.chain ]

  -- AddEntry on an entry that has no nil in it; Given has the nils.
  unfoldable pub add_entry : Option Entry → Store → R Store
  unfolding trim_space text_eq entry_by_alias entry_matches insert_certificates insert_entry_key
      canonical_key canonical_certificates
  add_entry none s = err Error.invalid_data
  add_entry (some entry) s = do
    guard (not (text_eq (trim_space entry.alias) [])) Error.invalid_data
    guard (not (is_some (entry_by_alias s entry.alias))) Error.alias_conflict
    guard (entry_matches entry) Error.key_mismatch
    let s₁ = insert_entry_key entry.private_key (insert_certificates entry.chain s)
    chain ← canonical_certificates s₁ entry.chain
    let stored = record entry { private_key = canonical_key s₁ entry.private_key; chain = chain }
    ok (record s₁ { entries = s₁.entries ++ stored ∷ [] })

  unfoldable pub remove_first : Text → List Entry → Option (List Entry)
  unfolding equal_fold
  remove_first alias [] = none
  remove_first alias (e ∷ es) =
      if equal_fold lib.fold e.alias alias
      then some es
      else elim (remove_first alias es) [ none ↦ none | some rest ↦ some (e ∷ rest) ]

  unfoldable pub remove_entry : Text → Store → R Store
  unfolding remove_first
  remove_entry alias s = elim (remove_first alias s.entries) [
    | none ↦ err Error.invalid_data
    | some es ↦ ok (record s { entries = es })
  ]

unfoldable pub without_certificate : Text → List Certificate → List Certificate
without_certificate id [] = []
without_certificate id (c ∷ cs) =
    if not (text_eq c.id id) then c ∷ without_certificate id cs else without_certificate id cs

unfoldable pub unlink_certificate : Text → Entry → Entry
unfolding without_certificate
unlink_certificate id e = record e { chain = without_certificate id e.chain }

unfoldable pub remove_certificate : Text → Store → R Store
unfolding delete_by unlink_certificate
remove_certificate id s = elim (delete_by certificate_id id s.certificates) [
  | none ↦ err Error.no_certificate
  | some cs ↦ ok (record s { certificates = cs; entries = map (unlink_certificate id) s.entries })
]

unfoldable pub key_has : Text → Option PrivateKey → Bool
unfolding text_eq
key_has id none = false
key_has id (some k) = text_eq k.id id

unfoldable pub has_key : Text → Entry → Bool
unfolding key_has
has_key id e = key_has id e.private_key

unfoldable pub unlink_private_key : Text → Entry → Entry
unfolding has_key
unlink_private_key id e =
    if has_key id e
    then record e { private_key = none; private_key_status = PrivateKeyStatus.unavailable }
    else e

unfoldable pub remove_private_key : Text → Store → R Store
unfolding delete_by unlink_private_key
remove_private_key id s = elim (delete_by private_key_id id s.private_keys) [
  | none ↦ err Error.no_private_key
  | some ks ↦ ok (record s { private_keys = ks; entries = map (unlink_private_key id) s.entries })
]
