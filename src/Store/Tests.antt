-- ===== src/Store/Tests.antt =====
-- The store on small data, and the theorems at concrete inputs.
use certkit.Prelude.{◌≡◌, refl, List, [], ◌∷◌, none, some, true, false, All, arith}
use certkit.Text.{ascii, Text, text_eq, hex}
use certkit.Result.{ok, panic}
use certkit.Store.Library.{Library, X509Certificate, rsa_key}
use certkit.Store.Types.{
  Certificate, CertificateRole, PrivateKey, KeyAlgorithm, Entry, Store, no_source, PrivateKeyStatus,
}
use certkit.Store.Keyed.{IsDistinct, find_by}
use certkit.Store.Chain.{build_certificate_chain}
use certkit.Store.Walk.{Walk, Issued, build_certificate_chain-Walk, build_certificate_chain_lem}
use certkit.Store.Operations.{new_store, certificate_id, remove_certificate, remove_private_key}
use certkit.Store.Operations.{certificate_by_id, private_key_by_id}
use certkit.Store.Reconcile.{reconcile_entries}
use certkit.Store.Valid.{IsValid, valid}
use certkit.Store.Removals.{ChainLacks, NoKey, remove_certificate-effect, remove_private_key-effect}
use certkit.Store.Owners.{Owned, reconcile_entries-Owned}
use certkit.Store.Sessions.{
  Operation, adds_entry, adds_store, adds_certificate, adds_private_key, adds_key_pair,
  removes_certificate,
}
use certkit.Store.Given.{given, add_given_entry}
use certkit.Store.Sessions.{removes_private_key, run_all, run_all-IsValid, new_store-IsValid}
use certkit.Store.Additions.{LongHashes}

abbrev pub lib : Library
lib = record {
  fold = λ r. r;
  sha256 = λ d. 0 ∷ 0 ∷ 0 ∷ 0 ∷ 0 ∷ 0 ∷ d;
  marshal_pkix = λ k. some (k ∷ []);
  public = λ s. s;
  is_sm2 = λ k. false;
  signer_kind = λ s. rsa_key;
  check_signature_from = λ child parent. true;
}

pub hashes : LongHashes lib
hashes d = ground arith

abbrev pub leaf_certificate : X509Certificate
leaf_certificate = record {
  raw = 1 ∷ [];
  raw_subject = 1 ∷ [];
  raw_issuer = 2 ∷ [];
  subject_key_id = [];
  authority_key_id = [];
  is_ca = false;
  public_key = 7;
  common_name = 97 ∷ [];
  not_before = 0;
  not_after = 1000;
  key_usage = 0;
  serial_number = 97;
  crl_distribution_points = ascii "u" ∷ [];
  ocsp_server = ascii "u" ∷ [];
}

abbrev pub root_certificate : X509Certificate
root_certificate = record {
  raw = 2 ∷ [];
  raw_subject = 2 ∷ [];
  raw_issuer = 2 ∷ [];
  subject_key_id = [];
  authority_key_id = [];
  is_ca = true;
  public_key = 8;
  common_name = 98 ∷ [];
  not_before = 0;
  not_after = 1000;
  key_usage = 0;
  serial_number = 98;
  crl_distribution_points = ascii "u" ∷ [];
  ocsp_server = ascii "u" ∷ [];
}

abbrev pub leaf_item : Certificate
leaf_item = record {
  id = 1 ∷ [];
  certificate = leaf_certificate;
  role = CertificateRole.leaf;
  source = no_source;
}

abbrev pub root_item : Certificate
root_item = record {
  id = 2 ∷ [];
  certificate = root_certificate;
  role = CertificateRole.root;
  source = no_source;
}

abbrev items : List Certificate
items = leaf_item ∷ root_item ∷ []

abbrev key_id : Text
key_id = hex (0 ∷ 0 ∷ 0 ∷ 0 ∷ 0 ∷ 7 ∷ [])

abbrev pub key_item : PrivateKey
key_item = record {
  id = 48 ∷ 48 ∷ 48 ∷ 48 ∷ 48 ∷ 48 ∷ 48 ∷ 48 ∷ 48 ∷ 48 ∷ 48 ∷ 55 ∷ [];
  signer = 7;
  algorithm = KeyAlgorithm.rsa;
  exportable = true;
  source = no_source;
}

abbrev entry_item : Entry
entry_item = record {
  alias = 97 ∷ [];
  created_at = 0;
  private_key = some key_item;
  private_key_status = PrivateKeyStatus.available;
  chain = items;
  trusted = false;
}

abbrev pub full_store : Store
full_store = record new_store {
  certificates = items;
  private_keys = key_item ∷ [];
  entries = entry_item ∷ [];
}

pub full_store-IsValid : IsValid full_store
unfolding find_by text_eq
full_store-IsValid = valid (refl, (refl, tt)) (refl, tt) (refl, tt) (((refl, (refl, tt)), refl), tt)

chain_of_two : build_certificate_chain lib leaf_item items ≡ items
unfolding build_certificate_chain
chain_of_two = refl

build_certificate_chain-Walk_example :
    (above : List Certificate) × (build_certificate_chain lib leaf_item items ≡ leaf_item ∷ above)
    × Walk lib items leaf_item ((1 ∷ []) ∷ []) above
build_certificate_chain-Walk_example = build_certificate_chain-Walk lib leaf_item items

build_certificate_chain_lem_example :
    (above : List Certificate) × (build_certificate_chain lib leaf_item items ≡ leaf_item ∷ above)
    × Issued lib leaf_item above
    × IsDistinct certificate_id (leaf_item ∷ above)
build_certificate_chain_lem_example = build_certificate_chain_lem lib leaf_item items

abbrev given_entry : Entry
given_entry = record {
  alias = 98 ∷ [];
  created_at = 0;
  private_key = none;
  private_key_status = PrivateKeyStatus.unset;
  chain = leaf_item ∷ [];
  trusted = true;
}

-- A chain with a nil in it.
adds_nil :
    add_given_entry lib (some (record (given given_entry) { chain = none ∷ [] })) new_store ≡ panic
unfolding add_given_entry
adds_nil = refl

abbrev session : List Operation
session =
    adds_certificate (some leaf_certificate)
    ∷ adds_private_key (some 7)
    ∷ adds_key_pair (97 ∷ []) (some 7) (some leaf_certificate ∷ some root_certificate ∷ [])
    ∷ removes_certificate (1 ∷ [])
    ∷ removes_private_key (3 ∷ [])
    ∷ adds_entry (some (given given_entry))
    ∷ adds_store full_store
    ∷ []

run_all-IsValid_example : (s' : Store) × (run_all lib session new_store ≡ ok s') × IsValid s'
run_all-IsValid_example =
    run_all-IsValid lib hashes session new_store
      (tt, (tt, (tt, (tt, (tt, ((given_entry, refl, tt), (full_store-IsValid, tt)))))))
      new_store-IsValid

abbrev without_leaf : Store
without_leaf = record full_store {
  certificates = root_item ∷ [];
  entries = record entry_item { chain = root_item ∷ [] } ∷ [];
}

remove_leaf : remove_certificate (1 ∷ []) full_store ≡ ok without_leaf
unfolding remove_certificate
remove_leaf = refl

remove_certificate-effect_example :
    (certificate_by_id without_leaf (1 ∷ []) ≡ none)
    × All (ChainLacks (1 ∷ [])) without_leaf.entries
    × ((other : Text)
        → text_eq (1 ∷ []) other ≡ false
        → certificate_by_id without_leaf other ≡ certificate_by_id full_store other)
remove_certificate-effect_example =
    remove_certificate-effect (1 ∷ []) full_store without_leaf full_store-IsValid remove_leaf

abbrev without_key : Store
without_key = record full_store {
  private_keys = [];
  entries =
      record entry_item { private_key = none; private_key_status = PrivateKeyStatus.unavailable }
      ∷ [];
}

remove_key : remove_private_key key_item.id full_store ≡ ok without_key
unfolding remove_private_key
remove_key = refl

remove_private_key-effect_example :
    (private_key_by_id without_key key_item.id ≡ none)
    × All (NoKey key_item.id) without_key.entries
    × ((other : Text)
        → text_eq key_item.id other ≡ false
        → private_key_by_id without_key other ≡ private_key_by_id full_store other)
remove_private_key-effect_example =
    remove_private_key-effect key_item.id full_store without_key full_store-IsValid remove_key

abbrev keys_only : Store
keys_only = record new_store { certificates = items; private_keys = key_item ∷ [] }

-- The entry that is made has the prefix `key-`.
abbrev reconciled : Store
reconciled = record keys_only {
  entries = record entry_item { alias = 107 ∷ 101 ∷ 121 ∷ 45 ∷ key_item.id } ∷ [];
}

reconcile_keys_only : reconcile_entries lib keys_only ≡ ok reconciled
unfolding reconcile_entries
reconcile_keys_only = refl

reconcile_entries-Owned_example : All (Owned reconciled.entries) (key_item ∷ [])
reconcile_entries-Owned_example =
    reconcile_entries-Owned lib keys_only reconciled reconcile_keys_only
