-- ===== src/Store/Reconcile.antt =====
-- open.go: reconcileEntries, validateStoreLimits, mergeStoreObjects, defaultAlias and Store.Add; the
-- store that Open returned is an argument of the last.
use certkit.Prelude.{
  ℕ, zero, suc, List, [], ◌∷◌, ◌++◌, Option, none, some, Bool, true, false, ltb, leb,
}
use certkit.Prelude.{length, take, not, if◌then◌else◌}
use certkit.Text.{Text, text_eq, trim_space}
use certkit.Result.{ok, err, panic, ◌>>=◌, ◌>>◌, guard}
use certkit.Store.Library.{Library, X509Certificate, PublicKey, Signer}
use certkit.Store.Types.{Error, R, Certificate, PrivateKey, PrivateKeyStatus, Entry, Store, Format}
use certkit.Store.Types.{PasswordProvider}
use certkit.Store.Keyed.{is_some, insert_all}
use certkit.Store.Chain.{public_keys_equal, build_certificate_chain}
use certkit.Store.Operations.{insert_certificate, insert_certificates, certificate_by_id}
use certkit.Store.Operations.{
  insert_private_key, private_key_by_id, canonical_certificates, canonical_key,
}
use certkit.Store.Operations.{private_key_id, entry_by_alias, has_key}
use certkit.Store.Operations.{new_certificate, new_private_key}

-- `key-`
abbrev key_prefix : Text
key_prefix = 107 ∷ 101 ∷ 121 ∷ 45 ∷ []

-- `mykey`
abbrev pub my_key : Text
my_key = 109 ∷ 121 ∷ 107 ∷ 101 ∷ 121 ∷ []

unfoldable pub default_alias : Option X509Certificate → Text
unfolding trim_space text_eq
default_alias none = my_key
default_alias (some cert) =
    if not (text_eq (trim_space cert.common_name) []) then cert.common_name else my_key

unfoldable pub any_has_key : Text → List Entry → Bool
unfolding has_key
any_has_key id [] = false
any_has_key id (e ∷ es) = if has_key id e then true else any_has_key id es

pub record OpenOptions : Type 0 where
  pub format : Format
  pub password : Option (List ℕ)
  pub key_passwords : List (Text × List ℕ)
  pub password_provider : Option PasswordProvider
  pub disable_jks_default_password : Bool
  pub max_input_size : ℕ
  pub max_certificates : ℕ
  pub max_private_keys : ℕ

-- The sizes are natural numbers: a negative one is normalized as 0 is.
abbrev or_default : ℕ → ℕ → ℕ
or_default zero d = d
or_default (suc n) d = suc n

unfoldable pub normalize_format : Format → Format
normalize_format Format.unset = Format.auto
normalize_format f = f

unfoldable pub normalize_open_options : OpenOptions → OpenOptions
unfolding normalize_format
normalize_open_options o = record o {
  format = normalize_format o.format;
  max_input_size = or_default o.max_input_size 33554432;
  max_certificates = or_default o.max_certificates 4096;
  max_private_keys = or_default o.max_private_keys 256;
}

unfoldable pub validate_store_limits : Store → OpenOptions → R (Unit {0})
validate_store_limits store options =
    guard (leb (length store.certificates) options.max_certificates) Error.invalid_data
    >> guard (leb (length store.private_keys) options.max_private_keys) Error.invalid_data

unfoldable pub insert_private_keys : List PrivateKey → Store → Store
unfolding insert_all
insert_private_keys keys s = record s {
  private_keys = insert_all private_key_id keys s.private_keys;
}

unfoldable pub merge_store_objects : Store → Store → Store
unfolding insert_certificates insert_private_keys
merge_store_objects target source =
    let merged =
      insert_private_keys source.private_keys (insert_certificates source.certificates target) in
    record merged { diagnostics = merged.diagnostics ++ source.diagnostics }

module _ (lib : Library) where
  -- The chain from the first certificate of the list that has the public key.
  unfoldable pub chain_for : PublicKey → List Certificate → List Certificate → List Certificate
  unfolding public_keys_equal build_certificate_chain
  chain_for public certificates [] = []
  chain_for public certificates (c ∷ cs) =
      if public_keys_equal lib public c.certificate.public_key
      then build_certificate_chain lib c certificates
      else chain_for public certificates cs

  unfoldable pub rebuild_chain : Signer → List Certificate → List Certificate → List Certificate
  unfolding chain_for build_certificate_chain
  rebuild_chain signer certificates [] = chain_for (lib.public signer) certificates certificates
  rebuild_chain signer certificates (c ∷ cs) = build_certificate_chain lib c certificates

  unfoldable pub reconciled_chain :
      List Certificate → Option PrivateKey → List Certificate → List Certificate
  unfolding rebuild_chain
  reconciled_chain certificates none chain = chain
  reconciled_chain certificates (some k) chain = rebuild_chain k.signer certificates chain

  unfoldable pub reconcile_entry : List Certificate → Entry → Entry
  unfolding reconciled_chain
  reconcile_entry certificates e = record e {
    chain = reconciled_chain certificates e.private_key e.chain;
  }

  unfoldable pub reconcile_existing : List Certificate → List Entry → List Entry
  unfolding reconcile_entry
  reconcile_existing certificates [] = []
  reconcile_existing certificates (e ∷ es) =
      reconcile_entry certificates e ∷ reconcile_existing certificates es

  unfoldable pub new_key_entry : List Certificate → PrivateKey → Entry
  unfolding chain_for
  new_key_entry certificates k = record {
    alias = key_prefix ++ take 12 k.id;
    created_at = 0;
    private_key = some k;
    private_key_status = PrivateKeyStatus.available;
    chain = chain_for (lib.public k.signer) certificates certificates;
    trusted = false;
  }

  -- `key.ID[:12]` panics on a shorter identifier.
  unfoldable pub key_entry : List Certificate → PrivateKey → R Entry
  unfolding new_key_entry
  key_entry certificates k =
      if leb 12 (length k.id) then ok (new_key_entry certificates k) else panic

  -- The loop over the private keys: `entries` grows by an entry for each key that has none.
  unfoldable pub reconcile_keys : List Certificate → List PrivateKey → List Entry → R (List Entry)
  unfolding any_has_key key_entry
  reconcile_keys certificates [] entries = ok entries
  reconcile_keys certificates (k ∷ ks) entries =
      if any_has_key k.id entries
      then reconcile_keys certificates ks entries
      else key_entry certificates k
        >>= (λ entry. reconcile_keys certificates ks (entries ++ entry ∷ []))

  unfoldable pub reconcile_entries : Store → R Store
  unfolding reconcile_existing reconcile_keys
  reconcile_entries s =
      reconcile_keys s.certificates s.private_keys (reconcile_existing s.certificates s.entries)
      >>= λ es. ok (record s { entries = es })

  unfoldable pub add_certificate : Option X509Certificate → Store → R Store
  unfolding new_certificate insert_certificate reconcile_entries
  add_certificate cert s = do
    item ← new_certificate lib cert
    reconcile_entries (insert_certificate item s)

  unfoldable pub add_private_key : Option Signer → Store → R Store
  unfolding new_private_key insert_private_key reconcile_entries
  add_private_key key s = do
    item ← new_private_key lib key
    reconcile_entries (insert_private_key item s)

  -- The first loop of Store.Add: an alias of the other store's entries that is taken here.
  unfoldable pub any_alias_taken : Store → List Entry → Bool
  unfolding entry_by_alias
  any_alias_taken s [] = false
  any_alias_taken s (e ∷ es) =
      if is_some (entry_by_alias lib s e.alias) then true else any_alias_taken s es

unfoldable pub adopt_entries : List Entry → Store → R Store
unfolding canonical_certificates canonical_key
adopt_entries [] s = ok s
adopt_entries (e ∷ es) s = do
  chain ← canonical_certificates s e.chain
  let adopted = record e { chain = chain; private_key = canonical_key s e.private_key }
  adopt_entries es (record s { entries = s.entries ++ adopted ∷ [] })

pub record MergeReport : Type 0 where
  pub certificates_added : ℕ
  pub private_keys_added : ℕ
  pub entries_added : ℕ

unfoldable pub new_certificate_count : List Certificate → Store → ℕ
unfolding insert_certificate certificate_by_id
new_certificate_count [] s = 0
new_certificate_count (c ∷ cs) s =
    let later = new_certificate_count cs (insert_certificate c s) in
    if is_some (certificate_by_id s c.id) then later else suc later

unfoldable pub new_private_key_count : List PrivateKey → Store → ℕ
unfolding insert_private_key private_key_by_id
new_private_key_count [] s = 0
new_private_key_count (k ∷ ks) s =
    let later = new_private_key_count ks (insert_private_key k s) in
    if is_some (private_key_by_id s k.id) then later else suc later

module _ (lib : Library) where
  unfoldable pub add : Store → Store → R (MergeReport × Store)
  unfolding any_alias_taken insert_certificates insert_private_keys adopt_entries
      new_certificate_count new_private_key_count
  add s other = do
    guard (not (any_alias_taken lib s other.entries)) Error.alias_conflict
    let s₁ = insert_certificates other.certificates s
    let s₂ = insert_private_keys other.private_keys s₁
    s₃ ← adopt_entries other.entries s₂
    let report : MergeReport = record {
      certificates_added = new_certificate_count other.certificates s;
      private_keys_added = new_private_key_count other.private_keys s₁;
      entries_added = length other.entries;
    }
    ok (report, record s₃ { diagnostics = s₃.diagnostics ++ other.diagnostics })

  unfoldable pub matching_entry : PrivateKey → List Certificate → List Certificate → R Entry
  unfolding public_keys_equal build_certificate_chain default_alias
  matching_entry k certificates [] = err Error.key_mismatch
  matching_entry k certificates (c ∷ cs) =
      if public_keys_equal lib (lib.public k.signer) c.certificate.public_key
      then ok (record {
        alias = default_alias (some c.certificate);
        created_at = 0;
        private_key = some k;
        private_key_status = PrivateKeyStatus.available;
        chain = build_certificate_chain lib c certificates;
        trusted = false;
      })
      else matching_entry k certificates cs

  unfoldable pub sole_key : List PrivateKey → R PrivateKey
  sole_key [] = err Error.no_private_key
  sole_key (k ∷ []) = ok k
  sole_key (_ ∷ _ ∷ _) = err Error.invalid_data

  -- OpenEntry, on the results of its two calls of Open.
  unfoldable pub open_entry : R Store → R Store → R Entry
  unfolding matching_entry sole_key
  open_entry certificate_result private_key_result = do
    certificate_store ← certificate_result
    guard (ltb 0 (length certificate_store.certificates)) Error.no_certificate
    private_key_store ← private_key_result
    k ← sole_key private_key_store.private_keys
    matching_entry k certificate_store.certificates certificate_store.certificates
