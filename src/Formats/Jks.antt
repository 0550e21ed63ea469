-- ===== src/Formats/Jks.antt =====
-- open_jks.go.
use certkit.Prelude.{ℕ, ◌+◌, List, [], ◌∷◌, ◌++◌, Option, none, some, Bool, true, false}
use certkit.Prelude.{not, ◌&&◌, if◌then◌else◌}
use certkit.Text.{Text, equal_fold, ascii}
use certkit.Result.{ok, err, panic, ◌>>=◌}
use certkit.Store.Library.{Library, X509Certificate, Signer}
use certkit.Store.Types.{
  Error, R, Format, Encoding, Store, Entry, Certificate, PrivateKey, PrivateKeyStatus,
  PasswordPurpose, SourceRef,
}
use certkit.Store.Types.{PasswordProvider, Answer, DiagnosticLevel}
use certkit.Store.Operations.{
  new_store, new_certificate, new_private_key, insert_certificate, insert_private_key,
}
use certkit.Store.Operations.{certificate_by_id, private_key_by_id}
use certkit.Store.Reconcile.{OpenOptions}
use certkit.Passwords.{append_unique_password, password_by_alias}
use certkit.Open.{Opened}
use certkit.Formats.Library.{FormatLibrary, KeyStore, JksCertificate, TrustedEntry, LoadError}
use certkit.Formats.Keys.{
  store_and, only_store, or_panic, place_certificate, place_private_key, parse_private_key,
}
use certkit.Formats.Pem.{add_diagnostic}

-- `changeit`, in bytes
abbrev pub default_password : List ℕ
default_password = ascii "changeit"

abbrev pub jks_source : Text → ℕ → SourceRef
jks_source alias index = record { format = Format.jks; alias = alias; index = index }

-- The last return of jksStorePasswords, and its error, for which openJKS tries without a password.
abbrev pub default_passwords : OpenOptions → List (Option (List ℕ))
default_passwords options =
    if not options.disable_jks_default_password then some default_password ∷ [] else none ∷ []

abbrev pub answered_passwords : OpenOptions → Answer → List (Option (List ℕ))
answered_passwords options Answer.refused = none ∷ []
answered_passwords options (Answer.given (some password)) = some password ∷ []
answered_passwords options (Answer.given none) = default_passwords options

abbrev pub provided_passwords : OpenOptions → Option PasswordProvider → List (Option (List ℕ))
provided_passwords options none = default_passwords options
provided_passwords options (some provider) =
    answered_passwords options
      (provider (record { format = Format.jks; alias = []; purpose = PasswordPurpose.container }))

abbrev given_passwords : OpenOptions → Option (List ℕ) → List (Option (List ℕ))
given_passwords options (some password) = some password ∷ []
given_passwords options none = provided_passwords options options.password_provider

unfoldable pub jks_store_passwords : OpenOptions → List (Option (List ℕ))
jks_store_passwords options = given_passwords options options.password

-- What the loop over the passwords leaves: the key store, the password that opened it, the error.
pub record Loaded : Type 0 where
  pub key_store : KeyStore
  pub selected : Option (List ℕ)
  pub load_error : Option LoadError

-- The candidates of decryptJKSPrivateKey, in order.
abbrev pub alias_password : Option (List ℕ) → List (List ℕ)
alias_password none = []
alias_password (some password) = password ∷ []

abbrev pub asked_password : Answer → List (List ℕ)
asked_password Answer.refused = []
asked_password (Answer.given none) = []
asked_password (Answer.given (some password)) = password ∷ []

abbrev pub provider_password : Option PasswordProvider → Text → List (List ℕ)
provider_password none alias = []
provider_password (some provider) alias = asked_password (
    provider (record { format = Format.jks; alias = alias; purpose = PasswordPurpose.private_key }))

unfoldable pub key_candidates : (ℕ → ℕ) → Text → Option (List ℕ) → OpenOptions → List (List ℕ)
unfolding password_by_alias append_unique_password
key_candidates fold alias store_password options =
    let given =
      alias_password (password_by_alias fold options.key_passwords alias)
      ++ provider_password options.password_provider alias in
    let with_store = append_unique_password given store_password in
    if not options.disable_jks_default_password
    then append_unique_password with_store (some default_password)
    else with_store

module _ (lib : Library) (x : FormatLibrary) where
  unfoldable load_with : List ℕ → List (Option (List ℕ)) → Loaded → Loaded
  load_with data_ [] last = last
  load_with data_ (password ∷ passwords) last =
      let (key_store, load_error) = x.load_jks data_ password in
      let failed : LoadError → Loaded = λ e.
        load_with data_ passwords
          (record { key_store = key_store; selected = last.selected; load_error = some e }) in
      elim load_error [
        | none ↦ record { key_store = key_store; selected = password; load_error = none }
        | some e ↦ failed e
      ]

  unfoldable pub parse_jks_certificate : JksCertificate → R X509Certificate
  unfolding equal_fold
  parse_jks_certificate raw =
      if not (equal_fold lib.fold raw.certificate_type (ascii "X509"))
        && not (equal_fold lib.fold raw.certificate_type (ascii "X.509"))
      then err Error.unsupported_format
      else elim (x.parse_certificate raw.content) [ none ↦ err Error.external | some c ↦ ok c ]

  abbrev try_key : Option (List ℕ) → Option Signer → Option Signer
  try_key none next = next
  try_key (some der) next = elim (parse_private_key x der []) [ none ↦ next | some k ↦ some k ]

  unfoldable pub decrypt_key_with : KeyStore → Text → List (List ℕ) → Option Signer
  unfolding parse_private_key
  decrypt_key_with ks alias [] = none
  decrypt_key_with ks alias (password ∷ passwords) =
      try_key (ks.get_private_key_entry alias password) (decrypt_key_with ks alias passwords)

  -- `none` is ErrPassword.
  unfoldable pub decrypt_jks_private_key :
      KeyStore → Text → Option (List ℕ) → OpenOptions → Option Signer
  unfolding key_candidates decrypt_key_with
  decrypt_jks_private_key ks alias store_password options =
      decrypt_key_with ks alias (key_candidates lib.fold alias store_password options)

  abbrev pub stored : Option Certificate → Store → R (Certificate × Store)
  stored none s = panic
  stored (some c) s = ok (c, s)

  -- A certificate put in the store, and the one that the store has under its ID; a nil one would
  -- be a pointer that no entry of a valid store has.
  unfoldable pub import_certificate : SourceRef → X509Certificate → Store → R (Certificate × Store)
  unfolding new_certificate insert_certificate certificate_by_id
  import_certificate source cert s = do
    item ← or_panic (new_certificate lib (some cert))
    let s₁ = insert_certificate (place_certificate source item) s
    stored (certificate_by_id s₁ item.id) s₁

  unfoldable pub import_chain :
      Text → ℕ → List JksCertificate → Store → R (List Certificate × Store)
  unfolding parse_jks_certificate import_certificate
  import_chain alias i [] s = ok ([], s)
  import_chain alias i (raw ∷ raws) s = do
    cert ← parse_jks_certificate raw
    (c, s₁) ← import_certificate (jks_source alias i) cert s
    (cs, s₂) ← import_chain alias (i + 1) raws s₁
    ok (c ∷ cs, s₂)

  abbrev pub jks_trusted_entry : Text → ℕ → Certificate → Entry
  jks_trusted_entry alias created_at c = record {
    alias = alias;
    created_at = created_at;
    private_key = none;
    private_key_status = PrivateKeyStatus.unset;
    chain = c ∷ [];
    trusted = true;
  }

  unfoldable pub import_trusted : Text → Option TrustedEntry → Store → R Store
  unfolding parse_jks_certificate import_certificate
  import_trusted alias none s = err Error.external
  import_trusted alias (some entry) s = do
    cert ← parse_jks_certificate entry.certificate
    (c, s₁) ← import_certificate (jks_source alias 0) cert s
    ok (record s₁ { entries = s₁.entries ++ jks_trusted_entry alias entry.creation_time c ∷ [] })

  abbrev pub locked_entry : Text → List Certificate → Entry
  locked_entry alias chain = record {
    alias = alias;
    created_at = 0;
    private_key = none;
    private_key_status = PrivateKeyStatus.unavailable;
    chain = chain;
    trusted = false;
  }

  abbrev pub unlocked_entry : Text → List Certificate → Option PrivateKey → Entry
  unlocked_entry alias chain key = record (locked_entry alias chain) {
    private_key = key;
    private_key_status = PrivateKeyStatus.available;
  }

  abbrev append_entry : Entry → Store → Store
  append_entry entry s = record s { entries = s.entries ++ entry ∷ [] }

  -- The store with the entry, and whether its key could be read.
  unfoldable pub import_key : Text → List Certificate → Option Signer → Store → R (Store × Bool)
  unfolding new_private_key insert_private_key private_key_by_id
  import_key alias chain none s = ok (
    append_entry (locked_entry alias chain) (
        add_diagnostic DiagnosticLevel.warning (ascii "private_key_password")
          (ascii "jks private key password is required or incorrect") alias s),
    false,
  )
  import_key alias chain (some key) s = do
    item ← new_private_key lib (some key)
    let s₁ = insert_private_key (place_private_key (jks_source alias 0) item) s
    ok (append_entry (unlocked_entry alias chain (private_key_by_id s₁ item.id)) s₁, true)

  unfoldable pub import_private_entry :
      KeyStore
      → Option (List ℕ)
      → OpenOptions
      → Text
      → Option (List JksCertificate)
      → Store
      → Bool
      → R (Store × Bool)
  unfolding import_chain import_key decrypt_jks_private_key
  import_private_entry ks selected options alias none s loaded = err Error.external
  import_private_entry ks selected options alias (some raws) s loaded = do
    (chain, s₁) ← import_chain alias 0 raws s
    if loaded
        then import_key alias chain (decrypt_jks_private_key ks alias selected options) s₁
        else ok (append_entry (locked_entry alias chain) s₁, false)

  -- The loop over the aliases; `loaded` is `loadErr == nil`.
  unfoldable pub import_entries :
      KeyStore → Option (List ℕ) → OpenOptions → List Text → Store → Bool → R (Store × Bool)
  unfolding import_trusted import_private_entry
  import_entries ks selected options [] s loaded = ok (s, loaded)
  import_entries ks selected options (alias ∷ aliases) s loaded =
      let trusted : R (Store × Bool) =
        import_trusted alias (ks.get_trusted_certificate_entry alias) s
        >>= (λ s'. import_entries ks selected options aliases s' loaded) in
      let private : R (Store × Bool) =
        import_private_entry ks selected options alias
          (ks.get_private_key_entry_certificate_chain alias) s loaded
        >>= (λ r. import_entries ks selected options aliases r.0 r.1) in
      let skipped : R (Store × Bool) = import_entries ks selected options aliases s loaded in
      if ks.is_trusted_certificate_entry alias
      then trusted
      else if not (ks.is_private_key_entry alias)
      then skipped
      else private

  unfoldable pub finish_jks : Store × Bool → R Opened
  finish_jks (s, true) = only_store s
  finish_jks (s, false) =
      store_and
        (add_diagnostic DiagnosticLevel.warning (ascii "integrity_unverified")
          (ascii "jks integrity or private keys could not be verified") [] s)
        Error.password

  abbrev pub jks_store : Bool → Store
  jks_store verified = record new_store {
    source = record { format = Format.jks; encoding = Encoding.der; integrity_verified = verified };
  }

  unfoldable pub read_jks : OpenOptions → KeyStore → Option (List ℕ) → Option LoadError → R Opened
  unfolding import_entries finish_jks
  read_jks options ks selected none =
      import_entries ks selected options ks.aliases (jks_store true) true >>= finish_jks
  read_jks options ks selected (some LoadError.invalid_digest) =
      import_entries ks selected options ks.aliases (jks_store false) false >>= finish_jks
  read_jks options ks selected (some LoadError.other_error) = err Error.invalid_data

  -- The zero value of a key store.
  abbrev no_key_store : KeyStore
  no_key_store = record {
    aliases = [];
    is_trusted_certificate_entry = λ a. false;
    get_trusted_certificate_entry = λ a. none;
    is_private_key_entry = λ a. false;
    get_private_key_entry_certificate_chain = λ a. none;
    get_private_key_entry = λ a p. none;
  }

  unfoldable pub read_loaded : OpenOptions → Loaded → R Opened
  unfolding read_jks
  read_loaded options l = read_jks options l.key_store l.selected l.load_error

  unfoldable pub load_key_store : List ℕ → OpenOptions → Loaded
  unfolding jks_store_passwords load_with
  load_key_store data_ options =
      load_with data_ (jks_store_passwords options)
        (record { key_store = no_key_store; selected = none; load_error = none })

  unfoldable pub open_jks : List ℕ → OpenOptions → R Opened
  unfolding load_key_store read_loaded
  open_jks data_ options = read_loaded options (load_key_store data_ options)
