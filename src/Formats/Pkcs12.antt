-- ===== src/Formats/Pkcs12.antt =====
-- open_pkcs12.go: openPKCS12, openStandardPKCS12 and storeFromPKCS12Blocks.
use certkit.Prelude.{ℕ, ◌+◌, ◌==◌, List, [], ◌∷◌, ◌++◌, Option, none, some, true, false, ◌&&◌}
use certkit.Prelude.{length, take, leb, map, if◌then◌else◌}
use certkit.Text.{Text, text_eq, trim_space, ascii, decimal}
use certkit.Result.{ok, err, panic, ◌>>=◌}
use certkit.Store.Library.{Library, X509Certificate, Signer}
use certkit.Store.Types.{
  Error, R, Format, Encoding, Store, Entry, Certificate, PrivateKey, PrivateKeyStatus, SourceRef,
}
use certkit.Store.Types.{PasswordPurpose}
use certkit.Store.Operations.{
  new_certificate, new_private_key, insert_certificate, insert_private_key, private_key_by_id,
}
use certkit.Store.Operations.{add_key_pair, canonical_certificates, canonical_key}
use certkit.Store.Reconcile.{OpenOptions, default_alias, chain_for}
use certkit.Passwords.{password_for}
use certkit.Open.{Opened}
use certkit.Formats.Library.{FormatLibrary, Block, ParsedKey}
use certkit.Formats.Keys.{
  only_store, or_panic, place_certificate, place_private_key, parse_private_key,
}
use certkit.Formats.Pkcs7.{empty_store}
use certkit.Formats.Alias.{unique_entry_alias, looks_like_shang_mi_pkcs12}

abbrev pub pkcs12_source : Text → ℕ → SourceRef
pkcs12_source alias index = record { format = Format.pkcs12; alias = alias; index = index }

abbrev pub pkcs12_store : Store
pkcs12_store = empty_store Format.pkcs12 Encoding.der

pub record KeyAlias : Type 0 where
  pub key : PrivateKey
  pub alias : Text

-- The variables of the loop over the blocks; the map has the latest pair of a key first.
pub record BlockState : Type 0 where
  pub store : Store
  pub keys : List KeyAlias
  pub certificate_aliases : List (Text × Text)

-- A missing key gives the empty alias.
unfoldable pub alias_of : List (Text × Text) → Text → Text
unfolding text_eq
alias_of [] id = []
alias_of ((k, v) ∷ m) id = if text_eq k id then v else alias_of m id

unfoldable pub record_alias : Text → Text → List (Text × Text) → List (Text × Text)
unfolding text_eq
record_alias id alias m = if text_eq alias [] then m else (id, alias) ∷ m

unfoldable pub stamp : Text → ℕ → List Certificate → List Certificate
stamp alias i [] = []
stamp alias i (c ∷ cs) = place_certificate (pkcs12_source alias i) c ∷ stamp alias (i + 1) cs

abbrev pub stamp_first : Text → List PrivateKey → List PrivateKey
stamp_first alias [] = []
stamp_first alias (k ∷ ks) = place_private_key (pkcs12_source alias 0) k ∷ ks

module _ (lib : Library) (x : FormatLibrary) where
  unfoldable pub import_certificate_bag : ℕ → Text → Block → BlockState → R BlockState
  unfolding new_certificate insert_certificate record_alias
  import_certificate_bag i alias block st = elim (x.parse_certificate block.bytes) [
    | none ↦ err Error.external
    | some cert ↦ or_panic (new_certificate lib (some cert)) >>= (λ item. ok (record st {
      store = insert_certificate (place_certificate (pkcs12_source alias i) item) st.store;
      certificate_aliases = record_alias item.id alias st.certificate_aliases;
    }))
  ]

  unfoldable pub import_key_bag : ℕ → Text → Block → BlockState → R BlockState
  unfolding parse_private_key new_private_key insert_private_key
  import_key_bag i alias block st = elim (parse_private_key x block.bytes []) [
    | none ↦ err Error.invalid_data
    | some signer ↦ or_panic (new_private_key lib (some signer)) >>= (λ item.
        let placed = place_private_key (pkcs12_source alias i) item in
        ok (record st {
          store = insert_private_key placed st.store;
          keys = st.keys ++ record { key = placed; alias = alias } ∷ [];
        }))
  ]

  unfoldable pub import_bag : ℕ → Block → BlockState → R BlockState
  unfolding trim_space text_eq import_certificate_bag import_key_bag
  import_bag i block st =
      let alias = trim_space block.friendly_name in
      if text_eq block.block_type (ascii "CERTIFICATE")
      then import_certificate_bag i alias block st
      else if text_eq block.block_type (ascii "PRIVATE KEY")
      then import_key_bag i alias block st
      else ok st

  unfoldable pub import_bags : ℕ → List Block → BlockState → R BlockState
  unfolding import_bag
  import_bags i [] st = ok st
  import_bags i (block ∷ blocks) st =
      import_bag i block st >>= (λ st'. import_bags (i + 1) blocks st')

  -- `value.key.ID[:12]` panics on a shorter identifier.
  unfoldable pub key_alias : KeyAlias → R Text
  unfolding text_eq
  key_alias v =
      if text_eq v.alias []
      then if leb 12 (length v.key.id) then ok (ascii "key-" ++ take 12 v.key.id) else panic
      else ok v.alias

  unfoldable pub add_key_entry : KeyAlias → Store → R Store
  unfolding key_alias unique_entry_alias private_key_by_id chain_for
  add_key_entry v s = do
    wanted ← key_alias v
    alias ← unique_entry_alias lib s wanted
    let entry : Entry = record {
      alias = alias;
      created_at = 0;
      private_key = private_key_by_id s v.key.id;
      private_key_status = PrivateKeyStatus.available;
      chain = chain_for lib (lib.public v.key.signer) s.certificates s.certificates;
      trusted = false;
    }
    ok (record s { entries = s.entries ++ entry ∷ [] })

  unfoldable pub add_key_entries : List KeyAlias → Store → R Store
  unfolding add_key_entry
  add_key_entries [] s = ok s
  add_key_entries (v ∷ vs) s = add_key_entry v s >>= (λ s'. add_key_entries vs s')

  unfoldable pub trusted_alias : List (Text × Text) → Certificate → Text
  unfolding alias_of text_eq default_alias
  trusted_alias m c =
      if text_eq (alias_of m c.id) [] then default_alias (some c.certificate) else alias_of m c.id

  abbrev pub trusted_entry : Text → Certificate → Entry
  trusted_entry alias c = record {
    alias = alias;
    created_at = 0;
    private_key = none;
    private_key_status = PrivateKeyStatus.unset;
    chain = c ∷ [];
    trusted = true;
  }

  unfoldable pub add_trusted_entries : List (Text × Text) → List Certificate → Store → R Store
  unfolding trusted_alias unique_entry_alias
  add_trusted_entries m [] s = ok s
  add_trusted_entries m (c ∷ cs) s = unique_entry_alias lib s (trusted_alias m c) >>= (λ alias.
      add_trusted_entries m cs (record s { entries = s.entries ++ trusted_entry alias c ∷ [] }))

  -- `if len(keys) == 0`
  unfoldable pub add_entries : BlockState → Store → R Store
  unfolding add_trusted_entries
  add_entries st s =
      if length st.keys == 0
      then add_trusted_entries st.certificate_aliases s.certificates s
      else ok s

  unfoldable pub finish_pkcs12 : Store → R Store
  finish_pkcs12 s =
      if length s.certificates == 0 && length s.private_keys == 0
      then err Error.invalid_data
      else ok s

  unfoldable pub store_from_pkcs12_blocks : List Block → R Store
  unfolding import_bags add_key_entries add_entries finish_pkcs12
  store_from_pkcs12_blocks blocks = do
    st ← import_bags 0 blocks (record { store = pkcs12_store; keys = []; certificate_aliases = [] })
    s ← add_key_entries st.keys st.store
    s' ← add_entries st s
    finish_pkcs12 s'

  -- A round of the loop over the certificates of a trust store. The chain has the new object, also
  -- where the store keeps another one with the same ID.
  unfoldable pub add_trust_item : ℕ → X509Certificate → Store → R Store
  unfolding new_certificate insert_certificate decimal
  add_trust_item i c s = or_panic (new_certificate lib (some c)) >>= (λ item.
      let placed = place_certificate (pkcs12_source [] i) item in
      let s₁ = insert_certificate placed s in
      ok (record s₁ {
        entries = s₁.entries ++ trusted_entry (ascii "certificate-" ++ decimal (i + 1)) placed ∷ [];
      }))

  unfoldable pub add_trust_store : ℕ → List X509Certificate → Store → R Store
  unfolding add_trust_item
  add_trust_store i [] s = ok s
  add_trust_store i (c ∷ cs) s = add_trust_item i c s >>= (λ s'. add_trust_store (i + 1) cs s')

  -- The same loop in openStandardPKCS12, which parses a certificate before it adds it.
  unfoldable pub add_raw_trust_store : ℕ → List (List ℕ) → Store → R Store
  unfolding add_trust_item
  add_raw_trust_store i [] s = ok s
  add_raw_trust_store i (raw ∷ raws) s = elim (x.parse_certificate raw) [
    | none ↦ err Error.external
    | some c ↦ add_trust_item i c s >>= (λ s'. add_raw_trust_store (i + 1) raws s')
  ]

  -- The objects get their sources in place; the entry's pointers are to the same objects.
  unfoldable pub stamp_entries : Store → List Entry → R (List Entry)
  unfolding canonical_certificates canonical_key
  stamp_entries s [] = ok []
  stamp_entries s (e ∷ es) = do
    chain ← canonical_certificates s e.chain
    rest ← stamp_entries s es
    ok (record e { chain = chain; private_key = canonical_key s e.private_key } ∷ rest)

  -- `store.Entries[0]` and `store.PrivateKeys[0]` panic when there is none.
  unfoldable pub stamp_objects : List Entry → Store → R Store
  unfolding stamp stamp_entries
  stamp_objects [] s = panic
  stamp_objects (e ∷ es) s =
      let s₁ = record s {
        certificates = stamp e.alias 0 s.certificates;
        private_keys = stamp_first e.alias s.private_keys;
      } in
      if length s.private_keys == 0
      then panic
      else stamp_entries s₁ s.entries >>= (λ entries. ok (record s₁ { entries = entries }))

  -- AddKeyPair with the alias that defaultAlias gives.
  unfoldable pub add_decoded : Signer → X509Certificate → List X509Certificate → R Store
  unfolding default_alias add_key_pair
  add_decoded signer leaf chain =
      add_key_pair lib (default_alias (some leaf)) (some signer) (map some (leaf ∷ chain))
        pkcs12_store

  unfoldable pub parse_raws : List (List ℕ) → R (List X509Certificate)
  parse_raws [] = ok []
  parse_raws (raw ∷ raws) = elim (x.parse_certificate raw) [
    | none ↦ err Error.external
    | some c ↦ parse_raws raws >>= (λ cs. ok (c ∷ cs))
  ]

  -- The leaf is parsed first, and names the entry.
  unfoldable pub add_decoded_raw : Signer → List X509Certificate → R Store
  unfolding add_decoded
  add_decoded_raw signer [] = panic
  add_decoded_raw signer (leaf ∷ chain) = add_decoded signer leaf chain

  unfoldable pub standard_chain : Option (ParsedKey × List ℕ × List (List ℕ)) → R Store → R Store
  unfolding parse_raws add_decoded_raw
  standard_chain none trusted = trusted
  standard_chain (some (none, leaf, chain)) trusted = err Error.invalid_data
  standard_chain (some (some signer, leaf, chain)) trusted =
      parse_raws (leaf ∷ chain) >>= (λ certs. add_decoded_raw signer certs)

  unfoldable pub standard_trust : Option (List (List ℕ)) → R Store
  unfolding add_raw_trust_store
  standard_trust none = err Error.password
  standard_trust (some raws) = add_raw_trust_store 0 raws pkcs12_store

  unfoldable pub open_standard_pkcs12 : List ℕ → List ℕ → R Store
  unfolding store_from_pkcs12_blocks standard_chain standard_trust
  open_standard_pkcs12 data_ password = elim (x.standard.to_pem data_ password) [
    | some blocks ↦ store_from_pkcs12_blocks blocks
    | none ↦
        standard_chain (x.standard.decode_chain data_ password)
          (standard_trust (x.standard.decode_trust_store data_ password))
  ]

  unfoldable pub shang_mi_chain :
      Option (ParsedKey × X509Certificate × List X509Certificate) → R Store → R Store
  unfolding add_decoded stamp_objects
  shang_mi_chain none trusted = trusted
  shang_mi_chain (some (none, leaf, chain)) trusted = err Error.invalid_data
  shang_mi_chain (some (some signer, leaf, chain)) trusted =
      add_decoded signer leaf chain >>= (λ s. stamp_objects s.entries s)

  unfoldable pub shang_mi_trust : Option (List X509Certificate) → R Store
  unfolding add_trust_store
  shang_mi_trust none = err Error.password
  shang_mi_trust (some certs) = add_trust_store 0 certs pkcs12_store

  unfoldable pub open_shang_mi_pkcs12 : List ℕ → List ℕ → R Store
  unfolding store_from_pkcs12_blocks shang_mi_chain shang_mi_trust
  open_shang_mi_pkcs12 data_ password = elim (x.shang_mi.to_pem data_ password) [
    | some blocks ↦ store_from_pkcs12_blocks blocks
    | none ↦
        shang_mi_chain (x.shang_mi.decode_chain data_ password)
          (shang_mi_trust (x.shang_mi.decode_trust_store data_ password))
  ]

  unfoldable pub open_pkcs12 : List ℕ → OpenOptions → R Opened
  unfolding password_for looks_like_shang_mi_pkcs12 open_standard_pkcs12 open_shang_mi_pkcs12
  open_pkcs12 data_ options = do
    password ←
        password_for options.password options.password_provider
          (record { format = Format.pkcs12; alias = []; purpose = PasswordPurpose.container })
    s ←
        if looks_like_shang_mi_pkcs12 data_
        then open_shang_mi_pkcs12 data_ password
        else open_standard_pkcs12 data_ password
    only_store s
