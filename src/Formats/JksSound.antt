-- ===== src/Formats/JksSound.antt =====
-- open_jks.go: the opener ends without a panic, and its store is valid and complete.
use certkit.Prelude.{◌≡◌, refl, ℕ, List, [], ◌∷◌, ◌++◌, Option, none, some, Bool, true, false}
use certkit.Prelude.{sym, subst, ◌∙◌, ◌⊎◌, not, All, inl, inr}
use certkit.Text.{Text}
use certkit.Result.{Ensures, returns, refuses, Ensures-bind, Ensures-if, Ensures-map}
use certkit.Store.Library.{Library, Signer}
use certkit.Store.Keyed.{is_some}
use certkit.Formats.Jks.{decrypt_jks_private_key}
use certkit.Open.{Opened}
use certkit.Store.Types.{Error, Certificate, Entry, Store}
use certkit.Store.Operations.{insert_private_key}
use certkit.Store.Reconcile.{OpenOptions}
use certkit.Store.Valid.{IsValid, append-IsValid}
use certkit.Store.Additions.{LongHashes, new_private_key-LongId}
use certkit.Open.Laws.{Opens, StoreHas}
use certkit.Formats.Library.{
  FormatLibrary, IsParsing, KeyStore, JksCertificate, TrustedEntry, LoadError,
}
use certkit.Formats.Keys.{place_private_key}
use certkit.Formats.Basics.{IsValid-relabel}
use certkit.Formats.PemSound.{HasValid, empty_store-IsValid}
use certkit.Formats.Jks.{import_trusted, import_key}
use certkit.Formats.Jks.{import_private_entry, import_entries, finish_jks, read_jks, open_jks}
use certkit.Formats.Jks.{Loaded, load_key_store, read_loaded}
use certkit.Formats.Jks.{jks_source, jks_store}
use certkit.Result.{Ensures-both, ◌>>=◌}
use certkit.Prelude.{arith}
use certkit.Formats.JksImports.{
  IsUnlocked, still_loaded, import_chain-IsChain, import_certificate-IsImported,
  parse_jks_certificate-HasRaw,
}
use certkit.Formats.JksImports.{
  import_trusted-AddsTrusted, import_private_entry-AddsEntries, import_entries-AddsEntries,
}
use certkit.Formats.JksImports.{insert_private_key-finds}

-- An entry of the alias has a private key.
abbrev pub HasKey : List Entry → Text → Type 0
HasKey [] a = ⊥
HasKey (e ∷ es) a = ((e.alias ≡ a) × (is_some e.private_key ≡ true)) ⊎ HasKey es a

HasKey-append : (a : Text) (es fs : List Entry) → HasKey es a → HasKey (es ++ fs) a
HasKey-append a [] fs h = elim h [ ]
HasKey-append a (e ∷ es) fs (inl h) = inl h
HasKey-append a (e ∷ es) fs (inr h) = inr (HasKey-append a es fs h)

HasKey-snoc :
    (a : Text) (es : List Entry) (e : Entry)
    → e.alias ≡ a
    → is_some e.private_key ≡ true
    → HasKey (es ++ e ∷ []) a
HasKey-snoc a [] e p q = inl (p, q)
HasKey-snoc a (e' ∷ es) e p q = inr (HasKey-snoc a es e p q)

-- What openJKS takes for a private key entry has an entry with the key.
abbrev pub HasOwnKey : KeyStore → List Entry → Text → Type 0
HasOwnKey ks es a =
    ks.is_trusted_certificate_entry a ≡ false → ks.is_private_key_entry a ≡ true → HasKey es a

module _ (lib : Library) (x : FormatLibrary) (hashes : LongHashes lib)
    (laws : IsParsing lib x) where
  -- The entries with a private key are kept.
  abbrev Keeps : Store → Store → Type 0
  Keeps s s' = (a : Text) → HasKey s.entries a → HasKey s'.entries a

  -- The entries are kept, and the alias has a private key if all could be read.
  abbrev Reads : Text → Store → Store × Bool → Type 0
  Reads alias s r = Keeps s r.0 × (r.1 ≡ true → HasKey r.0.entries alias)

  import_trusted-Keeps :
      (alias : Text) (entry : Option TrustedEntry) (s : Store)
      → IsValid s
      → Ensures (Keeps s) (import_trusted lib x alias entry s)
  unfolding import_trusted
  import_trusted-Keeps alias none s v = refuses
  import_trusted-Keeps alias (some entry) s v =
      Ensures-bind (parse_jks_certificate-HasRaw lib x hashes laws entry.certificate) λ c h.
        Ensures-bind (import_certificate-IsImported lib x hashes laws (jks_source alias 0) c s h v)
          λ r (l, (w, g, p, e)).
            returns λ a k. HasKey-append a r.1.entries _ (subst (λ es. HasKey es a) (sym e) k)

  import_key-Reads :
      (alias : Text) (chain : List Certificate) (key : Option Signer) (s : Store)
      → Ensures (Reads alias s) (import_key lib x alias chain key s)
  unfolding import_key insert_private_key
  import_key-Reads alias chain none s =
      returns ((λ a k. HasKey-append a s.entries _ k), (λ e. cc e))
  import_key-Reads alias chain (some key) s =
      Ensures-bind (new_private_key-LongId lib hashes (some key)) λ item long.
        let placed = place_private_key (jks_source alias 0) item in
        returns (
          (λ a k. HasKey-append a s.entries _ k),
          (λ e. HasKey-snoc alias s.entries _ refl (insert_private_key-finds placed s)),
        )

  import_private_entry-Reads :
      (ks : KeyStore) (selected : Option (List ℕ)) (options : OpenOptions) (alias : Text)
      (raws : Option (List JksCertificate)) (s : Store) (loaded : Bool)
      → IsValid s
      → Ensures (Reads alias s) (import_private_entry lib x ks selected options alias raws s loaded)
  unfolding import_private_entry
  import_private_entry-Reads ks selected options alias none s loaded v = refuses
  import_private_entry-Reads ks selected options alias (some raws) s false v =
      Ensures-bind (import_chain-IsChain lib x hashes laws alias 0 raws s v) λ r (l, (w, g, p, e)).
        returns (
          (λ a k. HasKey-append a r.1.entries _ (subst (λ es. HasKey es a) (sym e) k)),
          (λ q. cc q),
        )
  import_private_entry-Reads ks selected options alias (some raws) s true v =
      Ensures-bind (import_chain-IsChain lib x hashes laws alias 0 raws s v) λ r (l, (w, g, p, e)).
        Ensures-map (import_key-Reads alias r.0 _ r.1)
          λ q (k, h). ((λ a n. k a (subst (λ es. HasKey es a) (sym e) n)), h)

  -- Without an error, every alias of a private key has an entry with it.
  import_entries-Reads :
      (ks : KeyStore) (selected : Option (List ℕ)) (options : OpenOptions) (aliases : List Text)
      (s : Store) (loaded : Bool)
      → IsValid s
      → Ensures
          (λ r. Keeps s r.0 × (r.1 ≡ true → All (HasOwnKey ks r.0.entries) aliases))
          (import_entries lib x ks selected options aliases s loaded)
  unfolding import_entries
  import_entries-Reads ks selected options [] s loaded v = returns ((λ a k. k), (λ e. tt))
  import_entries-Reads ks selected options (alias ∷ aliases) s loaded v =
      Ensures-if (ks.is_trusted_certificate_entry alias)
        (λ q.
          Ensures-bind
            (Ensures-both
              (import_trusted-AddsTrusted lib x hashes laws alias
                (ks.get_trusted_certificate_entry alias) s v)
              (import_trusted-Keeps alias (ks.get_trusted_certificate_entry alias) s v))
            λ s' ((w, p, u), k).
              Ensures-map (import_entries-Reads ks selected options aliases s' loaded w)
                λ r (k', n). ((λ a h. k' a (k a h)), (λ e. ((λ t o. cc (q, t)), n e))))
        λ q.
          Ensures-if (not (ks.is_private_key_entry alias))
            (λ p.
              Ensures-map (import_entries-Reads ks selected options aliases s loaded v)
                λ r (k', n). (k', (λ e. ((λ t o. absurd (ground (arith, p, o))), n e))))
            λ p.
              Ensures-bind
                (Ensures-both
                  (import_private_entry-AddsEntries lib x hashes laws ks selected options alias _ s
                    loaded v)
                  (import_private_entry-Reads ks selected options alias _ s loaded v))
                λ r ((w, k, u), (kept, own)).
                  Ensures-map
                    (Ensures-both
                      (import_entries-AddsEntries lib x hashes laws ks selected options aliases r.0
                        r.1 w)
                      (import_entries-Reads ks selected options aliases r.0 r.1 w))
                    λ r' ((w', k', u'), (kept', n)). (
                      (λ a h. kept' a (kept a h)),
                      λ e. (
                        (λ t o. kept' alias (own (still_loaded r.1 r'.1 (λ f. (k' f).0) e))),
                        n e,
                      ),
                    )

  -- The outcome: no error, no locked entry, and a key for each that the key store has, or
  -- ErrPassword, with a valid store.
  abbrev pub IsComplete : KeyStore → Opened → Type 0
  IsComplete ks r =
      (s : Store) × (r.store ≡ some s)
      × IsValid s
      × (((r.error ≡ none) × All IsUnlocked s.entries × All (HasOwnKey ks s.entries) ks.aliases)
          ⊎ (r.error ≡ some Error.password))

  finish_jks-IsComplete :
      (ks : KeyStore) (s : Store) (loaded : Bool)
      → IsValid s
      → (loaded ≡ true → All IsUnlocked s.entries)
      → (loaded ≡ true → All (HasOwnKey ks s.entries) ks.aliases)
      → Ensures (IsComplete ks) (finish_jks lib x (s, loaded))
  unfolding finish_jks
  finish_jks-IsComplete ks s true v u h = returns (s, refl, v, inl (refl, u refl, h refl))
  finish_jks-IsComplete ks s false v u h =
      returns (_, refl, IsValid-relabel s s.source _ v, inr refl)

  entries-IsComplete :
      (ks : KeyStore) (selected : Option (List ℕ)) (options : OpenOptions) (s : Store)
      (loaded : Bool)
      → IsValid s
      → All IsUnlocked s.entries
      → Ensures
          (IsComplete ks)
          (import_entries lib x ks selected options ks.aliases s loaded >>= finish_jks lib x)
  entries-IsComplete ks selected options s loaded v none_locked =
      Ensures-bind
        (Ensures-both
          (import_entries-AddsEntries lib x hashes laws ks selected options ks.aliases s loaded v)
          (import_entries-Reads ks selected options ks.aliases s loaded v))
        λ r ((w, k, u), (kept, n)). finish_jks-IsComplete ks r.0 r.1 w (λ e. u e none_locked) n

  read_jks-IsComplete :
      (options : OpenOptions) (ks : KeyStore) (selected : Option (List ℕ)) (e : Option LoadError)
      → Ensures (IsComplete ks) (read_jks lib x options ks selected e)
  unfolding read_jks
  read_jks-IsComplete options ks selected none =
      entries-IsComplete ks selected options (jks_store lib x true) true (empty_store-IsValid _ _)
        tt
  read_jks-IsComplete options ks selected (some LoadError.invalid_digest) =
      entries-IsComplete ks selected options (jks_store lib x false) false
        (IsValid-relabel (jks_store lib x true) _ [] (empty_store-IsValid _ _)) tt
  read_jks-IsComplete options ks selected (some LoadError.other_error) = refuses

  read_loaded-IsComplete :
      (options : OpenOptions) (l : Loaded)
      → Ensures (IsComplete l.key_store) (read_loaded lib x options l)
  unfolding read_loaded
  read_loaded-IsComplete options l = read_jks-IsComplete options l.key_store l.selected l.load_error

  -- openJKS ends without a panic, and returns no store with an error, or a valid store. With the
  -- store the error is nil, no entry's private key is unavailable, every entry whose key is marked
  -- available has one, which the store owns, and every private key entry of the key store that was
  -- loaded has an entry of its alias with a private key; or the error is ErrPassword. The hash returns
  -- bytes enough for an identifier, and the parsers are as IsParsing says.
  pub open_jks-IsComplete :
      (data_ : List ℕ) (options : OpenOptions)
      → Ensures
          (IsComplete (load_key_store lib x data_ options).key_store)
          (open_jks lib x data_ options)
  unfolding open_jks
  open_jks-IsComplete data_ options =
      read_loaded-IsComplete options (load_key_store lib x data_ options)

  some-HasValid : (ks : KeyStore) (r : Opened) → IsComplete ks r → HasValid r
  some-HasValid ks r (s, e, v, _) = subst (StoreHas IsValid) (sym e) v

  pub open_jks-HasValid : Opens (open_jks lib x)
  open_jks-HasValid data_ options b =
      Ensures-map (open_jks-IsComplete data_ options)
        (some-HasValid (load_key_store lib x data_ options).key_store)

  -- No later key is imported without `loaded`.
  import_entries-unloaded :
      (ks : KeyStore) (selected : Option (List ℕ)) (options : OpenOptions) (aliases : List Text)
      (s : Store)
      → IsValid s
      → Ensures
          (λ r. IsValid r.0 × (r.1 ≡ false) × (r.0.private_keys ≡ s.private_keys))
          (import_entries lib x ks selected options aliases s false)
  import_entries-unloaded ks selected options aliases s v =
      Ensures-map
        (import_entries-AddsEntries lib x hashes laws ks selected options aliases s false v)
        λ r (w, k, u). (w, (k refl).0, (k refl).1)

  import_private_entry-refused :
      (ks : KeyStore) (selected : Option (List ℕ)) (options : OpenOptions) (alias : Text)
      (raws : Option (List JksCertificate)) (s : Store)
      → IsValid s
      → decrypt_jks_private_key lib x ks alias selected options ≡ none
      → Ensures
          (λ r. IsValid r.0 × (r.1 ≡ false) × (r.0.private_keys ≡ s.private_keys))
          (import_private_entry lib x ks selected options alias raws s true)
  unfolding import_private_entry import_key
  import_private_entry-refused ks selected options alias none s v n = refuses
  import_private_entry-refused ks selected options alias (some raws) s v n =
      Ensures-bind (import_chain-IsChain lib x hashes laws alias 0 raws s v) λ r (l, (w, g, p, e)).
        rw n (returns (append-IsValid _ _ (IsValid-relabel r.1 r.1.source _ w) (l, tt), refl, p))

  -- When the private key of an alias could not be read with any of its passwords, no private key of a
  -- later alias is imported, whatever its password, and the key store counts as not read; the store
  -- stays valid. The hash returns bytes enough for an identifier, and the parsers are as IsParsing
  -- says.
  pub import_entries-locked :
      (ks : KeyStore) (selected : Option (List ℕ)) (options : OpenOptions) (alias : Text)
      (aliases : List Text) (s : Store)
      → IsValid s
      → ks.is_trusted_certificate_entry alias ≡ false
      → ks.is_private_key_entry alias ≡ true
      → decrypt_jks_private_key lib x ks alias selected options ≡ none
      → Ensures
          (λ r. IsValid r.0 × (r.1 ≡ false) × (r.0.private_keys ≡ s.private_keys))
          (import_entries lib x ks selected options (alias ∷ aliases) s true)
  unfolding import_entries
  import_entries-locked ks selected options alias aliases s v t p n =
      rw (t, p)
        (Ensures-bind
          (import_private_entry-refused ks selected options alias
            (ks.get_private_key_entry_certificate_chain alias) s v n)
          λ r (w, q, same). rw q (
            Ensures-map (import_entries-unloaded ks selected options aliases r.0 w)
              λ r' (w', q', same'). (w', q', same' ∙ same)))
