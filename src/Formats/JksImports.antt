-- ===== src/Formats/JksImports.antt =====
-- open_jks.go: what the imports of certificates, keys and entries do to a valid store.
use certkit.Prelude.{◌≡◌, refl, ℕ, ◌+◌, List, [], ◌∷◌, ◌++◌, Option, none, some, Bool, true, false}
use certkit.Prelude.{sym, subst, ◌∙◌, All-append, not, ◌&&◌, All, Option-cases, inl, inr}
use certkit.Text.{Text, equal_fold, ascii}
use certkit.Result.{Ensures, returns, refuses, Ensures-bind, Ensures-if, Ensures-map}
use certkit.Store.Library.{Library, X509Certificate, Signer}
use certkit.Encode.{is_unavailable}
use certkit.Encode.EntryPem.{is_available}
use certkit.Store.Keyed.{is_some}
use certkit.Store.Types.{PrivateKey}
use certkit.Store.Operations.{private_key_id}
use certkit.Prelude.{ap}
use certkit.Store.Types.{Certificate, Entry, Store, SourceRef}
use certkit.Store.Keyed.{Extends, find_by-IsFound, insert_by-Extends, insert_by-finds}
use certkit.Store.Operations.{certificate_id, insert_certificate, insert_private_key}
use certkit.Store.Operations.{certificate_by_id, private_key_by_id}
use certkit.Store.Reconcile.{OpenOptions}
use certkit.Store.Linked.{Linked, private_key_by_id-KeyLinked}
use certkit.Store.Valid.{
  IsValid, refl-Extends, append-IsValid, insert_certificate-IsValid, insert_private_key-IsValid,
}
use certkit.Store.Additions.{LongHashes, new_private_key-LongId}
use certkit.Formats.Library.{
  FormatLibrary, IsParsing, HasRaw, KeyStore, JksCertificate, TrustedEntry,
}
use certkit.Formats.Keys.{place_certificate, place_private_key}
use certkit.Formats.Basics.{IsValid-relabel, new_certificate-returns, certificate_item}
use certkit.Formats.Jks.{
  parse_jks_certificate, import_certificate, import_chain, import_trusted, import_key,
  jks_trusted_entry, unlocked_entry,
}
use certkit.Formats.Jks.{import_private_entry, import_entries}
use certkit.Formats.Jks.{jks_source}

-- A step from `s` that adds certificates.
abbrev pub Grows : Store → Store → Type 0
Grows s s' =
    IsValid s'
    × Extends certificate_id s.certificates s'.certificates
    × (s'.private_keys ≡ s.private_keys)
    × (s'.entries ≡ s.entries)

abbrev pub IsImported : Store → Certificate × Store → Type 0
IsImported s r = Linked r.1.certificates r.0 × Grows s r.1

abbrev pub IsChain : Store → List Certificate × Store → Type 0
IsChain s r = All (Linked r.1.certificates) r.0 × Grows s r.1

insert_certificate-finds :
    (c : Certificate) (s : Store)
    → (y : Certificate) × (certificate_by_id (insert_certificate c s) c.id ≡ some y)
unfolding insert_certificate certificate_by_id
insert_certificate-finds c s = insert_by-finds certificate_id c s.certificates

insert_certificate-Extends :
    (c : Certificate) (s : Store)
    → Extends certificate_id s.certificates (insert_certificate c s).certificates
unfolding insert_certificate
insert_certificate-Extends c s = insert_by-Extends certificate_id c s.certificates

private_keys-insert_certificate :
    (c : Certificate) (s : Store) → (insert_certificate c s).private_keys ≡ s.private_keys
unfolding insert_certificate
private_keys-insert_certificate c s = refl

entries-insert_certificate :
    (c : Certificate) (s : Store) → (insert_certificate c s).entries ≡ s.entries
unfolding insert_certificate
entries-insert_certificate c s = refl

pub insert_private_key-finds :
    (k : PrivateKey) (s : Store) → is_some (private_key_by_id (insert_private_key k s) k.id) ≡ true
unfolding insert_private_key private_key_by_id
insert_private_key-finds k s =
    let (y, e) = insert_by-finds private_key_id k s.private_keys in ap is_some e

certificate_by_id-Linked :
    (id : Text) (s : Store) (y : Certificate)
    → certificate_by_id s id ≡ some y
    → Linked s.certificates y
unfolding certificate_by_id
certificate_by_id-Linked id s y e = find_by-IsFound certificate_id id s.certificates y e

-- The entry's private key is not marked unavailable, and one that is marked available is there.
abbrev pub IsUnlocked : Entry → Type 0
IsUnlocked e =
    (is_unavailable e.private_key_status ≡ false)
    × (is_available e.private_key_status ≡ true → is_some e.private_key ≡ true)

IsUnlocked-append :
    (es fs : List Entry) (e : Entry)
    → es ≡ fs
    → All IsUnlocked fs
    → IsUnlocked e
    → All IsUnlocked (es ++ e ∷ [])
IsUnlocked-append es fs e q u n =
    All-append IsUnlocked es (e ∷ []) (subst (All IsUnlocked) (sym q) u) (n, tt)

pub still_loaded : (a b : Bool) → (a ≡ false → b ≡ false) → b ≡ true → a ≡ true
still_loaded true b h e = refl
still_loaded false b h e = cc (h refl)

module _ (lib : Library) (x : FormatLibrary) (hashes : LongHashes lib)
    (laws : IsParsing lib x) where
  pub parse_jks_certificate-HasRaw :
      (raw : JksCertificate) → Ensures HasRaw (parse_jks_certificate lib x raw)
  unfolding parse_jks_certificate
  parse_jks_certificate-HasRaw raw =
      Ensures-if
        (not (equal_fold lib.fold raw.certificate_type (ascii "X509"))
          && not (equal_fold lib.fold raw.certificate_type (ascii "X.509")))
        (λ q. refuses)
        λ q. elim (Option-cases (x.parse_certificate raw.content)) [
          | inl n ↦ rw (n, parse_jks_certificate) refuses
          | inr (c, e) ↦
              rw (e, parse_jks_certificate) (returns (laws.certificate_raw raw.content c e))
        ]

  pub import_certificate-IsImported :
      (source : SourceRef) (c : X509Certificate) (s : Store)
      → HasRaw c
      → IsValid s
      → Ensures (IsImported s) (import_certificate lib x source c s)
  unfolding import_certificate
  import_certificate-IsImported source c s h v =
      let placed = place_certificate source (certificate_item lib c) in
      let (y, e) = insert_certificate-finds placed s in
      let s₁ = insert_certificate placed s in
      rw (new_certificate-returns lib c h, e)
        (returns (
          certificate_by_id-Linked placed.id s₁ y e,
          (
            insert_certificate-IsValid placed s v,
            insert_certificate-Extends placed s,
            private_keys-insert_certificate placed s,
            entries-insert_certificate placed s,
          ),
        ))

  pub import_chain-IsChain :
      (alias : Text) (i : ℕ) (raws : List JksCertificate) (s : Store)
      → IsValid s
      → Ensures (IsChain s) (import_chain lib x alias i raws s)
  unfolding import_chain
  import_chain-IsChain alias i [] s v =
      returns (tt, (v, refl-Extends certificate_id s.certificates, refl, refl))
  import_chain-IsChain alias i (raw ∷ raws) s v =
      Ensures-bind (parse_jks_certificate-HasRaw raw) λ c h.
        Ensures-bind (import_certificate-IsImported (jks_source alias i) c s h v)
          λ r (l, (w, g, p, e)).
            Ensures-bind (import_chain-IsChain alias (i + 1) raws r.1 w) λ q (ls, (u, k, p', e')).
              returns ((k r.0.id r.0 l, ls), (u, λ id y f. k id y (g id y f), p' ∙ p, e' ∙ e))

  -- A trusted entry is added: the keys are the same, and no entry gets locked.
  abbrev pub AddsTrusted : Store → Store → Type 0
  AddsTrusted s s' =
      IsValid s'
      × (s'.private_keys ≡ s.private_keys)
      × (All IsUnlocked s.entries → All IsUnlocked s'.entries)

  pub import_trusted-AddsTrusted :
      (alias : Text) (entry : Option TrustedEntry) (s : Store)
      → IsValid s
      → Ensures (AddsTrusted s) (import_trusted lib x alias entry s)
  unfolding import_trusted is_unavailable is_available
  import_trusted-AddsTrusted alias none s v = refuses
  import_trusted-AddsTrusted alias (some entry) s v =
      Ensures-bind (parse_jks_certificate-HasRaw entry.certificate) λ c h.
        Ensures-bind (import_certificate-IsImported (jks_source alias 0) c s h v)
          λ r (l, (w, g, p, e)). returns (
            append-IsValid r.1 _ w ((l, tt), tt),
            p,
            λ u.
                IsUnlocked-append r.1.entries s.entries
                  (jks_trusted_entry lib x alias entry.creation_time r.0) e u (refl, λ q. cc q),
          )

  -- One more entry or many: without `loaded` no key is imported, and if every key could be read the
  -- entries are unlocked as before.
  abbrev pub AddsEntries : Store → Bool → Store × Bool → Type 0
  AddsEntries s loaded r =
      IsValid r.0
      × (loaded ≡ false → (r.1 ≡ false) × (r.0.private_keys ≡ s.private_keys))
      × (r.1 ≡ true → All IsUnlocked s.entries → All IsUnlocked r.0.entries)

  import_key-AddsEntries :
      (alias : Text) (chain : List Certificate) (key : Option Signer) (s : Store)
      → All (Linked s.certificates) chain
      → IsValid s
      → Ensures (AddsEntries s true) (import_key lib x alias chain key s)
  unfolding import_key insert_private_key is_unavailable is_available
  import_key-AddsEntries alias chain none s l v =
      returns
        (append-IsValid _ _ (IsValid-relabel s s.source _ v) (l, tt), (λ e. cc e), (λ e. cc e))
  import_key-AddsEntries alias chain (some key) s l v =
      Ensures-bind (new_private_key-LongId lib hashes (some key)) λ item long.
        let placed = place_private_key (jks_source alias 0) item in
        let s₁ = insert_private_key placed s in
        returns (
          append-IsValid s₁ _ (insert_private_key-IsValid placed s long v)
              (l, private_key_by_id-KeyLinked s₁ item.id),
          (λ e. cc e),
          λ e u.
              IsUnlocked-append s.entries s.entries
                (unlocked_entry lib x alias chain (private_key_by_id s₁ item.id)) refl u
                (refl, λ q. insert_private_key-finds placed s),
        )

  pub import_private_entry-AddsEntries :
      (ks : KeyStore) (selected : Option (List ℕ)) (options : OpenOptions) (alias : Text)
      (raws : Option (List JksCertificate)) (s : Store) (loaded : Bool)
      → IsValid s
      → Ensures
          (AddsEntries s loaded)
          (import_private_entry lib x ks selected options alias raws s loaded)
  unfolding import_private_entry
  import_private_entry-AddsEntries ks selected options alias none s loaded v = refuses
  import_private_entry-AddsEntries ks selected options alias (some raws) s false v =
      Ensures-bind (import_chain-IsChain alias 0 raws s v) λ r (l, (w, g, p, e)).
        returns (append-IsValid r.1 _ w (l, tt), (λ q. (refl, p)), (λ q. cc q))
  import_private_entry-AddsEntries ks selected options alias (some raws) s true v =
      Ensures-bind (import_chain-IsChain alias 0 raws s v) λ r (l, (w, g, p, e)).
        Ensures-map (import_key-AddsEntries alias r.0 _ r.1 l w)
          λ q (w', k, u). (w', (λ f. cc f), λ f n. u f (subst (All IsUnlocked) (sym e) n))

  pub import_entries-AddsEntries :
      (ks : KeyStore) (selected : Option (List ℕ)) (options : OpenOptions) (aliases : List Text)
      (s : Store) (loaded : Bool)
      → IsValid s
      → Ensures (AddsEntries s loaded) (import_entries lib x ks selected options aliases s loaded)
  unfolding import_entries
  import_entries-AddsEntries ks selected options [] s loaded v =
      returns (v, (λ e. (e, refl)), λ e u. u)
  import_entries-AddsEntries ks selected options (alias ∷ aliases) s loaded v =
      Ensures-if (ks.is_trusted_certificate_entry alias)
        (λ q.
          Ensures-bind
            (import_trusted-AddsTrusted alias (ks.get_trusted_certificate_entry alias) s v)
            λ s' (w, p, u).
              Ensures-map (import_entries-AddsEntries ks selected options aliases s' loaded w)
                λ r (w', k, u'). (w', (λ e. ((k e).0, (k e).1 ∙ p)), λ e n. u' e (u n)))
        λ q.
          Ensures-if (not (ks.is_private_key_entry alias))
            (λ p. import_entries-AddsEntries ks selected options aliases s loaded v)
            λ p.
              Ensures-bind (import_private_entry-AddsEntries ks selected options alias _ s loaded v)
                λ r (w, k, u).
                  Ensures-map (import_entries-AddsEntries ks selected options aliases r.0 r.1 w)
                    λ r' (w', k', u'). (
                      w',
                      (λ e. ((k' (k e).0).0, (k' (k e).0).1 ∙ (k e).1)),
                      λ e n. u' e (u (still_loaded r.1 r'.1 (λ f. (k' f).0) e) n),
                    )
