-- ===== src/Store/Additions.antt =====
-- AddCertificate, AddPrivateKey, AddKeyPair, AddTrustedCertificate and AddEntry keep a valid store
-- valid and do not panic.
use certkit.Prelude.{◌≡◌, refl, ℕ, List, [], ◌∷◌, ◌++◌, Option, none, some, true, false, not}
use certkit.Prelude.{leb, ltb, length, All, Bool-cases, Option-cases, inl, inr, tests}
use certkit.Text.{Text, trim_space, text_eq, length-hex}
use certkit.Result.{ok, ◌>>=◌, Ensures, returns, refuses, Ensures-bind, Ensures-guard}
use certkit.Store.Library.{Library, X509Certificate, Signer}
use certkit.Store.Types.{Error, R, Certificate, PrivateKey, PrivateKeyStatus, Entry, Store}
use certkit.Store.Keyed.{is_some, insert_by-finds, insert_all-IsKnown}
use certkit.Store.Operations.{
  certificate_id, insert_certificate, insert_certificates, insert_private_key,
}
use certkit.Store.Operations.{new_certificate, new_certificates, new_private_key, matches_chain}
use certkit.Store.Operations.{entry_by_alias, add_key_pair, add_trusted_certificate, add_entry}
use certkit.Store.Operations.{
  canonical_certificates, canonical_key, insert_entry_key, entry_matches,
}
use certkit.Store.Operations.{private_key_by_id}
use certkit.Store.Reconcile.{add_certificate, add_private_key, reconcile_entries}
use certkit.Store.Linked.{Linked, EntryLinked, canonical_certificates-Linked, canonical_key-Linked}
use certkit.Store.Linked.{private_key_by_id-KeyLinked}
use certkit.Store.Valid.{IsValid, LongId, append-IsValid, insert_certificate-IsValid}
use certkit.Store.Valid.{insert_certificates-IsValid, insert_private_key-IsValid}
use certkit.Store.Valid.{reconcile_entries-IsValid}

-- The run returns and `P` holds of its value.
pub Ensures-ok≡ {ℓ} : {A : Type 0} {P : A → Type ℓ} {r : R A} {a : A} → r ≡ ok a → P a → Ensures P r
Ensures-ok≡ e h = rw e (returns h)

-- The hash returns bytes enough for an identifier.
abbrev pub LongHashes : Library → Type 0
LongHashes lib = (d : List ℕ) → leb 6 (length (lib.sha256 d)) ≡ true

abbrev pub LongKey : Option PrivateKey → Type 0
LongKey none = Unit
LongKey (some k) = LongId k

abbrev pub Anything {ℓ} : {A : Type ℓ} → A → Type 0
Anything a = Unit

pub add_entry-none {ℓ} :
    {P : Store → Type ℓ} (lib : Library) (s : Store) → Ensures P (add_entry lib none s)
unfolding add_entry
add_entry-none lib s = refuses

module _ (lib : Library) (hashes : LongHashes lib) where
  pub new_private_key-LongId : (key : Option Signer) → Ensures LongId (new_private_key lib key)
  unfolding new_private_key
  new_private_key-LongId none = refuses
  new_private_key-LongId (some key) = elim (Option-cases (lib.marshal_pkix (lib.public key))) [
    | inl n ↦ rw (n, new_private_key) refuses
    | inr (der, e) ↦
        rw (e, new_private_key) (returns (grind (tests, length-hex (lib.sha256 der), hashes der)))
  ]

  pub new_certificate-total :
      (c : Option X509Certificate) → Ensures Anything (new_certificate lib c)
  unfolding new_certificate
  new_certificate-total none = refuses
  new_certificate-total (some c) = elim (Bool-cases (ltb 0 (length c.raw))) [
    | inl b ↦ rw b (returns tt)
    | inr b ↦ rw b refuses
  ]

  pub new_certificates-total :
      (cs : List (Option X509Certificate)) → Ensures Anything (new_certificates lib cs)
  unfolding new_certificates
  new_certificates-total [] = returns tt
  new_certificates-total (c ∷ cs) =
      Ensures-bind (new_certificate-total c)
        λ item u. Ensures-bind (new_certificates-total cs) λ items w. returns tt

  reconcile_entries-keeps : (s : Store) → IsValid s → Ensures IsValid (reconcile_entries lib s)
  reconcile_entries-keeps s v =
      let (s', e, w) = reconcile_entries-IsValid lib s v in Ensures-ok≡ e w

  pub add_certificate-IsValid :
      (cert : Option X509Certificate) (s : Store)
      → IsValid s
      → Ensures IsValid (add_certificate lib cert s)
  unfolding add_certificate
  add_certificate-IsValid cert s v =
      Ensures-bind (new_certificate-total cert)
        λ c u. reconcile_entries-keeps (insert_certificate c s) (insert_certificate-IsValid c s v)

  pub add_private_key-IsValid :
      (key : Option Signer) (s : Store) → IsValid s → Ensures IsValid (add_private_key lib key s)
  unfolding add_private_key
  add_private_key-IsValid key s v =
      Ensures-bind (new_private_key-LongId key)
        λ k l. reconcile_entries-keeps (insert_private_key k s) (insert_private_key-IsValid k s l v)

  -- The end of the three methods that append an entry: `s` has its certificates and its key.
  append_entry-IsValid :
      (s : Store) (items : List Certificate) (entry : List Certificate → Entry)
      → IsValid s
      → ((chain : List Certificate)
          → All (Linked s.certificates) chain
          → EntryLinked s.certificates s.private_keys (entry chain))
      → (chain : List Certificate) × (canonical_certificates s items ≡ ok chain)
        × All (Linked s.certificates) chain
      → Ensures IsValid (
          canonical_certificates s items
          >>= (λ chain. ok (record s { entries = s.entries ++ entry chain ∷ [] })))
  append_entry-IsValid s items entry v link (chain, e, l) =
      rw e (returns (append-IsValid s (entry chain) v (link chain l)))

  pub add_key_pair-IsValid :
      (alias : Text) (key : Option Signer) (certs : List (Option X509Certificate)) (s : Store)
      → IsValid s
      → Ensures IsValid (add_key_pair lib alias key certs s)
  unfolding add_key_pair insert_private_key insert_certificates
  add_key_pair-IsValid alias key certs s v =
      Ensures-guard (not (text_eq (trim_space alias) [])) Error.invalid_data λ g.
        Ensures-guard (not (is_some (entry_by_alias lib s (trim_space alias)))) Error.alias_conflict
          λ h. Ensures-bind (new_private_key-LongId key) λ k l.
            Ensures-bind (new_certificates-total certs) λ cs u.
              Ensures-guard (matches_chain lib k.signer cs) Error.key_mismatch λ m.
                let s₁ = insert_private_key k (insert_certificates cs s) in
                append_entry-IsValid s₁ cs
                  (λ chain. record {
                    alias = trim_space alias;
                    created_at = 0;
                    private_key = private_key_by_id s₁ k.id;
                    private_key_status = PrivateKeyStatus.available;
                    chain = chain;
                    trusted = false;
                  })
                  (insert_private_key-IsValid k (insert_certificates cs s) l
                    (insert_certificates-IsValid cs s v))
                  (λ chain c. (c, private_key_by_id-KeyLinked s₁ k.id))
                  (canonical_certificates-Linked s₁ cs
                    (insert_all-IsKnown certificate_id cs s.certificates))

  pub add_trusted_certificate-IsValid :
      (alias : Text) (cert : Option X509Certificate) (s : Store)
      → IsValid s
      → Ensures IsValid (add_trusted_certificate lib alias cert s)
  unfolding add_trusted_certificate insert_certificate
  add_trusted_certificate-IsValid alias cert s v =
      Ensures-guard (not (text_eq (trim_space alias) [])) Error.invalid_data λ g.
        Ensures-guard (not (is_some (entry_by_alias lib s (trim_space alias)))) Error.alias_conflict
          λ h. Ensures-bind (new_certificate-total cert) λ item u.
            let s₁ = insert_certificate item s in
            append_entry-IsValid s₁ (item ∷ [])
              (λ chain. record {
                alias = trim_space alias;
                created_at = 0;
                private_key = none;
                private_key_status = PrivateKeyStatus.unset;
                chain = chain;
                trusted = true;
              })
              (insert_certificate-IsValid item s v) (λ chain c. (c, tt))
              (canonical_certificates-Linked s₁ (item ∷ [])
                (insert_by-finds certificate_id item s.certificates, tt))

  insert_entry_key-IsValid :
      (k : Option PrivateKey) (s : Store) → LongKey k → IsValid s → IsValid (insert_entry_key k s)
  unfolding insert_entry_key
  insert_entry_key-IsValid none s l v = v
  insert_entry_key-IsValid (some k) s l v = insert_private_key-IsValid k s l v

  certificates-insert_entry_key :
      (k : Option PrivateKey) (s : Store) → (insert_entry_key k s).certificates ≡ s.certificates
  unfolding insert_entry_key insert_private_key
  certificates-insert_entry_key none s = refl
  certificates-insert_entry_key (some k) s = refl

  pub add_entry-IsValid :
      (e : Entry) (s : Store)
      → LongKey e.private_key
      → IsValid s
      → Ensures IsValid (add_entry lib (some e) s)
  unfolding add_entry insert_certificates
  add_entry-IsValid e s l v =
      Ensures-guard (not (text_eq (trim_space e.alias) [])) Error.invalid_data λ g.
        Ensures-guard (not (is_some (entry_by_alias lib s e.alias))) Error.alias_conflict λ h.
          Ensures-guard (entry_matches lib e) Error.key_mismatch λ m.
            let s₁ = insert_certificates e.chain s in
            let s₂ = insert_entry_key e.private_key s₁ in
            append_entry-IsValid s₂ e.chain
              (λ chain. record e { private_key = canonical_key s₂ e.private_key; chain = chain })
              (insert_entry_key-IsValid e.private_key s₁ l
                (insert_certificates-IsValid e.chain s v))
              (λ chain c. (c, canonical_key-Linked s₂ e.private_key))
              (canonical_certificates-Linked s₂ e.chain (
                rw (certificates-insert_entry_key e.private_key s₁)
                  (insert_all-IsKnown certificate_id e.chain s.certificates)))
