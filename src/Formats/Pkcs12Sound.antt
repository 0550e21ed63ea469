-- ===== src/Formats/Pkcs12Sound.antt =====
-- open_pkcs12.go: the opener ends without a panic, and its store is valid.
use certkit.Prelude.{◌≡◌, refl, ℕ, ◌+◌, ◌==◌, List, [], ◌∷◌, ◌++◌, Option, none, some}
use certkit.Prelude.{false, not, length, map, All, Bool-cases, Option-cases, inl, inr, arith}
use certkit.Prelude.{suc}
use certkit.Text.{Text, text_eq, trim_space}
use certkit.Result.{
  Ensures, returns, refuses, Ensures-bind, Ensures-if, Ensures-guard, Ensures-map, Ensures-both,
}
use certkit.Store.Library.{Library, X509Certificate, Signer}
use certkit.Store.Types.{Error, R, Certificate, PrivateKey, Entry, Store}
use certkit.Store.Keyed.{find_by, IsDistinct, IsKnown, is_some, insert_all-IsKnown}
use certkit.Store.Operations.{certificate_id, private_key_id}
use certkit.Store.Operations.{insert_certificates, insert_private_key}
use certkit.Store.Operations.{entry_by_alias, add_key_pair, matches_chain, canonical_certificates}
use certkit.Store.Linked.{Linked, EntryLinked, canonical_certificates-Linked, canonical_key-Linked}
use certkit.Store.Valid.{IsValid, valid, LongId, insert_private_key-finds}
use certkit.Store.Additions.{
  Anything, LongHashes, Ensures-ok≡, add_key_pair-IsValid, new_private_key-LongId,
  new_certificates-total,
}
use certkit.Formats.Library.{FormatLibrary, HasDistinctTrust, ParsedKey, parsed}
use certkit.Formats.Keys.{place_certificate}
use certkit.Formats.Basics.{All-everywhere}
use certkit.Formats.BagSound.{Relies, store_from_pkcs12_blocks-IsValid}
use certkit.Formats.TrustSound.{IsNew, add_trust_store-IsValid, add_raw_trust_store-IsValid}
use certkit.Formats.PemSound.{empty_store-IsValid, password_for-Ensures}
use certkit.Store.Reconcile.{default_alias}
use certkit.Formats.Alias.{looks_like_shang_mi_pkcs12}
use certkit.Open.Laws.{OpensOn}
use certkit.Formats.Pkcs12.{
  pkcs12_source, pkcs12_store, stamp, stamp_first, stamp_entries, stamp_objects, add_decoded,
}
use certkit.Formats.Pkcs12.{parse_raws, add_decoded_raw, standard_chain, standard_trust}
use certkit.Formats.Pkcs12.{open_standard_pkcs12, shang_mi_chain, shang_mi_trust}
use certkit.Formats.Pkcs12.{open_shang_mi_pkcs12, open_pkcs12}

-- The store has an entry and a private key.
abbrev HasPair : Store → Type 0
HasPair s = (length s.entries == 0 ≡ false) × (length s.private_keys == 0 ≡ false)

snoc-not-empty : {A : Type 0} (xs : List A) (a : A) → length (xs ++ a ∷ []) == 0 ≡ false
snoc-not-empty [] a = refl
snoc-not-empty (x ∷ xs) a = ground arith

found-not-empty :
    {A : Type 0} (key : A → Text) (id : Text) (xs : List A) (y : A)
    → find_by key id xs ≡ some y
    → length xs == 0 ≡ false
unfolding find_by
found-not-empty key id [] y e = cc
found-not-empty key id (x ∷ xs) y e = ground arith

private_keys-not-empty :
    (k : PrivateKey) (s : Store) → length (insert_private_key k s).private_keys == 0 ≡ false
private_keys-not-empty k s =
    let (y, e) = insert_private_key-finds k s in
    found-not-empty private_key_id k.id (insert_private_key k s).private_keys y e

stamp-none :
    (id : Text) (alias : Text) (i : ℕ) (cs : List Certificate)
    → find_by certificate_id id cs ≡ none
    → find_by certificate_id id (stamp alias i cs) ≡ none
unfolding stamp find_by
stamp-none id alias i [] e = refl
stamp-none id alias i (c ∷ cs) e = ground (arith, stamp-none id alias (i + 1) cs)

stamp-some :
    (id : Text) (alias : Text) (i : ℕ) (cs : List Certificate) (x : Certificate)
    → find_by certificate_id id cs ≡ some x
    → (y : Certificate) × (find_by certificate_id id (stamp alias i cs) ≡ some y)
unfolding stamp find_by
stamp-some id alias i [] x e = absurd (ground arith)
stamp-some id alias i (c ∷ cs) x e = elim (Bool-cases (text_eq c.id id)) [
  | inl b ↦ (place_certificate (pkcs12_source alias i) c, ground arith)
  | inr b ↦ let (y, f) = stamp-some id alias (i + 1) cs x (ground arith) in (y, ground arith)
]

-- The references do not change what is found under an identifier.
stamp-IsDistinct :
    (alias : Text) (i : ℕ) (cs : List Certificate)
    → IsDistinct certificate_id cs
    → IsDistinct certificate_id (stamp alias i cs)
unfolding stamp
stamp-IsDistinct alias i [] d = tt
stamp-IsDistinct alias i (c ∷ cs) (d, ds) =
    (stamp-none c.id alias (i + 1) cs d, stamp-IsDistinct alias (i + 1) cs ds)

canonical-total :
    (cs : List Certificate) (k : PrivateKey) (s : Store)
    → Ensures
        (Anything {0} {A = List Certificate})
        (canonical_certificates (insert_private_key k (insert_certificates cs s)) cs)
unfolding insert_private_key insert_certificates
canonical-total cs k s =
    let (chain, e, _) =
      canonical_certificates-Linked (insert_private_key k (insert_certificates cs s)) cs
        (insert_all-IsKnown certificate_id cs s.certificates) in
    Ensures-ok≡ e tt

module _ (lib : Library) (x : FormatLibrary) (hashes : LongHashes lib) where
  add_key_pair-HasPair :
      (alias : Text) (key : Option Signer) (certs : List (Option X509Certificate)) (s : Store)
      → Ensures HasPair (add_key_pair lib alias key certs s)
  unfolding add_key_pair
  add_key_pair-HasPair alias key certs s =
      Ensures-guard (not (text_eq (trim_space alias) [])) Error.invalid_data λ g.
        Ensures-guard (not (is_some (entry_by_alias lib s (trim_space alias)))) Error.alias_conflict
          λ h. Ensures-bind (new_private_key-LongId lib hashes key) λ k l.
            Ensures-bind (new_certificates-total lib hashes certs) λ cs u.
              Ensures-guard (matches_chain lib k.signer cs) Error.key_mismatch λ m.
                let s₁ = insert_private_key k (insert_certificates cs s) in
                Ensures-bind (canonical-total cs k s) λ chain w.
                  returns (
                    snoc-not-empty s₁.entries _,
                    private_keys-not-empty k (insert_certificates cs s),
                  )

-- The entries of a valid store, read again in the store with the new references.
module _ (lib : Library) (x : FormatLibrary) (s t : Store)
    (known : (id : Text) (c : Certificate)
      → find_by certificate_id id s.certificates ≡ some c
      → (y : Certificate) × (find_by certificate_id id t.certificates ≡ some y)) where
  chain-IsKnown :
      (cs : List Certificate)
      → All (Linked s.certificates) cs
      → All (IsKnown certificate_id t.certificates) cs
  chain-IsKnown [] l = tt
  chain-IsKnown (c ∷ cs) (l, ls) = (known c.id c l, chain-IsKnown cs ls)

  stamp_entries-Linked :
      (es : List Entry)
      → All (EntryLinked s.certificates s.private_keys) es
      → Ensures (All (EntryLinked t.certificates t.private_keys)) (stamp_entries lib x t es)
  unfolding stamp_entries
  stamp_entries-Linked [] l = returns tt
  stamp_entries-Linked (e ∷ es) (l, ls) =
      let (chain, q, m) = canonical_certificates-Linked t e.chain (chain-IsKnown e.chain l.0) in
      Ensures-bind (Ensures-ok≡ {P = All (Linked t.certificates)} q m) λ chain' m'.
        Ensures-bind (stamp_entries-Linked es ls)
          λ rest r. returns ((m', canonical_key-Linked t e.private_key), r)

stamp_first-IsDistinct :
    (alias : Text) (ks : List PrivateKey)
    → IsDistinct private_key_id ks
    → IsDistinct private_key_id (stamp_first alias ks)
stamp_first-IsDistinct alias [] d = tt
stamp_first-IsDistinct alias (k ∷ ks) d = d

stamp_first-LongId :
    (alias : Text) (ks : List PrivateKey) → All LongId ks → All LongId (stamp_first alias ks)
stamp_first-LongId alias [] l = tt
stamp_first-LongId alias (k ∷ ks) l = l

module _ (lib : Library) (x : FormatLibrary) where
  stamp_objects-IsValid :
      (es : List Entry) (s : Store)
      → length es == 0 ≡ false
      → length s.private_keys == 0 ≡ false
      → IsValid s
      → Ensures IsValid (stamp_objects lib x es s)
  unfolding stamp_objects
  stamp_objects-IsValid [] s n k v = absurd (ground arith)
  stamp_objects-IsValid (e ∷ es) s n k v =
      let t = record s {
        certificates = stamp e.alias 0 s.certificates;
        private_keys = stamp_first e.alias s.private_keys;
      } in
      rw k (
        Ensures-bind
          (stamp_entries-Linked lib x s t (λ id c f. stamp-some id e.alias 0 s.certificates c f)
            s.entries v.entries_linked)
          λ es' l. returns (
            valid (stamp-IsDistinct e.alias 0 s.certificates v.certificates_distinct)
              (stamp_first-IsDistinct e.alias s.private_keys v.private_keys_distinct)
              (stamp_first-LongId e.alias s.private_keys v.private_keys_long) l))

module _ (lib : Library) (x : FormatLibrary) (relies : Relies lib x) (data_ : List ℕ)
    (distinct : HasDistinctTrust lib x data_) where
  add_decoded-IsValid :
      (signer : Signer) (leaf : X509Certificate) (chain : List X509Certificate)
      → Ensures (λ s. IsValid s × HasPair s) (add_decoded lib x signer leaf chain)
  unfolding add_decoded
  add_decoded-IsValid signer leaf chain =
      let alias = default_alias (some leaf) in
      let certs = map some (leaf ∷ chain) in
      Ensures-both
        (add_key_pair-IsValid lib relies.hashes alias (some signer) certs pkcs12_store
          (empty_store-IsValid _ _))
        (add_key_pair-HasPair lib x relies.hashes alias (some signer) certs pkcs12_store)

  All-IsNew : (cs : List X509Certificate) → All (IsNew lib pkcs12_store) cs
  unfolding find_by
  All-IsNew cs = All-everywhere (IsNew lib pkcs12_store) cs (λ c. refl)

  shang_mi_trust-IsValid :
      (password : List ℕ)
      → Ensures IsValid (shang_mi_trust lib x (x.shang_mi.decode_trust_store data_ password))
  unfolding shang_mi_trust
  shang_mi_trust-IsValid password =
      elim (Option-cases (x.shang_mi.decode_trust_store data_ password)) [
        | inl n ↦ rw n refuses
        | inr (cs, e) ↦ rw e (
            add_trust_store-IsValid lib x 0 cs pkcs12_store
              (relies.parsing.trust_store_raw data_ password cs e) (distinct.shang_mi password cs e)
              (All-IsNew cs) (empty_store-IsValid _ _))
      ]

  standard_trust-IsValid :
      (password : List ℕ)
      → Ensures IsValid (standard_trust lib x (x.standard.decode_trust_store data_ password))
  unfolding standard_trust
  standard_trust-IsValid password =
      elim (Option-cases (x.standard.decode_trust_store data_ password)) [
        | inl n ↦ rw n refuses
        | inr (raws, e) ↦ rw e (
            add_raw_trust_store-IsValid lib x relies.parsing 0 raws pkcs12_store
              (distinct.standard password raws e) (All-IsNew (parsed x raws))
              (empty_store-IsValid _ _))
      ]

  shang_mi_chain-IsValid :
      (o : Option (ParsedKey × X509Certificate × List X509Certificate)) (trusted : R Store)
      → Ensures IsValid trusted
      → Ensures IsValid (shang_mi_chain lib x o trusted)
  unfolding shang_mi_chain
  shang_mi_chain-IsValid none trusted h = h
  shang_mi_chain-IsValid (some (none, leaf, chain)) trusted h = refuses
  shang_mi_chain-IsValid (some (some signer, leaf, chain)) trusted h =
      Ensures-bind (add_decoded-IsValid signer leaf chain)
        λ s (v, (e, k)). stamp_objects-IsValid lib x s.entries s e k v

  -- One certificate for each encoding.
  parse_raws-length :
      (raws : List (List ℕ)) → Ensures (λ cs. length cs ≡ length raws) (parse_raws lib x raws)
  unfolding parse_raws
  parse_raws-length [] = returns refl
  parse_raws-length (raw ∷ raws) = elim (Option-cases (x.parse_certificate raw)) [
    | inl n ↦ rw (n, parse_raws) refuses
    | inr (c, e) ↦
        rw (e, parse_raws)
          (Ensures-bind (parse_raws-length raws) λ cs l. returns (omega (arith, l)))
  ]

  add_decoded_raw-IsValid :
      (signer : Signer) (cs : List X509Certificate) (n : ℕ)
      → length cs ≡ suc n
      → Ensures IsValid (add_decoded_raw lib x signer cs)
  unfolding add_decoded_raw
  add_decoded_raw-IsValid signer [] n e = absurd (omega arith)
  add_decoded_raw-IsValid signer (leaf ∷ chain) n e =
      Ensures-map (add_decoded-IsValid signer leaf chain) λ s p. p.0

  standard_chain-IsValid :
      (o : Option (ParsedKey × List ℕ × List (List ℕ))) (trusted : R Store)
      → Ensures IsValid trusted
      → Ensures IsValid (standard_chain lib x o trusted)
  unfolding standard_chain
  standard_chain-IsValid none trusted h = h
  standard_chain-IsValid (some (none, leaf, chain)) trusted h = refuses
  standard_chain-IsValid (some (some signer, leaf, chain)) trusted h =
      Ensures-bind (parse_raws-length (leaf ∷ chain))
        λ cs l. add_decoded_raw-IsValid signer cs (length chain) l

  open_shang_mi_pkcs12-IsValid :
      (password : List ℕ) → Ensures IsValid (open_shang_mi_pkcs12 lib x data_ password)
  unfolding open_shang_mi_pkcs12
  open_shang_mi_pkcs12-IsValid password = elim (Option-cases (x.shang_mi.to_pem data_ password)) [
    | inl n ↦
        rw (n, open_shang_mi_pkcs12)
          (shang_mi_chain-IsValid (x.shang_mi.decode_chain data_ password) _
            (shang_mi_trust-IsValid password))
    | inr (blocks, e) ↦
        rw (e, open_shang_mi_pkcs12) (store_from_pkcs12_blocks-IsValid lib x relies blocks)
  ]

  open_standard_pkcs12-IsValid :
      (password : List ℕ) → Ensures IsValid (open_standard_pkcs12 lib x data_ password)
  unfolding open_standard_pkcs12
  open_standard_pkcs12-IsValid password = elim (Option-cases (x.standard.to_pem data_ password)) [
    | inl n ↦
        rw (n, open_standard_pkcs12)
          (standard_chain-IsValid (x.standard.decode_chain data_ password) _
            (standard_trust-IsValid password))
    | inr (blocks, e) ↦
        rw (e, open_standard_pkcs12) (store_from_pkcs12_blocks-IsValid lib x relies blocks)
  ]

  pub open_pkcs12-HasValid : OpensOn (open_pkcs12 lib x) data_
  unfolding open_pkcs12
  open_pkcs12-HasValid options =
      Ensures-bind (password_for-Ensures options.password options.password_provider _) λ password u.
        Ensures-bind
          (Ensures-if (looks_like_shang_mi_pkcs12 data_)
            (λ q. open_shang_mi_pkcs12-IsValid password) λ q. open_standard_pkcs12-IsValid password)
          λ s v. returns v
