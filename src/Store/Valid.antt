-- ===== src/Store/Valid.antt =====
-- The invariant of a store: the identifiers of its certificates and of its private keys are
-- distinct, its entries refer to its own objects, and the private keys' identifiers are as long as
-- reconcileEntries needs them.
use certkit.Prelude.{◌≡◌, refl, List, [], ◌∷◌, ◌++◌, Option, none, some, true}
use certkit.Prelude.{leb, length, All, All-map, All-append, Bool-cases, Option-cases, inl, inr}
use certkit.Text.{Text}
use certkit.Result.{ok}
use certkit.Store.Library.{Library}
use certkit.Store.Types.{Certificate, PrivateKey, Entry, Store}
use certkit.Store.Keyed.{find_by, IsFound, IsDistinct, IsDistinct→IsFound, Extends, insert_by}
use certkit.Store.Keyed.{insert_all, insert_by-Extends, insert_by-IsDistinct, insert_by-finds}
use certkit.Store.Keyed.{insert_all-Extends, insert_all-IsDistinct}
use certkit.Store.Operations.{
  certificate_id, private_key_id, insert_certificate, insert_private_key,
}
use certkit.Store.Operations.{insert_certificates}
use certkit.Store.Reconcile.{
  reconcile_entry, reconciled_chain, reconcile_existing, any_has_key, key_entry, new_key_entry,
  reconcile_keys,
}
use certkit.Store.Reconcile.{reconcile_entries}
use certkit.Store.Linked.{Linked, EntryLinked, EntryLinked-Extends, rebuild_chain-holds}
use certkit.Store.Linked.{chain_for-holds}

abbrev pub LongId : PrivateKey → Type 0
LongId k = leb 12 (length k.id) ≡ true

pub record IsValid (s : Store) : Type 0 where
  pub certificates_distinct : IsDistinct certificate_id s.certificates
  pub private_keys_distinct : IsDistinct private_key_id s.private_keys
  pub private_keys_long : All LongId s.private_keys
  pub entries_linked : All (EntryLinked s.certificates s.private_keys) s.entries

abbrev pub valid :
    {s : Store}
    → IsDistinct certificate_id s.certificates
    → IsDistinct private_key_id s.private_keys
    → All LongId s.private_keys
    → All (EntryLinked s.certificates s.private_keys) s.entries
    → IsValid s
valid c k l e = record {
  certificates_distinct = c;
  private_keys_distinct = k;
  private_keys_long = l;
  entries_linked = e;
}

pub refl-Extends : {A : Type 0} (key : A → Text) (xs : List A) → Extends key xs xs
refl-Extends key xs id x e = e

pub insert_certificate-IsValid :
    (c : Certificate) (s : Store) → IsValid s → IsValid (insert_certificate c s)
unfolding insert_certificate
insert_certificate-IsValid c s v =
    valid (insert_by-IsDistinct certificate_id c s.certificates v.certificates_distinct)
      v.private_keys_distinct v.private_keys_long
      (All-map s.entries
        (λ e.
          EntryLinked-Extends s.certificates (insert_by certificate_id c s.certificates)
            s.private_keys s.private_keys e (insert_by-Extends certificate_id c s.certificates)
            (refl-Extends private_key_id s.private_keys))
        v.entries_linked)

pub insert_certificates-IsValid :
    (cs : List Certificate) (s : Store) → IsValid s → IsValid (insert_certificates cs s)
unfolding insert_certificates
insert_certificates-IsValid cs s v =
    valid (insert_all-IsDistinct certificate_id cs s.certificates v.certificates_distinct)
      v.private_keys_distinct v.private_keys_long
      (All-map s.entries
        (λ e.
          EntryLinked-Extends s.certificates (insert_all certificate_id cs s.certificates)
            s.private_keys s.private_keys e (insert_all-Extends certificate_id cs s.certificates)
            (refl-Extends private_key_id s.private_keys))
        v.entries_linked)

pub insert_by-LongId :
    (k : PrivateKey) (ks : List PrivateKey)
    → LongId k
    → All LongId ks
    → All LongId (insert_by private_key_id k ks)
unfolding insert_by
insert_by-LongId k ks l h = elim (Option-cases (find_by private_key_id k.id ks)) [
  | inl n ↦ rw n (All-append LongId ks (k ∷ []) h (l, tt))
  | inr (y, e) ↦ rw e h
]

pub insert_private_key-IsValid :
    (k : PrivateKey) (s : Store) → LongId k → IsValid s → IsValid (insert_private_key k s)
unfolding insert_private_key
insert_private_key-IsValid k s l v =
    valid v.certificates_distinct
      (insert_by-IsDistinct private_key_id k s.private_keys v.private_keys_distinct)
      (insert_by-LongId k s.private_keys l v.private_keys_long)
      (All-map s.entries
        (λ e.
          EntryLinked-Extends s.certificates s.certificates s.private_keys
            (insert_by private_key_id k s.private_keys) e
            (refl-Extends certificate_id s.certificates)
            (insert_by-Extends private_key_id k s.private_keys))
        v.entries_linked)

pub insert_private_key-finds :
    (k : PrivateKey) (s : Store)
    → (y : PrivateKey) × (find_by private_key_id k.id (insert_private_key k s).private_keys
        ≡ some y)
unfolding insert_private_key
insert_private_key-finds k s = insert_by-finds private_key_id k s.private_keys

-- An entry that is linked may be appended.
pub append-IsValid :
    (s : Store) (e : Entry)
    → IsValid s
    → EntryLinked s.certificates s.private_keys e
    → IsValid (record s { entries = s.entries ++ e ∷ [] })
append-IsValid s e v l = valid v.certificates_distinct v.private_keys_distinct v.private_keys_long (
    All-append (EntryLinked s.certificates s.private_keys) s.entries (e ∷ []) v.entries_linked
      (l, tt))

module _ (lib : Library) where
  reconciled_chain-Linked :
      (certs : List Certificate) (k : Option PrivateKey) (chain : List Certificate)
      → IsDistinct certificate_id certs
      → All (Linked certs) chain
      → All (Linked certs) (reconciled_chain lib certs k chain)
  unfolding reconciled_chain
  reconciled_chain-Linked certs none chain d l = l
  reconciled_chain-Linked certs (some k) chain d l =
      rebuild_chain-holds lib (Linked certs) k.signer certs chain
        (IsDistinct→IsFound certificate_id certs d) l

  reconcile_existing-Linked :
      (certs : List Certificate) (keys : List PrivateKey) (es : List Entry)
      → IsDistinct certificate_id certs
      → All (EntryLinked certs keys) es
      → All (EntryLinked certs keys) (reconcile_existing lib certs es)
  unfolding reconcile_existing reconcile_entry
  reconcile_existing-Linked certs keys [] d l = tt
  reconcile_existing-Linked certs keys (e ∷ es) d (l, ls) = (
    (reconciled_chain-Linked certs e.private_key e.chain d l.0, l.1),
    reconcile_existing-Linked certs keys es d ls,
  )

  -- The entry that reconcileEntries makes for a key.
  key_entry-Linked :
      (certs : List Certificate) (keys : List PrivateKey) (k : PrivateKey)
      → IsDistinct certificate_id certs
      → IsFound private_key_id keys k
      → LongId k
      → (e : Entry) × (key_entry lib certs k ≡ ok e) × EntryLinked certs keys e
  unfolding key_entry new_key_entry
  key_entry-Linked certs keys k d f l =
      let h = IsDistinct→IsFound certificate_id certs d in
      (
        new_key_entry lib certs k,
        rw l refl,
        (chain_for-holds lib (Linked certs) (lib.public k.signer) certs certs h h, f),
      )

  -- The loop over the keys, whose identifiers are long, returns entries that are linked.
  reconcile_keys-Linked :
      (certs : List Certificate) (keys ks : List PrivateKey) (es : List Entry)
      → IsDistinct certificate_id certs
      → All (IsFound private_key_id keys) ks
      → All LongId ks
      → All (EntryLinked certs keys) es
      → (es' : List Entry) × (reconcile_keys lib certs ks es ≡ ok es')
        × All (EntryLinked certs keys) es'
  unfolding reconcile_keys
  reconcile_keys-Linked certs keys [] es d f l h = (es, refl, h)
  reconcile_keys-Linked certs keys (k ∷ ks) es d (f, fs) (l, ls) h =
      elim (Bool-cases (any_has_key k.id es)) [
        | inl b ↦ rw b (reconcile_keys-Linked certs keys ks es d fs ls h)
        | inr b ↦
            let (e, r, m) = key_entry-Linked certs keys k d f l in
            rw (b, r)
              (reconcile_keys-Linked certs keys ks (es ++ e ∷ []) d fs ls
                (All-append (EntryLinked certs keys) es (e ∷ []) h (m, tt)))
      ]

  -- On a valid store reconcileEntries returns, and the store is valid.
  pub reconcile_entries-IsValid :
      (s : Store) → IsValid s → (s' : Store) × (reconcile_entries lib s ≡ ok s') × IsValid s'
  unfolding reconcile_entries
  reconcile_entries-IsValid s v =
      let (es, r, l) =
        reconcile_keys-Linked s.certificates s.private_keys s.private_keys
          (reconcile_existing lib s.certificates s.entries) v.certificates_distinct
          (IsDistinct→IsFound private_key_id s.private_keys v.private_keys_distinct)
          v.private_keys_long
          (reconcile_existing-Linked s.certificates s.private_keys s.entries v.certificates_distinct
            v.entries_linked) in
      (
        record s { entries = es },
        rw r refl,
        valid v.certificates_distinct v.private_keys_distinct v.private_keys_long l,
      )
