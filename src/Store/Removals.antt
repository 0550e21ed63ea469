-- ===== src/Store/Removals.antt =====
-- RemoveCertificate, RemovePrivateKey and RemoveEntry: what is gone after them, what is left as it
-- was, and that a valid store stays valid.
use certkit.Prelude.{◌≡◌, refl, sym, subst, ◌∙◌, List, [], ◌∷◌, Option, none, some, false}
use certkit.Prelude.{map, All, Bool-cases, Option-cases, inl, inr, arith}
use certkit.Text.{Text, text_eq, equal_fold, text_eq_sym}
use certkit.Result.{ok, Ensures, returns, refuses}
use certkit.Store.Library.{Library}
use certkit.Store.Types.{Certificate, PrivateKey, Entry, Store}
use certkit.Store.Keyed.{delete_by, delete_by-other, delete_by-absent}
use certkit.Store.Keyed.{delete_by-IsDistinct, delete_by-All}
use certkit.Store.Operations.{
  certificate_id, private_key_id, remove_certificate, remove_private_key,
}
use certkit.Store.Operations.{
  remove_entry, remove_first, unlink_certificate, unlink_private_key, has_key, key_has,
}
use certkit.Store.Operations.{without_certificate, certificate_by_id, private_key_by_id}
use certkit.Store.Linked.{Linked, KeyLinked, EntryLinked}
use certkit.Store.Valid.{IsValid, LongId, valid}

-- No certificate of a list has the identifier.
abbrev pub Lacks : Text → Certificate → Type 0
Lacks id c = text_eq c.id id ≡ false

without_certificate-Lacks :
    (id : Text) (cs : List Certificate) → All (Lacks id) (without_certificate id cs)
unfolding without_certificate
without_certificate-Lacks id [] = tt
without_certificate-Lacks id (c ∷ cs) = elim (Bool-cases (text_eq c.id id)) [
  | inl b ↦ rw b (without_certificate-Lacks id cs)
  | inr b ↦ rw b (b, without_certificate-Lacks id cs)
]

-- The rest of a chain stays linked when the certificate is deleted.
without_certificate-Linked :
    (id : Text) (certs certs' chain : List Certificate)
    → delete_by certificate_id id certs ≡ some certs'
    → All (Linked certs) chain
    → All (Linked certs') (without_certificate id chain)
unfolding without_certificate
without_certificate-Linked id certs certs' [] d l = tt
without_certificate-Linked id certs certs' (c ∷ chain) d (l, ls) =
    elim (Bool-cases (text_eq c.id id)) [
      | inl b ↦ rw b (without_certificate-Linked id certs certs' chain d ls)
      | inr b ↦ rw b (
        delete_by-other certificate_id id c.id certs certs' d (text_eq_sym c.id id b) ∙ l,
        without_certificate-Linked id certs certs' chain d ls,
      )
    ]

unlink_certificate-Linked :
    (id : Text) (certs certs' : List Certificate) (keys : List PrivateKey) (es : List Entry)
    → delete_by certificate_id id certs ≡ some certs'
    → All (EntryLinked certs keys) es
    → All (EntryLinked certs' keys) (map (unlink_certificate id) es)
unfolding unlink_certificate
unlink_certificate-Linked id certs certs' keys [] d l = tt
unlink_certificate-Linked id certs certs' keys (e ∷ es) d (l, ls) = (
  (without_certificate-Linked id certs certs' e.chain d l.0, l.1),
  unlink_certificate-Linked id certs certs' keys es d ls,
)

pub remove_certificate-IsValid :
    (id : Text) (s : Store) → IsValid s → Ensures IsValid (remove_certificate id s)
unfolding remove_certificate
remove_certificate-IsValid id s v =
    elim (Option-cases (delete_by certificate_id id s.certificates)) [
      | inl n ↦ rw (n, remove_certificate) refuses
      | inr (cs, d) ↦
          rw (d, remove_certificate)
            (returns (
              valid
                (delete_by-IsDistinct certificate_id id s.certificates cs v.certificates_distinct d)
                v.private_keys_distinct v.private_keys_long
                (unlink_certificate-Linked id s.certificates cs s.private_keys s.entries d
                  v.entries_linked)))
    ]

key_has-Linked :
    (id : Text) (keys keys' : List PrivateKey) (k : Option PrivateKey)
    → delete_by private_key_id id keys ≡ some keys'
    → key_has id k ≡ false
    → KeyLinked keys k
    → KeyLinked keys' k
unfolding key_has
key_has-Linked id keys keys' none d n l = tt
key_has-Linked id keys keys' (some k) d n l =
    delete_by-other private_key_id id k.id keys keys' d (text_eq_sym k.id id n) ∙ l

unlink_private_key-Linked :
    (id : Text) (certs : List Certificate) (keys keys' : List PrivateKey) (es : List Entry)
    → delete_by private_key_id id keys ≡ some keys'
    → All (EntryLinked certs keys) es
    → All (EntryLinked certs keys') (map (unlink_private_key id) es)
unfolding unlink_private_key has_key
unlink_private_key-Linked id certs keys keys' [] d l = tt
unlink_private_key-Linked id certs keys keys' (e ∷ es) d (l, ls) =
    let rest = unlink_private_key-Linked id certs keys keys' es d ls in
    elim (Bool-cases (key_has id e.private_key)) [
      | inl b ↦ rw (b, unlink_private_key) ((l.0, tt), rest)
      | inr b ↦
          rw (b, unlink_private_key)
            ((l.0, key_has-Linked id keys keys' e.private_key d b l.1), rest)
    ]

pub remove_private_key-IsValid :
    (id : Text) (s : Store) → IsValid s → Ensures IsValid (remove_private_key id s)
unfolding remove_private_key
remove_private_key-IsValid id s v =
    elim (Option-cases (delete_by private_key_id id s.private_keys)) [
      | inl n ↦ rw (n, remove_private_key) refuses
      | inr (ks, d) ↦
          rw (d, remove_private_key)
            (returns (
              valid v.certificates_distinct
                (delete_by-IsDistinct private_key_id id s.private_keys ks v.private_keys_distinct d)
                (delete_by-All private_key_id LongId id s.private_keys ks d v.private_keys_long)
                (unlink_private_key-Linked id s.certificates s.private_keys ks s.entries d
                  v.entries_linked)))
    ]

abbrev pub ChainLacks : Text → Entry → Type 0
ChainLacks id e = All (Lacks id) e.chain

unlink_certificate-Lacks :
    (id : Text) (es : List Entry) → All (ChainLacks id) (map (unlink_certificate id) es)
unfolding unlink_certificate
unlink_certificate-Lacks id [] = tt
unlink_certificate-Lacks id (e ∷ es) =
    (without_certificate-Lacks id e.chain, unlink_certificate-Lacks id es)

-- After RemoveCertificate on a valid store the identifier is found no more, no chain has it, and the
-- search for another identifier gives what it gave.
pub remove_certificate-effect :
    (id : Text) (s s' : Store)
    → IsValid s
    → remove_certificate id s ≡ ok s'
    → (certificate_by_id s' id ≡ none)
      × All (ChainLacks id) s'.entries
      × ((other : Text)
          → text_eq id other ≡ false
          → certificate_by_id s' other ≡ certificate_by_id s other)
unfolding remove_certificate certificate_by_id
remove_certificate-effect id s s' v e =
    elim (Option-cases (delete_by certificate_id id s.certificates)) [
      | inl n ↦ ground arith
      | inr (cs, d) ↦
          let p : record s { certificates = cs; entries = map (unlink_certificate id) s.entries }
              ≡ s' =
            ground arith in
          rw (sym p) (
            delete_by-absent certificate_id id s.certificates cs v.certificates_distinct d,
            unlink_certificate-Lacks id s.entries,
            λ other n. delete_by-other certificate_id id other s.certificates cs d n,
          )
    ]

abbrev pub NoKey : Text → Entry → Type 0
NoKey id e = has_key id e ≡ false

unlink_private_key-NoKey :
    (id : Text) (es : List Entry) → All (NoKey id) (map (unlink_private_key id) es)
unfolding unlink_private_key has_key key_has
unlink_private_key-NoKey id [] = tt
unlink_private_key-NoKey id (e ∷ es) = elim (Bool-cases (has_key id e)) [
  | inl b ↦ (rw (b, unlink_private_key) refl, unlink_private_key-NoKey id es)
  | inr b ↦ (rw (b, unlink_private_key) b, unlink_private_key-NoKey id es)
]

-- After RemovePrivateKey on a valid store the identifier is found no more, no entry has the key, and
-- the search for another identifier gives what it gave.
pub remove_private_key-effect :
    (id : Text) (s s' : Store)
    → IsValid s
    → remove_private_key id s ≡ ok s'
    → (private_key_by_id s' id ≡ none)
      × All (NoKey id) s'.entries
      × ((other : Text)
          → text_eq id other ≡ false
          → private_key_by_id s' other ≡ private_key_by_id s other)
unfolding remove_private_key private_key_by_id
remove_private_key-effect id s s' v e =
    elim (Option-cases (delete_by private_key_id id s.private_keys)) [
      | inl n ↦ ground arith
      | inr (ks, d) ↦
          let p : record s { private_keys = ks; entries = map (unlink_private_key id) s.entries }
              ≡ s' =
            ground arith in
          rw (sym p) (
            delete_by-absent private_key_id id s.private_keys ks v.private_keys_distinct d,
            unlink_private_key-NoKey id s.entries,
            λ other n. delete_by-other private_key_id id other s.private_keys ks d n,
          )
    ]

module _ (lib : Library) where
  -- What holds of every entry holds of those that are left.
  remove_first-All {κ} :
      (P : Entry → Type κ) (alias : Text) (es es' : List Entry)
      → remove_first lib alias es ≡ some es'
      → All P es
      → All P es'
  unfolding remove_first
  remove_first-All P alias [] es' e h = cc
  remove_first-All P alias (x ∷ es) es' e (h, hs) =
      elim (Bool-cases (equal_fold lib.fold x.alias alias)) [
        | inl b ↦ subst (All P) (ground arith) hs
        | inr b ↦ elim (Option-cases (remove_first lib alias es)) [
          | inl n ↦ ground arith
          | inr (zs, m) ↦
              let p : x ∷ zs ≡ es' = ground arith in
              subst (All P) p (h, remove_first-All P alias es zs m hs)
        ]
      ]

  pub remove_entry-IsValid :
      (alias : Text) (s : Store) → IsValid s → Ensures IsValid (remove_entry lib alias s)
  unfolding remove_entry
  remove_entry-IsValid alias s v = elim (Option-cases (remove_first lib alias s.entries)) [
    | inl n ↦ rw (n, remove_entry) refuses
    | inr (es, d) ↦
        rw (d, remove_entry)
          (returns (
            valid v.certificates_distinct v.private_keys_distinct v.private_keys_long (
              remove_first-All (EntryLinked s.certificates s.private_keys) alias s.entries es d
                v.entries_linked)))
  ]
