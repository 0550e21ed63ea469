-- ===== src/Store/Merge.antt =====
-- open.go, Store.Add: merging a valid store into a valid store.
use certkit.Prelude.{
  ◌≡◌, subst, List, [], ◌∷◌, ◌++◌, some, not, All, All-map, Bool-cases, inl, inr, arith,
}
use certkit.Text.{Text, text_eq}
use certkit.Result.{Ensures, returns, Ensures-bind, Ensures-guard}
use certkit.Store.Library.{Library}
use certkit.Store.Types.{Error, Certificate, PrivateKey, Entry, Store}
use certkit.Store.Keyed.{
  find_by, insert_by, insert_all, IsKnown, insert_all-IsKnown, insert_all-IsDistinct,
  insert_all-Extends,
}
use certkit.Store.Operations.{certificate_id, private_key_id, insert_certificates, canonical_key}
use certkit.Store.Reconcile.{insert_private_keys, adopt_entries, add, any_alias_taken}
use certkit.Store.Linked.{EntryLinked-Extends, canonical_certificates-Linked}
use certkit.Store.Linked.{canonical_key-Linked}
use certkit.Store.Valid.{
  IsValid, LongId, valid, insert_certificates-IsValid, append-IsValid, refl-Extends,
  insert_by-LongId,
}

-- What holds of every object of a list holds of the one that the search returns.
find_by-All :
    {A : Type 0} (key : A → Text) (P : A → Type 0) (id : Text) (xs : List A) (x : A)
    → All P xs
    → find_by key id xs ≡ some x
    → P x
unfolding find_by
find_by-All key P id [] x h e = cc
find_by-All key P id (y ∷ ys) x (h, hs) e = elim (Bool-cases (text_eq (key y) id)) [
  | inl b ↦ let p : y ≡ x = ground arith in subst P p h
  | inr b ↦ find_by-All key P id ys x hs (ground arith)
]

insert_all-LongId :
    (ys xs : List PrivateKey)
    → All LongId ys
    → All LongId xs
    → All LongId (insert_all private_key_id ys xs)
unfolding insert_all
insert_all-LongId [] xs l h = h
insert_all-LongId (y ∷ ys) xs (l, ls) h =
    insert_all-LongId ys (insert_by private_key_id y xs) ls (insert_by-LongId y xs l h)

pub insert_private_keys-IsValid :
    (ks : List PrivateKey) (s : Store)
    → All LongId ks
    → IsValid s
    → IsValid (insert_private_keys ks s)
unfolding insert_private_keys
insert_private_keys-IsValid ks s l v =
    let keys = insert_all private_key_id ks s.private_keys in
    valid v.certificates_distinct
      (insert_all-IsDistinct private_key_id ks s.private_keys v.private_keys_distinct)
      (insert_all-LongId ks s.private_keys l v.private_keys_long)
      (All-map s.entries
        (λ e.
          EntryLinked-Extends s.certificates s.certificates s.private_keys keys e
            (refl-Extends certificate_id s.certificates)
            (insert_all-Extends private_key_id ks s.private_keys))
        v.entries_linked)

-- The store knows every certificate of the entry's chain.
abbrev Adoptable : List Certificate → Entry → Type 0
Adoptable certs e = All (IsKnown certificate_id certs) e.chain

adopt_entries-IsValid :
    (es : List Entry) (s : Store)
    → All (Adoptable s.certificates) es
    → IsValid s
    → Ensures IsValid (adopt_entries es s)
unfolding adopt_entries
adopt_entries-IsValid [] s a v = returns v
adopt_entries-IsValid (e ∷ es) s (a, rest) v =
    let (chain, p, l) = canonical_certificates-Linked s e.chain a in
    let adopted = record e { chain = chain; private_key = canonical_key s e.private_key } in
    rw p (
      adopt_entries-IsValid es (record s { entries = s.entries ++ adopted ∷ [] }) rest
        (append-IsValid s adopted v (l, canonical_key-Linked s e.private_key)))

-- The chains of a valid store are known where its certificates have been added.
linked-Adoptable :
    (other : Store) (certs : List Certificate)
    → IsValid other
    → All (Adoptable (insert_all certificate_id other.certificates certs)) other.entries
linked-Adoptable other certs v =
    let known = insert_all-IsKnown certificate_id other.certificates certs in
    All-map other.entries
      (λ e l.
        All-map e.chain
          (λ c f.
            find_by-All certificate_id
              (IsKnown certificate_id (insert_all certificate_id other.certificates certs)) c.id
              other.certificates c known f)
          l.0)
      v.entries_linked

module _ (lib : Library) where
  -- Store.Add of a valid store to a valid store ends without a panic; the merged store is valid.
  pub add-IsValid :
      (s other : Store) → IsValid s → IsValid other → Ensures (λ r. IsValid r.1) (add lib s other)
  unfolding add insert_private_keys insert_certificates
  add-IsValid s other v w =
      let s₁ = insert_certificates other.certificates s in
      let s₂ = insert_private_keys other.private_keys s₁ in
      let v₂ =
        insert_private_keys-IsValid other.private_keys s₁ w.private_keys_long
          (insert_certificates-IsValid other.certificates s v) in
      Ensures-guard (not (any_alias_taken lib s other.entries)) Error.alias_conflict λ g.
        Ensures-bind
          (adopt_entries-IsValid other.entries s₂ (linked-Adoptable other s.certificates w) v₂)
          λ s₃ u. returns (
            valid u.certificates_distinct u.private_keys_distinct u.private_keys_long
              u.entries_linked)
