-- ===== src/Store/Owners.antt =====
-- reconcileEntries gives every private key of the store an entry.
use certkit.Prelude.{◌≡◌, subst, List, [], ◌∷◌, ◌++◌, true, leb, length}
use certkit.Prelude.{All, Bool-cases, inl, inr, arith}
use certkit.Prelude.{ap}
use certkit.Text.{Text, text_eq_refl}
use certkit.Result.{ok, bind-ok}
use certkit.Store.Library.{Library}
use certkit.Store.Types.{Certificate, PrivateKey, Entry, Store}
use certkit.Store.Operations.{has_key, key_has}
use certkit.Store.Reconcile.{
  any_has_key, key_entry, new_key_entry, reconcile_keys, reconcile_existing, reconcile_entries,
}

abbrev pub Owned : List Entry → PrivateKey → Type 0
Owned es k = any_has_key k.id es ≡ true

any_has_key-append :
    (id : Text) (es fs : List Entry) → any_has_key id es ≡ true → any_has_key id (es ++ fs) ≡ true
unfolding any_has_key
any_has_key-append id [] fs e = ground arith
any_has_key-append id (x ∷ es) fs e = ground (arith, any_has_key-append id es fs)

any_has_key-snoc :
    (id : Text) (es : List Entry) (e : Entry)
    → has_key id e ≡ true
    → any_has_key id (es ++ e ∷ []) ≡ true
unfolding any_has_key
any_has_key-snoc id [] e h = ground arith
any_has_key-snoc id (x ∷ es) e h = ground (arith, any_has_key-snoc id es e h)

module _ (lib : Library) where
  -- The entry for a key has it.
  key_entry-has_key :
      (certs : List Certificate) (k : PrivateKey) (e : Entry)
      → key_entry lib certs k ≡ ok e
      → has_key k.id e ≡ true
  unfolding key_entry new_key_entry has_key key_has
  key_entry-has_key certs k e h = elim (Bool-cases (leb 12 (length k.id))) [
    | inl b ↦
        let p : new_key_entry lib certs k ≡ e = ground arith in
        subst (λ x. has_key k.id x ≡ true) p (text_eq_refl k.id)
    | inr b ↦ ground arith
  ]

  -- The keys that had an entry keep it, and each key of the loop has one.
  reconcile_keys-Owned :
      (certs : List Certificate) (ks : List PrivateKey) (es es' : List Entry)
      → reconcile_keys lib certs ks es ≡ ok es'
      → ((id : Text) → any_has_key id es ≡ true → any_has_key id es' ≡ true) × All (Owned es') ks
  unfolding reconcile_keys
  reconcile_keys-Owned certs [] es es' e =
      let p : es ≡ es' = ground arith in (λ id h. subst (λ x. any_has_key id x ≡ true) p h, tt)
  reconcile_keys-Owned certs (k ∷ ks) es es' e = elim (Bool-cases (any_has_key k.id es)) [
    | inl b ↦ let (m, o) = reconcile_keys-Owned certs ks es es' (ground arith) in (m, (m k.id b, o))
    | inr b ↦
        let (x, p, q) =
          bind-ok (key_entry lib certs k) (λ entry. reconcile_keys lib certs ks (es ++ entry ∷ []))
            es' (ground arith) in
        let (m, o) = reconcile_keys-Owned certs ks (es ++ x ∷ []) es' q in
        (
          λ id h. m id (any_has_key-append id es (x ∷ []) h),
          (m k.id (any_has_key-snoc k.id es x (key_entry-has_key certs k x p)), o),
        )
  ]

  -- After reconcileEntries every private key of the store has an entry.
  pub reconcile_entries-Owned :
      (s s' : Store) → reconcile_entries lib s ≡ ok s' → All (Owned s'.entries) s.private_keys
  unfolding reconcile_entries
  reconcile_entries-Owned s s' e =
      let keyed =
        reconcile_keys lib s.certificates s.private_keys
          (reconcile_existing lib s.certificates s.entries) in
      let (es, p, q) = bind-ok keyed (λ es. ok (record s { entries = es })) s' e in
      let z : record s { entries = es } ≡ s' = ground arith in
      subst (λ x. All (Owned x.entries) s.private_keys) z
        (reconcile_keys-Owned s.certificates s.private_keys
          (reconcile_existing lib s.certificates s.entries) es p).1

  -- It leaves the private keys alone.
  pub private_keys-reconcile_entries :
      (s s' : Store) → reconcile_entries lib s ≡ ok s' → s.private_keys ≡ s'.private_keys
  unfolding reconcile_entries
  private_keys-reconcile_entries s s' e =
      let keyed =
        reconcile_keys lib s.certificates s.private_keys
          (reconcile_existing lib s.certificates s.entries) in
      let (es, p, q) = bind-ok keyed (λ es. ok (record s { entries = es })) s' e in
      let z : record s { entries = es } ≡ s' = ground arith in ap (λ (x : Store). x.private_keys) z
