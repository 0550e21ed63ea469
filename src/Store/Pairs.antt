-- ===== src/Store/Pairs.antt =====
-- open.go, OpenEntry: the entry that it makes of a certificate chain and a private key.
use certkit.Prelude.{◌≡◌, refl, List, [], ◌∷◌, some, true, ltb, length, Bool-cases, inl, inr}
use certkit.Result.{Ensures, returns, refuses, Ensures-bind, Ensures-guard}
use certkit.Store.Library.{Library}
use certkit.Store.Types.{Error, R, Certificate, PrivateKey, Entry, Store}
use certkit.Store.Keyed.{IsDistinct}
use certkit.Store.Chain.{public_keys_equal, build_certificate_chain}
use certkit.Store.Walk.{Issued, build_certificate_chain_lem}
use certkit.Store.Operations.{certificate_id}
use certkit.Store.Reconcile.{matching_entry, sole_key, open_entry}

module _ (lib : Library) where
  -- The chain begins with a certificate of the key, and each certificate is issued by the next.
  abbrev pub PairsWith : PrivateKey → List Certificate → Type 0
  PairsWith k [] = ⊥
  PairsWith k (c ∷ above) =
      (public_keys_equal lib (lib.public k.signer) c.certificate.public_key ≡ true)
      × Issued lib c above
      × IsDistinct certificate_id (c ∷ above)

  abbrev pub IsPair : Entry → Type 0
  IsPair e = (k : PrivateKey) × (e.private_key ≡ some k) × PairsWith k e.chain

  chain-PairsWith :
      (k : PrivateKey) (c : Certificate) (certs : List Certificate)
      → public_keys_equal lib (lib.public k.signer) c.certificate.public_key ≡ true
      → PairsWith k (build_certificate_chain lib c certs)
  chain-PairsWith k c certs b =
      let (above, e, i, d) = build_certificate_chain_lem lib c certs in rw e (b, i, d)

  matching_entry-IsPair :
      (k : PrivateKey) (certs cs : List Certificate)
      → Ensures IsPair (matching_entry lib k certs cs)
  unfolding matching_entry
  matching_entry-IsPair k certs [] = refuses
  matching_entry-IsPair k certs (c ∷ cs) =
      elim (Bool-cases (public_keys_equal lib (lib.public k.signer) c.certificate.public_key)) [
        | inl b ↦ rw b (returns (k, refl, chain-PairsWith k c certs b))
        | inr b ↦ rw b (matching_entry-IsPair k certs cs)
      ]

  sole_key-total : (ks : List PrivateKey) → Ensures (λ k. ks ≡ k ∷ []) (sole_key lib ks)
  unfolding sole_key
  sole_key-total [] = refuses
  sole_key-total (k ∷ []) = returns refl
  sole_key-total (_ ∷ _ ∷ _) = refuses

  -- OpenEntry ends without a panic when its two calls of Open do; the entry has a private key and a
  -- chain that begins with a certificate of it, each certificate issued by the next.
  pub open_entry-IsPair :
      (certificates keys : R Store)
      → Ensures (λ s. Unit {0}) certificates
      → Ensures (λ s. Unit {0}) keys
      → Ensures IsPair (open_entry lib certificates keys)
  unfolding open_entry
  open_entry-IsPair certificates keys a b = Ensures-bind a λ cs u.
      Ensures-guard (ltb 0 (length cs.certificates)) Error.no_certificate λ g.
        Ensures-bind b λ ks w.
          Ensures-bind (sole_key-total ks.private_keys)
            λ k z. matching_entry-IsPair k cs.certificates cs.certificates
