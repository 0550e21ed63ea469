-- ===== src/Authority/Issuer.antt =====
-- ca.go, validateIssuer: what an accepted issuer is.
use certkit.Prelude.{◌≡◌, refl, List, [], ◌∷◌, Option, none, some, true}
use certkit.Prelude.{false, ◌||◌, not}
use certkit.Prelude.{arith}
use certkit.Result.{Ensures, returns, refuses, Ensures-guard, Ensures-map}
use certkit.Store.Library.{Library, X509Certificate, Signer}
use certkit.Store.Types.{Error, Certificate, PrivateKey, Entry}
use certkit.Store.Chain.{public_keys_equal}
use certkit.Authority.Keys.{validate_issuer, issuer_of, forbids, cert_sign}

module _ (lib : Library) where
  -- The issuer may sign: its first certificate is a CA whose usage allows it, with the entry's key.
  abbrev pub MaySign : Entry → X509Certificate → Signer → Type 0
  MaySign issuer c k =
      (p : PrivateKey) × (first : Certificate) × (above : List Certificate) × (issuer.private_key
        ≡ some p)
      × (issuer.chain ≡ first ∷ above)
      × (c ≡ first.certificate)
      × (k ≡ p.signer)
      × (c.is_ca ≡ true)
      × (forbids c.key_usage cert_sign ≡ false)
      × (public_keys_equal lib (lib.public k) c.public_key ≡ true)

  issuer_of-MaySign :
      (issuer : Entry) (key : Option PrivateKey) (chain : List Certificate)
      → issuer.private_key ≡ key
      → issuer.chain ≡ chain
      → Ensures (λ r. MaySign issuer r.0 r.1) (issuer_of lib key chain)
  unfolding issuer_of
  issuer_of-MaySign issuer none chain e f = refuses
  issuer_of-MaySign issuer (some k) [] e f = refuses
  issuer_of-MaySign issuer (some k) (c ∷ cs) e f =
      let x = c.certificate in
      Ensures-guard (not (not x.is_ca || forbids x.key_usage cert_sign)) Error.invalid_data λ g.
        Ensures-guard (public_keys_equal lib (lib.public k.signer) x.public_key) Error.key_mismatch
          λ h. returns (k, c, cs, e, f, refl, refl, ground (arith, g), ground (arith, g), h)

  pub validate_issuer-MaySign :
      (issuer : Entry) → Ensures (λ r. MaySign issuer r.0 r.1) (validate_issuer lib (some issuer))
  unfolding validate_issuer
  validate_issuer-MaySign issuer =
      issuer_of-MaySign issuer issuer.private_key issuer.chain refl refl

  -- A valid issuer is a CA with its key.
  pub validate_issuer-agrees :
      (issuer : Entry)
      → Ensures
          (λ r. (r.0.is_ca ≡ true) × (public_keys_equal lib (lib.public r.1) r.0.public_key ≡ true))
          (validate_issuer lib (some issuer))
  validate_issuer-agrees issuer =
      Ensures-map (validate_issuer-MaySign issuer)
        λ r (p, first, above, e, f, c, k, ca, may, own). (ca, own)
