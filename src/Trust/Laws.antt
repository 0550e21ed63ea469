-- ===== src/Trust/Laws.antt =====
-- chain.go and roots.go: what the result of VerifyCertificate says.
use certkit.Prelude.{◌≡◌, refl, ℕ, List, [], ◌∷◌, ◌++◌, Option, none, some, true, false}
use certkit.Prelude.{◌⊎◌, inl, inr, map}
use certkit.Text.{Text}
use certkit.Store.Library.{X509Certificate}
use certkit.Trust.Library.{
  Pool, TrustStore, VerifyOptions, PathOptions, Chains, Verification, VerifyError, VerifyResult,
}
use certkit.Trust.Library.{TrustLibrary, ChecksNames}
use certkit.Trust.Verify.{
  verify_pools, verify_in, verify, path_options, is_hostname_valid, result_of, verify_certificate,
}

Verification-cases :
    (v : Verification)
    → ((chains : Chains) × (v ≡ Verification.verified chains))
      ⊎ ((es : List ℕ) × (v ≡ Verification.refused es))
Verification-cases (Verification.verified chains) = inl (chains, refl)
Verification-cases (Verification.refused es) = inr (es, refl)

-- The sets of roots that are tried: none is the system's.
abbrev pub some_pools : List Pool → List (Option Pool)
some_pools [] = none ∷ []
some_pools (pool ∷ pools) = map some (pool ∷ pools)

abbrev pub tried : Option TrustStore → List (Option Pool)
tried none = none ∷ []
tried (some store) = some_pools store.pools

abbrev pub with_roots : PathOptions → Option Pool → PathOptions
with_roots o pool = record o { roots = pool }

module _ (t : TrustLibrary) (c : X509Certificate) (o : PathOptions) where
  -- One of the sets of roots accepts the certificate, with these chains.
  abbrev pub IsAccepted : List (Option Pool) → Chains → Type 0
  IsAccepted [] chains = ⊥
  IsAccepted (pool ∷ pools) chains =
      (t.verify c (with_roots o pool) ≡ Verification.verified chains) ⊎ IsAccepted pools chains

  -- Each of the sets of roots refuses the certificate.
  abbrev pub IsRefused : List (Option Pool) → Type 0
  IsRefused [] = Unit
  IsRefused (pool ∷ pools) =
      ((es : List ℕ) × (t.verify c (with_roots o pool) ≡ Verification.refused es)) × IsRefused pools

  abbrev pub Judges : List (Option Pool) → Verification → Type 0
  Judges pools (Verification.verified chains) = IsAccepted pools chains
  Judges pools (Verification.refused es) = IsRefused pools

  Judges-later :
      (pool : Option Pool) (pools : List (Option Pool)) (es : List ℕ) (v : Verification)
      → t.verify c (with_roots o pool) ≡ Verification.refused es
      → Judges pools v
      → Judges (pool ∷ pools) v
  Judges-later pool pools es (Verification.verified chains) e j = inr j
  Judges-later pool pools es (Verification.refused fs) e j = ((es, e), j)

  verify_pools-Judges :
      (pools : List Pool) (errors : List ℕ)
      → Judges (map some pools) (verify_pools t c o pools errors)
  unfolding verify_pools
  verify_pools-Judges [] errors = tt
  verify_pools-Judges (pool ∷ pools) errors =
      elim (Verification-cases (t.verify c (with_roots o (some pool)))) [
        | inl (chains, e) ↦ rw (e, verify_pools) (inl e)
        | inr (es, e) ↦
            rw (e, verify_pools)
              (Judges-later (some pool) (map some pools) es
                (verify_pools t c o pools (errors ++ es)) e
                (verify_pools-Judges pools (errors ++ es)))
      ]

  -- An accepted certificate is valid for the name that was asked for.
  IsAccepted-name :
      (laws : ChecksNames t) (pools : List (Option Pool)) (chains : Chains) (name : Text)
      → o.dns_name ≡ name
      → IsAccepted pools chains
      → is_hostname_valid t c name ≡ true
  unfolding is_hostname_valid
  IsAccepted-name laws pools chains [] n a = refl
  IsAccepted-name laws [] chains (x ∷ name) n a = elim a [ ]
  IsAccepted-name laws (pool ∷ pools) chains (x ∷ name) n (inl e) =
      laws.name_valid c (with_roots o pool) chains x name n e
  IsAccepted-name laws (pool ∷ pools) chains (x ∷ name) n (inr a) =
      IsAccepted-name laws pools chains (x ∷ name) n a

module _ (t : TrustLibrary) where
  one-Judges :
      (c : X509Certificate) (options : VerifyOptions) (v : Verification)
      → t.verify c (path_options t options) ≡ v
      → Judges t c (path_options t options) (none ∷ []) v
  one-Judges c options (Verification.verified chains) e = inl e
  one-Judges c options (Verification.refused es) e = ((es, e), tt)

  verify_in-Judges :
      (pools : List Pool) (c : X509Certificate) (options : VerifyOptions)
      → Judges t c
          (path_options t options)
          (some_pools pools)
          (verify_in t c (path_options t options) pools)
  verify_in-Judges [] c options = one-Judges c options (t.verify c (path_options t options)) refl
  verify_in-Judges (pool ∷ pools) c options =
      verify_pools-Judges t c (path_options t options) (pool ∷ pools) []

  verify-Judges :
      (roots : Option TrustStore) (c : X509Certificate) (options : VerifyOptions)
      → Judges t c
          (path_options t options)
          (tried roots)
          (verify t roots c (path_options t options))
  unfolding verify
  verify-Judges none c options = one-Judges c options (t.verify c (path_options t options)) refl
  verify-Judges (some store) c options = verify_in-Judges store.pools c options

  -- What VerifyCertificate says of a certificate.
  abbrev pub IsVerified : X509Certificate → VerifyOptions → VerifyResult → Type 0
  IsVerified c options r =
      ((r.trusted ≡ true)
        × (r.error ≡ none)
        × (r.hostname_valid ≡ true)
        × IsAccepted t c (path_options t options) (tried options.roots) r.chains)
      ⊎ ((r.trusted ≡ false)
          × (r.chains ≡ [])
          × ((es : List ℕ) × (r.error ≡ some (VerifyError.refused_for es)))
          × IsRefused t c (path_options t options) (tried options.roots))

  result_of-IsVerified :
      (laws : ChecksNames t) (c : X509Certificate) (options : VerifyOptions) (v : Verification)
      → Judges t c (path_options t options) (tried options.roots) v
      → IsVerified c options (result_of t (is_hostname_valid t c options.dns_name) v)
  result_of-IsVerified laws c options (Verification.verified chains) j = inl (
    refl,
    refl,
    IsAccepted-name t c (path_options t options) laws (tried options.roots) chains options.dns_name
        refl j,
    j,
  )
  result_of-IsVerified laws c options (Verification.refused es) j = inr (refl, refl, (es, refl), j)

  -- The result of VerifyCertificate is one of two. The certificate is trusted without an error, its
  -- host name is valid, and its chains are those that one of the trust store's pools accepts; or it
  -- is not trusted, has no chains and an error, and every pool refuses it. Where the options have no
  -- trust store, or one without pools, the system's roots are the only pool. A certificate that the
  -- library accepts for a name is valid for it.
  pub verify_certificate-IsVerified :
      (laws : ChecksNames t) (c : X509Certificate) (options : VerifyOptions)
      → IsVerified c options (verify_certificate t (some c) options)
  unfolding verify_certificate
  verify_certificate-IsVerified laws c options =
      result_of-IsVerified laws c options (verify t options.roots c (path_options t options))
        (verify-Judges options.roots c options)
