-- ===== src/Trust/Roots.antt =====
-- roots.go: the stores of roots. AddCert of a nil certificate is not called.
use certkit.Prelude.{List, [], ◌∷◌, ◌++◌, Option, none, some, Bool, false}
use certkit.Result.{ok, ◌>>=◌}
use certkit.Store.Library.{X509Certificate}
use certkit.Store.Types.{R}
use certkit.Authority.Keys.{or_external}
use certkit.Trust.Library.{Root, Pool, TrustStore, BundleRoot, Standard, TrustLibrary}

abbrev pub free_root : X509Certificate → Root
free_root c = record { certificate = c; constraint = none }

unfoldable pub add_cert : Pool → X509Certificate → Pool
add_cert pool c = pool ++ (free_root c ∷ [])

-- The loop over the certificates, without those that are nil.
unfoldable pub add_present : Pool → List (Option X509Certificate) → Pool
unfolding add_cert
add_present pool [] = pool
add_present pool (none ∷ cs) = add_present pool cs
add_present pool (some c ∷ cs) = add_present (add_cert pool c) cs

unfoldable pub custom_roots : List (Option X509Certificate) → TrustStore
unfolding add_present
custom_roots certs = record { pools = add_present [] certs ∷ [] }

abbrev pub add_to_first : List Pool → X509Certificate → List Pool
add_to_first [] c = add_cert [] c ∷ []
add_to_first (pool ∷ pools) c = add_cert pool c ∷ pools

-- TrustStore.Add.
unfoldable pub add_root : TrustStore → Option X509Certificate → TrustStore
unfolding add_cert
add_root store none = store
add_root store (some c) = record { pools = add_to_first store.pools c }

abbrev consed : Option Standard → Option (List Standard) → Option (List Standard)
consed none chain = none
consed (some c) none = none
consed (some c) (some cs) = some (c ∷ cs)

module _ (t : TrustLibrary) where
  -- The chain as certificates of crypto/x509, none when one of them is not parsed.
  unfoldable pub standard_chain_of : List X509Certificate → Option (List Standard)
  standard_chain_of [] = some []
  standard_chain_of (c ∷ cs) = consed (t.parse_standard c.raw) (standard_chain_of cs)

  abbrev pub holds_on : (List Standard → Bool) → Option (List Standard) → Bool
  holds_on constraint none = false
  holds_on constraint (some chain) = constraint chain

  abbrev pub pool_constraint : Option (List Standard → Bool) → Option (List X509Certificate → Bool)
  pool_constraint none = none
  pool_constraint (some constraint) = some (λ chain. holds_on constraint (standard_chain_of chain))

  -- The loop over the bundle.
  unfoldable pub mozilla_pool : List BundleRoot → R Pool
  unfolding standard_chain_of
  mozilla_pool [] = ok []
  mozilla_pool (root ∷ roots) = do
    c ← or_external (t.parse_certificate root.certificate)
    pool ← mozilla_pool roots
    ok (record { certificate = c; constraint = pool_constraint root.constraint } ∷ pool)

  unfoldable pub system_roots : R TrustStore
  system_roots = or_external t.system_pool >>= λ pool. ok (record { pools = pool ∷ [] })

  unfoldable pub mozilla_roots : R TrustStore
  unfolding mozilla_pool
  mozilla_roots = mozilla_pool t.bundle >>= λ pool. ok (record { pools = pool ∷ [] })

  unfoldable pub system_and_mozilla_roots : R TrustStore
  unfolding system_roots mozilla_roots
  system_and_mozilla_roots = do
    system ← system_roots
    mozilla ← mozilla_roots
    ok (record { pools = system.pools ++ mozilla.pools })
