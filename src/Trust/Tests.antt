-- ===== src/Trust/Tests.antt =====
-- roots.go and chain.go on small data, and the theorem at a concrete input.
use certkit.Prelude.{◌≡◌, refl, [], ◌∷◌, Option, none, some, true, false}
use certkit.Text.{ascii}
use certkit.Store.Library.{X509Certificate}
use certkit.Store.Tests.{root_certificate, leaf_certificate}
use certkit.Trust.Library.{Pool, TrustStore, VerifyOptions, Verification, TrustLibrary, ChecksNames}
use certkit.Trust.Roots.{custom_roots, add_root}
use certkit.Trust.Verify.{verify_certificate}
use certkit.Trust.Laws.{IsVerified, verify_certificate-IsVerified}

-- A pool accepts when it has a root.
toy_verify : X509Certificate → Option Pool → Verification
toy_verify c none = Verification.refused (1 ∷ [])
toy_verify c (some []) = Verification.refused (2 ∷ [])
toy_verify c (some (root ∷ roots)) = Verification.verified ((c ∷ root.certificate ∷ []) ∷ [])

toy : TrustLibrary
unfolding toy_verify
toy = record {
  system_pool = some [];
  bundle = record { certificate = 1 ∷ []; constraint = none } ∷ [];
  parse_certificate = λ d. some root_certificate;
  parse_standard = λ d. some 0;
  verify = λ c o. toy_verify c o.roots;
  verify_hostname = λ c name. true;
}

toy-ChecksNames : ChecksNames toy
unfolding toy
toy-ChecksNames = record { name_valid = λ c o chains x name e f. refl }

-- An empty pool, and one with a root.
abbrev two_pools : TrustStore
two_pools = record {
  pools = [] ∷ (record { certificate = root_certificate; constraint = none } ∷ []) ∷ [];
}

abbrev options : VerifyOptions
options = record {
  roots = some two_pools;
  intermediates = [];
  dns_name = ascii "a.b";
  current_time = 0;
  key_usages = [];
}

accepts : (verify_certificate toy (some leaf_certificate) options).trusted ≡ true
unfolding verify_certificate toy
accepts = refl

refuses_system :
    (verify_certificate toy (some leaf_certificate) (record options { roots = none })).trusted
    ≡ false
unfolding verify_certificate toy
refuses_system = refl

skips_nil :
    custom_roots (none ∷ some root_certificate ∷ [])
    ≡ add_root (record { pools = [] }) (some root_certificate)
unfolding custom_roots add_root
skips_nil = refl

verify_certificate-IsVerified_example :
    IsVerified toy leaf_certificate options (verify_certificate toy (some leaf_certificate) options)
verify_certificate-IsVerified_example =
    verify_certificate-IsVerified toy toy-ChecksNames leaf_certificate options
