-- ===== src/Trust/Library.antt =====
-- The types of roots.go and chain.go, and what they call outside: smx509, the system's roots, and
-- the bundle of Mozilla's roots. An intermediate that is nil, on which AddCert panics, is not
-- followed.
use certkit.Prelude.{ℕ, ◌≡◌, List, ◌∷◌, Option, Bool, true}
use certkit.Text.{Text}
use certkit.Store.Library.{X509Certificate}

-- A root of a pool with the constraint on chains, which answers whether it has no error.
pub record Root : Type 0 where
  pub certificate : X509Certificate
  pub constraint : Option (List X509Certificate → Bool)

-- smx509.CertPool, as the roots that were added to it.
abbrev pub Pool : Type 0
Pool = List Root

pub record TrustStore : Type 0 where
  pub pools : List Pool

-- A certificate of crypto/x509 is a number.
abbrev pub Standard : Type 0
Standard = ℕ

-- bundle.Root
pub record BundleRoot : Type 0 where
  pub certificate : List ℕ
  pub constraint : Option (List Standard → Bool)

pub record VerifyOptions : Type 0 where
  pub roots : Option TrustStore
  pub intermediates : List X509Certificate
  pub dns_name : Text
  pub current_time : ℕ
  pub key_usages : List ℕ

-- smx509.VerifyOptions; no roots are those of the system.
pub record PathOptions : Type 0 where
  pub roots : Option Pool
  pub intermediates : List X509Certificate
  pub dns_name : Text
  pub current_time : ℕ
  pub key_usages : List ℕ

abbrev pub Chains : Type 0
Chains = List (List X509Certificate)

-- What Verify returns: the chains, or errors, each a number. On an error it has no chains.
pub data Verification : Type 0 where
  verified : Chains → Verification
  refused : List ℕ → Verification

pub data VerifyError : Type 0 where
  no_certificate : VerifyError
  refused_for : List ℕ → VerifyError

pub record VerifyResult : Type 0 where
  pub trusted : Bool
  pub hostname_valid : Bool
  pub chains : Chains
  pub error : Option VerifyError

pub record TrustLibrary : Type 0 where
  pub system_pool : Option Pool
  pub bundle : List BundleRoot
  pub parse_certificate : List ℕ → Option X509Certificate
  pub parse_standard : List ℕ → Option Standard
  pub verify : X509Certificate → PathOptions → Verification
  pub verify_hostname : X509Certificate → Text → Bool

-- What is documented of Verify: a certificate that it accepts for a name is valid for that name.
pub record ChecksNames (t : TrustLibrary) : Type 0 where
  pub name_valid :
      (c : X509Certificate) (o : PathOptions) (chains : Chains) (x : ℕ) (name : Text)
      → o.dns_name ≡ x ∷ name
      → t.verify c o ≡ Verification.verified chains
      → t.verify_hostname c (x ∷ name) ≡ true
