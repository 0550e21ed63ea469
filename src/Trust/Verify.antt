-- ===== src/Trust/Verify.antt =====
-- TrustStore.verify of roots.go, and VerifyCertificate of chain.go.
use certkit.Prelude.{ℕ, List, [], ◌∷◌, ◌++◌, Option, none, some, Bool, true, false}
use certkit.Text.{Text}
use certkit.Store.Library.{X509Certificate}
use certkit.Trust.Library.{
  Pool, TrustStore, VerifyOptions, PathOptions, Verification, VerifyError, VerifyResult,
}
use certkit.Trust.Library.{TrustLibrary}

module _ (t : TrustLibrary) where
  -- The loop over the pools, with the errors so far.
  unfoldable pub verify_pools : X509Certificate → PathOptions → List Pool → List ℕ → Verification
  verify_pools c options [] errors = Verification.refused errors
  verify_pools c options (pool ∷ pools) errors =
      elim (t.verify c (record options { roots = some pool })) [
        | Verification.verified chains ↦ Verification.verified chains
        | Verification.refused es ↦ verify_pools c options pools (errors ++ es)
      ]

  abbrev pub verify_in : X509Certificate → PathOptions → List Pool → Verification
  verify_in c options [] = t.verify c options
  verify_in c options (pool ∷ pools) = verify_pools c options (pool ∷ pools) []

  unfoldable pub verify : Option TrustStore → X509Certificate → PathOptions → Verification
  unfolding verify_pools
  verify none c options = t.verify c options
  verify (some store) c options = verify_in c options store.pools

  abbrev pub path_options : VerifyOptions → PathOptions
  path_options options = record {
    roots = none;
    intermediates = options.intermediates;
    dns_name = options.dns_name;
    current_time = options.current_time;
    key_usages = options.key_usages;
  }

  -- HostnameValid.
  unfoldable pub is_hostname_valid : X509Certificate → Text → Bool
  is_hostname_valid c [] = true
  is_hostname_valid c (x ∷ name) = t.verify_hostname c (x ∷ name)

  abbrev pub is_empty : Text → Bool
  is_empty [] = true
  is_empty (x ∷ name) = false

  abbrev pub result_of : Bool → Verification → VerifyResult
  result_of hostname_valid (Verification.verified chains) = record {
    trusted = true;
    hostname_valid = hostname_valid;
    chains = chains;
    error = none;
  }
  result_of hostname_valid (Verification.refused errors) = record {
    trusted = false;
    hostname_valid = hostname_valid;
    chains = [];
    error = some (VerifyError.refused_for errors);
  }

  unfoldable pub verify_certificate : Option X509Certificate → VerifyOptions → VerifyResult
  unfolding verify is_hostname_valid
  verify_certificate none options = record {
    trusted = false;
    hostname_valid = is_empty options.dns_name;
    chains = [];
    error = some VerifyError.no_certificate;
  }
  verify_certificate (some c) options =
      result_of (is_hostname_valid c options.dns_name)
        (verify options.roots c (path_options options))
