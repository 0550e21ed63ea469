-- ===== src/Formats/Basics.antt =====
-- The steps that the openers share keep a store valid: the source and the diagnostics of a store,
-- the loop over certificates, and a key that was parsed.
use certkit.Prelude.{◌≡◌, ◌≢◌, refl, ℕ, ◌+◌, List, [], ◌∷◌, Option, none, some, true}
use certkit.Prelude.{All}
use certkit.Text.{hex}
use certkit.Result.{
  ok, err, panic, stuck, ◌>>=◌, Ensures, returns, refuses, Ensures-ok, Ensures-bind,
}
use certkit.Store.Library.{Library, X509Certificate, Signer}
use certkit.Store.Types.{R, SourceRef, SourceInfo, Certificate, PrivateKey, Store, Diagnostic}
use certkit.Store.Operations.{new_certificate, new_private_key, insert_certificate, key_algorithm}
use certkit.Store.Valid.{IsValid, valid, insert_certificate-IsValid}
use certkit.Store.Additions.{Anything}
use certkit.Store.Types.{no_source}
use certkit.Store.Chain.{certificate_role}
use certkit.Formats.Library.{raw_id, ParsedKey, HasRaw}
use certkit.Formats.Keys.{or_panic, place_certificate, add_certificates, or_next, first_signer}
use certkit.Formats.Pkcs7.{recovered}

-- The source and the diagnostics do not matter.
pub IsValid-relabel :
    (s : Store) (source : SourceInfo) (ds : List Diagnostic)
    → IsValid s
    → IsValid (record s { source = source; diagnostics = ds })
IsValid-relabel s source ds v =
    valid v.certificates_distinct v.private_keys_distinct v.private_keys_long v.entries_linked

pub add_certificates-IsValid :
    (make : X509Certificate → R Certificate) (source : ℕ → SourceRef) (i : ℕ)
    (cs : List X509Certificate) (s : Store)
    → All (λ c. Ensures (Anything {0} {A = Certificate}) (make c)) cs
    → IsValid s
    → Ensures IsValid (add_certificates make source i cs s)
unfolding add_certificates
add_certificates-IsValid make source i [] s h v = returns v
add_certificates-IsValid make source i (c ∷ cs) s (h, hs) v = Ensures-bind h λ item u.
    let placed = place_certificate (source i) item in
    add_certificates-IsValid make source (i + 1) cs (insert_certificate placed s) hs
      (insert_certificate-IsValid placed s v)

pub All-everywhere {ℓ κ} : {A : Type ℓ} (P : A → Type κ) (xs : List A) → ((x : A) → P x) → All P xs
All-everywhere P [] h = tt
All-everywhere P (x ∷ xs) h = (h x, All-everywhere P xs h)

module _ (lib : Library) where
  -- What NewCertificate returns for a certificate with an encoding.
  abbrev pub certificate_item : X509Certificate → Certificate
  certificate_item c = record {
    id = raw_id lib c;
    certificate = c;
    role = certificate_role lib c;
    source = no_source;
  }

  pub new_certificate-returns :
      (c : X509Certificate) → HasRaw c → new_certificate lib (some c) ≡ ok (certificate_item c)
  unfolding new_certificate
  new_certificate-returns c h = rw h refl

  -- What NewPrivateKey returns, when the public key has the encoding `der`.
  abbrev pub private_key_item : Signer → List ℕ → PrivateKey
  private_key_item k der = record {
    id = hex (lib.sha256 der);
    signer = k;
    algorithm = key_algorithm lib k;
    exportable = true;
    source = no_source;
  }

  pub new_private_key-returns :
      (k : Signer) (der : List ℕ)
      → lib.marshal_pkix (lib.public k) ≡ some der
      → new_private_key lib (some k) ≡ ok (private_key_item k der)
  unfolding new_private_key
  new_private_key-returns k der e = rw (e, new_private_key) refl

  pub or_panic-new_certificate :
      (c : X509Certificate)
      → HasRaw c
      → Ensures (Anything {0} {A = Certificate}) (or_panic (new_certificate lib (some c)))
  or_panic-new_certificate c h = rw (new_certificate-returns c h) (returns tt)

or_next-holds :
    (P : Signer → Type 0) (o : Option ParsedKey) (next : Option Signer)
    → ((k : Signer) → o ≡ some (some k) → P k)
    → ((k : Signer) → next ≡ some k → P k)
    → (k : Signer) → or_next o next ≡ some k
    → P k
or_next-holds P none next h n k e = n k e
or_next-holds P (some none) next h n k e = n k e
or_next-holds P (some (some j)) next h n k e = h k (cc)

-- What holds of the keys of each parser holds of the first signer.
pub first_signer-holds :
    (P : Signer → Type 0) (parsers : List (List ℕ → Option ParsedKey)) (der : List ℕ)
    → All (λ f. (k : Signer) → f der ≡ some (some k) → P k) parsers
    → (k : Signer) → first_signer parsers der ≡ some k
    → P k
unfolding first_signer
first_signer-holds P [] der h k e = cc
first_signer-holds P (f ∷ fs) der (h, hs) k e =
    or_next-holds P (f der) (first_signer fs der) h (first_signer-holds P fs der hs) k e

stuck-fails {ℓ} : {A : Type 0} {P : A → Type ℓ} {r : R A} → Ensures P r → r ≢ stuck
stuck-fails (returns h) e = cc
stuck-fails refuses e = cc

-- A deferred recovery turns a panic into an error.
pub recovered-bind {ℓ κ} :
    {A B : Type 0} {P : A → Type ℓ} {Q : B → Type κ} (r : R A) (f : A → R B)
    → Ensures P (recovered r)
    → ((a : A) → P a → Ensures Q (recovered (f a)))
    → Ensures Q (recovered (r >>= f))
recovered-bind (ok a) f h k = k a (Ensures-ok h refl)
recovered-bind (err e) f h k = refuses
recovered-bind panic f h k = refuses
recovered-bind stuck f h k = absurd (stuck-fails h refl)
