-- ===== src/Formats/Pkcs7.antt =====
-- open_pkcs7.go and open_der.go.
use certkit.Prelude.{ℕ, ◌==◌, List, [], Option, none, some, true, length, not}
use certkit.Result.{Result, ok, err, panic, stuck, ◌>>=◌, ◌>>◌, guard}
use certkit.Store.Library.{Library, Signer}
use certkit.Store.Types.{Error, R, Format, Encoding, Store, PasswordPurpose}
use certkit.Store.Operations.{new_store, new_certificate, new_private_key, insert_private_key}
use certkit.Store.Reconcile.{OpenOptions}
use certkit.Ber.Read.{to_der}
use certkit.Passwords.{password_for}
use certkit.Open.{Opened}
use certkit.Formats.Library.{FormatLibrary}
use certkit.Formats.Keys.{
  only_store, or_panic, place_private_key, parse_private_key, add_certificates,
}

-- A new store with its source.
abbrev pub empty_store : Format → Encoding → Store
empty_store f e = record new_store {
  source = record { format = f; encoding = e; integrity_verified = true };
}

-- An error of another package, wrapped.
abbrev pub wrapped {ℓ} : {E : Type 0} {A : Type ℓ} → Result E A → R A
wrapped (ok a) = ok a
wrapped (err e) = err Error.external
wrapped panic = panic
wrapped stuck = stuck

-- The deferred function: a panic becomes an error.
abbrev pub recovered {ℓ} : {A : Type ℓ} → R A → R A
recovered (ok a) = ok a
recovered (err e) = err e
recovered panic = err Error.invalid_data
recovered stuck = stuck

-- The password when there is one, and nil otherwise: password_for returns or refuses.
abbrev pub or_nil : R (List ℕ) → List ℕ
or_nil (ok password) = password
or_nil _ = []

module _ (lib : Library) (x : FormatLibrary) where
  unfoldable pub read_pkcs7 : List ℕ → R Store
  unfolding to_der new_certificate add_certificates
  read_pkcs7 ber = do
    data_ ← wrapped (to_der ber)
    certs ← wrapped (x.parse_pkcs7 data_)
    s ←
        add_certificates (λ c. new_certificate lib (some c))
          (λ i. record { format = Format.pkcs7; alias = []; index = i }) 0 certs
          (empty_store Format.pkcs7 Encoding.der)
    guard (not (length s.certificates == 0)) Error.no_certificate
    ok s

  unfoldable pub open_pkcs7 : List ℕ → R Store
  unfolding read_pkcs7
  open_pkcs7 ber = recovered (read_pkcs7 ber)

  unfoldable pub der_key : Option Signer → R Opened
  unfolding new_private_key insert_private_key
  der_key none = err Error.invalid_data
  der_key (some key) = do
    item ← new_private_key lib (some key)
    only_store (
        insert_private_key
          (place_private_key (record { format = Format.der; alias = []; index = 0 }) item)
          (empty_store Format.der Encoding.der))

  unfoldable pub open_der : List ℕ → OpenOptions → R Opened
  unfolding password_for parse_private_key add_certificates new_certificate der_key
  open_der data_ options = elim (x.parse_certificates data_) [
    | some certs ↦
        add_certificates (λ c. or_panic (new_certificate lib (some c)))
          (λ i. record { format = Format.der; alias = []; index = i }) 0 certs
          (empty_store Format.der Encoding.der)
        >>= (λ s. only_store s)
    | none ↦ der_key (
        parse_private_key x data_ (
          or_nil (
            password_for options.password options.password_provider
              (record { format = Format.der; alias = []; purpose = PasswordPurpose.private_key }))))
  ]
