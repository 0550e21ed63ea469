-- ===== src/Open.antt =====
-- open.go, Open: the checks of the input, the choice of an opener, and the reconciliation and the
-- limits of what it returned. The openers of the formats (open_pem.go and the others) are an
-- interface here.
use certkit.Prelude.{ℕ, List, [], ◌∷◌, Option, none, some, ltb, leb, length}
use certkit.Result.{Result, ok, err, ◌>>=◌, ◌>>◌, guard}
use certkit.Store.Library.{Library}
use certkit.Store.Types.{Error, R, Format, Store}
use certkit.Store.Reconcile.{
  OpenOptions, normalize_open_options, reconcile_entries, validate_store_limits,
}
use certkit.Detect.Model.{Parsers, Detection, detect}
pub mod Laws
pub mod Tests

-- Go's pair of a store, which may be nil, and an error, which may come with a store.
pub record Opened : Type 0 where
  pub store : Option Store
  pub error : Option Error

pub record Openers : Type 0 where
  pub open_pem : List ℕ → OpenOptions → R Opened
  pub open_der : List ℕ → OpenOptions → R Opened
  pub open_pkcs7 : List ℕ → OpenOptions → R Opened
  pub open_pkcs12 : List ℕ → OpenOptions → R Opened
  pub open_jks : List ℕ → OpenOptions → R Opened
  pub unwrap_pem : List ℕ → List ℕ

module _ (lib : Library) (p : Parsers) (o : Openers) where
  unfoldable pub choose_format : List ℕ → Format → R Format
  unfolding detect
  choose_format data_ Format.unset = detect p data_ >>= λ d. ok d.format
  choose_format data_ Format.auto = detect p data_ >>= λ d. ok d.format
  choose_format data_ f = ok f

  unfoldable pub open_format : Format → List ℕ → OpenOptions → R Opened
  open_format Format.pem data_ options = o.open_pem data_ options
  open_format Format.der data_ options = o.open_der data_ options
  open_format Format.pkcs7 data_ options = o.open_pkcs7 (o.unwrap_pem data_) options
  open_format Format.pkcs12 data_ options = o.open_pkcs12 (o.unwrap_pem data_) options
  open_format Format.jks data_ options = o.open_jks data_ options
  open_format Format.jceks data_ options = err Error.unsupported_format
  open_format Format.bks data_ options = err Error.unsupported_format
  open_format _ data_ options = err Error.unknown_format

  -- `if store != nil`
  unfoldable pub finish : OpenOptions → Option Store → Option Error → R Opened
  unfolding reconcile_entries validate_store_limits
  finish options none error = ok (record { store = none; error = error })
  finish options (some s) error =
      reconcile_entries lib s
      >>= (λ s'. validate_store_limits s' options >> ok (record { store = some s'; error = error }))

  unfoldable pub open_input : List ℕ → OpenOptions → R Opened
  unfolding normalize_open_options choose_format open_format finish
  open_input data_ requested = do
    let options = normalize_open_options requested
    guard (ltb 0 (length data_)) Error.invalid_data
    guard (leb (length data_) options.max_input_size) Error.invalid_data
    format ← choose_format data_ options.format
    opened ← open_format format data_ options
    finish options opened.store opened.error
