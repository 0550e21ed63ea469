-- ===== src/Open/Tests.antt =====
-- open.go, Open at concrete inputs.
use certkit.Prelude.{◌≡◌, refl, [], ◌∷◌, none, some, false}
use certkit.Result.{ok, err}
use certkit.Store.Types.{Error, Format}
use certkit.Store.Operations.{new_store}
use certkit.Store.Tests.{lib}
use certkit.Store.Reconcile.{OpenOptions}
use certkit.Detect.Tests.{parsers, bks_file}
use certkit.Open.{Opened, Openers, open_input}

abbrev opened : Opened
opened = record { store = some new_store; error = none }

abbrev sample_openers : Openers
sample_openers = record {
  open_pem = λ d o. ok opened;
  open_der = λ d o. ok opened;
  open_pkcs7 = λ d o. ok opened;
  open_pkcs12 = λ d o. ok opened;
  open_jks = λ d o. ok opened;
  unwrap_pem = λ d. d;
}

abbrev pub no_options : OpenOptions
no_options = record {
  format = Format.unset;
  password = none;
  key_passwords = [];
  password_provider = none;
  disable_jks_default_password = false;
  max_input_size = 0;
  max_certificates = 0;
  max_private_keys = 0;
}

-- A JKS file is opened, a BKS file is refused as unsupported.
opens_jks :
    open_input lib parsers sample_openers (0xfe ∷ 0xed ∷ 0xfe ∷ 0xed ∷ []) no_options ≡ ok opened
unfolding open_input
opens_jks = refl

refuses_bks :
    open_input lib parsers sample_openers bks_file no_options ≡ err Error.unsupported_format
unfolding open_input
refuses_bks = refl
