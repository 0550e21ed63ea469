-- ===== src/Formats/Reader.antt =====
-- open.go, Open, with the openers of this folder.
use certkit.Prelude.{◌≡◌, refl, ℕ, List, Option, some, none}
use certkit.Result.{◌>>=◌, Ensures, returns, Ensures-bind}
use certkit.Store.Library.{Library}
use certkit.Store.Types.{R}
use certkit.Store.Reconcile.{OpenOptions, normalize_open_options}
use certkit.Detect.Model.{Parsers}
use certkit.Rc2.Schedule.{IsBytes}
use certkit.Open.{Opened, Openers, open_input}
use certkit.Open.Laws.{IsSound, HasResult, open_input-HasResult}
use certkit.Formats.Library.{FormatLibrary, HasDistinctTrust, Block}
use certkit.Formats.Keys.{only_store, unwrap_pem, first_block_bytes}
use certkit.Formats.Pkcs7.{open_pkcs7, open_der}
use certkit.Formats.Pem.{open_pem}
use certkit.Formats.Jks.{open_jks}
use certkit.Formats.Pkcs12.{open_pkcs12}
use certkit.Formats.PemSound.{open_pkcs7-IsValid, open_der-HasValid, open_pem-HasValid}
use certkit.Formats.JksSound.{open_jks-HasValid}
use certkit.Formats.BagSound.{Relies}
use certkit.Formats.Pkcs12Sound.{open_pkcs12-HasValid}

module _ (lib : Library) (x : FormatLibrary) where
  abbrev pub openers : Openers
  openers = record {
    open_pem = open_pem lib x;
    open_der = open_der lib x;
    open_pkcs7 = λ data_ options. open_pkcs7 lib x data_ >>= (λ s. only_store s);
    open_pkcs12 = open_pkcs12 lib x;
    open_jks = open_jks lib x;
    unwrap_pem = unwrap_pem x;
  }

  first_block_bytes-IsBytes :
      (o : Option (Block × List ℕ)) (data_ : List ℕ)
      → ((b : Block) (rest : List ℕ) → o ≡ some (b, rest) → IsBytes b.bytes)
      → IsBytes data_
      → IsBytes (first_block_bytes o data_)
  first_block_bytes-IsBytes none data_ h b = b
  first_block_bytes-IsBytes (some (block, rest)) data_ h b = h block rest refl

  openers-IsSound :
      (data_ : List ℕ)
      → Relies lib x
      → HasDistinctTrust lib x (unwrap_pem x data_)
      → IsBytes data_
      → IsSound openers data_
  unfolding unwrap_pem
  openers-IsSound data_ relies distinct b =
      let unwrapped : IsBytes (unwrap_pem x data_) =
        first_block_bytes-IsBytes (x.pem_decode data_) data_
          (λ block rest e. (relies.parsing.pem_bytes data_ block rest b e).0) b in
      record {
        pem = λ options. open_pem-HasValid lib x relies.hashes relies.parsing data_ options b;
        der = λ options. open_der-HasValid lib x relies.hashes relies.parsing data_ options b;
        pkcs7 = λ options.
            Ensures-bind
              (open_pkcs7-IsValid lib x relies.hashes relies.parsing (unwrap_pem x data_) unwrapped)
              λ s v. returns v;
        pkcs12 = open_pkcs12-HasValid lib x relies (unwrap_pem x data_) distinct;
        jks = λ options. open_jks-HasValid lib x relies.hashes relies.parsing data_ options b;
      }

  unfoldable pub open_file : Parsers → List ℕ → OpenOptions → R Opened
  unfolding open_input
  open_file p data_ requested = open_input lib p openers data_ requested

  -- Open, with its five openers, ends without a panic under all options on every input of bytes that
  -- is not a PKCS#12 trust store with a certificate twice, and the store that it returns is valid,
  -- keeps the limits, and has an entry for every private key. The hash returns bytes enough for an
  -- identifier, digits fold to themselves, and the parsers are as IsParsing says.
  pub open_file-HasResult :
      (p : Parsers) (data_ : List ℕ) (requested : OpenOptions)
      → Relies lib x
      → HasDistinctTrust lib x (unwrap_pem x data_)
      → IsBytes data_
      → IsBytes (p.trim_space data_)
      → Ensures (HasResult (normalize_open_options requested)) (open_file p data_ requested)
  unfolding open_file
  open_file-HasResult p data_ requested relies distinct b w =
      open_input-HasResult lib p openers data_ requested (openers-IsSound data_ relies distinct b) w
