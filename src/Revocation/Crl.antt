-- ===== src/Revocation/Crl.antt =====
-- crl.go.
use certkit.Prelude.{ℕ, ◌+◌, ◌-◌, ◌*◌, ◌^◌, ◌==◌, List, [], ◌∷◌, Option, none, some, Bool, true}
use certkit.Prelude.{false, ◌&&◌, ◌||◌, not, ltb, leb, length, take, if◌then◌else◌}
use certkit.Text.{Text, text_eq}
use certkit.Result.{ok, err, ◌>>=◌, ◌>>◌, guard}
use certkit.Store.Library.{Library, X509Certificate}
use certkit.Store.Types.{Error, R, Entry}
use certkit.Authority.Keys.{or_external, forbids, crl_sign, validate_issuer, day}
use certkit.Revocation.Library.{
  RevocationLibrary, RevokedCertificate, CreateCrlOptions, CrlOptions, CrlResult, RevocationEntry,
}
use certkit.Revocation.Library.{CrlTemplate, RevocationList, Response}

abbrev pub default_max_crl_size : ℕ
default_max_crl_size = 16 * 2 ^ 20

abbrev pub revocation_entry : Option ℕ → RevokedCertificate → R RevocationEntry
revocation_entry none c = err Error.invalid_data
revocation_entry (some serial) c =
    if c.revocation_time == 0
    then err Error.invalid_data
    else ok (record {
      serial_number = serial;
      revocation_time = c.revocation_time;
      reason_code = c.reason_code;
    })

unfoldable pub revocation_entries : List RevokedCertificate → R (List RevocationEntry)
revocation_entries [] = ok []
revocation_entries (c ∷ cs) = do
  entry ← revocation_entry c.serial_number c
  entries ← revocation_entries cs
  ok (entry ∷ entries)

abbrev number_or_one : Option ℕ → ℕ
number_or_one none = 1
number_or_one (some n) = n

unfoldable pub default_valid_for : ℕ → ℕ
default_valid_for valid_for = if valid_for == 0 then 7 * day else valid_for

-- `thisUpdate` and `nextUpdate`.
abbrev pub first_update : ℕ → ℕ → ℕ
first_update this_update now = if this_update == 0 then now - 60 * 1000000000 else this_update

abbrev pub following_update : ℕ → ℕ → ℕ → ℕ
following_update next_update start valid_for =
    if next_update == 0 then start + default_valid_for valid_for else next_update

unfoldable pub current_or : ℕ → ℕ → ℕ
current_or current_time now = if current_time == 0 then now else current_time

-- The expression for Fresh, which crl.go and ocsp.go share.
unfoldable pub is_fresh : ℕ → ℕ → ℕ → ℕ → Bool
is_fresh now skew this_update next_update =
    not (ltb (now + skew) this_update) && (next_update == 0 || not (ltb next_update (now - skew)))

-- The loop over the entries; the first entry with the serial number counts.
unfoldable pub mark_revoked : ℕ → List RevocationEntry → CrlResult → CrlResult
mark_revoked serial [] r = r
mark_revoked serial (e ∷ es) r =
    if e.serial_number == serial
    then record r {
      revoked = true;
      reason_code = e.reason_code;
      revocation_time = e.revocation_time;
    }
    else mark_revoked serial es r

abbrev pub first_bytes : Option (List ℕ) → List ℕ → List ℕ
first_bytes none data_ = data_
first_bytes (some bytes) data_ = bytes

-- `len(a) > 0 && len(b) > 0 && !bytes.Equal(a, b)`
unfoldable pub differ : List ℕ → List ℕ → Bool
unfolding text_eq
differ x y = ltb 0 (length x) && ltb 0 (length y) && not (text_eq x y)

module _ (lib : Library) (x : RevocationLibrary) where
  -- `thisUpdate` and `nextUpdate` after the defaults.
  abbrev pub start_of : CreateCrlOptions → ℕ
  start_of options = first_update options.this_update x.now

  abbrev pub end_of : CreateCrlOptions → ℕ
  end_of options = following_update options.next_update (start_of options) options.valid_for

  abbrev pub crl_template : CreateCrlOptions → List RevocationEntry → CrlTemplate
  crl_template options entries = record {
    number = number_or_one options.number;
    this_update = start_of options;
    next_update = end_of options;
    entries = entries;
  }

  unfoldable pub create_crl : Option Entry → CreateCrlOptions → R (List ℕ)
  unfolding validate_issuer revocation_entries default_valid_for
  create_crl issuer options = do
    (issuer_cert, issuer_key) ← validate_issuer lib issuer
    guard (ltb (start_of options) (end_of options)) Error.invalid_data
    entries ← revocation_entries options.certificates
    or_external (x.create_revocation_list (crl_template options entries) issuer_cert issuer_key)

  -- The result before the loop over the entries.
  abbrev pub unmarked_result : RevocationList → CrlOptions → CrlResult
  unmarked_result list options = record {
    revoked = false;
    reason_code = 0;
    revocation_time = 0;
    this_update = list.this_update;
    next_update = list.next_update;
    signature_valid = true;
    fresh =
        is_fresh (current_or options.current_time x.now) options.max_clock_skew list.this_update
          list.next_update;
  }

  -- `cert` is read only for its serial number.
  unfoldable pub check_list :
      X509Certificate → X509Certificate → RevocationList → CrlOptions → R CrlResult
  unfolding text_eq differ forbids current_or is_fresh mark_revoked
  check_list cert issuer list options = do
    guard (text_eq list.raw_issuer issuer.raw_subject) Error.invalid_data
    guard (not (differ list.authority_key_id issuer.subject_key_id)) Error.invalid_data
    guard (not (forbids issuer.key_usage crl_sign)) Error.invalid_data
    guard (x.check_list_signature list issuer) Error.external
    ok (mark_revoked cert.serial_number list.entries (unmarked_result list options))

  unfoldable pub check_crl :
      Option X509Certificate → Option X509Certificate → List ℕ → CrlOptions → R CrlResult
  unfolding check_list
  check_crl none issuer data_ options = err Error.invalid_data
  check_crl (some cert) none data_ options = err Error.invalid_data
  check_crl (some cert) (some issuer) data_ options = do
    list ← or_external (x.parse_revocation_list (first_bytes (x.pem_bytes data_) data_))
    check_list cert issuer list options

  abbrev pub or_size : ℕ → ℕ → ℕ
  or_size max_size default = if max_size == 0 then default else max_size

  -- The status, and at most `max_size` bytes of the body.
  unfoldable pub read_response : Response → ℕ → R (List ℕ)
  read_response response max_size = do
    guard (not (ltb response.status_code 200 || leb 300 response.status_code)) Error.external
    body ← or_external response.body
    let data_ = take (max_size + 1) body
    guard (not (ltb max_size (length data_))) Error.invalid_data
    ok data_

  abbrev pub first_point : List Text → R Text
  first_point [] = err Error.invalid_data
  first_point (url ∷ urls) = ok url

  unfoldable pub fetch_and_check_crl :
      Option X509Certificate → Option X509Certificate → CrlOptions → R CrlResult
  unfolding read_response check_crl
  fetch_and_check_crl none issuer options = err Error.invalid_data
  fetch_and_check_crl (some cert) issuer options = do
    url ← first_point cert.crl_distribution_points
    response ← or_external (x.get url)
    data_ ← read_response response (or_size options.max_size default_max_crl_size)
    check_crl (some cert) issuer data_ options
