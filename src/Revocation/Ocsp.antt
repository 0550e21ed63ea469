-- ===== src/Revocation/Ocsp.antt =====
-- ocsp.go.
use certkit.Prelude.{ℕ, ◌^◌, ◌==◌, List, [], Option, none, some, if◌then◌else◌}
use certkit.Text.{Text, decimal}
use certkit.Result.{ok, err, ◌>>=◌}
use certkit.Store.Library.{Library, X509Certificate}
use certkit.Store.Types.{Error, R}
use certkit.Authority.Keys.{or_external}
use certkit.Revocation.Library.{RevocationLibrary, OcspOptions, OcspResponse, OcspResult}
use certkit.Revocation.Crl.{current_or, is_fresh, or_size, read_response, first_point}

abbrev serial_text : Option ℕ → Text
serial_text none = []
serial_text (some n) = decimal n

-- crypto.SHA256 is 5; 0 is no hash.
abbrev pub hash_or_sha256 : ℕ → ℕ
hash_or_sha256 hash = if hash == 0 then 5 else hash

module _ (lib : Library) (x : RevocationLibrary) where
  unfoldable pub ocsp_result : OcspResponse → OcspOptions → OcspResult
  unfolding current_or is_fresh decimal
  ocsp_result response options = record {
    status = response.status;
    serial_number = serial_text response.serial_number;
    produced_at = response.produced_at;
    this_update = response.this_update;
    next_update = response.next_update;
    revoked_at = response.revoked_at;
    revocation_reason = response.revocation_reason;
    fresh =
        is_fresh (current_or options.current_time x.now) options.max_clock_skew response.this_update
          response.next_update;
  }

  unfoldable pub check_ocsp :
      Option X509Certificate → Option X509Certificate → List ℕ → OcspOptions → R OcspResult
  unfolding ocsp_result
  check_ocsp cert issuer data_ options = do
    response ← or_external (x.parse_response_for_cert data_ cert issuer)
    ok (ocsp_result response options)

  unfoldable pub fetch_and_check_ocsp :
      Option X509Certificate → Option X509Certificate → OcspOptions → R OcspResult
  unfolding read_response check_ocsp
  fetch_and_check_ocsp none issuer options = err Error.invalid_data
  fetch_and_check_ocsp (some cert) issuer options = do
    url ← first_point lib x cert.ocsp_server
    request ← or_external (x.create_ocsp_request cert issuer (hash_or_sha256 options.hash))
    response ← or_external (x.post url request)
    data_ ← read_response lib x response (or_size lib x options.max_size (2 ^ 20))
    check_ocsp (some cert) issuer data_ options
