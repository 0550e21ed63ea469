-- ===== src/Revocation/Laws.antt =====
-- crl.go and ocsp.go: what the results say.
use certkit.Revocation.Marks.{Revokes, Revokes-serials, InWindow, is_fresh_lem, mark_revoked_lem}
use certkit.Revocation.Listing.{Lists, entries-Lists}
use certkit.Revocation.Fetched.{IsFetched}
use certkit.Prelude.{◌≡◌, refl, sym, ap, ◌∙◌, ◌^◌, ℕ, List, Option, none, some}
use certkit.Prelude.{true, false, not, ltb, ◌↔◌}
use certkit.Prelude.{arith}
use certkit.Text.{text_eq, text_eq→eq, text_eq_refl}
use certkit.Text.{Text}
use certkit.Prelude.{◌∷◌}
use certkit.Result.{ok, Ensures, returns, Ensures-bind, Ensures-guard, Ensures-map, Ensures-ok}
use certkit.Store.Library.{Library, X509Certificate, Signer}
use certkit.Store.Types.{Error, Entry}
use certkit.Authority.Keys.{forbids, crl_sign, validate_issuer}
use certkit.Authority.Total.{or_external-found}
use certkit.Authority.Issuer.{validate_issuer-agrees}
use certkit.Revocation.Library.{RevocationLibrary, CreateCrlOptions, CrlOptions, CrlResult}
use certkit.Revocation.Library.{
  CrlTemplate, RevocationList, IsListing, Response, OcspOptions, OcspResponse, OcspResult,
}
use certkit.Revocation.Crl.{mark_revoked, differ, first_bytes, create_crl, check_list}
use certkit.Revocation.Crl.{check_crl, current_or, or_size}
use certkit.Revocation.Crl.{start_of, end_of, crl_template, unmarked_result}
use certkit.Revocation.Crl.{default_max_crl_size}
use certkit.Revocation.Ocsp.{hash_or_sha256}

-- What a result of CheckCRL says of the certificate.
abbrev pub Says :
    RevocationLibrary → X509Certificate → X509Certificate → List ℕ → CrlOptions → CrlResult → Type 0
Says x cert issuer data_ options r =
    (l : RevocationList) × (x.parse_revocation_list (first_bytes (x.pem_bytes data_) data_)
      ≡ some l)
    × (l.raw_issuer ≡ issuer.raw_subject)
    × (forbids issuer.key_usage crl_sign ≡ false)
    × (x.check_list_signature l issuer ≡ true)
    × ((r.revoked ≡ true) ↔ Revokes cert.serial_number l.entries)
    × ((r.fresh ≡ true)
        ↔ InWindow (current_or options.current_time x.now) options.max_clock_skew l.this_update
            l.next_update)

module _ (lib : Library) (x : RevocationLibrary) where
  check_list-Says :
      (cert issuer : X509Certificate) (data_ : List ℕ) (options : CrlOptions) (l : RevocationList)
      → x.parse_revocation_list (first_bytes (x.pem_bytes data_) data_) ≡ some l
      → Ensures (Says x cert issuer data_ options) (check_list lib x cert issuer l options)
  unfolding check_list
  check_list-Says cert issuer data_ options l e =
      Ensures-guard (text_eq l.raw_issuer issuer.raw_subject) Error.invalid_data λ own.
        Ensures-guard (not (differ l.authority_key_id issuer.subject_key_id)) Error.invalid_data
          λ k. Ensures-guard (not (forbids issuer.key_usage crl_sign)) Error.invalid_data λ may.
            Ensures-guard (x.check_list_signature l issuer) Error.external λ signed.
              let now = current_or options.current_time x.now in
              let (marks, fresh, v) =
                mark_revoked_lem cert.serial_number l.entries (unmarked_result lib x l options)
                  refl in
              let window = is_fresh_lem now options.max_clock_skew l.this_update l.next_update in
              returns (
                l,
                e,
                text_eq→eq l.raw_issuer issuer.raw_subject own,
                ground (arith, may),
                signed,
                marks,
                ((λ f. window.0 (sym fresh ∙ f)), (λ w. fresh ∙ window.1 w)),
              )

  -- CheckCRL ends without a panic. It returns a result only for a list of the certificate's issuer
  -- that the issuer may sign and has signed; the certificate is revoked exactly when the list has
  -- its serial number, and the list is fresh exactly when the time is in its window, widened by the
  -- clock skew on both sides.
  pub check_crl-Says :
      (cert issuer : X509Certificate) (data_ : List ℕ) (options : CrlOptions)
      → Ensures
          (Says x cert issuer data_ options)
          (check_crl lib x (some cert) (some issuer) data_ options)
  unfolding check_crl
  check_crl-Says cert issuer data_ options =
      Ensures-bind (or_external-found _) λ l e. check_list-Says cert issuer data_ options l e

  -- The template that CreateCRL signs lists the certificates of the options.
  abbrev IsSigned : X509Certificate → Signer → CreateCrlOptions → List ℕ → Type 0
  IsSigned issuer key o der =
      (t : CrlTemplate) × (x.create_revocation_list t issuer key ≡ some der)
      × ((serial : ℕ) → Revokes serial t.entries ↔ Lists serial o.certificates)

  create_crl-IsSigned :
      (issuer : Entry) (o : CreateCrlOptions) (c : X509Certificate) (k : Signer)
      → validate_issuer lib (some issuer) ≡ ok (c, k)
      → Ensures (IsSigned c k o) (create_crl lib x (some issuer) o)
  unfolding create_crl
  create_crl-IsSigned issuer o c k e = rw e (
      Ensures-guard (ltb (start_of lib x o) (end_of lib x o)) Error.invalid_data λ ordered.
        Ensures-bind (entries-Lists o.certificates)
          λ es i. Ensures-map (or_external-found _) λ der f. (crl_template lib x o es, f, i))

  differ_self : (l : List ℕ) → differ l l ≡ false
  unfolding differ
  differ_self l = rw (text_eq_refl l) (ground arith)

  -- A list that is in order is not refused.
  check_list-returns :
      (cert issuer : X509Certificate) (options : CrlOptions) (l : RevocationList)
      → l.raw_issuer ≡ issuer.raw_subject
      → l.authority_key_id ≡ issuer.subject_key_id
      → forbids issuer.key_usage crl_sign ≡ false
      → x.check_list_signature l issuer ≡ true
      → check_list lib x cert issuer l options
        ≡ ok (mark_revoked cert.serial_number l.entries (unmarked_result lib x l options))
  unfolding check_list
  check_list-returns cert issuer options l a b c d =
      let own : text_eq l.raw_issuer issuer.raw_subject ≡ true =
        ap (λ s. text_eq s issuer.raw_subject) a ∙ text_eq_refl issuer.raw_subject in
      let same : differ l.authority_key_id issuer.subject_key_id ≡ false =
        ap (λ s. differ s issuer.subject_key_id) b ∙ differ_self issuer.subject_key_id in
      rw (own, same, c, d) refl

  -- What CreateCRL makes with an entry whose certificate may sign CRLs, CheckCRL accepts for that
  -- certificate when no PEM block is found in the encoding, and a certificate is revoked by it
  -- exactly when the options list its serial number. A list that is created is parsed as its template
  -- says, with the signature of the issuer.
  pub check_crl-create_crl :
      (issuer : Entry) (o : CreateCrlOptions) (c : X509Certificate) (k : Signer) (der : List ℕ)
      (cert : X509Certificate) (options : CrlOptions)
      → IsListing lib x
      → validate_issuer lib (some issuer) ≡ ok (c, k)
      → forbids c.key_usage crl_sign ≡ false
      → create_crl lib x (some issuer) o ≡ ok der
      → x.pem_bytes der ≡ none
      → (r : CrlResult) × (check_crl lib x (some cert) (some c) der options ≡ ok r)
        × ((r.revoked ≡ true) ↔ Lists cert.serial_number o.certificates)
  unfolding check_crl
  check_crl-create_crl issuer o c k der cert options laws e may made n =
      let (t, f, i) = Ensures-ok (create_crl-IsSigned issuer o c k e) made in
      let (l, p, own, same, es, signs) = laws.parse_create t c k der f in
      let (ca, agrees) = Ensures-ok (validate_issuer-agrees lib issuer) e in
      let signed = signs ca may agrees in
      let q = check_list-returns cert c options l own same may signed in
      let (marks, fresh, v) =
        mark_revoked_lem cert.serial_number l.entries (unmarked_result lib x l options) refl in
      let listed = i cert.serial_number in
      (
        mark_revoked cert.serial_number l.entries (unmarked_result lib x l options),
        rw (n, p) q,
        (
          (λ r. listed.0 (Revokes-serials cert.serial_number l.entries t.entries es (marks.0 r))),
          (λ r.
              marks.1
                (Revokes-serials cert.serial_number t.entries l.entries (sym es) (listed.1 r))),
        ),
      )

  -- What FetchAndCheckCRL promises: the result of CheckCRL on the whole body that the server sent for
  -- the first distribution point, within the limit and with a status of success.
  abbrev pub IsChecked : X509Certificate → Option X509Certificate → CrlOptions → CrlResult → Type 0
  IsChecked cert issuer options r =
      (url : Text) × (rest : List Text) × (response : Response) × (data_ : List ℕ)
      × (cert.crl_distribution_points ≡ url ∷ rest)
      × (x.get url ≡ some response)
      × IsFetched lib x response (or_size lib x options.max_size default_max_crl_size) data_
      × (check_crl lib x (some cert) issuer data_ options ≡ ok r)

  -- What a result of CheckOCSP says: it is that of a response for the certificate.
  abbrev pub Reports :
      Option X509Certificate → Option X509Certificate → List ℕ → OcspOptions → OcspResult → Type 0
  Reports cert issuer data_ options r =
      (o : OcspResponse) × (x.parse_response_for_cert data_ cert issuer ≡ some o)
      × (r.status ≡ o.status)
      × (r.revoked_at ≡ o.revoked_at)
      × ((r.fresh ≡ true)
          ↔ InWindow (current_or options.current_time x.now) options.max_clock_skew o.this_update
              o.next_update)

  -- What FetchAndCheckOCSP promises: the report of the whole body that the first responder sent for
  -- the request that was made of the certificate, within the limit and with a status of success.
  abbrev pub IsReported :
      X509Certificate → Option X509Certificate → OcspOptions → OcspResult → Type 0
  IsReported cert issuer options r =
      (url : Text) × (rest : List Text) × (request : List ℕ) × (response : Response) × (data_ : List
        ℕ)
      × (cert.ocsp_server ≡ url ∷ rest)
      × (x.create_ocsp_request cert issuer (hash_or_sha256 options.hash) ≡ some request)
      × (x.post url request ≡ some response)
      × IsFetched lib x response (or_size lib x options.max_size (2 ^ 20)) data_
      × Reports (some cert) issuer data_ options r
