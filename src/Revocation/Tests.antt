-- ===== src/Revocation/Tests.antt =====
-- crl.go and ocsp.go on small data, and the theorems at concrete inputs.
use certkit.Prelude.{◌≡◌, refl, ap, subst, ◌∙◌, ℕ, List, [], ◌∷◌, ◌++◌}
use certkit.Prelude.{Option, none, some, Bool, true, false, length, take, drop, ◌↔◌}
use certkit.Text.{text_eq}
use certkit.Result.{ok, Ensures}
use certkit.Store.Library.{X509Certificate, Signer}
use certkit.Store.Types.{R}
use certkit.Store.Tests.{lib, root_certificate, leaf_certificate}
use certkit.Authority.Keys.{validate_issuer, forbids, crl_sign}
use certkit.Authority.Tests.{issuer}
use certkit.Store.Chain.{public_keys_equal}
use certkit.Revocation.Library.{
  RevocationLibrary, CreateCrlOptions, CrlOptions, CrlResult, RevocationEntry,
}
use certkit.Revocation.Library.{CrlTemplate, RevocationList, IsListing, OcspOptions}
use certkit.Revocation.Library.{OcspResponse, serials}
use certkit.Revocation.Crl.{create_crl, check_crl, is_fresh}
use certkit.Revocation.Listing.{Lists}
use certkit.Revocation.Laws.{Says, check_crl-Says, check_crl-create_crl}

-- A toy encoding of a list.
write_entries : List RevocationEntry → List ℕ
write_entries [] = []
write_entries (e ∷ es) = e.serial_number ∷ e.revocation_time ∷ e.reason_code ∷ write_entries es

read_entries : List ℕ → List RevocationEntry
read_entries (s ∷ t ∷ r ∷ rest) =
    record { serial_number = s; revocation_time = t; reason_code = r } ∷ read_entries rest
read_entries _ = []

read_write_entries : (es : List RevocationEntry) → read_entries (write_entries es) ≡ es
unfolding read_entries write_entries
read_write_entries [] = refl
read_write_entries (e ∷ es) = ap (λ l. e ∷ l) (read_write_entries es)

toy_create : CrlTemplate → X509Certificate → List ℕ
unfolding write_entries
toy_create t issuer =
    t.this_update
    ∷ t.next_update
    ∷ length issuer.raw_subject
    ∷ length issuer.subject_key_id
    ∷ (issuer.raw_subject ++ (issuer.subject_key_id ++ write_entries t.entries))

toy_parse : List ℕ → Option RevocationList
unfolding read_entries
toy_parse (this_update ∷ next_update ∷ m ∷ n ∷ rest) = some (record {
  raw_issuer = take m rest;
  authority_key_id = take n (drop m rest);
  this_update = this_update;
  next_update = next_update;
  entries = read_entries (drop n (drop m rest));
})
toy_parse _ = none

take_self : (xs ys : List ℕ) → take (length xs) (xs ++ ys) ≡ xs
take_self [] ys = refl
take_self (x ∷ xs) ys = ap (λ l. x ∷ l) (take_self xs ys)

drop_self : (xs ys : List ℕ) → drop (length xs) (xs ++ ys) ≡ ys
drop_self [] ys = refl
drop_self (x ∷ xs) ys = drop_self xs ys

abbrev good : OcspResponse
good = record {
  status = 0;
  serial_number = some 97;
  produced_at = 5;
  this_update = 5;
  next_update = 50;
  revoked_at = 0;
  revocation_reason = 0;
}

abbrev create_options : CreateCrlOptions
create_options = record {
  number = none;
  this_update = 5;
  next_update = 50;
  valid_for = 0;
  certificates = record { serial_number = some 97; revocation_time = 4; reason_code = 1 } ∷ [];
}

toy : RevocationLibrary
unfolding toy_create toy_parse
toy = record {
  now = 20;
  pem_bytes = λ d. none;
  parse_revocation_list = toy_parse;
  check_list_signature = λ l c. true;
  create_revocation_list = λ t c k. some (toy_create t c);
  get =
      λ u. some (record { status_code = 200; body = some (5 ∷ 50 ∷ 1 ∷ 0 ∷ 2 ∷ 97 ∷ 4 ∷ 1 ∷ []) });
  post = λ u d. some (record { status_code = 204; body = some [] });
  create_ocsp_request = λ c i h. some (h ∷ []);
  parse_response_for_cert = λ d c i. some good;
}

some-injective : {A : Type 0} {x y : A} → some x ≡ some y → x ≡ y
some-injective e = cc e

toy-parse_create :
    (t : CrlTemplate) (issuer : X509Certificate) (signer : Signer) (der : List ℕ)
    → some (toy_create t issuer) ≡ some der
    → (l : RevocationList) × (toy_parse der ≡ some l)
      × (l.raw_issuer ≡ issuer.raw_subject)
      × (l.authority_key_id ≡ issuer.subject_key_id)
      × (serials l.entries ≡ serials t.entries)
      × ((◌≡◌ {A = Bool} issuer.is_ca true)
          → forbids issuer.key_usage crl_sign ≡ false
          → public_keys_equal lib (lib.public signer) issuer.public_key ≡ true
          → ◌≡◌ {A = Bool} true true)
unfolding toy_create toy_parse
toy-parse_create t issuer signer der e =
    let rest = issuer.subject_key_id ++ write_entries t.entries in
    let behind = drop_self issuer.raw_subject rest in
    subst
      (λ d.
        (l : RevocationList) × (toy_parse d ≡ some l)
        × (l.raw_issuer ≡ issuer.raw_subject)
        × (l.authority_key_id ≡ issuer.subject_key_id)
        × (serials l.entries ≡ serials t.entries)
        × ((◌≡◌ {A = Bool} issuer.is_ca true)
            → forbids issuer.key_usage crl_sign ≡ false
            → public_keys_equal lib (lib.public signer) issuer.public_key ≡ true
            → ◌≡◌ {A = Bool} true true))
      (some-injective e)
      (
        record {
          raw_issuer = take (length issuer.raw_subject) (issuer.raw_subject ++ rest);
          authority_key_id =
              take (length issuer.subject_key_id)
                (drop (length issuer.raw_subject) (issuer.raw_subject ++ rest));
          this_update = t.this_update;
          next_update = t.next_update;
          entries = read_entries (
              drop (length issuer.subject_key_id)
                (drop (length issuer.raw_subject) (issuer.raw_subject ++ rest)));
        },
        refl,
        take_self issuer.raw_subject rest,
        ap (take (length issuer.subject_key_id)) behind
            ∙ take_self issuer.subject_key_id (write_entries t.entries),
        ap (λ d. serials (read_entries (drop (length issuer.subject_key_id) d))) behind
            ∙ ap (λ d. serials (read_entries d))
                (drop_self issuer.subject_key_id (write_entries t.entries))
            ∙ ap serials (read_write_entries t.entries),
        λ ca may agrees. refl,
      )

toy-IsListing : IsListing lib toy
unfolding toy
toy-IsListing = record { parse_create = λ t c k der e. toy-parse_create t c k der e }

abbrev check_options : CrlOptions
check_options = record { current_time = 0; max_clock_skew = 3; max_size = 0 }

abbrev list_der : List ℕ
list_der = 5 ∷ 50 ∷ 1 ∷ 0 ∷ 2 ∷ 97 ∷ 4 ∷ 1 ∷ []

abbrev status_of : R CrlResult → Option (Bool × Bool)
status_of (ok r) = some (r.revoked, r.fresh)
status_of _ = none

creates : create_crl lib toy (some issuer) create_options ≡ ok list_der
unfolding create_crl toy toy_create text_eq
creates = refl

revokes :
    status_of
      (check_crl lib toy (some leaf_certificate) (some root_certificate) list_der check_options)
    ≡ some (true, true)
unfolding check_crl toy toy_parse
revokes = refl

-- The serial number of the issuer's own certificate is not listed.
spares :
    status_of
      (check_crl lib toy (some root_certificate) (some root_certificate) list_der check_options)
    ≡ some (false, true)
unfolding check_crl toy toy_parse
spares = refl

-- The window is from 5 to 50, and the skew 3.
stale : is_fresh 54 3 5 50 ≡ false
unfolding is_fresh
stale = refl

check_crl-Says_example :
    Ensures
      (Says toy leaf_certificate root_certificate list_der check_options)
      (check_crl lib toy (some leaf_certificate) (some root_certificate) list_der check_options)
check_crl-Says_example =
    check_crl-Says lib toy leaf_certificate root_certificate list_der check_options

issuer_signs : validate_issuer lib (some issuer) ≡ ok (root_certificate, 8)
unfolding validate_issuer text_eq
issuer_signs = refl

may_sign_crls : forbids root_certificate.key_usage crl_sign ≡ false
unfolding forbids
may_sign_crls = refl

no_pem_block : toy.pem_bytes list_der ≡ none
unfolding toy
no_pem_block = refl

check_crl-create_crl_example :
    (r : CrlResult) × (check_crl lib toy
        (some leaf_certificate)
        (some root_certificate)
        list_der
        check_options
      ≡ ok r)
    × ((r.revoked ≡ true) ↔ Lists leaf_certificate.serial_number create_options.certificates)
check_crl-create_crl_example =
    check_crl-create_crl lib toy issuer create_options root_certificate 8 list_der leaf_certificate
      check_options toy-IsListing issuer_signs may_sign_crls creates no_pem_block

abbrev ocsp_options : OcspOptions
ocsp_options = record { current_time = 0; max_clock_skew = 3; hash = 0; max_size = 0 }
