-- ===== src/Authority/Tests.antt =====
-- ca.go and csr.go on small data, and the theorems at concrete inputs.
use certkit.Prelude.{
  ◌≡◌, refl, sym, ◌∙◌, subst, ℕ, ◌^◌, ◌==◌, List, [], ◌∷◌, ◌++◌, Option, none, some,
}
use certkit.Prelude.{Bool, true, false, length, take, drop, arith}
use certkit.Prelude.{if◌then◌else◌}
use certkit.Text.{Text, ascii}
use certkit.Result.{ok, err, Ensures}
use certkit.Store.Library.{X509Certificate, PublicKey, Signer}
use certkit.Store.Types.{Error, R, Entry, PrivateKeyStatus}
use certkit.Store.Tests.{lib, hashes, root_certificate, root_item, key_item}
use certkit.Authority.Library.{
  AuthorityLibrary, CertificateOptions, RootCaOptions, KeyOptions, Template, Parent,
  CertificateRequest, Follows, IsIssuing,
}
use certkit.Authority.Keys.{validate_issuer}
use certkit.Authority.Issue.{create_root_ca, issue_certificate, sign_certificate_request}
use certkit.Authority.Laws.{
  IsIssuedEntry, IsRootEntry, IsSignedEntry, issue_certificate-IsIssuedEntry,
  create_root_ca-IsRootEntry,
}
use certkit.Authority.Laws.{sign_certificate_request-IsSignedEntry}
use certkit.Authority.Issue.{create_certificate_request, with_request}
use certkit.Authority.Library.{CsrOptions, Name}

-- A toy encoding of what is read back.
abbrev toy_encode : Template → PublicKey → List ℕ
toy_encode t key =
    key
    ∷ (if t.is_ca then 1 else 0)
    ∷ t.not_after
    ∷ t.key_usage
    ∷ t.serial_number
    ∷ length t.subject_key_id
    ∷ (t.subject_key_id ++ t.authority_key_id)

unfoldable toy_parse : List ℕ → Option X509Certificate
toy_parse (key ∷ ca ∷ not_after ∷ usage ∷ serial ∷ n ∷ rest) = some (record root_certificate {
  raw = 1 ∷ [];
  subject_key_id = take n rest;
  authority_key_id = drop n rest;
  is_ca = ca == 1;
  public_key = key;
  not_after = not_after;
  key_usage = usage;
  serial_number = serial;
})
toy_parse _ = none

abbrev requested_subject : Name
requested_subject = record { names = 1 ∷ []; attributes = 1 ∷ [] }

-- A subject as a caller writes it.
abbrev own_subject : Name
own_subject = record { names = []; attributes = 2 ∷ [] }

abbrev request : CertificateRequest
request = record {
  subject = requested_subject;
  public_key = 20;
  dns_names = [];
  ip_addresses = [];
  email_addresses = [];
  uris = [];
}

-- A request whose first octet is its key.
unfoldable toy_read_request : List ℕ → Option CertificateRequest
toy_read_request [] = none
toy_read_request (key ∷ _) = some (record request { public_key = key })

-- Only requests without names are written.
unfoldable toy_write_request : List Text → Signer → Option (List ℕ)
toy_write_request [] key = some (key ∷ [])
toy_write_request (name ∷ names) key = none

toy : AuthorityLibrary
unfolding toy_parse toy_read_request toy_write_request
toy = record {
  now = 10 ^ 15;
  generate_rsa = λ bits. some 9;
  generate_ec = λ c. some 9;
  generate_sm2 = some 9;
  rand_int = λ limit. some 5;
  is_rsa_public = λ k. true;
  create_certificate = λ t p k s. some (toy_encode t k);
  parse_certificate = toy_parse;
  pem_bytes = λ d. none;
  parse_certificate_request = toy_read_request;
  check_request_signature = λ r. true;
  create_certificate_request = λ o key. toy_write_request o.dns_names key;
}

drop_self : (xs ys : List ℕ) → drop (length xs) (xs ++ ys) ≡ ys
drop_self [] ys = refl
drop_self (x ∷ xs) ys = drop_self xs ys

one_or_zero : (b : Bool) → ((if b then 1 else 0) == 1) ≡ b
one_or_zero true = refl
one_or_zero false = refl

some-injective : {A : Type 0} {x y : A} → some x ≡ some y → x ≡ y
some-injective e = cc e

toy-Follows :
    (t : Template) (parent : Parent) (key : PublicKey) (c : X509Certificate)
    → toy_parse (toy_encode t key) ≡ some c
    → Follows t parent key c
unfolding toy_parse
toy-Follows t parent key c e = subst (Follows t parent key) (some-injective e) (record {
  has_raw = refl;
  public_key = refl;
  is_ca = one_or_zero t.is_ca;
  not_after = omega arith;
  key_usage = λ l. refl;
  authority_key_id = λ p q same. drop_self t.subject_key_id t.authority_key_id ∙ same;
})

toy-IsIssuing : IsIssuing toy
unfolding toy
toy-IsIssuing = record {
  parse_create = λ t parent key signer der c e f.
      toy-Follows t parent key c (subst (λ d. toy_parse d ≡ some c) (sym (some-injective e)) f);
}

abbrev rsa_options : KeyOptions
rsa_options = record { algorithm = none; rsa_bits = 0; curve = [] }

abbrev options : CertificateOptions
options = record {
  alias = ascii "site";
  subject = own_subject;
  not_before = 10;
  not_after = 500;
  valid_for = 0;
  dns_names = none;
  ip_addresses = none;
  email_addresses = none;
  uris = none;
  is_ca = false;
  max_path_len = some 0;
  max_path_len_zero = false;
  key_usage = 0;
  ext_key_usage = [];
  serial_number = none;
  key = rsa_options;
}

abbrev root_options : RootCaOptions
root_options = record {
  alias = ascii "root";
  subject = own_subject;
  not_before = 10;
  not_after = 0;
  valid_for = 90;
  max_path_len = some 0;
  max_path_len_zero = false;
  key = rsa_options;
}

abbrev pub issuer : Entry
issuer = record {
  alias = ascii "ca";
  created_at = 0;
  private_key = some (record key_item { signer = 8 });
  private_key_status = PrivateKeyStatus.available;
  chain = root_item ∷ [];
  trusted = false;
}

abbrev chain_length : R Entry → Option ℕ
chain_length (ok e) = some (length e.chain)
chain_length _ = none

issued_chain : chain_length (issue_certificate lib toy issuer options) ≡ some 2
unfolding issue_certificate toy
issued_chain = refl

-- The issuer's certificate ends at 1000.
refuses_long :
    issue_certificate lib toy issuer (record options { not_after = 1001 }) ≡ err Error.invalid_data
unfolding issue_certificate toy
refuses_long = refl

roots : chain_length (create_root_ca lib toy root_options) ≡ some 1
unfolding create_root_ca toy
roots = refl

signs : chain_length (sign_certificate_request lib toy issuer (20 ∷ []) options) ≡ some 2
unfolding sign_certificate_request toy
signs = refl

-- The subject of the options gives way to that of the request, since its Names is empty.
subject_is_replaced : (with_request lib toy request options).subject ≡ requested_subject
unfolding with_request
subject_is_replaced = refl

issue_certificate-IsIssuedEntry_example :
    Ensures
      (IsIssuedEntry lib hashes toy toy-IsIssuing issuer options)
      (issue_certificate lib toy issuer options)
issue_certificate-IsIssuedEntry_example =
    issue_certificate-IsIssuedEntry lib hashes toy toy-IsIssuing issuer options

create_root_ca-IsRootEntry_example :
    Ensures
      (λ e.
        IsRootEntry lib hashes toy toy-IsIssuing root_options e
        × ((c : X509Certificate) × (k : Signer) × (validate_issuer lib (some e) ≡ ok (c, k))))
      (create_root_ca lib toy root_options)
create_root_ca-IsRootEntry_example =
    create_root_ca-IsRootEntry lib hashes toy toy-IsIssuing root_options

sign_certificate_request-IsSignedEntry_example :
    Ensures
      (IsSignedEntry lib hashes toy toy-IsIssuing issuer (20 ∷ []) options)
      (sign_certificate_request lib toy issuer (20 ∷ []) options)
sign_certificate_request-IsSignedEntry_example =
    sign_certificate_request-IsSignedEntry lib hashes toy toy-IsIssuing issuer (20 ∷ []) options

abbrev csr_options : CsrOptions
csr_options = record {
  subject = requested_subject;
  dns_names = [];
  ip_addresses = [];
  email_addresses = [];
  uris = [];
}

requested : create_certificate_request lib toy (some 20) csr_options ≡ ok (20 ∷ [])
unfolding create_certificate_request toy
requested = refl
