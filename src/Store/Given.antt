-- ===== src/Store/Given.antt =====
-- model.go, AddEntry, on an entry as a caller writes it: every pointer in it may be nil. An object
-- whose Certificate or Signer is nil, where AddEntry does not read it, is stored by the code and
-- panics where it is next read; here AddEntry panics.
use certkit.Prelude.{◌≡◌, refl, ℕ, List, [], ◌∷◌, Option, none, some, Bool, true, map, not}
use certkit.Text.{Text, text_eq, trim_space}
use certkit.Result.{ok, err, panic, ◌>>=◌, ◌>>◌, guard, Ensures, refuses, Ensures-guard}
use certkit.Store.Library.{Library, X509Certificate, Signer}
use certkit.Store.Types.{
  Error, R, Certificate, CertificateRole, PrivateKey, PrivateKeyStatus, KeyAlgorithm, SourceRef,
  Entry,
}
use certkit.Store.Types.{Store}
use certkit.Store.Keyed.{is_some}
use certkit.Store.Chain.{public_keys_equal}
use certkit.Store.Operations.{entry_by_alias, matches_chain, add_entry}
use certkit.Store.Additions.{LongHashes, LongKey, add_entry-IsValid}
use certkit.Store.Valid.{IsValid}

pub record GivenCertificate : Type 0 where
  pub id : Text
  pub certificate : Option X509Certificate
  pub role : CertificateRole
  pub source : SourceRef

pub record GivenKey : Type 0 where
  pub id : Text
  pub signer : Option Signer
  pub algorithm : KeyAlgorithm
  pub exportable : Bool
  pub source : SourceRef

pub record GivenEntry : Type 0 where
  pub alias : Text
  pub created_at : ℕ
  pub private_key : Option GivenKey
  pub private_key_status : PrivateKeyStatus
  pub chain : List (Option GivenCertificate)
  pub trusted : Bool

-- A pointer that is read.
abbrev present : {A : Type 0} → Option A → R A
present none = panic
present (some a) = ok a

unfoldable read_certificates : List (Option GivenCertificate) → R (List Certificate)
read_certificates [] = ok []
read_certificates (item ∷ items) = do
  c ← present item
  cert ← present c.certificate
  rest ← read_certificates items
  ok (record { id = c.id; certificate = cert; role = c.role; source = c.source } ∷ rest)

unfoldable read_key : Option GivenKey → R (Option PrivateKey)
read_key none = ok none
read_key (some k) = do
  signer ← present k.signer
  ok (
      some (record {
        id = k.id;
        signer = signer;
        algorithm = k.algorithm;
        exportable = k.exportable;
        source = k.source;
      }))

module _ (lib : Library) where
  -- The key and the first certificate, if there are both; only these are read for the test.
  unfoldable given_matches : Option GivenKey → List (Option GivenCertificate) → R Bool
  unfolding public_keys_equal
  given_matches none chain = ok true
  given_matches (some k) [] = ok true
  given_matches (some k) (item ∷ items) = do
    signer ← present k.signer
    c ← present item
    cert ← present c.certificate
    ok (public_keys_equal lib (lib.public signer) cert.public_key)

  unfoldable pub add_given_entry : Option GivenEntry → Store → R Store
  unfolding trim_space text_eq entry_by_alias given_matches read_certificates read_key add_entry
  add_given_entry none s = err Error.invalid_data
  add_given_entry (some g) s = do
    guard (not (text_eq (trim_space g.alias) [])) Error.invalid_data
    guard (not (is_some (entry_by_alias lib s g.alias))) Error.alias_conflict
    matches ← given_matches g.private_key g.chain
    guard matches Error.key_mismatch
    chain ← read_certificates g.chain
    private_key ← read_key g.private_key
    let entry : Entry = record {
      alias = g.alias;
      created_at = g.created_at;
      private_key = private_key;
      private_key_status = g.private_key_status;
      chain = chain;
      trusted = g.trusted;
    }
    add_entry lib (some entry) s

-- An entry without a nil, as it is given.
abbrev given_certificate : Certificate → Option GivenCertificate
given_certificate c =
    some
      (record { id = c.id; certificate = some (c.certificate); role = c.role; source = c.source })

abbrev given_key : Option PrivateKey → Option GivenKey
given_key none = none
given_key (some k) = some (record {
  id = k.id;
  signer = some (k.signer);
  algorithm = k.algorithm;
  exportable = k.exportable;
  source = k.source;
})

abbrev pub given : Entry → GivenEntry
given e = record {
  alias = e.alias;
  created_at = e.created_at;
  private_key = given_key e.private_key;
  private_key_status = e.private_key_status;
  chain = map given_certificate e.chain;
  trusted = e.trusted;
}

read_certificates-given :
    (cs : List Certificate) → read_certificates (map given_certificate cs) ≡ ok cs
unfolding read_certificates
read_certificates-given [] = refl
read_certificates-given (c ∷ cs) = rw (read_certificates-given cs) refl

read_key-given : (k : Option PrivateKey) → read_key (given_key k) ≡ ok k
unfolding read_key
read_key-given none = refl
read_key-given (some k) = refl

abbrev matches_of : (lib : Library) → Option PrivateKey → List Certificate → Bool
matches_of lib none chain = true
matches_of lib (some k) chain = matches_chain lib k.signer chain

given_matches-given :
    (lib : Library) (k : Option PrivateKey) (cs : List Certificate)
    → given_matches lib (given_key k) (map given_certificate cs) ≡ ok (matches_of lib k cs)
unfolding given_matches matches_chain
given_matches-given lib none cs = refl
given_matches-given lib (some k) [] = refl
given_matches-given lib (some k) (c ∷ cs) = refl

module _ (lib : Library) (hashes : LongHashes lib) where
  pub add_given_entry-none : (s : Store) → Ensures IsValid (add_given_entry lib none s)
  unfolding add_given_entry
  add_given_entry-none s = refuses

  -- An entry without a nil is added as it is, or refused.
  pub add_given_entry-IsValid :
      (e : Entry) (s : Store)
      → LongKey e.private_key
      → IsValid s
      → Ensures IsValid (add_given_entry lib (some (given e)) s)
  unfolding add_given_entry
  add_given_entry-IsValid e s l v =
      Ensures-guard (not (text_eq (trim_space e.alias) [])) Error.invalid_data λ g.
        Ensures-guard (not (is_some (entry_by_alias lib s e.alias))) Error.alias_conflict λ h.
          rw (given_matches-given lib e.private_key e.chain) (
            Ensures-guard (matches_of lib e.private_key e.chain) Error.key_mismatch λ m.
              rw (read_certificates-given e.chain, read_key-given e.private_key)
                (add_entry-IsValid lib hashes e s l v))
