-- ===== src/Formats/Keys.antt =====
-- open_pem.go: parsePrivateKey and unwrapPEM; open.go's results; and the loop of the openers over
-- the certificates that a parser returned.
use certkit.Prelude.{ℕ, ◌+◌, List, [], ◌∷◌, Option, none, some, ltb, length, if◌then◌else◌}
use certkit.Result.{ok, err, panic, stuck, ◌>>=◌}
use certkit.Store.Library.{X509Certificate, Signer}
use certkit.Store.Types.{Error, R, SourceRef, Certificate, PrivateKey, Store}
use certkit.Store.Operations.{insert_certificate}
use certkit.Open.{Opened}
use certkit.Formats.Library.{Block, FormatLibrary, ParsedKey}

-- `return store, err`; `return nil, err` is `err`.
abbrev pub store_and : Store → Error → R Opened
store_and s e = ok (record { store = some s; error = some e })

-- `return store, nil`
abbrev pub only_store : Store → R Opened
only_store s = ok (record { store = some s; error = none })

-- `item, _ := …; item.Source = …`: without an item the assignment panics.
abbrev pub or_panic {ℓ} : {A : Type ℓ} → R A → R A
or_panic (ok a) = ok a
or_panic (err e) = panic
or_panic panic = panic
or_panic stuck = stuck

abbrev pub place_certificate : SourceRef → Certificate → Certificate
place_certificate source c = record c { source = source }

abbrev pub place_private_key : SourceRef → PrivateKey → PrivateKey
place_private_key source k = record k { source = source }

-- What the code goes on with after one parser; the error of parsePrivateKey is `none`.
abbrev pub or_next : Option ParsedKey → Option Signer → Option Signer
or_next (some (some k)) next = some k
or_next (some none) next = next
or_next none next = next

unfoldable pub first_signer : List (List ℕ → Option ParsedKey) → List ℕ → Option Signer
first_signer [] der = none
first_signer (parse ∷ parsers) der = or_next (parse der) (first_signer parsers der)

abbrev pub first_block_bytes : Option (Block × List ℕ) → List ℕ → List ℕ
first_block_bytes none data_ = data_
first_block_bytes (some (block, _)) data_ = block.bytes

module _ (x : FormatLibrary) where
  abbrev pub plain_parsers : List (List ℕ → Option ParsedKey)
  plain_parsers = x.parse_pkcs8 ∷ x.parse_pkcs1 ∷ x.parse_ec ∷ x.parse_sm2 ∷ []

  unfoldable pub parse_private_key : List ℕ → List ℕ → Option Signer
  unfolding first_signer
  parse_private_key der password =
      first_signer
        (if ltb 0 (length password)
          then (λ d. x.parse_encrypted_pkcs8 d password) ∷ plain_parsers
          else plain_parsers)
        der

  unfoldable pub unwrap_pem : List ℕ → List ℕ
  unwrap_pem data_ = first_block_bytes (x.pem_decode data_) data_

-- `make` is NewCertificate, and what the code does with its error; `source` gives the reference
-- of the certificate with an index.
unfoldable pub add_certificates :
    (X509Certificate → R Certificate) → (ℕ → SourceRef) → ℕ → List X509Certificate → Store → R Store
unfolding insert_certificate
add_certificates make source i [] s = ok s
add_certificates make source i (c ∷ cs) s = make c >>= (λ item.
    add_certificates make source (i + 1) cs
      (insert_certificate (place_certificate (source i) item) s))
