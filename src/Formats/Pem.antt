-- ===== src/Formats/Pem.antt =====
-- open_pem.go, openPEM. A step that may end the loop takes what the loop does after it, `next`.
use certkit.Prelude.{
  ℕ, zero, suc, ◌+◌, ◌==◌, List, [], ◌∷◌, ◌++◌, Option, none, some, Bool, ◌&&◌, ◌||◌,
}
use certkit.Prelude.{length, not, if◌then◌else◌}
use certkit.Text.{Text, text_eq, ascii}
use certkit.Result.{ok, err, panic, stuck, ◌>>=◌}
use certkit.Store.Library.{Library, Signer}
use certkit.Store.Types.{
  Error, R, Format, Encoding, Store, PasswordPurpose, DiagnosticLevel, SourceRef,
}
use certkit.Store.Operations.{new_certificate, new_private_key, insert_private_key}
use certkit.Store.Reconcile.{OpenOptions, merge_store_objects}
use certkit.Passwords.{password_for}
use certkit.Open.{Opened}
use certkit.Formats.Library.{FormatLibrary, Block}
use certkit.Formats.Keys.{
  store_and, only_store, place_private_key, parse_private_key, add_certificates,
}
use certkit.Formats.Pkcs7.{empty_store, or_nil, open_pkcs7}

abbrev pub add_diagnostic : DiagnosticLevel → Text → Text → Text → Store → Store
add_diagnostic level code message alias s = record s {
  diagnostics =
      s.diagnostics ++ record { level = level; code = code; message = message; alias = alias } ∷ [];
}

unfoldable pub is_certificate_block : Text → Bool
unfolding text_eq
is_certificate_block t =
    text_eq t (ascii "CERTIFICATE")
    || text_eq t (ascii "X509 CERTIFICATE")
    || text_eq t (ascii "TRUSTED CERTIFICATE")

unfoldable pub is_pkcs7_block : Text → Bool
unfolding text_eq
is_pkcs7_block t =
    text_eq t (ascii "PKCS7") || text_eq t (ascii "PKCS #7 SIGNED DATA") || text_eq t (ascii "CMS")

unfoldable pub is_encrypted_key_block : Text → Bool
unfolding text_eq
is_encrypted_key_block t = text_eq t (ascii "ENCRYPTED PRIVATE KEY")

unfoldable pub is_private_key_block : Text → Bool
unfolding text_eq is_encrypted_key_block
is_private_key_block t =
    text_eq t (ascii "PRIVATE KEY")
    || text_eq t (ascii "RSA PRIVATE KEY")
    || text_eq t (ascii "EC PRIVATE KEY")
    || text_eq t (ascii "SM2 PRIVATE KEY")
    || is_encrypted_key_block t

abbrev pub pem_source : ℕ → SourceRef
pem_source index = record { format = Format.pem; alias = []; index = index }

-- `if passwordErr != nil { return store, passwordErr }`
abbrev pub with_password : R (List ℕ) → Store → (List ℕ → R Opened) → R Opened
with_password (ok password) s next = next password
with_password (err e) s next = store_and s e
with_password panic s next = panic
with_password stuck s next = stuck

abbrev pub decrypted : Option (List ℕ) → Store → (List ℕ → R Opened) → R Opened
decrypted none s next = store_and s Error.password
decrypted (some der) s next = next der

module _ (lib : Library) (x : FormatLibrary) where
  unfoldable pub import_certificates : Block → Store → ℕ → (Store → R Opened) → R Opened
  unfolding new_certificate add_certificates
  import_certificates block s index next = elim (x.parse_certificates block.bytes) [
    | none ↦ err Error.external
    | some certs ↦
        add_certificates (λ c. new_certificate lib (some c)) (λ i. pem_source index) 0 certs s
        >>= next
  ]

  unfoldable pub import_pkcs7 : Block → Store → (Store → R Opened) → R Opened
  unfolding open_pkcs7 merge_store_objects
  import_pkcs7 block s next =
      open_pkcs7 lib x block.bytes >>= (λ child. next (merge_store_objects s child))

  unfoldable pub import_signer : Bool → Option Signer → Store → ℕ → (Store → R Opened) → R Opened
  unfolding new_private_key insert_private_key
  import_signer encrypted none s index next =
      if encrypted then store_and s Error.password else store_and s Error.invalid_data
  import_signer encrypted (some key) s index next =
      new_private_key lib (some key)
      >>= (λ item. next (insert_private_key (place_private_key (pem_source index) item) s))

  unfoldable pub import_private_key : R (List ℕ) → Block → Store → ℕ → (Store → R Opened) → R Opened
  unfolding is_encrypted_key_block parse_private_key import_signer
  import_private_key password block s index next =
      let encrypted = is_encrypted_key_block block.block_type in
      let parse = λ (der : List ℕ).
        import_signer encrypted (parse_private_key x der (or_nil password)) s index next in
      if block.is_encrypted
      then with_password password s (λ pw. decrypted (x.decrypt_pem_block block pw) s parse)
      else if encrypted
      then with_password password s (λ pw. parse block.bytes)
      else parse block.bytes

  abbrev pub ignored_block : Text → Store → Store
  ignored_block block_type =
      add_diagnostic DiagnosticLevel.info (ascii "pem_block_ignored")
        (ascii "pem block " ++ x.quote block_type ++ ascii " was not imported") []

  unfoldable pub import_block : OpenOptions → Block → Store → ℕ → (Store → R Opened) → R Opened
  unfolding is_certificate_block is_pkcs7_block is_private_key_block password_for
      import_certificates import_pkcs7 import_private_key
  import_block options block s index next =
      if is_certificate_block block.block_type
      then import_certificates block s index next
      else if is_pkcs7_block block.block_type
      then import_pkcs7 block s next
      else if is_private_key_block block.block_type
      then import_private_key
          (password_for options.password options.password_provider
            (record { format = Format.pem; alias = []; purpose = PasswordPurpose.private_key }))
          block s index next
      else next (ignored_block block.block_type s)

  unfoldable pub check_rest : List ℕ → Store → Store
  check_rest rest s =
      if not (length (x.trim_space rest) == 0)
      then add_diagnostic DiagnosticLevel.warning (ascii "pem_trailing_data")
          (ascii "pem input contains unparsed data") [] s
      else s

  unfoldable pub finish_pem : Store → R Opened
  finish_pem s =
      if length s.certificates == 0 && length s.private_keys == 0
      then err Error.invalid_data
      else only_store s

  unfoldable pub import_blocks : ℕ → OpenOptions → List ℕ → Store → ℕ → R Opened
  unfolding import_block check_rest finish_pem
  import_blocks zero options rest s index = stuck
  import_blocks (suc fuel) options rest s index = elim (x.pem_decode rest) [
    | none ↦ finish_pem (check_rest rest s)
    | some (block, remaining) ↦
        import_block options block s index
          (λ s'. import_blocks fuel options remaining s' (index + 1))
  ]

  unfoldable pub open_pem : List ℕ → OpenOptions → R Opened
  unfolding import_blocks
  open_pem data_ options =
      import_blocks (suc (length data_)) options data_ (empty_store Format.pem Encoding.pem) 0
