-- ===== src/Encode/Losses.antt =====
-- encode.go: what the report of a conversion says, for PEM, DER and PKCS#7.
use certkit.Prelude.{
  ◌≡◌, refl, ℕ, ◌+◌, List, [], ◌∷◌, ◌++◌, Option, none, some, Bool, true, false, ◌&&◌, not,
}
use certkit.Prelude.{ltb, ◌==◌, length, arith, if◌then◌else◌, Bool-cases, Option-cases, inl, inr}
use mathlib.Core.Bool.{false≢true}
use certkit.Result.{ok, err, Ensures, returns, refuses, Ensures-bind, Ensures-if}
use certkit.Store.Library.{Library}
use certkit.Store.Types.{Error, R, Format, Certificate, PrivateKey, Store}
use certkit.Encode.{
  EncodeOptions, ConversionReport, Outcome, Marshallers, encode_key, encode_first, encode_der,
}
use certkit.Encode.{
  encode_degenerate, encode_pkcs7, key_block, encode_pem_keys, is_excluded, encode_pem_certificates,
}
use certkit.Encode.{
  encode_pem, encode_format, empty_report, encode_store, appended, or_external, one_key_more,
  one_certificate_more, one_certificate_less, has_unavailable_private_keys, certificate,
  raw_certificates,
}
use certkit.Encode.{private_key, encrypted_private_key, encrypted_block}

abbrev Anything {ℓ} : {A : Type ℓ} → A → Type 0
Anything a = Unit

-- The formats that the encoders of this module write.
abbrev pub is_plain : Format → Bool
is_plain Format.pem = true
is_plain Format.der = true
is_plain Format.pkcs7 = true
is_plain _ = false

-- The report accounts for every certificate and private key of the store.
abbrev pub Accounts : Store → ConversionReport → Type 0
Accounts s r =
    (r.certificates_written + r.discarded_certificates ≡ length s.certificates)
    × (r.private_keys_written + r.discarded_private_keys ≡ length s.private_keys)

-- A conversion ends with an error, or with data and a report of which `P` holds.
pub data Reports (P : ConversionReport → Type 0) : Outcome → Type 0 where
  reported : {data_ : List ℕ} {r : ConversionReport} → P r → Reports P (ok data_, r)
  failed : {e : Error} {r : ConversionReport} → Reports P (err e, r)

Reports-if :
    {P : ConversionReport → Type 0} (b : Bool) {o o' : Outcome}
    → (b ≡ true → Reports P o)
    → (b ≡ false → Reports P o')
    → Reports P (if b then o else o')
Reports-if true h k = h refl
Reports-if false h k = k refl

Reports-map :
    {P Q : ConversionReport → Type 0} {o : Outcome}
    → ((r : ConversionReport) → P r → Q r)
    → Reports P o
    → Reports Q o
Reports-map f (reported {data_} {r} h) = reported (f r h)
Reports-map f failed = failed

-- Without the permission to lose something, and with no roots left out, nothing is discarded.
abbrev pub Faithful : EncodeOptions → Store → ConversionReport → Type 0
Faithful options s r =
    Accounts s r
    × (options.allow_lossy ≡ false
        → options.exclude_root_certificates ≡ false
        → (r.discarded_certificates ≡ 0) × (r.discarded_private_keys ≡ 0))

-- What the loop over the private keys adds to a report.
abbrev KeysWritten : ℕ → ConversionReport → ConversionReport → Type 0
KeysWritten n report r =
    (r.private_keys_written ≡ report.private_keys_written + n)
    × (r.discarded_private_keys ≡ report.discarded_private_keys)
    × (r.certificates_written ≡ report.certificates_written)
    × (r.discarded_certificates ≡ report.discarded_certificates)

-- What both loops add.
abbrev PemWritten : Bool → ℕ → ℕ → ConversionReport → ConversionReport → Type 0
PemWritten exclude m n report r =
    (r.certificates_written + r.discarded_certificates
      ≡ report.certificates_written + report.discarded_certificates + m)
    × (r.private_keys_written ≡ report.private_keys_written + n)
    × (r.discarded_private_keys ≡ report.discarded_private_keys)
    × (exclude ≡ false → r.discarded_certificates ≡ report.discarded_certificates)

module _ (lib : Library) (x : Marshallers) where
  Reports-appended :
      {P : ConversionReport → Type 0} {b : R (List ℕ)} (report : ConversionReport)
      {rest : List ℕ → Outcome}
      → Ensures Anything b
      → ((bytes : List ℕ) → Reports P (rest bytes))
      → Reports P (appended lib x b report rest)
  Reports-appended report (returns {a} u) h = h a
  Reports-appended report refuses h = failed

  or_external-total : (o : Option (List ℕ)) → Ensures Anything (or_external lib x o)
  or_external-total none = refuses
  or_external-total (some b) = returns tt

  key_block-total :
      (options : EncodeOptions) (k : PrivateKey) → Ensures Anything (key_block lib x options k)
  unfolding key_block encrypted_block
  key_block-total options k = Ensures-bind (or_external-total (x.marshal_pkcs8 k.signer)) λ der u.
      Ensures-if options.encrypt_pem_private_key
        (λ b.
          Ensures-if (length options.password == 0) (λ c. refuses)
            λ c.
              Ensures-bind (or_external-total (x.encrypt_pkcs8 k.signer options.password))
                λ sealed w. or_external-total (x.pem_encode encrypted_private_key sealed))
        (λ b. or_external-total (x.pem_encode private_key der))

  encode_pem_keys-KeysWritten :
      (options : EncodeOptions) (ks : List PrivateKey) (output : List ℕ) (report : ConversionReport)
      → Reports (KeysWritten (length ks) report) (encode_pem_keys lib x options ks output report)
  unfolding encode_pem_keys
  encode_pem_keys-KeysWritten options [] output report =
      Reports-if (length output == 0) (λ h. failed) λ h. reported (omega arith, refl, refl, refl)
  encode_pem_keys-KeysWritten options (k ∷ ks) output report =
      Reports-appended report (key_block-total options k) λ b.
        Reports-map (λ r h. (omega (arith, h.0), h.1, h.2, h.3))
          (encode_pem_keys-KeysWritten options ks (output ++ b) (one_key_more lib x report))

  encode_pem_certificates-PemWritten :
      (options : EncodeOptions) (cs : List Certificate) (ks : List PrivateKey) (output : List ℕ)
      (report : ConversionReport)
      → Reports
          (PemWritten options.exclude_root_certificates (length cs) (length ks) report)
          (encode_pem_certificates lib x options cs ks output report)
  unfolding encode_pem_certificates is_excluded
  encode_pem_certificates-PemWritten options [] ks output report =
      Reports-map (λ r h. (omega (arith, h.2, h.3), h.0, h.1, λ e. h.3))
        (encode_pem_keys-KeysWritten options ks output report)
  encode_pem_certificates-PemWritten options (c ∷ cs) ks output report =
      elim (Bool-cases (is_excluded lib x options c)) [
        | inl b ↦
            rw (b, encode_pem_certificates)
              (Reports-map (λ r h. (omega (arith, h.0), h.1, h.2, λ e. ground arith))
                (encode_pem_certificates-PemWritten options cs ks output
                  (one_certificate_less lib x report)))
        | inr b ↦
            rw (b, encode_pem_certificates)
              (Reports-appended report
                (or_external-total (x.pem_encode certificate c.certificate.raw))
                λ b.
                  Reports-map (λ r h. (omega (arith, h.0), h.1, h.2, h.3))
                    (encode_pem_certificates-PemWritten options cs ks (output ++ b)
                      (one_certificate_more lib x report)))
      ]

  encode_pem-Faithful :
      (s : Store) (options : EncodeOptions) (f : Format)
      → Reports (Faithful options s) (encode_pem lib x s options (empty_report lib x f))
  unfolding encode_pem
  encode_pem-Faithful s options f =
      Reports-map (λ r h. ((omega (arith, h.0), omega (arith, h.1, h.2)), λ a e. (h.3 e, h.2)))
        (encode_pem_certificates-PemWritten options s.certificates s.private_keys []
          (empty_report lib x f))

  encode_pkcs7-Faithful :
      (s : Store) (options : EncodeOptions) (f : Format)
      → Reports (Faithful options s) (encode_pkcs7 lib x s options (empty_report lib x f))
  unfolding encode_pkcs7 encode_degenerate
  encode_pkcs7-Faithful s options f =
      Reports-if (length s.certificates == 0) (λ h. failed)
        λ h.
          Reports-if (ltb 0 (length s.private_keys) && not options.allow_lossy) (λ k. failed)
            λ k. elim (Option-cases (x.degenerate_certificate (raw_certificates s.certificates))) [
              | inl n ↦ rw (n, encode_degenerate) failed
              | inr (data_, e) ↦
                  rw (e, encode_degenerate)
                    (reported ((omega arith, omega arith), λ a r. (refl, ground arith)))
            ]

  encode_first-Accounts :
      (cs : List Certificate) (ks : List PrivateKey) (f : Format)
      → Reports
          (λ r.
            (r.certificates_written + r.discarded_certificates ≡ length cs)
            × (r.private_keys_written + r.discarded_private_keys ≡ length ks)
            × (r.discarded_certificates + r.discarded_private_keys + 1 ≡ length cs + length ks))
          (encode_first lib x cs ks (empty_report lib x f))
  unfolding encode_first encode_key
  encode_first-Accounts (c ∷ cs) ks f = reported (omega arith, omega arith, omega arith)
  encode_first-Accounts [] [] f = failed
  encode_first-Accounts [] (k ∷ ks) f = elim (Option-cases (x.marshal_pkcs8 k.signer)) [
    | inl n ↦ rw (n, encode_first, encode_key) failed
    | inr (der, e) ↦
        rw (e, encode_first, encode_key) (reported (omega arith, omega arith, omega arith))
  ]

  encode_der-Faithful :
      (s : Store) (options : EncodeOptions) (f : Format)
      → Reports (Faithful options s) (encode_der lib x s options (empty_report lib x f))
  unfolding encode_der
  encode_der-Faithful s options f =
      let n = length s.certificates + length s.private_keys in
      Reports-if (n == 0) (λ h. failed)
        λ h.
          Reports-if (ltb 1 n && not options.allow_lossy) (λ k. failed)
            λ k.
              Reports-map (λ r a. ((a.0, a.1), λ l e. (ground (arith, a.2), ground (arith, a.2))))
                (encode_first-Accounts s.certificates s.private_keys f)

  encode_format-Faithful :
      (f : Format) (s : Store) (options : EncodeOptions)
      → is_plain f ≡ true
      → Reports (Faithful options s) (encode_format lib x f s options (empty_report lib x f))
  unfolding encode_format
  encode_format-Faithful Format.pem s options e = encode_pem-Faithful s options Format.pem
  encode_format-Faithful Format.der s options e = encode_der-Faithful s options Format.der
  encode_format-Faithful Format.pkcs7 s options e = encode_pkcs7-Faithful s options Format.pkcs7
  encode_format-Faithful Format.pkcs12 s options e = absurd (false≢true e)
  encode_format-Faithful Format.jks s options e = absurd (false≢true e)
  encode_format-Faithful Format.jceks s options e = absurd (false≢true e)
  encode_format-Faithful Format.bks s options e = absurd (false≢true e)
  encode_format-Faithful Format.unset s options e = absurd (false≢true e)
  encode_format-Faithful Format.auto s options e = absurd (false≢true e)
  encode_format-Faithful Format.unknown s options e = absurd (false≢true e)
  encode_format-Faithful Format.other s options e = absurd (false≢true e)

  -- Encode to PEM, DER or PKCS#7 ends with an error, or its report accounts for every certificate
  -- and private key; without AllowLossy and ExcludeRootCertificates nothing is discarded.
  pub encode_store-Faithful :
      (f : Format) (s : Store) (options : EncodeOptions)
      → is_plain f ≡ true
      → Reports (Faithful options s) (encode_store lib x f s options)
  unfolding encode_store
  encode_store-Faithful f s options e =
      Reports-if (has_unavailable_private_keys s.entries && not options.allow_lossy) (λ h. failed)
        λ h. encode_format-Faithful f s options e
