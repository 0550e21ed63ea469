-- ===== src/Authority/Laws.antt =====
-- ca.go and csr.go: what an issued certificate and its entry are like.
use certkit.Authority.Total.{generate_private_key-itself}
use certkit.Authority.Total.{
  or_external-found, certificate_validity-Ensures, serial_or_random-total,
  generate_private_key-total,
}
use certkit.Authority.Total.{subject_key_id-total, random_serial_number-total}
use certkit.Authority.Keys.{generate_private_key}
use certkit.Authority.Issuer.{MaySign, validate_issuer-MaySign}
use certkit.Prelude.{◌≡◌, refl, ap, ◌∙◌, ℕ, ◌≤◌, List, [], ◌∷◌, Option, none, some, Bool, true}
use certkit.Prelude.{false, ◌||◌, not, ltb, leb, length, map, Option-cases, inl, inr}
use certkit.Prelude.{arith, leb→le}
use certkit.Text.{Text, text_eq_refl}
use certkit.Result.{
  ok, Ensures, returns, refuses, Ensures-bind, Ensures-guard, Ensures-if, Ensures-map, Ensures-both,
}
use certkit.Store.Library.{Library, X509Certificate, PublicKey, Signer}
use certkit.Store.Types.{Error, Certificate, PrivateKey, PrivateKeyStatus, Entry}
use certkit.Store.Chain.{public_keys_equal, encodings_equal}
use certkit.Store.Operations.{new_certificate, new_certificates, new_private_key, entry_matches}
use certkit.Store.Operations.{matches_chain}
use certkit.Store.Valid.{LongId}
use certkit.Store.Additions.{LongHashes, new_private_key-LongId}
use certkit.Authority.Library.{
  AuthorityLibrary, CertificateOptions, RootCaOptions, CertificateRequest, IsIssuing,
}
use certkit.Authority.Keys.{validate_issuer, issuer_of, forbids, cert_sign}
use certkit.Authority.Keys.{default_entry_alias}
use certkit.Authority.Issue.{
  chain_of, issue_public_key, new_issued_entry, create_root_ca, issue_certificate,
}
use certkit.Authority.Issue.{parse_certificate_request, with_request, sign_certificate_request}
use certkit.Authority.Issue.{default_validity}

abbrev is_ca_of : X509Certificate → Bool
is_ca_of c = c.is_ca

abbrev pub x509_of : Certificate → X509Certificate
x509_of c = c.certificate

module _ (lib : Library) (hashes : LongHashes lib) (a : AuthorityLibrary) (laws : IsIssuing a) where
  -- What issuePublicKey promises of the certificate.
  abbrev pub IsIssuedBy :
      X509Certificate → PublicKey → CertificateOptions → X509Certificate → Type 0
  IsIssuedBy issuer key options c =
      (c.public_key ≡ key)
      × (c.is_ca ≡ options.is_ca)
      × (c.not_after ≤ issuer.not_after)
      × (c.authority_key_id ≡ issuer.subject_key_id)

  issue_public_key-IsIssuedBy :
      (issuer : X509Certificate) (signer : Signer) (key : PublicKey) (options : CertificateOptions)
      → Ensures (IsIssuedBy issuer key options) (issue_public_key lib a issuer signer key options)
  unfolding issue_public_key
  issue_public_key-IsIssuedBy issuer signer key options =
      Ensures-bind
        (certificate_validity-Ensures a options.not_before options.not_after options.valid_for
          (default_validity options.is_ca))
        λ (nb, na) lt. Ensures-guard (leb na issuer.not_after) Error.invalid_data λ within.
          Ensures-bind (serial_or_random-total a lib options.serial_number) λ serial u.
            Ensures-bind (subject_key_id-total lib key) λ ski w.
              Ensures-bind (or_external-found _) λ der created.
                Ensures-map (or_external-found (a.parse_certificate der)) λ c parsed.
                  let f = laws.parse_create _ _ key signer der c created parsed in
                  (
                    f.public_key,
                    f.is_ca,
                    omega (arith, f.not_after, leb→le na issuer.not_after within),
                    f.authority_key_id issuer refl refl,
                  )

  new_certificates-map :
      (cs : List X509Certificate)
      → Ensures (λ items. map x509_of items ≡ cs) (new_certificates lib (map some cs))
  unfolding new_certificates new_certificate
  new_certificates-map [] = returns refl
  new_certificates-map (c ∷ cs) =
      Ensures-bind {P = λ item. item.certificate ≡ c}
        (Ensures-if (ltb 0 (length c.raw)) (λ q. returns refl) λ q. refuses)
        λ item e. Ensures-bind (new_certificates-map cs) λ items f. returns (cc (e, f))

  -- The key is the one that was given, and its public key has an encoding.
  new_private_key-signer :
      (k : Signer)
      → Ensures
          (λ p. (p.signer ≡ k) × (public_keys_equal lib (lib.public k) (lib.public k) ≡ true))
          (new_private_key lib (some k))
  unfolding new_private_key public_keys_equal encodings_equal
  new_private_key-signer k = elim (Option-cases (lib.marshal_pkix (lib.public k))) [
    | inl n ↦ rw (n, new_private_key) refuses
    | inr (der, e) ↦ rw (e, new_private_key) (returns (refl, text_eq_refl der))
  ]

  -- The entry has the private key and the chain, and the key is that of the first certificate.
  abbrev pub IsPaired : Signer → List X509Certificate → Entry → Type 0
  IsPaired key chain e =
      (k : PrivateKey) × (e.private_key ≡ some k)
      × (k.signer ≡ key)
      × LongId k
      × (e.private_key_status ≡ PrivateKeyStatus.available)
      × (map x509_of e.chain ≡ chain)
      × (entry_matches lib e ≡ true)

  matches_first :
      (k : Signer) (items : List Certificate) (c : X509Certificate) (cs : List X509Certificate)
      → map x509_of items ≡ c ∷ cs
      → c.public_key ≡ lib.public k
      → public_keys_equal lib (lib.public k) (lib.public k) ≡ true
      → matches_chain lib k items ≡ true
  unfolding matches_chain
  matches_first k [] c cs e p q = cc
  matches_first k (i ∷ is') c cs e p q =
      let f : i.certificate ≡ c = cc e in
      ap (λ x. public_keys_equal lib (lib.public k) x.public_key) f
      ∙ ap (public_keys_equal lib (lib.public k)) p
      ∙ q

  new_issued_entry-IsPaired :
      (alias : Text) (key : Signer) (c : X509Certificate) (cs : List X509Certificate)
      → c.public_key ≡ lib.public key
      → Ensures (IsPaired key (c ∷ cs)) (new_issued_entry lib a alias key (c ∷ cs))
  unfolding new_issued_entry entry_matches
  new_issued_entry-IsPaired alias key c cs p =
      Ensures-bind
        (Ensures-both (new_private_key-signer key) (new_private_key-LongId lib hashes (some key)))
        λ k ((s, q), l).
          Ensures-bind (new_certificates-map (c ∷ cs))
            λ items e. returns (k, refl, s, l, refl, e, rw s (matches_first key items c cs e p q))

  -- What IssueCertificate promises of the entry.
  abbrev pub IsIssuedEntry : Entry → CertificateOptions → Entry → Type 0
  IsIssuedEntry issuer options e =
      (c : X509Certificate) × (issuer_cert : X509Certificate) × (issuer_key key : Signer) × MaySign
        lib issuer issuer_cert issuer_key
      × (generate_private_key a options.key ≡ ok key)
      × IsIssuedBy issuer_cert (lib.public key) options c
      × IsPaired key (c ∷ chain_of issuer) e

  -- IssueCertificate ends without a panic. It issues only for an entry that may sign: a CA whose key
  -- usage allows it, with its private key. The certificate does not outlive the issuer's, names its
  -- key identifier, and is a CA exactly when the options say so. The entry has the private key that
  -- GeneratePrivateKey made for the options, which is the certificate's, and the certificate above the
  -- issuer's chain; AddEntry's test of the key against the chain holds of it. The hash returns bytes
  -- enough for an identifier, and a certificate that is created is parsed as its template says.
  pub issue_certificate-IsIssuedEntry :
      (issuer : Entry) (options : CertificateOptions)
      → Ensures (IsIssuedEntry issuer options) (issue_certificate lib a issuer options)
  unfolding issue_certificate
  issue_certificate-IsIssuedEntry issuer options =
      Ensures-bind (validate_issuer-MaySign lib issuer) λ (ic, ik) may.
        Ensures-bind (generate_private_key-itself a options.key) λ key u.
          Ensures-bind (issue_public_key-IsIssuedBy ic ik (lib.public key) options) λ c issued.
            Ensures-map
              (new_issued_entry-IsPaired (default_entry_alias lib options.alias c) key c
                (chain_of issuer) issued.0)
              λ e paired. (c, ic, ik, key, may, u, issued, paired)

  parse_request-found :
      (data_ : List ℕ)
      → Ensures
          (λ r. parse_certificate_request lib a data_ ≡ ok r)
          (parse_certificate_request lib a data_)
  unfolding parse_certificate_request
  parse_request-found data_ = Ensures-map (or_external-found _) λ r e. rw e refl

  -- An entry of a CA certificate with its key is accepted as an issuer.
  paired_is_issuer :
      (c : X509Certificate) (key : Option PrivateKey) (p : PrivateKey) (chain : List Certificate)
      → c.is_ca ≡ true
      → c.key_usage ≡ 97
      → key ≡ some p
      → map x509_of chain ≡ c ∷ []
      → matches_chain lib p.signer chain ≡ true
      → (issuer_of lib key chain ≡ ok (c, p.signer))
  unfolding issuer_of forbids matches_chain
  paired_is_issuer c none p chain i u e m q = cc
  paired_is_issuer c (some p') p [] i u e m q = cc
  paired_is_issuer c (some p') p (x ∷ xs) i u e m q =
      let f : x.certificate ≡ c = cc m in
      let s : p' ≡ p = cc e in
      let ca : x.certificate.is_ca ≡ true = ap is_ca_of f ∙ i in
      let usage : forbids x.certificate.key_usage cert_sign ≡ false =
        ap (λ (y : X509Certificate). forbids y.key_usage cert_sign) f
        ∙ ap (λ n. forbids n cert_sign) u in
      let may : not (not x.certificate.is_ca || forbids x.certificate.key_usage cert_sign) ≡ true =
        ground (arith, ca, usage) in
      let own : public_keys_equal lib (lib.public p'.signer) x.certificate.public_key ≡ true =
        ap
          (λ (y : PrivateKey). public_keys_equal lib (lib.public y.signer) x.certificate.public_key)
          s
        ∙ q in
      rw (may, own) (cc (f, s))

  root_is_issuer :
      (c : X509Certificate) (key : Signer) (e : Entry)
      → c.is_ca ≡ true
      → c.key_usage ≡ 97
      → IsPaired key (c ∷ []) e
      → (x : X509Certificate) × (k : Signer) × (validate_issuer lib (some e) ≡ ok (x, k))
  unfolding validate_issuer entry_matches
  root_is_issuer c key e i u (p, q, s, l, st, m, em) = (
    c,
    p.signer,
    paired_is_issuer c e.private_key p e.chain i u q m (rw (q, entry_matches) at em),
  )

  -- What CreateRootCA promises of the entry.
  abbrev pub IsRootEntry : RootCaOptions → Entry → Type 0
  IsRootEntry options e =
      (c : X509Certificate) × (key : Signer) × (c.is_ca ≡ true)
      × (c.public_key ≡ lib.public key)
      × (c.key_usage ≡ 97)
      × IsPaired key (c ∷ []) e

  -- CreateRootCA ends without a panic. Its entry has the private key and a CA certificate of it that
  -- may sign certificates and CRLs, and validateIssuer accepts the entry. The hash returns bytes
  -- enough for an identifier, and a certificate that is created is parsed as its template says.
  pub create_root_ca-IsRootEntry :
      (options : RootCaOptions)
      → Ensures
          (λ e.
            IsRootEntry options e
            × ((c : X509Certificate) × (k : Signer) × (validate_issuer lib (some e) ≡ ok (c, k))))
          (create_root_ca lib a options)
  unfolding create_root_ca
  create_root_ca-IsRootEntry options =
      Ensures-bind (generate_private_key-total a options.key) λ key u.
        Ensures-bind
          (certificate_validity-Ensures a options.not_before options.not_after options.valid_for _)
          λ (nb, na) lt. Ensures-bind (random_serial_number-total a) λ serial w.
            Ensures-bind (subject_key_id-total lib (lib.public key)) λ ski v.
              Ensures-bind (or_external-found _) λ der created.
                Ensures-bind (or_external-found (a.parse_certificate der)) λ c parsed.
                  let f = laws.parse_create _ _ (lib.public key) key der c created parsed in
                  Ensures-map
                    (new_issued_entry-IsPaired (default_entry_alias lib options.alias c) key c []
                      f.public_key)
                    λ e paired.
                      let usage = f.key_usage (omega arith) in
                      (
                        (c, key, f.is_ca, f.public_key, usage, paired),
                        root_is_issuer c key e f.is_ca usage paired,
                      )

  -- What SignCertificateRequest promises: the certificate is for the key of a request whose
  -- signature was right, and the entry has no private key.
  abbrev pub IsSignedEntry : Entry → List ℕ → CertificateOptions → Entry → Type 0
  IsSignedEntry issuer data_ options e =
      (request : CertificateRequest) × (c : X509Certificate) × (issuer_cert : X509Certificate)
      × (issuer_key : Signer) × (parse_certificate_request lib a data_ ≡ ok request)
      × (a.check_request_signature request ≡ true)
      × MaySign lib issuer issuer_cert issuer_key
      × IsIssuedBy issuer_cert request.public_key (with_request lib a request options) c
      × (e.private_key ≡ none)
      × (map x509_of e.chain ≡ c ∷ chain_of issuer)

  -- SignCertificateRequest ends without a panic. It signs only a request whose own signature is
  -- right, for an entry that may sign; the certificate is for the key of the request, does not
  -- outlive the issuer's, and stands above the issuer's chain in an entry without a private key.
  -- The hash returns bytes enough for an identifier, and a certificate that is created is parsed as
  -- its template says.
  pub sign_certificate_request-IsSignedEntry :
      (issuer : Entry) (data_ : List ℕ) (options : CertificateOptions)
      → Ensures
          (IsSignedEntry issuer data_ options)
          (sign_certificate_request lib a issuer data_ options)
  unfolding sign_certificate_request
  sign_certificate_request-IsSignedEntry issuer data_ options =
      Ensures-bind (parse_request-found data_) λ request p.
        Ensures-guard (a.check_request_signature request) Error.external λ checked.
          Ensures-bind (validate_issuer-MaySign lib issuer) λ (ic, ik) may.
            Ensures-bind
              (issue_public_key-IsIssuedBy ic ik request.public_key
                (with_request lib a request options))
              λ c issued.
                Ensures-bind (new_certificates-map (c ∷ chain_of issuer))
                  λ items e. returns (request, c, ic, ik, p, checked, may, issued, refl, e)
