-- ===== src/Formats/PemSound.antt =====
-- open_pkcs7.go, open_der.go and open_pem.go: the openers end on every input of bytes without a
-- panic, and their stores are valid.
use certkit.Prelude.{
  ◌≡◌, refl, ℕ, zero, suc, ◌+◌, ◌<◌, ◌==◌, List, ◌++◌, Option, none, some, Bool, true,
}
use certkit.Prelude.{false, length, not, All, All-map, Bool-cases, Option-cases, inl, inr, arith}
use certkit.Prelude.{◌&&◌}
use certkit.Result.{
  guard, ◌>>◌, ok, err, panic, stuck, Ensures, returns, refuses, Ensures-bind, Ensures-if,
}
use certkit.Store.Library.{Library, X509Certificate, Signer}
use certkit.Store.Types.{Error, R, Format, Encoding, Store, Certificate, Answer, PasswordProvider}
use certkit.Store.Types.{PasswordRequest}
use certkit.Store.Operations.{insert_certificates, new_certificate}
use certkit.Store.Reconcile.{OpenOptions, merge_store_objects, insert_private_keys}
use certkit.Store.Valid.{IsValid, valid, insert_private_key-IsValid}
use certkit.Store.Valid.{insert_certificates-IsValid}
use certkit.Store.Merge.{insert_private_keys-IsValid}
use certkit.Store.Additions.{Anything, LongHashes, new_private_key-LongId, new_certificate-total}
use certkit.Ber.Read.{to_der}
use certkit.Ber.Total.{to_der_total}
use certkit.Rc2.Schedule.{IsBytes}
use certkit.Passwords.{password_for, ask, answered, provided}
use certkit.Open.{Opened}
use certkit.Open.Laws.{StoreHas, Opens}
use certkit.Formats.Library.{FormatLibrary, IsParsing, Block}
use certkit.Formats.Keys.{place_private_key}
use certkit.Formats.Basics.{
  IsValid-relabel, add_certificates-IsValid, All-everywhere, or_panic-new_certificate,
}
use certkit.Formats.Basics.{recovered-bind}
use certkit.Formats.Pkcs7.{
  empty_store, wrapped, recovered, read_pkcs7, open_pkcs7, der_key, open_der,
}
use certkit.Formats.Pem.{
  import_certificates, import_pkcs7, import_signer, import_private_key, import_block, check_rest,
}
use certkit.Formats.Pem.{finish_pem, import_blocks, open_pem, with_password, decrypted}
use certkit.Formats.Pem.{is_certificate_block, is_pkcs7_block, is_private_key_block}
use certkit.Formats.Pem.{is_encrypted_key_block}

-- The store that came with the result, if one did, is valid.
abbrev pub HasValid : Opened → Type 0
HasValid r = StoreHas IsValid r.store

pub empty_store-IsValid : (f : Format) (e : Encoding) → IsValid (empty_store f e)
empty_store-IsValid f e = valid tt tt tt tt

recovered_parse :
    (r : R (List X509Certificate))
    → ¬ (r ≡ stuck)
    → Ensures (Anything {0} {A = List X509Certificate}) (recovered (wrapped r))
recovered_parse (ok cs) h = returns tt
recovered_parse (err e) h = refuses
recovered_parse panic h = refuses
recovered_parse stuck h = absurd (h refl)

recovered-to_der :
    (ber : List ℕ)
    → IsBytes ber
    → Ensures (Anything {0} {A = List ℕ}) (recovered (wrapped (to_der ber)))
recovered-to_der ber b = elim (to_der_total ber b) [
  | inl (o, e, _, _) ↦ rw e (returns tt)
  | inr (x, e) ↦ rw e refuses
]

recovered-Ensures : {A : Type 0} (P : A → Type 0) (r : R A) → Ensures P r → Ensures P (recovered r)
recovered-Ensures P (ok a) h = h
recovered-Ensures P (err e) h = h
recovered-Ensures P panic h = refuses
recovered-Ensures P stuck h = h

non_empty :
    (s : Store) → IsValid s → (b : Bool) → Ensures IsValid (guard b Error.no_certificate >> ok s)
non_empty s v true = returns v
non_empty s v false = refuses

answered-Ensures : (a : Answer) → Ensures (Anything {0} {A = List ℕ}) (answered a)
unfolding answered provided
answered-Ensures Answer.refused = refuses
answered-Ensures (Answer.given none) = refuses
answered-Ensures (Answer.given (some p)) = returns tt

pub password_for-Ensures :
    (password : Option (List ℕ)) (provider : Option PasswordProvider) (request : PasswordRequest)
    → Ensures (Anything {0} {A = List ℕ}) (password_for password provider request)
unfolding password_for ask
password_for-Ensures (some p) provider request = returns tt
password_for-Ensures none none request = refuses
password_for-Ensures none (some provider) request = answered-Ensures (provider request)

module _ (lib : Library) (x : FormatLibrary) (hashes : LongHashes lib)
    (laws : IsParsing lib x) where
  All-certificates :
      (cs : List X509Certificate)
      → All (λ c. Ensures (Anything {0} {A = Certificate}) (new_certificate lib (some c))) cs
  All-certificates cs = All-everywhere _ cs (λ c. new_certificate-total lib hashes (some c))

  -- openPKCS7 ends on every input of bytes without a panic, and its store is valid.
  pub open_pkcs7-IsValid : (ber : List ℕ) → IsBytes ber → Ensures IsValid (open_pkcs7 lib x ber)
  unfolding open_pkcs7 read_pkcs7
  open_pkcs7-IsValid ber b =
      recovered-bind (wrapped (to_der ber)) _ (recovered-to_der ber b) λ data_ u.
        recovered-bind (wrapped (x.parse_pkcs7 data_)) _
          (recovered_parse (x.parse_pkcs7 data_) (laws.pkcs7_ends data_))
          λ certs w. recovered-Ensures IsValid _ (
            Ensures-bind
              (add_certificates-IsValid _ _ 0 certs (empty_store Format.pkcs7 Encoding.der)
                (All-certificates certs) (empty_store-IsValid Format.pkcs7 Encoding.der))
              λ s v. non_empty s v (not (length s.certificates == 0)))

  der_key-HasValid : (key : Option Signer) → Ensures HasValid (der_key lib x key)
  unfolding der_key
  der_key-HasValid none = refuses
  der_key-HasValid (some key) =
      Ensures-bind (new_private_key-LongId lib hashes (some key)) λ item l. returns (
        insert_private_key-IsValid (place_private_key _ item) _ l
          (empty_store-IsValid Format.der Encoding.der))

  pub open_der-HasValid : Opens (open_der lib x)
  unfolding open_der
  open_der-HasValid data_ options b = elim (Option-cases (x.parse_certificates data_)) [
    | inl n ↦ rw (n, open_der) (der_key-HasValid _)
    | inr (certs, e) ↦
        rw (e, open_der)
          (Ensures-bind
            (add_certificates-IsValid _ _ 0 certs (empty_store Format.der Encoding.der)
              (All-map certs (λ c h. or_panic-new_certificate lib c h)
                (laws.certificates_raw data_ certs e))
              (empty_store-IsValid Format.der Encoding.der))
            λ s v. returns v)
  ]

  merge_store_objects-IsValid :
      (s child : Store) → IsValid s → IsValid child → IsValid (merge_store_objects s child)
  unfolding merge_store_objects
  merge_store_objects-IsValid s child v w =
      let merged =
        insert_private_keys child.private_keys (insert_certificates child.certificates s) in
      IsValid-relabel merged merged.source (merged.diagnostics ++ child.diagnostics) (
        insert_private_keys-IsValid child.private_keys (insert_certificates child.certificates s)
          w.private_keys_long (insert_certificates-IsValid child.certificates s v))

  -- What the loop does after a step, on a valid store.
  abbrev Continues : (Store → R Opened) → Type 0
  Continues next = (s : Store) → IsValid s → Ensures HasValid (next s)

  import_signer-HasValid :
      (encrypted : Bool) (key : Option Signer) (s : Store) (index : ℕ) (next : Store → R Opened)
      → IsValid s
      → Continues next
      → Ensures HasValid (import_signer lib x encrypted key s index next)
  unfolding import_signer
  import_signer-HasValid true none s index next v n = returns v
  import_signer-HasValid false none s index next v n = returns v
  import_signer-HasValid encrypted (some key) s index next v n =
      Ensures-bind (new_private_key-LongId lib hashes (some key))
        λ item l. n _ (insert_private_key-IsValid (place_private_key _ item) s l v)

  with_password-HasValid :
      (password : R (List ℕ)) (s : Store) (next : List ℕ → R Opened)
      → Ensures (Anything {0} {A = List ℕ}) password
      → IsValid s
      → ((pw : List ℕ) → Ensures HasValid (next pw))
      → Ensures HasValid (with_password password s next)
  with_password-HasValid (ok pw) s next h v n = n pw
  with_password-HasValid (err e) s next h v n = returns v
  with_password-HasValid panic s next h v n = elim h [ ]
  with_password-HasValid stuck s next h v n = elim h [ ]

  decrypted-HasValid :
      (o : Option (List ℕ)) (s : Store) (next : List ℕ → R Opened)
      → IsValid s
      → ((der : List ℕ) → Ensures HasValid (next der))
      → Ensures HasValid (decrypted o s next)
  decrypted-HasValid none s next v n = returns v
  decrypted-HasValid (some der) s next v n = n der

  import_private_key-HasValid :
      (password : R (List ℕ)) (block : Block) (s : Store) (index : ℕ) (next : Store → R Opened)
      → Ensures (Anything {0} {A = List ℕ}) password
      → IsValid s
      → Continues next
      → Ensures HasValid (import_private_key lib x password block s index next)
  unfolding import_private_key
  import_private_key-HasValid password block s index next h v n =
      Ensures-if block.is_encrypted
        (λ q. with_password-HasValid password s _ h v λ pw.
          decrypted-HasValid (x.decrypt_pem_block block pw) s _ v
            λ der. import_signer-HasValid _ _ s index next v n)
        λ q.
          Ensures-if (is_encrypted_key_block block.block_type)
            (λ e.
              with_password-HasValid password s _ h v
                λ pw. import_signer-HasValid _ _ s index next v n)
            λ e. import_signer-HasValid _ _ s index next v n

  import_certificates-HasValid :
      (block : Block) (s : Store) (index : ℕ) (next : Store → R Opened)
      → IsValid s
      → Continues next
      → Ensures HasValid (import_certificates lib x block s index next)
  unfolding import_certificates
  import_certificates-HasValid block s index next v n =
      elim (Option-cases (x.parse_certificates block.bytes)) [
        | inl e ↦ rw (e, import_certificates) refuses
        | inr (certs, e) ↦
            rw (e, import_certificates)
              (Ensures-bind (add_certificates-IsValid _ _ 0 certs s (All-certificates certs) v) n)
      ]

  import_block-HasValid :
      (options : OpenOptions) (block : Block) (s : Store) (index : ℕ) (next : Store → R Opened)
      → IsBytes block.bytes
      → IsValid s
      → Continues next
      → Ensures HasValid (import_block lib x options block s index next)
  unfolding import_block import_pkcs7
  import_block-HasValid options block s index next b v n =
      Ensures-if (is_certificate_block block.block_type)
        (λ q. import_certificates-HasValid block s index next v n)
        λ q.
          Ensures-if (is_pkcs7_block block.block_type)
            (λ p.
              Ensures-bind (open_pkcs7-IsValid block.bytes b)
                λ child w. n _ (merge_store_objects-IsValid s child v w))
            λ p.
              Ensures-if (is_private_key_block block.block_type)
                (λ k.
                  import_private_key-HasValid _ block s index next
                    (password_for-Ensures options.password options.password_provider _) v n)
                λ k. n _ (IsValid-relabel s s.source _ v)

  check_rest-IsValid : (rest : List ℕ) (s : Store) → IsValid s → IsValid (check_rest lib x rest s)
  unfolding check_rest
  check_rest-IsValid rest s v = elim (Bool-cases (length (x.trim_space rest) == 0)) [
    | inl e ↦ rw e v
    | inr e ↦ rw e (IsValid-relabel s s.source _ v)
  ]

  finish_pem-HasValid : (s : Store) → IsValid s → Ensures HasValid (finish_pem lib x s)
  unfolding finish_pem
  finish_pem-HasValid s v =
      Ensures-if (length s.certificates == 0 && length s.private_keys == 0) (λ q. refuses)
        λ q. returns v

  -- Each round consumes input, so the rounds of the fuel are enough.
  import_blocks-HasValid :
      (fuel : ℕ) (options : OpenOptions) (rest : List ℕ) (s : Store) (index : ℕ)
      → length rest < fuel
      → IsBytes rest
      → IsValid s
      → Ensures HasValid (import_blocks lib x fuel options rest s index)
  unfolding import_blocks
  import_blocks-HasValid zero options rest s index f z v = elim f [ ]
  import_blocks-HasValid (suc fuel) options rest s index f z v =
      elim (Option-cases (x.pem_decode rest)) [
        | inl e ↦
            rw (e, import_blocks)
              (finish_pem-HasValid (check_rest lib x rest s) (check_rest-IsValid rest s v))
        | inr ((block, remaining), e) ↦
            let shorter = laws.pem_shrinks rest block remaining e in
            let (bytes, others) = laws.pem_bytes rest block remaining z e in
            rw (e, import_blocks)
              (import_block-HasValid options block s index _ bytes v λ s' w.
                import_blocks-HasValid fuel options remaining s' (index + 1) (omega arith) others w)
      ]

  pub open_pem-HasValid : Opens (open_pem lib x)
  unfolding open_pem
  open_pem-HasValid data_ options b =
      import_blocks-HasValid (suc (length data_)) options data_
        (empty_store Format.pem Encoding.pem) 0 (omega arith) b
        (empty_store-IsValid Format.pem Encoding.pem)
