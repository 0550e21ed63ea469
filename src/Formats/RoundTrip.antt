-- ===== src/Formats/RoundTrip.antt =====
-- encode_pem.go and open_pem.go together: what encodePEM writes, openPEM reads.
use certkit.Prelude.{
  ◌≡◌, refl, sym, ap, ◌∙◌, ℕ, zero, suc, ◌+◌, ◌<◌, ◌==◌, List, [], ◌∷◌, ◌++◌, none, some,
}
use certkit.Prelude.{true, false, length, map, All, Bool-cases, Option-cases, inl, inr, arith}
use certkit.Prelude.{◌&&◌, length-map, append_assoc, append-nil}
use certkit.Text.{Text, hex, text_eq, ascii}
use certkit.Result.{ok}
use certkit.Store.Library.{Library, X509Certificate, Signer}
use certkit.Store.Types.{Certificate, PrivateKey, Store, Format, Encoding}
use certkit.Store.Chain.{certificate_role}
use certkit.Store.Operations.{key_algorithm, insert_certificate, insert_private_key}
use certkit.Store.Reconcile.{OpenOptions}
use certkit.Formats.Inserted.{insert_run, insert_run-append, map-map_from}
use certkit.Store.Operations.{certificate_id, private_key_id}
use certkit.Encode.{
  EncodeOptions, ConversionReport, BlockType, certificate, private_key, encrypted_private_key,
}
use certkit.Encode.{Marshallers, encode_pem, encode_pem_certificates, encode_pem_keys, key_block}
use certkit.Encode.{is_excluded, one_certificate_more, one_key_more}
use certkit.Formats.Library.{FormatLibrary, Block, IsParsing, HasRaw, raw_id}
use certkit.Formats.Keys.{only_store, parse_private_key, first_signer, add_certificates}
use certkit.Formats.Basics.{All-everywhere, new_certificate-returns, new_private_key-returns}
use certkit.Formats.Pkcs7.{empty_store}
use certkit.Store.Valid.{IsValid}
use certkit.Store.Keyed.{find_by}
use certkit.Formats.Pem.{
  pem_source, import_block, import_blocks, finish_pem, check_rest, import_certificates,
}
use certkit.Formats.Pem.{import_private_key, import_signer, is_certificate_block, is_pkcs7_block}
use certkit.Formats.Pem.{is_private_key_block, is_encrypted_key_block, open_pem}

-- The type of a block in the text.
abbrev pub block_label : BlockType → Text
block_label certificate = ascii "CERTIFICATE"
block_label private_key = ascii "PRIVATE KEY"
block_label encrypted_private_key = ascii "ENCRYPTED PRIVATE KEY"

abbrev pub plain_block : BlockType → List ℕ → Block
plain_block t b = record {
  block_type = block_label t;
  friendly_name = [];
  is_encrypted = false;
  bytes = b;
}

-- What is documented of the library: pem.Decode returns the block that pem.Encode wrote and what
-- follows it, and a private key is parsed from its PKCS#8 encoding.
pub record IsCodec (m : Marshallers) (x : FormatLibrary) : Type 0 where
  pub decode_encode :
      (t : BlockType) (b d rest : List ℕ)
      → m.pem_encode t b ≡ some d
      → x.pem_decode (d ++ rest) ≡ some (plain_block t b, rest)
  pub decode_end : x.pem_decode [] ≡ none
  pub trim_end : x.trim_space [] ≡ []
  pub parse_marshal :
      (k : Signer) (der : List ℕ) → m.marshal_pkcs8 k ≡ some der → x.parse_pkcs8 der ≡ some (some k)

-- A certificate with its own ID, which is parsed from its encoding.
pub record IsCertificate (lib : Library) (x : FormatLibrary) (c : Certificate) : Type 0 where
  pub has_raw : HasRaw c.certificate
  pub own_id : c.id ≡ raw_id lib c.certificate
  pub parses : x.parse_certificates c.certificate.raw ≡ some (c.certificate ∷ [])

pub record IsPrivateKey (lib : Library) (k : PrivateKey) : Type 0 where
  pub public_der : List ℕ
  pub has_public : lib.marshal_pkix (lib.public k.signer) ≡ some public_der
  pub own_id : k.id ≡ hex (lib.sha256 public_der)

abbrev pub without_passwords : OpenOptions → OpenOptions
without_passwords o = record o { password = none; password_provider = none }

abbrev pub plain_options : EncodeOptions → EncodeOptions
plain_options o = record o { exclude_root_certificates = false; encrypt_pem_private_key = false }

-- The objects as they are read back from the block with index `i`.
abbrev pub reread_certificate : Library → ℕ → Certificate → Certificate
reread_certificate lib i c = record {
  id = c.id;
  certificate = c.certificate;
  role = certificate_role lib c.certificate;
  source = pem_source i;
}

abbrev pub reread_private_key : Library → ℕ → PrivateKey → PrivateKey
reread_private_key lib i k = record {
  id = k.id;
  signer = k.signer;
  algorithm = key_algorithm lib k.signer;
  exportable = true;
  source = pem_source i;
}

abbrev pub x509_certificate : Certificate → X509Certificate
x509_certificate c = c.certificate

abbrev pub signer_of : PrivateKey → Signer
signer_of k = k.signer

-- The same certificates and private keys, and IDs, in the same order.
unfoldable pub HasSameObjects : Store → Store → Type 0
HasSameObjects s t =
    (map x509_certificate t.certificates ≡ map x509_certificate s.certificates)
    × (map certificate_id t.certificates ≡ map certificate_id s.certificates)
    × (map signer_of t.private_keys ≡ map signer_of s.private_keys)
    × (map private_key_id t.private_keys ≡ map private_key_id s.private_keys)

abbrev pem_store : Store
pem_store = empty_store Format.pem Encoding.pem

module _ (lib : Library) (m : Marshallers) (x : FormatLibrary) (codec : IsCodec m x) where
  certificate_block :
      (o : OpenOptions) (c : Certificate) (s : Store) (i fuel : ℕ) (d rest : List ℕ)
      → IsCertificate lib x c
      → m.pem_encode certificate c.certificate.raw ≡ some d
      → import_blocks lib x (suc fuel) o (d ++ rest) s i
        ≡ import_blocks lib x fuel o rest
            (insert_certificate (reread_certificate lib i c) s)
            (i + 1)
  unfolding import_blocks import_block import_certificates is_certificate_block text_eq
      add_certificates
  certificate_block o c s i fuel d rest h e =
      rw
        (
          codec.decode_encode certificate c.certificate.raw d rest e,
          import_blocks,
          import_certificates,
          h.parses,
          new_certificate-returns lib c.certificate h.has_raw,
          h.own_id,
        )
        refl

  key_block_read :
      (o : OpenOptions) (k : PrivateKey) (s : Store) (i fuel : ℕ) (der d rest : List ℕ)
      → IsPrivateKey lib k
      → m.marshal_pkcs8 k.signer ≡ some der
      → m.pem_encode private_key der ≡ some d
      → import_blocks lib x (suc fuel) (without_passwords o) (d ++ rest) s i
        ≡ import_blocks lib x fuel
            (without_passwords o)
            rest
            (insert_private_key (reread_private_key lib i k) s)
            (i + 1)
  unfolding import_blocks import_block import_private_key import_signer is_certificate_block
      is_pkcs7_block is_private_key_block is_encrypted_key_block text_eq parse_private_key
      first_signer
  key_block_read o k s i fuel der d rest h p e =
      rw
        (
          codec.decode_encode private_key der d rest e,
          import_blocks,
          codec.parse_marshal k.signer der p,
          new_private_key-returns lib k.signer h.public_der h.has_public,
          h.own_id,
        )
        refl

  -- The stores after the blocks of the keys, and of the certificates and the keys.
  read_keys : ℕ → List PrivateKey → Store → Store
  read_keys i [] s = s
  read_keys i (k ∷ ks) s = read_keys (i + 1) ks (insert_private_key (reread_private_key lib i k) s)

  read_both : ℕ → List Certificate → List PrivateKey → Store → Store
  read_both i [] ks s = read_keys i ks s
  read_both i (c ∷ cs) ks s =
      read_both (i + 1) cs ks (insert_certificate (reread_certificate lib i c) s)

  -- Text that the loop reads as the step `f` of the store, with enough rounds.
  abbrev IsRead : OpenOptions → List ℕ → (ℕ → Store → Store) → Type 0
  IsRead o tail f =
      (fuel : ℕ) (s : Store) (i : ℕ)
      → length tail < fuel
      → import_blocks lib x fuel (without_passwords o) tail s i ≡ finish_pem lib x (f i s)

  nothing-IsRead : (o : OpenOptions) → IsRead o [] (λ i s. s)
  unfolding import_blocks check_rest
  nothing-IsRead o zero s i l = elim l [ ]
  nothing-IsRead o (suc fuel) s i l = rw (codec.decode_end, import_blocks, codec.trim_end) refl

  -- A block before the text.
  IsRead-cons :
      (o : OpenOptions) (text rest : List ℕ) (g f : ℕ → Store → Store)
      → length rest < length text
      → ((fuel : ℕ) (s : Store) (i : ℕ)
          → import_blocks lib x (suc fuel) (without_passwords o) text s i
            ≡ import_blocks lib x fuel (without_passwords o) rest (g i s) (i + 1))
      → IsRead o rest f
      → IsRead o text (λ i s. f (i + 1) (g i s))
  IsRead-cons o text rest g f l h r zero s i n = elim n [ ]
  IsRead-cons o text rest g f l h r (suc fuel) s i n =
      h fuel s i ∙ r fuel (g i s) (i + 1) (omega arith)

module _ (lib : Library) (m : Marshallers) (x : FormatLibrary) (codec : IsCodec m x)
    (laws : IsParsing lib x) (o : OpenOptions) (e : EncodeOptions) where
  -- What the loop over the keys appends is read as the keys.
  encode_pem_keys-IsRead :
      (ks : List PrivateKey) (output out : List ℕ) (report : ConversionReport)
      → All (IsPrivateKey lib) ks
      → (encode_pem_keys lib m (plain_options e) ks output report).0 ≡ ok out
      → (tail : List ℕ) × (out ≡ output ++ tail)
        × IsRead lib m x codec o tail (λ i s. read_keys lib m x codec i ks s)
  unfolding encode_pem_keys read_keys key_block
  encode_pem_keys-IsRead [] output out report h r = elim (Bool-cases (length output == 0)) [
    | inl b ↦ absurd (ground (arith, b))
    | inr b ↦ ([], ground (arith, b, append-nil output), nothing-IsRead lib m x codec o)
  ]
  encode_pem_keys-IsRead (k ∷ ks) output out report (h, hs) r =
      elim (Option-cases (m.marshal_pkcs8 k.signer)) [
        | inl n ↦ cc (rw n at r)
        | inr (der, p) ↦ elim (Option-cases (m.pem_encode private_key der)) [
          | inl n ↦ cc (rw (p, n) at r)
          | inr (d, q) ↦
              let (tail, s, w) =
                encode_pem_keys-IsRead ks (output ++ d) out (one_key_more lib m report) hs
                  (rw (p, q) at r) in
              (
                d ++ tail,
                s ∙ append_assoc output d tail,
                IsRead-cons lib m x codec o (d ++ tail) tail
                    (λ i. insert_private_key (reread_private_key lib i k))
                    (λ i s. read_keys lib m x codec i ks s)
                    (laws.pem_shrinks (d ++ tail) _ tail
                      (codec.decode_encode private_key der d tail q))
                    (λ fuel s i. key_block_read lib m x codec o k s i fuel der d tail h p q) w,
              )
        ]
      ]

  -- What the loop over the certificates appends, with the keys, is read as both.
  encode_pem_certificates-IsRead :
      (cs : List Certificate) (ks : List PrivateKey) (output out : List ℕ)
      (report : ConversionReport)
      → All (IsCertificate lib x) cs
      → All (IsPrivateKey lib) ks
      → (encode_pem_certificates lib m (plain_options e) cs ks output report).0 ≡ ok out
      → (tail : List ℕ) × (out ≡ output ++ tail)
        × IsRead lib m x codec o tail (λ i s. read_both lib m x codec i cs ks s)
  unfolding encode_pem_certificates read_both is_excluded
  encode_pem_certificates-IsRead [] ks output out report h hk r =
      encode_pem_keys-IsRead ks output out report hk r
  encode_pem_certificates-IsRead (c ∷ cs) ks output out report (h, hs) hk r =
      elim (Option-cases (m.pem_encode certificate c.certificate.raw)) [
        | inl n ↦ cc (rw n at r)
        | inr (d, q) ↦
            let (tail, s, w) =
              encode_pem_certificates-IsRead cs ks (output ++ d) out
                (one_certificate_more lib m report) hs hk (rw q at r) in
            (
              d ++ tail,
              s ∙ append_assoc output d tail,
              IsRead-cons lib m x codec o (d ++ tail) tail
                  (λ i. insert_certificate (reread_certificate lib i c))
                  (λ i s. read_both lib m x codec i cs ks s)
                  (laws.pem_shrinks (d ++ tail) _ tail
                    (codec.decode_encode certificate c.certificate.raw d tail q))
                  (λ fuel s i.
                    certificate_block lib m x codec (without_passwords o) c s i fuel d tail h q)
                  w,
            )
      ]

-- What was read into a store.
module _ (lib : Library) (m : Marshallers) (x : FormatLibrary) (codec : IsCodec m x) where
  certificates-read_keys :
      (i : ℕ) (ks : List PrivateKey) (s : Store)
      → ((read_keys lib m x codec i ks s).certificates ≡ s.certificates)
        × ((read_keys lib m x codec i ks s).private_keys
            ≡ insert_run private_key_id (reread_private_key lib) i ks s.private_keys)
  unfolding read_keys insert_run insert_private_key
  certificates-read_keys i [] s = (refl, refl)
  certificates-read_keys i (k ∷ ks) s =
      certificates-read_keys (i + 1) ks (insert_private_key (reread_private_key lib i k) s)

  lists-read_both :
      (i : ℕ) (cs : List Certificate) (ks : List PrivateKey) (s : Store)
      → (j : ℕ) × ((read_both lib m x codec i cs ks s).certificates
          ≡ insert_run certificate_id (reread_certificate lib) i cs s.certificates)
        × ((read_both lib m x codec i cs ks s).private_keys
            ≡ insert_run private_key_id (reread_private_key lib) j ks s.private_keys)
  unfolding read_both insert_run insert_certificate
  lists-read_both i [] ks s = let (p, q) = certificates-read_keys i ks s in (i, p, q)
  lists-read_both i (c ∷ cs) ks s =
      lists-read_both (i + 1) cs ks (insert_certificate (reread_certificate lib i c) s)

-- Of all objects the list is as it was, but for references, roles and the like.
module _ (lib : Library) (m : Marshallers) (x : FormatLibrary) where
  not_empty :
      (e : EncodeOptions) (cs : List Certificate) (ks : List PrivateKey) (report : ConversionReport)
      (out : List ℕ)
      → (encode_pem_certificates lib m (plain_options e) cs ks [] report).0 ≡ ok out
      → (length cs == 0 && length ks == 0) ≡ false
  unfolding encode_pem_certificates encode_pem_keys
  not_empty e [] [] report out r = cc r
  not_empty e [] (k ∷ ks) report out r = ground arith
  not_empty e (c ∷ cs) ks report out r = ground arith

  finish_not_empty :
      (t : Store) (cs : List Certificate) (ks : List PrivateKey)
      → map x509_certificate t.certificates ≡ map x509_certificate cs
      → map signer_of t.private_keys ≡ map signer_of ks
      → (length cs == 0 && length ks == 0) ≡ false
      → finish_pem lib x t ≡ only_store t
  unfolding finish_pem
  finish_not_empty t cs ks p q n =
      let lc : length t.certificates ≡ length cs =
        sym (length-map t.certificates x509_certificate)
        ∙ ap length p
        ∙ length-map cs x509_certificate in
      let lk : length t.private_keys ≡ length ks =
        sym (length-map t.private_keys signer_of) ∙ ap length q ∙ length-map ks signer_of in
      let b : (length t.certificates == 0 && length t.private_keys == 0) ≡ false =
        ground (arith, lc, lk, n) in
      rw b refl

  reread_lists :
      (codec : IsCodec m x) (s : Store) (i : ℕ)
      → IsValid s
      → (t : Store) × (read_both lib m x codec i s.certificates s.private_keys pem_store ≡ t)
        × HasSameObjects s t
  unfolding find_by HasSameObjects
  reread_lists codec s i v =
      let (j, p, q) = lists-read_both lib m x codec i s.certificates s.private_keys pem_store in
      let p' =
        p
        ∙ insert_run-append certificate_id (reread_certificate lib) i s.certificates []
            (All-everywhere _ s.certificates (λ c i. refl)) v.certificates_distinct
            (All-everywhere _ s.certificates (λ c. refl)) in
      let q' =
        q
        ∙ insert_run-append private_key_id (reread_private_key lib) j s.private_keys []
            (All-everywhere _ s.private_keys (λ c i. refl)) v.private_keys_distinct
            (All-everywhere _ s.private_keys (λ c. refl)) in
      (
        read_both lib m x codec i s.certificates s.private_keys pem_store,
        refl,
        (
          ap (map x509_certificate) p'
              ∙ map-map_from certificate_id (reread_certificate lib) x509_certificate i
                  s.certificates (λ i c. refl),
          ap (map certificate_id) p'
              ∙ map-map_from certificate_id (reread_certificate lib) certificate_id i s.certificates
                  (λ i c. refl),
          ap (map signer_of) q'
              ∙ map-map_from private_key_id (reread_private_key lib) signer_of j s.private_keys
                  (λ i c. refl),
          ap (map private_key_id) q'
              ∙ map-map_from private_key_id (reread_private_key lib) private_key_id j s.private_keys
                  (λ i c. refl),
        ),
      )

  -- What encodePEM writes of a valid store without encrypting its private keys, all roots included,
  -- openPEM reads without a password: it returns no error, and a store with the same certificates
  -- and private keys under the same IDs in the same order. PEM and PKCS#8 are read as they were
  -- written (IsCodec), and each object has the ID that it was made with.
  pub open_pem-encode_pem :
      (s : Store) (e : EncodeOptions) (o : OpenOptions) (report : ConversionReport) (out : List ℕ)
      → IsCodec m x
      → IsParsing lib x
      → IsValid s
      → All (IsCertificate lib x) s.certificates
      → All (IsPrivateKey lib) s.private_keys
      → (encode_pem lib m s (plain_options e) report).0 ≡ ok out
      → (t : Store) × (open_pem lib x out (without_passwords o) ≡ only_store t) × HasSameObjects s t
  unfolding encode_pem open_pem HasSameObjects
  open_pem-encode_pem s e o report out codec laws v hc hk r =
      let (tail, q, w) =
        encode_pem_certificates-IsRead lib m x codec laws o e s.certificates s.private_keys [] out
          report hc hk r in
      let (t, f, (c, ci, k, ki)) = reread_lists codec s 0 v in
      (
        t,
        rw q (
            w (suc (length tail)) pem_store 0 (omega arith)
            ∙ ap (finish_pem lib x) f
            ∙ finish_not_empty t s.certificates s.private_keys c k
                (not_empty e s.certificates s.private_keys report out r)),
        (c, ci, k, ki),
      )
