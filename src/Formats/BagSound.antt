-- ===== src/Formats/BagSound.antt =====
-- open_pkcs12.go, storeFromPKCS12Blocks: it ends without a panic, and its store is valid.
use certkit.Prelude.{◌≡◌, ℕ, ◌+◌, ◌==◌, List, [], ◌∷◌, some}
use certkit.Prelude.{length, All, All-append, Option-cases, inl}
use certkit.Prelude.{inr, ◌&&◌}
use certkit.Text.{Text, text_eq, trim_space, ascii}
use certkit.Result.{ok, Ensures, returns, refuses, Ensures-ok, Ensures-bind, Ensures-if}
use certkit.Store.Library.{Library, Signer}
use certkit.Store.Types.{R, Certificate, Store}
use certkit.Store.Keyed.{IsDistinct→IsFound}
use certkit.Store.Operations.{certificate_id}
use certkit.Store.Linked.{Linked, private_key_by_id-KeyLinked, chain_for-holds}
use certkit.Store.Valid.{
  IsValid, LongId, append-IsValid, insert_certificate-IsValid, insert_private_key-IsValid,
}
use certkit.Store.Additions.{Anything, LongHashes, new_private_key-LongId}
use certkit.Formats.Library.{FormatLibrary, IsParsing, Block}
use certkit.Formats.Keys.{
  or_panic, place_certificate, place_private_key, parse_private_key, plain_parsers,
}
use certkit.Formats.Alias.{unique_entry_alias}
use certkit.Formats.Fresh.{FoldsDigits, unique_entry_alias_lem}
use certkit.Formats.Basics.{new_private_key-returns, first_signer-holds, or_panic-new_certificate}
use certkit.Formats.PemSound.{empty_store-IsValid}
use certkit.Formats.Pkcs12.{
  pkcs12_source, KeyAlias, BlockState, import_certificate_bag, import_key_bag,
}
use certkit.Formats.Pkcs12.{import_bag, import_bags, key_alias, add_key_entry, add_key_entries}
use certkit.Formats.Pkcs12.{trusted_alias, add_trusted_entries, add_entries, finish_pkcs12}
use certkit.Formats.Pkcs12.{store_from_pkcs12_blocks}

abbrev IsGood : BlockState → Type 0
IsGood st = IsValid st.store × All (λ v. LongId v.key) st.keys

-- What the openers need of the library to end without a panic.
pub record Relies (lib : Library) (x : FormatLibrary) : Type 0 where
  pub hashes : LongHashes lib
  pub parsing : IsParsing lib x
  pub digits_fold : FoldsDigits lib

or_panic-Ensures :
    {A : Type 0} {P : A → Type 0} {r : R A} {a : A}
    → Ensures P r
    → r ≡ ok a
    → Ensures P (or_panic r)
or_panic-Ensures h e = rw e (returns (Ensures-ok h e))

module _ (lib : Library) (x : FormatLibrary) (relies : Relies lib x) where
  -- A key that parsePrivateKey returned without a password has a public key with an encoding.
  parsed_key_public :
      (der : List ℕ) (k : Signer)
      → parse_private_key x der [] ≡ some k
      → (pub_der : List ℕ) × (lib.marshal_pkix (lib.public k) ≡ some pub_der)
  unfolding parse_private_key
  parsed_key_public der k e =
      let l = relies.parsing in
      first_signer-holds
        (λ k. (pub_der : List ℕ) × (lib.marshal_pkix (lib.public k) ≡ some pub_der))
        (plain_parsers x) der
        (l.pkcs8_public der, (l.pkcs1_public der, (l.ec_public der, (l.sm2_public der, tt)))) k e

  import_certificate_bag-IsGood :
      (i : ℕ) (alias : Text) (block : Block) (st : BlockState)
      → IsGood st
      → Ensures IsGood (import_certificate_bag lib x i alias block st)
  unfolding import_certificate_bag
  import_certificate_bag-IsGood i alias block st (v, l) =
      elim (Option-cases (x.parse_certificate block.bytes)) [
        | inl n ↦ rw (n, import_certificate_bag) refuses
        | inr (c, e) ↦
            rw (e, import_certificate_bag)
              (Ensures-bind
                (or_panic-new_certificate lib c (relies.parsing.certificate_raw block.bytes c e))
                λ item u. returns (
                  insert_certificate-IsValid (place_certificate (pkcs12_source alias i) item)
                      st.store v,
                  l,
                ))
      ]

  import_key_bag-IsGood :
      (i : ℕ) (alias : Text) (block : Block) (st : BlockState)
      → IsGood st
      → Ensures IsGood (import_key_bag lib x i alias block st)
  unfolding import_key_bag
  import_key_bag-IsGood i alias block st (v, l) =
      elim (Option-cases (parse_private_key x block.bytes [])) [
        | inl n ↦ rw (n, import_key_bag) refuses
        | inr (k, e) ↦
            let (der, m) = parsed_key_public block.bytes k e in
            let r = new_private_key-returns lib k der m in
            rw (e, import_key_bag)
              (Ensures-bind (or_panic-Ensures (new_private_key-LongId lib relies.hashes (some k)) r)
                λ item' long. returns (
                  insert_private_key-IsValid (place_private_key (pkcs12_source alias i) item')
                      st.store long v,
                  All-append (λ v. LongId v.key) st.keys _ l (long, tt),
                ))
      ]

  import_bags-IsGood :
      (i : ℕ) (blocks : List Block) (st : BlockState)
      → IsGood st
      → Ensures IsGood (import_bags lib x i blocks st)
  unfolding import_bags import_bag
  import_bags-IsGood i [] st g = returns g
  import_bags-IsGood i (block ∷ blocks) st g =
      Ensures-bind
        (Ensures-if (text_eq block.block_type (ascii "CERTIFICATE"))
          (λ q. import_certificate_bag-IsGood i (trim_space block.friendly_name) block st g)
          λ q.
            Ensures-if (text_eq block.block_type (ascii "PRIVATE KEY"))
              (λ p. import_key_bag-IsGood i (trim_space block.friendly_name) block st g)
              λ p. returns g)
        λ st' g'. import_bags-IsGood (i + 1) blocks st' g'

  unique_entry_alias-total :
      (s : Store) (alias : Text)
      → Ensures (Anything {0} {A = Text}) (unique_entry_alias lib s alias)
  unique_entry_alias-total s alias =
      let (a, e, _, _) = unique_entry_alias_lem lib relies.digits_fold s alias in rw e (returns tt)

  key_alias-total :
      (v : KeyAlias) → LongId v.key → Ensures (Anything {0} {A = Text}) (key_alias lib x v)
  unfolding key_alias
  key_alias-total v l = Ensures-if (text_eq v.alias []) (λ q. rw l (returns tt)) λ q. returns tt

  add_key_entry-IsValid :
      (v : KeyAlias) (s : Store)
      → LongId v.key
      → IsValid s
      → Ensures IsValid (add_key_entry lib x v s)
  unfolding add_key_entry
  add_key_entry-IsValid v s l w =
      let found = IsDistinct→IsFound certificate_id s.certificates w.certificates_distinct in
      Ensures-bind (key_alias-total v l) λ wanted u.
        Ensures-bind (unique_entry_alias-total s wanted) λ alias t. returns (
          append-IsValid s _ w (
            chain_for-holds lib (Linked s.certificates) (lib.public v.key.signer) s.certificates
                s.certificates found found,
            private_key_by_id-KeyLinked s v.key.id,
          ))

  add_key_entries-IsValid :
      (vs : List KeyAlias) (s : Store)
      → All (λ v. LongId v.key) vs
      → IsValid s
      → Ensures IsValid (add_key_entries lib x vs s)
  unfolding add_key_entries
  add_key_entries-IsValid [] s l w = returns w
  add_key_entries-IsValid (v ∷ vs) s (l, ls) w =
      Ensures-bind (add_key_entry-IsValid v s l w) λ s' w'. add_key_entries-IsValid vs s' ls w'

  add_trusted_entries-IsValid :
      (m : List (Text × Text)) (cs : List Certificate) (s : Store)
      → All (Linked s.certificates) cs
      → IsValid s
      → Ensures IsValid (add_trusted_entries lib x m cs s)
  unfolding add_trusted_entries
  add_trusted_entries-IsValid m [] s l w = returns w
  add_trusted_entries-IsValid m (c ∷ cs) s (l, ls) w =
      Ensures-bind (unique_entry_alias-total s (trusted_alias lib x m c))
        λ alias u. add_trusted_entries-IsValid m cs _ ls (append-IsValid s _ w ((l, tt), tt))

  add_entries-IsValid :
      (st : BlockState) (s : Store) → IsValid s → Ensures IsValid (add_entries lib x st s)
  unfolding add_entries
  add_entries-IsValid st s w =
      Ensures-if (length st.keys == 0)
        (λ q.
          add_trusted_entries-IsValid st.certificate_aliases s.certificates s
            (IsDistinct→IsFound certificate_id s.certificates w.certificates_distinct) w)
        λ q. returns w

  finish_pkcs12-IsValid : (s : Store) → IsValid s → Ensures IsValid (finish_pkcs12 lib x s)
  unfolding finish_pkcs12
  finish_pkcs12-IsValid s v =
      Ensures-if (length s.certificates == 0 && length s.private_keys == 0) (λ q. refuses)
        λ q. returns v

  pub store_from_pkcs12_blocks-IsValid :
      (blocks : List Block) → Ensures IsValid (store_from_pkcs12_blocks lib x blocks)
  unfolding store_from_pkcs12_blocks
  store_from_pkcs12_blocks-IsValid blocks =
      Ensures-bind (import_bags-IsGood 0 blocks _ (empty_store-IsValid _ _, tt)) λ st (v, l).
        Ensures-bind (add_key_entries-IsValid st.keys st.store l v)
          λ s w. Ensures-bind (add_entries-IsValid st s w) λ s' w'. finish_pkcs12-IsValid s' w'
