-- ===== src/Formats/TrustSound.antt =====
-- open_pkcs12.go: the entries for the certificates of a trust store.
use certkit.Prelude.{◌≡◌, ℕ, ◌+◌, List, [], ◌∷◌, none, false}
use certkit.Prelude.{All, Bool-cases, Option-cases, inl, inr, arith}
use certkit.Text.{text_eq, text_eq_sym}
use certkit.Result.{Ensures, returns, refuses, Ensures-bind}
use certkit.Store.Library.{Library, X509Certificate}
use certkit.Store.Types.{Certificate, Store}
use certkit.Store.Keyed.{find_by, IsDistinct, find_by-snoc, find_by-none-snoc, insert_by}
use certkit.Store.Operations.{certificate_id, insert_certificate}
use certkit.Store.Linked.{Linked}
use certkit.Store.Valid.{IsValid, append-IsValid, insert_certificate-IsValid}
use certkit.Formats.Library.{FormatLibrary, IsParsing, HasRaw, raw_id, parsed}
use certkit.Formats.Keys.{place_certificate}
use certkit.Formats.Basics.{new_certificate-returns, certificate_item}
use certkit.Formats.Pkcs12.{pkcs12_source, add_trust_item, add_trust_store, add_raw_trust_store}

module _ (lib : Library) where
  -- The store has no certificate with this one's ID.
  abbrev pub IsNew : Store → X509Certificate → Type 0
  IsNew s c = find_by certificate_id (raw_id lib c) s.certificates ≡ none

  abbrev Apart : X509Certificate → X509Certificate → Type 0
  Apart c d = text_eq (raw_id lib c) (raw_id lib d) ≡ false

  All-Apart :
      (c : X509Certificate) (ds : List X509Certificate)
      → find_by (raw_id lib) (raw_id lib c) ds ≡ none
      → All (Apart c) ds
  unfolding find_by
  All-Apart c [] e = tt
  All-Apart c (d ∷ ds) e = elim (Bool-cases (text_eq (raw_id lib d) (raw_id lib c))) [
    | inl b ↦ ground (arith, b)
    | inr b ↦ (text_eq_sym (raw_id lib d) (raw_id lib c) b, All-Apart c ds (ground (arith, b)))
  ]

  -- The certificate as the loop adds it.
  abbrev pub trust_item : ℕ → X509Certificate → Certificate
  trust_item i c = place_certificate (pkcs12_source [] i) (certificate_item lib c)

  still-IsNew :
      (i : ℕ) (c d : X509Certificate) (s : Store)
      → IsNew s c
      → IsNew s d
      → Apart c d
      → IsNew (insert_certificate (trust_item i c) s) d
  unfolding insert_certificate insert_by
  still-IsNew i c d s n m a =
      rw n (find_by-none-snoc certificate_id (raw_id lib d) s.certificates (trust_item i c) m a)

  new_item-Linked :
      (i : ℕ) (c : X509Certificate) (s : Store)
      → IsNew s c
      → Linked (insert_certificate (trust_item i c) s).certificates (trust_item i c)
  unfolding insert_certificate insert_by
  new_item-Linked i c s n = rw n (find_by-snoc certificate_id s.certificates (trust_item i c) n)

module _ (lib : Library) (x : FormatLibrary) where
  -- A round with a new certificate: the store is valid, and other new ones are new after it.
  abbrev Follows : Store → X509Certificate → Store → Type 0
  Follows s c s' =
      IsValid s' × ((d : X509Certificate) → IsNew lib s d → Apart lib c d → IsNew lib s' d)

  add_trust_item-Follows :
      (i : ℕ) (c : X509Certificate) (s : Store)
      → HasRaw c
      → IsNew lib s c
      → IsValid s
      → Ensures (Follows s c) (add_trust_item lib x i c s)
  unfolding add_trust_item
  add_trust_item-Follows i c s h n v =
      let s₁ = insert_certificate (trust_item lib i c) s in
      rw (new_certificate-returns lib c h) (
        returns (
          append-IsValid s₁ _ (insert_certificate-IsValid (trust_item lib i c) s v)
              ((new_item-Linked lib i c s n, tt), tt),
          λ d m a. still-IsNew lib i c d s n m a,
        ))

  -- The rest of a distinct list is new after the round.
  rest-IsNew :
      (s s' : Store) (c : X509Certificate) (cs : List X509Certificate)
      → ((d : X509Certificate) → IsNew lib s d → Apart lib c d → IsNew lib s' d)
      → All (Apart lib c) cs
      → All (IsNew lib s) cs
      → All (IsNew lib s') cs
  rest-IsNew s s' c [] k a n = tt
  rest-IsNew s s' c (d ∷ ds) k (a, as') (n, ns) = (k d n a, rest-IsNew s s' c ds k as' ns)

  pub add_trust_store-IsValid :
      (i : ℕ) (cs : List X509Certificate) (s : Store)
      → All HasRaw cs
      → IsDistinct (raw_id lib) cs
      → All (IsNew lib s) cs
      → IsValid s
      → Ensures IsValid (add_trust_store lib x i cs s)
  unfolding add_trust_store
  add_trust_store-IsValid i [] s h d n v = returns v
  add_trust_store-IsValid i (c ∷ cs) s (h, hs) (d, ds) (n, ns) v =
      Ensures-bind (add_trust_item-Follows i c s h n v) λ s' (w, k).
        add_trust_store-IsValid (i + 1) cs s' hs ds
          (rest-IsNew s s' c cs k (All-Apart lib c cs d) ns) w

  pub add_raw_trust_store-IsValid :
      IsParsing lib x
      → (i : ℕ) (raws : List (List ℕ)) (s : Store) → IsDistinct (raw_id lib) (parsed x raws)
      → All (IsNew lib s) (parsed x raws)
      → IsValid s
      → Ensures IsValid (add_raw_trust_store lib x i raws s)
  unfolding add_raw_trust_store parsed
  add_raw_trust_store-IsValid laws i [] s d n v = returns v
  add_raw_trust_store-IsValid laws i (raw ∷ raws) s d n v =
      elim (Option-cases (x.parse_certificate raw)) [
        | inl e ↦ rw (e, add_raw_trust_store) refuses
        | inr (c, e) ↦
            let d' : IsDistinct (raw_id lib) (c ∷ parsed x raws) = rw e at d in
            let n' : All (IsNew lib s) (c ∷ parsed x raws) = rw e at n in
            rw (e, add_raw_trust_store)
              (Ensures-bind (add_trust_item-Follows i c s (laws.certificate_raw raw c e) n'.0 v)
                λ s' (w, k).
                  add_raw_trust_store-IsValid laws (i + 1) raws s' d'.1
                    (rest-IsNew s s' c (parsed x raws) k (All-Apart lib c (parsed x raws) d'.0)
                      n'.1)
                    w)
      ]
