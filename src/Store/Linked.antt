-- ===== src/Store/Linked.antt =====
-- What ties the entries of a store to its objects: the certificates of a chain and the private key
-- of an entry are those that the store's lists have under their identifiers.
use certkit.Prelude.{◌≡◌, refl, subst, ℕ, zero, suc, List, [], ◌∷◌, Option, none, some}
use certkit.Prelude.{length, All, All-map, Bool-cases, Option-cases, inl, inr, arith}
use certkit.Text.{Text}
use certkit.Result.{ok}
use certkit.Store.Library.{Library, PublicKey, Signer}
use certkit.Store.Types.{Certificate, PrivateKey, Entry, Store}
use certkit.Store.Keyed.{find_by, find_by-IsFound, IsFound, IsKnown, Extends}
use certkit.Store.Chain.{
  public_keys_equal, find_parent, is_parent, is_root, chain_above, build_certificate_chain,
}
use certkit.Store.Operations.{certificate_id, private_key_id, canonical_certificates, canonical_key}
use certkit.Store.Operations.{certificate_by_id, private_key_by_id}
use certkit.Store.Reconcile.{chain_for, rebuild_chain}

abbrev pub Linked : List Certificate → Certificate → Type 0
Linked certs c = IsFound certificate_id certs c

abbrev pub KeyLinked : List PrivateKey → Option PrivateKey → Type 0
KeyLinked keys none = Unit
KeyLinked keys (some k) = IsFound private_key_id keys k

abbrev pub EntryLinked : List Certificate → List PrivateKey → Entry → Type 0
EntryLinked certs keys e = All (Linked certs) e.chain × KeyLinked keys e.private_key

KeyLinked-Extends :
    (keys keys' : List PrivateKey) (k : Option PrivateKey)
    → Extends private_key_id keys keys'
    → KeyLinked keys k
    → KeyLinked keys' k
KeyLinked-Extends keys keys' none x l = tt
KeyLinked-Extends keys keys' (some k) x l = x k.id k l

pub EntryLinked-Extends :
    (certs certs' : List Certificate) (keys keys' : List PrivateKey) (e : Entry)
    → Extends certificate_id certs certs'
    → Extends private_key_id keys keys'
    → EntryLinked certs keys e
    → EntryLinked certs' keys' e
EntryLinked-Extends certs certs' keys keys' e x y l =
    (All-map e.chain (λ c f. x c.id c f) l.0, KeyLinked-Extends keys keys' e.private_key y l.1)

-- A chain whose certificates the store knows has its canonical form, which is linked.
pub canonical_certificates-Linked :
    (s : Store) (items : List Certificate)
    → All (IsKnown certificate_id s.certificates) items
    → (chain : List Certificate) × (canonical_certificates s items ≡ ok chain)
      × All (Linked s.certificates) chain
unfolding canonical_certificates certificate_by_id
canonical_certificates-Linked s [] k = ([], refl, tt)
canonical_certificates-Linked s (item ∷ items) ((x, e), ks) =
    let (rest, r, l) = canonical_certificates-Linked s items ks in
    (x ∷ rest, ground (arith, e, r), (find_by-IsFound certificate_id item.id s.certificates x e, l))

found-KeyLinked :
    (id : Text) (keys : List PrivateKey) (o : Option PrivateKey)
    → find_by private_key_id id keys ≡ o
    → KeyLinked keys o
found-KeyLinked id keys none e = tt
found-KeyLinked id keys (some x) e = find_by-IsFound private_key_id id keys x e

pub private_key_by_id-KeyLinked :
    (s : Store) (id : Text) → KeyLinked s.private_keys (private_key_by_id s id)
unfolding private_key_by_id
private_key_by_id-KeyLinked s id =
    found-KeyLinked id s.private_keys (find_by private_key_id id s.private_keys) refl

pub canonical_key-Linked :
    (s : Store) (k : Option PrivateKey) → KeyLinked s.private_keys (canonical_key s k)
unfolding canonical_key
canonical_key-Linked s none = tt
canonical_key-Linked s (some k) = private_key_by_id-KeyLinked s k.id

module _ (lib : Library) (P : Certificate → Type 0) where
  find_parent-holds :
      (current : Certificate) (seen : List Text) (cs : List Certificate)
      → All P cs
      → (p : Certificate) → find_parent lib current seen cs ≡ some p
      → P p
  unfolding find_parent
  find_parent-holds current seen [] h p e = cc
  find_parent-holds current seen (c ∷ cs) (h, hs) p e =
      elim (Bool-cases (is_parent lib current seen c)) [
        | inl b ↦ subst P (ground arith) h
        | inr b ↦ find_parent-holds current seen cs hs p (ground arith)
      ]

  chain_above-holds :
      (fuel : ℕ) (current : Certificate) (seen : List Text) (certs : List Certificate)
      → All P certs
      → All P (chain_above lib fuel current seen certs)
  unfolding chain_above
  chain_above-holds zero current seen certs h = tt
  chain_above-holds (suc fuel) current seen certs h = elim (Bool-cases (is_root current.role)) [
    | inl r ↦ rw r tt
    | inr r ↦ elim (Option-cases (find_parent lib current seen certs)) [
      | inl n ↦ rw (r, n) tt
      | inr (p, e) ↦
          rw (r, e)
            (
              find_parent-holds current seen certs h p e,
              chain_above-holds fuel p (p.id ∷ seen) certs h,
            )
    ]
  ]

  pub build_certificate_chain-holds :
      (first : Certificate) (certs : List Certificate)
      → P first
      → All P certs
      → All P (build_certificate_chain lib first certs)
  unfolding build_certificate_chain
  build_certificate_chain-holds first certs f h =
      (f, chain_above-holds (length certs) first (first.id ∷ []) certs h)

  pub chain_for-holds :
      (public : PublicKey) (certs cs : List Certificate)
      → All P certs
      → All P cs
      → All P (chain_for lib public certs cs)
  unfolding chain_for
  chain_for-holds public certs [] h q = tt
  chain_for-holds public certs (c ∷ cs) h (q, qs) =
      elim (Bool-cases (public_keys_equal lib public c.certificate.public_key)) [
        | inl b ↦ rw b (build_certificate_chain-holds c certs q h)
        | inr b ↦ rw b (chain_for-holds public certs cs h qs)
      ]

  pub rebuild_chain-holds :
      (signer : Signer) (certs chain : List Certificate)
      → All P certs
      → All P chain
      → All P (rebuild_chain lib signer certs chain)
  unfolding rebuild_chain
  rebuild_chain-holds signer certs [] h q = chain_for-holds (lib.public signer) certs certs h h
  rebuild_chain-holds signer certs (c ∷ cs) h q = build_certificate_chain-holds c certs q.0 h
