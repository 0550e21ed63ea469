-- ===== src/Store/Sessions.antt =====
-- The operations of a store allowed a type, and what holds of the stores that a sequence of them
-- reaches: `run` calls the method, Store.Add on the store that Open returned, and an operation that returns an error leaves the store alone.
use certkit.Prelude.{◌≡◌, refl, List, [], ◌∷◌, Option, none, some}
use certkit.Prelude.{All}
use certkit.Text.{Text}
use certkit.Result.{ok, err, ◌>>=◌, Ensures, returns, refuses}
use certkit.Store.Library.{Library, X509Certificate, Signer}
use certkit.Store.Types.{R, Entry, Store}
use certkit.Store.Operations.{new_store, add_key_pair, add_trusted_certificate, remove_entry}
use certkit.Store.Operations.{remove_certificate, remove_private_key}
use certkit.Store.Additions.{LongHashes, LongKey, add_certificate-IsValid, add_private_key-IsValid}
use certkit.Store.Additions.{add_key_pair-IsValid, add_trusted_certificate-IsValid}
use certkit.Store.Given.{
  GivenEntry, given, add_given_entry, add_given_entry-none, add_given_entry-IsValid,
}
use certkit.Store.Merge.{add-IsValid}
use certkit.Store.Reconcile.{add}
use certkit.Result.{Ensures-bind}
use certkit.Store.Removals.{
  remove_certificate-IsValid, remove_private_key-IsValid, remove_entry-IsValid,
}
use certkit.Store.Valid.{IsValid, valid}
use certkit.Store.Reconcile.{add_certificate, add_private_key}

pub data Operation : Type 0 where
  adds_certificate : Option X509Certificate → Operation
  adds_private_key : Option Signer → Operation
  adds_key_pair : Text → Option Signer → List (Option X509Certificate) → Operation
  adds_trusted_certificate : Text → Option X509Certificate → Operation
  adds_entry : Option GivenEntry → Operation
  adds_store : Store → Operation
  removes_certificate : Text → Operation
  removes_private_key : Text → Operation
  removes_entry : Text → Operation

module _ (lib : Library) where
  unfoldable pub run : Operation → Store → R Store
  unfolding add_certificate add_private_key add_key_pair add_trusted_certificate add_given_entry add
      remove_certificate remove_private_key remove_entry
  run (adds_certificate cert) s = add_certificate lib cert s
  run (adds_private_key key) s = add_private_key lib key s
  run (adds_key_pair alias key certs) s = add_key_pair lib alias key certs s
  run (adds_trusted_certificate alias cert) s = add_trusted_certificate lib alias cert s
  run (adds_entry e) s = add_given_entry lib e s
  run (adds_store other) s = add lib s other >>= (λ r. ok r.1)
  run (removes_certificate id) s = remove_certificate id s
  run (removes_private_key id) s = remove_private_key id s
  run (removes_entry alias) s = remove_entry lib alias s

  unfoldable pub settle : Store → R Store → R Store
  settle s (err e) = ok s
  settle s r = r

  unfoldable pub run_all : List Operation → Store → R Store
  unfolding run settle
  run_all [] s = ok s
  run_all (o ∷ os) s = settle s (run o s) >>= (λ s'. run_all os s')

abbrev pub Admissible : Operation → Type 0
Admissible (adds_entry (some g)) = (e : Entry) × (g ≡ given e) × LongKey e.private_key
Admissible (adds_store other) = IsValid other
Admissible _ = Unit

module _ (lib : Library) (hashes : LongHashes lib) where
  pub run-IsValid :
      (o : Operation) (s : Store) → Admissible o → IsValid s → Ensures IsValid (run lib o s)
  unfolding run
  run-IsValid (adds_certificate cert) s a v = add_certificate-IsValid lib hashes cert s v
  run-IsValid (adds_private_key key) s a v = add_private_key-IsValid lib hashes key s v
  run-IsValid (adds_key_pair alias key certs) s a v =
      add_key_pair-IsValid lib hashes alias key certs s v
  run-IsValid (adds_trusted_certificate alias cert) s a v =
      add_trusted_certificate-IsValid lib hashes alias cert s v
  run-IsValid (adds_entry none) s a v = add_given_entry-none lib hashes s
  run-IsValid (adds_entry (some g)) s (e, same, long) v =
      rw same (add_given_entry-IsValid lib hashes e s long v)
  run-IsValid (adds_store other) s a v = Ensures-bind (add-IsValid lib s other v a) λ r w. returns w
  run-IsValid (removes_certificate id) s a v = remove_certificate-IsValid id s v
  run-IsValid (removes_private_key id) s a v = remove_private_key-IsValid id s v
  run-IsValid (removes_entry alias) s a v = remove_entry-IsValid lib alias s v

  settle-IsValid :
      (s : Store) (r : R Store)
      → IsValid s
      → Ensures IsValid r
      → (s' : Store) × (settle lib s r ≡ ok s') × IsValid s'
  unfolding settle
  settle-IsValid s _ v (returns {a} w) = (a, refl, w)
  settle-IsValid s _ v (refuses {e}) = (s, refl, v)

  -- Every sequence of additions, merges and removals on a valid store returns, and the store that it
  -- reaches is valid: no operation panics. The hash has six bytes or more; an entry that AddEntry is
  -- given has no nil in it, and its private key an identifier of twelve; a store that is merged is
  -- valid.
  pub run_all-IsValid :
      (os : List Operation) (s : Store)
      → All Admissible os
      → IsValid s
      → (s' : Store) × (run_all lib os s ≡ ok s') × IsValid s'
  unfolding run_all
  run_all-IsValid [] s a v = (s, refl, v)
  run_all-IsValid (o ∷ os) s (a, allowed) v =
      let (s₁, e, w) = settle-IsValid s (run lib o s) v (run-IsValid o s a v) in
      rw e (run_all-IsValid os s₁ allowed w)

pub new_store-IsValid : IsValid new_store
new_store-IsValid = valid tt tt tt tt
