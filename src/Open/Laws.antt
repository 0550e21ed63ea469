-- ===== src/Open/Laws.antt =====
-- open.go: what Open returns, when the openers return valid stores.
use certkit.Prelude.{
  ℕ, ◌≤◌, List, Option, none, some, All, ltb, leb, length, subst, leb→le, Bool-cases, inl, inr,
}
use certkit.Result.{ok, ◌>>=◌, ◌>>◌, Ensures, returns, refuses, Ensures-bind, Ensures-guard}
use certkit.Store.Library.{Library}
use certkit.Store.Types.{Error, R, Format, Store}
use certkit.Store.Reconcile.{OpenOptions, normalize_open_options, validate_store_limits}
use certkit.Store.Valid.{IsValid, reconcile_entries-IsValid}
use certkit.Store.Owners.{Owned, reconcile_entries-Owned, private_keys-reconcile_entries}
use certkit.Detect.Model.{Parsers, detect}
use certkit.Detect.Total.{detect-IsFound}
use certkit.Rc2.Schedule.{IsBytes}
use certkit.Open.{Opened, Openers, choose_format, open_format, finish, open_input}

-- A property of the store that was returned, if one was.
abbrev pub StoreHas : (Store → Type 0) → Option Store → Type 0
StoreHas P none = Unit
StoreHas P (some s) = P s

-- On bytes an opener does not panic, and its store is valid.
abbrev pub Opens : (List ℕ → OpenOptions → R Opened) → Type 0
Opens f =
    (data_ : List ℕ) (options : OpenOptions)
    → IsBytes data_
    → Ensures (λ r. StoreHas IsValid r.store) (f data_ options)

-- The same for one input.
abbrev pub OpensOn : (List ℕ → OpenOptions → R Opened) → List ℕ → Type 0
OpensOn f data_ =
    (options : OpenOptions) → Ensures (λ r. StoreHas IsValid r.store) (f data_ options)

-- The openers are right on what Open gives them for an input.
pub record IsSound (o : Openers) (data_ : List ℕ) : Type 0 where
  pub pem : OpensOn o.open_pem data_
  pub der : OpensOn o.open_der data_
  pub pkcs7 : OpensOn o.open_pkcs7 (o.unwrap_pem data_)
  pub pkcs12 : OpensOn o.open_pkcs12 (o.unwrap_pem data_)
  pub jks : OpensOn o.open_jks data_

-- Valid, within the limits, and every private key has an entry.
abbrev pub IsResult : OpenOptions → Store → Type 0
IsResult options s =
    IsValid s
    × (length s.certificates ≤ options.max_certificates)
    × (length s.private_keys ≤ options.max_private_keys)
    × All (Owned s.entries) s.private_keys

-- The outcome of Open: no store, or one that is as it should be.
abbrev pub HasResult : OpenOptions → Opened → Type 0
HasResult options r = StoreHas (IsResult options) r.store

module _ (lib : Library) (p : Parsers) (o : Openers) where
  limited :
      (options : OpenOptions) (s' : Store) (error : Option Error)
      → IsValid s'
      → All (Owned s'.entries) s'.private_keys
      → Ensures
          (HasResult options)
          (validate_store_limits s' options >> ok (record { store = some s'; error = error }))
  unfolding validate_store_limits
  limited options s' error v w =
      elim (Bool-cases (leb (length s'.certificates) options.max_certificates)) [
        | inl a ↦ elim (Bool-cases (leb (length s'.private_keys) options.max_private_keys)) [
          | inl b ↦
              rw (a, b)
                (returns (
                  v,
                  leb→le (length s'.certificates) options.max_certificates a,
                  leb→le (length s'.private_keys) options.max_private_keys b,
                  w,
                ))
          | inr b ↦ rw (a, b) refuses
        ]
        | inr a ↦ rw a refuses
      ]

  finish-HasResult :
      (options : OpenOptions) (store : Option Store) (error : Option Error)
      → StoreHas IsValid store
      → Ensures (HasResult options) (finish lib p o options store error)
  unfolding finish
  finish-HasResult options none error h = returns tt
  finish-HasResult options (some s) error h =
      let (s', e, v) = reconcile_entries-IsValid lib s h in
      let w =
        subst (All (Owned s'.entries)) (private_keys-reconcile_entries lib s s' e)
          (reconcile_entries-Owned lib s s' e) in
      rw e (limited options s' error v w)

  open_format_lem :
      (f : Format) (data_ : List ℕ) (options : OpenOptions)
      → IsSound o data_
      → Ensures (λ r. StoreHas IsValid r.store) (open_format lib p o f data_ options)
  unfolding open_format
  open_format_lem Format.pem data_ options s = s.pem options
  open_format_lem Format.der data_ options s = s.der options
  open_format_lem Format.pkcs7 data_ options s = s.pkcs7 options
  open_format_lem Format.pkcs12 data_ options s = s.pkcs12 options
  open_format_lem Format.jks data_ options s = s.jks options
  open_format_lem Format.jceks data_ options s = refuses
  open_format_lem Format.bks data_ options s = refuses
  open_format_lem Format.unset data_ options s = refuses
  open_format_lem Format.auto data_ options s = refuses
  open_format_lem Format.unknown data_ options s = refuses
  open_format_lem Format.other data_ options s = refuses

  detected :
      (data_ : List ℕ)
      → IsBytes (p.trim_space data_)
      → Ensures (λ f. Unit {0}) (detect p data_ >>= λ d. ok d.format)
  detected data_ b = Ensures-bind (detect-IsFound p data_ b) λ d u. returns tt

  choose_format-total :
      (f : Format) (data_ : List ℕ)
      → IsBytes (p.trim_space data_)
      → Ensures (λ f. Unit {0}) (choose_format lib p o data_ f)
  unfolding choose_format
  choose_format-total Format.unset data_ b = detected data_ b
  choose_format-total Format.auto data_ b = detected data_ b
  choose_format-total Format.pem data_ b = returns tt
  choose_format-total Format.der data_ b = returns tt
  choose_format-total Format.pkcs7 data_ b = returns tt
  choose_format-total Format.pkcs12 data_ b = returns tt
  choose_format-total Format.jks data_ b = returns tt
  choose_format-total Format.jceks data_ b = returns tt
  choose_format-total Format.bks data_ b = returns tt
  choose_format-total Format.unknown data_ b = returns tt
  choose_format-total Format.other data_ b = returns tt

  -- Open ends on every input of bytes, without a panic, when the openers do and return valid stores.
  -- The store that it returns is valid, keeps the limits, and has an entry for every private key.
  pub open_input-HasResult :
      (data_ : List ℕ) (requested : OpenOptions)
      → IsSound o data_
      → IsBytes (p.trim_space data_)
      → Ensures (HasResult (normalize_open_options requested)) (open_input lib p o data_ requested)
  unfolding open_input
  open_input-HasResult data_ requested s b =
      let options = normalize_open_options requested in
      Ensures-guard (ltb 0 (length data_)) Error.invalid_data λ g.
        Ensures-guard (leb (length data_) options.max_input_size) Error.invalid_data λ h.
          Ensures-bind (choose_format-total options.format data_ b) λ f u.
            Ensures-bind (open_format_lem f data_ options s)
              λ r v. finish-HasResult options r.store r.error v
