-- ===== src/Revocation/Fetched.antt =====
-- crl.go and ocsp.go: what is taken from a response of HTTP.
use certkit.Prelude.{◌≡◌, refl, sym, ap, ◌∙◌, ℕ, zero, suc, ◌+◌, ◌≤◌, ◌<◌, List, [], ◌∷◌, some}
use certkit.Prelude.{◌||◌, not, ltb, leb, length, take, length-take}
use certkit.Prelude.{arith}
use certkit.Text.{Text}
use certkit.Result.{Ensures, returns, refuses, Ensures-bind, Ensures-guard}
use certkit.Store.Library.{Library}
use certkit.Store.Types.{Error}
use certkit.Authority.Total.{or_external-found}
use certkit.Revocation.Library.{RevocationLibrary}
use certkit.Revocation.Library.{Response}
use certkit.Revocation.Crl.{read_response}
use certkit.Revocation.Crl.{first_point}

take_all : (n : ℕ) (xs : List ℕ) → length xs ≤ n → take n xs ≡ xs
take_all zero [] h = refl
take_all zero (x ∷ xs) h = absurd (omega arith)
take_all (suc n) [] h = refl
take_all (suc n) (x ∷ xs) h = ap (λ l. x ∷ l) (take_all n xs (omega arith))

-- One octet more than the limit is read, so a body that fits is all of it.
short_body : (n : ℕ) (xs : List ℕ) → length (take (n + 1) xs) ≤ n → length xs ≤ n
short_body n xs h = omega (arith, length-take (n + 1) xs)

module _ (lib : Library) (x : RevocationLibrary) where
  -- The body was within the limit, and its status one of success.
  abbrev pub IsFetched : Response → ℕ → List ℕ → Type 0
  IsFetched response max_size data_ =
      (response.body ≡ some data_)
      × (length data_ ≤ max_size)
      × (200 ≤ response.status_code)
      × (response.status_code < 300)

  pub read_response-IsFetched :
      (response : Response) (max_size : ℕ)
      → Ensures (IsFetched response max_size) (read_response lib x response max_size)
  unfolding read_response
  read_response-IsFetched response max_size =
      Ensures-guard (not (ltb response.status_code 200 || leb 300 response.status_code))
        Error.external
        λ status. Ensures-bind (or_external-found response.body) λ body e.
          Ensures-guard (not (ltb max_size (length (take (max_size + 1) body)))) Error.invalid_data
            λ short.
              let fits : length body ≤ max_size =
                omega (arith, short_body max_size body (ground (arith, short))) in
              let whole = take_all (max_size + 1) body (omega (arith, fits)) in
              returns (
                e ∙ ap some (sym whole),
                rw whole fits,
                ground (arith, status),
                ground (arith, status),
              )

  pub first_point-IsFirst :
      (urls : List Text)
      → Ensures (λ url. (rest : List Text) × (urls ≡ url ∷ rest)) (first_point lib x urls)
  first_point-IsFirst [] = refuses
  first_point-IsFirst (url ∷ urls) = returns (urls, refl)
