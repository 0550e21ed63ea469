-- ===== src/Store/Keyed.antt =====
-- The loops of model.go over a list of objects with an identifier: the search of certificateByID
-- and privateKeyByID, and the deletion of RemoveCertificate and RemovePrivateKey.
use certkit.Prelude.{
  ◌≡◌, ◌∙◌, ◌⊎◌, refl, sym, List, [], ◌∷◌, ◌++◌, Option, none, some, Bool, true, false, not,
}
use certkit.Prelude.{if◌then◌else◌, Bool-cases, inl, inr, Option-cases, All, All-map, arith}
use certkit.Text.{Text, text_eq, text_eq→eq, text_eq_refl, text_eq_sym}

unfoldable pub find_by : {A : Type 0} → (A → Text) → Text → List A → Option A
unfolding text_eq
find_by key id [] = none
find_by key id (x ∷ xs) = if text_eq (key x) id then some x else find_by key id xs

-- The list without the first object that has the identifier.
unfoldable pub delete_by : {A : Type 0} → (A → Text) → Text → List A → Option (List A)
unfolding text_eq
delete_by key id [] = none
delete_by key id (x ∷ xs) =
    if not (text_eq (key x) id)
    then elim (delete_by key id xs) [ none ↦ none | some rest ↦ some (x ∷ rest) ]
    else some xs

abbrev pub is_some {ℓ} : {A : Type ℓ} → Option A → Bool
is_some (some _) = true
is_some none = false

-- addCertificate and addPrivateKey, on the list, and their loops over a list of new objects.
unfoldable pub insert_by : {A : Type 0} → (A → Text) → A → List A → List A
unfolding find_by
insert_by key x xs = if is_some (find_by key (key x) xs) then xs else xs ++ x ∷ []

unfoldable pub insert_all : {A : Type 0} → (A → Text) → List A → List A → List A
unfolding insert_by
insert_all key [] xs = xs
insert_all key (y ∷ ys) xs = insert_all key ys (insert_by key y xs)

module _ {A : Type 0} (key : A → Text) where
  -- No two objects have the same identifier.
  abbrev pub IsDistinct : List A → Type 0
  IsDistinct [] = Unit
  IsDistinct (x ∷ xs) = (find_by key (key x) xs ≡ none) × IsDistinct xs

  -- The search finds this object itself.
  abbrev pub IsFound : List A → A → Type 0
  IsFound xs x = find_by key (key x) xs ≡ some x

  pub find_by-key : (id : Text) (xs : List A) (x : A) → find_by key id xs ≡ some x → key x ≡ id
  unfolding find_by
  find_by-key id [] x e = cc
  find_by-key id (y ∷ ys) x e = ground (arith, text_eq→eq (key y) id, find_by-key id ys x)

  pub find_by-append :
      (id : Text) (xs ys : List A) (x : A)
      → find_by key id xs ≡ some x
      → find_by key id (xs ++ ys) ≡ some x
  unfolding find_by
  find_by-append id [] ys x e = cc
  find_by-append id (y ∷ xs) ys x e = ground (arith, find_by-append id xs ys x)

  -- What is found under its identifier is found by its own.
  pub find_by-IsFound :
      (id : Text) (xs : List A) (x : A) → find_by key id xs ≡ some x → IsFound xs x
  find_by-IsFound id xs x e = rw (find_by-key id xs x e) e

  pub find_by-snoc :
      (xs : List A) (x : A) → find_by key (key x) xs ≡ none → IsFound (xs ++ x ∷ []) x
  unfolding find_by
  find_by-snoc [] x e = ground (arith, text_eq_refl (key x))
  find_by-snoc (y ∷ xs) x e = ground (arith, find_by-snoc xs x)

  pub find_by-none-snoc :
      (id : Text) (xs : List A) (x : A)
      → find_by key id xs ≡ none
      → text_eq (key x) id ≡ false
      → find_by key id (xs ++ x ∷ []) ≡ none
  unfolding find_by
  find_by-none-snoc id [] x e n = ground arith
  find_by-none-snoc id (y ∷ xs) x e n = ground (arith, find_by-none-snoc id xs x)

  pub IsDistinct-snoc :
      (xs : List A) (x : A)
      → IsDistinct xs
      → find_by key (key x) xs ≡ none
      → IsDistinct (xs ++ x ∷ [])
  unfolding find_by
  IsDistinct-snoc [] x d e = (refl, tt)
  IsDistinct-snoc (y ∷ xs) x d e =
      let n : text_eq (key y) (key x) ≡ false = ground arith in
      (
        find_by-none-snoc (key y) xs x d.0 (text_eq_sym (key y) (key x) n),
        IsDistinct-snoc xs x d.1 (ground arith),
      )

  IsFound-cons :
      (x y : A) (xs : List A) → find_by key (key x) xs ≡ none → IsFound xs y → IsFound (x ∷ xs) y
  unfolding find_by
  IsFound-cons x y xs n e = elim (Bool-cases (text_eq (key x) (key y))) [
    | inl h ↦ cc (text_eq→eq (key x) (key y) h)
    | inr h ↦ ground arith
  ]

  -- In a list of distinct objects each is found.
  pub IsDistinct→IsFound : (xs : List A) → IsDistinct xs → All (IsFound xs) xs
  unfolding find_by
  IsDistinct→IsFound [] d = tt
  IsDistinct→IsFound (x ∷ xs) d = (
    ground (arith, text_eq_refl (key x)),
    All-map xs (λ y e. IsFound-cons x y xs d.0 e) (IsDistinct→IsFound xs d.1),
  )

  -- What was found still is.
  abbrev pub Extends : List A → List A → Type 0
  Extends xs ys = (id : Text) (x : A) → find_by key id xs ≡ some x → find_by key id ys ≡ some x

  pub insert_by-Extends : (x : A) (xs : List A) → Extends xs (insert_by key x xs)
  unfolding insert_by
  insert_by-Extends x xs id y e = ground (arith, find_by-append id xs (x ∷ []) y e)

  pub insert_by-IsDistinct : (x : A) (xs : List A) → IsDistinct xs → IsDistinct (insert_by key x xs)
  unfolding insert_by
  insert_by-IsDistinct x xs d = elim (Option-cases (find_by key (key x) xs)) [
    | inl n ↦ rw n (IsDistinct-snoc xs x d n)
    | inr (y, e) ↦ rw e d
  ]

  -- After the insertion an object is found under the identifier.
  pub insert_by-finds :
      (x : A) (xs : List A) → (y : A) × (find_by key (key x) (insert_by key x xs) ≡ some y)
  unfolding insert_by
  insert_by-finds x xs = elim (Option-cases (find_by key (key x) xs)) [
    | inl n ↦ (x, rw n (find_by-snoc xs x n))
    | inr (y, e) ↦ (y, rw e e)
  ]

  pub insert_all-Extends : (ys xs : List A) → Extends xs (insert_all key ys xs)
  unfolding insert_all
  insert_all-Extends [] xs id x e = e
  insert_all-Extends (y ∷ ys) xs id x e =
      insert_all-Extends ys (insert_by key y xs) id x (insert_by-Extends y xs id x e)

  pub insert_all-IsDistinct : (ys xs : List A) → IsDistinct xs → IsDistinct (insert_all key ys xs)
  unfolding insert_all
  insert_all-IsDistinct [] xs d = d
  insert_all-IsDistinct (y ∷ ys) xs d =
      insert_all-IsDistinct ys (insert_by key y xs) (insert_by-IsDistinct y xs d)

  abbrev pub IsKnown : List A → A → Type 0
  IsKnown xs y = (x : A) × (find_by key (key y) xs ≡ some x)

  pub insert_all-IsKnown : (ys xs : List A) → All (IsKnown (insert_all key ys xs)) ys
  unfolding insert_all
  insert_all-IsKnown [] xs = tt
  insert_all-IsKnown (y ∷ ys) xs =
      let (x, e) = insert_by-finds y xs in
      (
        (x, insert_all-Extends ys (insert_by key y xs) (key y) x e),
        insert_all-IsKnown ys (insert_by key y xs),
      )

  delete_by-cons :
      (id : Text) (x : A) (xs ys : List A)
      → delete_by key id (x ∷ xs) ≡ some ys
      → ((text_eq (key x) id ≡ true) × (ys ≡ xs))
        ⊎ ((zs : List A) × (delete_by key id xs ≡ some zs)
            × (ys ≡ x ∷ zs)
            × (text_eq (key x) id ≡ false))
  unfolding delete_by
  delete_by-cons id x xs ys e = elim (Bool-cases (text_eq (key x) id)) [
    | inl h ↦ inl (h, ground arith)
    | inr h ↦ elim (Option-cases (delete_by key id xs)) [
      | inl n ↦ ground arith
      | inr (zs, m) ↦ inr (zs, m, ground arith, h)
    ]
  ]

  -- Another identifier is searched with the same result after the deletion.
  pub delete_by-other :
      (id id' : Text) (xs ys : List A)
      → delete_by key id xs ≡ some ys
      → text_eq id id' ≡ false
      → find_by key id' ys ≡ find_by key id' xs
  unfolding find_by delete_by
  delete_by-other id id' [] ys e n = cc
  delete_by-other id id' (x ∷ xs) ys e n = elim (delete_by-cons id x xs ys e) [
    | inl (h, p) ↦
        let apart : text_eq (key x) id' ≡ false = rw (text_eq→eq (key x) id h) n in
        rw p (ground (arith, apart))
    | inr (zs, m, p, h) ↦ rw p (ground (arith, delete_by-other id id' xs zs m n))
  ]

  pub delete_by-none :
      (id : Text) (xs : List A) → delete_by key id xs ≡ none → find_by key id xs ≡ none
  unfolding find_by delete_by
  delete_by-none id [] e = refl
  delete_by-none id (x ∷ xs) e = ground (arith, delete_by-none id xs)

  pub delete_by-absent :
      (id : Text) (xs ys : List A)
      → IsDistinct xs
      → delete_by key id xs ≡ some ys
      → find_by key id ys ≡ none
  unfolding find_by delete_by
  delete_by-absent id [] ys d e = cc
  delete_by-absent id (x ∷ xs) ys d e = elim (delete_by-cons id x xs ys e) [
    | inl (h, p) ↦ rw (p, sym (text_eq→eq (key x) id h)) d.0
    | inr (zs, m, p, h) ↦ rw p (ground (arith, delete_by-absent id xs zs d.1 m))
  ]

  pub delete_by-IsDistinct :
      (id : Text) (xs ys : List A) → IsDistinct xs → delete_by key id xs ≡ some ys → IsDistinct ys
  unfolding find_by delete_by
  delete_by-IsDistinct id [] ys d e = cc
  delete_by-IsDistinct id (x ∷ xs) ys d e = elim (delete_by-cons id x xs ys e) [
    | inl (h, p) ↦ rw p d.1
    | inr (zs, m, p, h) ↦ rw p (
      delete_by-other id (key x) xs zs m (text_eq_sym (key x) id h) ∙ d.0,
      delete_by-IsDistinct id xs zs d.1 m,
    )
  ]

  pub delete_by-All {κ} :
      (P : A → Type κ) (id : Text) (xs ys : List A)
      → delete_by key id xs ≡ some ys
      → All P xs
      → All P ys
  unfolding delete_by
  delete_by-All P id [] ys e h = cc
  delete_by-All P id (x ∷ xs) ys e (h, hs) = elim (delete_by-cons id x xs ys e) [
    | inl (b, p) ↦ rw p hs
    | inr (zs, m, p, b) ↦ rw p (h, delete_by-All P id xs zs m hs)
  ]
