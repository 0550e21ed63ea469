-- ===== src/Formats/Inserted.antt =====
-- New objects put one after the other into a list with addCertificate or addPrivateKey.
use certkit.Prelude.{◌≡◌, refl, sym, ◌∙◌, ℕ, ◌+◌, List, [], ◌∷◌, ◌++◌, none}
use certkit.Prelude.{All, map, append-nil, append_assoc, Bool-cases, inl, inr, false, arith}
use certkit.Text.{Text, text_eq, text_eq_sym}
use certkit.Store.Keyed.{find_by, insert_by, IsDistinct, find_by-none-snoc}

module _ {A : Type 0} (key : A → Text) (f : ℕ → A → A) where
  -- The objects `f i x`, `f (i + 1) y` and so on, for `x`, `y` and so on in the list.
  unfoldable pub insert_run : ℕ → List A → List A → List A
  insert_run i [] acc = acc
  insert_run i (x ∷ xs) acc = insert_run (i + 1) xs (insert_by key (f i x) acc)

  unfoldable pub map_from : ℕ → List A → List A
  map_from i [] = []
  map_from i (x ∷ xs) = f i x ∷ map_from (i + 1) xs

  abbrev pub KeepsKey : A → Type 0
  KeepsKey x = (i : ℕ) → key (f i x) ≡ key x

  abbrev pub IsAbsent : List A → A → Type 0
  IsAbsent acc x = find_by key (key x) acc ≡ none

  apart :
      (x : A) (ys : List A)
      → find_by key (key x) ys ≡ none
      → All (λ y. text_eq (key x) (key y) ≡ false) ys
  unfolding find_by
  apart x [] e = tt
  apart x (y ∷ ys) e = elim (Bool-cases (text_eq (key y) (key x))) [
    | inl b ↦ ground (arith, b)
    | inr b ↦ (text_eq_sym (key y) (key x) b, apart x ys (ground (arith, b)))
  ]

  rest-IsAbsent :
      (z x : A) (acc ys : List A)
      → key z ≡ key x
      → All (λ y. text_eq (key x) (key y) ≡ false) ys
      → All (IsAbsent acc) ys
      → All (IsAbsent (acc ++ z ∷ [])) ys
  rest-IsAbsent z x acc [] e a n = tt
  rest-IsAbsent z x acc (y ∷ ys) e (a, as') (n, ns) =
      (find_by-none-snoc key (key y) acc z n (rw e a), rest-IsAbsent z x acc ys e as' ns)

  -- Distinct objects that the list does not have are appended in their order.
  pub insert_run-append :
      (i : ℕ) (xs acc : List A)
      → All KeepsKey xs
      → IsDistinct key xs
      → All (IsAbsent acc) xs
      → insert_run i xs acc ≡ acc ++ map_from i xs
  unfolding insert_run map_from insert_by
  insert_run-append i [] acc k d n = sym (append-nil acc)
  insert_run-append i (x ∷ xs) acc (k, ks) (d, ds) (n, ns) =
      rw (k i, n, insert_run)
        (insert_run-append (i + 1) xs (acc ++ f i x ∷ []) ks ds
            (rest-IsAbsent (f i x) x acc xs (k i) (apart x xs d) ns)
          ∙ append_assoc acc (f i x ∷ []) (map_from (i + 1) xs))

  pub map-map_from :
      {B : Type 0} (g : A → B) (i : ℕ) (xs : List A)
      → ((i : ℕ) (x : A) → g (f i x) ≡ g x)
      → map g (map_from i xs) ≡ map g xs
  unfolding map_from
  map-map_from g i [] h = refl
  map-map_from g i (x ∷ xs) h = cc (h i x, map-map_from g (i + 1) xs h)
