-- ===== src/Passwords.antt =====
-- password.go. A password is a byte slice, `none` when it is nil; the map of key passwords is the
-- list of its pairs in the order in which `range` gives them.
use certkit.Prelude.{
  ◌≡◌, refl, ap, ℕ, List, [], ◌∷◌, ◌++◌, Option, none, some, Bool, true, false, if◌then◌else◌,
  arith,
}
use certkit.Prelude.{Bool-cases, Option-cases, inl, inr, ◌⊎◌, ◌↔◌, ◌||◌}
use certkit.Text.{Text, text_eq, equal_fold, text_eq→eq, text_eq_refl, text_eq_sym}
use certkit.Result.{Result, ok, err, ◌>>=◌}
use certkit.Store.Types.{Error, R, PasswordRequest, Answer, PasswordProvider}
mod Tests

unfoldable pub provided : Option (List ℕ) → R (List ℕ)
provided (some password) = ok password
provided none = err Error.password

unfoldable pub answered : Answer → R (List ℕ)
unfolding provided
answered Answer.refused = err Error.external
answered (Answer.given password) = provided password

unfoldable pub ask : Option PasswordProvider → PasswordRequest → R (List ℕ)
unfolding answered
ask none request = err Error.password
ask (some provider) request = answered (provider request)

unfoldable pub password_for :
    Option (List ℕ) → Option PasswordProvider → PasswordRequest → R (List ℕ)
unfolding ask
password_for (some password) provider request = ok password
password_for none provider request = ask provider request

unfoldable has_password : List ℕ → List (List ℕ) → Bool
unfolding text_eq
has_password password [] = false
has_password password (x ∷ xs) = text_eq x password || has_password password xs

unfoldable pub append_unique_password : List (List ℕ) → Option (List ℕ) → List (List ℕ)
unfolding has_password
append_unique_password passwords none = passwords
append_unique_password passwords (some password) =
    if has_password password passwords then passwords else passwords ++ password ∷ []

-- `passwords[alias]`
unfoldable lookup : List (Text × List ℕ) → Text → Option (List ℕ)
unfolding text_eq
lookup [] alias = none
lookup ((k, v) ∷ m) alias = if text_eq k alias then some v else lookup m alias

unfoldable lookup_fold : (ℕ → ℕ) → List (Text × List ℕ) → Text → Option (List ℕ)
unfolding equal_fold
lookup_fold fold [] alias = none
lookup_fold fold ((k, v) ∷ m) alias =
    if equal_fold fold k alias then some v else lookup_fold fold m alias

unfoldable or_else : Option (List ℕ) → Option (List ℕ) → Option (List ℕ)
or_else (some v) o = some v
or_else none o = o

unfoldable pub password_by_alias : (ℕ → ℕ) → List (Text × List ℕ) → Text → Option (List ℕ)
unfolding lookup lookup_fold or_else
password_by_alias fold m alias = or_else (lookup m alias) (lookup_fold fold m alias)

-- No password stands twice in the list.
abbrev NoRepeats : List (List ℕ) → Type 0
NoRepeats [] = Unit
NoRepeats (x ∷ xs) = (has_password x xs ≡ false) × NoRepeats xs

has_password-snoc :
    (q : List ℕ) (xs : List (List ℕ)) (p : List ℕ)
    → has_password q xs ≡ false
    → text_eq p q ≡ false
    → has_password q (xs ++ p ∷ []) ≡ false
unfolding has_password
has_password-snoc q [] p h n = ground arith
has_password-snoc q (x ∷ xs) p h n = ground (arith, has_password-snoc q xs p)

NoRepeats-snoc :
    (xs : List (List ℕ)) (p : List ℕ)
    → NoRepeats xs
    → has_password p xs ≡ false
    → NoRepeats (xs ++ p ∷ [])
unfolding has_password
NoRepeats-snoc [] p d h = (refl, tt)
NoRepeats-snoc (x ∷ xs) p (d, ds) h =
    let apart : text_eq x p ≡ false = ground arith in
    (has_password-snoc x xs p d (text_eq_sym x p apart), NoRepeats-snoc xs p ds (ground arith))

has_password-append : (p : List ℕ) (xs : List (List ℕ)) → has_password p (xs ++ p ∷ []) ≡ true
unfolding has_password
has_password-append p [] = ground (arith, text_eq_refl p)
has_password-append p (x ∷ xs) = ground (arith, has_password-append p xs)

-- Appending a password keeps the list free of repeats, and the list then has the password.
append_unique_password-NoRepeats :
    (xs : List (List ℕ)) (p : List ℕ)
    → NoRepeats xs
    → NoRepeats (append_unique_password xs (some p))
      × (has_password p (append_unique_password xs (some p)) ≡ true)
unfolding append_unique_password
append_unique_password-NoRepeats xs p d = elim (Bool-cases (has_password p xs)) [
  | inl b ↦ rw b (d, b)
  | inr b ↦ rw b (NoRepeats-snoc xs p d b, has_password-append p xs)
]
