-- ===== src/Passwords/Tests.antt =====
-- password.go at concrete inputs.
use certkit.Prelude.{◌≡◌, refl, [], ◌∷◌, some, true}
use certkit.Passwords.{
  NoRepeats, has_password, append_unique_password, append_unique_password-NoRepeats,
}
use certkit.Passwords.{password_by_alias}

-- An exact alias comes before one that only folds to the same.
exact_first :
    password_by_alias (λ r. 0) ((1 ∷ [], 10 ∷ []) ∷ (2 ∷ [], 20 ∷ []) ∷ []) (2 ∷ [])
    ≡ some (20 ∷ [])
unfolding password_by_alias
exact_first = refl

append_unique_password-NoRepeats_example :
    NoRepeats (append_unique_password ((1 ∷ []) ∷ []) (some (2 ∷ [])))
    × (has_password (2 ∷ []) (append_unique_password ((1 ∷ []) ∷ []) (some (2 ∷ []))) ≡ true)
unfolding has_password
append_unique_password-NoRepeats_example =
    append_unique_password-NoRepeats ((1 ∷ []) ∷ []) (2 ∷ []) (refl, tt)
