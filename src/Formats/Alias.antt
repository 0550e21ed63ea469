-- ===== src/Formats/Alias.antt =====
-- open_pkcs12.go: uniqueEntryAlias and looksLikeShangMiPKCS12.
use certkit.Prelude.{ℕ, zero, suc, ◌+◌, ◌*◌, ◌/◌, ◌%◌, List, [], ◌∷◌, ◌++◌, Bool, true, false}
use certkit.Prelude.{◌||◌, ◌&&◌, ◌==◌, ltb, if◌then◌else◌, length}
use certkit.Text.{Text, decimal}
use certkit.Result.{ok, stuck}
use certkit.Store.Library.{Library}
use certkit.Store.Types.{R, Store}
use certkit.Store.Keyed.{is_some}
use certkit.Store.Operations.{entry_by_alias}
use certkit.Pkcs12.Types.{Oid}

-- `fmt.Sprintf("%s-%d", alias, index)`
unfoldable pub numbered_alias : Text → ℕ → Text
unfolding decimal
numbered_alias alias index = alias ++ 45 ∷ decimal index

module _ (lib : Library) where
  unfoldable pub is_taken : Store → Text → Bool
  unfolding entry_by_alias
  is_taken s alias = is_some (entry_by_alias lib s alias)

  -- The loop, which has no bound in the code.
  unfoldable pub first_free_alias : ℕ → Store → Text → ℕ → R Text
  unfolding is_taken numbered_alias
  first_free_alias zero s alias index = stuck
  first_free_alias (suc fuel) s alias index = elim (is_taken s (numbered_alias alias index)) [
    | false ↦ ok (numbered_alias alias index)
    | true ↦ first_free_alias fuel s alias (index + 1)
  ]

  -- One round more than the store has entries.
  unfoldable pub unique_entry_alias : Store → Text → R Text
  unfolding is_taken first_free_alias
  unique_entry_alias s alias =
      if is_taken s alias then first_free_alias (suc (length s.entries)) s alias 2 else ok alias

-- The bytes of a component in base 128, the last one without the high bit.
unfoldable pub base_128 : ℕ → ℕ → List ℕ
base_128 zero n = []
base_128 (suc fuel) n =
    let above = base_128 fuel (n / 128) ++ (128 + n % 128) ∷ [] in
    if ltb n 128 then (n + 128) ∷ [] else above

unfoldable pub component : ℕ → List ℕ
unfolding base_128
component n = if ltb n 128 then n ∷ [] else base_128 n (n / 128) ++ (n % 128) ∷ []

unfoldable pub components : List ℕ → List ℕ
unfolding component
components [] = []
components (n ∷ ns) = component n ++ components ns

-- asn1.Marshal of an object identifier, as far as the code uses it: a short one.
unfoldable pub marshal_oid : Oid → List ℕ
unfolding components
marshal_oid (a ∷ b ∷ rest) = let body = components ((a * 40 + b) ∷ rest) in 6 ∷ length body ∷ body
marshal_oid _ = []

unfoldable pub has_prefix : List ℕ → List ℕ → Bool
has_prefix data_ [] = true
has_prefix [] (b ∷ bs) = false
has_prefix (a ∷ as') (b ∷ bs) = a == b && has_prefix as' bs

-- `bytes.Contains`
unfoldable pub contains : List ℕ → List ℕ → Bool
unfolding has_prefix
contains [] part = has_prefix [] part
contains (a ∷ rest) part = has_prefix (a ∷ rest) part || contains rest part

abbrev pub shang_mi_oids : List Oid
shang_mi_oids =
    (1 ∷ 2 ∷ 156 ∷ 10197 ∷ 1 ∷ 104 ∷ 2 ∷ [])
    ∷ (1 ∷ 2 ∷ 156 ∷ 10197 ∷ 1 ∷ 401 ∷ [])
    ∷ (1 ∷ 2 ∷ 156 ∷ 10197 ∷ 1 ∷ 401 ∷ 2 ∷ [])
    ∷ (1 ∷ 2 ∷ 156 ∷ 10197 ∷ 1 ∷ 301 ∷ [])
    ∷ (1 ∷ 2 ∷ 156 ∷ 10197 ∷ 1 ∷ 501 ∷ [])
    ∷ []

unfoldable pub has_any_oid : List ℕ → List Oid → Bool
unfolding marshal_oid contains
has_any_oid data_ [] = false
has_any_oid data_ (oid ∷ oids) = contains data_ (marshal_oid oid) || has_any_oid data_ oids

unfoldable pub looks_like_shang_mi_pkcs12 : List ℕ → Bool
unfolding has_any_oid
looks_like_shang_mi_pkcs12 data_ = has_any_oid data_ shang_mi_oids
