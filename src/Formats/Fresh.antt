-- ===== src/Formats/Fresh.antt =====
-- uniqueEntryAlias ends: of one candidate more than the store has entries, one is free. The
-- candidates differ also where letters are folded, since digits fold to themselves.
use certkit.Prelude.{
  ◌≡◌, refl, sym, ap, ◌∙◌, ℕ, zero, suc, ◌+◌, ◌-◌, ◌*◌, ◌/◌, ◌%◌, ◌≤◌, ◌<◌, List, [], ◌∷◌, ◌++◌,
  map,
}
use certkit.Prelude.{Bool, true, false, ltb, length, All, All-append, All-map, Bool-cases}
use certkit.Prelude.{inl, inr, ◌⊎◌, arith, if◌then◌else◌}
use certkit.Text.{Text, equal_fold, equal_fold_iff, digits, decimal}
use certkit.Result.{ok}
use certkit.Store.Library.{Library}
use certkit.Store.Types.{Entry, Store}
use certkit.Store.Keyed.{is_some}
use certkit.Store.Operations.{find_entry, entry_by_alias}
use certkit.Formats.Alias.{numbered_alias, is_taken, first_free_alias, unique_entry_alias}

-- Digits fold to themselves.
abbrev pub FoldsDigits : Library → Type 0
FoldsDigits lib = (d : ℕ) → 48 ≤ d → d < 58 → lib.fold d ≡ d

-- The value of digits.
value : ℕ → List ℕ → ℕ
value acc [] = acc
value acc (d ∷ ds) = value (acc * 10 + (d - 48)) ds

value-snoc : (acc d : ℕ) (ds : List ℕ) → value acc (ds ++ d ∷ []) ≡ value acc ds * 10 + (d - 48)
unfolding value
value-snoc acc d [] = refl
value-snoc acc d (x ∷ ds) = value-snoc (acc * 10 + (x - 48)) d ds

value-digits : (fuel n : ℕ) → n < fuel → value 0 (digits fuel n) ≡ n
unfolding digits value
value-digits zero n h = elim h [ ]
value-digits (suc fuel) n h = elim (Bool-cases (ltb n 10)) [
  | inl b ↦ rw b (omega arith)
  | inr b ↦
      let ih = value-digits fuel (n / 10) (ground arith) in
      rw (b, value-snoc 0 (48 + n % 10) (digits fuel (n / 10)), ih) (omega arith)
]

decimal-injective : (m n : ℕ) → decimal m ≡ decimal n → m ≡ n
unfolding decimal
decimal-injective m n e =
    sym (value-digits (suc m) m (omega arith))
    ∙ ap (value 0) e
    ∙ value-digits (suc n) n (omega arith)

IsDigit : ℕ → Type 0
IsDigit d = (48 ≤ d) × (d < 58)

digits-IsDigit : (fuel n : ℕ) → All IsDigit (digits fuel n)
unfolding digits IsDigit
digits-IsDigit zero n = tt
digits-IsDigit (suc fuel) n = elim (Bool-cases (ltb n 10)) [
  | inl b ↦ rw b ((omega arith, ground arith), tt)
  | inr b ↦ rw b (
      All-append IsDigit (digits fuel (n / 10)) ((48 + n % 10) ∷ []) (digits-IsDigit fuel (n / 10))
        ((omega arith, omega arith), tt))
]

map-append-cancel : (f : ℕ → ℕ) (s t u : Text) → map f (s ++ t) ≡ map f (s ++ u) → map f t ≡ map f u
map-append-cancel f [] t u e = e
map-append-cancel f (a ∷ s) t u e = map-append-cancel f s t u (cc e)

map_fixes : (f : ℕ → ℕ) (s : Text) → All (λ a. f a ≡ a) s → map f s ≡ s
map_fixes f [] h = refl
map_fixes f (a ∷ s) (h, hs) = cc (h, map_fixes f s hs)

-- How many of the `m` numbers from `i` on pass the test.
count : (ℕ → Bool) → ℕ → ℕ → ℕ
count p i zero = 0
count p i (suc m) = (if p i then 1 else 0) + count p (i + 1) m

count-none : (p : ℕ → Bool) (i m : ℕ) → ((k : ℕ) → i ≤ k → p k ≡ false) → count p i m ≡ 0
unfolding count
count-none p i zero h = refl
count-none p i (suc m) h =
    rw (h i (omega arith)) (omega (arith, count-none p (i + 1) m (λ k l. h k (omega arith))))

IsSingle : (ℕ → Bool) → Type 0
IsSingle p = (a b : ℕ) → p a ≡ true → p b ≡ true → a ≡ b

above_single : (p : ℕ → Bool) (i : ℕ) → IsSingle p → p i ≡ true → (k : ℕ) → i + 1 ≤ k → p k ≡ false
unfolding IsSingle
above_single p i s e k l = elim (Bool-cases (p k)) [
  | inl b ↦ absurd (omega (arith, s i k e b))
  | inr b ↦ b
]

count-single : (p : ℕ → Bool) (i m : ℕ) → IsSingle p → count p i m ≤ 1
unfolding count
count-single p i zero s = omega arith
count-single p i (suc m) s = elim (Bool-cases (p i)) [
  | inl b ↦ rw b (omega (arith, count-none p (i + 1) m (above_single p i s b)))
  | inr b ↦ rw b (omega (arith, count-single p (i + 1) m s))
]

count-or :
    (p q r : ℕ → Bool) (i m : ℕ)
    → ((k : ℕ) → p k ≡ (if q k then true else r k))
    → count p i m ≤ count q i m + count r i m
unfolding count
count-or p q r i zero h = omega arith
count-or p q r i (suc m) h = ground (arith, count-or p q r (i + 1) m h, h i)

module _ (lib : Library) (digits_fold : FoldsDigits lib) where
  decimal_folds : (n : ℕ) → map lib.fold (decimal n) ≡ decimal n
  unfolding decimal IsDigit
  decimal_folds n =
      map_fixes lib.fold (decimal n)
        (All-map (digits (suc n) n) (λ d h. digits_fold d h.0 h.1) (digits-IsDigit (suc n) n))

  -- Two numbers give candidates that differ, also where letters are folded.
  numbered-injective :
      (alias : Text) (a b : ℕ)
      → map lib.fold (numbered_alias alias a) ≡ map lib.fold (numbered_alias alias b)
      → a ≡ b
  unfolding numbered_alias
  numbered-injective alias a b e =
      let tails : map lib.fold (45 ∷ decimal a) ≡ map lib.fold (45 ∷ decimal b) =
        map-append-cancel lib.fold alias (45 ∷ decimal a) (45 ∷ decimal b) e in
      decimal-injective a b (cc (tails, decimal_folds a, decimal_folds b))

  has_alias : Entry → Text → ℕ → Bool
  has_alias e alias k = equal_fold lib.fold e.alias (numbered_alias alias k)

  has_alias-IsSingle : (e : Entry) (alias : Text) → IsSingle (has_alias e alias)
  unfolding has_alias IsSingle
  has_alias-IsSingle e alias a b p q =
      let ea = (equal_fold_iff lib.fold e.alias (numbered_alias alias a)).0 p in
      let eb = (equal_fold_iff lib.fold e.alias (numbered_alias alias b)).0 q in
      numbered-injective alias a b (sym ea ∙ eb)

  takes : List Entry → Text → ℕ → Bool
  takes es alias k = is_some (find_entry lib (numbered_alias alias k) es)

  takes-cons :
      (e : Entry) (es : List Entry) (alias : Text) (k : ℕ)
      → takes (e ∷ es) alias k ≡ (if has_alias e alias k then true else takes es alias k)
  unfolding takes has_alias find_entry
  takes-cons e es alias k =
      elim (Bool-cases (equal_fold lib.fold e.alias (numbered_alias alias k))) [
        | inl b ↦ rw b refl
        | inr b ↦ rw b refl
      ]

  -- The entries take as many candidates as they are, at most.
  count-takes : (es : List Entry) (alias : Text) (i m : ℕ) → count (takes es alias) i m ≤ length es
  unfolding takes find_entry
  count-takes [] alias i m = omega (arith, count-none (takes [] alias) i m (λ k l. refl))
  count-takes (e ∷ es) alias i m = omega (
    arith,
    count-or (takes (e ∷ es) alias) (has_alias e alias) (takes es alias) i m
        (takes-cons e es alias),
    count-single (has_alias e alias) i m (has_alias-IsSingle e alias),
    count-takes es alias i m,
  )

  first_free_alias_lem :
      (fuel : ℕ) (s : Store) (alias : Text) (i : ℕ)
      → count (takes s.entries alias) i fuel < fuel
      → (k : ℕ) × (first_free_alias lib fuel s alias i ≡ ok (numbered_alias alias k))
        × (is_taken lib s (numbered_alias alias k) ≡ false)
  unfolding first_free_alias count takes is_taken entry_by_alias
  first_free_alias_lem zero s alias i h = elim h [ ]
  first_free_alias_lem (suc fuel) s alias i h =
      elim (Bool-cases (is_taken lib s (numbered_alias alias i))) [
        | inl b ↦
            let (k, e, f) = first_free_alias_lem fuel s alias (i + 1) (ground arith) in
            (k, ground (arith, e), f)
        | inr b ↦ (i, ground arith, b)
      ]

  -- The search for an alias ends, within one round more than the store has entries, if digits fold
  -- to themselves. No entry has the alias that it returns, which is the wanted one or a numbered one.
  pub unique_entry_alias_lem :
      (s : Store) (alias : Text)
      → (a : Text) × (unique_entry_alias lib s alias ≡ ok a)
        × (is_taken lib s a ≡ false)
        × ((a ≡ alias) ⊎ ((k : ℕ) × (a ≡ numbered_alias alias k)))
  unfolding unique_entry_alias
  unique_entry_alias_lem s alias = elim (Bool-cases (is_taken lib s alias)) [
    | inl b ↦
        let (k, e, f) =
          first_free_alias_lem (suc (length s.entries)) s alias 2
            (omega (arith, count-takes s.entries alias 2 (suc (length s.entries)))) in
        (numbered_alias alias k, rw b e, f, inr (k, refl))
    | inr b ↦ (alias, rw b refl, b, inl refl)
  ]
