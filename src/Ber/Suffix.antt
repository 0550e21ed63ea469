-- ===== src/Ber/Suffix.antt =====
-- Indexing and slicing (`byte`, `slice`), in terms of the bytes that stand from an offset on.
use certkit.Prelude.{ℕ, zero, suc, ◌+◌, ◌-◌, ◌≤◌, ◌<◌, ◌≡◌, refl, sym, ap, ◌∙◌, arith}
use certkit.Prelude.{List, [], ◌∷◌, ◌++◌, some, length, get_elem?, take, drop}
use certkit.Prelude.{length-append, length-drop}
use certkit.Result.{ok, Ensures, returns}
use certkit.Ber.Read.{byte, slice}

pub drop-get_elem? :
    (ber : List ℕ) (i : ℕ) (b : ℕ) → get_elem? ber i ≡ some b → drop i ber ≡ b ∷ drop (i + 1) ber
drop-get_elem? [] i b e = cc
drop-get_elem? (x ∷ xs) zero b e = ground arith
drop-get_elem? (x ∷ xs) (suc i) b e = ground (arith, drop-get_elem? xs i b e)

drop-nil : (n : ℕ) → drop {A = ℕ} n [] ≡ []
drop-nil zero = refl
drop-nil (suc n) = refl

pub drop-drop : (i j : ℕ) (xs : List ℕ) → drop j (drop i xs) ≡ drop (i + j) xs
drop-drop zero j xs = ground arith
drop-drop (suc i) j [] = drop-nil j ∙ sym (drop-nil (suc i + j))
drop-drop (suc i) j (x ∷ xs) =
    let s : suc i + j ≡ suc (i + j) = omega arith in rw s (drop-drop i j xs)

pub drop-append : (xs ys : List ℕ) → drop (length xs) (xs ++ ys) ≡ ys
drop-append [] ys = refl
drop-append (x ∷ xs) ys = drop-append xs ys

pub take-append : (xs ys : List ℕ) → take (length xs) (xs ++ ys) ≡ xs
take-append [] ys = refl
take-append (x ∷ xs) ys = ap (◌∷◌ x) (take-append xs ys)

module _ (ber : List ℕ) where
  -- The bytes from `o` on are `xs`.
  abbrev pub From : ℕ → List ℕ → Type 0
  From o xs = drop o ber ≡ xs

  pub From-length : (o x : ℕ) (xs : List ℕ) → From o (x ∷ xs) → o + 1 + length xs ≡ length ber
  From-length o x xs h = omega (arith, length-drop o ber, ap length h)

  pub From-next : (o x : ℕ) (xs : List ℕ) → From o (x ∷ xs) → From (o + 1) xs
  From-next o x xs h = sym (drop-drop o 1 ber) ∙ ap (drop 1) h

  pub From-append : (o : ℕ) (xs ys : List ℕ) → From o (xs ++ ys) → From (o + length xs) ys
  From-append o xs ys h =
      sym (drop-drop o (length xs) ber) ∙ ap (drop (length xs)) h ∙ drop-append xs ys

pub get_elem?-From :
    (ber : List ℕ) (o x : ℕ) (xs : List ℕ) → From ber o (x ∷ xs) → get_elem? ber o ≡ some x
get_elem?-From [] zero x xs h = cc
get_elem?-From [] (suc o) x xs h = cc
get_elem?-From (y ∷ ys) zero x xs h = cc
get_elem?-From (y ∷ ys) (suc o) x xs h = get_elem?-From ys o x xs h

pub byte-From : (ber : List ℕ) (o x : ℕ) (xs : List ℕ) → From ber o (x ∷ xs) → byte ber o ≡ ok x
unfolding byte
byte-From ber o x xs h = rw (get_elem?-From ber o x xs h, byte)

pub slice-From :
    (ber : List ℕ) (o e : ℕ) (xs ys : List ℕ)
    → o ≤ length ber
    → From ber o (xs ++ ys)
    → e ≡ o + length xs
    → slice ber o e ≡ ok xs
unfolding slice
slice-From ber o e xs ys h f same =
    let n : e - o ≡ length xs = omega arith in
    let fits : e ≤ length ber =
      omega (arith, length-drop o ber, ap length f, length-append xs ys) in
    let taken : take (e - o) (drop o ber) ≡ xs = rw (n, f) (take-append xs ys) in
    rw taken (ground arith)

get_elem?-lt : (ber : List ℕ) (i : ℕ) → i < length ber → (b : ℕ) × (get_elem? ber i ≡ some b)
get_elem?-lt [] i h = absurd (omega arith)
get_elem?-lt (x ∷ xs) zero h = (x, refl)
get_elem?-lt (x ∷ xs) (suc i) h = get_elem?-lt xs i (omega arith)

pub byte-Ensures :
    (ber : List ℕ) (i : ℕ)
    → i < length ber
    → Ensures (λ b. drop i ber ≡ b ∷ drop (i + 1) ber) (byte ber i)
unfolding byte
byte-Ensures ber i h =
    let (b, e) = get_elem?-lt ber i h in rw (e, byte) (returns (drop-get_elem? ber i b e))

pub slice-Ensures :
    (ber : List ℕ) (from to : ℕ)
    → from ≤ to
    → to ≤ length ber
    → Ensures (λ xs. xs ≡ take (to - from) (drop from ber)) (slice ber from to)
unfolding slice
slice-Ensures ber from to p q =
    let inside : slice ber from to ≡ ok (take (to - from) (drop from ber)) = ground arith in
    rw inside (returns refl)
