-- ===== src/Pkcs12/KdfSteps.antt =====
-- pbkdf.go: each step of the loop is that of RFC 7292.
use certkit.Prelude.{◌≡◌, refl, sym, ◌∙◌, ap, ℕ, zero, suc, ◌+◌, ◌-◌, ◌*◌, ◌/◌, ◌%◌, ◌≤◌, ◌<◌}
use certkit.Prelude.{
  List, [], ◌∷◌, ◌++◌, take, drop, length, length-append, append_assoc, append-nil,
}
use certkit.Prelude.{arith, map, ltb, Bool-cases, inl, inr}
use native.Mathlib.Omega.{div_any}
use native.Mathlib.Nat.{mod-lt}
use certkit.Pkcs12.Types.{HashFunc}
use certkit.Pkcs12.Kdf.{repeat, fill_with_repeats, output_length, extend, hash_times, add_blocks}
use certkit.Pkcs12.Kdf.{digest_of, next_input}
use certkit.Pkcs12.Numbers.{add_one_and_lem}
use certkit.Pkcs12.Rfc7292.{
  hash_power, copies, padded_to, blocks, joined, behind, increased, digest, modified,
}

hash_power-sum :
    (sum : List ℕ → List ℕ) (n : ℕ) (x : List ℕ)
    → hash_power sum n (sum x) ≡ sum (hash_power sum n x)
unfolding hash_power
hash_power-sum sum zero x = refl
hash_power-sum sum (suc n) x = ap sum (hash_power-sum sum n x)

hash_times-power :
    (sum : List ℕ → List ℕ) (n : ℕ) (x : List ℕ) → hash_times sum (suc n) x ≡ hash_power sum n x
unfolding hash_times hash_power
hash_times-power sum zero x = refl
hash_times-power sum (suc n) x = hash_times-power sum n (sum x) ∙ hash_power-sum sum n x

pub digest_of-digest : (h : HashFunc) (r : ℕ) (d i : List ℕ) → digest_of h r d i ≡ digest h r d i
unfolding digest_of digest hash_times hash_power
digest_of-digest h zero d i = refl
digest_of-digest h (suc n) d i =
    let one_less : n ≡ suc n - 1 = omega arith in
    hash_times-power h.sum n (d ++ i) ∙ ap (λ (k : ℕ). hash_power h.sum k (d ++ i)) one_less

take-enough : (n : ℕ) (xs ys : List ℕ) → n ≤ length xs → take n (xs ++ ys) ≡ take n xs
take-enough zero xs ys l = refl
take-enough (suc n) [] ys l = absurd (omega (arith, l))
take-enough (suc n) (x ∷ xs) ys l =
    ap (λ (t : List ℕ). x ∷ t) (take-enough n xs ys (omega (arith, l)))

-- After a common part, only what is left to take counts.
take-after :
    (n m : ℕ) (s xs ys : List ℕ)
    → n - length s ≡ m
    → take m xs ≡ take m ys
    → take n (s ++ xs) ≡ take n (s ++ ys)
take-after n m [] xs ys l e = let same : n ≡ m = omega (arith, l) in rw same e
take-after zero m (a ∷ s) xs ys l e = refl
take-after (suc n) m (a ∷ s) xs ys l e =
    ap (λ (t : List ℕ). a ∷ t) (take-after n m s xs ys (omega (arith, l)) e)

-- The loop that appends copies has the bytes of the copies.
extend-copies :
    (fuel v : ℕ) (ai b : List ℕ)
    → 0 < length ai
    → v ≤ fuel + length b
    → take v (extend fuel v ai b) ≡ take v (b ++ repeat fuel ai)
unfolding extend repeat
extend-copies zero v ai b p l = ap (take v) (sym (append-nil b))
extend-copies (suc fuel) v ai b p l = elim (Bool-cases (ltb (length b) v)) [
  | inl q ↦ rw q (
      extend-copies fuel v ai (b ++ ai) p (omega (arith, length-append b ai, p, l))
      ∙ ap (take v) (append_assoc b ai (repeat fuel ai)))
  | inr q ↦ rw q (sym (take-enough v b (ai ++ repeat fuel ai) (ground (arith, q))))
]

length-repeat : (m : ℕ) (s : List ℕ) → length (repeat m s) ≡ m * length s
unfolding repeat
length-repeat zero s = omega arith
length-repeat (suc m) s = omega (arith, length-append s (repeat m s), length-repeat m s)

-- Any number of copies that is enough gives the same bytes.
take-repeat :
    (m m' n : ℕ) (s : List ℕ)
    → n ≤ length (repeat m s)
    → n ≤ length (repeat m' s)
    → take n (repeat m s) ≡ take n (repeat m' s)
unfolding repeat
take-repeat zero m' n s l l' = let none_left : n ≡ 0 = omega (arith, l) in rw none_left refl
take-repeat (suc m) zero n s l l' = let none_left : n ≡ 0 = omega (arith, l') in rw none_left refl
take-repeat (suc m) (suc m') n s l l' =
    take-after n (n - length s) s (repeat m s) (repeat m' s) refl (
      take-repeat m m' (n - length s) s (omega (arith, l, length-append s (repeat m s)))
        (omega (arith, l', length-append s (repeat m' s))))

no_copies : (n m : ℕ) → take n (repeat m []) ≡ []
unfolding repeat
no_copies zero zero = refl
no_copies (suc n) zero = refl
no_copies n (suc m) = no_copies n m

-- As many copies as there are bytes are enough, of a string that has some.
length-copies : (n : ℕ) (s : List ℕ) → 0 < length s → n ≤ length (repeat n s)
unfolding repeat
length-copies zero s p = omega arith
length-copies (suc n) s p = omega (arith, length-append s (repeat n s), length-copies n s p, p)

enough-copies :
    (n l m : ℕ) (s : List ℕ) → 0 < l → length s ≡ l → m ≡ (n + l - 1) / l → n ≤ length (repeat m s)
enough-copies n l m s p e f =
    let size = length-repeat m s ∙ ap (λ (k : ℕ). m * k) e in
    let quotient : l * m + (n + l - 1) % l ≡ n + l - 1 =
      ap (λ (k : ℕ). l * k + (n + l - 1) % l) f ∙ div_any (n + l - 1) l in
    omega (arith, size, quotient, mod-lt (n + l - 1) p)

pub fill_with_repeats-padded : (s : List ℕ) (v : ℕ) → fill_with_repeats s v ≡ padded_to v s
unfolding fill_with_repeats padded_to copies
fill_with_repeats-padded [] v = let n = v * ((length {A = ℕ} [] + v - 1) / v) in sym (no_copies n n)
fill_with_repeats-padded (b ∷ bs) v =
    let s = b ∷ bs in
    let l = length s in
    let n = output_length l v in
    take-repeat ((n + l - 1) / l) n n s
      (enough-copies n l ((n + l - 1) / l) s (omega arith) refl refl)
      (length-copies n s (omega arith))

add_blocks-increased :
    (k v : ℕ) (b i : List ℕ)
    → add_blocks k v b i ≡ joined (map (increased v b) (blocks k v i)) ++ behind k v i
unfolding add_blocks blocks joined behind increased
add_blocks-increased zero v b i = refl
add_blocks-increased (suc k) v b i =
    let rest = joined (map (increased v b) (blocks k v (drop v i))) in
    ap (λ (t : List ℕ). t ++ add_blocks k v b (drop v i)) (add_one_and_lem v b (take v i))
    ∙ ap (λ (t : List ℕ). increased v b (take v i) ++ t) (add_blocks-increased k v b (drop v i))
    ∙ sym (append_assoc (increased v b (take v i)) rest (behind k v (drop v i)))

pub next_input-modified :
    (h : HashFunc) (r : ℕ) (d ai i : List ℕ)
    → 0 < length ai
    → next_input h r d ai i ≡ modified h r d ai i
unfolding next_input modified copies
next_input-modified h r d ai i p =
    let k = length i / h.v in
    ap (λ (b : List ℕ). add_blocks k h.v b i) (extend-copies h.v h.v ai [] p (omega arith))
    ∙ add_blocks-increased k h.v (take h.v (repeat h.v ai)) i
