-- ===== src/Pkcs12/KdfLaws.antt =====
-- pbkdf.go: the derived key has the length that is asked for, and is the output of RFC 7292,
-- appendix B.2, written without an array.
use certkit.Prelude.{
  ◌≡◌, refl, sym, ◌∙◌, ap, ℕ, zero, suc, ◌+◌, ◌-◌, ◌*◌, ◌/◌, ◌≤◌, ◌<◌, min, List, [], ◌∷◌, ◌++◌,
}
use certkit.Prelude.{
  take, drop, length, replicate, length-take, length-drop, length-append, length-replicate, arith,
}
use certkit.Prelude.{append_assoc, append-nil}
use native.Mathlib.Omega.{div_any}
use native.Mathlib.Nat.{mod-lt}
use certkit.Pkcs12.Types.{HashFunc}
use certkit.Pkcs12.CbcLaws.{take-append}
use certkit.Pkcs12.Kdf.{
  extend, copy_at, digest_of, next_input, rounds_from, pbkdf, fill_with_repeats,
}
use certkit.Pkcs12.Rfc7292.{digest, modified, padded_to, stream, derived}
use certkit.Pkcs12.KdfSteps.{digest_of-digest, next_input-modified, fill_with_repeats-padded}

copied-lengths :
    (a b c : List ℕ) (i s l : ℕ)
    → length a ≡ min i l
    → length b ≡ min (l - i) s
    → length c ≡ l - (i + s)
    → length (a ++ b ++ c) ≡ l
copied-lengths a b c i s l p q r =
    omega (arith, length-append (a ++ b) c, length-append a b, p, q, r)

length-copy_at : (i : ℕ) (src dst : List ℕ) → length (copy_at i src dst) ≡ length dst
unfolding copy_at
length-copy_at i src dst =
    copied-lengths (take i dst) (take (length dst - i) src) (drop (i + length src) dst) i
      (length src) (length dst) (length-take i dst) (length-take (length dst - i) src)
      (length-drop (i + length src) dst)

-- Enough rounds: the pattern is as long as the block.
pub extend_enough :
    (fuel v : ℕ) (ai b : List ℕ)
    → 0 < length ai
    → v ≤ fuel + length b
    → v ≤ length (extend fuel v ai b)
unfolding extend
extend_enough zero v ai b h f = omega (arith, f)
extend_enough (suc fuel) v ai b h f =
    let l = length-append b ai in
    ground (arith, extend_enough fuel v ai (b ++ ai) h (omega (arith, l, h, f)))

module _ (h : HashFunc) (r : ℕ) (d : List ℕ) where
  length-rounds_from :
      (rounds n : ℕ) (i a : List ℕ) → length (rounds_from h r d rounds n i a) ≡ length a
  unfolding rounds_from
  length-rounds_from zero n i a = refl
  length-rounds_from (suc zero) n i a = length-copy_at (n * h.u) (digest_of h r d i) a
  length-rounds_from (suc (suc rounds)) n i a =
      length-rounds_from (suc rounds) (suc n) (next_input h r d (digest_of h r d i) i)
        (copy_at (n * h.u) (digest_of h r d i) a)
      ∙ length-copy_at (n * h.u) (digest_of h r d i) a

-- The slice `A[:size]` is inside the array: the key has `size` bytes, if a digest has any.
pub length-pbkdf :
    (h : HashFunc) (salt password : List ℕ) (r purpose size : ℕ)
    → 0 < h.u
    → length (pbkdf h salt password r purpose size) ≡ size
unfolding pbkdf
length-pbkdf h salt password r purpose size u =
    let d = replicate h.v purpose in
    let i = fill_with_repeats salt h.v ++ fill_with_repeats password h.v in
    let c = (size + h.u - 1) / h.u in
    let a : List ℕ = replicate (c * h.u) 0 in
    let wide : length (rounds_from h r d c 0 i a) ≡ c * h.u =
      length-rounds_from h r d c 0 i a ∙ length-replicate (c * h.u) 0 in
    let room : size ≤ c * h.u =
      omega (arith, div_any (size + h.u - 1) h.u, mod-lt (size + h.u - 1) u) in
    length-take size (rounds_from h r d c 0 i a) ∙ omega (arith, wide, room)

-- The digests that the loop writes, one after the other.
module _ (h : HashFunc) (r : ℕ) (d : List ℕ) where
  unfoldable outputs : ℕ → List ℕ → List ℕ
  outputs zero i = []
  outputs (suc rounds) i =
      digest_of h r d i ++ outputs rounds (next_input h r d (digest_of h r d i) i)

  take-all : (m : ℕ) (xs : List ℕ) → length xs ≤ m → take m xs ≡ xs
  take-all zero [] l = refl
  take-all zero (x ∷ xs) l = absurd (omega (arith, l))
  take-all (suc m) [] l = refl
  take-all (suc m) (x ∷ xs) l = ap (λ (t : List ℕ). x ∷ t) (take-all m xs (omega (arith, l)))

  drop-past : (k m : ℕ) (xs ys : List ℕ) → k ≡ length xs + m → drop k (xs ++ ys) ≡ drop m ys
  drop-past k m [] ys e = ap (λ (t : ℕ). drop t ys) (omega (arith, e))
  drop-past zero m (x ∷ xs) ys e = absurd (omega (arith, e))
  drop-past (suc k) m (x ∷ xs) ys e = drop-past k m xs ys (omega (arith, e))

  drop-replicate : (m k n b : ℕ) → m ≡ k + n → drop k (replicate m b) ≡ replicate n b
  drop-replicate m zero n b e = ap (λ (t : ℕ). replicate t b) (omega (arith, e))
  drop-replicate zero (suc k) n b e = absurd (omega (arith, e))
  drop-replicate (suc m) (suc k) n b e = drop-replicate m k n b (omega (arith, e))

  copy_at-zeros :
      (done ai : List ℕ) (i m n : ℕ)
      → length done ≡ i
      → m ≡ length ai + n
      → copy_at i ai (done ++ replicate m 0) ≡ (done ++ ai) ++ replicate n 0
  unfolding copy_at
  copy_at-zeros done ai i m n e f =
      let zeros : List ℕ = replicate m 0 in
      let l = length-append done zeros in
      let k : length zeros ≡ m = length-replicate m 0 in
      rw
        (
          take-append i done zeros e,
          take-all (length (done ++ zeros) - i) ai (omega (arith, l, k, e, f)),
          drop-past (i + length ai) (length ai) done zeros (omega (arith, e)),
          drop-replicate m (length ai) n 0 f,
        )
        refl

  -- The array holds what is derived so far, and zeros for the rounds that are left.
  rounds_from-outputs :
      (rounds n : ℕ) (i done : List ℕ)
      → ((x : List ℕ) → length (digest_of h r d x) ≡ h.u)
      → length done ≡ n * h.u
      → rounds_from h r d rounds n i (done ++ replicate (rounds * h.u) 0) ≡ done ++ outputs rounds i
  unfolding rounds_from outputs
  rounds_from-outputs zero n i done u e =
      let none_left : 0 * h.u ≡ 0 = omega arith in ap (λ (k : ℕ). done ++ replicate k 0) none_left
  rounds_from-outputs (suc zero) n i done u e =
      copy_at-zeros done (digest_of h r d i) (n * h.u) (1 * h.u) 0 e (omega (arith, u i))
      ∙ append-nil (done ++ digest_of h r d i)
      ∙ ap (λ (t : List ℕ). done ++ t) (sym (append-nil (digest_of h r d i)))
  rounds_from-outputs (suc (suc rounds)) n i done u e =
      let ai = digest_of h r d i in
      ap (rounds_from h r d (suc rounds) (suc n) (next_input h r d ai i)) (
        copy_at-zeros done ai (n * h.u) (suc (suc rounds) * h.u) (suc rounds * h.u) e
          (omega (arith, u i)))
      ∙ rounds_from-outputs (suc rounds) (suc n) (next_input h r d ai i) (done ++ ai) u
          (length-append done ai ∙ omega (arith, e, u i))
      ∙ append_assoc done ai (outputs (suc rounds) (next_input h r d ai i))

  -- They are the digests of RFC 7292.
  outputs-stream :
      (rounds : ℕ) (i : List ℕ)
      → 0 < h.u
      → ((x : List ℕ) → length (digest_of h r d x) ≡ h.u)
      → outputs rounds i ≡ stream h r d rounds i
  unfolding outputs stream
  outputs-stream zero i p u = refl
  outputs-stream (suc rounds) i p u =
      let a = digest_of h r d i in
      let same : a ≡ digest h r d i = digest_of-digest h r d i in
      let next : next_input h r d a i ≡ modified h r d (digest h r d i) i =
        next_input-modified h r d a i (omega (arith, u i, p))
        ∙ ap (λ (x : List ℕ). modified h r d x i) same in
      ap (λ (x : List ℕ). x ++ outputs rounds (next_input h r d a i)) same
      ∙ ap (λ (x : List ℕ). digest h r d i ++ outputs rounds x) next
      ∙ ap (λ (x : List ℕ). digest h r d i ++ x)
          (outputs-stream rounds (modified h r d (digest h r d i) i) p u)

-- The derived key is that of RFC 7292, appendix B.2, which `derived` writes from its text, when a
-- digest has the size that is declared, and at least a byte.
pub pbkdf-derived :
    (h : HashFunc) (salt password : List ℕ) (r purpose size : ℕ)
    → 0 < h.u
    → ((x : List ℕ) → length (digest_of h r (replicate h.v purpose) x) ≡ h.u)
    → pbkdf h salt password r purpose size ≡ derived h salt password r purpose size
unfolding pbkdf derived
pbkdf-derived h salt password r purpose size p u =
    let d = replicate h.v purpose in
    let c = (size + h.u - 1) / h.u in
    let i = fill_with_repeats salt h.v ++ fill_with_repeats password h.v in
    ap (take size) (
      rounds_from-outputs h r d c 0 i [] u (omega arith)
      ∙ outputs-stream h r d c i p u
      ∙ ap (λ (x : List ℕ). stream h r d c (x ++ fill_with_repeats password h.v))
          (fill_with_repeats-padded salt h.v)
      ∙ ap (λ (x : List ℕ). stream h r d c (padded_to h.v salt ++ x))
          (fill_with_repeats-padded password h.v))
