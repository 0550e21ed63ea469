-- ===== src/Pkcs12/Kdf.antt =====
-- internal/pkcs12/pbkdf.go. A `big.Int` is a natural number.
use certkit.Prelude.{ℕ, zero, suc, ◌+◌, ◌-◌, ◌*◌, ◌/◌, ◌%◌, List, [], ◌∷◌, ◌++◌, ltb, if◌then◌else◌}
use certkit.Prelude.{length, take, drop, replicate}
use certkit.Pkcs12.Types.{HashFunc}

-- `bytes.Repeat`
unfoldable pub repeat : ℕ → List ℕ → List ℕ
repeat zero pattern = []
repeat (suc n) pattern = pattern ++ repeat n pattern

abbrev pub output_length : ℕ → ℕ → ℕ
output_length l v = v * ((l + v - 1) / v)

unfoldable pub fill_with_repeats : List ℕ → ℕ → List ℕ
unfolding repeat
fill_with_repeats [] v = []
fill_with_repeats (b ∷ bs) v =
    let l = length (b ∷ bs) in
    let n = output_length l v in take n (repeat ((n + l - 1) / l) (b ∷ bs))

-- `SetBytes` and `FillBytes`, big-endian.
unfoldable pub from_bytes : ℕ → List ℕ → ℕ
from_bytes acc [] = acc
from_bytes acc (b ∷ bs) = from_bytes (acc * 256 + b) bs

unfoldable pub to_bytes : ℕ → ℕ → List ℕ
to_bytes zero n = []
to_bytes (suc v) n = to_bytes v (n / 256) ++ n % 256 ∷ []

-- `Bytes`: the bytes without leading zeros; a number has fewer of them than it counts.
unfoldable pub minimal_bytes : ℕ → ℕ → List ℕ
minimal_bytes zero n = []
minimal_bytes (suc fuel) zero = []
minimal_bytes (suc fuel) (suc m) = minimal_bytes fuel (suc m / 256) ++ suc m % 256 ∷ []

abbrev pub number_bytes : ℕ → List ℕ
number_bytes n = minimal_bytes n n

-- `if len(Ijb) > v { Ijb = Ijb[len(Ijb)-v:] }`
unfoldable pub keep_last : ℕ → List ℕ → List ℕ
keep_last v bytes = if ltb v (length bytes) then drop (length bytes - v) bytes else bytes

-- The body of the loop over the blocks. FillBytes panics for a number that does not fit; one of `v`
-- bytes does.
unfoldable pub add_one_and : ℕ → List ℕ → List ℕ → List ℕ
unfolding from_bytes to_bytes minimal_bytes keep_last
add_one_and v b block =
    to_bytes v (from_bytes 0 (keep_last v (number_bytes (from_bytes 0 block + from_bytes 0 b + 1))))

-- The loop over the blocks of I, `k` of them; what is left over stays.
unfoldable pub add_blocks : ℕ → ℕ → List ℕ → List ℕ → List ℕ
unfolding add_one_and
add_blocks zero v b i = i
add_blocks (suc k) v b i = add_one_and v b (take v i) ++ add_blocks k v b (drop v i)

-- `for len(B) < v { B = append(B, Ai...) }`; the fuel bounds the rounds.
unfoldable pub extend : ℕ → ℕ → List ℕ → List ℕ → List ℕ
extend zero v ai b = b
extend (suc fuel) v ai b =
    let rest = extend fuel v ai (b ++ ai) in if ltb (length b) v then rest else b

-- `copy(dst[at:], src)`
unfoldable pub copy_at : ℕ → List ℕ → List ℕ → List ℕ
copy_at at src dst = take at dst ++ take (length dst - at) src ++ drop (at + length src) dst

-- The hash is applied `r` times, and once when `r` is 0.
unfoldable pub hash_times : (List ℕ → List ℕ) → ℕ → List ℕ → List ℕ
hash_times sum zero x = sum x
hash_times sum (suc zero) x = sum x
hash_times sum (suc (suc r)) x = hash_times sum (suc r) (sum x)

module _ (h : HashFunc) (r : ℕ) (d : List ℕ) where
  unfoldable pub digest_of : List ℕ → List ℕ
  unfolding hash_times
  digest_of i = hash_times h.sum r (d ++ i)

  -- Steps B and C: what I is after the digest `ai`.
  unfoldable pub next_input : List ℕ → List ℕ → List ℕ
  unfolding extend add_blocks
  next_input ai i = add_blocks (length i / h.v) h.v (take h.v (extend h.v h.v ai [])) i

  -- The loop for i, here `n`, with the rounds that are left.
  unfoldable pub rounds_from : ℕ → ℕ → List ℕ → List ℕ → List ℕ
  unfolding digest_of next_input copy_at
  rounds_from zero n i a = a
  rounds_from (suc zero) n i a = copy_at (n * h.u) (digest_of i) a
  rounds_from (suc (suc rounds)) n i a =
      rounds_from (suc rounds) (suc n) (next_input (digest_of i) i)
        (copy_at (n * h.u) (digest_of i) a)

unfoldable pub pbkdf : HashFunc → List ℕ → List ℕ → ℕ → ℕ → ℕ → List ℕ
unfolding fill_with_repeats rounds_from
pbkdf h salt password r purpose size =
    let d = replicate h.v purpose in
    let i = fill_with_repeats salt h.v ++ fill_with_repeats password h.v in
    let c = (size + h.u - 1) / h.u in take size (rounds_from h r d c 0 i (replicate (c * h.u) 0))

unfoldable pub pbkdf_enc_key : HashFunc → List ℕ → List ℕ → ℕ → ℕ → List ℕ
unfolding pbkdf
pbkdf_enc_key h salt password r size = pbkdf h salt password r 1 size

unfoldable pub pbkdf_iv : HashFunc → List ℕ → List ℕ → ℕ → ℕ → List ℕ
unfolding pbkdf
pbkdf_iv h salt password r size = pbkdf h salt password r 2 size

unfoldable pub pbkdf_mac : HashFunc → List ℕ → List ℕ → ℕ → ℕ → List ℕ
unfolding pbkdf
pbkdf_mac h salt password r size = pbkdf h salt password r 3 size
