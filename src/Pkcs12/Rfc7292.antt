-- ===== src/Pkcs12/Rfc7292.antt =====
-- RFC 7292, appendix B.2, written from its text: with numbers modulo a power, and without an array
-- or a loop that grows a slice. pbkdf.go is compared with it in KdfLaws.
use certkit.Prelude.{ℕ, zero, suc, ◌+◌, ◌-◌, ◌*◌, ◌/◌, ◌%◌, ◌^◌, List, [], ◌∷◌, ◌++◌}
use certkit.Prelude.{length, take, drop, replicate, map}
use certkit.Pkcs12.Types.{HashFunc}
use certkit.Pkcs12.Kdf.{repeat, from_bytes, to_bytes}

-- H applied n + 1 times.
unfoldable pub hash_power : (List ℕ → List ℕ) → ℕ → List ℕ → List ℕ
hash_power sum zero x = sum x
hash_power sum (suc n) x = sum (hash_power sum n x)

-- The first `n` bytes of copies of a string.
unfoldable pub copies : ℕ → List ℕ → List ℕ
unfolding repeat
copies n s = take n (repeat n s)

-- Steps 2 and 3: v * ceiling(s / v) bytes.
unfoldable pub padded_to : ℕ → List ℕ → List ℕ
unfolding copies
padded_to v s = copies (v * ((length s + v - 1) / v)) s

-- The first `k` blocks of `v` bytes.
unfoldable pub blocks : ℕ → ℕ → List ℕ → List (List ℕ)
blocks zero v i = []
blocks (suc k) v i = take v i ∷ blocks k v (drop v i)

unfoldable pub joined : List (List ℕ) → List ℕ
joined [] = []
joined (b ∷ bs) = b ++ joined bs

-- What is behind the first `k` blocks.
unfoldable pub behind : ℕ → ℕ → List ℕ → List ℕ
behind zero v i = i
behind (suc k) v i = behind k v (drop v i)

-- (I_j + B + 1) mod 2 ^ (8 * v)
unfoldable pub increased : ℕ → List ℕ → List ℕ → List ℕ
unfolding from_bytes to_bytes
increased v b block = to_bytes v ((from_bytes 0 block + from_bytes 0 b + 1) % 256 ^ v)

module _ (h : HashFunc) (r : ℕ) (d : List ℕ) where
  -- Step 6A.
  unfoldable pub digest : List ℕ → List ℕ
  unfolding hash_power
  digest i = hash_power h.sum (r - 1) (d ++ i)

  -- Steps 6B and 6C.
  unfoldable pub modified : List ℕ → List ℕ → List ℕ
  unfolding copies blocks joined behind increased
  modified ai i =
      let k = length i / h.v in
      joined (map (increased h.v (copies h.v ai)) (blocks k h.v i)) ++ behind k h.v i

  -- Steps 6 and 7: A_1, ..., A_c.
  unfoldable pub stream : ℕ → List ℕ → List ℕ
  unfolding digest modified
  stream zero i = []
  stream (suc rounds) i = digest i ++ stream rounds (modified (digest i) i)

-- The whole of it.
unfoldable pub derived : HashFunc → List ℕ → List ℕ → ℕ → ℕ → ℕ → List ℕ
unfolding stream padded_to
derived h salt password r purpose size = take size (
    stream h r (replicate h.v purpose) ((size + h.u - 1) / h.u)
      (padded_to h.v salt ++ padded_to h.v password))
