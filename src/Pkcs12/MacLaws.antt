-- ===== src/Pkcs12/MacLaws.antt =====
-- mac.go: the MACs of PKCS#12 are HMACs under the key that RFC 7292 derives for purpose 3.
use certkit.Prelude.{◌≡◌, refl, ap, ℕ, zero, suc, ◌<◌, List, ◌++◌, length, replicate, arith}
use certkit.Prelude.{Bool, true, false, Bool-cases, inl, inr, ◌⊎◌, ◌↔◌}
use certkit.Text.{text_eq, text_eq→eq, text_eq_refl}
use certkit.Result.{ok, err, guard}
use certkit.Pkcs12.Types.{Error, R, Oid, Digest, Library, sha1, sha256, sm3, oid_equal}
use certkit.Pkcs12.Crypto.{hash_func}
use certkit.Pkcs12.Kdf.{hash_times, digest_of, pbkdf_mac}
use certkit.Pkcs12.KdfLaws.{pbkdf-derived}
use certkit.Pkcs12.Rfc7292.{derived}
use certkit.Pkcs12.Mac.{
  MacData, mac_key, do_mac, verify_mac, compute_mac, oid_sha1, oid_sha256, oid_sm3,
}

-- The digest algorithms of RFC 7292 and RFC 9879 with the hash and the size of the key.
pub data Scheme : Oid → Digest → ℕ → Type 0 where
  sha1_mac : Scheme oid_sha1 sha1 20
  sha256_mac : Scheme oid_sha256 sha256 32
  sm3_mac : Scheme oid_sm3 sm3 32

length-hash_times :
    (sum : List ℕ → List ℕ) (u r : ℕ) (x : List ℕ)
    → ((y : List ℕ) → length (sum y) ≡ u)
    → length (hash_times sum r x) ≡ u
unfolding hash_times
length-hash_times sum u zero x h = h x
length-hash_times sum u (suc zero) x h = h x
length-hash_times sum u (suc (suc r)) x h = length-hash_times sum u (suc r) (sum x) h

-- The comparison of verifyMac.
compared :
    (s t : List ℕ)
    → (◌≡◌ {A = R (Unit {0})} (guard (text_eq s t) Error.incorrect_password) (ok tt)) ↔ (s ≡ t)
compared s t = elim (Bool-cases (text_eq s t)) [
  | inl b ↦ rw b ((λ e. text_eq→eq s t b), (λ e. refl))
  | inr b ↦ rw b ((λ e. cc e), (λ e. cc (b, ap (text_eq s) e, text_eq_refl s)))
]

accepted_or_not :
    (b : Bool)
    → (◌≡◌ {A = R (Unit {0})} (guard b Error.incorrect_password) (ok tt))
      ⊎ (◌≡◌ {A = R (Unit {0})} (guard b Error.incorrect_password) (err Error.incorrect_password))
accepted_or_not true = inl refl
accepted_or_not false = inr refl

module _ (lib : Library) where
  -- A hash has the size that crypto.go declares.
  abbrev pub HasSizes : Type 0
  HasSizes = (d : Digest) (x : List ℕ) → length ((hash_func lib d).sum x) ≡ (hash_func lib d).u

  some_bytes : (d : Digest) → 0 < (hash_func lib d).u
  some_bytes sha1 = omega arith
  some_bytes sha256 = omega arith
  some_bytes sm3 = omega arith

  pbkdf_mac-derived :
      (d : Digest) (salt password : List ℕ) (r size : ℕ)
      → HasSizes
      → pbkdf_mac (hash_func lib d) salt password r size
        ≡ derived (hash_func lib d) salt password r 3 size
  unfolding pbkdf_mac digest_of
  pbkdf_mac-derived d salt password r size sizes =
      let h = hash_func lib d in
      pbkdf-derived h salt password r 3 size (some_bytes d)
        λ x. length-hash_times h.sum h.u r (replicate h.v 3 ++ x) (sizes d)

  -- The HMAC of the message under the derived key.
  abbrev pub expected : MacData → Digest → ℕ → List ℕ → List ℕ → List ℕ
  expected m d n message password =
      lib.hmac d (derived (hash_func lib d) m.mac_salt password m.iterations 3 n) message

  do_mac-expected :
      (m : MacData) (o : Oid) (d : Digest) (n : ℕ) (message password : List ℕ)
      → HasSizes
      → Scheme o d n
      → m.mac.algorithm.algorithm ≡ o
      → do_mac lib m message password ≡ ok (expected m d n message password)
  unfolding do_mac mac_key oid_equal
  do_mac-expected m o d n message password sizes sha1_mac e =
      rw (e, pbkdf_mac-derived sha1 m.mac_salt password m.iterations 20 sizes) refl
  do_mac-expected m o d n message password sizes sha256_mac e =
      rw (e, pbkdf_mac-derived sha256 m.mac_salt password m.iterations 32 sizes) refl
  do_mac-expected m o d n message password sizes sm3_mac e =
      rw (e, pbkdf_mac-derived sm3 m.mac_salt password m.iterations 32 sizes) refl

  -- For a MAC by SHA-1, SHA-256 or SM3, computeMac stores the HMAC of the message under the key that
  -- RFC 7292 derives of the password, the salt and the iterations for purpose 3, in the size of the
  -- hash. verifyMac accepts exactly when the stored digest is this HMAC, and returns
  -- ErrIncorrectPassword otherwise. A hash has the size that crypto.go declares.
  pub verify_mac_lem :
      (m : MacData) (o : Oid) (d : Digest) (n : ℕ) (message password : List ℕ)
      → HasSizes
      → Scheme o d n
      → m.mac.algorithm.algorithm ≡ o
      → (compute_mac lib m message password
          ≡ ok (record m { mac = record (m.mac) { digest = expected m d n message password } }))
        × ((verify_mac lib m message password ≡ ok tt)
            ↔ (m.mac.digest ≡ expected m d n message password))
        × ((verify_mac lib m message password ≡ ok tt)
            ⊎ (verify_mac lib m message password ≡ err Error.incorrect_password))
  unfolding compute_mac verify_mac
  verify_mac_lem m o d n message password sizes scheme e =
      let mac = expected m d n message password in
      let done = do_mac-expected m o d n message password sizes scheme e in
      (
        rw done refl,
        rw done (compared m.mac.digest mac),
        rw done (accepted_or_not (text_eq m.mac.digest mac)),
      )
