-- ===== src/Rc2/Blocks.antt =====
-- `Encrypt` and `Decrypt` of internal/pkcs12/internal/rc2/rc2.go on slices, and the overlap test.
use Prim.Native.Nat.{max}
use certkit.Prelude.{ℕ, ◌+◌, ◌≤◌, ◌<◌, ◌≡◌, arith, ap}
use certkit.Prelude.{List, ◌∷◌, ◌++◌, true, false, ◌↔◌, ◌∙◌}
use certkit.Prelude.{length, take, drop}
use certkit.Rc2.Cipher.{Block, Slice, load, store, any_overlap, inexact_overlap, crypt}
use certkit.Rc2.Cipher.{encrypt, decrypt, written, first_block, encrypt_block}
use certkit.Rc2.Cipher.{decrypt_block}
use certkit.Rc2.Inverse.{IsBlock, encrypt_block-IsBlock, decrypt_block-encrypt_block}
use certkit.Rc2.Schedule.{IsBytes}

pub load-store : (b : Block) (rest : List ℕ) → IsBlock b → load (store b ++ rest) ≡ b
unfolding load store
load-store b rest h = ground arith

pub load-IsBlock : (xs : List ℕ) → IsBytes xs → 8 ≤ length xs → IsBlock (load xs)
unfolding load
load-IsBlock (a ∷ b ∷ c ∷ d ∷ e ∷ f ∷ g ∷ h ∷ xs) p q = omega arith
load-IsBlock _ p q = absurd (omega arith)

pub store-load : (xs : List ℕ) → IsBytes xs → 8 ≤ length xs → store (load xs) ≡ take 8 xs
unfolding load store
store-load (a ∷ b ∷ c ∷ d ∷ e ∷ f ∷ g ∷ h ∷ xs) p q = ground arith
store-load _ p q = absurd (omega arith)

length-store : (b : Block) (rest : List ℕ) → 8 ≤ length (store b ++ rest)
unfolding store
length-store b rest = omega arith

encrypt_written :
    (k : List ℕ) (dst src : Slice) (out : List ℕ)
    → encrypt k dst src ≡ written out
    → (8 ≤ length src.bytes) × (out ≡ store (encrypt_block k (load src.bytes)) ++ drop 8 dst.bytes)
unfolding crypt
encrypt_written k dst src out e =
    let guarded : crypt (encrypt_block k) dst src ≡ written out = unfold encrypt in e in
    (ground arith, ground arith)

decrypt_written :
    (k : List ℕ) (dst src : Slice)
    → 8 ≤ length src.bytes
    → 8 ≤ length dst.bytes
    → inexact_overlap (first_block dst) (first_block src) ≡ false
    → decrypt k dst src ≡ written (store (decrypt_block k (load src.bytes)) ++ drop 8 dst.bytes)
unfolding decrypt
decrypt_written k dst src p q r = ground arith

-- What a call of `Encrypt` wrote, decrypted into any slice of 8 bytes or more that does not
-- partly overlap it, is the first 8 bytes of the source again; the rest of that slice is kept.
pub decrypt-encrypt :
    (k : List ℕ) (dst src back mid : Slice) (out : List ℕ)
    → IsBytes src.bytes
    → encrypt k dst src ≡ written out
    → mid.bytes ≡ out
    → 8 ≤ length back.bytes
    → inexact_overlap (first_block back) (first_block mid) ≡ false
    → decrypt k back mid ≡ written (take 8 src.bytes ++ drop 8 back.bytes)
decrypt-encrypt k dst src back mid out bytes e same room apart =
    let (full, wrote) = encrypt_written k dst src out e in
    let b = load src.bytes in
    let ok = load-IsBlock src.bytes bytes full in
    let c = encrypt_block k b in
    let there : mid.bytes ≡ store c ++ drop 8 dst.bytes = same ∙ wrote in
    let got : load mid.bytes ≡ c = ap load there ∙ load-store c _ (encrypt_block-IsBlock k b ok) in
    let long : 8 ≤ length mid.bytes = rw there (length-store c _) in
    decrypt_written k back mid long room apart
    ∙ ap (λ (xs : List ℕ). written (xs ++ drop 8 back.bytes))
        (ap (λ x. store (decrypt_block k x)) got
          ∙ ap store (decrypt_block-encrypt_block k b ok)
          ∙ store-load src.bytes bytes full)

-- The overlap test holds exactly when the two slices share the address of some byte.
pub any_overlap_iff :
    (x y : Slice)
    → (any_overlap x y ≡ true) ↔ (
        (a : ℕ) × (x.address ≤ a)
        × (a < x.address + length x.bytes)
        × (y.address ≤ a)
        × (a < y.address + length y.bytes))
any_overlap_iff x y = (
  λ h. (
    max x.address y.address,
    unfold any_overlap in ground arith,
    unfold any_overlap in ground arith,
    unfold any_overlap in ground arith,
    unfold any_overlap in ground arith,
  ),
  λ (a, p, q, r, s). unfold any_overlap in ground arith,
)
