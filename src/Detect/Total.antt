-- ===== src/Detect/Total.antt =====
-- detect.go: no slice of looksLikeBKS or Detect is out of range, and a detection names a format.
use certkit.Prelude.{◌≡◌, refl, ℕ, ◌+◌, ◌≤◌, List, [], ◌∷◌, Bool, true, false, ◌||◌, ◌&&◌, not}
use certkit.Prelude.{
  ltb, leb, ◌==◌, length, drop, length-drop, arith, Bool-cases, Option-cases, inl, inr,
}
use certkit.Text.{Text, text_eq}
use certkit.Result.{Ensures, returns, refuses, Ensures-bind, Ensures-if}
use certkit.Store.Types.{Format}
use certkit.Rc2.Schedule.{IsBytes}
use certkit.Ber.Total.{to_der_total}
use certkit.Detect.Model.{
  Confidence, Detection, Parsers, big_endian, uint32_at, looks_like_bks, is_content_info,
}
use certkit.Detect.Model.{
  is_pfx, is_ber_content_info, detect_parsed, detect_asn1, magic, detect_binary, detect_trimmed,
  detect,
}
use certkit.Detect.Model.{
  detect_pem_block, label_pkcs7, label_pkcs7_signed_data, label_cms, label_pkcs12, label_pfx,
}

abbrev Anything {ℓ} : {A : Type ℓ} → A → Type 0
Anything a = Unit

big_endian-total : (xs : List ℕ) → 4 ≤ length xs → Ensures Anything (big_endian xs)
unfolding big_endian
big_endian-total (a ∷ b ∷ c ∷ d ∷ xs) h = returns tt
big_endian-total [] h = absurd (omega arith)
big_endian-total (a ∷ []) h = absurd (omega arith)
big_endian-total (a ∷ b ∷ []) h = absurd (omega arith)
big_endian-total (a ∷ b ∷ c ∷ []) h = absurd (omega arith)

uint32_at-total : (i : ℕ) (xs : List ℕ) → i + 4 ≤ length xs → Ensures Anything (uint32_at i xs)
unfolding uint32_at
uint32_at-total i xs h = big_endian-total (drop i xs) (omega (arith, length-drop i xs))

pub looks_like_bks-total : (xs : List ℕ) → Ensures Anything (looks_like_bks xs)
unfolding looks_like_bks
looks_like_bks-total xs =
    Ensures-if (ltb (length xs) 16) (λ s. returns tt)
      λ long. Ensures-bind (uint32_at-total 0 xs (ground arith)) λ version u.
        Ensures-if (not (version == 1) && not (version == 2)) (λ s. returns tt)
          λ known. Ensures-bind (uint32_at-total 4 xs (ground arith)) λ salt_length w.
            Ensures-if
              (salt_length == 0
                || ltb 1048576 salt_length
                || ltb (length xs) (12 + salt_length + 20))
              (λ s. returns tt)
              λ fits.
                Ensures-bind (uint32_at-total (8 + salt_length) xs (ground arith))
                  λ iterations z. returns tt

-- The formats that can be found in an input.
abbrev pub is_container : Format → Bool
is_container Format.unset = false
is_container Format.auto = false
is_container Format.unknown = false
is_container Format.other = false
is_container _ = true

abbrev pub is_high : Confidence → Bool
is_high Confidence.high = true
is_high _ = false

abbrev pub is_bks : Format → Bool
is_bks Format.bks = true
is_bks _ = false

-- A format of a container, with high confidence but for BKS.
abbrev pub IsFound : Detection → Type 0
IsFound d = (is_container d.format ≡ true) × (is_high d.confidence ≡ not (is_bks d.format))

detect_pem_block-IsFound :
    (label : Text)
    → (is_container (detect_pem_block label) ≡ true)
      × (true ≡ not (is_bks (detect_pem_block label)))
unfolding detect_pem_block
detect_pem_block-IsFound label =
    elim (Bool-cases (
      text_eq label label_pkcs7
      || text_eq label label_pkcs7_signed_data
      || text_eq label label_cms)) [
        | inl a ↦ rw a (refl, refl)
        | inr a ↦ elim (Bool-cases (text_eq label label_pkcs12 || text_eq label label_pfx)) [
          | inl b ↦ rw (a, b) (refl, refl)
          | inr b ↦ rw (a, b) (refl, refl)
        ]
      ]

module _ (p : Parsers) where
  is_ber_content_info-total :
      (xs : List ℕ) → IsBytes xs → Ensures Anything (is_ber_content_info p xs)
  unfolding is_ber_content_info
  is_ber_content_info-total xs h = elim (to_der_total xs h) [
    | inl (obj, e, good, whole) ↦ rw (e, is_ber_content_info) (returns tt)
    | inr (x, e) ↦ rw (e, is_ber_content_info) (returns tt)
  ]

  detect_parsed-IsFound : (xs : List ℕ) → Ensures IsFound (detect_parsed p xs)
  unfolding detect_parsed
  detect_parsed-IsFound xs =
      Ensures-if (p.is_certificate xs || p.is_private_key xs) (λ s. returns (refl, refl))
        λ s. refuses

  detect_asn1-IsFound : (xs : List ℕ) → IsBytes xs → Ensures IsFound (detect_asn1 p xs)
  unfolding detect_asn1
  detect_asn1-IsFound xs h =
      Ensures-if (is_pfx p (p.unmarshal_pfx xs)) (λ s. returns (refl, refl))
        λ s.
          Ensures-if (is_content_info p (p.unmarshal_content_info xs)) (λ t. returns (refl, refl))
            λ t.
              Ensures-bind (is_ber_content_info-total xs h)
                λ ber u. Ensures-if ber (λ v. returns (refl, refl)) λ v. detect_parsed-IsFound xs

  magic-total : (xs : List ℕ) → Ensures Anything (magic p xs)
  unfolding magic
  magic-total xs =
      Ensures-if (leb 4 (length xs)) (λ s. uint32_at-total 0 xs (ground arith)) λ s. returns tt

  detect_binary-IsFound : (xs : List ℕ) → IsBytes xs → Ensures IsFound (detect_binary p xs)
  unfolding detect_binary
  detect_binary-IsFound xs h = Ensures-bind (magic-total xs) λ m u.
      Ensures-if (m == 0xfeedfeed) (λ s. returns (refl, refl))
        λ s.
          Ensures-if (m == 0xcececece) (λ t. returns (refl, refl))
            λ t.
              Ensures-bind (looks_like_bks-total xs)
                λ bks w. Ensures-if bks (λ v. returns (refl, refl)) λ v. detect_asn1-IsFound xs h

  detect_trimmed-IsFound : (xs : List ℕ) → IsBytes xs → Ensures IsFound (detect_trimmed p xs)
  unfolding detect_trimmed
  detect_trimmed-IsFound [] h = refuses
  detect_trimmed-IsFound (b ∷ bs) h = elim (Option-cases (p.pem_decode (b ∷ bs))) [
    | inl n ↦ rw (n, detect_trimmed) (detect_binary-IsFound (b ∷ bs) h)
    | inr (label, e) ↦ rw (e, detect_trimmed) (returns (detect_pem_block-IsFound label))
  ]

  -- Detect ends on every input of bytes, without a panic; what it finds is the format of a
  -- container, with high confidence unless it is BKS.
  pub detect-IsFound : (xs : List ℕ) → IsBytes (p.trim_space xs) → Ensures IsFound (detect p xs)
  unfolding detect
  detect-IsFound xs h = detect_trimmed-IsFound (p.trim_space xs) h
