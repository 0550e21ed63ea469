-- ===== src/Store/Chain.antt =====
-- model.go, certificateRole and publicKeysEqual; open.go, buildCertificateChain.
use certkit.Prelude.{ℕ, zero, suc, List, [], ◌∷◌, Option, none, some, Bool, true, false}
use certkit.Prelude.{◌&&◌, ◌||◌, not, ltb, length, if◌then◌else◌}
use certkit.Text.{Text, text_eq}
use certkit.Store.Library.{Library, X509Certificate, PublicKey}
use certkit.Store.Types.{Certificate, CertificateRole}

unfoldable pub mem_id : Text → List Text → Bool
unfolding text_eq
mem_id id [] = false
mem_id id (x ∷ xs) = text_eq x id || mem_id id xs

unfoldable pub is_root : CertificateRole → Bool
is_root CertificateRole.root = true
is_root _ = false

module _ (lib : Library) where
  unfoldable pub certificate_role : X509Certificate → CertificateRole
  certificate_role cert =
      if cert.is_ca
        && ltb 0 (length cert.raw_subject)
        && ltb 0 (length cert.raw_issuer)
        && text_eq cert.raw_subject cert.raw_issuer
        && lib.check_signature_from cert cert
      then CertificateRole.root
      else if cert.is_ca
      then CertificateRole.intermediate
      else CertificateRole.leaf

  unfoldable pub encodings_equal : Option (List ℕ) → Option (List ℕ) → Bool
  encodings_equal (some l) (some r) = text_eq l r
  encodings_equal _ _ = false

  unfoldable pub public_keys_equal : PublicKey → PublicKey → Bool
  unfolding encodings_equal
  public_keys_equal left right = encodings_equal (lib.marshal_pkix left) (lib.marshal_pkix right)

  -- The tests of the inner loop that do not look at `seen`.
  unfoldable pub issues : X509Certificate → X509Certificate → Bool
  unfolding text_eq
  issues current candidate =
      candidate.is_ca
      && text_eq current.raw_issuer candidate.raw_subject
      && not (
          ltb 0 (length current.authority_key_id)
          && ltb 0 (length candidate.subject_key_id)
          && not (text_eq current.authority_key_id candidate.subject_key_id))
      && lib.check_signature_from current candidate

  unfoldable pub is_parent : Certificate → List Text → Certificate → Bool
  unfolding issues mem_id
  is_parent current seen candidate =
      not (mem_id candidate.id seen) && issues current.certificate candidate.certificate

  unfoldable pub find_parent : Certificate → List Text → List Certificate → Option Certificate
  unfolding is_parent
  find_parent current seen [] = none
  find_parent current seen (c ∷ cs) =
      if is_parent current seen c then some c else find_parent current seen cs

  -- The outer loop after `current` was appended: what is appended next. The fuel bounds the number
  -- of rounds.
  unfoldable pub chain_above : ℕ → Certificate → List Text → List Certificate → List Certificate
  unfolding is_root find_parent
  chain_above zero current seen certificates = []
  chain_above (suc fuel) current seen certificates =
      if is_root current.role then [] else elim (find_parent current seen certificates) [
        | none ↦ []
        | some parent ↦ parent ∷ chain_above fuel parent (parent.id ∷ seen) certificates
      ]

  unfoldable pub build_certificate_chain : Certificate → List Certificate → List Certificate
  unfolding chain_above
  build_certificate_chain first certificates =
      first ∷ chain_above (length certificates) first (first.id ∷ []) certificates
