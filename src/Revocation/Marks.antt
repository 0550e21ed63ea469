-- ===== src/Revocation/Marks.antt =====
-- crl.go: the loop over the entries of a list, and the window of time.
use certkit.Prelude.{◌≡◌, refl, sym, ◌∙◌, ℕ, ◌+◌, ◌≤◌, ◌==◌, List, [], ◌∷◌}
use certkit.Prelude.{true, false, Bool-cases, inl, inr, ◌⊎◌, ◌↔◌}
use certkit.Prelude.{arith}
use certkit.Revocation.Library.{CrlResult, RevocationEntry}
use certkit.Revocation.Library.{serials}
use certkit.Revocation.Crl.{is_fresh, mark_revoked}

-- The list has an entry with the serial number.
abbrev pub Revokes : ℕ → List RevocationEntry → Type 0
Revokes serial [] = ⊥
Revokes serial (e ∷ es) = (e.serial_number ≡ serial) ⊎ Revokes serial es

-- Only the serial numbers matter.
pub Revokes-serials :
    (serial : ℕ) (es fs : List RevocationEntry)
    → serials es ≡ serials fs
    → Revokes serial es
    → Revokes serial fs
Revokes-serials serial [] fs e r = elim r [ ]
Revokes-serials serial (x ∷ es) [] e r = cc e
Revokes-serials serial (x ∷ es) (y ∷ fs) e (inl p) =
    let q : x.serial_number ≡ y.serial_number = cc e in inl (sym q ∙ p)
Revokes-serials serial (x ∷ es) (y ∷ fs) e (inr r) = inr (Revokes-serials serial es fs (cc e) r)

-- The time is in the window, with the skew on both sides; the end may be open.
abbrev pub InWindow : ℕ → ℕ → ℕ → ℕ → Type 0
InWindow now skew this_update next_update =
    (this_update ≤ now + skew) × ((next_update ≡ 0) ⊎ (now ≤ next_update + skew))

window : (now skew t n : ℕ) → is_fresh now skew t n ≡ true → (n ≡ 0) ⊎ (now ≤ n + skew)
unfolding is_fresh
window now skew t n e = elim (Bool-cases (n == 0)) [
  | inl z ↦ inl (ground (arith, z))
  | inr z ↦ inr (ground (arith, z, e))
]

pub is_fresh_lem :
    (now skew this_update next_update : ℕ)
    → (is_fresh now skew this_update next_update ≡ true) ↔ InWindow now skew this_update next_update
unfolding is_fresh
is_fresh_lem now skew t n = (
  (λ e. (ground arith, window now skew t n e)),
  (λ (l, r). elim r [ inl z ↦ ground arith | inr w ↦ ground arith ]),
)

not_first :
    (serial : ℕ) (e : RevocationEntry) (es : List RevocationEntry)
    → (e.serial_number == serial) ≡ false
    → (e.serial_number ≡ serial) ⊎ Revokes serial es
    → Revokes serial es
not_first serial e es b (inl p) = absurd (ground (arith, b, p))
not_first serial e es b (inr q) = q

-- What the loop leaves alone, and when it marks.
pub mark_revoked_lem :
    (serial : ℕ) (es : List RevocationEntry) (r : CrlResult)
    → r.revoked ≡ false
    → (((mark_revoked serial es r).revoked ≡ true) ↔ Revokes serial es)
      × ((mark_revoked serial es r).fresh ≡ r.fresh)
      × ((mark_revoked serial es r).signature_valid ≡ r.signature_valid)
unfolding mark_revoked
mark_revoked_lem serial [] r h = (((λ e. cc (h, e)), (λ e. elim e [ ])), refl, refl)
mark_revoked_lem serial (e ∷ es) r h = elim (Bool-cases (e.serial_number == serial)) [
  | inl b ↦ rw b (((λ q. inl (ground (arith, b))), (λ q. refl)), refl, refl)
  | inr b ↦
      let (i, f, v) = mark_revoked_lem serial es r h in
      rw b (((λ q. inr (i.0 q)), (λ q. i.1 (not_first serial e es b q))), f, v)
]
