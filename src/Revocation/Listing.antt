-- ===== src/Revocation/Listing.antt =====
-- crl.go: the entries that CreateCRL makes of the options.
use certkit.Revocation.Marks.{Revokes}
use certkit.Prelude.{◌≡◌, refl, ap, ◌∙◌, ℕ, ◌==◌, List, [], ◌∷◌, Option, none, some}
use certkit.Prelude.{inl, inr, ◌⊎◌, ◌↔◌}
use certkit.Result.{Ensures, returns, refuses, Ensures-bind, Ensures-if}
use certkit.Revocation.Library.{RevokedCertificate}
use certkit.Revocation.Crl.{revocation_entry, revocation_entries}

-- A serial number of the options.
abbrev pub Lists : ℕ → List RevokedCertificate → Type 0
Lists serial [] = ⊥
Lists serial (c ∷ cs) = (c.serial_number ≡ some serial) ⊎ Lists serial cs

revocation_entry-serial :
    (o : Option ℕ) (c : RevokedCertificate)
    → Ensures (λ e. o ≡ some e.serial_number) (revocation_entry o c)
revocation_entry-serial none c = refuses
revocation_entry-serial (some n) c =
    Ensures-if (c.revocation_time == 0) (λ q. refuses) λ q. returns refl

pub entries-Lists :
    (cs : List RevokedCertificate)
    → Ensures (λ es. (serial : ℕ) → Revokes serial es ↔ Lists serial cs) (revocation_entries cs)
unfolding revocation_entries
entries-Lists [] = returns (λ serial. ((λ e. e), (λ e. e)))
entries-Lists (c ∷ cs) = Ensures-bind (revocation_entry-serial c.serial_number c) λ e p.
    Ensures-bind (entries-Lists cs) λ es i. returns λ serial. (
      (λ r. elim r [ inl q ↦ inl (p ∙ ap some q) | inr q ↦ inr ((i serial).0 q) ]),
      (λ r. elim r [ inl q ↦ inl (cc (p, q)) | inr q ↦ inr ((i serial).1 q) ]),
    )
