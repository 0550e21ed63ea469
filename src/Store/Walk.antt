-- ===== src/Store/Walk.antt =====
-- The loop of buildCertificateChain without fuel, as a relation, and what it means for the chain.
use certkit.Prelude.{◌≡◌, refl, subst, ℕ, zero, suc, ◌≤◌, ◌<◌, List, [], ◌∷◌, none, some}
use certkit.Prelude.{
  true, false, length, if◌then◌else◌, All, All-map, Bool-cases, Option-cases, inl, inr, arith,
}
use certkit.Text.{Text, text_eq, text_eq_sym, text_eq_refl}
use certkit.Store.Library.{Library}
use certkit.Store.Types.{Certificate}
use certkit.Store.Chain.{
  mem_id, is_root, issues, is_parent, find_parent, chain_above, build_certificate_chain,
}
use certkit.Store.Keyed.{find_by, IsDistinct}
use certkit.Store.Operations.{certificate_id}

module _ (lib : Library) where
  -- `Walk certs c seen above`: the loop, at `c` with the identifiers seen, appends `above` and ends.
  pub data Walk (certs : List Certificate)
      : Certificate → List Text → List Certificate → Type 0 where
    at_root : {c : Certificate} {seen : List Text} → is_root c.role ≡ true → Walk certs c seen []
    no_parent :
        {c : Certificate} {seen : List Text}
        → is_root c.role ≡ false
        → find_parent lib c seen certs ≡ none
        → Walk certs c seen []
    goes_up :
        {c p : Certificate} {seen : List Text} {above : List Certificate}
        → is_root c.role ≡ false
        → find_parent lib c seen certs ≡ some p
        → Walk certs p (p.id ∷ seen) above
        → Walk certs c seen (p ∷ above)

  unfoldable unseen : List Text → List Certificate → ℕ
  unfolding mem_id
  unseen seen [] = 0
  unseen seen (c ∷ cs) = if mem_id c.id seen then unseen seen cs else suc (unseen seen cs)

  unseen≤length : (seen : List Text) (cs : List Certificate) → unseen seen cs ≤ length cs
  unfolding unseen
  unseen≤length seen [] = ground arith
  unseen≤length seen (c ∷ cs) = ground (arith, unseen≤length seen cs)

  unseen-cons :
      (id : Text) (seen : List Text) (cs : List Certificate)
      → unseen (id ∷ seen) cs ≤ unseen seen cs
  unfolding unseen
  unseen-cons id seen [] = ground arith
  unseen-cons id seen (c ∷ cs) = ground (arith, unseen-cons id seen cs)

  is_parent-fresh :
      (current : Certificate) (seen : List Text) (c : Certificate)
      → is_parent lib current seen c ≡ true
      → mem_id c.id seen ≡ false
  unfolding is_parent
  is_parent-fresh current seen c e = ground arith

  unseen-head :
      (c : Certificate) (seen : List Text) (cs : List Certificate)
      → mem_id c.id seen ≡ false
      → unseen (c.id ∷ seen) (c ∷ cs) < unseen seen (c ∷ cs)
  unfolding unseen mem_id
  unseen-head c seen cs m = ground (arith, text_eq_refl c.id, unseen-cons c.id seen cs)

  -- A parent is one certificate less to see.
  unseen-find_parent :
      (current p : Certificate) (seen : List Text) (cs : List Certificate)
      → find_parent lib current seen cs ≡ some p
      → unseen (p.id ∷ seen) cs < unseen seen cs
  unfolding unseen find_parent
  unseen-find_parent current p seen [] e = cc
  unseen-find_parent current p seen (c ∷ cs) e = elim (Bool-cases (is_parent lib current seen c)) [
    | inl b ↦
        let q : c ≡ p = ground arith in
        subst (λ x. unseen (x.id ∷ seen) (c ∷ cs) < unseen seen (c ∷ cs)) q
          (unseen-head c seen cs (is_parent-fresh current seen c b))
    | inr b ↦ ground (arith, unseen-find_parent current p seen cs)
  ]

  chain_above-Walk :
      (fuel : ℕ) (current : Certificate) (seen : List Text) (certs : List Certificate)
      → unseen seen certs ≤ fuel
      → Walk certs current seen (chain_above lib fuel current seen certs)
  unfolding chain_above
  chain_above-Walk zero current seen certs u = elim (Bool-cases (is_root current.role)) [
    | inl r ↦ at_root r
    | inr r ↦ elim (Option-cases (find_parent lib current seen certs)) [
      | inl n ↦ no_parent r n
      | inr (p, e) ↦ ground (arith, unseen-find_parent current p seen certs e)
    ]
  ]
  chain_above-Walk (suc fuel) current seen certs u = elim (Bool-cases (is_root current.role)) [
    | inl r ↦ rw (r, chain_above) (at_root r)
    | inr r ↦ elim (Option-cases (find_parent lib current seen certs)) [
      | inl n ↦ rw (r, n, chain_above) (no_parent r n)
      | inr (p, e) ↦
          rw (r, e, chain_above)
            (goes_up r e (
              chain_above-Walk fuel p (p.id ∷ seen) certs
                (omega (arith, unseen-find_parent current p seen certs e, u))))
    ]
  ]

  -- buildCertificateChain ends, within as many rounds as there are certificates: its chain is the
  -- one that the loop without a bound makes, up to a root or where no parent is left.
  pub build_certificate_chain-Walk :
      (first : Certificate) (certs : List Certificate)
      → (above : List Certificate) × (build_certificate_chain lib first certs ≡ first ∷ above)
        × Walk certs first (first.id ∷ []) above
  unfolding build_certificate_chain
  build_certificate_chain-Walk first certs = (
    chain_above lib (length certs) first (first.id ∷ []) certs,
    refl,
    chain_above-Walk (length certs) first (first.id ∷ []) certs
        (unseen≤length (first.id ∷ []) certs),
  )

  find_parent-is_parent :
      (current p : Certificate) (seen : List Text) (cs : List Certificate)
      → find_parent lib current seen cs ≡ some p
      → is_parent lib current seen p ≡ true
  unfolding find_parent
  find_parent-is_parent current p seen [] e = cc
  find_parent-is_parent current p seen (c ∷ cs) e =
      elim (Bool-cases (is_parent lib current seen c)) [
        | inl b ↦
            let q : c ≡ p = ground arith in subst (λ x. is_parent lib current seen x ≡ true) q b
        | inr b ↦ find_parent-is_parent current p seen cs (ground arith)
      ]

  is_parent-issues :
      (current : Certificate) (seen : List Text) (c : Certificate)
      → is_parent lib current seen c ≡ true
      → issues lib current.certificate c.certificate ≡ true
  unfolding is_parent
  is_parent-issues current seen c e =
      elim (Bool-cases (issues lib current.certificate c.certificate)) [
        | inl b ↦ b
        | inr b ↦ ground arith
      ]

  -- Each certificate of the list is issued by the next, and all but the last are no roots.
  abbrev pub Issued : Certificate → List Certificate → Type 0
  Issued c [] = Unit
  Issued c (p ∷ above) =
      (is_root c.role ≡ false) × (issues lib c.certificate p.certificate ≡ true) × Issued p above

  Walk-Issued :
      {certs above : List Certificate} {c : Certificate} {seen : List Text}
      → Walk certs c seen above
      → Issued c above
  Walk-Issued (at_root r) = tt
  Walk-Issued (no_parent r n) = tt
  Walk-Issued {certs = certs} (goes_up {c} {p} {seen} r e w) =
      (r, is_parent-issues c seen p (find_parent-is_parent c p seen certs e), Walk-Issued w)

  abbrev Fresh : List Text → Certificate → Type 0
  Fresh seen c = mem_id c.id seen ≡ false

  Fresh-cons :
      (id : Text) (seen : List Text) (c : Certificate)
      → Fresh (id ∷ seen) c
      → (text_eq c.id id ≡ false) × Fresh seen c
  unfolding mem_id
  Fresh-cons id seen c f = (text_eq_sym id c.id (ground arith), ground arith)

  Walk-Fresh :
      {certs above : List Certificate} {c : Certificate} {seen : List Text}
      → Walk certs c seen above
      → All (Fresh seen) above
  Walk-Fresh (at_root r) = tt
  Walk-Fresh (no_parent r n) = tt
  Walk-Fresh {certs = certs} (goes_up {c} {p} {seen} {above} r e w) = (
    is_parent-fresh c seen p (find_parent-is_parent c p seen certs e),
    All-map above (λ x f. (Fresh-cons p.id seen x f).1) (Walk-Fresh w),
  )

  apart-find_by :
      (id : Text) (cs : List Certificate)
      → All (λ c. text_eq c.id id ≡ false) cs
      → find_by certificate_id id cs ≡ none
  unfolding find_by
  apart-find_by id [] a = refl
  apart-find_by id (c ∷ cs) (a, rest) = ground (arith, apart-find_by id cs rest, a)

  Walk-IsDistinct :
      {certs above : List Certificate} {c : Certificate} {seen : List Text}
      → Walk certs c seen above
      → IsDistinct certificate_id above
  Walk-IsDistinct (at_root r) = tt
  Walk-IsDistinct (no_parent r n) = tt
  Walk-IsDistinct {certs = certs} (goes_up {c} {p} {seen} {above} r e w) = (
    apart-find_by p.id above (All-map above (λ x f. (Fresh-cons p.id seen x f).0) (Walk-Fresh w)),
    Walk-IsDistinct w,
  )

  -- The chain: it begins with the given certificate, each certificate is issued by the next, and no
  -- two have one identifier.
  pub build_certificate_chain_lem :
      (first : Certificate) (certs : List Certificate)
      → (above : List Certificate) × (build_certificate_chain lib first certs ≡ first ∷ above)
        × Issued first above
        × IsDistinct certificate_id (first ∷ above)
  build_certificate_chain_lem first certs =
      let (above, e, w) = build_certificate_chain-Walk first certs in
      (
        above,
        e,
        Walk-Issued w,
        (
          apart-find_by first.id above
              (All-map above (λ x f. (Fresh-cons first.id [] x f).0) (Walk-Fresh w)),
          Walk-IsDistinct w,
        ),
      )
