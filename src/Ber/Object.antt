-- ===== src/Ber/Object.antt =====
-- `asn1Object`, `asn1Structured` and `asn1Primitive` of internal/ber/ber.go.
use certkit.Prelude.{ℕ, List}

mutual
  pub data Object : Type 0 where
    -- tagBytes, content
    structured : List ℕ → Objects → Object
    -- tagBytes, length, content
    primitive : List ℕ → ℕ → List ℕ → Object

  pub data Objects : Type 0 where
    nil : Objects
    cons : Object → Objects → Objects
