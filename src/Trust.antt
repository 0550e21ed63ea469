-- ===== src/Trust.antt =====
-- roots.go and chain.go: stores of trusted roots, and the verification of a certificate.
mod Library
mod Roots
mod Verify
mod Laws
mod Tests
