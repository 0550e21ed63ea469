-- ===== src/Authority.antt =====
-- key.go, ca.go and csr.go: keys, certificates and requests.
pub mod Library
pub mod Keys
pub mod Issue
pub mod Total
pub mod Issuer
pub mod Laws
pub mod Tests
