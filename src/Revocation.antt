-- ===== src/Revocation.antt =====
-- crl.go and ocsp.go: the status of a certificate by a CRL or an OCSP response.
mod Library
mod Crl
mod Ocsp
mod Marks
mod Listing
mod Fetched
mod Laws
mod Tests
