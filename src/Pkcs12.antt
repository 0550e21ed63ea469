-- ===== src/Pkcs12.antt =====
-- internal/pkcs12: the password's BMP string, the key derivation of RFC 7292, appendix B.2, password
-- based encryption and the MAC.
pub mod Types
pub mod Bmp
pub mod BmpLaws
pub mod Kdf
pub mod Numbers
pub mod Rfc7292
pub mod KdfSteps
pub mod KdfLaws
pub mod Cbc
pub mod CbcLaws
pub mod Crypto
pub mod Mac
pub mod MacLaws
mod Tests
pub mod Padding
pub mod Rc2Cipher
