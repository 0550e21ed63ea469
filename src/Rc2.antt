-- ===== src/Rc2.antt =====
-- internal/pkcs12/internal/rc2/rc2.go: the RC2 block cipher. A byte or a uint16 is a number, and
-- the wrap-around of its arithmetic is written out.
pub mod Table
pub mod Word
pub mod Key
pub mod Cipher
pub mod Inverse
pub mod Schedule
pub mod Blocks
mod Tests
