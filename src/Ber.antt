-- ===== src/Ber.antt =====
-- internal/ber/ber.go: a BER encoding is read into a tree of objects and written again as DER.
-- `Object` has the tree, `Encode` the `EncodeTo` methods, `Read` the reader and `ToDER`; the other
-- modules are proofs. A byte is a number. Go's `int` has 64 bits, which no sum here exceeds.
pub mod Object
pub mod Encode
pub mod Read
pub mod Suffix
pub mod Total
pub mod Lengths
pub mod RoundTrip
mod Tests
