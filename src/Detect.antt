-- ===== src/Detect.antt =====
-- detect.go. What it calls outside the repository is a parameter: bytes.TrimSpace, pem.Decode,
-- asn1.Unmarshal on the two headers, and the parsers of a certificate and of a private key; ber.ToDER
-- is the model of internal/ber.
pub mod Model
pub mod Total
pub mod Tests
