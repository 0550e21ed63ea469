-- ===== src/Formats.antt =====
-- The openers: open_pem.go, open_der.go, open_pkcs7.go, open_jks.go and open_pkcs12.go.
mod Library
mod Keys
mod Pkcs7
mod Pem
mod Jks
mod Alias
mod Pkcs12
mod Basics
mod PemSound
mod Fresh
mod JksImports
mod JksSound
mod BagSound
mod TrustSound
mod Pkcs12Sound
mod Reader
mod Inserted
mod RoundTrip
mod Toy
mod Tests
