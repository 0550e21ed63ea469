-- ===== src/Lib.antt =====
-- certkit: a Go library that opens certificates, private keys and key stores of several formats,
-- keeps them in one in-memory store, and encodes them again. These modules model the parts of it
-- that have logic of their own, and prove what makes them correct.
--
-- The parts and how they meet. Open (open.go) detects the format of its input (detect.go), calls the
-- opener of the format (open_pem.go and its like), and reconciles the store that it returned (open.go,
-- model.go). Entries of a store are also made by a certificate authority (ca.go, csr.go), and
-- certificates are verified by pools of roots (roots.go, chain.go), and looked up in lists and
-- responses of revocation (crl.go, ocsp.go). The detection of PKCS#7 first converts BER to DER
-- (internal/ber/ber.go). A PKCS#12 file is decrypted with a key that is derived from the password
-- (internal/pkcs12: bmp-string.go, pbkdf.go, crypto.go, mac.go), for old files by RC2
-- (internal/pkcs12/internal/rc2/rc2.go).
--
-- The files:
--   Prelude, Result, Text  names that all modules share; Go's results with panics; strings and bytes
--   Store                  model.go, error.go, format.go and open.go
--     Library              the certificate library and the hash, which the code calls
--     Types                Store, Entry, Certificate, PrivateKey and the other types, field by field
--     Keyed                the loops over objects with an ID, once for certificates and private keys:
--                          certificateByID and privateKeyByID are find_by, addCertificate and
--                          addPrivateKey are insert_by, the deletions are delete_by
--     Operations           NewStore, NewCertificate, NewPrivateKey and the methods of Store
--     Chain                certificateRole, publicKeysEqual, buildCertificateChain
--     Reconcile            reconcileEntries, Store.Add, OpenEntry, mergeStoreObjects, the options
--     Given                AddEntry on an entry as a caller writes it
--     Walk, Linked, Valid, Additions, Removals, Owners, Merge, Pairs, Sessions    proofs
--   Open                   open.go, Open, over an interface of the openers; Laws has the proof
--   Detect                 detect.go; Total has the proofs
--   Passwords              password.go
--   Formats                the openers, which fill the interface of Open
--     Library              the parsers that they call, and what is documented of these
--     Keys, Alias          open_pem.go, the keys of DER and PEM; uniqueEntryAlias of open_pkcs12.go
--     Pem, Pkcs7, Jks, Pkcs12    open_pem.go; open_pkcs7.go and open_der.go; open_jks.go; open_pkcs12.go
--     Reader               Open with these openers, and its theorem
--     Basics, PemSound, JksImports, JksSound, BagSound, TrustSound, Pkcs12Sound, Fresh, Inserted,
--     RoundTrip            proofs
--     Toy                  a library that has the documented behaviour
--   Authority              Library has the types of key.go, ca.go and csr.go and the library, Keys is
--                          key.go and the checks of ca.go, Issue has the certificates and requests;
--                          Total, Issuer, Laws are proofs
--   Revocation             Library has the types and the library, Crl is crl.go, Ocsp is ocsp.go;
--                          Marks, Listing, Fetched, Laws are proofs
--   Trust                  Library has the types and the library, Roots is roots.go, Verify has
--                          TrustStore.verify and chain.go; Laws has the proofs
--   Encode                 encode.go, encode_pem.go, encode_der.go and encode_pkcs7.go, over an
--                          interface of the other encoders; Losses has the proofs
--     EntryPem             entry_pem.go
--   Ber                    internal/ber/ber.go: Object has the two kinds of object, Encode EncodeTo,
--                          Read readObject and ToDER; Suffix, Total, Lengths, RoundTrip are proofs
--   Rc2                    internal/pkcs12/internal/rc2/rc2.go: Table, Word, Key (expandKey), Cipher;
--                          Inverse, Schedule, Blocks are proofs
--   Pkcs12                 internal/pkcs12: Types, Bmp (bmp-string.go), Kdf (pbkdf.go), Cbc, Crypto
--                          (crypto.go), Mac (mac.go); Rfc7292 is the derivation of keys as its standard
--                          writes it; Numbers, KdfSteps, KdfLaws, BmpLaws, CbcLaws, Padding, Rc2Cipher,
--                          MacLaws are proofs
--   Each part's Tests has its functions on concrete inputs, and its theorems at such inputs.
--
-- How state is modelled. A method that changes the store takes it and returns it; on an error the
-- code has changed nothing. A pointer is the value it points to, one that may be nil is an Option, so
-- an entry that a caller keeps after AddEntry, or gives to two stores, is not followed. The pointers
-- in an entry that a caller writes may be nil (Store.Given); in a store none is. Run-time
-- panics are the outcome `panic` of Result: an index or a slice out of range, the slice `key.ID[:12]`
-- of a short identifier, and the nil pointer that canonicalCertificates would put in a chain.
--
-- Numbers. Bytes and words are natural numbers with the wrap-around of the source written out. The
-- lengths that readObject reads fit an int of 64 bits: the sum of an offset and a length below 2^31
-- does not overflow. The options' limits are natural numbers, where 0 stands for every number that
-- Open replaces by a default. A time is a count of nanoseconds, where 0 is the zero time; a duration
-- of validity is 0 where it is not positive; a clock skew is not negative.
--
-- Fuel. buildCertificateChain has one round for each certificate of the store, and the theorem of
-- Walk says that its loop ends in these. The reader of BER has three more than the bytes of the
-- input, which is enough by the theorem of Ber.Total. The loop that extends a digest to a block has
-- a round for each byte of the block (Pkcs12.KdfLaws.extend_enough). The loop over PEM blocks has one
-- round more than the input has bytes, and each block takes at least one. The search for a free alias
-- has one round more than the store has entries, which is enough by the theorem of Formats.Fresh.
--
-- What is a parameter: the x509 library, hashes and public keys (Store.Library); encoding/asn1,
-- encoding/pem, TripleDES, AES, SM4, PBKDF2 and HMAC (Pkcs12.Types, Detect.Model); the parsers of
-- PEM, DER, PKCS#7, JKS and PKCS#12 (Formats.Library), with internal/pkcs12's decoding of whole
-- containers among them; the openers in Open, which Formats.Reader fills; the marshallers of keys, and
-- the encoders of PKCS#12 and JKS (Encode); the clock, random numbers, key generation and the signing
-- of certificates (Authority.Library); HTTP, the parser and the signatures of CRLs, and internal/ocsp
-- (Revocation.Library); the building of paths, and the system's and Mozilla's roots (Trust.Library).
-- A password provider is a function that returns an answer; one that panics is
-- not followed.
--
-- What is not modelled: the containers of PKCS#12 (internal/pkcs12/pkcs12.go, safebags.go), which
-- read and write ASN.1; internal/ocsp, a copy of golang.org/x/crypto/ocsp; encode_pkcs12.go,
-- encode_jks.go; tls.go, which is network I/O; cloneIPs of key.go, a copy; the tag number that
-- readObject computes and does not use.
pub mod Prelude
pub mod Result
pub mod Text
pub mod Rc2
pub mod Ber
pub mod Store
pub mod Pkcs12
pub mod Detect
pub mod Open
pub mod Passwords
pub mod Formats
pub mod Authority
pub mod Revocation
pub mod Trust
pub mod Encode
