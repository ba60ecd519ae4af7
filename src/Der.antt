-- ===== src/Der.antt =====
-- encoding/asn1 as this package uses it: DER of integers, octet strings, structs and lists of
-- structs, by WIRE-SPEC.md 2.2 to 2.6. It is the concrete encoding at which the theorems about the
-- abstract `Encoding` are exercised, and it reproduces the vectors of testdata/vectors.json.
pub mod Length
pub mod Integer
pub mod Fields
pub mod Structures
