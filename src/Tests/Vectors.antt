-- ===== src/Tests/Vectors.antt =====
-- The vectors of testdata/vectors.json.
pub mod Ledger
pub mod Signing
pub mod Client
pub mod Second
