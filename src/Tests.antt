-- ===== src/Tests.antt =====
-- Runs of the definitions at the vectors of testdata/vectors.json, and the theorems at concrete
-- inputs.
mod Hex
mod Vectors
mod Witness
mod Signature
mod Blob
