-- ===== src/Tests/Witness.antt =====
-- The theorems of the development at concrete inputs, where their hypotheses hold.
mod Sample
mod Codec
mod Constraints
mod MerkleHashes
mod Analyzer
mod SecondDecoder
mod Refusals
mod Forgeries
mod Signatures
mod Conformance
