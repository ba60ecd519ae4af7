-- ===== src/Tests/Witness/MerkleHashes.antt =====
-- The theorems about merkle.go, at a hash function that forgets all but the first 32 bytes.
use canonical.Prelude.{
  length-take, refl, length-append, replicate, arith, ◌⊎◌, ◌++◌, codes, ◌≡◌, take,
}
use canonical.Merkle.{put_uint64, leaf_hash, Sha256}
use canonical.Merkle.Preimage.{node_hash, leaf}
use canonical.Merkle.Binding.{node_hash_binding, Collision}

-- The message with 32 zeros behind it, cut to 32 bytes.
abbrev front : Sha256
front = record {
  sum256 = λ m. take 32 (m ++ replicate 32 0);
  length-sum256 =
      λ m. length-take 32 (m ++ replicate 32 0) (omega (arith, length-append m (replicate 32 0)));
}

-- Two leaves that differ behind the 32 bytes.
node_hash_binding_example :
    (leaf 7 1 (codes "key") (codes "a long first value")
      ≡ leaf 7 1 (codes "key") (codes "a long other value"))
    ⊎ Collision front
node_hash_binding_example =
    node_hash_binding front (leaf 7 1 (codes "key") (codes "a long first value"))
      (leaf 7 1 (codes "key") (codes "a long other value"))
      (omega arith, omega arith, omega arith, omega arith)
      (omega arith, omega arith, omega arith, omega arith)
      (unfold node_hash leaf_hash put_uint64 in refl)
