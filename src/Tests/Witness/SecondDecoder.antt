-- ===== src/Tests/Witness/SecondDecoder.antt =====
-- The theorems about ci/verify_vectors.py, at vectors of the annex.
use canonical.Tests.Witness.Sample.{
  header_der, header-IsLossless, sample-IsOctets, sample, header_encoding,
}
use canonical.Prelude.{
  ◌++◌, ◌≡◌, ◌≢◌, ◌↔◌, arith, length-append, codes, replicate, take, length-take, none,
}
use canonical.Errors.{ok}
use canonical.Verifier.{encode_value, parse_der}
use canonical.Verifier.Outcome.{returned, broken, out_of_fuel}
use canonical.Verifier.Laws.{parse_der_iff}
use canonical.Verifier.Agree.{
  IsGoDict-IsPrintable, read_vector_ends, read_vector_iff, read_vector-unmarshal_of,
}
use canonical.Verifier.Objects.{dict_of, name_of, tree_of}
use canonical.Verifier.Validate.{read_vector}
use canonical.Verifier.Validity.{IsBoundStructure}
use canonical.Verifier.MerkleHash.{merkle_hash, entry_of, merkle_hash-node_hash}
use canonical.Structures.{versioned, header, unmarshal_of}
use canonical.Structures.Laws.{check_of}
use canonical.Tests.Vectors.Ledger.{header_v1_seq_128, header_v1_seq_128_bytes}
use canonical.Merkle.{Sha256}
use canonical.Merkle.Preimage.{Node, leaf, IsNode, node_hash}

parse_der_iff_example :
    (parse_der header_v1_seq_128_bytes ≡ returned sample)
    ↔ (encode_value sample ≡ header_v1_seq_128_bytes)
parse_der_iff_example = parse_der_iff header_v1_seq_128_bytes sample sample-IsOctets (omega arith)

read_vector_ends_example :
    (read_vector (name_of (versioned header)) header_v1_seq_128_bytes ≢ out_of_fuel)
    × (read_vector (name_of (versioned header)) header_v1_seq_128_bytes ≢ broken)
read_vector_ends_example =
    read_vector_ends (versioned header) header_v1_seq_128_bytes sample-IsOctets (omega arith)

read_vector_iff_example :
    (read_vector (name_of (versioned header)) header_v1_seq_128_bytes
      ≡ returned (dict_of (versioned header) header_v1_seq_128))
    ↔ ((encode_value (tree_of (versioned header) header_v1_seq_128) ≡ header_v1_seq_128_bytes)
        × (check_of (versioned header) header_v1_seq_128 ≡ none)
        × IsBoundStructure (versioned header) header_v1_seq_128)
read_vector_iff_example =
    read_vector_iff (versioned header) header_v1_seq_128 header_v1_seq_128_bytes sample-IsOctets
      (omega arith)
      (IsGoDict-IsPrintable (dict_of (versioned header) header_v1_seq_128) (omega arith)) tt

read_vector-unmarshal_of_example :
    (read_vector (name_of (versioned header)) header_v1_seq_128_bytes
      ≡ returned (dict_of (versioned header) header_v1_seq_128))
    ↔ ((unmarshal_of (versioned header) header_encoding header_v1_seq_128_bytes
          ≡ ok header_v1_seq_128)
        × IsBoundStructure (versioned header) header_v1_seq_128)
read_vector-unmarshal_of_example =
    read_vector-unmarshal_of (versioned header) header_encoding header-IsLossless header_der
      header_v1_seq_128 header_v1_seq_128_bytes (omega arith) sample-IsOctets (omega arith) tt

-- The message with 32 zeros behind it, cut to 32 bytes.
abbrev front : Sha256
front = record {
  sum256 = λ m. take 32 (m ++ replicate 32 0);
  length-sum256 =
      λ m. length-take 32 (m ++ replicate 32 0) (omega (arith, length-append m (replicate 32 0)));
}

abbrev one_leaf : Node
one_leaf = leaf 7 1 (codes "key") (codes "value")

merkle_hash-node_hash_example :
    (merkle_hash front (entry_of one_leaf) ≡ returned (node_hash front one_leaf))
    ↔ (IsNode one_leaf × (node_hash front one_leaf ≡ node_hash front one_leaf))
merkle_hash-node_hash_example = merkle_hash-node_hash front one_leaf (node_hash front one_leaf)
