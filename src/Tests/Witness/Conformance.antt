-- ===== src/Tests/Witness/Conformance.antt =====
-- The theorems about `check_vector` of ci/verify_vectors.py, at a header of the annex and a blob.
use canonical.Verifier.Checks.{is_printable}
use canonical.Verifier.{read_value}
use canonical.Prelude.{drop, Bytes, false, true, refl, length, arith, ◌↔◌, ◌≡◌, take, [], some}
use canonical.Tests.Blob.{hash, blob_key, genesis_digest, signed_by_test_key}
use canonical.Verifier.Ed25519.{ed25519_verify}
use canonical.Verifier.Outcome.{returned}
use canonical.Verifier.Schema.{octets}
use canonical.Tests.Witness.Sample.{sample-IsOctets, header_encoding, header-IsLossless, header_der}
use canonical.Tests.Vectors.Ledger.{header_v1_seq_128, header_v1_seq_128_bytes}
use canonical.Verifier.Objects.{dict_of, name_of}
use canonical.Verifier.Compare.{compare_fields}
use canonical.Verifier.Compare.Passed.{compare_fields_iff}
use canonical.Verifier.Vector.{Vector, Report, check_vector, check_signature}
use canonical.Verifier.Vector.Passes.{Passed, check_vector_iff}
use canonical.Verifier.Vector.Conforms.{Conforms, check_vector-unmarshal_of}
use canonical.Verifier.Vector.Blob.{signed_bytes, flipped, check_signature_iff}
use canonical.Structures.{versioned, header, signed_blob_v1}

compare_fields_iff_example :
    (compare_fields
        (name_of (versioned header))
        (dict_of (versioned header) header_v1_seq_128)
        (dict_of (versioned header) header_v1_seq_128)
      ≡ returned tt)
    ↔ (header_v1_seq_128 ≡ header_v1_seq_128)
compare_fields_iff_example =
    compare_fields_iff (versioned header) header_v1_seq_128 header_v1_seq_128

-- The first 32 bytes stand for a digest.
abbrev vector : Vector
vector = record {
  structure = some (name_of (versioned header));
  der = header_v1_seq_128_bytes;
  fields = dict_of (versioned header) header_v1_seq_128;
  sha256 = take 32 header_v1_seq_128_bytes;
}

abbrev report : Report
report = record { size = 46; forgeries = 3; notes = [] }

vector_passes : check_vector (take 32) (take 64) vector ≡ returned report
unfolding check_vector read_value is_printable
vector_passes = refl

check_vector_iff_example :
    (check_vector (take 32) (take 64) vector ≡ returned report)
    ↔ Passed (take 32) (take 64) (versioned header) vector report
check_vector_iff_example =
    check_vector_iff (take 32) (take 64) (versioned header) vector report refl sample-IsOctets
      (omega arith)

check_vector-unmarshal_of_example :
    ((r : Report) × (check_vector (take 32) (take 64) vector ≡ returned r))
    ↔ Conforms (take 32) (take 64) (versioned header) header_encoding header_v1_seq_128 vector
check_vector-unmarshal_of_example =
    check_vector-unmarshal_of (take 32) (take 64) (versioned header) header_encoding
      header-IsLossless header_der header_v1_seq_128 vector (omega arith) refl refl sample-IsOctets
      (omega arith) tt

abbrev digest_tail : Bytes
digest_tail = drop 1 genesis_digest

check_signature_iff_example :
    (check_signature hash
        (octets genesis_digest)
        (octets blob_key)
        (dict_of (versioned signed_blob_v1) signed_by_test_key)
      ≡ returned 77)
    ↔ ((length blob_key ≡ 32)
        × (ed25519_verify hash blob_key
              (signed_bytes genesis_digest signed_by_test_key)
              signed_by_test_key.value
            ≡ returned true)
        × (ed25519_verify hash blob_key
              (signed_bytes (flipped 0x6f digest_tail) signed_by_test_key)
              signed_by_test_key.value
            ≡ returned false)
        × (77 ≡ length (signed_bytes genesis_digest signed_by_test_key)))
check_signature_iff_example =
    check_signature_iff hash 0x6f digest_tail blob_key signed_by_test_key 77
