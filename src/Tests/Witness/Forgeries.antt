-- ===== src/Tests/Witness/Forgeries.antt =====
-- The theorems about the forgeries of ci/verify_vectors.py, at a header of the annex.
use canonical.Prelude.{ap, refl, arith, ◌+◌, [], length, ◌≢◌, ◌≡◌}
use canonical.Asn1.{marshal, Encoding}
use canonical.Verifier.Decode.{items_of}
use canonical.Verifier.Forge.{splice}
use canonical.Errors.{ok, err_non_canonical, err}
use canonical.Verifier.Outcome.{returned}
use canonical.Header.{Header}
use canonical.Verifier.{encode_value}
use canonical.Verifier.Agree.{WritesDer}
use canonical.Tests.Witness.Sample.{
  sample, sample-IsOctets, sample_wrote, header_encoding, header_der, spliced,
}
use canonical.Tests.Vectors.Ledger.{header_v1_seq_128, header_v1_seq_128_bytes}
use canonical.Verifier.Forgeries.{derived_forgeries, seq_paths}
use canonical.Verifier.Refused.{derived_forgeries-length, version_forgeries}
use canonical.Verifier.Spliced.{unmarshal_of-forged, unmarshal_of-forged_error}
use canonical.Verifier.Laws.{parse_der_iff}
use canonical.Verifier.Objects.{dict_of, name_of, tree_of, decode_struct-tree_of}
use canonical.Structures.{versioned, header, unmarshal_of}

derived_forgeries-length_example :
    derived_forgeries (name_of (versioned header)) sample header_v1_seq_128_bytes
    ≡ returned (length (seq_paths sample []) + 1 + version_forgeries (versioned header))
derived_forgeries-length_example =
    derived_forgeries-length (versioned header) sample header_v1_seq_128_bytes
      (dict_of (versioned header) header_v1_seq_128) sample-IsOctets (omega arith)
      ((parse_der_iff header_v1_seq_128_bytes sample sample-IsOctets (omega arith)).1 sample_wrote)
      (decode_struct-tree_of (versioned header) header_v1_seq_128)

unmarshal_of-forged_example :
    unmarshal_of (versioned header) header_encoding (encode_value spliced) ≢ ok header_v1_seq_128
unmarshal_of-forged_example =
    unmarshal_of-forged (versioned header) header_encoding header_der header_v1_seq_128 [] spliced
      (unfold splice tree_of in refl) (unfold encode_value items_of in omega arith)
      header_v1_seq_128 (omega arith)

-- An encoding/asn1 that reads the header in whatever it is given.
abbrev lax : Encoding Header
lax = record { encode = header_encoding.encode; decode = λ b. ok (header_v1_seq_128, []) }

lax_der : WritesDer (versioned header) lax
lax_der = record { encode_iff = header_der.encode_iff }

unmarshal_of-forged_error_example :
    unmarshal_of (versioned header) lax (encode_value spliced) ≡ err err_non_canonical
unmarshal_of-forged_error_example =
    unmarshal_of-forged_error (versioned header) lax lax_der header_v1_seq_128 [] spliced
      (unfold splice tree_of in refl) (unfold encode_value items_of in omega arith)
      header_v1_seq_128 header_v1_seq_128_bytes (omega arith) refl
      (unfold marshal in ap ok sample_wrote)
