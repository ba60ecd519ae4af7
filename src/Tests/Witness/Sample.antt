-- ===== src/Tests/Witness/Sample.antt =====
-- A header of the annex, and an encoding/asn1 of headers made of the reader and the writer of
-- ci/verify_vectors.py.
use canonical.Prelude.{ap, ◌∙◌, ◌++◌, Bytes, ◌≡◌, ◌<◌, ◌*◌, ◌+◌, refl, arith, length, length-append}
use canonical.Errors.{Result, ok, err, err_format}
use canonical.Asn1.{Encoding, IsLossless, length_ceiling}
use canonical.Octets.{IsOctets}
use canonical.Verifier.{encode_value, read_value}
use canonical.Verifier.Tree.{Value, int, bytes, seq, nil, cons}
use canonical.Verifier.Outcome.{Run, returned, raised, broken, out_of_fuel}
use canonical.Verifier.RoundTrip.{read_value-eq}
use canonical.Verifier.Agree.{WritesDer}
use canonical.Verifier.Objects.{dict_of, name_of, tree_of}
use canonical.Verifier.Decode.{items_of}
use canonical.Verifier.Validate.{read_object}
use canonical.Verifier.Reading.{read_object-tree_of}
use canonical.Verifier.Forge.{add_last}
use canonical.Structures.{versioned, header}
use canonical.Header.{Header}
use canonical.Tests.Vectors.Ledger.{header_v1_seq_128, header_v1_seq_128_bytes}

abbrev pub sample : Value
sample = tree_of (versioned header) header_v1_seq_128

pub sample-IsOctets : IsOctets header_v1_seq_128_bytes
sample-IsOctets = omega arith

pub sample_wrote : encode_value sample ≡ header_v1_seq_128_bytes
unfolding encode_value tree_of items_of
sample_wrote = refl

-- The header that a DER value stands for.
abbrev to_header : Value → Bytes → Result (Header × Bytes)
to_header (seq (cons (int a) (cons (bytes b) (cons (int c) (cons (int d) nil))))) rest =
    ok (record { version = a; prev_state_root = b; prev_seq = c; consensus_time = d }, rest)
to_header v rest = err err_format

abbrev to_result : Run (Value × Bytes) → Result (Header × Bytes)
to_result (returned (v, rest)) = to_header v rest
to_result raised = err err_format
to_result broken = err err_format
to_result out_of_fuel = err err_format

-- An encoding/asn1 for headers, made of the reader and the writer of the script.
abbrev pub header_encoding : Encoding Header
header_encoding = record {
  encode = λ h. ok (encode_value (tree_of (versioned header) h));
  decode = λ b. to_result (read_value (2 * length b + 1) b);
}

whole_header :
    (v : Header) (rest : Bytes)
    → length (encode_value (tree_of (versioned header) v)) < length_ceiling
    → header_encoding.decode (encode_value (tree_of (versioned header) v) ++ rest) ≡ ok (v, rest)
whole_header v rest small =
    let wire = encode_value (tree_of (versioned header) v) in
    ap to_result (
      read_value-eq (tree_of (versioned header) v) (2 * length (wire ++ rest) + 1) rest
        (omega (arith, length-append wire rest)) (omega arith))
    ∙ unfold tree_of items_of in refl

pub header-IsLossless : IsLossless header_encoding
header-IsLossless = record {
  decode-encode = λ v b rest wrote small.
      let same : b ≡ encode_value (tree_of (versioned header) v) = cc in
      rw same (whole_header v rest (rw same at small));
}

pub header_der : WritesDer (versioned header) header_encoding
header_der = record { encode_iff = λ v b go small. (λ h. cc, λ h. cc) }

pub sample_read :
    read_object (name_of (versioned header)) header_v1_seq_128_bytes
    ≡ returned (dict_of (versioned header) header_v1_seq_128)
sample_read =
    read_object-tree_of (versioned header) header_v1_seq_128 header_v1_seq_128_bytes sample-IsOctets
      (omega arith) sample_wrote

abbrev pub spliced : Value
spliced = seq (add_last (items_of (dict_of (versioned header) header_v1_seq_128)))
