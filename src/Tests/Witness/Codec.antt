-- ===== src/Tests/Witness/Codec.antt =====
-- The theorems about asn1.go, and about every structure, at vectors of the annex.
use canonical.Structures.Binding.{envelope}
use canonical.Asn1.Outcome.{unmarshal_iff, Outcome}
use canonical.Prelude.{
  ap, ◌∷◌, ◌↔◌, ◌++◌, refl, replicate, arith, [], pos, ◌≡◌, ◌<◌, bytes_equal, length, Bytes,
}
use canonical.Errors.{err_trailing, err_non_canonical, ok, err}
use canonical.Tests.Vectors.Signing.{commit_payload_v1_with_aux_bytes}
use canonical.Tests.Vectors.Client.{
  commit_cert_v1_n4_q3_written, commit_cert_v1_n4_q3_read, commit_cert_v1_n4_q3_bytes,
  commit_cert_v1_n4_q3,
}
use canonical.Tests.Vectors.Ledger.{header_v1_seq_128_bytes, header_v1_seq_128}
use canonical.Der.Integer.{encode_int64, parse_int64}
use canonical.Der.Structures.{commit_payload, commit_certificate, signed}
use canonical.Signed.{purpose_commit_sig, check_signed_v1, marshal_signed_v1}
use canonical.Asn1.{length_ceiling, unmarshal, marshal}
use canonical.Structures.{commit_certificate_v1, versioned, unmarshal_of, marshal_of}
use canonical.Der.Length.{encode_length, tlv, read_length, read_tlv}
use canonical.Tests.Hex.{hex}
use canonical.Header.{Header}
use canonical.Asn1.Canonical.{unmarshal-non_canonical}
use canonical.Structures.Laws.{unmarshal_of-injective, unmarshal_of_iff, unmarshal_of-trailing}
use canonical.Der.Structures

-- Every vector is far below the ceiling.
commit_cert_small : length commit_cert_v1_n4_q3_bytes < length_ceiling
commit_cert_small = omega arith

commit_cert_wrote :
    marshal_of (versioned commit_certificate_v1) commit_certificate.encoding commit_cert_v1_n4_q3
    ≡ ok commit_cert_v1_n4_q3_bytes
unfolding marshal_of
commit_cert_wrote = commit_cert_v1_n4_q3_written

commit_cert_read :
    unmarshal_of
      (versioned commit_certificate_v1)
      commit_certificate.encoding
      commit_cert_v1_n4_q3_bytes
    ≡ ok commit_cert_v1_n4_q3
unfolding unmarshal_of
commit_cert_read = commit_cert_v1_n4_q3_read

unmarshal_of_iff_example :
    (unmarshal_of
        (versioned commit_certificate_v1)
        commit_certificate.encoding
        commit_cert_v1_n4_q3_bytes
      ≡ ok commit_cert_v1_n4_q3)
    ↔ (marshal_of (versioned commit_certificate_v1) commit_certificate.encoding commit_cert_v1_n4_q3
        ≡ ok commit_cert_v1_n4_q3_bytes)
unmarshal_of_iff_example =
    unmarshal_of_iff (versioned commit_certificate_v1) commit_certificate.encoding
      commit_certificate.lossless commit_cert_v1_n4_q3_bytes commit_cert_v1_n4_q3 commit_cert_small

unmarshal_of-injective_example : commit_cert_v1_n4_q3_bytes ≡ commit_cert_v1_n4_q3_bytes
unmarshal_of-injective_example =
    unmarshal_of-injective (versioned commit_certificate_v1) commit_certificate.encoding
      commit_cert_v1_n4_q3_bytes commit_cert_v1_n4_q3_bytes commit_cert_v1_n4_q3 commit_cert_read
      commit_cert_read

unmarshal_of-trailing_example :
    unmarshal_of
      (versioned commit_certificate_v1)
      commit_certificate.encoding
      (commit_cert_v1_n4_q3_bytes ++ (0x05 ∷ 0x00 ∷ []))
    ≡ err err_trailing
unmarshal_of-trailing_example =
    unmarshal_of-trailing (versioned commit_certificate_v1) commit_certificate.encoding
      commit_certificate.lossless commit_cert_v1_n4_q3 commit_cert_v1_n4_q3_bytes 0x05 (0x00 ∷ [])
      commit_cert_small commit_cert_wrote

-- A header of version 2, in canonical form.
abbrev header_v2 : Header
header_v2 = record {
  version = pos 2;
  prev_state_root = replicate 32 0;
  prev_seq = pos 128;
  consensus_time = pos 0;
}

abbrev header_v2_bytes : Bytes
header_v2_bytes =
    hex
      "302c0201020420000000000000000000000000000000000000000000000000000000000000000002020080020100"

header_v2_read : unmarshal Structures.header.encoding header_v2_bytes ≡ ok header_v2
unfolding Structures.header unmarshal marshal bytes_equal tlv encode_length encode_int64 read_tlv
    read_length parse_int64
header_v2_read = refl

header_read : unmarshal Structures.header.encoding header_v1_seq_128_bytes ≡ ok header_v1_seq_128
unfolding Structures.header unmarshal marshal bytes_equal tlv encode_length encode_int64 read_tlv
    read_length parse_int64
header_read = refl

-- The same header with an element more inside its SEQUENCE, which encoding/asn1 does not read.
abbrev spliced_bytes : Bytes
spliced_bytes =
    hex
      "302f0201010420000000000000000000000000000000000000000000000000000000000000000002020080020100040158"

spliced_decoded : Structures.header.encoding.decode spliced_bytes ≡ ok (header_v1_seq_128, [])
unfolding Structures.header read_tlv read_length parse_int64
spliced_decoded = refl

header_wrote : marshal Structures.header.encoding header_v1_seq_128 ≡ ok header_v1_seq_128_bytes
unfolding Structures.header marshal tlv encode_length encode_int64
header_wrote = refl

spliced_refused : unmarshal Structures.header.encoding spliced_bytes ≡ err err_non_canonical
spliced_refused =
    unmarshal-non_canonical Structures.header.encoding spliced_bytes header_v1_seq_128_bytes
      header_v1_seq_128 spliced_decoded header_wrote (λ e. omega (arith, ap length e))

unmarshal_iff_example :
    (unmarshal Structures.header.encoding spliced_bytes ≡ err err_non_canonical)
    ↔ Outcome Structures.header.encoding spliced_bytes (err err_non_canonical)
unmarshal_iff_example =
    unmarshal_iff Structures.header.encoding spliced_bytes (err err_non_canonical)

-- The envelope around the commit payload of the annex.
abbrev genesis_digest_bytes : Bytes
genesis_digest_bytes = hex "000102030405060708090a0b0c0d0e0f101112131415161718191a1b1c1d1e1f"

abbrev envelope_bytes : Bytes
envelope_bytes =
    hex
      "30560201010201010420000102030405060708090a0b0c0d0e0f101112131415161718191a1b1c1d1e1f042c302a020101042035d84b08b379543f9d140ebc473d859c95e743dd0968adf54be28dd6e77275220403415558"

envelope_wrote :
    marshal_signed_v1 signed.encoding
      (envelope purpose_commit_sig genesis_digest_bytes commit_payload_v1_with_aux_bytes)
    ≡ ok envelope_bytes
unfolding marshal_signed_v1 check_signed_v1 signed marshal tlv encode_length encode_int64
envelope_wrote = refl
