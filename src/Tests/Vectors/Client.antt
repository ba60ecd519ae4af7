-- ===== src/Tests/Vectors/Client.antt =====
-- testdata/vectors.json: the client request, the read-index attestation and the commit certificate,
-- written and read by the functions of the package.
use canonical.Prelude.{refl, ◌≡◌, [], ◌∷◌, bytes_equal, pos, Bytes}
use canonical.Der.Integer.{parse_int64, encode_int64}
use canonical.Der.Length.{read_length, read_tlv, encode_length, tlv}
use canonical.Errors.{ok}
use canonical.Request.{
  check_id_and_expiry, check_intermediates, check_client_request_v1, unmarshal_client_request_v1,
  marshal_client_request_v1, ClientRequestV1,
}
use canonical.CommitCert.{
  check_sigs, check_commit_certificate_v1, unmarshal_commit_certificate_v1,
  marshal_commit_certificate_v1, CommitCertificateV1,
}
use canonical.Asn1.{unmarshal, marshal}
use canonical.Tests.Hex.{hex}
use canonical.Attest.{
  check_read_index_v1, unmarshal_read_index_v1, marshal_read_index_v1, ReadIndexV1,
}
use canonical.Der.Structures.{client_request, read_index, commit_certificate}

abbrev pub client_request_v1_one_intermediate : ClientRequestV1
client_request_v1_one_intermediate = record {
  version = pos 1;
  client_cert = hex "434c49454e542d4c454146";
  intermediates = record { der = hex "494e5445524d4544494154452d31" } ∷ [];
  request_id = hex "000102030405060708090a0b0c0d0e0f";
  expiry = pos 1767225600000000000;
  payload = hex "5041594c4f4144";
}

abbrev pub client_request_v1_one_intermediate_bytes : Bytes
client_request_v1_one_intermediate_bytes =
    hex
      "3049020101040b434c49454e542d4c45414630123010040e494e5445524d4544494154452d310410000102030405060708090a0b0c0d0e0f020818867251edfa000004075041594c4f4144"

client_request_v1_one_intermediate_written :
    marshal_client_request_v1 client_request.encoding client_request_v1_one_intermediate
    ≡ ok client_request_v1_one_intermediate_bytes
unfolding marshal_client_request_v1 check_client_request_v1 client_request marshal tlv encode_length
    encode_int64 check_intermediates check_id_and_expiry
client_request_v1_one_intermediate_written = refl

client_request_v1_one_intermediate_read :
    unmarshal_client_request_v1 client_request.encoding client_request_v1_one_intermediate_bytes
    ≡ ok client_request_v1_one_intermediate
unfolding unmarshal_client_request_v1 check_client_request_v1 client_request unmarshal marshal
    bytes_equal tlv encode_length encode_int64 read_tlv read_length parse_int64 check_intermediates
    check_id_and_expiry
client_request_v1_one_intermediate_read = refl

abbrev pub read_index_v1_high_seq : ReadIndexV1
read_index_v1_high_seq = record {
  version = pos 1;
  signer_id = pos 3;
  view = pos 7;
  seq = pos 4294967338;
  nonce = hex "a7a7a7a7a7a7a7a7a7a7a7a7a7a7a7a7";
}

abbrev pub read_index_v1_high_seq_bytes : Bytes
read_index_v1_high_seq_bytes =
    hex "30220201010201030201070205010000002a0410a7a7a7a7a7a7a7a7a7a7a7a7a7a7a7a7"

read_index_v1_high_seq_written :
    marshal_read_index_v1 read_index.encoding read_index_v1_high_seq
    ≡ ok read_index_v1_high_seq_bytes
unfolding marshal_read_index_v1 check_read_index_v1 read_index marshal tlv encode_length
    encode_int64
read_index_v1_high_seq_written = refl

read_index_v1_high_seq_read :
    unmarshal_read_index_v1 read_index.encoding read_index_v1_high_seq_bytes
    ≡ ok read_index_v1_high_seq
unfolding unmarshal_read_index_v1 check_read_index_v1 read_index unmarshal marshal bytes_equal tlv
    encode_length encode_int64 read_tlv read_length parse_int64
read_index_v1_high_seq_read = refl

abbrev pub commit_cert_v1_n4_q3 : CommitCertificateV1
commit_cert_v1_n4_q3 = record {
  version = pos 1;
  proposal_digest = hex "35d84b08b379543f9d140ebc473d859c95e743dd0968adf54be28dd6e7727522";
  view = pos 7;
  seq = pos 42;
  sigs =
      record {
        signer = pos 1;
        value =
            hex
              "a1a1a1a1a1a1a1a1a1a1a1a1a1a1a1a1a1a1a1a1a1a1a1a1a1a1a1a1a1a1a1a1a1a1a1a1a1a1a1a1a1a1a1a1a1a1a1a1a1a1a1a1a1a1a1a1a1a1a1a1a1a1a1a1";
        msg =
            hex
              "302a020101042035d84b08b379543f9d140ebc473d859c95e743dd0968adf54be28dd6e77275220403415558";
      }
      ∷ record {
        signer = pos 2;
        value =
            hex
              "a2a2a2a2a2a2a2a2a2a2a2a2a2a2a2a2a2a2a2a2a2a2a2a2a2a2a2a2a2a2a2a2a2a2a2a2a2a2a2a2a2a2a2a2a2a2a2a2a2a2a2a2a2a2a2a2a2a2a2a2a2a2a2a2";
        msg =
            hex
              "302a020101042035d84b08b379543f9d140ebc473d859c95e743dd0968adf54be28dd6e77275220403415558";
      }
      ∷ record {
        signer = pos 3;
        value =
            hex
              "a3a3a3a3a3a3a3a3a3a3a3a3a3a3a3a3a3a3a3a3a3a3a3a3a3a3a3a3a3a3a3a3a3a3a3a3a3a3a3a3a3a3a3a3a3a3a3a3a3a3a3a3a3a3a3a3a3a3a3a3a3a3a3a3";
        msg =
            hex
              "302a020101042035d84b08b379543f9d140ebc473d859c95e743dd0968adf54be28dd6e77275220403415558";
      }
      ∷ [];
}

abbrev pub commit_cert_v1_n4_q3_bytes : Bytes
commit_cert_v1_n4_q3_bytes =
    hex
      "3082018e020101042035d84b08b379543f9d140ebc473d859c95e743dd0968adf54be28dd6e772752202010702012a3082015f30730201010440a1a1a1a1a1a1a1a1a1a1a1a1a1a1a1a1a1a1a1a1a1a1a1a1a1a1a1a1a1a1a1a1a1a1a1a1a1a1a1a1a1a1a1a1a1a1a1a1a1a1a1a1a1a1a1a1a1a1a1a1a1a1a1a1042c302a020101042035d84b08b379543f9d140ebc473d859c95e743dd0968adf54be28dd6e7727522040341555830730201020440a2a2a2a2a2a2a2a2a2a2a2a2a2a2a2a2a2a2a2a2a2a2a2a2a2a2a2a2a2a2a2a2a2a2a2a2a2a2a2a2a2a2a2a2a2a2a2a2a2a2a2a2a2a2a2a2a2a2a2a2a2a2a2a2042c302a020101042035d84b08b379543f9d140ebc473d859c95e743dd0968adf54be28dd6e7727522040341555830730201030440a3a3a3a3a3a3a3a3a3a3a3a3a3a3a3a3a3a3a3a3a3a3a3a3a3a3a3a3a3a3a3a3a3a3a3a3a3a3a3a3a3a3a3a3a3a3a3a3a3a3a3a3a3a3a3a3a3a3a3a3a3a3a3a3042c302a020101042035d84b08b379543f9d140ebc473d859c95e743dd0968adf54be28dd6e77275220403415558"

pub commit_cert_v1_n4_q3_written :
    marshal_commit_certificate_v1 commit_certificate.encoding commit_cert_v1_n4_q3
    ≡ ok commit_cert_v1_n4_q3_bytes
unfolding marshal_commit_certificate_v1 check_commit_certificate_v1 commit_certificate marshal tlv
    encode_length encode_int64 check_sigs
commit_cert_v1_n4_q3_written = refl

pub commit_cert_v1_n4_q3_read :
    unmarshal_commit_certificate_v1 commit_certificate.encoding commit_cert_v1_n4_q3_bytes
    ≡ ok commit_cert_v1_n4_q3
unfolding unmarshal_commit_certificate_v1 check_commit_certificate_v1 commit_certificate unmarshal
    marshal bytes_equal tlv encode_length encode_int64 read_tlv read_length parse_int64 check_sigs
commit_cert_v1_n4_q3_read = refl
