-- ===== src/Tests/Vectors/Signing.antt =====
-- testdata/vectors.json: the envelope, the signed blob and the commit payload,
-- written and read by the functions of the package.
use canonical.Prelude.{refl, ◌≡◌, bytes_equal, pos, Bytes}
use canonical.Der.Integer.{parse_int64, encode_int64}
use canonical.Der.Length.{read_length, read_tlv, encode_length, tlv}
use canonical.Errors.{ok}
use canonical.Asn1.{unmarshal, marshal}
use canonical.Tests.Hex.{hex}
use canonical.Signed.{
  check_signed_v1, check_signed_blob_v1, check_commit_payload_v1, unmarshal_signed_v1,
  unmarshal_signed_blob_v1, unmarshal_commit_payload_v1, marshal_signed_v1, marshal_signed_blob_v1,
  marshal_commit_payload_v1, SignedV1, SignedBlobV1, CommitPayloadV1,
}
use canonical.Der.Structures.{signed, signed_blob, commit_payload}

abbrev pub signed_v1_read_index : SignedV1
signed_v1_read_index = record {
  version = pos 1;
  purpose = pos 4;
  genesis_digest = hex "6f01053c3c3138add51b210aa00048a53bf321b942dca9783eba55637478dc56";
  payload = hex "5041594c4f4144";
}

abbrev pub signed_v1_read_index_bytes : Bytes
signed_v1_read_index_bytes =
    hex
      "303102010102010404206f01053c3c3138add51b210aa00048a53bf321b942dca9783eba55637478dc5604075041594c4f4144"

signed_v1_read_index_written :
    marshal_signed_v1 signed.encoding signed_v1_read_index ≡ ok signed_v1_read_index_bytes
unfolding marshal_signed_v1 check_signed_v1 signed marshal tlv encode_length encode_int64
signed_v1_read_index_written = refl

signed_v1_read_index_read :
    unmarshal_signed_v1 signed.encoding signed_v1_read_index_bytes ≡ ok signed_v1_read_index
unfolding unmarshal_signed_v1 check_signed_v1 signed unmarshal marshal bytes_equal tlv encode_length
    encode_int64 read_tlv read_length parse_int64
signed_v1_read_index_read = refl

abbrev pub blob_v1_basic : SignedBlobV1
blob_v1_basic = record {
  version = pos 1;
  purpose = pos 1;
  payload =
      hex
        "302a020101042035d84b08b379543f9d140ebc473d859c95e743dd0968adf54be28dd6e77275220403415558";
  value =
      hex
        "000102030405060708090a0b0c0d0e0f101112131415161718191a1b1c1d1e1f202122232425262728292a2b2c2d2e2f303132333435363738393a3b3c3d3e3f";
}

abbrev pub blob_v1_basic_bytes : Bytes
blob_v1_basic_bytes =
    hex
      "3076020101020101042c302a020101042035d84b08b379543f9d140ebc473d859c95e743dd0968adf54be28dd6e772752204034155580440000102030405060708090a0b0c0d0e0f101112131415161718191a1b1c1d1e1f202122232425262728292a2b2c2d2e2f303132333435363738393a3b3c3d3e3f"

blob_v1_basic_written :
    marshal_signed_blob_v1 signed_blob.encoding blob_v1_basic ≡ ok blob_v1_basic_bytes
unfolding marshal_signed_blob_v1 check_signed_blob_v1 signed_blob marshal tlv encode_length
    encode_int64
blob_v1_basic_written = refl

blob_v1_basic_read :
    unmarshal_signed_blob_v1 signed_blob.encoding blob_v1_basic_bytes ≡ ok blob_v1_basic
unfolding unmarshal_signed_blob_v1 check_signed_blob_v1 signed_blob unmarshal marshal bytes_equal
    tlv encode_length encode_int64 read_tlv read_length parse_int64
blob_v1_basic_read = refl

abbrev pub commit_payload_v1_with_aux : CommitPayloadV1
commit_payload_v1_with_aux = record {
  version = pos 1;
  proposal_digest = hex "35d84b08b379543f9d140ebc473d859c95e743dd0968adf54be28dd6e7727522";
  aux = hex "415558";
}

abbrev pub commit_payload_v1_with_aux_bytes : Bytes
commit_payload_v1_with_aux_bytes =
    hex "302a020101042035d84b08b379543f9d140ebc473d859c95e743dd0968adf54be28dd6e77275220403415558"

pub commit_payload_v1_with_aux_written :
    marshal_commit_payload_v1 commit_payload.encoding commit_payload_v1_with_aux
    ≡ ok commit_payload_v1_with_aux_bytes
unfolding marshal_commit_payload_v1 check_commit_payload_v1 commit_payload marshal tlv encode_length
    encode_int64
commit_payload_v1_with_aux_written = refl

commit_payload_v1_with_aux_read :
    unmarshal_commit_payload_v1 commit_payload.encoding commit_payload_v1_with_aux_bytes
    ≡ ok commit_payload_v1_with_aux
unfolding unmarshal_commit_payload_v1 check_commit_payload_v1 commit_payload unmarshal marshal
    bytes_equal tlv encode_length encode_int64 read_tlv read_length parse_int64
commit_payload_v1_with_aux_read = refl
