-- ===== src/Tests/Witness/Refusals.antt =====
-- The theorems about refused values, and about a certificate with its cluster definition.
use canonical.Prelude.{
  replicate, codes, [], ◌∷◌, Bytes, pos, ◌≡◌, ◌↔◌, ◌≤◌, ◌≤ℤ◌, refl, arith, length, inl, inr,
  bytes_equal,
}
use canonical.Errors.{ok, err, err_range, err_empty, err_format}
use canonical.Asn1.{unmarshal, marshal}
use canonical.Tests.Hex.{hex}
use canonical.Der.Structures.{read_index, client_request, signed_blob, commit_certificate, genesis}
use canonical.Der.Integer.{parse_int64, encode_int64}
use canonical.Der.Length.{read_length, read_tlv, encode_length, tlv}
use canonical.Attest.{ReadIndexV1, unmarshal_read_index_v1}
use canonical.Attest.Refusal
use canonical.Attest.Refusal.{unmarshal_read_index_v1_err_iff}
use canonical.Request.{ClientRequestV1, unmarshal_client_request_v1}
use canonical.Request.Refusal as RequestRefusal
use canonical.Request.Refusal.{unmarshal_client_request_v1_err_iff}
use canonical.Signed.{SignedBlobV1, unmarshal_signed_blob_v1}
use canonical.Signed.Refusal as BlobRefusal
use canonical.Signed.Refusal.{unmarshal_signed_blob_v1_err_iff}
use canonical.CommitCert.Quorum.{signatures_bounded}
use canonical.CommitCert.{
  CommitCertificateV1, unmarshal_commit_certificate_v1, check_commit_certificate_v1, check_sigs,
}
use canonical.Tests.Vectors.Ledger.{
  genesis_v1_long_form_length, genesis_v1_long_form_length_bytes, genesis_v1_long_form_length_read,
}

-- An attestation with signer 0.
abbrev no_signer : ReadIndexV1
no_signer = record { version = pos 1; signer_id = pos 0; view = pos 1; seq = pos 2; nonce = [] }

abbrev no_signer_bytes : Bytes
no_signer_bytes = hex "300e0201010201000201010201020400"

no_signer_decoded : unmarshal read_index.encoding no_signer_bytes ≡ ok no_signer
unfolding read_index unmarshal marshal bytes_equal tlv encode_length encode_int64 read_tlv
    read_length parse_int64
no_signer_decoded = refl

unmarshal_read_index_v1_err_iff_example :
    (unmarshal_read_index_v1 read_index.encoding no_signer_bytes ≡ err err_range)
    ↔ Refusal.IsRefused no_signer err_range
unmarshal_read_index_v1_err_iff_example =
    unmarshal_read_index_v1_err_iff read_index.encoding no_signer_bytes no_signer err_range
      no_signer_decoded

-- A request with no certificate.
abbrev no_cert : ClientRequestV1
no_cert = record {
  version = pos 1;
  client_cert = [];
  intermediates = [];
  request_id = [];
  expiry = pos 1;
  payload = [];
}

abbrev no_cert_bytes : Bytes
no_cert_bytes = hex "300e0201010400300004000201010400"

no_cert_decoded : unmarshal client_request.encoding no_cert_bytes ≡ ok no_cert
unfolding client_request unmarshal marshal bytes_equal tlv encode_length encode_int64 read_tlv
    read_length parse_int64
no_cert_decoded = refl

unmarshal_client_request_v1_err_iff_example :
    (unmarshal_client_request_v1 client_request.encoding no_cert_bytes ≡ err err_empty)
    ↔ RequestRefusal.IsRefused no_cert err_empty
unmarshal_client_request_v1_err_iff_example =
    unmarshal_client_request_v1_err_iff client_request.encoding no_cert_bytes no_cert err_empty
      no_cert_decoded

-- A blob for a purpose that there is not.
abbrev fifth_purpose : SignedBlobV1
fifth_purpose = record { version = pos 1; purpose = pos 5; payload = []; value = [] }

abbrev fifth_purpose_bytes : Bytes
fifth_purpose_bytes = hex "300a02010102010504000400"

fifth_purpose_decoded : unmarshal signed_blob.encoding fifth_purpose_bytes ≡ ok fifth_purpose
unfolding signed_blob unmarshal marshal bytes_equal tlv encode_length encode_int64 read_tlv
    read_length parse_int64
fifth_purpose_decoded = refl

unmarshal_signed_blob_v1_err_iff_example :
    (unmarshal_signed_blob_v1 signed_blob.encoding fifth_purpose_bytes ≡ err err_format)
    ↔ BlobRefusal.IsRefused fifth_purpose err_format
unmarshal_signed_blob_v1_err_iff_example =
    unmarshal_signed_blob_v1_err_iff signed_blob.encoding fifth_purpose_bytes fifth_purpose
      err_format fifth_purpose_decoded

-- A certificate of the two members of the genesis of the annex.
abbrev two_signers : CommitCertificateV1
two_signers = record {
  version = pos 1;
  proposal_digest = replicate 32 0;
  view = pos 7;
  seq = pos 42;
  sigs =
      record { signer = pos 1; value = replicate 64 0; msg = codes "m" }
      ∷ record { signer = pos 2; value = replicate 64 0; msg = codes "n" }
      ∷ [];
}

abbrev two_signers_bytes : Bytes
two_signers_bytes =
    hex
      "3081c20201010420000000000000000000000000000000000000000000000000000000000000000002010702012a308194304802010104400000000000000000000000000000000000000000000000000000000000000000000000000000000000000000000000000000000000000000000000000000000004016d304802010204400000000000000000000000000000000000000000000000000000000000000000000000000000000000000000000000000000000000000000000000000000000004016e"

two_signers_read :
    unmarshal_commit_certificate_v1 commit_certificate.encoding two_signers_bytes ≡ ok two_signers
unfolding unmarshal_commit_certificate_v1 check_commit_certificate_v1 check_sigs commit_certificate
    unmarshal marshal bytes_equal tlv encode_length encode_int64 read_tlv read_length parse_int64
two_signers_read = refl

signatures_bounded_example :
    (length two_signers.sigs ≤ length genesis_v1_long_form_length.members)
    × (pos (length two_signers.sigs) ≤ℤ genesis_v1_long_form_length.max_nodes)
signatures_bounded_example =
    signatures_bounded commit_certificate.encoding genesis.encoding two_signers_bytes
      genesis_v1_long_form_length_bytes two_signers genesis_v1_long_form_length two_signers_read
      genesis_v1_long_form_length_read (omega arith) (inl refl, (inr (inl refl), tt))
