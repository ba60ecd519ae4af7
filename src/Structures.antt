-- ===== src/Structures.antt =====
-- The ten top-level structures of the package as one family: their Go types, and the exported
-- Marshal and Unmarshal function of each.
pub mod Laws
pub mod Binding
pub mod Valid
use canonical.CommitCert.{
  unmarshal_commit_certificate_v1, marshal_commit_certificate_v1, CommitCertificateV1,
}
use canonical.Attest.{unmarshal_read_index_v1, marshal_read_index_v1, ReadIndexV1}
use canonical.Request.{unmarshal_client_request_v1, marshal_client_request_v1, ClientRequestV1}
use canonical.Signed.{
  unmarshal_commit_payload_v1, marshal_commit_payload_v1, CommitPayloadV1, unmarshal_signed_blob_v1,
  marshal_signed_blob_v1, SignedBlobV1, unmarshal_signed_v1, marshal_signed_v1, SignedV1,
}
use canonical.Signatures.{unmarshal_signature_set_v0, marshal_signature_set_v0, SignatureSetV0}
use canonical.Genesis.{unmarshal_genesis_v1, marshal_genesis_v1, GenesisV1}
use canonical.Proposal.{unmarshal_proposal_v0, marshal_proposal_v0, ProposalV0}
use canonical.Header.{unmarshal_header, marshal_header, Header}
use canonical.Prelude.{Bytes, ℤ}
use canonical.Errors.{Result}
use canonical.Asn1.{Encoding}

-- The structures that carry a version: all but two (WIRE-SPEC.md 4.1).
pub data Versioned : Type 0 where
  header genesis_v1 signed_v1 signed_blob_v1 commit_payload_v1 : Versioned
  client_request_v1 read_index_v1 commit_certificate_v1 : Versioned

pub data Structure : Type 0 where
  versioned : Versioned → Structure
  proposal_v0 signature_set_v0 : Structure

abbrev pub VersionedValue : Versioned → Type 0
VersionedValue header = Header
VersionedValue genesis_v1 = GenesisV1
VersionedValue signed_v1 = SignedV1
VersionedValue signed_blob_v1 = SignedBlobV1
VersionedValue commit_payload_v1 = CommitPayloadV1
VersionedValue client_request_v1 = ClientRequestV1
VersionedValue read_index_v1 = ReadIndexV1
VersionedValue commit_certificate_v1 = CommitCertificateV1

abbrev pub Value : Structure → Type 0
Value (versioned s) = VersionedValue s
Value proposal_v0 = ProposalV0
Value signature_set_v0 = SignatureSetV0

unfoldable marshal_versioned :
    (s : Versioned) → Encoding (VersionedValue s) → VersionedValue s → Result Bytes
marshal_versioned header E v = marshal_header E v
marshal_versioned genesis_v1 E v = marshal_genesis_v1 E v
marshal_versioned signed_v1 E v = marshal_signed_v1 E v
marshal_versioned signed_blob_v1 E v = marshal_signed_blob_v1 E v
marshal_versioned commit_payload_v1 E v = marshal_commit_payload_v1 E v
marshal_versioned client_request_v1 E v = marshal_client_request_v1 E v
marshal_versioned read_index_v1 E v = marshal_read_index_v1 E v
marshal_versioned commit_certificate_v1 E v = marshal_commit_certificate_v1 E v

unfoldable unmarshal_versioned :
    (s : Versioned) → Encoding (VersionedValue s) → Bytes → Result (VersionedValue s)
unmarshal_versioned header E b = unmarshal_header E b
unmarshal_versioned genesis_v1 E b = unmarshal_genesis_v1 E b
unmarshal_versioned signed_v1 E b = unmarshal_signed_v1 E b
unmarshal_versioned signed_blob_v1 E b = unmarshal_signed_blob_v1 E b
unmarshal_versioned commit_payload_v1 E b = unmarshal_commit_payload_v1 E b
unmarshal_versioned client_request_v1 E b = unmarshal_client_request_v1 E b
unmarshal_versioned read_index_v1 E b = unmarshal_read_index_v1 E b
unmarshal_versioned commit_certificate_v1 E b = unmarshal_commit_certificate_v1 E b

-- The exported Marshal function of a structure.
unfoldable pub marshal_of : (s : Structure) → Encoding (Value s) → Value s → Result Bytes
unfolding marshal_versioned
marshal_of (versioned s) E v = marshal_versioned s E v
marshal_of proposal_v0 E v = marshal_proposal_v0 E v
marshal_of signature_set_v0 E v = marshal_signature_set_v0 E v

-- The exported Unmarshal function of a structure.
unfoldable pub unmarshal_of : (s : Structure) → Encoding (Value s) → Bytes → Result (Value s)
unfolding unmarshal_versioned
unmarshal_of (versioned s) E b = unmarshal_versioned s E b
unmarshal_of proposal_v0 E b = unmarshal_proposal_v0 E b
unmarshal_of signature_set_v0 E b = unmarshal_signature_set_v0 E b
