-- ===== src/Structures/Valid.antt =====
-- The values that the Marshal functions write: header.go, genesis.go, signed.go, request.go,
-- attest.go, commitcert.go.
use canonical.Signatures.{marshal_signature_set_v0}
use canonical.Proposal.{marshal_proposal_v0}
use canonical.CommitCert.Valid.{marshal_commit_certificate_v1_iff, IsCommitCertificateV1}
use canonical.Attest.Valid.{marshal_read_index_v1_iff, IsReadIndexV1}
use canonical.Request.Valid.{marshal_client_request_v1_iff, IsClientRequestV1}
use canonical.Signed.Payload.{marshal_commit_payload_v1_iff, IsCommitPayloadV1}
use canonical.Signed.Blob.{marshal_signed_blob_v1_iff, IsSignedBlobV1}
use canonical.Signed.Envelope.{marshal_signed_v1_iff, IsSignedV1}
use canonical.Genesis.Valid.{marshal_genesis_v1_iff, IsGenesisV1}
use canonical.Header.Valid.{marshal_header_iff, IsHeader}
use canonical.Structures.{
  Structure, versioned, proposal_v0, signature_set_v0, header, genesis_v1, signed_v1,
  signed_blob_v1, commit_payload_v1, client_request_v1, read_index_v1, commit_certificate_v1, Value,
  marshal_of,
}
use canonical.Asn1.{Encoding, marshal}
use canonical.Errors.{ok}
use canonical.Prelude.{◌↔◌, ◌≡◌, ◌<◌, ◌^◌, length, Bytes}

-- The constraints of a structure.
abbrev pub IsValid : (s : Structure) → Value s → Type 0
IsValid (versioned header) v = IsHeader v
IsValid (versioned genesis_v1) v = IsGenesisV1 v
IsValid (versioned signed_v1) v = IsSignedV1 v
IsValid (versioned signed_blob_v1) v = IsSignedBlobV1 v
IsValid (versioned commit_payload_v1) v = IsCommitPayloadV1 v
IsValid (versioned client_request_v1) v = IsClientRequestV1 v
IsValid (versioned read_index_v1) v = IsReadIndexV1 v
IsValid (versioned commit_certificate_v1) v = IsCommitCertificateV1 v
IsValid proposal_v0 v = Unit
IsValid signature_set_v0 v = Unit

-- A genesis has a number of members that fits an int64.
abbrev IsCountable : (s : Structure) → Value s → Type 0
IsCountable (versioned genesis_v1) v = length v.members < 2 ^ 63
IsCountable s v = Unit

-- For each of the ten structures, over any encoding, and for fewer than 2^63 members in a
-- genesis: the Marshal function gives bytes exactly when asn1.Marshal gives them and the value
-- satisfies the constraints of its structure, which are described apart from the checks: its
-- version, the widths of its byte strings, the ranges of its numbers, the strict order of its
-- members or signatures, and what each of these has to be.
pub marshal_of_iff :
    (s : Structure) (E : Encoding (Value s)) (v : Value s) (b : Bytes)
    → IsCountable s v
    → (marshal_of s E v ≡ ok b) ↔ (IsValid s v × (marshal E v ≡ ok b))
unfolding marshal_of
marshal_of_iff (versioned header) E v b small = marshal_header_iff E v b
marshal_of_iff (versioned genesis_v1) E v b small = marshal_genesis_v1_iff E v b small
marshal_of_iff (versioned signed_v1) E v b small = marshal_signed_v1_iff E v b
marshal_of_iff (versioned signed_blob_v1) E v b small = marshal_signed_blob_v1_iff E v b
marshal_of_iff (versioned commit_payload_v1) E v b small = marshal_commit_payload_v1_iff E v b
marshal_of_iff (versioned client_request_v1) E v b small = marshal_client_request_v1_iff E v b
marshal_of_iff (versioned read_index_v1) E v b small = marshal_read_index_v1_iff E v b
marshal_of_iff (versioned commit_certificate_v1) E v b small =
    marshal_commit_certificate_v1_iff E v b
marshal_of_iff proposal_v0 E v b small = unfold marshal_proposal_v0 in (λ h. (tt, h), λ (_, h). h)
marshal_of_iff signature_set_v0 E v b small =
    unfold marshal_signature_set_v0 in (λ h. (tt, h), λ (_, h). h)
