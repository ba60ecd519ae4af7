-- ===== src/Signed/Payload.antt =====
-- Which commit payloads are encoded and accepted: WIRE-SPEC.md 3.10.
use canonical.Asn1.Canonical.{checked_marshal_iff}
use canonical.Asn1.{marshal, version_v1, Encoding}
use canonical.Prelude.{arith, ◌↔◌, length, Bytes, none, ◌≡◌}
use canonical.Errors.{ok}
use canonical.Signed.{
  digest_len, marshal_commit_payload_v1, check_commit_payload_v1, CommitPayloadV1,
}

pub record IsCommitPayloadV1 (p : CommitPayloadV1) : Type 0 where
  pub version_known : p.version ≡ version_v1
  pub digest_width : length p.proposal_digest ≡ digest_len

check_commit_payload_v1-IsCommitPayloadV1 :
    (p : CommitPayloadV1) → (check_commit_payload_v1 p ≡ none) ↔ IsCommitPayloadV1 p
unfolding check_commit_payload_v1
check_commit_payload_v1-IsCommitPayloadV1 p = (λ e. ground arith, λ v. ground arith)

module _ (E : Encoding CommitPayloadV1) where
  -- Over any encoding, marshal_commit_payload_v1 gives bytes exactly when asn1.Marshal gives them
  -- and the payload has version 1 and a 32-byte proposal digest.
  pub marshal_commit_payload_v1_iff :
      (p : CommitPayloadV1) (b : Bytes)
      → (marshal_commit_payload_v1 E p ≡ ok b) ↔ (IsCommitPayloadV1 p × (marshal E p ≡ ok b))
  unfolding marshal_commit_payload_v1
  marshal_commit_payload_v1_iff p b =
      checked_marshal_iff E check_commit_payload_v1 p b
        (check_commit_payload_v1-IsCommitPayloadV1 p)
