-- ===== src/Signed.antt =====
-- signed.go: the envelope that is signed, the blob that carries a signature, and the commit payload.
pub mod Purpose
pub mod Envelope
pub mod Blob
pub mod Payload
pub mod Refusal
use canonical.Prelude.{ℕ, Bytes, Bool, ℤ, pos, eqb_ℤ, leb_ℤ, length, not, ◌&&◌, ◌==◌}
use canonical.Prelude.{Option, none, some, if◌then◌else◌}
use canonical.Errors.{
  Error, Result, ok, err_version, err_format, err_length, err_empty, ◌>>=◌, after,
}
use canonical.Asn1.{Encoding, marshal, unmarshal, version_v1}

abbrev pub genesis_digest_len : ℕ
genesis_digest_len = 32

abbrev pub purpose_commit_sig : ℤ
purpose_commit_sig = pos 1

abbrev pub purpose_opaque_sign : ℤ
purpose_opaque_sign = pos 2

abbrev pub purpose_client_request : ℤ
purpose_client_request = pos 3

abbrev pub purpose_read_index : ℤ
purpose_read_index = pos 4

unfoldable pub valid_purpose : ℤ → Bool
valid_purpose p = leb_ℤ purpose_commit_sig p && leb_ℤ p purpose_read_index

pub record SignedV1 : Type 0 where
  pub version : ℤ
  pub purpose : ℤ
  pub genesis_digest : Bytes
  pub payload : Bytes

unfoldable pub check_signed_v1 : SignedV1 → Option Error
unfolding valid_purpose
check_signed_v1 s =
    if not (eqb_ℤ s.version version_v1)
    then some err_version
    else if not (valid_purpose s.purpose)
    then some err_format
    else if not (length s.genesis_digest == genesis_digest_len)
    then some err_length
    else none

module _ (E : Encoding SignedV1) where
  unfoldable pub marshal_signed_v1 : SignedV1 → Result Bytes
  marshal_signed_v1 s = after (check_signed_v1 s) (marshal E s)

  unfoldable pub unmarshal_signed_v1 : Bytes → Result SignedV1
  unmarshal_signed_v1 b = do s ← unmarshal E b; after (check_signed_v1 s) (ok s)

abbrev pub signature_len : ℕ
signature_len = 64

abbrev pub digest_len : ℕ
digest_len = 32

pub record SignedBlobV1 : Type 0 where
  pub version : ℤ
  pub purpose : ℤ
  pub payload : Bytes
  pub value : Bytes

pub record CommitPayloadV1 : Type 0 where
  pub version : ℤ
  pub proposal_digest : Bytes
  pub aux : Bytes

unfoldable pub check_signed_blob_v1 : SignedBlobV1 → Option Error
unfolding valid_purpose
check_signed_blob_v1 b =
    if not (eqb_ℤ b.version version_v1)
    then some err_version
    else if not (valid_purpose b.purpose)
    then some err_format
    else if length b.payload == 0
    then some err_empty
    else if not (length b.value == signature_len)
    then some err_length
    else none

module _ (E : Encoding SignedBlobV1) where
  unfoldable pub marshal_signed_blob_v1 : SignedBlobV1 → Result Bytes
  marshal_signed_blob_v1 b = after (check_signed_blob_v1 b) (marshal E b)

  unfoldable pub unmarshal_signed_blob_v1 : Bytes → Result SignedBlobV1
  unmarshal_signed_blob_v1 der = do b ← unmarshal E der; after (check_signed_blob_v1 b) (ok b)

unfoldable pub check_commit_payload_v1 : CommitPayloadV1 → Option Error
check_commit_payload_v1 p =
    if not (eqb_ℤ p.version version_v1)
    then some err_version
    else if not (length p.proposal_digest == digest_len)
    then some err_length
    else none

module _ (E : Encoding CommitPayloadV1) where
  unfoldable pub marshal_commit_payload_v1 : CommitPayloadV1 → Result Bytes
  marshal_commit_payload_v1 p = after (check_commit_payload_v1 p) (marshal E p)

  unfoldable pub unmarshal_commit_payload_v1 : Bytes → Result CommitPayloadV1
  unmarshal_commit_payload_v1 b = do p ← unmarshal E b; after (check_commit_payload_v1 p) (ok p)
