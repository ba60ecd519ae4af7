-- ===== src/Signed/Blob.antt =====
-- Which blobs are encoded and accepted: WIRE-SPEC.md 3.9.
use canonical.Prelude.{
  length-eq-zero, length-ne-zero, arith, length, [], ◌≢◌, ◌↔◌, Bytes, none, ◌≡◌,
}
use canonical.Asn1.Canonical.{checked_marshal_iff}
use canonical.Asn1.{marshal, version_v1, Encoding}
use canonical.Signed.{signature_len, marshal_signed_blob_v1, check_signed_blob_v1, SignedBlobV1}
use canonical.Errors.{ok}
use canonical.Signed.Purpose.{IsPurpose}

pub record IsSignedBlobV1 (s : SignedBlobV1) : Type 0 where
  pub version_known : s.version ≡ version_v1
  pub purpose_known : IsPurpose s.purpose
  pub payload_present : s.payload ≢ []
  pub value_width : length s.value ≡ signature_len

check_signed_blob_v1-IsSignedBlobV1 :
    (s : SignedBlobV1) → (check_signed_blob_v1 s ≡ none) ↔ IsSignedBlobV1 s
unfolding check_signed_blob_v1
check_signed_blob_v1-IsSignedBlobV1 s =
    (λ e. ground (arith, length-ne-zero s.payload), λ v. ground (arith, length-eq-zero s.payload))

module _ (E : Encoding SignedBlobV1) where
  -- Over any encoding, marshal_signed_blob_v1 gives bytes exactly when asn1.Marshal gives them
  -- and the blob has version 1, one of the four purposes, a payload, and a 64-byte value.
  pub marshal_signed_blob_v1_iff :
      (s : SignedBlobV1) (b : Bytes)
      → (marshal_signed_blob_v1 E s ≡ ok b) ↔ (IsSignedBlobV1 s × (marshal E s ≡ ok b))
  unfolding marshal_signed_blob_v1
  marshal_signed_blob_v1_iff s b =
      checked_marshal_iff E check_signed_blob_v1 s b (check_signed_blob_v1-IsSignedBlobV1 s)
