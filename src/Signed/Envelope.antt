-- ===== src/Signed/Envelope.antt =====
-- Which envelopes are encoded and accepted: WIRE-SPEC.md 3.8.
use canonical.Prelude.{arith, length, ◌↔◌, Bytes, none, ◌≡◌}
use canonical.Asn1.Canonical.{checked_marshal_iff}
use canonical.Asn1.{marshal, version_v1, Encoding}
use canonical.Signed.{genesis_digest_len, marshal_signed_v1, check_signed_v1, SignedV1}
use canonical.Errors.{ok}
use canonical.Signed.Purpose.{IsPurpose}

pub record IsSignedV1 (s : SignedV1) : Type 0 where
  pub version_known : s.version ≡ version_v1
  pub purpose_known : IsPurpose s.purpose
  pub digest_width : length s.genesis_digest ≡ genesis_digest_len

check_signed_v1-IsSignedV1 : (s : SignedV1) → (check_signed_v1 s ≡ none) ↔ IsSignedV1 s
unfolding check_signed_v1
check_signed_v1-IsSignedV1 s = (λ e. ground arith, λ v. ground arith)

module _ (E : Encoding SignedV1) where
  -- Over any encoding, marshal_signed_v1 gives bytes exactly when asn1.Marshal gives them and the
  -- envelope has version 1, one of the four purposes, and a 32-byte genesis digest.
  pub marshal_signed_v1_iff :
      (s : SignedV1) (b : Bytes)
      → (marshal_signed_v1 E s ≡ ok b) ↔ (IsSignedV1 s × (marshal E s ≡ ok b))
  unfolding marshal_signed_v1
  marshal_signed_v1_iff s b =
      checked_marshal_iff E check_signed_v1 s b (check_signed_v1-IsSignedV1 s)
