-- ===== src/Signed/Refusal.antt =====
-- The errors of checkSignedBlobV1 of signed.go, by the constraint that fails first.
use canonical.Prelude.{
  ◌<ℤ◌, ◌≤ℤ◌, ◌==◌, eqb_ℤ, ◌⊎◌, inl, inr, Bool-cases, length, length-eq-zero, length-ne-zero, arith,
  [], ◌↔◌, ◌≢◌, pos, Bytes, some, ◌≡◌,
}
use canonical.Asn1.{unmarshal, version_v1, Encoding}
use canonical.Signed.{
  signature_len, unmarshal_signed_blob_v1, check_signed_blob_v1, valid_purpose, SignedBlobV1,
}
use canonical.Errors.{after-eq-err, err_format, err_length, err_empty, err_version, err, ok, Error}
use mathlib.Core.Path.{subst}

-- The first constraint that fails, and the error for it.
pub data IsRefused (b : SignedBlobV1) : Error → Type 0 where
  unknown_version : b.version ≢ version_v1 → IsRefused b err_version
  unknown_purpose :
      b.version ≡ version_v1 → (b.purpose <ℤ pos 1) ⊎ (pos 4 <ℤ b.purpose) → IsRefused b err_format
  no_payload :
      b.version ≡ version_v1
      → pos 1 ≤ℤ b.purpose
      → b.purpose ≤ℤ pos 4
      → b.payload ≡ []
      → IsRefused b err_empty
  wrong_width :
      b.version ≡ version_v1
      → pos 1 ≤ℤ b.purpose
      → b.purpose ≤ℤ pos 4
      → b.payload ≢ []
      → length b.value ≢ signature_len
      → IsRefused b err_length

refusal : (b : SignedBlobV1) (e : Error) → check_signed_blob_v1 b ≡ some e → IsRefused b e
unfolding check_signed_blob_v1 valid_purpose
refusal b e h = elim (Bool-cases (eqb_ℤ b.version version_v1)) [
  | inr unknown ↦ subst (IsRefused b) (ground arith) (unknown_version (λ v. ground arith))
  | inl known ↦ elim (Bool-cases (valid_purpose b.purpose)) [
    | inr foreign ↦
        subst (IsRefused b) (ground arith) (unknown_purpose (ground arith) (ground arith))
    | inl one ↦ elim (Bool-cases (length b.payload == 0)) [
      | inl gone ↦ subst (IsRefused b) (ground arith) (
          no_payload (ground arith) (ground arith) (ground arith)
            (length-eq-zero b.payload (ground arith)))
      | inr there ↦ subst (IsRefused b) (ground arith) (
          wrong_width (ground arith) (ground arith) (ground arith)
            (length-ne-zero b.payload (ground arith)) (λ w. ground arith))
    ]
  ]
]

refused : (b : SignedBlobV1) (e : Error) → IsRefused b e → check_signed_blob_v1 b ≡ some e
unfolding check_signed_blob_v1 valid_purpose
refused b e (unknown_version h) = ground arith
refused b e (unknown_purpose v h) = ground arith
refused b e (no_payload v w x gone) = rw gone (ground arith)
refused b e (wrong_width v w x there h) = ground (arith, length-eq-zero b.payload)

-- Over any encoding, for an input that passes `unmarshal` of asn1.go with a blob:
-- unmarshal_signed_blob_v1 returns an error exactly when that is the error for the first
-- constraint that fails, in the order version, purpose from 1 to 4, presence of the payload, and
-- width of the value.
pub unmarshal_signed_blob_v1_err_iff :
    (E : Encoding SignedBlobV1) (der : Bytes) (b : SignedBlobV1) (e : Error)
    → unmarshal E der ≡ ok b
    → (unmarshal_signed_blob_v1 E der ≡ err e) ↔ IsRefused b e
unfolding unmarshal_signed_blob_v1
unmarshal_signed_blob_v1_err_iff E der b e read = (
  λ h. refusal b e (after-eq-err (check_signed_blob_v1 b) b (rw read at h)),
  λ why. rw (read, refused b e why),
)
