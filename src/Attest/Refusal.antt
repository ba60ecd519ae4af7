-- ===== src/Attest/Refusal.antt =====
-- The errors of checkReadIndexV1 of attest.go, by the constraint that fails first.
use canonical.Prelude.{
  ◌<ℤ◌, ◌≤ℤ◌, ◌||◌, leb_ℤ, ltb_ℤ, eqb_ℤ, ◌⊎◌, inl, inr, Bool-cases, length, arith, ◌↔◌, ◌≢◌, pos,
  Bytes, some, ◌≡◌,
}
use canonical.Asn1.{unmarshal, version_v1, Encoding}
use canonical.Attest.{nonce_len, unmarshal_read_index_v1, check_read_index_v1, ReadIndexV1}
use canonical.Errors.{after-eq-err, err_range, err_length, err_version, err, ok, Error}
use mathlib.Core.Path.{subst}

-- The first constraint that fails, and the error for it.
pub data IsRefused (r : ReadIndexV1) : Error → Type 0 where
  unknown_version : r.version ≢ version_v1 → IsRefused r err_version
  no_signer : r.version ≡ version_v1 → r.signer_id ≤ℤ pos 0 → IsRefused r err_range
  negative :
      r.version ≡ version_v1
      → pos 0 <ℤ r.signer_id
      → (r.view <ℤ pos 0) ⊎ (r.seq <ℤ pos 0)
      → IsRefused r err_range
  wrong_nonce :
      r.version ≡ version_v1
      → pos 0 <ℤ r.signer_id
      → pos 0 ≤ℤ r.view
      → pos 0 ≤ℤ r.seq
      → length r.nonce ≢ nonce_len
      → IsRefused r err_length

refusal : (r : ReadIndexV1) (e : Error) → check_read_index_v1 r ≡ some e → IsRefused r e
unfolding check_read_index_v1
refusal r e h = elim (Bool-cases (eqb_ℤ r.version version_v1)) [
  | inr unknown ↦ subst (IsRefused r) (ground arith) (unknown_version (λ v. ground arith))
  | inl known ↦ elim (Bool-cases (leb_ℤ r.signer_id (pos 0))) [
    | inl low ↦ subst (IsRefused r) (ground arith) (no_signer (ground arith) (ground arith))
    | inr high ↦ elim (Bool-cases (ltb_ℤ r.view (pos 0) || ltb_ℤ r.seq (pos 0))) [
      | inl below ↦
          subst (IsRefused r) (ground arith) (negative (ground arith) (ground arith) (ground arith))
      | inr above ↦ subst (IsRefused r) (ground arith) (
          wrong_nonce (ground arith) (ground arith) (ground arith) (ground arith)
            (λ w. ground arith))
    ]
  ]
]

refused : (r : ReadIndexV1) (e : Error) → IsRefused r e → check_read_index_v1 r ≡ some e
unfolding check_read_index_v1
refused r e (unknown_version h) = ground arith
refused r e (no_signer v h) = ground arith
refused r e (negative v w h) = ground arith
refused r e (wrong_nonce v w x y h) = ground arith

-- Over any encoding, for an input that passes `unmarshal` of asn1.go with an attestation:
-- unmarshal_read_index_v1 returns an error exactly when that is the error for the first
-- constraint that fails, in the order version, signer above 0, signs of view and sequence number,
-- and width of the nonce.
pub unmarshal_read_index_v1_err_iff :
    (E : Encoding ReadIndexV1) (b : Bytes) (r : ReadIndexV1) (e : Error)
    → unmarshal E b ≡ ok r
    → (unmarshal_read_index_v1 E b ≡ err e) ↔ IsRefused r e
unfolding unmarshal_read_index_v1
unmarshal_read_index_v1_err_iff E b r e read = (
  λ h. refusal r e (after-eq-err (check_read_index_v1 r) r (rw read at h)),
  λ why. rw (read, refused r e why),
)
