-- ===== src/Attest/Valid.antt =====
-- Which attestations are encoded and accepted: WIRE-SPEC.md 3.12.
use canonical.Asn1.Canonical.{checked_marshal_iff}
use canonical.Asn1.{marshal, version_v1, Encoding}
use canonical.Prelude.{◌≤ℤ◌, length, ◌<ℤ◌, arith, ◌↔◌, pos, Bytes, none, ◌≡◌}
use canonical.Attest.{nonce_len, marshal_read_index_v1, check_read_index_v1, ReadIndexV1}
use canonical.Errors.{ok}

pub record IsReadIndexV1 (r : ReadIndexV1) : Type 0 where
  pub version_known : r.version ≡ version_v1
  pub signer_positive : pos 0 <ℤ r.signer_id
  pub view_nonneg : pos 0 ≤ℤ r.view
  pub seq_nonneg : pos 0 ≤ℤ r.seq
  pub nonce_width : length r.nonce ≡ nonce_len

check_read_index_v1-IsReadIndexV1 :
    (r : ReadIndexV1) → (check_read_index_v1 r ≡ none) ↔ IsReadIndexV1 r
unfolding check_read_index_v1
check_read_index_v1-IsReadIndexV1 r = (λ e. ground arith, λ v. ground arith)

module _ (E : Encoding ReadIndexV1) where
  -- Over any encoding, marshal_read_index_v1 gives bytes exactly when asn1.Marshal gives them and
  -- the attestation has version 1, a signer above 0, a view and a sequence number that are not
  -- negative, and a 16-byte nonce.
  pub marshal_read_index_v1_iff :
      (r : ReadIndexV1) (b : Bytes)
      → (marshal_read_index_v1 E r ≡ ok b) ↔ (IsReadIndexV1 r × (marshal E r ≡ ok b))
  unfolding marshal_read_index_v1
  marshal_read_index_v1_iff r b =
      checked_marshal_iff E check_read_index_v1 r b (check_read_index_v1-IsReadIndexV1 r)
