-- ===== src/Attest.antt =====
-- attest.go: the read-index attestation.
pub mod Valid
pub mod Refusal
use canonical.Prelude.{ℕ, Bytes, ℤ, pos, eqb_ℤ, ltb_ℤ, leb_ℤ, length, not, ◌||◌, ◌==◌}
use canonical.Prelude.{Option, none, some, if◌then◌else◌}
use canonical.Errors.{Error, Result, ok, err_version, err_range, err_length, ◌>>=◌, after}
use canonical.Asn1.{Encoding, marshal, unmarshal, version_v1}

abbrev pub nonce_len : ℕ
nonce_len = 16

pub record ReadIndexV1 : Type 0 where
  pub version : ℤ
  pub signer_id : ℤ
  pub view : ℤ
  pub seq : ℤ
  pub nonce : Bytes

unfoldable pub check_read_index_v1 : ReadIndexV1 → Option Error
check_read_index_v1 r =
    if not (eqb_ℤ r.version version_v1)
    then some err_version
    else if leb_ℤ r.signer_id (pos 0)
    then some err_range
    else if ltb_ℤ r.view (pos 0) || ltb_ℤ r.seq (pos 0)
    then some err_range
    else if not (length r.nonce == nonce_len)
    then some err_length
    else none

module _ (E : Encoding ReadIndexV1) where
  unfoldable pub marshal_read_index_v1 : ReadIndexV1 → Result Bytes
  marshal_read_index_v1 r = after (check_read_index_v1 r) (marshal E r)

  unfoldable pub unmarshal_read_index_v1 : Bytes → Result ReadIndexV1
  unmarshal_read_index_v1 b = do r ← unmarshal E b; after (check_read_index_v1 r) (ok r)
