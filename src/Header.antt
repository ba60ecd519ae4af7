-- ===== src/Header.antt =====
-- header.go: the proposal header.
pub mod Valid
use canonical.Prelude.{ℕ, Bytes, ℤ, eqb_ℤ, length, not, ◌==◌, if◌then◌else◌}
use canonical.Errors.{Result, ok, err, err_version, err_length, ◌>>=◌}
use canonical.Asn1.{Encoding, marshal, unmarshal, version_v1}

abbrev pub prev_state_root_len : ℕ
prev_state_root_len = 32

pub record Header : Type 0 where
  pub version : ℤ
  pub prev_state_root : Bytes
  pub prev_seq : ℤ
  pub consensus_time : ℤ

module _ (E : Encoding Header) where
  unfoldable pub marshal_header : Header → Result Bytes
  marshal_header h =
      if not (eqb_ℤ h.version version_v1)
      then err err_version
      else if not (length h.prev_state_root == prev_state_root_len)
      then err err_length
      else marshal E h

  unfoldable pub unmarshal_header : Bytes → Result Header
  unmarshal_header b = do
    h ← unmarshal E b
    if not (eqb_ℤ h.version version_v1)
        then err err_version
        else if not (length h.prev_state_root == prev_state_root_len)
        then err err_length
        else ok h
