-- ===== src/Header/Valid.antt =====
-- Which headers `marshal_header` encodes and `unmarshal_header` accepts: WIRE-SPEC.md 3.1.
use canonical.Errors.{err_length, err_version, ok, Error}
use canonical.Prelude.{
  ◌==◌, some, eqb_ℤ, not, if◌then◌else◌, length, arith, Bytes, none, Option, ◌≡◌, ◌↔◌,
}
use canonical.Asn1.Canonical.{checked_marshal_iff, checked_unmarshal, checked_marshal}
use canonical.Asn1.{marshal, version_v1, Encoding}
use canonical.Header.{prev_state_root_len, Header, marshal_header, unmarshal_header}

pub record IsHeader (h : Header) : Type 0 where
  pub version_known : h.version ≡ version_v1
  pub root_width : length h.prev_state_root ≡ prev_state_root_len

-- The checks that the two functions of header.go repeat.
abbrev pub check_header : Header → Option Error
check_header h =
    if not (eqb_ℤ h.version version_v1)
    then some err_version
    else if not (length h.prev_state_root == prev_state_root_len)
    then some err_length
    else none

check_header-IsHeader : (h : Header) → (check_header h ≡ none) ↔ IsHeader h
check_header-IsHeader h = (λ e. ground arith, λ v. ground arith)

module _ (E : Encoding Header) where
  pub marshal_header-checked : (h : Header) → marshal_header E h ≡ checked_marshal E check_header h
  unfolding marshal_header
  marshal_header-checked h = ground arith

  pub unmarshal_header-checked :
      (b : Bytes) → unmarshal_header E b ≡ checked_unmarshal E check_header b
  unfolding unmarshal_header
  unmarshal_header-checked b = ground arith

  -- Over any encoding, marshal_header gives bytes exactly when asn1.Marshal gives them and the
  -- header has version 1 and a 32-byte previous state root.
  pub marshal_header_iff :
      (h : Header) (b : Bytes) → (marshal_header E h ≡ ok b) ↔ (IsHeader h × (marshal E h ≡ ok b))
  marshal_header_iff h b =
      rw marshal_header-checked (checked_marshal_iff E check_header h b (check_header-IsHeader h))
