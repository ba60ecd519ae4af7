-- ===== src/Signed/Purpose.antt =====
-- The purposes that ValidPurpose admits: WIRE-SPEC.md 3.8.1.
use canonical.Signed.{
  purpose_read_index, purpose_client_request, purpose_opaque_sign, purpose_commit_sig,
}
use canonical.Prelude.{◌⊎◌, ◌≡◌, ℤ}

abbrev pub IsPurpose : ℤ → Type 0
IsPurpose p =
    (p ≡ purpose_commit_sig)
    ⊎ (p ≡ purpose_opaque_sign)
    ⊎ (p ≡ purpose_client_request)
    ⊎ (p ≡ purpose_read_index)
