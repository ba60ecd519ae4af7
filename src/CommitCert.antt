-- ===== src/CommitCert.antt =====
-- commitcert.go: the commit certificate.
pub mod Valid
pub mod Signers
pub mod Faults
pub mod Refusal
pub mod Quorum
use canonical.Prelude.{Bytes, ℤ, pos, eqb_ℤ, ltb_ℤ, leb_ℤ, length, not, ◌||◌, ◌==◌}
use canonical.Prelude.{Bool, false, List, [], ◌∷◌, Option, none, some, if◌then◌else◌}
use canonical.Errors.{Error, Result, ok, err_version, err_range, err_length, err_empty, err_order}
use canonical.Errors.{◌>>=◌, after}
use canonical.Asn1.{Encoding, marshal, unmarshal, version_v1}
use canonical.Signatures.{SignerSigV0}
use canonical.Signed.{digest_len, signature_len}

pub record CommitCertificateV1 : Type 0 where
  pub version : ℤ
  pub proposal_digest : Bytes
  pub view : ℤ
  pub seq : ℤ
  pub sigs : List SignerSigV0

-- `i > 0 && s.Signer <= c.Sigs[i-1].Signer`, where `previous` is the entry before, if any.
abbrev pub out_of_order : Option SignerSigV0 → SignerSigV0 → Bool
out_of_order none s = false
out_of_order (some p) s = leb_ℤ s.signer p.signer

-- The loop over `c.Sigs`.
unfoldable pub check_sigs : Option SignerSigV0 → List SignerSigV0 → Option Error
check_sigs previous [] = none
check_sigs previous (s ∷ sigs) =
    if out_of_order previous s
    then some err_order
    else if not (length s.value == signature_len)
    then some err_length
    else if length s.msg == 0
    then some err_empty
    else check_sigs (some s) sigs

unfoldable pub check_commit_certificate_v1 : CommitCertificateV1 → Option Error
check_commit_certificate_v1 c =
    if not (eqb_ℤ c.version version_v1)
    then some err_version
    else if not (length c.proposal_digest == digest_len)
    then some err_length
    else if ltb_ℤ c.view (pos 0) || ltb_ℤ c.seq (pos 0)
    then some err_range
    else if length c.sigs == 0
    then some err_empty
    else check_sigs none c.sigs

module _ (E : Encoding CommitCertificateV1) where
  unfoldable pub marshal_commit_certificate_v1 : CommitCertificateV1 → Result Bytes
  marshal_commit_certificate_v1 c = after (check_commit_certificate_v1 c) (marshal E c)

  unfoldable pub unmarshal_commit_certificate_v1 : Bytes → Result CommitCertificateV1
  unmarshal_commit_certificate_v1 b = do
    c ← unmarshal E b
    after (check_commit_certificate_v1 c) (ok c)
