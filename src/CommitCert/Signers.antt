-- ===== src/CommitCert/Signers.antt =====
-- What a client may count on in an accepted certificate: commitcert.go.
use canonical.Prelude.{Ascending-injective, some, get_elem?, ◌≡◌, Bytes, ℕ}
use canonical.CommitCert.Valid.{
  check_commit_certificate_v1-IsCommitCertificateV1, IsCommitCertificateV1,
}
use canonical.CommitCert.{
  check_commit_certificate_v1, unmarshal_commit_certificate_v1, CommitCertificateV1,
}
use canonical.Asn1.Canonical.{checked_marshal-unmarshal}
use canonical.Signatures.{SignerSigV0}
use canonical.Errors.{ok}
use canonical.Asn1.{Encoding}

module _ (E : Encoding CommitCertificateV1) (b : Bytes) (c : CommitCertificateV1)
    (accepted : unmarshal_commit_certificate_v1 E b ≡ ok c) where
  pub certificate_constraints : IsCommitCertificateV1 c
  unfolding unmarshal_commit_certificate_v1
  certificate_constraints =
      let (passed, _) = checked_marshal-unmarshal E check_commit_certificate_v1 b c accepted in
      (check_commit_certificate_v1-IsCommitCertificateV1 c).0 passed

  -- In a certificate that unmarshal_commit_certificate_v1 accepts, over any encoding: two entries
  -- of `sigs` that have one signer stand at one position.
  pub signers_distinct :
      (i j : ℕ) (s t : SignerSigV0)
      → get_elem? c.sigs i ≡ some s
      → get_elem? c.sigs j ≡ some t
      → s.signer ≡ t.signer
      → i ≡ j
  signers_distinct i j s t at_i at_j same =
      Ascending-injective (λ e. e.signer) c.sigs i j certificate_constraints.sigs_ascending at_i
        at_j same
