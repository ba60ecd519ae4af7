-- ===== src/CommitCert/Valid.antt =====
-- Which certificates are encoded and accepted: WIRE-SPEC.md 3.13.
use canonical.Prelude.{
  Follows-head, length-eq-zero, Follows-cons, ◌∷◌, some, length-ne-zero, Follows, arith, Option,
  List, All, map, Ascending, [], ◌≢◌, ◌≤ℤ◌, pos, ◌↔◌, length, Bytes, none, ◌≡◌, ℤ,
}
use canonical.Signed.{signature_len, digest_len}
use canonical.CommitCert.{
  check_sigs, marshal_commit_certificate_v1, check_commit_certificate_v1, CommitCertificateV1,
}
use canonical.Prelude.{refl}
use canonical.Signatures.{SignerSigV0}
use canonical.Asn1.Canonical.{checked_marshal_iff}
use canonical.Asn1.{marshal, version_v1, Encoding}
use canonical.Errors.{ok}

-- The constraints on one entry of `Sigs`.
pub record IsEntry (s : SignerSigV0) : Type 0 where
  pub value_width : length s.value ≡ signature_len
  pub msg_present : s.msg ≢ []

abbrev pub signers : List SignerSigV0 → List ℤ
signers = map (λ s. s.signer)

-- The loop passes exactly the lists that ascend, from the entry before on, with good entries.
abbrev pub signer? : Option SignerSigV0 → Option ℤ
signer? none = none
signer? (some s) = some s.signer

abbrev pub IsRun : Option SignerSigV0 → List SignerSigV0 → Type 0
IsRun previous sigs =
    Follows (signer? previous) (signers sigs) × Ascending (signers sigs) × All IsEntry sigs

-- The tests of one round.
pub first_round :
    (previous : Option SignerSigV0) (s : SignerSigV0) (sigs : List SignerSigV0)
    → (check_sigs previous (s ∷ sigs) ≡ none)
      ↔ (Follows (signer? previous) (s.signer ∷ []) × IsEntry s × (check_sigs (some s) sigs ≡ none))
unfolding check_sigs
first_round none s sigs = (
  λ e. (
    tt,
    record { value_width = ground arith; msg_present = length-ne-zero s.msg (ground arith) },
    ground arith,
  ),
  λ (_, entry, e). ground (arith, length-eq-zero s.msg),
)
first_round (some p) s sigs = (
  λ e. (
    (ground arith, tt),
    record { value_width = ground arith; msg_present = length-ne-zero s.msg (ground arith) },
    ground arith,
  ),
  λ ((above, _), entry, e). ground (arith, length-eq-zero s.msg),
)

pub check_sigs_iff :
    (previous : Option SignerSigV0) (sigs : List SignerSigV0)
    → (check_sigs previous sigs ≡ none) ↔ IsRun previous sigs
check_sigs_iff none [] = (λ e. (tt, tt, tt), λ r. unfold check_sigs in refl)
check_sigs_iff (some p) [] = (λ e. (tt, tt, tt), λ r. unfold check_sigs in refl)
check_sigs_iff previous (s ∷ sigs) =
    let one = first_round previous s sigs in
    let ih = check_sigs_iff (some s) sigs in
    (
      λ e.
          let (follows, entry, rest) = one.0 e in
          let (above, ascending, entries) = ih.0 rest in
          (
            Follows-cons _ s.signer (signers sigs) follows above,
            (above, ascending),
            (entry, entries),
          ),
      λ (follows, (above, ascending), (entry, entries)).
          one.1 (
            Follows-head _ s.signer (signers sigs) follows,
            entry,
            ih.1 (above, ascending, entries),
          ),
    )

pub record IsCommitCertificateV1 (c : CommitCertificateV1) : Type 0 where
  pub version_known : c.version ≡ version_v1
  pub digest_width : length c.proposal_digest ≡ digest_len
  pub view_nonneg : pos 0 ≤ℤ c.view
  pub seq_nonneg : pos 0 ≤ℤ c.seq
  pub sigs_present : c.sigs ≢ []
  pub sigs_ascending : Ascending (signers c.sigs)
  pub sigs_complete : All IsEntry c.sigs

pub check_commit_certificate_v1-IsCommitCertificateV1 :
    (c : CommitCertificateV1) → (check_commit_certificate_v1 c ≡ none) ↔ IsCommitCertificateV1 c
unfolding check_commit_certificate_v1
check_commit_certificate_v1-IsCommitCertificateV1 c =
    let loop = check_sigs_iff none c.sigs in
    (
      λ e.
          let h = loop.0 (ground arith) in
          record {
            version_known = ground arith;
            digest_width = ground arith;
            view_nonneg = ground arith;
            seq_nonneg = ground arith;
            sigs_present = length-ne-zero c.sigs (ground arith);
            sigs_ascending = h.1;
            sigs_complete = h.2;
          },
      λ v.
          let h = loop.1 (tt, v.sigs_ascending, v.sigs_complete) in
          ground (arith, length-eq-zero c.sigs),
    )

module _ (E : Encoding CommitCertificateV1) where
  -- Over any encoding, marshal_commit_certificate_v1 gives bytes exactly when asn1.Marshal gives
  -- them and the certificate has version 1, a 32-byte digest, a view and a sequence number that
  -- are not negative, and signatures, at least one, in strictly ascending order of signers, each
  -- with a 64-byte value and a message.
  pub marshal_commit_certificate_v1_iff :
      (c : CommitCertificateV1) (b : Bytes)
      → (marshal_commit_certificate_v1 E c ≡ ok b)
        ↔ (IsCommitCertificateV1 c × (marshal E c ≡ ok b))
  unfolding marshal_commit_certificate_v1
  marshal_commit_certificate_v1_iff c b =
      checked_marshal_iff E check_commit_certificate_v1 c b
        (check_commit_certificate_v1-IsCommitCertificateV1 c)
