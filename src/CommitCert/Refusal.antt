-- ===== src/CommitCert/Refusal.antt =====
-- The errors of checkCommitCertificateV1 of commitcert.go, by the constraint that fails first.
use canonical.Prelude.{
  ◌∷◌, length-append, ◌||◌, ltb_ℤ, length-eq-zero, ◌↔◌, ◌==◌, ◌≤ℤ◌, ◌<ℤ◌, inl, ◌∙◌, sym, pos, eqb_ℤ,
  ap, inr, arith, Bool-cases, ◌≢◌, some, none, [], Bytes, ◌⊎◌, ◌≡◌, length, List,
}
use canonical.Errors.{after-eq-err, err_range, err, ok, err_length, err_version, err_empty, Error}
use canonical.Asn1.{unmarshal, version_v1, Encoding}
use canonical.Signed.{digest_len}
use canonical.CommitCert.{
  check_sigs, unmarshal_commit_certificate_v1, check_commit_certificate_v1, CommitCertificateV1,
}
use canonical.Signatures.{SignerSigV0}
use mathlib.Core.Path.{subst}
use canonical.CommitCert.Faults.{FirstFault, check_sigs_fault_iff}

-- What the loop over the signatures is behind.
pub record IsFramed (c : CommitCertificateV1) : Type 0 where
  pub version_known : c.version ≡ version_v1
  pub digest_width : length c.proposal_digest ≡ digest_len
  pub view_nonneg : pos 0 ≤ℤ c.view
  pub seq_nonneg : pos 0 ≤ℤ c.seq

-- The first constraint that fails, and the error for it.
pub data IsRefused (c : CommitCertificateV1) : Error → Type 0 where
  unknown_version : c.version ≢ version_v1 → IsRefused c err_version
  wrong_digest :
      c.version ≡ version_v1 → length c.proposal_digest ≢ digest_len → IsRefused c err_length
  negative :
      c.version ≡ version_v1
      → length c.proposal_digest ≡ digest_len
      → (c.view <ℤ pos 0) ⊎ (c.seq <ℤ pos 0)
      → IsRefused c err_range
  no_sigs : IsFramed c → c.sigs ≡ [] → IsRefused c err_empty
  bad_entry : (e : Error) → IsFramed c → FirstFault none c.sigs e → IsRefused c e

-- The tests before the loop pass, or one of them is the first to fail.
frame_cases :
    (c : CommitCertificateV1)
    → IsFramed c ⊎ ((e : Error) × IsRefused c e × (check_commit_certificate_v1 c ≡ some e))
unfolding check_commit_certificate_v1
frame_cases c = elim (Bool-cases (eqb_ℤ c.version version_v1)) [
  | inr unknown ↦ inr (err_version, unknown_version (λ e. ground arith), ground arith)
  | inl known ↦ elim (Bool-cases (length c.proposal_digest == digest_len)) [
    | inr wrong ↦ inr (err_length, wrong_digest (ground arith) (λ e. ground arith), ground arith)
    | inl width ↦ elim (Bool-cases (ltb_ℤ c.view (pos 0) || ltb_ℤ c.seq (pos 0))) [
      | inl below ↦
          inr (err_range, negative (ground arith) (ground arith) (ground arith), ground arith)
      | inr above ↦ inl (record {
        version_known = ground arith;
        digest_width = ground arith;
        view_nonneg = ground arith;
        seq_nonneg = ground arith;
      })
    ]
  ]
]

framed_empty :
    (c : CommitCertificateV1)
    → IsFramed c
    → c.sigs ≡ []
    → check_commit_certificate_v1 c ≡ some err_empty
unfolding check_commit_certificate_v1
framed_empty c v gone = let none_left : length c.sigs ≡ 0 = ap length gone in ground arith

framed_entries :
    (c : CommitCertificateV1)
    → IsFramed c
    → length c.sigs ≢ 0
    → check_commit_certificate_v1 c ≡ check_sigs none c.sigs
unfolding check_commit_certificate_v1
framed_entries c v there = ground arith

fault_present : (sigs : List SignerSigV0) (e : Error) → FirstFault none sigs e → length sigs ≢ 0
fault_present sigs e f gone =
    omega (arith, gone, ap length f.split, length-append f.before (f.entry ∷ f.behind))

refusal :
    (c : CommitCertificateV1) (e : Error) → check_commit_certificate_v1 c ≡ some e → IsRefused c e
refusal c e h = elim (frame_cases c) [
  | inr (f, why, reported) ↦
      let both : some f ≡ some e = sym reported ∙ h in subst (IsRefused c) (cc) why
  | inl v ↦ elim (Bool-cases (length c.sigs == 0)) [
    | inl gone ↦
        let empty : c.sigs ≡ [] = length-eq-zero c.sigs (ground arith) in
        let both : some err_empty ≡ some e = sym (framed_empty c v empty) ∙ h in
        subst (IsRefused c) (cc) (no_sigs v empty)
    | inr there ↦
        bad_entry e v
          ((check_sigs_fault_iff c.sigs e).0 (sym (framed_entries c v (λ z. ground arith)) ∙ h))
  ]
]

refused :
    (c : CommitCertificateV1) (e : Error) → IsRefused c e → check_commit_certificate_v1 c ≡ some e
refused c e (unknown_version h) = unfold check_commit_certificate_v1 in ground arith
refused c e (wrong_digest v h) = unfold check_commit_certificate_v1 in ground arith
refused c e (negative v w h) = unfold check_commit_certificate_v1 in ground arith
refused c e (no_sigs v gone) = framed_empty c v gone
refused c e (bad_entry f v first) =
    framed_entries c v (fault_present c.sigs e first) ∙ (check_sigs_fault_iff c.sigs e).1 first

-- Over any encoding, for an input that passes `unmarshal` of asn1.go with a certificate:
-- unmarshal_commit_certificate_v1 returns an error exactly when that is the error for the first
-- constraint that fails, in the order version, digest width, signs of view and sequence number,
-- presence of signatures, and then the first entry at fault behind entries that are not: a signer
-- not above the one before, a value that is not 64 bytes, or an empty message.
pub unmarshal_commit_certificate_v1_err_iff :
    (E : Encoding CommitCertificateV1) (b : Bytes) (c : CommitCertificateV1) (e : Error)
    → unmarshal E b ≡ ok c
    → (unmarshal_commit_certificate_v1 E b ≡ err e) ↔ IsRefused c e
unfolding unmarshal_commit_certificate_v1
unmarshal_commit_certificate_v1_err_iff E b c e read = (
  λ h. refusal c e (after-eq-err (check_commit_certificate_v1 c) c (rw read at h)),
  λ why. rw (read, refused c e why),
)
