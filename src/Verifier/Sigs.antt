-- ===== src/Verifier/Sigs.antt =====
-- `_check_commit_cert` and `_check_cert_msg` of ci/verify_vectors.py, on the entries of a certificate.
use canonical.Prelude.{
  ◌==◌, [], ◌∷◌, List, Bytes, pos, ◌≡◌, ◌^◌, ◌≤◌, ◌≢◌, refl, none, false, arith, length,
  length-eq-zero, length-ne-zero, All,
}
use canonical.Verifier.Checks.{is_falsy, check_octets, check_nonempty, ids_of, check_ascending}
use canonical.Verifier.CertMsg.{IsPlain, IsBound, sig_dict, check_cert_msg-Post, check_cert_msg-eq}
use canonical.Verifier.Printable.{IsPrintable, IsPrintableDicts}
use canonical.Verifier.Members.{AllPrintable, pairs_ends, check_pairs-Ascending}
use canonical.Verifier.Outcome.{
  Post-ends, Post-returned, returned, broken, out_of_fuel, Post, >>=-Post, Post-intro, Post-map,
  Post-if,
}
use canonical.Verifier.Objects.{dict_of, sig_dicts}
use canonical.Verifier.Schema.{list, Name, Key}
use canonical.Verifier.Validate.{
  validate, check_structure, check_cert_msg, check_sigs, check_commit_cert,
}
use canonical.Octets.{IsOctets}
use canonical.Structures.{versioned, commit_certificate_v1}
use canonical.Signatures.{SignerSigV0}
use canonical.CommitCert.{CommitCertificateV1, check_commit_certificate_v1}
use canonical.CommitCert.Valid.{IsEntry, signers, check_commit_certificate_v1-IsCommitCertificateV1}

abbrev pub IsReadable : SignerSigV0 → Type 0
IsReadable s = IsOctets s.msg × (length s.msg ≤ 2 ^ 32) × IsPlain s.msg

abbrev pub IsGood : Bytes → SignerSigV0 → Type 0
IsGood digest s = IsEntry s × IsBound digest s

value-Post :
    (s : SignerSigV0) → Post (λ _. length s.value ≡ 64) (check_octets (sig_dict s) Key.value 64)
value-Post s = Post-if _ (length s.value == 64) _ _ (λ h. ground arith) (λ h. tt)

msg-Post : (s : SignerSigV0) → Post (λ _. s.msg ≢ []) (check_nonempty (sig_dict s) Key.msg)
msg-Post s =
    Post-intro (λ _. s.msg ≢ []) (check_nonempty (sig_dict s) Key.msg)
      (λ h. ground arith, λ h. ground arith) (λ _ h. length-ne-zero s.msg (ground arith))

check_sigs-Post :
    (digest : Bytes) (sigs : List SignerSigV0)
    → All IsReadable sigs
    → Post (λ _. All (IsGood digest) sigs) (check_sigs digest (sig_dicts sigs))
unfolding check_sigs
check_sigs-Post digest [] h = tt
check_sigs-Post digest (s ∷ sigs) ((bounded, small, plain), more) =
    >>=-Post _ _ (check_octets (sig_dict s) Key.value 64) _ (value-Post s) λ _ value.
      >>=-Post _ _ (check_nonempty (sig_dict s) Key.msg) _ (msg-Post s) λ _ present.
        >>=-Post _ _ (check_cert_msg digest (sig_dict s)) _
          (check_cert_msg-Post digest s bounded small plain)
          λ _ bound.
            Post-map _ _ (check_sigs digest (sig_dicts sigs))
              (λ _ good. ((record { value_width = value; msg_present = present }, bound), good))
              (check_sigs-Post digest sigs more)

check_sigs-eq :
    (digest : Bytes) (sigs : List SignerSigV0)
    → All IsReadable sigs
    → All (IsGood digest) sigs
    → check_sigs digest (sig_dicts sigs) ≡ returned tt
unfolding check_sigs
check_sigs-eq digest [] h k = refl
check_sigs-eq digest (s ∷ sigs) ((bounded, _, plain), more) ((one, bound), good) = ground (
  arith,
  one.value_width,
  one.msg_present,
  length-eq-zero s.msg,
  check_cert_msg-eq digest s bounded plain bound,
  check_sigs-eq digest sigs more good,
)

ids_of-sig_dicts :
    (sigs : List SignerSigV0) → ids_of (sig_dicts sigs) Key.signer ≡ returned (signers sigs)
unfolding ids_of
ids_of-sig_dicts [] = refl
ids_of-sig_dicts (s ∷ sigs) = rw (ids_of-sig_dicts sigs)

-- Every entry is bound to the certificate's proposal.
abbrev pub IsBoundCertificate : CommitCertificateV1 → Type 0
IsBoundCertificate c = All (IsBound c.proposal_digest) c.sigs

All-both :
    (digest : Bytes) (sigs : List SignerSigV0)
    → All IsEntry sigs
    → All (IsBound digest) sigs
    → All (IsGood digest) sigs
All-both digest [] h k = tt
All-both digest (s ∷ sigs) (h, hs) (k, ks) = ((h, k), All-both digest sigs hs ks)

All-split :
    (digest : Bytes) (sigs : List SignerSigV0)
    → All (IsGood digest) sigs
    → All IsEntry sigs × All (IsBound digest) sigs
All-split digest [] h = (tt, tt)
All-split digest (s ∷ sigs) ((h, k), more) =
    let rest = All-split digest sigs more in ((h, rest.0), (k, rest.1))

present_lem : (sigs : List SignerSigV0) → is_falsy (list (sig_dicts sigs)) ≡ false → sigs ≢ []
present_lem [] h e = cc
present_lem (s ∷ sigs) h e = cc

AllPrintable-signers :
    (sigs : List SignerSigV0) → IsPrintableDicts (sig_dicts sigs) → AllPrintable (signers sigs)
AllPrintable-signers [] p = tt
AllPrintable-signers (s ∷ sigs) ((id, _), more) = (id, AllPrintable-signers sigs more)

module _ (c : CommitCertificateV1) (readable : All IsReadable c.sigs)
    (printable : IsPrintable (dict_of (versioned commit_certificate_v1) c)) where
  sigs_ends :
      (check_sigs c.proposal_digest (sig_dicts c.sigs) ≢ out_of_fuel)
      × (check_sigs c.proposal_digest (sig_dicts c.sigs) ≢ broken)
  sigs_ends = Post-ends _ _ (check_sigs-Post c.proposal_digest c.sigs readable)

  passed :
      check_commit_cert (dict_of (versioned commit_certificate_v1) c) ≡ returned tt
      → c.version ≡ pos 1
      → (check_commit_certificate_v1 c ≡ none) × IsBoundCertificate c
  unfolding check_commit_cert check_ascending
  passed h version =
      let ids = ids_of-sig_dicts c.sigs in
      let good =
        Post-returned _ (check_sigs c.proposal_digest (sig_dicts c.sigs)) tt
          (check_sigs-Post c.proposal_digest c.sigs readable) (ground arith) in
      let (entries, bound) = All-split c.proposal_digest c.sigs good in
      (
        (check_commit_certificate_v1-IsCommitCertificateV1 c).1 record {
          version_known = version;
          digest_width = ground arith;
          view_nonneg = ground arith;
          seq_nonneg = ground arith;
          sigs_present = present_lem c.sigs (ground arith);
          sigs_ascending = (check_pairs-Ascending (signers c.sigs)).0 (ground arith);
          sigs_complete = entries;
        },
        bound,
      )

  pub validate_certificate-Post :
      Post
        (λ _. (check_commit_certificate_v1 c ≡ none) × IsBoundCertificate c)
        (validate Name.commit_certificate_v1 (dict_of (versioned commit_certificate_v1) c))
  unfolding validate check_structure check_commit_cert check_ascending
  validate_certificate-Post =
      let ids = ids_of-sig_dicts c.sigs in
      let (pairs_within, pairs_whole) =
        pairs_ends (signers c.sigs) (AllPrintable-signers c.sigs printable.1.1.1.1.0) in
      let version = printable.0 in
      let view = printable.1.1.0 in
      let seq = printable.1.1.1.0 in
      let (sigs_within, sigs_whole) = sigs_ends in
      Post-intro (λ _. (check_commit_certificate_v1 c ≡ none) × IsBoundCertificate c)
        (validate Name.commit_certificate_v1 (dict_of (versioned commit_certificate_v1) c))
        (λ h. ground arith, λ h. ground arith) (λ _ h. passed (ground arith) (ground arith))

  pub validate_certificate-eq :
      check_commit_certificate_v1 c ≡ none
      → IsBoundCertificate c
      → validate Name.commit_certificate_v1 (dict_of (versioned commit_certificate_v1) c)
        ≡ returned tt
  unfolding validate check_structure check_commit_cert check_ascending
  validate_certificate-eq valid bound =
      let v = (check_commit_certificate_v1-IsCommitCertificateV1 c).0 valid in
      let ids = ids_of-sig_dicts c.sigs in
      let loop =
        check_sigs-eq c.proposal_digest c.sigs readable (All-both _ c.sigs v.sigs_complete bound) in
      let pairs = (check_pairs-Ascending (signers c.sigs)).1 v.sigs_ascending in
      ground (arith, v.version_known, v.digest_width, v.view_nonneg, v.seq_nonneg)
