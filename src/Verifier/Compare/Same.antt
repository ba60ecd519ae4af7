-- ===== src/Verifier/Compare/Same.antt =====
-- `compare_fields` of ci/verify_vectors.py, on the objects of Go values.
use canonical.Prelude.{◌==◌, arith, true, ℤ, bytes_equal_refl, [], ◌∷◌, ◌≡◌, refl, List, ℕ, eqb_ℤ}
use canonical.Verifier.Outcome.{returned}
use canonical.Verifier.Schema.{Name}
use canonical.Verifier.Compare.{compare_fields, compare_level, same_elements}
use canonical.Verifier.Objects.{dict_of, name_of, sig_dicts, member_dicts, certificate_dicts}
use canonical.Structures.{
  Structure, versioned, proposal_v0, signature_set_v0, Versioned, header, genesis_v1, signed_v1,
  signed_blob_v1, commit_payload_v1, client_request_v1, read_index_v1, commit_certificate_v1,
}
use canonical.Structures
use canonical.Signatures.{SignerSigV0}
use canonical.Genesis.{GenesisMemberV1}
use canonical.Request.{CertificateV1}

eqb_ℤ_refl : (i : ℤ) → eqb_ℤ i i ≡ true
eqb_ℤ_refl i = ground arith

same_count : (n : ℕ) → (n == n) ≡ true
same_count n = ground arith

ruleset same_rules = (bytes_equal_refl, eqb_ℤ_refl, same_count)

sigs_same :
    (sigs : List SignerSigV0)
    → same_elements (compare_level 1 Name.signer_sig_v0) (sig_dicts sigs) (sig_dicts sigs)
      ≡ returned tt
unfolding compare_level
sigs_same [] = refl
sigs_same (s ∷ sigs) = simp (same_rules, sigs_same sigs) refl

members_same :
    (ms : List GenesisMemberV1)
    → same_elements (compare_level 1 Name.genesis_member_v1) (member_dicts ms) (member_dicts ms)
      ≡ returned tt
unfolding compare_level
members_same [] = refl
members_same (m ∷ ms) = simp (same_rules, members_same ms) refl

certificates_same :
    (cs : List CertificateV1)
    → same_elements
        (compare_level 1 Name.certificate_v1)
        (certificate_dicts cs)
        (certificate_dicts cs)
      ≡ returned tt
unfolding compare_level
certificates_same [] = refl
certificates_same (c ∷ cs) = simp (same_rules, certificates_same cs) refl

-- The object of a Go value against itself.
pub compare_fields-dict_of :
    (s : Structure) (v : Structures.Value s)
    → compare_fields (name_of s) (dict_of s v) (dict_of s v) ≡ returned tt
unfolding compare_fields compare_level
compare_fields-dict_of (versioned header) v = simp same_rules refl
compare_fields-dict_of (versioned genesis_v1) v = simp (same_rules, members_same v.members) refl
compare_fields-dict_of (versioned signed_v1) v = simp same_rules refl
compare_fields-dict_of (versioned signed_blob_v1) v = simp same_rules refl
compare_fields-dict_of (versioned commit_payload_v1) v = simp same_rules refl
compare_fields-dict_of (versioned client_request_v1) v =
    simp (same_rules, certificates_same v.intermediates) refl
compare_fields-dict_of (versioned read_index_v1) v = simp same_rules refl
compare_fields-dict_of (versioned commit_certificate_v1) v =
    simp (same_rules, sigs_same v.sigs) refl
compare_fields-dict_of proposal_v0 v = simp same_rules refl
compare_fields-dict_of signature_set_v0 v = simp (same_rules, sigs_same v.sigs) refl
