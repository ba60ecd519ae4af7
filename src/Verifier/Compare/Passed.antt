-- ===== src/Verifier/Compare/Passed.antt =====
-- `compare_fields` of ci/verify_vectors.py: the values whose objects pass are the same.
use canonical.Verifier.Compare.Steps.{list_same, octets_eq, number_eq, level_same, AllPass}
use mathlib.Core.Path.{ap₂}
use canonical.Prelude.{◌∙◌, sym, arith, [], ◌∷◌, ◌≡◌, refl, ap, List, ◌↔◌}
use canonical.Verifier.Compare.{compare_fields, compare_level, same_elements}
use canonical.Verifier.Compare.Same.{compare_fields-dict_of}
use canonical.Verifier.Schema.{Name, schemas}
use canonical.Verifier.Outcome.{returned, >>=-returned}
use canonical.Verifier.Checks.{count}
use canonical.Verifier.Objects.{dict_of, name_of, sig_dicts, member_dicts, certificate_dicts}
use canonical.Structures.{
  Structure, versioned, proposal_v0, signature_set_v0, Versioned, header, genesis_v1, signed_v1,
  signed_blob_v1, commit_payload_v1, client_request_v1, read_index_v1, commit_certificate_v1,
}
use canonical.Structures
use canonical.Signatures.{SignerSigV0}
use canonical.Genesis.{GenesisMemberV1}
use canonical.Request.{CertificateV1}

sigs_eq :
    (xs ys : List SignerSigV0)
    → count (sig_dicts xs) ≡ count (sig_dicts ys)
    → same_elements (compare_level 1 Name.signer_sig_v0) (sig_dicts xs) (sig_dicts ys) ≡ returned tt
    → xs ≡ ys
sigs_eq [] [] n h = refl
sigs_eq [] (y ∷ ys) n h = absurd (omega arith)
sigs_eq (x ∷ xs) [] n h = absurd (omega arith)
sigs_eq (x ∷ xs) (y ∷ ys) n h =
    let (u, one, more) = >>=-returned (compare_level 1 Name.signer_sig_v0 _ _) _ tt h in
    let (a, (b, (c, _))) = level_same 0 Name.signer_sig_v0 _ _ u one in
    let signer_ = number_eq (compare_level 0) x.signer y.signer a in
    let value_ = octets_eq (compare_level 0) x.value y.value b in
    let msg_ = octets_eq (compare_level 0) x.msg y.msg c in
    let tails = sigs_eq xs ys (omega arith) more in let same : x ≡ y = cc in ap₂ ◌∷◌ same tails

members_eq :
    (xs ys : List GenesisMemberV1)
    → count (member_dicts xs) ≡ count (member_dicts ys)
    → same_elements (compare_level 1 Name.genesis_member_v1) (member_dicts xs) (member_dicts ys)
      ≡ returned tt
    → xs ≡ ys
members_eq [] [] n h = refl
members_eq [] (y ∷ ys) n h = absurd (omega arith)
members_eq (x ∷ xs) [] n h = absurd (omega arith)
members_eq (x ∷ xs) (y ∷ ys) n h =
    let (u, one, more) = >>=-returned (compare_level 1 Name.genesis_member_v1 _ _) _ tt h in
    let (a, (b, (c, _))) = level_same 0 Name.genesis_member_v1 _ _ u one in
    let node_id_ = number_eq (compare_level 0) x.node_id y.node_id a in
    let spiffe_id_ = octets_eq (compare_level 0) x.spiffe_id y.spiffe_id b in
    let leaf_pub_key_ = octets_eq (compare_level 0) x.leaf_pub_key y.leaf_pub_key c in
    let tails = members_eq xs ys (omega arith) more in let same : x ≡ y = cc in ap₂ ◌∷◌ same tails

certificates_eq :
    (xs ys : List CertificateV1)
    → count (certificate_dicts xs) ≡ count (certificate_dicts ys)
    → same_elements
        (compare_level 1 Name.certificate_v1)
        (certificate_dicts xs)
        (certificate_dicts ys)
      ≡ returned tt
    → xs ≡ ys
certificates_eq [] [] n h = refl
certificates_eq [] (y ∷ ys) n h = absurd (omega arith)
certificates_eq (x ∷ xs) [] n h = absurd (omega arith)
certificates_eq (x ∷ xs) (y ∷ ys) n h =
    let (u, one, more) = >>=-returned (compare_level 1 Name.certificate_v1 _ _) _ tt h in
    let (a, _) = level_same 0 Name.certificate_v1 _ _ u one in
    let der_ = octets_eq (compare_level 0) x.der y.der a in
    let tails = certificates_eq xs ys (omega arith) more in
    let same : x ≡ y = cc in ap₂ ◌∷◌ same tails

all_same_eq :
    (s : Structure) (v w : Structures.Value s)
    → AllPass (compare_level 1) (schemas (name_of s)) (dict_of s v) (dict_of s w)
    → v ≡ w
all_same_eq (versioned header) v w (a, (b, (c, (d, _)))) =
    let version_ = number_eq (compare_level 1) v.version w.version a in
    let prev_state_root_ = octets_eq (compare_level 1) v.prev_state_root w.prev_state_root b in
    let prev_seq_ = number_eq (compare_level 1) v.prev_seq w.prev_seq c in
    let consensus_time_ = number_eq (compare_level 1) v.consensus_time w.consensus_time d in cc
all_same_eq (versioned genesis_v1) v w (a, (b, (c, (d, (e, _))))) =
    let version_ = number_eq (compare_level 1) v.version w.version a in
    let trust_domain_ = octets_eq (compare_level 1) v.trust_domain w.trust_domain b in
    let ca_root_ = octets_eq (compare_level 1) v.ca_root w.ca_root c in
    let max_nodes_ = number_eq (compare_level 1) v.max_nodes w.max_nodes d in
    let (n, inside) =
      list_same (compare_level 1) Name.genesis_member_v1 (member_dicts v.members)
        (member_dicts w.members) e in
    let members_ = members_eq v.members w.members n inside in cc
all_same_eq (versioned signed_v1) v w (a, (b, (c, (d, _)))) =
    let version_ = number_eq (compare_level 1) v.version w.version a in
    let purpose_ = number_eq (compare_level 1) v.purpose w.purpose b in
    let genesis_digest_ = octets_eq (compare_level 1) v.genesis_digest w.genesis_digest c in
    let payload_ = octets_eq (compare_level 1) v.payload w.payload d in cc
all_same_eq (versioned signed_blob_v1) v w (a, (b, (c, (d, _)))) =
    let version_ = number_eq (compare_level 1) v.version w.version a in
    let purpose_ = number_eq (compare_level 1) v.purpose w.purpose b in
    let payload_ = octets_eq (compare_level 1) v.payload w.payload c in
    let value_ = octets_eq (compare_level 1) v.value w.value d in cc
all_same_eq (versioned commit_payload_v1) v w (a, (b, (c, _))) =
    let version_ = number_eq (compare_level 1) v.version w.version a in
    let proposal_digest_ = octets_eq (compare_level 1) v.proposal_digest w.proposal_digest b in
    let aux_ = octets_eq (compare_level 1) v.aux w.aux c in cc
all_same_eq (versioned client_request_v1) v w (a, (b, (c, (d, (e, (f, _)))))) =
    let version_ = number_eq (compare_level 1) v.version w.version a in
    let client_cert_ = octets_eq (compare_level 1) v.client_cert w.client_cert b in
    let (n, inside) =
      list_same (compare_level 1) Name.certificate_v1 (certificate_dicts v.intermediates)
        (certificate_dicts w.intermediates) c in
    let intermediates_ = certificates_eq v.intermediates w.intermediates n inside in
    let request_id_ = octets_eq (compare_level 1) v.request_id w.request_id d in
    let expiry_ = number_eq (compare_level 1) v.expiry w.expiry e in
    let payload_ = octets_eq (compare_level 1) v.payload w.payload f in cc
all_same_eq (versioned read_index_v1) v w (a, (b, (c, (d, (e, _))))) =
    let version_ = number_eq (compare_level 1) v.version w.version a in
    let signer_id_ = number_eq (compare_level 1) v.signer_id w.signer_id b in
    let view_ = number_eq (compare_level 1) v.view w.view c in
    let seq_ = number_eq (compare_level 1) v.seq w.seq d in
    let nonce_ = octets_eq (compare_level 1) v.nonce w.nonce e in cc
all_same_eq (versioned commit_certificate_v1) v w (a, (b, (c, (d, (e, _))))) =
    let version_ = number_eq (compare_level 1) v.version w.version a in
    let proposal_digest_ = octets_eq (compare_level 1) v.proposal_digest w.proposal_digest b in
    let view_ = number_eq (compare_level 1) v.view w.view c in
    let seq_ = number_eq (compare_level 1) v.seq w.seq d in
    let (n, inside) =
      list_same (compare_level 1) Name.signer_sig_v0 (sig_dicts v.sigs) (sig_dicts w.sigs) e in
    let sigs_ = sigs_eq v.sigs w.sigs n inside in cc
all_same_eq proposal_v0 v w (a, (b, (c, (d, _)))) =
    let payload_ = octets_eq (compare_level 1) v.payload w.payload a in
    let header_ = octets_eq (compare_level 1) v.header w.header b in
    let metadata_ = octets_eq (compare_level 1) v.metadata w.metadata c in
    let verification_sequence_ =
      number_eq (compare_level 1) v.verification_sequence w.verification_sequence d in
    cc
all_same_eq signature_set_v0 v w (a, _) =
    let (n, inside) =
      list_same (compare_level 1) Name.signer_sig_v0 (sig_dicts v.sigs) (sig_dicts w.sigs) a in
    let sigs_ = sigs_eq v.sigs w.sigs n inside in cc

-- For each of the ten structures: the object of a Go value passes compare_fields against the
-- object of another exactly when the values are the same.
pub compare_fields_iff :
    (s : Structure) (v w : Structures.Value s)
    → (compare_fields (name_of s) (dict_of s v) (dict_of s w) ≡ returned tt) ↔ (v ≡ w)
compare_fields_iff s v w = (
  λ h. all_same_eq s v w (level_same 1 (name_of s) _ _ tt (unfold compare_fields in h)),
  λ same.
      ap (λ u. compare_fields (name_of s) (dict_of s v) (dict_of s u)) (sym same)
      ∙ compare_fields-dict_of s v,
)
