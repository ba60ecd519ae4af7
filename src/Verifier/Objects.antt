-- ===== src/Verifier/Objects.antt =====
-- The objects that ci/verify_vectors.py has for the Go values of the ten structures.
use canonical.Prelude.{◌∷◌, [], List, ◌≡◌, refl}
use canonical.Verifier.Schema.{
  Name, Key, Dict, Dicts, done, entry, number, octets, list, no_dicts, dict, decode_struct,
  decode_elements,
}
use canonical.Verifier.Outcome.{returned}
use canonical.Verifier.Decode.{items_of, elements_of}
use canonical.Verifier.Tree.{Value, seq}
use canonical.Structures.{
  Structure, versioned, proposal_v0, signature_set_v0, Versioned, header, genesis_v1, signed_v1,
  signed_blob_v1, commit_payload_v1, client_request_v1, read_index_v1, commit_certificate_v1,
}
use canonical.Structures
use canonical.Signatures.{SignerSigV0}
use canonical.Request.{CertificateV1}
use canonical.Genesis.{GenesisMemberV1}

abbrev pub name_of : Structure → Name
name_of (versioned header) = Name.header
name_of (versioned genesis_v1) = Name.genesis_v1
name_of (versioned signed_v1) = Name.signed_v1
name_of (versioned signed_blob_v1) = Name.signed_blob_v1
name_of (versioned commit_payload_v1) = Name.commit_payload_v1
name_of (versioned client_request_v1) = Name.client_request_v1
name_of (versioned read_index_v1) = Name.read_index_v1
name_of (versioned commit_certificate_v1) = Name.commit_certificate_v1
name_of proposal_v0 = Name.proposal_v0
name_of signature_set_v0 = Name.signature_set_v0

abbrev pub sig_dicts : List SignerSigV0 → Dicts
sig_dicts [] = no_dicts
sig_dicts (s ∷ sigs) =
    dict
      (entry Key.signer (number s.signer)
        (entry Key.value (octets s.value) (entry Key.msg (octets s.msg) done)))
      (sig_dicts sigs)

abbrev pub certificate_dicts : List CertificateV1 → Dicts
certificate_dicts [] = no_dicts
certificate_dicts (c ∷ certs) = dict (entry Key.der (octets c.der) done) (certificate_dicts certs)

abbrev pub member_dicts : List GenesisMemberV1 → Dicts
member_dicts [] = no_dicts
member_dicts (m ∷ members) =
    dict
      (entry Key.node_id (number m.node_id) (
        entry Key.spiffe_id (octets m.spiffe_id)
          (entry Key.leaf_pub_key (octets m.leaf_pub_key) done)))
      (member_dicts members)

abbrev pub dict_of : (s : Structure) → Structures.Value s → Dict
dict_of (versioned header) v = entry Key.version (number v.version) (
    entry Key.prev_state_root (octets v.prev_state_root) (
      entry Key.prev_seq (number v.prev_seq)
        (entry Key.consensus_time (number v.consensus_time) done)))
dict_of (versioned genesis_v1) v = entry Key.version (number v.version) (
    entry Key.trust_domain (octets v.trust_domain) (
      entry Key.ca_root (octets v.ca_root) (
        entry Key.max_nodes (number v.max_nodes)
          (entry Key.members (list (member_dicts v.members)) done))))
dict_of (versioned signed_v1) v = entry Key.version (number v.version) (
    entry Key.purpose (number v.purpose) (
      entry Key.genesis_digest (octets v.genesis_digest)
        (entry Key.payload (octets v.payload) done)))
dict_of (versioned signed_blob_v1) v = entry Key.version (number v.version) (
    entry Key.purpose (number v.purpose)
      (entry Key.payload (octets v.payload) (entry Key.value (octets v.value) done)))
dict_of (versioned commit_payload_v1) v =
    entry Key.version (number v.version)
      (entry Key.proposal_digest (octets v.proposal_digest) (entry Key.aux (octets v.aux) done))
dict_of (versioned client_request_v1) v = entry Key.version (number v.version) (
    entry Key.client_cert (octets v.client_cert) (
      entry Key.intermediates (list (certificate_dicts v.intermediates)) (
        entry Key.request_id (octets v.request_id)
          (entry Key.expiry (number v.expiry) (entry Key.payload (octets v.payload) done)))))
dict_of (versioned read_index_v1) v = entry Key.version (number v.version) (
    entry Key.signer_id (number v.signer_id) (
      entry Key.view (number v.view)
        (entry Key.seq_key (number v.seq) (entry Key.nonce (octets v.nonce) done))))
dict_of (versioned commit_certificate_v1) v = entry Key.version (number v.version) (
    entry Key.proposal_digest (octets v.proposal_digest) (
      entry Key.view (number v.view)
        (entry Key.seq_key (number v.seq) (entry Key.sigs (list (sig_dicts v.sigs)) done))))
dict_of proposal_v0 v = entry Key.payload (octets v.payload) (
    entry Key.header (octets v.header) (
      entry Key.metadata (octets v.metadata)
        (entry Key.verification_sequence (number v.verification_sequence) done)))
dict_of signature_set_v0 v = entry Key.sigs (list (sig_dicts v.sigs)) done

-- The DER value of a Go value.
unfoldable pub tree_of : (s : Structure) → Structures.Value s → Value
unfolding items_of
tree_of s v = seq (items_of (dict_of s v))

decode_sigs :
    (sigs : List SignerSigV0)
    → decode_elements Name.signer_sig_v0 (elements_of (sig_dicts sigs)) ≡ returned (sig_dicts sigs)
unfolding decode_struct items_of
decode_sigs [] = refl
decode_sigs (s ∷ sigs) = rw (decode_sigs sigs)

decode_certificates :
    (certs : List CertificateV1)
    → decode_elements Name.certificate_v1 (elements_of (certificate_dicts certs))
      ≡ returned (certificate_dicts certs)
unfolding decode_struct items_of
decode_certificates [] = refl
decode_certificates (s ∷ certs) = rw (decode_certificates certs)

decode_members :
    (members : List GenesisMemberV1)
    → decode_elements Name.genesis_member_v1 (elements_of (member_dicts members))
      ≡ returned (member_dicts members)
unfolding decode_struct items_of
decode_members [] = refl
decode_members (s ∷ members) = rw (decode_members members)

pub decode_struct-tree_of :
    (s : Structure) (v : Structures.Value s)
    → decode_struct (name_of s) (tree_of s v) ≡ returned (dict_of s v)
unfolding decode_struct tree_of items_of
decode_struct-tree_of (versioned header) v = refl
decode_struct-tree_of (versioned genesis_v1) v = rw (decode_members v.members)
decode_struct-tree_of (versioned signed_v1) v = refl
decode_struct-tree_of (versioned signed_blob_v1) v = refl
decode_struct-tree_of (versioned commit_payload_v1) v = refl
decode_struct-tree_of (versioned client_request_v1) v = rw (decode_certificates v.intermediates)
decode_struct-tree_of (versioned read_index_v1) v = refl
decode_struct-tree_of (versioned commit_certificate_v1) v = rw (decode_sigs v.sigs)
decode_struct-tree_of proposal_v0 v = refl
decode_struct-tree_of signature_set_v0 v = rw (decode_sigs v.sigs)
