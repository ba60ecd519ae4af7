-- ===== src/Tests/Witness/Constraints.antt =====
-- The theorems about the constraints of the structures, at vectors of the annex.
use canonical.Structures.Valid.{marshal_of_iff, IsValid}
use canonical.Structures.{genesis_v1, versioned, marshal_of}
use canonical.Genesis.Refusal.{unmarshal_genesis_v1_err_iff}
use canonical.Errors.{err_format, err_order, err, ok}
use canonical.Genesis.{unmarshal_genesis_v1, GenesisV1, GenesisMemberV1}
use canonical.Der.Integer.{parse_int64, encode_int64}
use canonical.Der.Length.{read_length, read_tlv, encode_length, tlv}
use canonical.CommitCert.Refusal.{unmarshal_commit_certificate_v1_err_iff, IsRefused}
use canonical.Prelude.{
  ◌∷◌, replicate, bytes_equal, Bytes, ℕ, none, arith, [], ◌↔◌, some, refl, pos, get_elem?, codes,
  ◌≡◌, negsuc,
}
use canonical.Tests.Hex.{hex}
use canonical.CommitCert.{unmarshal_commit_certificate_v1, CommitCertificateV1}
use canonical.Asn1.{unmarshal, marshal}
use canonical.Tests.Vectors.Client.{
  commit_cert_v1_n4_q3_read, commit_cert_v1_n4_q3_bytes, commit_cert_v1_n4_q3,
}
use canonical.Tests.Vectors.Ledger.{
  genesis_v1_long_form_length_read, genesis_v1_long_form_length_bytes, genesis_v1_long_form_length,
}
use canonical.Der.Structures.{genesis, commit_certificate}
use canonical.Signatures.{SignerSigV0}
use canonical.Genesis.Refusal
use canonical.Genesis.Identity.{spiffe_id_v1-injective}
use canonical.Genesis.Members.{identities_distinct}
use canonical.CommitCert.Signers.{signers_distinct}

marshal_of_iff_example :
    (marshal_of (versioned genesis_v1) genesis.encoding genesis_v1_long_form_length
      ≡ ok genesis_v1_long_form_length_bytes)
    ↔ (IsValid (versioned genesis_v1) genesis_v1_long_form_length
        × (marshal genesis.encoding genesis_v1_long_form_length
            ≡ ok genesis_v1_long_form_length_bytes))
marshal_of_iff_example =
    marshal_of_iff (versioned genesis_v1) genesis.encoding genesis_v1_long_form_length
      genesis_v1_long_form_length_bytes (omega arith)

-- An entry of the certificate of the annex.
abbrev second_signer : SignerSigV0
second_signer = elim (get_elem? commit_cert_v1_n4_q3.sigs 1) [
  | some s ↦ s
  | none ↦ record { signer = pos 0; value = []; msg = [] }
]

signers_distinct_example : ◌≡◌ {A = ℕ} 1 1
signers_distinct_example =
    signers_distinct commit_certificate.encoding commit_cert_v1_n4_q3_bytes commit_cert_v1_n4_q3
      commit_cert_v1_n4_q3_read 1 1 second_signer second_signer refl refl refl

abbrev second_member : GenesisMemberV1
second_member = elim (get_elem? genesis_v1_long_form_length.members 1) [
  | some m ↦ m
  | none ↦ record { node_id = pos 0; spiffe_id = []; leaf_pub_key = [] }
]

identities_distinct_example : ◌≡◌ {A = ℕ} 1 1
identities_distinct_example =
    identities_distinct genesis.encoding genesis_v1_long_form_length_bytes
      genesis_v1_long_form_length genesis_v1_long_form_length_read (omega arith) 1 1 second_member
      second_member refl refl refl

spiffe_id_v1-injective_example : negsuc 11 ≡ negsuc 11
spiffe_id_v1-injective_example =
    spiffe_id_v1-injective (codes "cluster.example") (negsuc 11) (negsuc 11) refl

-- A certificate that lists one signer twice.
abbrev repeated_entry : Bytes → SignerSigV0
repeated_entry msg = record { signer = pos 3; value = replicate 64 0; msg = msg }

abbrev repeated_signer : CommitCertificateV1
repeated_signer = record {
  version = pos 1;
  proposal_digest = replicate 32 0;
  view = pos 7;
  seq = pos 42;
  sigs = repeated_entry (codes "m") ∷ repeated_entry (codes "n") ∷ [];
}

abbrev repeated_signer_bytes : Bytes
repeated_signer_bytes =
    hex
      "3081c20201010420000000000000000000000000000000000000000000000000000000000000000002010702012a308194304802010304400000000000000000000000000000000000000000000000000000000000000000000000000000000000000000000000000000000000000000000000000000000004016d304802010304400000000000000000000000000000000000000000000000000000000000000000000000000000000000000000000000000000000000000000000000000000000004016e"

repeated_signer_decoded :
    unmarshal commit_certificate.encoding repeated_signer_bytes ≡ ok repeated_signer
unfolding commit_certificate unmarshal marshal bytes_equal tlv encode_length encode_int64 read_tlv
    read_length parse_int64
repeated_signer_decoded = refl

unmarshal_commit_certificate_v1_err_iff_example :
    (unmarshal_commit_certificate_v1 commit_certificate.encoding repeated_signer_bytes
      ≡ err err_order)
    ↔ IsRefused repeated_signer err_order
unmarshal_commit_certificate_v1_err_iff_example =
    unmarshal_commit_certificate_v1_err_iff commit_certificate.encoding repeated_signer_bytes
      repeated_signer err_order repeated_signer_decoded

-- A genesis whose member has the SPIFFE ID of another node.
abbrev foreign_identity : GenesisV1
foreign_identity = record {
  version = pos 1;
  trust_domain = codes "d";
  ca_root = [];
  max_nodes = pos 4;
  members =
      record {
        node_id = pos 1;
        spiffe_id = codes "spiffe://d/node/2";
        leaf_pub_key = replicate 32 0;
      }
      ∷ [];
}

abbrev foreign_identity_bytes : Bytes
foreign_identity_bytes =
    hex
      "30470201010401640400020104303a303802010104117370696666653a2f2f642f6e6f64652f3204200000000000000000000000000000000000000000000000000000000000000000"

foreign_identity_decoded : unmarshal genesis.encoding foreign_identity_bytes ≡ ok foreign_identity
unfolding genesis unmarshal marshal bytes_equal tlv encode_length encode_int64 read_tlv read_length
    parse_int64
foreign_identity_decoded = refl

unmarshal_genesis_v1_err_iff_example :
    (unmarshal_genesis_v1 genesis.encoding foreign_identity_bytes ≡ err err_format)
    ↔ Refusal.IsRefused foreign_identity err_format
unmarshal_genesis_v1_err_iff_example =
    unmarshal_genesis_v1_err_iff foreign_identity (omega arith) genesis.encoding
      foreign_identity_bytes err_format foreign_identity_decoded
