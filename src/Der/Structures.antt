-- ===== src/Der/Structures.antt =====
-- The DER encodings of the package's structures: their fields in declaration order, each with the
-- proof that it is lossless.
use canonical.Prelude.{◌≡◌, List, ℤ, Bytes, refl}
use canonical.Asn1.{Encoding, IsLossless}
use canonical.Der.Fields.{
  int64, octet_string, sequence, sequence_of, via, ◌then_field◌, int64-IsLossless,
  octet_string-IsLossless, then_field-IsLossless, via-IsLossless, sequence-IsLossless,
  sequence_of-IsLossless,
}
use canonical.Header.{Header}
use canonical.Proposal.{ProposalV0}
use canonical.Signatures.{SignerSigV0, SignatureSetV0}
use canonical.Attest.{ReadIndexV1}
use canonical.Signed.{SignedV1, SignedBlobV1, CommitPayloadV1}
use canonical.CommitCert.{CommitCertificateV1}
use canonical.Request.{CertificateV1, ClientRequestV1}
use canonical.Genesis.{GenesisMemberV1, GenesisV1}

-- A sequence of fields whose encoding is lossless.
pub record Der (A : Type 0) : Type 0 where
  pub encoding : Encoding A
  pub lossless : IsLossless encoding

unfoldable pub int : Der ℤ
unfolding int64
int = record { encoding = int64; lossless = int64-IsLossless }

unfoldable pub oct : Der Bytes
unfolding octet_string
oct = record { encoding = octet_string; lossless = octet_string-IsLossless }

infixr 20 ◌and◌
unfoldable pub ◌and◌ : {A B : Type 0} → Der A → Der B → Der (A × B)
unfolding ◌then_field◌
p and q = record {
  encoding = p.encoding then_field q.encoding;
  lossless = then_field-IsLossless p.encoding q.encoding p.lossless q.lossless;
}

module _ {A B : Type 0} (to : B → A) (from : A → B) (back : (b : B) → from (to b) ≡ b) where
  -- The fields of a struct, with no SEQUENCE around them.
  unfoldable pub fields : Der A → Der B
  unfolding via
  fields p = record {
    encoding = via to from p.encoding;
    lossless = via-IsLossless to from p.encoding back p.lossless;
  }

unfoldable pub struct : {A : Type 0} → Der A → Der A
unfolding sequence
struct p = record {
  encoding = sequence p.encoding;
  lossless = sequence-IsLossless p.encoding p.lossless;
}

unfoldable pub slice : {A : Type 0} → Der A → Der (List A)
unfolding sequence_of
slice p = record {
  encoding = sequence_of p.encoding;
  lossless = sequence_of-IsLossless p.encoding p.lossless;
}

unfoldable signer_sig : Der SignerSigV0
unfolding int oct ◌and◌ fields
signer_sig =
    fields (λ x. (x.signer, (x.value, x.msg)))
      (λ (a, (b, c)). record { signer = a; value = b; msg = c }) (λ x. refl) (int and oct and oct)

unfoldable pub signature_set : Der SignatureSetV0
unfolding fields struct slice signer_sig
signature_set =
    struct (fields (λ x. x.sigs) (λ a. record { sigs = a }) (λ x. refl) (slice signer_sig))

unfoldable pub header : Der Header
unfolding int oct ◌and◌ fields struct
header = struct (
    fields (λ x. (x.version, (x.prev_state_root, (x.prev_seq, x.consensus_time))))
      (λ (a, (b, (c, d))). record {
        version = a;
        prev_state_root = b;
        prev_seq = c;
        consensus_time = d;
      })
      (λ x. refl) (int and oct and int and int))

unfoldable pub proposal : Der ProposalV0
unfolding int oct ◌and◌ fields struct
proposal = struct (
    fields (λ x. (x.payload, (x.header, (x.metadata, x.verification_sequence))))
      (λ (a, (b, (c, d))). record {
        payload = a;
        header = b;
        metadata = c;
        verification_sequence = d;
      })
      (λ x. refl) (oct and oct and oct and int))

unfoldable pub read_index : Der ReadIndexV1
unfolding int oct ◌and◌ fields struct
read_index = struct (
    fields (λ x. (x.version, (x.signer_id, (x.view, (x.seq, x.nonce)))))
      (λ (a, (b, (c, (d, e)))). record { version = a; signer_id = b; view = c; seq = d; nonce = e })
      (λ x. refl) (int and int and int and int and oct))

unfoldable pub signed : Der SignedV1
unfolding int oct ◌and◌ fields struct
signed = struct (
    fields (λ x. (x.version, (x.purpose, (x.genesis_digest, x.payload))))
      (λ (a, (b, (c, d))). record { version = a; purpose = b; genesis_digest = c; payload = d })
      (λ x. refl) (int and int and oct and oct))

unfoldable pub signed_blob : Der SignedBlobV1
unfolding int oct ◌and◌ fields struct
signed_blob = struct (
    fields (λ x. (x.version, (x.purpose, (x.payload, x.value))))
      (λ (a, (b, (c, d))). record { version = a; purpose = b; payload = c; value = d }) (λ x. refl)
      (int and int and oct and oct))

unfoldable pub commit_payload : Der CommitPayloadV1
unfolding int oct ◌and◌ fields struct
commit_payload = struct (
    fields (λ x. (x.version, (x.proposal_digest, x.aux)))
      (λ (a, (b, c)). record { version = a; proposal_digest = b; aux = c }) (λ x. refl)
      (int and oct and oct))

unfoldable pub commit_certificate : Der CommitCertificateV1
unfolding int oct ◌and◌ fields struct slice signer_sig
commit_certificate = struct (
    fields (λ x. (x.version, (x.proposal_digest, (x.view, (x.seq, x.sigs)))))
      (λ (a, (b, (c, (d, e)))). record {
        version = a;
        proposal_digest = b;
        view = c;
        seq = d;
        sigs = e;
      })
      (λ x. refl) (int and oct and int and int and (slice signer_sig)))

unfoldable pub certificate : Der CertificateV1
unfolding oct fields
certificate = fields (λ x. x.der) (λ a. record { der = a }) (λ x. refl) (oct)

unfoldable pub client_request : Der ClientRequestV1
unfolding int oct ◌and◌ fields struct slice certificate
client_request = struct (
    fields
      (λ x. (x.version, (x.client_cert, (x.intermediates, (x.request_id, (x.expiry, x.payload))))))
      (λ (a, (b, (c, (d, (e, f))))). record {
        version = a;
        client_cert = b;
        intermediates = c;
        request_id = d;
        expiry = e;
        payload = f;
      })
      (λ x. refl) (int and oct and (slice certificate) and oct and int and oct))

unfoldable genesis_member : Der GenesisMemberV1
unfolding int oct ◌and◌ fields
genesis_member =
    fields (λ x. (x.node_id, (x.spiffe_id, x.leaf_pub_key)))
      (λ (a, (b, c)). record { node_id = a; spiffe_id = b; leaf_pub_key = c }) (λ x. refl)
      (int and oct and oct)

unfoldable pub genesis : Der GenesisV1
unfolding int oct ◌and◌ fields struct slice genesis_member
genesis = struct (
    fields (λ x. (x.version, (x.trust_domain, (x.ca_root, (x.max_nodes, x.members)))))
      (λ (a, (b, (c, (d, e)))). record {
        version = a;
        trust_domain = b;
        ca_root = c;
        max_nodes = d;
        members = e;
      })
      (λ x. refl) (int and oct and oct and int and (slice genesis_member)))
