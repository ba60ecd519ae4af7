-- ===== src/Tests/Vectors/Ledger.antt =====
-- testdata/vectors.json: the header, the proposal, the signature set and the genesis,
-- written and read by the functions of the package.
use canonical.Prelude.{refl, append_int, ◌≡◌, [], ◌∷◌, bytes_equal, pos, Bytes}
use canonical.Der.Integer.{parse_int64, encode_int64}
use canonical.Genesis.{
  spiffe_id_v1, check_members, check_genesis_v1, unmarshal_genesis_v1, marshal_genesis_v1,
  GenesisV1,
}
use canonical.Der.Length.{read_length, read_tlv, encode_length, tlv}
use canonical.Errors.{ok}
use canonical.Asn1.{unmarshal, marshal}
use canonical.Tests.Hex.{hex}
use canonical.Signatures.{unmarshal_signature_set_v0, marshal_signature_set_v0, SignatureSetV0}
use canonical.Proposal.{unmarshal_proposal_v0, marshal_proposal_v0, ProposalV0}
use canonical.Header.{unmarshal_header, Header, marshal_header}
use canonical.Der.Structures.{header, proposal, genesis, signature_set}

abbrev pub header_v1_seq_128 : Header
header_v1_seq_128 = record {
  version = pos 1;
  prev_state_root = hex "0000000000000000000000000000000000000000000000000000000000000000";
  prev_seq = pos 128;
  consensus_time = pos 0;
}

abbrev pub header_v1_seq_128_bytes : Bytes
header_v1_seq_128_bytes =
    hex
      "302c0201010420000000000000000000000000000000000000000000000000000000000000000002020080020100"

header_v1_seq_128_written :
    marshal_header header.encoding header_v1_seq_128 ≡ ok header_v1_seq_128_bytes
unfolding marshal_header header marshal tlv encode_length encode_int64
header_v1_seq_128_written = refl

header_v1_seq_128_read :
    unmarshal_header header.encoding header_v1_seq_128_bytes ≡ ok header_v1_seq_128
unfolding unmarshal_header header unmarshal marshal bytes_equal tlv encode_length encode_int64
    read_tlv read_length parse_int64
header_v1_seq_128_read = refl

abbrev pub header_v1_max_ints : Header
header_v1_max_ints = record {
  version = pos 1;
  prev_state_root = hex "ffffffffffffffffffffffffffffffffffffffffffffffffffffffffffffffff";
  prev_seq = pos 9223372036854775807;
  consensus_time = pos 9223372036854775807;
}

abbrev pub header_v1_max_ints_bytes : Bytes
header_v1_max_ints_bytes =
    hex
      "30390201010420ffffffffffffffffffffffffffffffffffffffffffffffffffffffffffffffff02087fffffffffffffff02087fffffffffffffff"

header_v1_max_ints_written :
    marshal_header header.encoding header_v1_max_ints ≡ ok header_v1_max_ints_bytes
unfolding marshal_header header marshal tlv encode_length encode_int64
header_v1_max_ints_written = refl

header_v1_max_ints_read :
    unmarshal_header header.encoding header_v1_max_ints_bytes ≡ ok header_v1_max_ints
unfolding unmarshal_header header unmarshal marshal bytes_equal tlv encode_length encode_int64
    read_tlv read_length parse_int64
header_v1_max_ints_read = refl

abbrev proposal_v0_smartbft_reference : ProposalV0
proposal_v0_smartbft_reference = record {
  payload = hex "504159";
  header = hex "484452";
  metadata = hex "4d4554";
  verification_sequence = pos 7;
}

abbrev proposal_v0_smartbft_reference_bytes : Bytes
proposal_v0_smartbft_reference_bytes = hex "30120403504159040348445204034d4554020107"

proposal_v0_smartbft_reference_written :
    marshal_proposal_v0 proposal.encoding proposal_v0_smartbft_reference
    ≡ ok proposal_v0_smartbft_reference_bytes
unfolding marshal_proposal_v0 proposal marshal tlv encode_length encode_int64
proposal_v0_smartbft_reference_written = refl

proposal_v0_smartbft_reference_read :
    unmarshal_proposal_v0 proposal.encoding proposal_v0_smartbft_reference_bytes
    ≡ ok proposal_v0_smartbft_reference
unfolding unmarshal_proposal_v0 proposal unmarshal marshal bytes_equal tlv encode_length
    encode_int64 read_tlv read_length parse_int64
proposal_v0_smartbft_reference_read = refl

abbrev pub genesis_v1_long_form_length : GenesisV1
genesis_v1_long_form_length = record {
  version = pos 1;
  trust_domain = hex "636c75737465722e6578616d706c65";
  ca_root = hex "cacacacacacacacacacacacacacacacacacacacacacacacacacacacacacacaca";
  max_nodes = pos 10;
  members =
      record {
        node_id = pos 1;
        spiffe_id = hex "7370696666653a2f2f636c75737465722e6578616d706c652f6e6f64652f31";
        leaf_pub_key = hex "b2b2b2b2b2b2b2b2b2b2b2b2b2b2b2b2b2b2b2b2b2b2b2b2b2b2b2b2b2b2b2b2";
      }
      ∷ record {
        node_id = pos 2;
        spiffe_id = hex "7370696666653a2f2f636c75737465722e6578616d706c652f6e6f64652f32";
        leaf_pub_key = hex "c3c3c3c3c3c3c3c3c3c3c3c3c3c3c3c3c3c3c3c3c3c3c3c3c3c3c3c3c3c3c3c3";
      }
      ∷ [];
}

abbrev pub genesis_v1_long_form_length_bytes : Bytes
genesis_v1_long_form_length_bytes =
    hex
      "3081cc020101040f636c75737465722e6578616d706c650420cacacacacacacacacacacacacacacacacacacacacacacacacacacacacacacaca02010a3081903046020101041f7370696666653a2f2f636c75737465722e6578616d706c652f6e6f64652f310420b2b2b2b2b2b2b2b2b2b2b2b2b2b2b2b2b2b2b2b2b2b2b2b2b2b2b2b2b2b2b2b23046020102041f7370696666653a2f2f636c75737465722e6578616d706c652f6e6f64652f320420c3c3c3c3c3c3c3c3c3c3c3c3c3c3c3c3c3c3c3c3c3c3c3c3c3c3c3c3c3c3c3c3"

genesis_v1_long_form_length_written :
    marshal_genesis_v1 genesis.encoding genesis_v1_long_form_length
    ≡ ok genesis_v1_long_form_length_bytes
unfolding marshal_genesis_v1 check_genesis_v1 genesis marshal tlv encode_length encode_int64
    check_members spiffe_id_v1 append_int bytes_equal
genesis_v1_long_form_length_written = refl

pub genesis_v1_long_form_length_read :
    unmarshal_genesis_v1 genesis.encoding genesis_v1_long_form_length_bytes
    ≡ ok genesis_v1_long_form_length
unfolding unmarshal_genesis_v1 check_genesis_v1 genesis unmarshal marshal bytes_equal tlv
    encode_length encode_int64 read_tlv read_length parse_int64 check_members spiffe_id_v1
    append_int
genesis_v1_long_form_length_read = refl

abbrev sigset_v0_three_signers : SignatureSetV0
sigset_v0_three_signers = record {
  sigs =
      record { signer = pos 1; value = hex "5631"; msg = hex "4d31" }
      ∷ record { signer = pos 2; value = []; msg = [] }
      ∷ record { signer = pos 300; value = hex "5633"; msg = hex "4d33" }
      ∷ [];
}

abbrev sigset_v0_three_signers_bytes : Bytes
sigset_v0_three_signers_bytes =
    hex "30263024300b0201010402563104024d31300702010204000400300c0202012c0402563304024d33"

sigset_v0_three_signers_written :
    marshal_signature_set_v0 signature_set.encoding sigset_v0_three_signers
    ≡ ok sigset_v0_three_signers_bytes
unfolding marshal_signature_set_v0 signature_set marshal tlv encode_length encode_int64
sigset_v0_three_signers_written = refl

sigset_v0_three_signers_read :
    unmarshal_signature_set_v0 signature_set.encoding sigset_v0_three_signers_bytes
    ≡ ok sigset_v0_three_signers
unfolding unmarshal_signature_set_v0 signature_set unmarshal marshal bytes_equal tlv encode_length
    encode_int64 read_tlv read_length parse_int64
sigset_v0_three_signers_read = refl
