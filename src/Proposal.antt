-- ===== src/Proposal.antt =====
-- proposal.go: SmartBFT's proposal, which carries no version.
use canonical.Prelude.{Bytes, ℤ}
use canonical.Errors.{Result}
use canonical.Asn1.{Encoding, marshal, unmarshal}

pub record ProposalV0 : Type 0 where
  pub payload : Bytes
  pub header : Bytes
  pub metadata : Bytes
  pub verification_sequence : ℤ

module _ (E : Encoding ProposalV0) where
  unfoldable pub marshal_proposal_v0 : ProposalV0 → Result Bytes
  marshal_proposal_v0 p = marshal E p

  unfoldable pub unmarshal_proposal_v0 : Bytes → Result ProposalV0
  unmarshal_proposal_v0 b = unmarshal E b
