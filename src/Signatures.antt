-- ===== src/Signatures.antt =====
-- signatures.go: the signature set of the previous decision, which carries no version.
use canonical.Prelude.{Bytes, ℤ, List}
use canonical.Errors.{Result}
use canonical.Asn1.{Encoding, marshal, unmarshal}

pub record SignerSigV0 : Type 0 where
  pub signer : ℤ
  pub value : Bytes
  pub msg : Bytes

pub record SignatureSetV0 : Type 0 where
  pub sigs : List SignerSigV0

module _ (E : Encoding SignatureSetV0) where
  unfoldable pub marshal_signature_set_v0 : SignatureSetV0 → Result Bytes
  marshal_signature_set_v0 s = marshal E s

  unfoldable pub unmarshal_signature_set_v0 : Bytes → Result SignatureSetV0
  unmarshal_signature_set_v0 b = unmarshal E b
