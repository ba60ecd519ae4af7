-- ===== src/Structures/Binding.antt =====
-- The envelope that a signer signs: signed.go, WIRE-SPEC.md 3.8.
use canonical.Prelude.{Bytes, ℤ}
use canonical.Signed.{SignedV1}
use canonical.Asn1.{version_v1}

-- The envelope that a signer hands to ed25519.Sign.
abbrev pub envelope : ℤ → Bytes → Bytes → SignedV1
envelope purpose genesis_digest payload = record {
  version = version_v1;
  purpose = purpose;
  genesis_digest = genesis_digest;
  payload = payload;
}
