-- ===== src/CommitCert/Quorum.antt =====
-- A certificate against the cluster definition it is checked with: commitcert.go and genesis.go.
use canonical.Prelude.{
  ◌^◌, ◌<◌, ◌≤◌, ◌≤ℤ◌, pos, length, ◌≡◌, refl, arith, List, [], ◌∷◌, All, Ascending-length, Has,
  Bytes, ℤ,
}
use canonical.Asn1.{Encoding}
use canonical.Errors.{ok}
use canonical.Signatures.{SignerSigV0}
use canonical.CommitCert.{CommitCertificateV1, unmarshal_commit_certificate_v1}
use canonical.CommitCert.Valid.{signers}
use canonical.CommitCert.Signers.{certificate_constraints}
use canonical.Genesis.{GenesisV1, GenesisMemberV1, unmarshal_genesis_v1}
use canonical.Genesis.Valid.{node_ids}
use canonical.Genesis.Members.{genesis_constraints}

length-signers : (sigs : List SignerSigV0) → length (signers sigs) ≡ length sigs
length-signers [] = refl
length-signers (s ∷ sigs) = omega (arith, length-signers sigs)

length-node_ids : (ms : List GenesisMemberV1) → length (node_ids ms) ≡ length ms
length-node_ids [] = refl
length-node_ids (m ∷ ms) = omega (arith, length-node_ids ms)

signers_among :
    (ids : List ℤ) (sigs : List SignerSigV0)
    → All (λ s. Has ids s.signer) sigs
    → All (Has ids) (signers sigs)
signers_among ids [] h = tt
signers_among ids (s ∷ sigs) (h, hs) = (h, signers_among ids sigs hs)

-- For a certificate that unmarshal_commit_certificate_v1 accepts and a genesis of fewer than 2^63
-- members that unmarshal_genesis_v1 accepts, each over any encoding: where every signer of the
-- certificate is a node id of a member, the certificate has no more signatures than the genesis
-- has members, and no more than its maximum number of nodes.
pub signatures_bounded :
    (E : Encoding CommitCertificateV1) (F : Encoding GenesisV1) (a b : Bytes)
    (c : CommitCertificateV1) (g : GenesisV1)
    → unmarshal_commit_certificate_v1 E a ≡ ok c
    → unmarshal_genesis_v1 F b ≡ ok g
    → length g.members < 2 ^ 63
    → All (λ s. Has (node_ids g.members) s.signer) c.sigs
    → (length c.sigs ≤ length g.members) × (pos (length c.sigs) ≤ℤ g.max_nodes)
signatures_bounded E F a b c g certificate genesis small among =
    let v = certificate_constraints E a c certificate in
    let w = genesis_constraints F b g genesis small in
    let fewer =
      Ascending-length (signers c.sigs) (node_ids g.members) v.sigs_ascending
        (signers_among (node_ids g.members) c.sigs among) in
    let count_c = length-signers c.sigs in
    let count_g = length-node_ids g.members in let fit = w.members_fit in (omega arith, omega arith)
