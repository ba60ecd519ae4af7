-- ===== src/Verifier/Validity.antt =====
-- Which objects `validate` of ci/verify_vectors.py lets through, for the ten structures.
use canonical.Verifier.Within.{
  certificate-HasShortMessages, HasShortMessages, genesis-members, certificate-IsReadable,
}
use canonical.Prelude.{Bytes, ◌≡◌, ◌^◌, ◌<◌, refl, ap, none, arith, length}
use canonical.Octets.{IsOctets}
use canonical.Verifier.{encode_value}
use canonical.Verifier.Outcome.{returned, Post, Post-intro}
use canonical.Verifier.Validate.{validate}
use canonical.Verifier.Objects.{dict_of, name_of, tree_of}
use canonical.Verifier.Checked.{
  header_ends, signed_ends, blob_ends, commit_payload_ends, read_index_ends, client_request_ends,
  validate_header, validate_signed, validate_blob, validate_commit_payload, validate_read_index,
  validate_client_request,
}
use canonical.Verifier.Members.{validate_genesis, genesis_ends}
use canonical.Verifier.Sigs.{IsBoundCertificate, validate_certificate-Post, validate_certificate-eq}
use canonical.Verifier.Printable.{IsPrintable}
use canonical.Verifier.Printable.Short.{short-IsPrintable}
use canonical.Verifier.Inside.{content_seq}
use canonical.Verifier.Decode.{items_of}
use canonical.Structures.{
  Structure, versioned, proposal_v0, signature_set_v0, Versioned, header, genesis_v1, signed_v1,
  signed_blob_v1, commit_payload_v1, client_request_v1, read_index_v1, commit_certificate_v1,
  marshal_of, unmarshal_of,
}
use canonical.Structures
use canonical.Genesis.{GenesisV1}
use canonical.Structures.Laws.{check_of}

-- The one constraint that the verifier adds: in a commit certificate, every message that encodes a
-- valid commit payload names the certificate's proposal.
abbrev pub IsBoundStructure : (s : Structure) → Structures.Value s → Type 0
IsBoundStructure (versioned commit_certificate_v1) c = IsBoundCertificate c
IsBoundStructure (versioned header) v = Unit
IsBoundStructure (versioned genesis_v1) v = Unit
IsBoundStructure (versioned signed_v1) v = Unit
IsBoundStructure (versioned signed_blob_v1) v = Unit
IsBoundStructure (versioned commit_payload_v1) v = Unit
IsBoundStructure (versioned client_request_v1) v = Unit
IsBoundStructure (versioned read_index_v1) v = Unit
IsBoundStructure proposal_v0 v = Unit
IsBoundStructure signature_set_v0 v = Unit

-- In a commit certificate, the messages have fewer than 1700 octets.
abbrev pub HasShortParts : (s : Structure) → Structures.Value s → Type 0
HasShortParts (versioned commit_certificate_v1) c = HasShortMessages c
HasShortParts s v = Unit

few_members :
    (g : GenesisV1) (b : Bytes)
    → encode_value (tree_of (versioned genesis_v1) g) ≡ b
    → length b < 2 ^ 32
    → length g.members < 2 ^ 63
few_members g b wrote small = omega (arith, ap length wrote, genesis-members g)

pub validate-Post :
    (s : Structure) (v : Structures.Value s) (b : Bytes)
    → encode_value (tree_of s v) ≡ b
    → IsOctets b
    → length b < 2 ^ 32
    → IsPrintable (dict_of s v)
    → HasShortParts s v
    → Post (λ _. (check_of s v ≡ none) × IsBoundStructure s v) (validate (name_of s) (dict_of s v))
unfolding check_of
validate-Post (versioned header) v b wrote bounded small printable short =
    Post-intro _ _ (header_ends v printable) (λ _ h. ((validate_header v).0 h, tt))
validate-Post (versioned genesis_v1) v b wrote bounded small printable short =
    let few : length v.members < 2 ^ 63 = few_members v b wrote small in
    Post-intro _ _ (genesis_ends v printable) (λ _ h. ((validate_genesis v few printable).0 h, tt))
validate-Post (versioned signed_v1) v b wrote bounded small printable short =
    Post-intro _ _ (signed_ends v printable) (λ _ h. ((validate_signed v).0 h, tt))
validate-Post (versioned signed_blob_v1) v b wrote bounded small printable short =
    Post-intro _ _ (blob_ends v printable) (λ _ h. ((validate_blob v).0 h, tt))
validate-Post (versioned commit_payload_v1) v b wrote bounded small printable short =
    Post-intro _ _ (commit_payload_ends v printable) (λ _ h. ((validate_commit_payload v).0 h, tt))
validate-Post (versioned client_request_v1) v b wrote bounded small printable short =
    Post-intro _ _ (client_request_ends v printable) (λ _ h. ((validate_client_request v).0 h, tt))
validate-Post (versioned read_index_v1) v b wrote bounded small printable short =
    Post-intro _ _ (read_index_ends v printable) (λ _ h. ((validate_read_index v).0 h, tt))
validate-Post (versioned commit_certificate_v1) v b wrote bounded small printable short =
    validate_certificate-Post v (certificate-IsReadable v b wrote bounded (omega arith) short)
      printable
validate-Post proposal_v0 v b wrote bounded small printable short = unfold validate in (refl, tt)
validate-Post signature_set_v0 v b wrote bounded small printable short =
    unfold validate in (refl, tt)

pub validate-eq :
    (s : Structure) (v : Structures.Value s) (b : Bytes)
    → encode_value (tree_of s v) ≡ b
    → IsOctets b
    → length b < 2 ^ 32
    → IsPrintable (dict_of s v)
    → HasShortParts s v
    → check_of s v ≡ none
    → IsBoundStructure s v
    → validate (name_of s) (dict_of s v) ≡ returned tt
unfolding check_of
validate-eq (versioned header) v b wrote bounded small printable short valid bound =
    (validate_header v).1 valid
validate-eq (versioned genesis_v1) v b wrote bounded small printable short valid bound =
    (validate_genesis v (few_members v b wrote small) printable).1 valid
validate-eq (versioned signed_v1) v b wrote bounded small printable short valid bound =
    (validate_signed v).1 valid
validate-eq (versioned signed_blob_v1) v b wrote bounded small printable short valid bound =
    (validate_blob v).1 valid
validate-eq (versioned commit_payload_v1) v b wrote bounded small printable short valid bound =
    (validate_commit_payload v).1 valid
validate-eq (versioned client_request_v1) v b wrote bounded small printable short valid bound =
    (validate_client_request v).1 valid
validate-eq (versioned read_index_v1) v b wrote bounded small printable short valid bound =
    (validate_read_index v).1 valid
validate-eq (versioned commit_certificate_v1) v b wrote bounded small printable short valid bound =
    validate_certificate-eq v (certificate-IsReadable v b wrote bounded (omega arith) short)
      printable valid bound
validate-eq proposal_v0 v b wrote bounded small printable short valid bound =
    unfold validate in refl
validate-eq signature_set_v0 v b wrote bounded small printable short valid bound =
    unfold validate in refl

-- Where the whole input has fewer than 1700 octets, so has each message in it.
pub short-HasShortParts :
    (s : Structure) (v : Structures.Value s) (b : Bytes)
    → encode_value (tree_of s v) ≡ b
    → IsOctets b
    → length b < 1700
    → HasShortParts s v
short-HasShortParts (versioned header) v b wrote bounded short = tt
short-HasShortParts (versioned genesis_v1) v b wrote bounded short = tt
short-HasShortParts (versioned signed_v1) v b wrote bounded short = tt
short-HasShortParts (versioned signed_blob_v1) v b wrote bounded short = tt
short-HasShortParts (versioned commit_payload_v1) v b wrote bounded short = tt
short-HasShortParts (versioned client_request_v1) v b wrote bounded short = tt
short-HasShortParts (versioned read_index_v1) v b wrote bounded short = tt
short-HasShortParts (versioned commit_certificate_v1) v b wrote bounded short =
    certificate-HasShortMessages v b wrote bounded short
short-HasShortParts proposal_v0 v b wrote bounded short = tt
short-HasShortParts signature_set_v0 v b wrote bounded short = tt

pub object-IsPrintable :
    (s : Structure) (v : Structures.Value s) (b : Bytes)
    → encode_value (tree_of s v) ≡ b
    → length b < 1700
    → IsPrintable (dict_of s v)
object-IsPrintable s v b wrote short =
    let (inside, _) = content_seq (items_of (dict_of s v)) in
    short-IsPrintable (dict_of s v) (unfold tree_of in omega (arith, ap length wrote))
