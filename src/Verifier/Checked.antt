-- ===== src/Verifier/Checked.antt =====
-- `validate` of ci/verify_vectors.py, against the checks of the Go package.
use canonical.Prelude.{◌≢◌, [], ◌∷◌, List, Option, ◌≡◌, ◌↔◌, none, arith}
use canonical.Verifier.Schema.{Name, Key}
use canonical.Verifier.Validate.{validate, check_structure}
use canonical.Verifier.Objects.{dict_of, certificate_dicts}
use canonical.Verifier.Outcome.{returned, broken, out_of_fuel, ◌>>=◌}
use canonical.Structures.{
  versioned, header, signed_v1, signed_blob_v1, commit_payload_v1, client_request_v1, read_index_v1,
}
use canonical.Request
use canonical.Errors.{Error}
use canonical.Request.{CertificateV1, ClientRequestV1, check_id_and_expiry, check_client_request_v1}
use canonical.Verifier.Checks.{
  Check, check_intermediates, check_octets, check_positive, check_client_request,
}
use canonical.Structures.Laws.{check_of}
use canonical.Header.{Header}
use canonical.Signed.{
  SignedV1, SignedBlobV1, CommitPayloadV1, valid_purpose, check_signed_v1, check_signed_blob_v1,
  check_commit_payload_v1,
}
use canonical.Verifier.Printable.{IsPrintable}
use canonical.Attest.{check_read_index_v1, ReadIndexV1}

pub validate_header :
    (v : Header)
    → (validate Name.header (dict_of (versioned header) v) ≡ returned tt)
      ↔ (check_of (versioned header) v ≡ none)
unfolding validate check_structure check_of
validate_header v = (λ h. ground arith, λ h. ground arith)

pub validate_signed :
    (v : SignedV1)
    → (validate Name.signed_v1 (dict_of (versioned signed_v1) v) ≡ returned tt)
      ↔ (check_of (versioned signed_v1) v ≡ none)
unfolding validate check_structure check_of check_signed_v1 valid_purpose
validate_signed v = (λ h. ground arith, λ h. ground arith)

pub validate_blob :
    (v : SignedBlobV1)
    → (validate Name.signed_blob_v1 (dict_of (versioned signed_blob_v1) v) ≡ returned tt)
      ↔ (check_of (versioned signed_blob_v1) v ≡ none)
unfolding validate check_structure check_of check_signed_blob_v1 valid_purpose
validate_blob v = (λ h. ground arith, λ h. ground arith)

pub validate_commit_payload :
    (v : CommitPayloadV1)
    → (validate Name.commit_payload_v1 (dict_of (versioned commit_payload_v1) v) ≡ returned tt)
      ↔ (check_of (versioned commit_payload_v1) v ≡ none)
unfolding validate check_structure check_of check_commit_payload_v1
validate_commit_payload v = (λ h. ground arith, λ h. ground arith)

pub validate_read_index :
    (v : ReadIndexV1)
    → (validate Name.read_index_v1 (dict_of (versioned read_index_v1) v) ≡ returned tt)
      ↔ (check_of (versioned read_index_v1) v ≡ none)
unfolding validate check_structure check_of check_read_index_v1
validate_read_index v = (λ h. ground arith, λ h. ground arith)

intermediates_agree :
    (certs : List CertificateV1) (more : Check) (rest : Option Error)
    → (more ≡ returned tt) ↔ (rest ≡ none)
    → ((check_intermediates (certificate_dicts certs) >>= λ _. more) ≡ returned tt)
      ↔ (Request.check_intermediates certs rest ≡ none)
unfolding check_intermediates Request.check_intermediates
intermediates_agree [] more rest same = same
intermediates_agree (c ∷ certs) more rest same =
    let ih = intermediates_agree certs more rest same in
    (λ h. ground (arith, ih.0), λ h. ground (arith, ih.1))

id_and_expiry_agree :
    (r : ClientRequestV1)
    → ((check_octets (dict_of (versioned client_request_v1) r) Key.request_id 16 >>= λ _.
          check_positive (dict_of (versioned client_request_v1) r) Key.expiry)
        ≡ returned tt)
      ↔ (check_id_and_expiry r ≡ none)
unfolding check_id_and_expiry
id_and_expiry_agree r = (λ h. ground arith, λ h. ground arith)

pub validate_client_request :
    (v : ClientRequestV1)
    → (validate Name.client_request_v1 (dict_of (versioned client_request_v1) v) ≡ returned tt)
      ↔ (check_of (versioned client_request_v1) v ≡ none)
unfolding validate check_structure check_of check_client_request check_client_request_v1
validate_client_request v =
    let rest =
      intermediates_agree v.intermediates _ (check_id_and_expiry v) (id_and_expiry_agree v) in
    (λ h. ground (arith, rest.0), λ h. ground (arith, rest.1))

-- Neither of the other two ends.
abbrev pub IsDecided : Check → Type 0
IsDecided m = (m ≢ out_of_fuel) × (m ≢ broken)

pub header_ends :
    (v : Header)
    → IsPrintable (dict_of (versioned header) v)
    → IsDecided (validate Name.header (dict_of (versioned header) v))
unfolding validate check_structure
header_ends v p = let version = p.0 in (λ h. ground arith, λ h. ground arith)

pub signed_ends :
    (v : SignedV1)
    → IsPrintable (dict_of (versioned signed_v1) v)
    → IsDecided (validate Name.signed_v1 (dict_of (versioned signed_v1) v))
unfolding validate check_structure
signed_ends v p = let version = p.0 in let purpose = p.1.0 in (λ h. ground arith, λ h. ground arith)

pub blob_ends :
    (v : SignedBlobV1)
    → IsPrintable (dict_of (versioned signed_blob_v1) v)
    → IsDecided (validate Name.signed_blob_v1 (dict_of (versioned signed_blob_v1) v))
unfolding validate check_structure
blob_ends v p = let version = p.0 in let purpose = p.1.0 in (λ h. ground arith, λ h. ground arith)

pub commit_payload_ends :
    (v : CommitPayloadV1)
    → IsPrintable (dict_of (versioned commit_payload_v1) v)
    → IsDecided (validate Name.commit_payload_v1 (dict_of (versioned commit_payload_v1) v))
unfolding validate check_structure
commit_payload_ends v p = let version = p.0 in (λ h. ground arith, λ h. ground arith)

pub read_index_ends :
    (v : ReadIndexV1)
    → IsPrintable (dict_of (versioned read_index_v1) v)
    → IsDecided (validate Name.read_index_v1 (dict_of (versioned read_index_v1) v))
unfolding validate check_structure
read_index_ends v p =
    let version = p.0 in
    let signer = p.1.0 in
    let view = p.1.1.0 in let seq = p.1.1.1.0 in (λ h. ground arith, λ h. ground arith)

intermediates_ends :
    (certs : List CertificateV1) → IsDecided (check_intermediates (certificate_dicts certs))
unfolding check_intermediates
intermediates_ends [] = (λ h. cc, λ h. cc)
intermediates_ends (c ∷ certs) =
    let ih = intermediates_ends certs in (λ h. ground (arith, ih.0), λ h. ground (arith, ih.1))

pub client_request_ends :
    (v : ClientRequestV1)
    → IsPrintable (dict_of (versioned client_request_v1) v)
    → IsDecided (validate Name.client_request_v1 (dict_of (versioned client_request_v1) v))
unfolding validate check_structure check_client_request
client_request_ends v p =
    let version = p.0 in
    let expiry = p.1.1.1.1.0 in
    let ih = intermediates_ends v.intermediates in
    (λ h. ground (arith, ih.0), λ h. ground (arith, ih.1))
