-- ===== src/Structures/Laws.antt =====
-- What holds of every structure: WIRE-SPEC.md 4.
use canonical.Structures.{
  signature_set_v0, commit_certificate_v1, read_index_v1, client_request_v1, commit_payload_v1,
  signed_blob_v1, signed_v1, genesis_v1, header, proposal_v0, versioned, unmarshal_of, marshal_of,
  Value, Structure,
}
use canonical.Asn1.Canonical.{
  checked_unmarshal, checked_marshal, unmarshal-trailing, checked_unmarshal_iff,
  checked_marshal-unmarshal,
}
use canonical.Signatures.{unmarshal_signature_set_v0, marshal_signature_set_v0}
use canonical.Proposal.{unmarshal_proposal_v0, marshal_proposal_v0}
use canonical.Asn1.{marshal, length_ceiling, unmarshal, IsLossless, Encoding}
use canonical.CommitCert.{
  unmarshal_commit_certificate_v1, marshal_commit_certificate_v1, check_commit_certificate_v1,
}
use canonical.Prelude.{none, ◌∷◌, ◌∙◌, ◌↔◌, ◌++◌, sym, refl, ◌<◌, ℕ, length, ◌≡◌, Option, Bytes}
use canonical.Errors.{after-eq-ok, err_trailing, err, ◌>>=◌, ok, Error, Result}
use canonical.Attest.{unmarshal_read_index_v1, marshal_read_index_v1, check_read_index_v1}
use canonical.Request.{
  unmarshal_client_request_v1, marshal_client_request_v1, check_client_request_v1,
}
use canonical.Signed.{
  unmarshal_commit_payload_v1, marshal_commit_payload_v1, unmarshal_signed_blob_v1,
  marshal_signed_blob_v1, unmarshal_signed_v1, marshal_signed_v1, check_commit_payload_v1,
  check_signed_blob_v1, check_signed_v1,
}
use canonical.Genesis.{unmarshal_genesis_v1, marshal_genesis_v1, check_genesis_v1}
use canonical.Header.{unmarshal_header, marshal_header}
use canonical.Header.Valid.{check_header, marshal_header-checked, unmarshal_header-checked}

-- The check of each structure; two have none.
unfoldable pub check_of : (s : Structure) → Value s → Option Error
check_of (versioned header) v = check_header v
check_of (versioned genesis_v1) v = check_genesis_v1 v
check_of (versioned signed_v1) v = check_signed_v1 v
check_of (versioned signed_blob_v1) v = check_signed_blob_v1 v
check_of (versioned commit_payload_v1) v = check_commit_payload_v1 v
check_of (versioned client_request_v1) v = check_client_request_v1 v
check_of (versioned read_index_v1) v = check_read_index_v1 v
check_of (versioned commit_certificate_v1) v = check_commit_certificate_v1 v
check_of proposal_v0 v = none
check_of signature_set_v0 v = none

pub marshal_of-checked :
    (s : Structure) (E : Encoding (Value s)) (v : Value s)
    → marshal_of s E v ≡ checked_marshal E (check_of s) v
unfolding marshal_of check_of marshal_header marshal_genesis_v1 marshal_signed_v1
    marshal_signed_blob_v1 marshal_commit_payload_v1 marshal_client_request_v1 marshal_read_index_v1
    marshal_commit_certificate_v1 marshal_proposal_v0 marshal_signature_set_v0
marshal_of-checked (versioned header) E v = marshal_header-checked E v
marshal_of-checked (versioned genesis_v1) E v = refl
marshal_of-checked (versioned _) E v = refl
marshal_of-checked proposal_v0 E v = refl
marshal_of-checked signature_set_v0 E v = refl

then_ok {ℓ} : {A : Type ℓ} (r : Result A) → r ≡ (r >>= λ a. ok a)
then_ok (ok a) = refl
then_ok (err e) = refl

pub unmarshal_of-checked :
    (s : Structure) (E : Encoding (Value s)) (b : Bytes)
    → unmarshal_of s E b ≡ checked_unmarshal E (check_of s) b
unfolding unmarshal_of check_of unmarshal_header unmarshal_genesis_v1 unmarshal_signed_v1
    unmarshal_signed_blob_v1 unmarshal_commit_payload_v1 unmarshal_client_request_v1
    unmarshal_read_index_v1 unmarshal_commit_certificate_v1 unmarshal_proposal_v0
    unmarshal_signature_set_v0
unmarshal_of-checked (versioned header) E b = unmarshal_header-checked E b
unmarshal_of-checked (versioned genesis_v1) E b = refl
unmarshal_of-checked (versioned _) E b = refl
unmarshal_of-checked proposal_v0 E b = then_ok (unmarshal E b)
unmarshal_of-checked signature_set_v0 E b = then_ok (unmarshal E b)

-- For each of the ten structures, over any encoding at all: two inputs that the Unmarshal
-- function accepts with one value are one input.
pub unmarshal_of-injective :
    (s : Structure) (E : Encoding (Value s)) (b c : Bytes) (v : Value s)
    → unmarshal_of s E b ≡ ok v
    → unmarshal_of s E c ≡ ok v
    → b ≡ c
unmarshal_of-injective s E b c v h k =
    let (_, wrote_b) =
      checked_marshal-unmarshal E (check_of s) b v (sym (unmarshal_of-checked s E b) ∙ h) in
    let (_, wrote_c) =
      checked_marshal-unmarshal E (check_of s) c v (sym (unmarshal_of-checked s E c) ∙ k) in
    cc

-- For each of the ten structures, over an encoding that is lossless below the length ceiling: the
-- Unmarshal function accepts an input shorter than the ceiling, with a value, exactly when the
-- Marshal function writes that input for that value.
pub unmarshal_of_iff :
    (s : Structure) (E : Encoding (Value s))
    → IsLossless E
    → (b : Bytes) (v : Value s) → length b < length_ceiling
    → (unmarshal_of s E b ≡ ok v) ↔ (marshal_of s E v ≡ ok b)
unmarshal_of_iff s E L b v small =
    rw (unmarshal_of-checked s E b, marshal_of-checked s E v)
      (checked_unmarshal_iff E (check_of s) L b v small)

-- For each of the ten structures, over a lossless encoding: where the Marshal function writes an
-- input, shorter than the length ceiling, the Unmarshal function refuses that input with one or
-- more bytes behind it, as err_trailing.
pub unmarshal_of-trailing :
    (s : Structure) (E : Encoding (Value s))
    → IsLossless E
    → (v : Value s) (b : Bytes) (x : ℕ) (rest : Bytes) → length b < length_ceiling
    → marshal_of s E v ≡ ok b
    → unmarshal_of s E (b ++ (x ∷ rest)) ≡ err err_trailing
unmarshal_of-trailing s E L v b x rest small h =
    let (_, wrote) =
      after-eq-ok (check_of s v) (marshal E v) (sym (marshal_of-checked s E v) ∙ h) in
    rw (unmarshal_of-checked s E (b ++ (x ∷ rest)), unmarshal-trailing E L v b x rest wrote small)
