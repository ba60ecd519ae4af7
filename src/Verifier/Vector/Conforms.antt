-- ===== src/Verifier/Vector/Conforms.antt =====
-- ci/verify_vectors.py: `check_vector` and the Go package, on a vector with the fields of a Go value.
use canonical.Prelude.{
  refl, ◌+◌, [], ◌∙◌, arith, ◌^◌, sym, ◌↔◌, ap, ◌<◌, length, List, ◌≡◌, Bytes, some,
}
use canonical.Verifier.Within.{HasShortMessages}
use canonical.Structures.{
  versioned, proposal_v0, signature_set_v0, header, genesis_v1, signed_v1, signed_blob_v1,
  commit_payload_v1, client_request_v1, read_index_v1, commit_certificate_v1,
}
use canonical.Verifier.Validity.{HasShortParts}
use canonical.Verifier.Refused.{version_forgeries}
use canonical.Verifier.Forgeries.{seq_paths}
use mathlib.Core.Path.{ap₂}
use canonical.Verifier.Agree.{read_vector-unmarshal_of, IsGoDict, WritesDer}
use canonical.Asn1.{length_ceiling, IsLossless, Encoding}
use canonical.Verifier.Inverse.{decode_struct-IsObject}
use canonical.Verifier.Outcome.{Post-returned, returned}
use canonical.Verifier.Vector.Passes.{read_steps, check_vector_iff}
use canonical.Verifier.Compare.{compare_fields}
use canonical.Octets.{IsOctets}
use canonical.Verifier.Objects.{dict_of, name_of}
use canonical.Verifier.Validity.{IsBoundStructure}
use canonical.Errors.{ok}
use canonical.Verifier.Validate.{read_vector}
use canonical.Structures.{unmarshal_of, Structure}
use canonical.Verifier.Schema.{Dict}
use canonical.Structures
use canonical.Verifier.Vector.{Vector, Report, check_vector, notes_of, Note}
use canonical.Verifier.Compare.Passed.{compare_fields_iff}

-- The object that the input of a passing vector decodes to.
passed_object :
    (s : Structure) (v : Structures.Value s) (b : Bytes) (o : Dict)
    → read_vector (name_of s) b ≡ returned o
    → compare_fields (name_of s) o (dict_of s v) ≡ returned tt
    → o ≡ dict_of s v
passed_object s v b o read compared =
    let (tree, _, decoded, _) = read_steps (name_of s) b o read in
    let (w, object) = Post-returned _ _ o (decode_struct-IsObject s tree) decoded in
    let same =
      (compare_fields_iff s w v).0
        (ap (λ p. compare_fields (name_of s) p (dict_of s v)) (sym object) ∙ compared) in
    object ∙ ap (dict_of s) same

-- The parts that check_vector reads once more have fewer than 1700 octets: the messages of a commit
-- certificate, and the payload of an envelope or a blob.
abbrev pub HasShortContents : (s : Structure) → Structures.Value s → Type 0
HasShortContents (versioned commit_certificate_v1) c = HasShortMessages c
HasShortContents (versioned signed_v1) v = length v.payload < 1700
HasShortContents (versioned signed_blob_v1) v = length v.payload < 1700
HasShortContents s v = Unit

contents-HasShortParts :
    (s : Structure) (v : Structures.Value s) → HasShortContents s v → HasShortParts s v
contents-HasShortParts (versioned header) v short = tt
contents-HasShortParts (versioned genesis_v1) v short = tt
contents-HasShortParts (versioned signed_v1) v short = tt
contents-HasShortParts (versioned signed_blob_v1) v short = tt
contents-HasShortParts (versioned commit_payload_v1) v short = tt
contents-HasShortParts (versioned client_request_v1) v short = tt
contents-HasShortParts (versioned read_index_v1) v short = tt
contents-HasShortParts (versioned commit_certificate_v1) v short = short
contents-HasShortParts proposal_v0 v short = tt
contents-HasShortParts signature_set_v0 v short = tt

-- What a vector with the fields of a Go value passes for.
abbrev pub Conforms :
    (Bytes → Bytes)
    → (Bytes → Bytes)
    → (s : Structure) → Encoding (Structures.Value s)
    → Structures.Value s
    → Vector
    → Type 0
Conforms sha256 sha512 s E v vec =
    (unmarshal_of s E vec.der ≡ ok v)
    × IsBoundStructure s v
    × (sha256 vec.der ≡ vec.sha256)
    × (notes : List Note) × (notes_of sha512 (name_of s) (dict_of s v) (dict_of s v)
        ≡ returned notes)

-- For each of the ten structures, over an encoding/asn1 that is lossless and writes DER, and a Go
-- value whose integers are int64 and whose parts that check_vector reads once more, the messages
-- of a commit certificate and the payload of an envelope or a blob, have fewer than 1700 octets
-- each: check_vector passes a vector of that structure with the fields of the value and an input
-- of octets, shorter than the length ceiling, exactly when the Unmarshal function of the Go
-- package accepts the input with the value, the vector's hash is that of the input, every message
-- of a commit certificate that encodes a valid commit payload names the certificate's proposal,
-- and the notes of check_vector can be taken, which for a blob is the test that its payload is
-- what its purpose names.
pub check_vector-unmarshal_of :
    (sha256 sha512 : Bytes → Bytes) (s : Structure) (E : Encoding (Structures.Value s))
    → IsLossless E
    → WritesDer s E
    → (v : Structures.Value s) (vec : Vector) → IsGoDict (dict_of s v)
    → vec.structure ≡ some (name_of s)
    → vec.fields ≡ dict_of s v
    → IsOctets vec.der
    → length vec.der < length_ceiling
    → HasShortContents s v
    → ((r : Report) × (check_vector sha256 sha512 vec ≡ returned r))
      ↔ Conforms sha256 sha512 s E v vec
check_vector-unmarshal_of sha256 sha512 s E L W v vec go named fields bounded short contents =
    let small : length vec.der < 2 ^ 30 = omega arith in
    let reads =
      read_vector-unmarshal_of s E L W v vec.der go bounded short
        (contents-HasShortParts s v contents) in
    (
      λ (r, passes).
          let (o, tree, read, parsed, compared, hashed, noted, _, _) =
            (check_vector_iff sha256 sha512 s vec r named bounded small).0 passes in
          let object =
            passed_object s v vec.der o read
              (ap (compare_fields (name_of s) o) (sym fields) ∙ compared) in
          let (accepted, bound) = reads.0 (read ∙ ap returned object) in
          (
            accepted,
            bound,
            hashed,
            r.notes,
            ap₂ (notes_of sha512 (name_of s)) (sym fields) (sym object) ∙ noted,
          ),
      λ (accepted, bound, hashed, notes, noted).
          let read = reads.1 (accepted, bound) in
          let (tree, parsed, _, _) = read_steps (name_of s) vec.der (dict_of s v) read in
          let r : Report = record {
            size = length vec.der;
            forgeries = length (seq_paths tree []) + 1 + version_forgeries s;
            notes = notes;
          } in
          (
            r,
            (check_vector_iff sha256 sha512 s vec r named bounded small).1 (
              dict_of s v,
              tree,
              read,
              parsed,
              ap (compare_fields (name_of s) (dict_of s v)) fields
                  ∙ (compare_fields_iff s v v).1 refl,
              hashed,
              ap (λ d. notes_of sha512 (name_of s) d (dict_of s v)) fields ∙ noted,
              refl,
              refl,
            ),
          ),
    )
