-- ===== src/Verifier/Agree.antt =====
-- What ci/verify_vectors.py accepts, against what the Unmarshal functions of the package accept.
use canonical.Prelude.{
  true, leb, ℕ, ◌+◌, Bytes, ℤ, ◌≡◌, ◌↔◌, ◌≢◌, ◌^◌, ◌≤◌, ◌<◌, ◌∙◌, refl, sym, ap, none, arith,
  length, pos_part, neg_part,
}
use canonical.Verifier.Outcome.{
  >>=-returned, returned, raised, broken, out_of_fuel, ◌>>=◌, Post, >>=-Post, Post-map, Post-ends,
  Post-returned,
}
use canonical.Verifier.Printable.{IsPrintable, IsPrintableField, IsPrintableDicts, is_printable-lt}
use canonical.Verifier.Validity.{
  object-IsPrintable, short-HasShortParts, HasShortParts, IsBoundStructure, validate-Post,
  validate-eq,
}
use canonical.Verifier.Tree.{seq}
use canonical.Verifier.Decode.{items_of}
use canonical.Octets.{IsOctets}
use canonical.Errors.{ok, after-eq-ok}
use canonical.Asn1.{Encoding, IsLossless, length_ceiling, marshal}
use canonical.Verifier.{encode_value}
use canonical.Verifier.Schema.{
  Dict, Dicts, Field, number, octets, list, done, entry, no_dicts, dict,
}
use canonical.Verifier.Checks.{Check}
use canonical.Verifier.Validate.{validate, read_object, read_vector}
use canonical.Verifier.Objects.{dict_of, name_of, tree_of}
use canonical.Verifier.Reading.{read_object-Post, read_object-tree_of}
use canonical.Structures.{
  Structure, versioned, proposal_v0, signature_set_v0, Versioned, header, genesis_v1, signed_v1,
  signed_blob_v1, commit_payload_v1, client_request_v1, read_index_v1, commit_certificate_v1,
  marshal_of, unmarshal_of,
}
use canonical.Structures
use canonical.Structures.Laws.{check_of, marshal_of-checked, unmarshal_of_iff}

-- The integers of a Go value.
abbrev pub IsInt64 : ℤ → Type 0
IsInt64 i = (pos_part i < 2 ^ 63) × (neg_part i ≤ 2 ^ 63)

abbrev mutual
  pub IsGoDict : Dict → Type 0
  IsGoDict done = Unit
  IsGoDict (entry key f o) = IsGoField f × IsGoDict o

  pub IsGoField : Field → Type 0
  IsGoField (number i) = IsInt64 i
  IsGoField (octets b) = Unit
  IsGoField (list ds) = IsGoDicts ds

  pub IsGoDicts : Dicts → Type 0
  IsGoDicts no_dicts = Unit
  IsGoDicts (dict o ds) = IsGoDict o × IsGoDicts ds

-- Documented of encoding/asn1: Marshal writes the DER encoding of a Go value, in full.
pub record WritesDer (s : Structure) (E : Encoding (Structures.Value s)) : Type 0 where
  pub encode_iff :
      (v : Structures.Value s) (b : Bytes)
      → IsGoDict (dict_of s v)
      → length b < length_ceiling
      → (E.encode v ≡ ok b) ↔ (encode_value (tree_of s v) ≡ b)

-- The end of a decoding: the object is returned where its check is passed.
kept-Post :
    (m : Check) (o : Dict)
    → (m ≢ out_of_fuel) × (m ≢ broken)
    → Post (λ p. (p ≡ o) × (m ≡ returned tt)) (m >>= λ _. returned o)
kept-Post (returned tt) o ends = (refl, refl)
kept-Post raised o ends = tt
kept-Post out_of_fuel o (within, whole) = within refl
kept-Post broken o (within, whole) = whole refl

read_vector-Post :
    (s : Structure) (b : Bytes)
    → IsOctets b
    → length b < 1700
    → Post
        (λ o. (encode_value (seq (items_of o)) ≡ b) × (validate (name_of s) o ≡ returned tt))
        (read_vector (name_of s) b)
unfolding read_vector
read_vector-Post s b bounded short =
    >>=-Post _ _ (read_object (name_of s) b) _ (read_object-Post s b bounded) (λ o (v, same, wrote).
      let ends = Post-ends _ _ (
        validate-Post s v b wrote bounded (omega arith) (object-IsPrintable s v b wrote short)
          (short-HasShortParts s v b wrote bounded short)) in
      Post-map _ _ (validate (name_of s) o >>= λ _. returned o)
        (λ p (again, passed). (
          ap (λ d. encode_value (seq (items_of d))) (again ∙ same) ∙ unfold tree_of in wrote,
          ap (validate (name_of s)) again ∙ passed,
        ))
        (kept-Post (validate (name_of s) o) o (rw same ends)))

-- What a returned object is.
returned_tests :
    (s : Structure) (v : Structures.Value s) (b : Bytes)
    → IsOctets b
    → read_vector (name_of s) b ≡ returned (dict_of s v)
    → (encode_value (tree_of s v) ≡ b) × (validate (name_of s) (dict_of s v) ≡ returned tt)
unfolding read_vector
returned_tests s v b bounded h =
    let (o, read, rest) = >>=-returned (read_object (name_of s) b) _ (dict_of s v) h in
    let (_, valid, end) = >>=-returned (validate (name_of s) o) _ (dict_of s v) rest in
    let (w, object, wrote) = Post-returned _ _ o (read_object-Post s b bounded) read in
    let same : o ≡ dict_of s v = cc in
    let trees = ap (λ d. encode_value (seq (items_of d))) (sym same ∙ object) in
    (
      unfold tree_of in trees ∙ unfold tree_of in wrote,
      ap (validate (name_of s)) (sym same) ∙ valid,
    )

-- For each of the ten structures, on an input of fewer than 1700 octets: the decoding and
-- validation in verify_vectors.py end within the fuel, and with no other exception than a
-- SpecError, since no integer of such an input has more than the 4300 digits that Python prints.
pub read_vector_ends :
    (s : Structure) (b : Bytes)
    → IsOctets b
    → length b < 1700
    → (read_vector (name_of s) b ≢ out_of_fuel) × (read_vector (name_of s) b ≢ broken)
read_vector_ends s b bounded small = Post-ends _ _ (read_vector-Post s b bounded small)

-- For each of the ten structures, on an input of octets shorter than 2^32 bytes, and a value
-- whose integers Python prints, with 4300 digits at most, and whose messages, in a commit
-- certificate, have fewer than 1700 octets each: verify_vectors.py decodes and validates the
-- input to the object of the value exactly when encode_value writes the input for the value, the
-- value passes the check of the Go package, and, in a commit certificate, every message that
-- encodes a valid commit payload names the certificate's proposal.
pub read_vector_iff :
    (s : Structure) (v : Structures.Value s) (b : Bytes)
    → IsOctets b
    → length b < 2 ^ 32
    → IsPrintable (dict_of s v)
    → HasShortParts s v
    → (read_vector (name_of s) b ≡ returned (dict_of s v))
      ↔ ((encode_value (tree_of s v) ≡ b) × (check_of s v ≡ none) × IsBoundStructure s v)
read_vector_iff s v b bounded small printable short = (
  λ h.
      let (wrote, passed) = returned_tests s v b bounded h in
      let (valid, bound) =
        Post-returned _ _ tt (validate-Post s v b wrote bounded small printable short) passed in
      (wrote, valid, bound),
  λ (wrote, valid, bound).
      unfold read_vector in
      rw (
        read_object-tree_of s v b bounded (omega arith) wrote,
        validate-eq s v b wrote bounded small printable short valid bound,
      ),
)

room : (n bound : ℕ) → n < 2 ^ 64 + 1 → leb (2 ^ 64 + 1) bound ≡ true → n < bound
room n bound h k = wide n (2 ^ 64 + 1) bound h k
  where
    wide : (n low high : ℕ) → n < low → leb low high ≡ true → n < high
    wide n low high h k = ground arith

few : (i : ℤ) → pos_part i < 2 ^ 63 → neg_part i ≤ 2 ^ 63 → pos_part i + neg_part i < 256 ^ 1700 + 1
few i small smaller = room (pos_part i + neg_part i) (256 ^ 1700 + 1) (omega arith) refl

mutual
  pub IsGoDict-IsPrintable : (o : Dict) → IsGoDict o → IsPrintable o
  IsGoDict-IsPrintable done h = tt
  IsGoDict-IsPrintable (entry key f o) (h, hs) =
      (IsGoField-IsPrintableField f h, IsGoDict-IsPrintable o hs)

  IsGoField-IsPrintableField : (f : Field) → IsGoField f → IsPrintableField f
  IsGoField-IsPrintableField (number i) (small, smaller) = is_printable-lt i (few i small smaller)
  IsGoField-IsPrintableField (octets b) h = tt
  IsGoField-IsPrintableField (list ds) h = IsGoDicts-IsPrintableDicts ds h

  IsGoDicts-IsPrintableDicts : (ds : Dicts) → IsGoDicts ds → IsPrintableDicts ds
  IsGoDicts-IsPrintableDicts no_dicts h = tt
  IsGoDicts-IsPrintableDicts (dict o ds) (h, hs) =
      (IsGoDict-IsPrintable o h, IsGoDicts-IsPrintableDicts ds hs)

-- For each of the ten structures, over an encoding/asn1 that is lossless and writes DER, and a Go
-- value whose integers are int64 and whose messages, in a commit certificate, have fewer than
-- 1700 octets each: an input of octets, shorter than the length ceiling, decodes and validates in
-- verify_vectors.py to the object of the value exactly when the Unmarshal function of the Go
-- package accepts it with the value and, in a commit certificate, every message that encodes a
-- valid commit payload names the certificate's proposal.
pub read_vector-unmarshal_of :
    (s : Structure) (E : Encoding (Structures.Value s))
    → IsLossless E
    → WritesDer s E
    → (v : Structures.Value s) (b : Bytes) → IsGoDict (dict_of s v)
    → IsOctets b
    → length b < length_ceiling
    → HasShortParts s v
    → (read_vector (name_of s) b ≡ returned (dict_of s v))
      ↔ ((unmarshal_of s E b ≡ ok v) × IsBoundStructure s v)
read_vector-unmarshal_of s E L W v b go bounded small short =
    let python =
      read_vector_iff s v b bounded (omega arith) (IsGoDict-IsPrintable (dict_of s v) go) short in
    let der = W.encode_iff v b go small in
    let reads = unmarshal_of_iff s E L b v small in
    (
      λ h.
          let (wrote, valid, bound) = python.0 h in
          (
            reads.1 (rw (marshal_of-checked s E v) (unfold marshal in rw (valid, der.1 wrote))),
            bound,
          ),
      λ (h, bound).
          let (valid, wrote) =
            after-eq-ok (check_of s v) (marshal E v) (sym (marshal_of-checked s E v) ∙ reads.0 h) in
          python.1 (der.0 (unfold marshal in wrote), valid, bound),
    )
