-- ===== src/Verifier/Spliced.antt =====
-- asn1.go against the forgeries of ci/verify_vectors.py: WIRE-SPEC.md 4.2.1.
use canonical.Prelude.{[], List, ℕ, ◌∙◌, sym, ap, arith, length, ◌<◌, ◌≡◌, ◌≢◌}
use canonical.Errors.{ok, err, err_non_canonical, ◌>>=◌, after}
use canonical.Asn1.{Encoding, marshal, length_ceiling}
use canonical.Asn1.Canonical.{checked_marshal-unmarshal, unmarshal-non_canonical}
use canonical.Verifier.{encode_value}
use canonical.Verifier.Agree.{WritesDer, IsGoDict}
use canonical.Verifier.Forge.{splice, struct_refused}
use canonical.Verifier.Objects.{dict_of, name_of, tree_of, decode_struct-tree_of}
use canonical.Verifier.Outcome.{returned}
use canonical.Verifier.RoundTrip.{parse_der-encode_value}
use canonical.Verifier.Tree.{Value}
use canonical.Structures.{Structure, unmarshal_of}
use canonical.Structures
use canonical.Structures.Laws.{check_of, unmarshal_of-checked}

module _ (s : Structure) (E : Encoding (Structures.Value s)) (W : WritesDer s E)
    (u : Structures.Value s) (path : List ℕ) (forged : Value)
    (spliced : splice (tree_of s u) path ≡ returned forged)
    (small : length (encode_value forged) < length_ceiling) where
  -- No Go value has the forged encoding.
  not_written :
      (v : Structures.Value s) → IsGoDict (dict_of s v) → marshal E v ≢ ok (encode_value forged)
  unfolding marshal
  not_written v go wrote =
      let der = (W.encode_iff v (encode_value forged) go small).0 wrote in
      let forged_tree = parse_der-encode_value forged (omega arith) in
      let own_tree = parse_der-encode_value (tree_of s v) (rw der (omega arith)) in
      let same : tree_of s v ≡ forged = cc in
      let refused =
        struct_refused (name_of s) (tree_of s u) forged path (dict_of s u)
          (decode_struct-tree_of s u) spliced in
      let decoded = decode_struct-tree_of s v in cc

  -- For each of the ten structures, over an encoding/asn1 that writes DER: where an INTEGER is
  -- spliced behind the last element of a SEQUENCE in the tree of any Go value and the forged tree
  -- has an encoding shorter than the length ceiling, the Unmarshal function of the Go package
  -- accepts that encoding with no Go value whose integers are int64.
  pub unmarshal_of-forged :
      (v : Structures.Value s)
      → IsGoDict (dict_of s v)
      → unmarshal_of s E (encode_value forged) ≢ ok v
  unmarshal_of-forged v go h =
      let (_, wrote) =
        checked_marshal-unmarshal E (check_of s) (encode_value forged) v
          (sym (unmarshal_of-checked s E (encode_value forged)) ∙ h) in
      not_written v go wrote

  -- For each of the ten structures, over an encoding/asn1 that writes DER, and an encoding
  -- shorter than the length ceiling of a tree of a Go value with an INTEGER spliced in: where
  -- asn1.Unmarshal reads that encoding in full as some Go value whose integers are int64, and
  -- asn1.Marshal writes bytes for it, the Unmarshal function of the package refuses the encoding
  -- as err_non_canonical.
  pub unmarshal_of-forged_error :
      (v : Structures.Value s) (b : List ℕ)
      → IsGoDict (dict_of s v)
      → E.decode (encode_value forged) ≡ ok (v, [])
      → marshal E v ≡ ok b
      → unmarshal_of s E (encode_value forged) ≡ err err_non_canonical
  unmarshal_of-forged_error v b go read wrote =
      let differ : b ≢ encode_value forged = λ same. not_written v go (wrote ∙ ap ok same) in
      let refused = unmarshal-non_canonical E (encode_value forged) b v read wrote differ in
      unmarshal_of-checked s E (encode_value forged)
      ∙ ap (λ r. r >>= λ v. after (check_of s v) (ok v)) refused
