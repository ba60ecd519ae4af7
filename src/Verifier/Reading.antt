-- ===== src/Verifier/Reading.antt =====
-- `decode_struct` of `parse_der` of ci/verify_vectors.py, both ways.
use canonical.Verifier.Validate.{read_object}
use canonical.Verifier.Outcome.{Post-both, Post-map}
use canonical.Verifier.Objects.{tree_of, decode_struct-tree_of}
use canonical.Verifier.Laws.{parse_der_iff, parse_der-Post}
use canonical.Verifier.Decode.{items_of, decode_struct-Post}
use canonical.Verifier.{parse_der, encode_value}
use canonical.Octets.{IsOctets}
use canonical.Prelude.{sym, ap, ◌∙◌, length, ◌≤◌, ◌^◌, Bytes, ◌≡◌}
use canonical.Verifier.Outcome.{returned, ◌>>=◌, Post, >>=-Post}
use canonical.Verifier.Tree.{seq}
use canonical.Verifier.Schema.{decode_struct}
use canonical.Verifier.Objects.{dict_of, name_of}
use canonical.Structures.{
  Structure, versioned, proposal_v0, signature_set_v0, Versioned, header, genesis_v1, signed_v1,
  signed_blob_v1, commit_payload_v1, client_request_v1, read_index_v1, commit_certificate_v1,
}
use canonical.Structures
use canonical.Verifier.Inverse.{IsObject, decode_struct-IsObject}

-- The objects read from an input, and the values that are written as it.
pub read_object-Post :
    (s : Structure) (b : Bytes)
    → IsOctets b
    → Post
        (λ o. (v : Structures.Value s) × (o ≡ dict_of s v) × (encode_value (tree_of s v) ≡ b))
        (read_object (name_of s) b)
unfolding read_object tree_of
read_object-Post s b bounded =
    >>=-Post (λ w. encode_value w ≡ b) _ (parse_der b) (decode_struct (name_of s))
      (parse_der-Post b bounded)
      (λ w wrote.
        Post-map _ _ (decode_struct (name_of s) w)
          (λ o ((v, same), tree). (
            v,
            same,
            ap (λ d. encode_value (seq (items_of d))) (sym same) ∙ ap encode_value tree ∙ wrote,
          ))
          (Post-both (IsObject s) (λ o. seq (items_of o) ≡ w) (decode_struct (name_of s) w)
            (decode_struct-IsObject s w) (decode_struct-Post (name_of s) w)))

pub read_object-tree_of :
    (s : Structure) (v : Structures.Value s) (b : Bytes)
    → IsOctets b
    → length b ≤ 2 ^ 32
    → encode_value (tree_of s v) ≡ b
    → read_object (name_of s) b ≡ returned (dict_of s v)
unfolding read_object
read_object-tree_of s v b bounded small wrote =
    ap (λ r. r >>= decode_struct (name_of s))
      ((parse_der_iff b (tree_of s v) bounded small).1 wrote)
    ∙ decode_struct-tree_of s v
