-- ===== src/Verifier/Refused.antt =====
-- Every forgery of `derived_forgeries` of ci/verify_vectors.py is refused.
use canonical.Prelude.{
  ◌∙◌, sym, ap, Bytes, [], ◌∷◌, ◌++◌, List, ℕ, ◌+◌, ◌*◌, ◌≤◌, ◌<◌, ◌^◌, ◌≡◌, refl, sym, ap, arith,
  All, length, length-append,
}
use canonical.Octets.{IsOctets}
use canonical.Verifier.{encode_value, parse_der, nothing_left}
use canonical.Verifier.RoundTrip.{read_value-eq, parse_der-encode_value}
use canonical.Verifier.Laws.{parse_der-Post}
use canonical.Verifier.Outcome.{returned, raised, ◌>>=◌, Post-returned}
use canonical.Verifier.Tree.{Value, seq}
use canonical.Verifier.Schema.{Name, Dict, decode_struct}
use canonical.Verifier.Validate.{read_vector, read_object, validate}
use canonical.Verifier.Decode.{decode_struct-Post, items_of}
use canonical.Verifier.Objects.{dict_of, name_of, tree_of, decode_struct-tree_of}
use canonical.Verifier.Inverse.{decode_struct-IsObject}
use canonical.Verifier.Encode.{encode_struct, struct_value-dict_of}
use canonical.Verifier.Forge.{forgery_refused}
use canonical.Verifier.Forgeries.{
  refuse_version, seq_paths, count_splices, count_version, expect_raised, derived_forgeries,
}
use canonical.Verifier.Growth.{splice-grows}
use canonical.Verifier.Paths.{IsSpliced, seq_paths-IsSpliced}
use canonical.Structures.{
  Structure, versioned, proposal_v0, signature_set_v0, Versioned, VersionedValue, header,
  genesis_v1, signed_v1, signed_blob_v1, commit_payload_v1, client_request_v1, read_index_v1,
  commit_certificate_v1,
}
use canonical.Verifier.NextVersion.{second, with_field-second, validate-second, second_grows}
use canonical.Structures

count_splices-length :
    (name : Name) (tree : Value) (o : Dict) (paths : List (List ℕ))
    → decode_struct name tree ≡ returned o
    → length (encode_value tree) < 2 ^ 30
    → All (IsSpliced tree) paths
    → count_splices name tree paths ≡ returned (length paths)
unfolding count_splices
count_splices-length name tree o [] decoded small h = refl
count_splices-length name tree o (path ∷ paths) decoded small ((w, put), h) =
    let grown = splice-grows tree w path put in
    let refused = forgery_refused name tree w path o decoded put (omega arith) in
    rw (put, refused, count_splices-length name tree o paths decoded small h)
      (ap returned {x = 1 + length paths} (omega arith))

pub parse_der-trailing :
    (v : Value) (x : ℕ) (rest : Bytes)
    → length (encode_value v) ≤ 2 ^ 32
    → parse_der (encode_value v ++ (x ∷ rest)) ≡ raised
unfolding parse_der nothing_left
parse_der-trailing v x rest small =
    let wire = encode_value v ++ (x ∷ rest) in
    let enough = length-append (encode_value v) (x ∷ rest) in
    rw (read_value-eq v (2 * length wire + 1) (x ∷ rest) (omega arith) small)

read_vector-raised :
    (name : Name) (b : Bytes) (o : Dict)
    → read_object name b ≡ returned o
    → validate name o ≡ raised
    → read_vector name b ≡ raised
unfolding read_vector
read_vector-raised name b o read refused =
    ap (λ r. r >>= λ o. validate name o >>= λ _. returned o) read
    ∙ ap (λ m. m >>= λ _. returned o) refused

read_vector-second :
    (u : Versioned) (v : VersionedValue u)
    → length (encode_value (tree_of (versioned u) (second u v))) ≤ 2 ^ 32
    → read_vector (name_of (versioned u)) (encode_value (tree_of (versioned u) (second u v)))
      ≡ raised
read_vector-second u v small =
    read_vector-raised (name_of (versioned u)) _ (dict_of (versioned u) (second u v))
      (unfold read_object in
        rw (parse_der-encode_value (tree_of (versioned u) (second u v)) small)
          (decode_struct-tree_of (versioned u) (second u v)))
      (validate-second u v)

refuse_version-eq :
    (u : Versioned) (tree : Value) (v : VersionedValue u)
    → decode_struct (name_of (versioned u)) tree ≡ returned (dict_of (versioned u) v)
    → tree_of (versioned u) v ≡ tree
    → length (encode_value tree) < 2 ^ 30
    → refuse_version (name_of (versioned u)) tree ≡ returned 1
unfolding refuse_version encode_struct
refuse_version-eq u tree v decoded same small =
    let grown = second_grows u v in
    let size = ap (λ t. length (encode_value t)) same in
    rw (decoded, with_field-second u v, struct_value-dict_of (versioned u) (second u v))
      (ap expect_raised (read_vector-second u v (omega arith)))

-- How many forgeries of the version a structure has.
abbrev pub version_forgeries : Structure → ℕ
version_forgeries (versioned u) = 1
version_forgeries proposal_v0 = 0
version_forgeries signature_set_v0 = 0

count_version-eq :
    (s : Structure) (tree : Value) (v : Structures.Value s)
    → decode_struct (name_of s) tree ≡ returned (dict_of s v)
    → tree_of s v ≡ tree
    → length (encode_value tree) < 2 ^ 30
    → count_version (name_of s) tree ≡ returned (version_forgeries s)
count_version-eq (versioned header) tree v decoded same small =
    unfold count_version in refuse_version-eq header tree v decoded same small
count_version-eq (versioned genesis_v1) tree v decoded same small =
    unfold count_version in refuse_version-eq genesis_v1 tree v decoded same small
count_version-eq (versioned signed_v1) tree v decoded same small =
    unfold count_version in refuse_version-eq signed_v1 tree v decoded same small
count_version-eq (versioned signed_blob_v1) tree v decoded same small =
    unfold count_version in refuse_version-eq signed_blob_v1 tree v decoded same small
count_version-eq (versioned commit_payload_v1) tree v decoded same small =
    unfold count_version in refuse_version-eq commit_payload_v1 tree v decoded same small
count_version-eq (versioned client_request_v1) tree v decoded same small =
    unfold count_version in refuse_version-eq client_request_v1 tree v decoded same small
count_version-eq (versioned read_index_v1) tree v decoded same small =
    unfold count_version in refuse_version-eq read_index_v1 tree v decoded same small
count_version-eq (versioned commit_certificate_v1) tree v decoded same small =
    unfold count_version in refuse_version-eq commit_certificate_v1 tree v decoded same small
count_version-eq proposal_v0 tree v decoded same small = unfold count_version in refl
count_version-eq signature_set_v0 tree v decoded same small = unfold count_version in refl

-- For each of the ten structures, on an input of octets shorter than 2^30 bytes that parses to a
-- tree which decode_struct takes: derived_forgeries returns, for every forgery it makes is
-- refused, and its count is that of the SEQUENCEs of the tree, and one for the byte behind the
-- input, and one for the version where the structure has one.
pub derived_forgeries-length :
    (s : Structure) (tree : Value) (b : Bytes) (o : Dict)
    → IsOctets b
    → length b < 2 ^ 30
    → parse_der b ≡ returned tree
    → decode_struct (name_of s) tree ≡ returned o
    → derived_forgeries (name_of s) tree b
      ≡ returned (length (seq_paths tree []) + 1 + version_forgeries s)
unfolding derived_forgeries
derived_forgeries-length s tree b o bounded small parsed decoded =
    let wrote = Post-returned _ _ tree (parse_der-Post b bounded) parsed in
    let (v, same) = Post-returned _ _ o (decode_struct-IsObject s tree) decoded in
    let whole = Post-returned _ _ o (decode_struct-Post (name_of s) tree) decoded in
    let size = ap length wrote in
    let spliced =
      count_splices-length (name_of s) tree o (seq_paths tree []) decoded (omega arith)
        (seq_paths-IsSpliced tree) in
    let trailing : parse_der (b ++ (0xff ∷ [])) ≡ raised =
      ap (λ c. parse_der (c ++ (0xff ∷ []))) (sym wrote)
      ∙ parse_der-trailing tree 0xff [] (omega arith) in
    let version =
      count_version-eq s tree v (decoded ∙ ap returned same)
        (unfold tree_of in (ap (λ d. seq (items_of d)) (sym same) ∙ whole)) (omega arith) in
    rw (spliced, trailing, version)
