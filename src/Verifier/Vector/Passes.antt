-- ===== src/Verifier/Vector/Passes.antt =====
-- `check_vector` of ci/verify_vectors.py, on the vector of an input that it reads.
use canonical.Verifier.Outcome.{raised, >>=-eq, >>=-returned, returned}
use canonical.Prelude.{
  none, some, ap, bytes_equal→eq, ◌↔◌, false, true, bytes_equal, Bool, refl, bytes_equal_refl, ◌∙◌,
  ◌+◌, [], sym, ◌^◌, ◌<◌, length, ◌≡◌, List, Bytes,
}
use canonical.Verifier.Vector.{
  check_named, check_vector, expect, Report, Note, Vector, check_decoded, notes_of,
}
use canonical.Verifier.Forgeries.{derived_forgeries, seq_paths}
use canonical.Verifier.Encode.{encode_struct-read_object, encode_struct}
use canonical.Verifier.Compare.{compare_fields}
use canonical.Verifier.Objects.{name_of}
use canonical.Verifier.Validate.{validate, read_object, read_vector}
use canonical.Verifier.Schema.{decode_struct, Dict, Name}
use canonical.Verifier.{parse_der}
use canonical.Octets.{IsOctets}
use canonical.Verifier.Tree.{Value}
use canonical.Structures.{Structure}
use canonical.Verifier.Refused.{derived_forgeries-length, version_forgeries}

-- The decoding of `read_vector`, step by step.
pub read_steps :
    (name : Name) (b : Bytes) (o : Dict)
    → read_vector name b ≡ returned o
    → (tree : Value) × (parse_der b ≡ returned tree)
      × (decode_struct name tree ≡ returned o)
      × (validate name o ≡ returned tt)
unfolding read_vector read_object
read_steps name b o h =
    let (p, read, rest) = >>=-returned _ _ o h in
    let (tree, parsed, decoded) = >>=-returned (parse_der b) _ p read in
    let (_, valid, end) = >>=-returned (validate name p) _ o rest in
    let valid_ : validate name p ≡ returned tt = valid in
    let same : p ≡ o = cc in
    (tree, parsed, decoded ∙ ap returned same, ap (validate name) (sym same) ∙ valid_)

check_decoded_passes :
    (sha256 sha512 : Bytes → Bytes) (s : Structure) (tree : Value) (o : Dict) (vec : Vector)
    (notes : List Note)
    → IsOctets vec.der
    → length vec.der < 2 ^ 30
    → read_object (name_of s) vec.der ≡ returned o
    → parse_der vec.der ≡ returned tree
    → decode_struct (name_of s) tree ≡ returned o
    → compare_fields (name_of s) o vec.fields ≡ returned tt
    → sha256 vec.der ≡ vec.sha256
    → notes_of sha512 (name_of s) vec.fields o ≡ returned notes
    → check_decoded sha256 sha512 (name_of s) tree o vec
      ≡ returned (record {
        size = length vec.der;
        forgeries = length (seq_paths tree []) + 1 + version_forgeries s;
        notes = notes;
      })
unfolding check_decoded
check_decoded_passes sha256 sha512 s tree o vec notes bounded small read parsed decoded compared
      hashed noted =
    let again : encode_struct (name_of s) o ≡ returned vec.der =
      encode_struct-read_object s vec.der o bounded read in
    let forged = derived_forgeries-length s tree vec.der o bounded small parsed decoded in
    rw
      (
        compared,
        again,
        bytes_equal_refl vec.der,
        hashed,
        bytes_equal_refl vec.sha256,
        noted,
        forged,
      )
      refl

-- What a passing vector is: its input decodes and validates, its fields are those of the object,
-- its hash is that of the input, and its notes can be taken.
abbrev pub Passed : (Bytes → Bytes) → (Bytes → Bytes) → Structure → Vector → Report → Type 0
Passed sha256 sha512 s vec r =
    (o : Dict) × (tree : Value) × (read_vector (name_of s) vec.der ≡ returned o)
    × (parse_der vec.der ≡ returned tree)
    × (compare_fields (name_of s) o vec.fields ≡ returned tt)
    × (sha256 vec.der ≡ vec.sha256)
    × (notes_of sha512 (name_of s) vec.fields o ≡ returned r.notes)
    × (r.size ≡ length vec.der)
    × (r.forgeries ≡ length (seq_paths tree []) + 1 + version_forgeries s)

expect-returned : (c : Bool) (u : Unit) → expect c ≡ returned u → c ≡ true
expect-returned true u h = refl
expect-returned false u h = cc

-- The tests that a report comes from.
decoded_tests :
    (sha256 sha512 : Bytes → Bytes) (s : Structure) (tree : Value) (o : Dict) (vec : Vector)
    (r : Report)
    → check_decoded sha256 sha512 (name_of s) tree o vec ≡ returned r
    → (compare_fields (name_of s) o vec.fields ≡ returned tt)
      × (sha256 vec.der ≡ vec.sha256)
      × (notes_of sha512 (name_of s) vec.fields o ≡ returned r.notes)
unfolding check_decoded
decoded_tests sha256 sha512 s tree o vec r h =
    let (_, compared, h1) = >>=-returned (compare_fields (name_of s) o vec.fields) _ r h in
    let (again, _, h2) = >>=-returned (encode_struct (name_of s) o) _ r h1 in
    let (_, _, h3) = >>=-returned (expect (bytes_equal again vec.der)) _ r h2 in
    let (u, hashed, h4) = >>=-returned (expect (bytes_equal (sha256 vec.der) vec.sha256)) _ r h3 in
    let (notes, noted, h5) = >>=-returned (notes_of sha512 (name_of s) vec.fields o) _ r h4 in
    let (count_, _, end) = >>=-returned (derived_forgeries (name_of s) tree vec.der) _ r h5 in
    let whole : record { size = length vec.der; forgeries = count_; notes = notes } ≡ r = cc in
    (
      compared,
      bytes_equal→eq _ _ (expect-returned _ u hashed),
      noted ∙ ap (λ (q : Report). returned q.notes) whole,
    )

-- A vector of a known structure.
check_vector-named :
    (sha256 sha512 : Bytes → Bytes) (name : Name) (vec : Vector)
    → vec.structure ≡ some name
    → check_vector sha256 sha512 vec ≡ check_named sha256 sha512 name vec
unfolding check_vector
check_vector-named sha256 sha512 name vec named =
    ap (λ k. elim k [ none ↦ raised | some n ↦ check_named sha256 sha512 n vec ]) named

read_again :
    (name : Name) (b : Bytes) (tree : Value) (o : Dict)
    → parse_der b ≡ returned tree
    → decode_struct name tree ≡ returned o
    → read_object name b ≡ returned o
unfolding read_object
read_again name b tree o parsed decoded = rw parsed decoded

named_passes :
    (sha256 sha512 : Bytes → Bytes) (s : Structure) (vec : Vector) (r : Report)
    → IsOctets vec.der
    → length vec.der < 2 ^ 30
    → Passed sha256 sha512 s vec r
    → check_named sha256 sha512 (name_of s) vec ≡ returned r
unfolding check_named
named_passes sha256 sha512 s vec r bounded small
      (o, tree, read, parsed, compared, hashed, noted, size, total) =
    let (tree', parsed', decoded', valid) = read_steps (name_of s) vec.der o read in
    let same : tree' ≡ tree = cc in
    let decoded = ap (decode_struct (name_of s)) (sym same) ∙ decoded' in
    let object = read_again (name_of s) vec.der tree o parsed decoded in
    let done_ =
      check_decoded_passes sha256 sha512 s tree o vec r.notes bounded small object parsed decoded
        compared hashed noted in
    let whole : record {
      size = length vec.der;
      forgeries = length (seq_paths tree []) + 1 + version_forgeries s;
      notes = r.notes;
    }
        ≡ r =
      rw (sym size, sym total) refl in
    >>=-eq (parse_der vec.der) _ tree parsed
    ∙ >>=-eq (decode_struct (name_of s) tree) _ o decoded
    ∙ >>=-eq (validate (name_of s) o) _ tt valid
    ∙ done_
    ∙ ap returned whole

named_tests :
    (sha256 sha512 : Bytes → Bytes) (s : Structure) (vec : Vector) (r : Report)
    → IsOctets vec.der
    → length vec.der < 2 ^ 30
    → check_named sha256 sha512 (name_of s) vec ≡ returned r
    → Passed sha256 sha512 s vec r
unfolding check_named
named_tests sha256 sha512 s vec r bounded small h =
    let (tree, parsed, h1) = >>=-returned (parse_der vec.der) _ r h in
    let (o, decoded, h2) = >>=-returned (decode_struct (name_of s) tree) _ r h1 in
    let (_, valid, rest) = >>=-returned (validate (name_of s) o) _ r h2 in
    let (compared, hashed, noted) = decoded_tests sha256 sha512 s tree o vec r rest in
    let object = read_again (name_of s) vec.der tree o parsed decoded in
    let done_ =
      check_decoded_passes sha256 sha512 s tree o vec r.notes bounded small object parsed decoded
        compared hashed noted in
    let whole : r ≡ record {
      size = length vec.der;
      forgeries = length (seq_paths tree []) + 1 + version_forgeries s;
      notes = r.notes;
    } =
      cc in
    (
      o,
      tree,
      unfold read_vector in rw (object, valid) refl,
      parsed,
      compared,
      hashed,
      noted,
      ap (λ (q : Report). q.size) whole,
      ap (λ (q : Report). q.forgeries) whole,
    )

-- For each of the ten structures, on a vector of that structure with an input of octets shorter
-- than 2^30 bytes: check_vector returns a report exactly when the input decodes and validates to
-- an object, the object passes compare_fields against the vector's fields, the vector's hash is
-- that of the input, and the report holds the notes that can be taken of the object, the length
-- of the input, and one forgery for each SEQUENCE of the input, one for the byte behind it, and
-- one for the version where the structure has one. The encoding done again and the forgeries add
-- no condition of their own.
pub check_vector_iff :
    (sha256 sha512 : Bytes → Bytes) (s : Structure) (vec : Vector) (r : Report)
    → vec.structure ≡ some (name_of s)
    → IsOctets vec.der
    → length vec.der < 2 ^ 30
    → (check_vector sha256 sha512 vec ≡ returned r) ↔ Passed sha256 sha512 s vec r
check_vector_iff sha256 sha512 s vec r named bounded small =
    let start = check_vector-named sha256 sha512 (name_of s) vec named in
    (
      λ h. named_tests sha256 sha512 s vec r bounded small (sym start ∙ h),
      λ passed. start ∙ named_passes sha256 sha512 s vec r bounded small passed,
    )
