-- ===== src/Verifier/Forge.antt =====
-- The forgeries of ci/verify_vectors.py: an element more in a SEQUENCE (WIRE-SPEC.md 4.2.1, 4.3).
use canonical.Prelude.{length, ◌≤◌, ◌^◌, [], ◌∷◌, List, ℕ, suc, zero, pos, ◌≡◌, refl, sym}
use canonical.Verifier.{encode_value}
use canonical.Verifier.RoundTrip.{parse_der-encode_value}
use canonical.Verifier.Validate.{read_object, read_vector}
use canonical.Verifier.Outcome.{Run, returned, raised, broken, ◌>>=◌, first_of}
use canonical.Verifier.Tree.{Value, Items, int, bytes, bool, seq, nil, cons}
use canonical.Verifier.Schema.{
  Name, Key, Kind, int_kind, oct_kind, seqof, schemas, Dict, Dicts, decode_struct, decode_fields,
  decode_elements,
}

-- The element that `_splice` adds, at the end of a list.
abbrev pub add_last : Items → Items
add_last nil = cons (int (pos 0x63)) nil
add_last (cons v xs) = cons v (add_last xs)

-- `_splice`, for the paths that `_seq_paths` yields, which end in a SEQUENCE.
unfoldable mutual
  pub splice : Value → List ℕ → Run Value
  splice (seq xs) [] = returned (seq (add_last xs))
  splice (seq xs) (i ∷ path) = splice_items xs i path >>= λ ys. returned (seq ys)
  splice (int i) path = broken
  splice (bytes b) path = broken
  splice (bool b) path = broken

  pub splice_items : Items → ℕ → List ℕ → Run Items
  splice_items nil i path = broken
  splice_items (cons v xs) zero path = splice v path >>= λ w. returned (cons w xs)
  splice_items (cons v xs) (suc i) path = splice_items xs i path >>= λ ys. returned (cons v ys)

elements_more :
    (name : Name) (xs : Items) (ds : Dicts)
    → decode_elements name xs ≡ returned ds
    → decode_elements name (add_last xs) ≡ raised
unfolding decode_struct
elements_more name nil ds h = refl
elements_more name (cons v xs) ds h =
    let (o, one, rest) = first_of (decode_struct name v) _ ds h in
    let (es, more, _) = first_of (decode_elements name xs) _ ds rest in
    rw (one, elements_more name xs es more)

fields_more :
    (fields : List (Key × Kind)) (xs : Items) (o : Dict)
    → decode_fields fields xs ≡ returned o
    → decode_fields fields (add_last xs) ≡ raised
unfolding decode_struct
fields_more [] nil o h = refl
fields_more [] (cons v xs) o h = cc
fields_more (field ∷ fields) nil o h = cc
fields_more ((key, int_kind) ∷ fields) (cons (int i) xs) o h =
    let (p, rest, _) = first_of (decode_fields fields xs) _ o h in rw (fields_more fields xs p rest)
fields_more ((key, oct_kind) ∷ fields) (cons (bytes b) xs) o h =
    let (p, rest, _) = first_of (decode_fields fields xs) _ o h in rw (fields_more fields xs p rest)
fields_more ((key, seqof name) ∷ fields) (cons (seq elements) xs) o h =
    let (ds, each, after) = first_of (decode_elements name elements) _ o h in
    let (p, rest, _) = first_of (decode_fields fields xs) _ o after in
    rw (each, fields_more fields xs p rest)
fields_more ((key, int_kind) ∷ fields) (cons (bytes b) items) o h = cc
fields_more ((key, int_kind) ∷ fields) (cons (bool b) items) o h = cc
fields_more ((key, int_kind) ∷ fields) (cons (seq xs) items) o h = cc
fields_more ((key, oct_kind) ∷ fields) (cons (int i) items) o h = cc
fields_more ((key, oct_kind) ∷ fields) (cons (bool b) items) o h = cc
fields_more ((key, oct_kind) ∷ fields) (cons (seq xs) items) o h = cc
fields_more ((key, seqof name) ∷ fields) (cons (int i) items) o h = cc
fields_more ((key, seqof name) ∷ fields) (cons (bytes b) items) o h = cc
fields_more ((key, seqof name) ∷ fields) (cons (bool b) items) o h = cc

mutual
  unfolding splice decode_struct

  pub struct_refused :
      (name : Name) (v w : Value) (path : List ℕ) (o : Dict)
      → decode_struct name v ≡ returned o
      → splice v path ≡ returned w
      → decode_struct name w ≡ raised
  struct_refused name (seq xs) w [] o h k =
      let same : seq (add_last xs) ≡ w = cc in rw (sym same) (fields_more (schemas name) xs o h)
  struct_refused name (seq xs) w (i ∷ path) o h k =
      let (ys, put, end) = first_of (splice_items xs i path) _ w k in
      let same : seq ys ≡ w = cc in
      rw (sym same) (fields_refused (schemas name) xs ys i path o h put)
  struct_refused name (int i) w path o h k = cc
  struct_refused name (bytes b) w path o h k = cc
  struct_refused name (bool b) w path o h k = cc

  fields_refused :
      (fields : List (Key × Kind)) (xs ys : Items) (i : ℕ) (path : List ℕ) (o : Dict)
      → decode_fields fields xs ≡ returned o
      → splice_items xs i path ≡ returned ys
      → decode_fields fields ys ≡ raised
  fields_refused fields nil ys i path o h k = cc
  fields_refused [] (cons v xs) ys i path o h k = cc
  fields_refused ((key, int_kind) ∷ fields) (cons (int n) xs) ys zero path o h k = cc
  fields_refused ((key, oct_kind) ∷ fields) (cons (bytes b) xs) ys zero path o h k = cc
  fields_refused ((key, seqof name) ∷ fields) (cons (seq elements) xs) ys zero [] o h k =
      let (ds, each, after) = first_of (decode_elements name elements) _ o h in
      let same : cons (seq (add_last elements)) xs ≡ ys = cc in
      rw (sym same, elements_more name elements ds each)
  fields_refused ((key, seqof name) ∷ fields) (cons (seq elements) xs) ys zero (j ∷ path) o h k =
      let (w, put, end) = first_of (splice (seq elements) (j ∷ path)) _ ys k in
      let (zs, inside, _) = first_of (splice_items elements j path) _ w put in
      let (ds, each, after) = first_of (decode_elements name elements) _ o h in
      let same : cons (seq zs) xs ≡ ys = cc in
      rw (sym same, elements_refused name elements zs j path ds each inside)
  fields_refused ((key, int_kind) ∷ fields) (cons (int n) xs) ys (suc i) path o h k =
      let (zs, put, end) = first_of (splice_items xs i path) _ ys k in
      let (p, rest, _) = first_of (decode_fields fields xs) _ o h in
      let same : cons (int n) zs ≡ ys = cc in
      rw (sym same, fields_refused fields xs zs i path p rest put)
  fields_refused ((key, oct_kind) ∷ fields) (cons (bytes b) xs) ys (suc i) path o h k =
      let (zs, put, end) = first_of (splice_items xs i path) _ ys k in
      let (p, rest, _) = first_of (decode_fields fields xs) _ o h in
      let same : cons (bytes b) zs ≡ ys = cc in
      rw (sym same, fields_refused fields xs zs i path p rest put)
  fields_refused ((key, seqof name) ∷ fields) (cons (seq elements) xs) ys (suc i) path o h k =
      let (zs, put, end) = first_of (splice_items xs i path) _ ys k in
      let (ds, each, after) = first_of (decode_elements name elements) _ o h in
      let (p, rest, _) = first_of (decode_fields fields xs) _ o after in
      let same : cons (seq elements) zs ≡ ys = cc in
      rw (sym same, each, fields_refused fields xs zs i path p rest put)
  fields_refused ((key, int_kind) ∷ fields) (cons (bytes b) xs) ys i path o h k = cc
  fields_refused ((key, int_kind) ∷ fields) (cons (bool b) xs) ys i path o h k = cc
  fields_refused ((key, int_kind) ∷ fields) (cons (seq b) xs) ys i path o h k = cc
  fields_refused ((key, oct_kind) ∷ fields) (cons (int b) xs) ys i path o h k = cc
  fields_refused ((key, oct_kind) ∷ fields) (cons (bool b) xs) ys i path o h k = cc
  fields_refused ((key, oct_kind) ∷ fields) (cons (seq b) xs) ys i path o h k = cc
  fields_refused ((key, seqof name) ∷ fields) (cons (int b) xs) ys i path o h k = cc
  fields_refused ((key, seqof name) ∷ fields) (cons (bytes b) xs) ys i path o h k = cc
  fields_refused ((key, seqof name) ∷ fields) (cons (bool b) xs) ys i path o h k = cc

  elements_refused :
      (name : Name) (xs ys : Items) (i : ℕ) (path : List ℕ) (ds : Dicts)
      → decode_elements name xs ≡ returned ds
      → splice_items xs i path ≡ returned ys
      → decode_elements name ys ≡ raised
  elements_refused name nil ys i path ds h k = cc
  elements_refused name (cons v xs) ys zero path ds h k =
      let (w, put, end) = first_of (splice v path) _ ys k in
      let (o, one, rest) = first_of (decode_struct name v) _ ds h in
      let same : cons w xs ≡ ys = cc in rw (sym same, struct_refused name v w path o one put)
  elements_refused name (cons v xs) ys (suc i) path ds h k =
      let (zs, put, end) = first_of (splice_items xs i path) _ ys k in
      let (o, one, rest) = first_of (decode_struct name v) _ ds h in
      let (es, more, _) = first_of (decode_elements name xs) _ ds rest in
      let same : cons v zs ≡ ys = cc in
      rw (sym same, one, elements_refused name xs zs i path es more put)

-- Where decode_struct returns an object for a tree, under any name of SCHEMAS, and an INTEGER is
-- spliced behind the last element of any SEQUENCE in the tree: the input that encode_value writes
-- for the forged tree, where it has at most 2^32 bytes, is refused with a SpecError.
pub forgery_refused :
    (name : Name) (tree forged : Value) (path : List ℕ) (o : Dict)
    → decode_struct name tree ≡ returned o
    → splice tree path ≡ returned forged
    → length (encode_value forged) ≤ 2 ^ 32
    → read_vector name (encode_value forged) ≡ raised
unfolding read_vector read_object
forgery_refused name tree forged path o h k small =
    rw (parse_der-encode_value forged small, struct_refused name tree forged path o h k)
