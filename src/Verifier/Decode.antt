-- ===== src/Verifier/Decode.antt =====
-- `decode_struct` of ci/verify_vectors.py loses nothing of the value.
use canonical.Verifier.Schema.{
  entry, done, no_dicts, int_kind, oct_kind, dict, Dicts, list, octets, schemas, number,
  decode_elements, seqof, decode_fields, Kind, Key, Field, Name, decode_struct, Dict,
}
use canonical.Verifier.Outcome.{Post, Post-map, >>=-Post}
use mathlib.Core.Path.{ap₂}
use canonical.Prelude.{ap, ◌∷◌, [], List, ◌≡◌, refl}
use canonical.Verifier.Tree.{bool, bytes, int, cons, seq, nil, Value, Items}

-- The value that an object stands for, its fields in their order.
unfoldable mutual
  pub items_of : Dict → Items
  items_of done = nil
  items_of (entry key f out) = cons (value_of f) (items_of out)

  pub value_of : Field → Value
  value_of (number i) = int i
  value_of (octets b) = bytes b
  value_of (list ds) = seq (elements_of ds)

  pub elements_of : Dicts → Items
  elements_of no_dicts = nil
  elements_of (dict o ds) = cons (seq (items_of o)) (elements_of ds)

mutual
  unfolding decode_struct items_of

  pub decode_struct-Post :
      (name : Name) (v : Value) → Post (λ o. seq (items_of o) ≡ v) (decode_struct name v)
  decode_struct-Post name (seq items) =
      Post-map (λ o. items_of o ≡ items) (λ o. seq (items_of o) ≡ seq items)
        (decode_fields (schemas name) items) (λ o same. ap seq same)
        (decode_fields-Post (schemas name) items)
  decode_struct-Post name (int i) = tt
  decode_struct-Post name (bytes b) = tt
  decode_struct-Post name (bool b) = tt

  decode_fields-Post :
      (fields : List (Key × Kind)) (items : Items)
      → Post (λ o. items_of o ≡ items) (decode_fields fields items)
  decode_fields-Post [] nil = refl
  decode_fields-Post [] (cons v items) = tt
  decode_fields-Post (field ∷ fields) nil = tt
  decode_fields-Post ((key, int_kind) ∷ fields) (cons (int i) items) =
      >>=-Post (λ o. items_of o ≡ items) (λ o. items_of o ≡ cons (int i) items)
        (decode_fields fields items) _ (decode_fields-Post fields items)
        (λ o same. ap (cons (int i)) same)
  decode_fields-Post ((key, oct_kind) ∷ fields) (cons (bytes b) items) =
      >>=-Post (λ o. items_of o ≡ items) (λ o. items_of o ≡ cons (bytes b) items)
        (decode_fields fields items) _ (decode_fields-Post fields items)
        (λ o same. ap (cons (bytes b)) same)
  decode_fields-Post ((key, seqof name) ∷ fields) (cons (seq elements) items) =
      >>=-Post (λ ds. elements_of ds ≡ elements) (λ o. items_of o ≡ cons (seq elements) items)
        (decode_elements name elements) _ (decode_elements-Post name elements)
        (λ ds inside.
          >>=-Post (λ o. items_of o ≡ items) (λ o. items_of o ≡ cons (seq elements) items)
            (decode_fields fields items) _ (decode_fields-Post fields items)
            (λ o same. ap₂ (λ xs ys. cons (seq xs) ys) inside same))
  decode_fields-Post ((key, int_kind) ∷ fields) (cons (bytes b) items) = tt
  decode_fields-Post ((key, int_kind) ∷ fields) (cons (bool b) items) = tt
  decode_fields-Post ((key, int_kind) ∷ fields) (cons (seq xs) items) = tt
  decode_fields-Post ((key, oct_kind) ∷ fields) (cons (int i) items) = tt
  decode_fields-Post ((key, oct_kind) ∷ fields) (cons (bool b) items) = tt
  decode_fields-Post ((key, oct_kind) ∷ fields) (cons (seq xs) items) = tt
  decode_fields-Post ((key, seqof name) ∷ fields) (cons (int i) items) = tt
  decode_fields-Post ((key, seqof name) ∷ fields) (cons (bytes b) items) = tt
  decode_fields-Post ((key, seqof name) ∷ fields) (cons (bool b) items) = tt

  decode_elements-Post :
      (name : Name) (items : Items)
      → Post (λ ds. elements_of ds ≡ items) (decode_elements name items)
  decode_elements-Post name nil = refl
  decode_elements-Post name (cons v items) =
      >>=-Post (λ o. seq (items_of o) ≡ v) (λ ds. elements_of ds ≡ cons v items)
        (decode_struct name v) _ (decode_struct-Post name v)
        (λ o one.
          >>=-Post (λ ds. elements_of ds ≡ items) (λ ds. elements_of ds ≡ cons v items)
            (decode_elements name items) _ (decode_elements-Post name items)
            (λ ds more. ap₂ cons one more))
