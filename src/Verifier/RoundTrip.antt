-- ===== src/Verifier/RoundTrip.antt =====
-- What `encode_value` of ci/verify_vectors.py writes, `parse_der` reads.
use mathlib.Core.List.{append-nil, append_assoc}
use canonical.Prelude.{
  ◌+◌, drop-append, take-append, ltb, zero, false, true, [], ◌∷◌, ◌==◌, refl, ◌++◌, suc,
  length-append, if◌then◌else◌, ◌≤◌, ◌≡◌, ◌^◌, arith, ◌<◌, ◌*◌, length, Bool, ℤ, ℕ, bytes_equal,
  Bytes,
}
use canonical.Verifier.{
  parse_der, nothing_left, read_length, encode_items, read_items, encode_length, minimal_signed,
  tagged, read_value, read_primitive, encode_value,
}
use canonical.Verifier.Tree.{
  nil, seq, tag_sequence, cons, bool, bytes, tag_boolean, int, tag_octet_string, tag_integer, Items,
  Value,
}
use canonical.Verifier.Outcome.{◌>>=◌, returned}
use canonical.Verifier.Length.{read_length-encode_length}
use canonical.Verifier.Integer.{read_integer-minimal_signed}

-- A value that starts where a tag, a length and a body were written.
read_value-tagged :
    (fuel tag : ℕ) (body rest : Bytes)
    → length body < 2 ^ 32
    → read_value (suc fuel) (tagged tag body ++ rest) ≡ (
        if tag == tag_sequence
        then (read_items fuel body >>= λ xs. returned (seq xs, rest))
        else (read_primitive tag body >>= λ v. returned (v, rest)))
unfolding read_value tagged
read_value-tagged fuel tag body rest small =
    let reads : read_length ((encode_length (length body) ++ body) ++ rest)
        ≡ returned (length body, body ++ rest) =
      rw append_assoc (read_length-encode_length (length body) (body ++ rest) small) in
    let enough : ltb (length (body ++ rest)) (length body) ≡ false =
      ground (arith, length-append body rest) in
    rw (reads, take-append body rest, drop-append body rest, enough) refl

read_primitive-int : (i : ℤ) → read_primitive tag_integer (minimal_signed i) ≡ returned (int i)
unfolding read_primitive
read_primitive-int i = rw (read_integer-minimal_signed i) refl

read_primitive-bytes : (b : Bytes) → read_primitive tag_octet_string b ≡ returned (bytes b)
unfolding read_primitive
read_primitive-bytes b = refl

read_primitive-bool :
    (b : Bool) → read_primitive tag_boolean (if b then 0xff ∷ [] else 0x00 ∷ []) ≡ returned (bool b)
unfolding read_primitive bytes_equal
read_primitive-bool true = refl
read_primitive-bool false = refl

pub length-tagged : (tag : ℕ) (body : Bytes) → length body < length (tagged tag body)
unfolding tagged
length-tagged tag body = omega (arith, length-append (encode_length (length body)) body)

read_items_nil : (fuel : ℕ) → read_items (suc fuel) [] ≡ returned nil
unfolding read_value
read_items_nil fuel = refl

-- An item and the items behind it.
read_items_step :
    (fuel : ℕ) (bs : Bytes) (v : Value) (rest : Bytes) (xs : Items)
    → 0 < length bs
    → read_value fuel bs ≡ returned (v, rest)
    → read_items fuel rest ≡ returned xs
    → read_items (suc fuel) bs ≡ returned (cons v xs)
unfolding read_value
read_items_step fuel [] v rest xs h one more = absurd (omega arith)
read_items_step fuel (b ∷ bs) v rest xs h one more = rw (one, more)

pub length-encode_value_pos : (v : Value) → 0 < length (encode_value v)
unfolding encode_value
length-encode_value_pos (int i) = omega (arith, length-tagged tag_integer (minimal_signed i))
length-encode_value_pos (bytes b) = omega (arith, length-tagged tag_octet_string b)
length-encode_value_pos (bool b) =
    omega (arith, length-tagged tag_boolean (if b then 0xff ∷ [] else 0x00 ∷ []))
length-encode_value_pos (seq xs) = omega (arith, length-tagged tag_sequence (encode_items xs))

mutual
  unfolding encode_value

  pub read_value-eq :
      (v : Value) (fuel : ℕ) (rest : Bytes)
      → 2 * length (encode_value v) < fuel
      → length (encode_value v) ≤ 2 ^ 32
      → read_value fuel (encode_value v ++ rest) ≡ returned (v, rest)
  read_value-eq v zero rest enough small = absurd (omega arith)
  read_value-eq (int i) (suc fuel) rest enough small =
      rw
        (
          read_value-tagged fuel tag_integer (minimal_signed i) rest
              (omega (arith, length-tagged tag_integer (minimal_signed i))),
          read_primitive-int i,
        )
        refl
  read_value-eq (bytes b) (suc fuel) rest enough small =
      rw
        (
          read_value-tagged fuel tag_octet_string b rest
              (omega (arith, length-tagged tag_octet_string b)),
          read_primitive-bytes b,
        )
        refl
  read_value-eq (bool b) (suc fuel) rest enough small =
      let body : Bytes = if b then 0xff ∷ [] else 0x00 ∷ [] in
      rw
        (
          read_value-tagged fuel tag_boolean body rest
              (omega (arith, length-tagged tag_boolean body)),
          read_primitive-bool b,
        )
        refl
  read_value-eq (seq xs) (suc fuel) rest enough small =
      let shorter = length-tagged tag_sequence (encode_items xs) in
      rw
        (
          read_value-tagged fuel tag_sequence (encode_items xs) rest (omega arith),
          read_items-eq xs fuel (omega arith) (omega arith),
        )
        refl

  read_items-eq :
      (xs : Items) (fuel : ℕ)
      → suc (2 * length (encode_items xs)) < fuel
      → length (encode_items xs) ≤ 2 ^ 32
      → read_items fuel (encode_items xs) ≡ returned xs
  read_items-eq xs zero enough small = absurd (omega arith)
  read_items-eq nil (suc fuel) enough small = read_items_nil fuel
  read_items-eq (cons v xs) (suc fuel) enough small =
      let total = length-append (encode_value v) (encode_items xs) in
      let some_ = length-encode_value_pos v in
      read_items_step fuel (encode_value v ++ encode_items xs) v (encode_items xs) xs (omega arith)
        (read_value-eq v fuel (encode_items xs) (omega arith) (omega arith))
        (read_items-eq xs fuel (omega arith) (omega arith))

nothing_left_end : (v : Value) → nothing_left (v, []) ≡ returned v
unfolding nothing_left
nothing_left_end v = refl

pub parse_der-encode_value :
    (v : Value) → length (encode_value v) ≤ 2 ^ 32 → parse_der (encode_value v) ≡ returned v
unfolding parse_der
parse_der-encode_value v small =
    let whole : read_value (2 * length (encode_value v) + 1) (encode_value v) ≡ returned (v, []) =
      rw append-nil at (read_value-eq v (2 * length (encode_value v) + 1) [] (omega arith) small) in
    rw whole (nothing_left_end v)
