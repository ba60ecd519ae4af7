-- ===== src/Verifier/Inside.antt =====
-- Octets that stand inside an encoding of ci/verify_vectors.py.
use canonical.Prelude.{◌+◌, ◌≡◌, [], ◌∷◌, ◌++◌, Bytes, ℕ, length, ◌≤◌, arith, length-append}
use canonical.Octets.{IsOctets}
use canonical.Verifier.{tagged, encode_value, encode_items, encode_length}
use canonical.Verifier.Tree.{tag_octet_string, tag_sequence, seq, bytes, cons, Value, Items}

pub length-encode_items-cons :
    (v : Value) (xs : Items)
    → length (encode_items (cons v xs)) ≡ length (encode_value v) + length (encode_items xs)
unfolding encode_value
length-encode_items-cons v xs = length-append (encode_value v) (encode_items xs)

-- Octets that stand inside octets.
abbrev pub IsWithin : Bytes → Bytes → Type 0
IsWithin xs bs = (length xs ≤ length bs) × (IsOctets bs → IsOctets xs)

IsWithin-left : (xs ys : Bytes) → IsWithin xs (xs ++ ys)
IsWithin-left xs ys = (omega (arith, length-append xs ys), left xs)
  where
    left : (xs : Bytes) → IsOctets (xs ++ ys) → IsOctets xs
    left [] h = tt
    left (x ∷ xs) (h, hs) = (h, left xs hs)

IsWithin-right : (xs ys : Bytes) → IsWithin ys (xs ++ ys)
IsWithin-right xs ys = (omega (arith, length-append xs ys), right xs)
  where
    right : (xs : Bytes) → IsOctets (xs ++ ys) → IsOctets ys
    right [] h = h
    right (x ∷ xs) (h, hs) = right xs hs

pub IsWithin-trans : (xs ys zs : Bytes) → IsWithin xs ys → IsWithin ys zs → IsWithin xs zs
IsWithin-trans xs ys zs (a, f) (b, g) = (omega arith, λ h. f (g h))

pub IsWithin-tagged : (tag : ℕ) (body : Bytes) → IsWithin body (tagged tag body)
unfolding tagged
IsWithin-tagged tag body =
    let (small, inside) = IsWithin-right (encode_length (length body)) body in
    (omega arith, λ (h, hs). inside hs)

pub content_bytes : (b : Bytes) → IsWithin b (encode_value (bytes b))
unfolding encode_value
content_bytes b = IsWithin-tagged tag_octet_string b

pub content_seq : (xs : Items) → IsWithin (encode_items xs) (encode_value (seq xs))
unfolding encode_value
content_seq xs = IsWithin-tagged tag_sequence (encode_items xs)

pub first_item : (v : Value) (xs : Items) → IsWithin (encode_value v) (encode_items (cons v xs))
unfolding encode_value
first_item v xs = IsWithin-left (encode_value v) (encode_items xs)

pub later_items : (v : Value) (xs : Items) → IsWithin (encode_items xs) (encode_items (cons v xs))
unfolding encode_value
later_items v xs = IsWithin-right (encode_value v) (encode_items xs)
