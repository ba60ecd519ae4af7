-- ===== src/Verifier/Growth.antt =====
-- How long an encoding gets where an element is added to a SEQUENCE of it.
use canonical.Prelude.{
  Bytes, length, length-append, ◌≤◌, ◌<◌, ◌*◌, ◌+◌, [], ◌∷◌, List, ℕ, suc, zero, ◌≡◌, refl, sym,
  arith,
}
use canonical.Verifier.{encode_value, encode_items, encode_length, octet_count, tagged}
use native.Mathlib.Decide.{dec_lt}
use native.Mathlib.Nat.{pow-suc}
use canonical.Verifier.Inside.{length-encode_items-cons}
use canonical.Verifier.OctetCount.{IsCount-le, IsCount-lt, octet_count-IsCount}
use canonical.Verifier.Outcome.{returned, first_of}
use canonical.Verifier.Tree.{Value, Items, int, bytes, bool, seq, nil, cons, tag_sequence}
use canonical.Verifier.Forge.{splice, splice_items, add_last}
use canonical.Octets.{length-big_endian}

length-encode_length-long : (n : ℕ) → 128 ≤ n → length (encode_length n) ≡ 1 + octet_count n n
unfolding encode_length
length-encode_length-long n h = ground (arith, length-big_endian (octet_count n n) n)

length-encode_length-short : (n : ℕ) → n < 128 → length (encode_length n) ≡ 1
unfolding encode_length
length-encode_length-short n h = ground arith

length-encode_length-pos : (n : ℕ) → 0 < length (encode_length n)
length-encode_length-pos n = elim (dec_lt n 128) [
  | yes short ↦ omega (arith, length-encode_length-short n short)
  | no long ↦ omega (arith, length-encode_length-long n (omega arith))
]

-- Twice the number, and three, takes two octets more at most.
length-encode_length-grows :
    (n m : ℕ) → m ≤ 2 * n + 3 → length (encode_length m) ≤ length (encode_length n) + 2
length-encode_length-grows n m h = elim (dec_lt m 128) [
  | yes short ↦ omega (arith, length-encode_length-short m short)
  | no notshort ↦
      let long_m = length-encode_length-long m (omega arith) in
      let count_m = octet_count-IsCount m m (omega arith) in
      elim (dec_lt n 128) [
        | yes short ↦
            let few : octet_count m m ≤ 2 =
              IsCount-le m (octet_count m m) 2 count_m (omega arith) in
            omega (arith, length-encode_length-short n short)
        | no notshort ↦
            let long_n = length-encode_length-long n (omega arith) in
            let below = IsCount-lt n _ (octet_count-IsCount n n (omega arith)) in
            let few : octet_count m m ≤ suc (octet_count n n) =
              IsCount-le m (octet_count m m) (suc (octet_count n n)) count_m
                (omega (arith, pow-suc 256 (octet_count n n))) in
            omega arith
      ]
]

length-tagged-eq :
    (tag : ℕ) (body : Bytes)
    → length (tagged tag body) ≡ 1 + (length (encode_length (length body)) + length body)
unfolding tagged
length-tagged-eq tag body = omega (arith, length-append (encode_length (length body)) body)

length-encode_value-seq :
    (xs : Items)
    → length (encode_value (seq xs))
      ≡ 1 + (length (encode_length (length (encode_items xs))) + length (encode_items xs))
unfolding encode_value
length-encode_value-seq xs = length-tagged-eq tag_sequence (encode_items xs)

-- A SEQUENCE whose content has grown.
pub seq_grows :
    (xs ys : Items)
    → length (encode_items ys) ≤ 2 * length (encode_items xs) + 3
    → length (encode_value (seq ys)) ≤ 2 * length (encode_value (seq xs)) + 3
seq_grows xs ys h =
    let longer =
      length-encode_length-grows (length (encode_items xs)) (length (encode_items ys)) h in
    omega (
      arith,
      length-encode_value-seq xs,
      length-encode_value-seq ys,
      longer,
      length-encode_length-pos (length (encode_items xs)),
    )

length-encode_items-add_last :
    (xs : Items) → length (encode_items (add_last xs)) ≡ length (encode_items xs) + 3
length-encode_items-add_last nil = unfold encode_value in refl
length-encode_items-add_last (cons v xs) = omega (
  arith,
  length-encode_items-cons v xs,
  length-encode_items-cons v (add_last xs),
  length-encode_items-add_last xs,
)

mutual
  unfolding splice

  pub splice-grows :
      (v w : Value) (path : List ℕ)
      → splice v path ≡ returned w
      → length (encode_value w) ≤ 2 * length (encode_value v) + 3
  splice-grows (seq xs) w [] h =
      let same : seq (add_last xs) ≡ w = cc in
      rw (sym same) (seq_grows xs (add_last xs) (omega (arith, length-encode_items-add_last xs)))
  splice-grows (seq xs) w (i ∷ path) h =
      let (ys, put, end) = first_of (splice_items xs i path) _ w h in
      let same : seq ys ≡ w = cc in
      rw (sym same) (seq_grows xs ys (splice_items-grows xs ys i path put))
  splice-grows (int i) w path h = cc
  splice-grows (bytes b) w path h = cc
  splice-grows (bool b) w path h = cc

  splice_items-grows :
      (xs ys : Items) (i : ℕ) (path : List ℕ)
      → splice_items xs i path ≡ returned ys
      → length (encode_items ys) ≤ 2 * length (encode_items xs) + 3
  splice_items-grows nil ys i path h = cc
  splice_items-grows (cons v xs) ys zero path h =
      let (w, put, end) = first_of (splice v path) _ ys h in
      let same : cons w xs ≡ ys = cc in
      rw (sym same) (
        omega (
          arith,
          length-encode_items-cons v xs,
          length-encode_items-cons w xs,
          splice-grows v w path put,
        ))
  splice_items-grows (cons v xs) ys (suc i) path h =
      let (zs, put, end) = first_of (splice_items xs i path) _ ys h in
      let same : cons v zs ≡ ys = cc in
      rw (sym same) (
        omega (
          arith,
          length-encode_items-cons v xs,
          length-encode_items-cons v zs,
          splice_items-grows xs zs i path put,
        ))
