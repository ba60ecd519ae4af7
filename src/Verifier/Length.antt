-- ===== src/Verifier/Length.antt =====
-- `_read_length` and `_encode_length` of ci/verify_vectors.py undo each other.
use canonical.Prelude.{
  All-take, take-append-drop, length-take, drop, take, ap, ◌∙◌, ◌%◌, [], drop-append, take-append,
  length-append, false, ltb, ◌+◌, ◌++◌, ◌∷◌, length, Bytes, refl, zero, ◌^◌, suc, arith, ◌≤◌, ◌≢◌,
  ◌≡◌, ◌<◌, ℕ,
}
use canonical.Octets.Unique.{big_endian-from_big_endian}
use canonical.Octets.{
  big_endian-IsOctets, from_big_endian-big_endian, length-big_endian, from_big_endian, big_endian,
  IsOctets,
}
use canonical.Verifier.{encode_length, read_length, long_length, octet_count}
use canonical.Verifier.Outcome.{returned}
use native.Mathlib.Decide.{dec_lt}
use canonical.Verifier.OctetCount.{
  IsCount-le, IsCount, octet_count-IsCount, IsCount-eq, IsCount-head, head-IsCount,
}

long_length-append :
    (x : ℕ) (xs rest : Bytes)
    → x ≢ 0
    → 128 ≤ from_big_endian 0 (x ∷ xs)
    → long_length (length (x ∷ xs)) ((x ∷ xs) ++ rest) ≡ returned (from_big_endian 0 (x ∷ xs), rest)
unfolding long_length
long_length-append x xs rest some_ large =
    let enough : ltb (length ((x ∷ xs) ++ rest)) (length (x ∷ xs)) ≡ false =
      ground (arith, length-append (x ∷ xs) rest) in
    rw (take-append (x ∷ xs) rest, drop-append (x ∷ xs) rest, enough) (ground arith)

-- The octets of a long form.
record IsLong (n : ℕ) : Type 0 where
  first : ℕ
  others : Bytes
  parts : big_endian (octet_count n n) n ≡ first ∷ others
  head_set : first ≢ 0
  few : length (first ∷ others) ≤ 4
  value : from_big_endian 0 (first ∷ others) ≡ n

cons_of_length :
    (bs : Bytes) (w : ℕ)
    → length bs ≡ suc w
    → (x : ℕ) × (xs : Bytes) × (bs ≡ x ∷ xs) × (length xs ≡ w)
cons_of_length [] w h = absurd (omega arith)
cons_of_length (x ∷ xs) w h = (x, xs, refl, omega arith)

of_head :
    (n w x : ℕ) (xs : Bytes)
    → octet_count n n ≡ suc w
    → IsCount n (suc w)
    → n < 2 ^ 32
    → big_endian (suc w) n ≡ x ∷ xs
    → length xs ≡ w
    → IsLong n
of_head n w x xs count k small parts size =
    let value : from_big_endian 0 (x ∷ xs) ≡ n =
      rw parts at (from_big_endian-big_endian (suc w) n k.0) in
    let octets : IsOctets (x ∷ xs) = rw parts at (big_endian-IsOctets (suc w) n) in
    record {
      first = x;
      others = xs;
      parts = rw count parts;
      head_set = IsCount-head n w x xs octets.1 size value k.1;
      few = let h = IsCount-le n (suc w) 4 k (omega arith) in omega arith;
      value = value;
    }

IsCount-IsLong : (n w : ℕ) → IsCount n w → octet_count n n ≡ w → 128 ≤ n → n < 2 ^ 32 → IsLong n
IsCount-IsLong n zero k e large small = absurd (omega arith)
IsCount-IsLong n (suc w) k e large small =
    let (x, xs, parts, size) =
      cons_of_length (big_endian (suc w) n) w (length-big_endian (suc w) n) in
    of_head n w x xs e k small parts size

read_length_long :
    (x : ℕ) (xs rest : Bytes)
    → x ≢ 0
    → 128 ≤ from_big_endian 0 (x ∷ xs)
    → length (x ∷ xs) ≤ 4
    → read_length ((128 + length (x ∷ xs)) ∷ ((x ∷ xs) ++ rest))
      ≡ returned (from_big_endian 0 (x ∷ xs), rest)
unfolding read_length
read_length_long x xs rest some_ large few =
    let count : (128 + length (x ∷ xs)) % 128 ≡ length (x ∷ xs) = omega arith in
    let reads = long_length-append x xs rest some_ large in rw (count, reads) (ground arith)

read_written :
    (n : ℕ) (rest : Bytes)
    → 128 ≤ n
    → IsLong n
    → read_length (encode_length n ++ rest) ≡ returned (n, rest)
unfolding encode_length
read_written n rest large l =
    let more : 128 ≤ from_big_endian 0 (l.first ∷ l.others) = rw l.value large in
    let test : ltb n 128 ≡ false = ground arith in
    rw (test, l.parts)
      (read_length_long l.first l.others rest l.head_set more l.few
        ∙ ap (λ m. returned (m, rest)) l.value)

-- What was written is read back, whatever follows.
pub read_length-encode_length :
    (n : ℕ) (rest : Bytes) → n < 2 ^ 32 → read_length (encode_length n ++ rest) ≡ returned (n, rest)
read_length-encode_length n rest small = elim (dec_lt n 128) [
  | yes short ↦ unfold read_length encode_length in ground arith
  | no long ↦
      read_written n rest (omega arith)
        (IsCount-IsLong n _ (octet_count-IsCount n n (omega arith)) refl (omega arith) small)
]

-- A long form that is read is the one that is written.
encode_length-long :
    (x : ℕ) (xs : Bytes)
    → IsOctets (x ∷ xs)
    → x ≢ 0
    → 128 ≤ from_big_endian 0 (x ∷ xs)
    → encode_length (from_big_endian 0 (x ∷ xs)) ≡ (128 + length (x ∷ xs)) ∷ x ∷ xs
unfolding encode_length
encode_length-long x xs octets some_ large =
    let n : ℕ = from_big_endian 0 (x ∷ xs) in
    let count : octet_count n n ≡ length (x ∷ xs) =
      IsCount-eq n _ _ (octet_count-IsCount n n (omega arith)) (head-IsCount x xs octets some_) in
    let test : ltb n 128 ≡ false = ground arith in
    rw (test, count, big_endian-from_big_endian (x ∷ xs) octets) refl

long_length-tests :
    (count b : ℕ) (bs : Bytes) (n : ℕ) (rest : Bytes)
    → long_length (suc count) (b ∷ bs) ≡ returned (n, rest)
    → (b ≢ 0)
      × (128 ≤ from_big_endian 0 (b ∷ take count bs))
      × (count ≤ length bs)
      × (from_big_endian 0 (b ∷ take count bs) ≡ n)
      × (drop count bs ≡ rest)
unfolding long_length
long_length-tests count b bs n rest h =
    (λ z. ground arith, ground arith, ground arith, ground arith, ground arith)

-- What a long form of `count` octets consumes.
long_length-returned :
    (count : ℕ) (bs : Bytes) (n : ℕ) (rest : Bytes)
    → IsOctets bs
    → 0 < count
    → long_length count bs ≡ returned (n, rest)
    → encode_length n ++ rest ≡ (128 + count) ∷ bs
long_length-returned count [] n rest octets some_ h = unfold long_length in cc
long_length-returned zero (b ∷ bs) n rest octets some_ h = absurd (omega arith)
long_length-returned (suc count) (b ∷ bs) n rest (octet, octets) some_ h =
    let (first, large, enough, value, left) = long_length-tests count b bs n rest h in
    let written =
      encode_length-long b (take count bs) (octet, All-take (λ b. b < 256) count bs octets) first
        large in
    rw (← value, written, ← left, length-take count bs enough, take-append-drop count bs) refl

read_length-tests :
    (first : ℕ) (bs : Bytes) (n : ℕ) (rest : Bytes)
    → 128 ≤ first
    → first < 256
    → read_length (first ∷ bs) ≡ returned (n, rest)
    → (0 < first % 128) × (long_length (first % 128) bs ≡ returned (n, rest))
unfolding read_length
read_length-tests first bs n rest long octet h = (ground arith, ground arith)

-- What was read is written back, with what follows.
pub encode_length-read_length :
    (bs : Bytes) (n : ℕ) (rest : Bytes)
    → IsOctets bs
    → read_length bs ≡ returned (n, rest)
    → encode_length n ++ rest ≡ bs
encode_length-read_length [] n rest octets h = unfold read_length in cc
encode_length-read_length (first ∷ bs) n rest (octet, octets) h = elim (dec_lt first 128) [
  | yes short ↦ unfold read_length encode_length in ground arith
  | no long ↦
      let (count_set, read) = read_length-tests first bs n rest (omega arith) octet h in
      let same : 128 + first % 128 ≡ first = omega arith in
      rw same at (long_length-returned (first % 128) bs n rest octets count_set read)
]
