-- ===== src/Verifier/Printable/Short.antt =====
-- ci/verify_vectors.py: what stands in fewer than 1700 octets is printed.
use canonical.Prelude.{
  ap, ◌≡◌, ◌≤◌, true, ◌<◌, ◌^◌, ◌+◌, ℤ, ℕ, suc, pos, negsuc, pos_part, neg_part, arith, length,
}
use canonical.Octets.{big_endian, big_endian-IsOctets, length-complement}
use canonical.Octets.Unique.{from_big_endian-lt}
use canonical.Verifier.{minimal_signed, minimal_width, encode_value, encode_items}
use canonical.Verifier.Integer.{IsMinimal-octets}
use canonical.Verifier.Checks.{is_printable}
use canonical.Verifier.Decode.{items_of, value_of, elements_of}
use canonical.Verifier.Tree.{int, seq}
use canonical.Verifier.Inside.{length-encode_items-cons, IsWithin-tagged, content_seq}
use canonical.Verifier.Printable.{IsPrintable, IsPrintableField, IsPrintableDicts, is_printable-lt}
use canonical.Verifier.Schema.{
  Dict, Dicts, Field, number, octets, list, done, entry, no_dicts, dict,
}
use native.Mathlib.Nat.{pow-le-pow_right}

-- The octets of two's complement bound the number.
minimal_signed-le : (i : ℤ) → pos_part i + neg_part i ≤ 256 ^ length (minimal_signed i)
unfolding minimal_signed
minimal_signed-le (pos n) =
    let w : ℕ = suc (minimal_width n 0 n) in
    omega
      (arith, from_big_endian-lt (big_endian w n) (big_endian-IsOctets w n), (IsMinimal-octets n).1)
minimal_signed-le (negsuc n) =
    let w : ℕ = suc (minimal_width n 0 n) in
    omega (
      arith,
      from_big_endian-lt (big_endian w n) (big_endian-IsOctets w n),
      (IsMinimal-octets n).1,
      ap (λ k. 256 ^ k) (length-complement (big_endian w n)),
    )

powers : (l k : ℕ) → l ≤ k → 256 ^ l ≤ 256 ^ k
powers l k h = pow-le-pow_right (omega arith) h

int_printable : (i : ℤ) → length (encode_value (int i)) < 1700 → is_printable i ≡ true
unfolding encode_value
int_printable i short =
    let (inside, _) = IsWithin-tagged 2 (minimal_signed i) in
    let rises = powers (length (minimal_signed i)) 1700 (omega arith) in
    is_printable-lt i (omega (arith, minimal_signed-le i))

mutual
  unfolding items_of

  pub short-IsPrintable : (o : Dict) → length (encode_items (items_of o)) < 1700 → IsPrintable o
  short-IsPrintable done short = tt
  short-IsPrintable (entry key f o) short =
      let size = length-encode_items-cons (value_of f) (items_of o) in
      (short-IsPrintableField f (omega arith), short-IsPrintable o (omega arith))

  short-IsPrintableField :
      (f : Field) → length (encode_value (value_of f)) < 1700 → IsPrintableField f
  short-IsPrintableField (number i) short = int_printable i short
  short-IsPrintableField (octets b) short = tt
  short-IsPrintableField (list ds) short =
      let (inside, _) = content_seq (elements_of ds) in short-IsPrintableDicts ds (omega arith)

  short-IsPrintableDicts :
      (ds : Dicts) → length (encode_items (elements_of ds)) < 1700 → IsPrintableDicts ds
  short-IsPrintableDicts no_dicts short = tt
  short-IsPrintableDicts (dict o ds) short =
      let size = length-encode_items-cons (seq (items_of o)) (elements_of ds) in
      let (inside, _) = content_seq (items_of o) in
      (short-IsPrintable o (omega arith), short-IsPrintableDicts ds (omega arith))
