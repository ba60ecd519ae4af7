-- ===== src/Der/Length.antt =====
-- Tag, length and content: WIRE-SPEC.md 2.4, and parseTagAndLength of encoding/asn1.
use canonical.Prelude.{
  drop-append, take-append, length-append, false, zero, ◌%◌, leb, ◌/◌, ◌+◌, ◌^◌, ◌-◌, ◌*◌, drop,
  arith, ◌==◌, ◌<◌, ◌++◌, take, suc, [], not, ltb, length, ◌≡◌, ◌∷◌, if◌then◌else◌, Bytes, ℕ,
}
use canonical.Errors.{>>=-eq-ok, syntax_error, structural_error, ok, ◌>>=◌, asn1_error, err, Result}
use mathlib.Core.List.{append_assoc}
use canonical.Asn1.{length_ceiling}

abbrev syntax_err {ℓ} : {A : Type ℓ} → Result A
syntax_err = err (asn1_error syntax_error)

abbrev structural_err {ℓ} : {A : Type ℓ} → Result A
structural_err = err (asn1_error structural_error)

-- The shortest form; a length of more than four octets is refused.
unfoldable pub encode_length : ℕ → Result Bytes
encode_length n =
    if ltb n 128
    then ok (n ∷ [])
    else if ltb n (2 ^ 8)
    then ok (0x81 ∷ n ∷ [])
    else if ltb n (2 ^ 16)
    then ok (0x82 ∷ n / 256 ∷ n % 256 ∷ [])
    else if ltb n (2 ^ 24)
    then ok (0x83 ∷ n / 2 ^ 16 ∷ n / 256 % 256 ∷ n % 256 ∷ [])
    else if ltb n (2 ^ 32)
    then ok (0x84 ∷ n / 2 ^ 24 ∷ n / 2 ^ 16 % 256 ∷ n / 256 % 256 ∷ n % 256 ∷ [])
    else structural_err

-- `count` octets of a long form, the value so far being `acc`.
read_octets : ℕ → ℕ → Bytes → Result (ℕ × Bytes)
read_octets zero acc bs = if ltb acc 128 then structural_err else ok (acc, bs)
read_octets (suc count) acc [] = syntax_err
read_octets (suc count) acc (b ∷ bs) =
    let more = read_octets count (acc * 256 + b) bs in
    if leb (2 ^ 23) acc
    then structural_err
    else if (acc * 256 + b) == 0
    then structural_err
    else more

unfoldable pub read_length : Bytes → Result (ℕ × Bytes)
unfolding read_octets
read_length [] = syntax_err
read_length (b ∷ bs) =
    if ltb b 128 then ok (b, bs) else if b == 128 then syntax_err else read_octets (b - 128) 0 bs

read_length-encode_length :
    (n : ℕ) (l rest : Bytes)
    → encode_length n ≡ ok l
    → n < length_ceiling
    → read_length (l ++ rest) ≡ ok (n, rest)
unfolding encode_length read_length
read_length-encode_length n l rest h small = ground arith

unfoldable pub tlv : ℕ → Bytes → Result Bytes
tlv tag content = do l ← encode_length (length content); ok (tag ∷ (l ++ content))

split_content : ℕ × Bytes → Result (Bytes × Bytes)
split_content (n, bs) = if ltb (length bs) n then syntax_err else ok (take n bs, drop n bs)

-- The content of a value with the tag, and what follows the value.
unfoldable pub read_tlv : ℕ → Bytes → Result (Bytes × Bytes)
unfolding split_content
read_tlv tag [] = syntax_err
read_tlv tag (b ∷ bs) =
    if not (b == tag) then structural_err else do l ← read_length bs; split_content l

pub length-tlv : (tag : ℕ) (content b : Bytes) → tlv tag content ≡ ok b → length content < length b
unfolding tlv
length-tlv tag content b h =
    let (l, le, e) = >>=-eq-ok (encode_length (length content)) _ h in
    let same : tag ∷ (l ++ content) ≡ b = cc in rw (← same) (omega (arith, length-append l content))

split_content-append :
    (content rest : Bytes) → split_content (length content, content ++ rest) ≡ ok (content, rest)
unfolding split_content
split_content-append content rest =
    let enough : ltb (length (content ++ rest)) (length content) ≡ false =
      ground (arith, length-append content rest) in
    rw (enough, take-append, drop-append)

pub read_tlv-tlv :
    (tag : ℕ) (content b rest : Bytes)
    → tlv tag content ≡ ok b
    → length b < length_ceiling
    → read_tlv tag (b ++ rest) ≡ ok (content, rest)
unfolding tlv read_tlv
read_tlv-tlv tag content b rest h small =
    let (l, le, e) = >>=-eq-ok (encode_length (length content)) _ h in
    let same : tag ∷ (l ++ content) ≡ b = cc in
    let read : read_length ((l ++ content) ++ rest) ≡ ok (length content, content ++ rest) =
      rw append_assoc (
        read_length-encode_length (length content) l (content ++ rest) le
          (omega (arith, length-tlv tag content b h))) in
    rw (← same) (ground (arith, read, split_content-append content rest))
