-- ===== src/Der/Integer/RoundTrip.antt =====
-- parseInt64 reads back what int64Encoder writes.
use canonical.Octets.Minimal.{
  signed-low, signed-high, IsFit-lt, big_endian-IsMinimal, IsFit-suc, IsMinimal, IsFit,
}
use canonical.Octets.{
  length-complement, big_endian-IsOctets, from_big_endian-big_endian, complement-complement, signed,
  length-big_endian, is_minimal, from_big_endian, complement, big_endian,
}
use canonical.Prelude.{
  ◌∙◌, pos, negsuc, ap, zero, true, ◌≡◌, ◌^◌, ◌/◌, ◌*◌, ℤ, suc, length, arith, ◌≤◌, ◌<◌, Bytes, ℕ,
}
use canonical.Errors.{ok}
use canonical.Der.Integer.{parse_int64, encode_int64, extra_octets}
use native.Mathlib.Nat.{pow-suc}
use native.Mathlib.Decide.{dec_lt}

extra_octets-le : (fuel n : ℕ) → extra_octets fuel n ≤ fuel
unfolding extra_octets
extra_octets-le zero n = omega arith
extra_octets-le (suc fuel) n = ground (arith, extra_octets-le fuel (n / 256))

-- One round of the loop, by its test.
extra_octets_short : (fuel n : ℕ) → n < 128 → extra_octets (suc fuel) n ≡ 0
unfolding extra_octets
extra_octets_short fuel n h = ground arith

extra_octets_long :
    (fuel n : ℕ) → 128 ≤ n → extra_octets (suc fuel) n ≡ suc (extra_octets fuel (n / 256))
unfolding extra_octets
extra_octets_long fuel n h = ground arith

-- The octets that the loop finds are enough, and one fewer would not be.
extra_octets_enough : (fuel n : ℕ) → n < 128 * 256 ^ fuel → IsFit n (extra_octets fuel n)
extra_octets_enough zero n h = unfold extra_octets in omega arith
extra_octets_enough (suc fuel) n h = elim (dec_lt n 128) [
  | yes p ↦ rw (extra_octets_short fuel n p) p
  | no p ↦ rw (extra_octets_long fuel n (omega arith)) (
      IsFit-suc n _ (omega arith)
        (extra_octets_enough fuel (n / 256) (omega (arith, pow-suc 256 fuel))))
]

-- What the parser does at content with the first octet that it needs, and of at most 8 octets.
parse_int64-minimal :
    (bs : Bytes) → is_minimal bs ≡ true → length bs ≤ 8 → parse_int64 bs ≡ ok (signed bs)
unfolding parse_int64
parse_int64-minimal bs h k = ground arith

module _ (n : ℕ) (fits : n < 2 ^ 63) where
  abbrev octets : Bytes
  octets = big_endian (suc (extra_octets 7 n)) n

  octets-IsMinimal : IsMinimal octets
  octets-IsMinimal = big_endian-IsMinimal _ n (extra_octets_enough 7 n (omega arith))

  length-octets : length octets ≤ 8
  length-octets = rw length-big_endian (omega (arith, extra_octets-le 7 n))

  from_big_endian-octets : from_big_endian 0 octets ≡ n
  from_big_endian-octets = from_big_endian-big_endian (suc (extra_octets 7 n)) n (
      omega (
        arith,
        IsFit-lt n (extra_octets 7 n) (extra_octets_enough 7 n (omega arith)),
        pow-suc 256 (extra_octets 7 n),
      ))

  parse_int64-octets : parse_int64 octets ≡ ok (pos n)
  parse_int64-octets =
      let (minimal, value) = signed-low octets octets-IsMinimal in
      parse_int64-minimal octets minimal length-octets
      ∙ ap ok (value ∙ ap pos from_big_endian-octets)

  parse_int64-complement : parse_int64 (complement octets) ≡ ok (negsuc n)
  parse_int64-complement =
      let (minimal, value) = signed-high octets octets-IsMinimal in
      let twice = complement-complement octets (big_endian-IsOctets _ n) in
      parse_int64-minimal (complement octets) minimal (rw length-complement length-octets)
      ∙ ap ok (
          value
          ∙ ap (λ (bs : Bytes). negsuc (from_big_endian 0 bs)) twice
          ∙ ap negsuc from_big_endian-octets)

-- parseInt64 reads back every int64 that int64Encoder writes.
pub parse_int64-encode_int64 : (i : ℤ) (bs : Bytes) → encode_int64 i ≡ ok bs → parse_int64 bs ≡ ok i
unfolding encode_int64
parse_int64-encode_int64 (pos n) bs h = elim (dec_lt n (2 ^ 63)) [
  | yes p ↦ let same : octets n p ≡ bs = ground arith in rw (← same) (parse_int64-octets n p)
  | no p ↦ ground arith
]
parse_int64-encode_int64 (negsuc n) bs h = elim (dec_lt n (2 ^ 63)) [
  | yes p ↦
      let same : complement (octets n p) ≡ bs = ground arith in
      rw (← same) (parse_int64-complement n p)
  | no p ↦ ground arith
]
