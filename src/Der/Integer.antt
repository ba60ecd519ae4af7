-- ===== src/Der/Integer.antt =====
-- INTEGER: WIRE-SPEC.md 2.5, and int64Encoder and parseInt64 of encoding/asn1.
pub mod RoundTrip
use canonical.Octets.{from_big_endian, signed, complement, is_minimal, big_endian}
use canonical.Prelude.{
  ◌∙◌, ap, All-append, All, leb, ◌||◌, ◌&&◌, ◌==◌, ◌%◌, true, refl, negsuc, ◌/◌, ◌-◌, ◌+◌, zero,
  not, ltb, length-append, false, ◌≡◌, ◌∷◌, ◌^◌, ◌++◌, ◌*◌, pos, map, if◌then◌else◌, arith, [],
  Bool, ◌≤◌, ◌<◌, ℤ, suc, length, Bytes, ℕ,
}
use native.Mathlib.Nat.{pow-suc}
use native.Mathlib.Decide.{dec_lt}
use canonical.Errors.{structural_error, asn1_error, ok, err, Result}

-- The loop of int64Encoder: the octets beyond the first, for `n` and for -(n + 1).
pub extra_octets : ℕ → ℕ → ℕ
extra_octets zero n = 0
extra_octets (suc fuel) n = if ltb n 128 then 0 else suc (extra_octets fuel (n / 256))

-- Two's complement: -(n + 1) is the complement of n.
unfoldable pub encode_int64 : ℤ → Result Bytes
unfolding big_endian extra_octets complement
encode_int64 (pos n) =
    if ltb n (2 ^ 63)
    then ok (big_endian (suc (extra_octets 7 n)) n)
    else err (asn1_error structural_error)
encode_int64 (negsuc n) =
    if ltb n (2 ^ 63)
    then ok (complement (big_endian (suc (extra_octets 7 n)) n))
    else err (asn1_error structural_error)

-- The test is checkInteger.
unfoldable pub parse_int64 : Bytes → Result ℤ
unfolding is_minimal signed from_big_endian complement
parse_int64 bs =
    if not (is_minimal bs)
    then err (asn1_error structural_error)
    else if ltb 8 (length bs)
    then err (asn1_error structural_error)
    else ok (signed bs)
