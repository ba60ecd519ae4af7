-- ===== src/Verifier/OctetCount.antt =====
-- How many octets `_encode_length` of ci/verify_vectors.py writes a number with.
use canonical.Prelude.{
  ◌+◌, ◌*◌, ◌∷◌, length, Bytes, refl, zero, ◌^◌, ◌/◌, suc, arith, ◌≤◌, ◌≢◌, ◌≡◌, ◌<◌, ℕ,
}
use canonical.Octets.Unique.{from_big_endian-lt, from_big_endian-head}
use canonical.Octets.{from_big_endian, IsOctets}
use canonical.Verifier.{octet_count}
use native.Mathlib.Nat.{mul-le-mul_right, pow-zero, pow-suc, pow-le-pow_right}
use native.Mathlib.Decide.{dec_lt}

-- `w` octets hold the number, and fewer would not.
abbrev pub IsCount : ℕ → ℕ → Type 0
IsCount n zero = n ≡ 0
IsCount n (suc w) = (n < 256 ^ suc w) × (256 ^ w ≤ n)

pub IsCount-lt : (n w : ℕ) → IsCount n w → n < 256 ^ w
IsCount-lt n zero h = omega (arith, pow-zero 256)
IsCount-lt n (suc w) h = h.0

pub IsCount-suc : (n w : ℕ) → n ≢ 0 → IsCount (n / 256) w → IsCount n (suc w)
IsCount-suc n zero h k = (omega (arith, pow-suc 256 0, pow-zero 256), omega (arith, pow-zero 256))
IsCount-suc n (suc w) h (enough, needed) =
    (omega (arith, pow-suc 256 (suc w)), omega (arith, pow-suc 256 w))

pub octet_count-zero : (fuel : ℕ) → octet_count fuel 0 ≡ 0
unfolding octet_count
octet_count-zero zero = refl
octet_count-zero (suc fuel) = refl

pub octet_count-IsCount : (fuel n : ℕ) → n ≤ fuel → IsCount n (octet_count fuel n)
octet_count-IsCount zero n h = unfold octet_count in omega arith
octet_count-IsCount (suc fuel) n h = elim (dec_lt 0 n) [
  | no none_ ↦ let z : n ≡ 0 = omega arith in rw (z, octet_count-zero) refl
  | yes some_ ↦
      rw (octet_count-step fuel n (omega arith))
        (IsCount-suc n _ (omega arith) (octet_count-IsCount fuel (n / 256) (omega arith)))
]
  where
    octet_count-step :
        (fuel n : ℕ) → n ≢ 0 → octet_count (suc fuel) n ≡ suc (octet_count fuel (n / 256))
    octet_count-step fuel n h = unfold octet_count in ground arith

-- Two counts for one number are one.
pub IsCount-eq : (n v w : ℕ) → IsCount n v → IsCount n w → v ≡ w
IsCount-eq n v w hv hw = elim (dec_lt v w) [
  | yes less ↦ absurd (above n v w hv hw less)
  | no notless ↦ elim (dec_lt w v) [
    | yes less ↦ absurd (above n w v hw hv less)
    | no notmore ↦ omega arith
  ]
]
  where
    above : (n v w : ℕ) → IsCount n v → IsCount n w → v < w → ⊥
    above n v zero hv hw less = omega arith
    above n v (suc w) hv (_, needed) less =
        let rises : 256 ^ v ≤ 256 ^ w = pow-le-pow_right (omega arith) (omega arith) in
        omega (arith, IsCount-lt n v hv)

-- Minimal octets of a number that is not 0 begin with one that is not 0.
pub IsCount-head :
    (n w : ℕ) (x : ℕ) (xs : Bytes)
    → IsOctets xs
    → length xs ≡ w
    → from_big_endian 0 (x ∷ xs) ≡ n
    → 256 ^ w ≤ n
    → x ≢ 0
IsCount-head n w x xs octets size value needed none_ =
    let low : from_big_endian 0 (0 ∷ xs) < (0 + 1) * 256 ^ length xs =
      (from_big_endian-head 0 xs octets).1 in
    let zeros : from_big_endian 0 (x ∷ xs) ≡ from_big_endian 0 (0 ∷ xs) = rw none_ refl in
    let sizes : 256 ^ length xs ≡ 256 ^ w = rw size refl in omega arith

pub head-IsCount :
    (x : ℕ) (xs : Bytes)
    → IsOctets (x ∷ xs)
    → x ≢ 0
    → IsCount (from_big_endian 0 (x ∷ xs)) (length (x ∷ xs))
head-IsCount x xs octets some_ =
    let first : 1 * 256 ^ length xs ≤ x * 256 ^ length xs =
      mul-le-mul_right (256 ^ length xs) (omega arith) in
    (from_big_endian-lt (x ∷ xs) octets, omega (arith, (from_big_endian-head x xs octets.1).0))

pub IsCount-le : (n v w : ℕ) → IsCount n v → n < 256 ^ w → v ≤ w
IsCount-le n zero w h few = omega arith
IsCount-le n (suc v) w (_, needed) few = elim (dec_lt v w) [
  | yes less ↦ omega arith
  | no notless ↦
      let rises : 256 ^ w ≤ 256 ^ v = pow-le-pow_right (omega arith) (omega arith) in
      absurd (omega arith)
]
