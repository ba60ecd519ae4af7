-- ===== src/Verifier/Integer.antt =====
-- `_read_integer` and `_minimal_signed` of ci/verify_vectors.py undo each other.
use native.Mathlib.Nat.{mul-le-mul_right, pow-zero, pow-suc, pow-le-pow_right}
use canonical.Octets.Unique.{from_big_endian-head, big_endian-from_big_endian}
use canonical.Prelude.{
  ◌-◌, length, refl, negsuc, ap, [], ◌∷◌, ◌∙◌, true, pos, ◌^◌, Bytes, ◌/◌, ◌*◌, ℤ, ◌<◌, zero, suc,
  arith, ◌≡◌, ◌+◌, ◌≤◌, ℕ,
}
use canonical.Octets.{
  complement, IsOctets, big_endian-IsOctets, complement-complement, signed,
  from_big_endian-big_endian, from_big_endian, is_minimal, big_endian,
}
use canonical.Octets.Minimal.{
  signed-high, signed-low, big_endian-IsMinimal, IsFit-lt, IsFit-suc, IsMinimal, IsFit,
}
use mathlib.Core.Bool.{false≢true}
use canonical.Verifier.Outcome.{returned}
use canonical.Verifier.{read_integer, minimal_signed, minimal_width}
use native.Mathlib.Decide.{dec_lt}

too_small : (width n w : ℕ) → IsFit n w → width < w → 128 * 256 ^ width ≤ n
too_small width n zero fit h = absurd (omega arith)
too_small width n (suc w) (_, needed) h =
    let rises : 256 ^ width ≤ 256 ^ w = pow-le-pow_right (omega arith) (omega arith) in omega arith

-- From a width that is no larger, the loop reaches the one that fits.
minimal_width-IsFit :
    (fuel width n w : ℕ) → IsFit n w → width ≤ w → w ≤ width + fuel → minimal_width fuel width n ≡ w
unfolding minimal_width
minimal_width-IsFit zero width n w fit low high = omega arith
minimal_width-IsFit (suc fuel) width n w fit low high = elim (dec_lt width w) [
  | no stop ↦
      let same : width ≡ w = omega arith in
      let enough : n < 128 * 256 ^ width = rw same (IsFit-lt n w fit) in ground (arith, enough)
  | yes more ↦
      let small : 128 * 256 ^ width ≤ n = too_small width n w fit more in
      ground (arith, small, minimal_width-IsFit fuel (suc width) n w fit more (omega arith))
]

-- Some width fits, and the number bounds it.
width_exists : (bound n : ℕ) → n ≤ bound → (w : ℕ) × IsFit n w × (w ≤ bound)
width_exists zero n h = (0, omega arith, omega arith)
width_exists (suc bound) n h = elim (dec_lt n 128) [
  | yes small ↦ (0, small, omega arith)
  | no large ↦
      let (w, fit, low) = width_exists bound (n / 256) (omega arith) in
      (suc w, IsFit-suc n w (omega arith) fit, omega arith)
]

minimal_width-eq : (n w : ℕ) → IsFit n w → w ≤ n → minimal_width n 0 n ≡ w
minimal_width-eq n w fit low = minimal_width-IsFit n 0 n w fit (omega arith) (omega arith)

-- The octets that `_minimal_signed` writes for n, and for -(n + 1) before the complement.
pub IsMinimal-octets :
    (n : ℕ)
    → IsMinimal (big_endian (suc (minimal_width n 0 n)) n)
      × (from_big_endian 0 (big_endian (suc (minimal_width n 0 n)) n) ≡ n)
IsMinimal-octets n =
    let (w, fit, low) = width_exists n n (omega arith) in
    rw (minimal_width-eq n w fit low) (
      big_endian-IsMinimal w n fit,
      from_big_endian-big_endian (suc w) n (omega (arith, IsFit-lt n w fit, pow-suc 256 w)),
    )

read_integer-minimal :
    (content : Bytes) → is_minimal content ≡ true → read_integer content ≡ returned (signed content)
unfolding read_integer is_minimal
read_integer-minimal [] h = absurd (false≢true h)
read_integer-minimal (b ∷ []) h = refl
read_integer-minimal (b ∷ c ∷ cs) h = ground arith

read_integer-is_minimal :
    (content : Bytes) (i : ℤ)
    → read_integer content ≡ returned i
    → (is_minimal content ≡ true) × (signed content ≡ i)
unfolding read_integer is_minimal
read_integer-is_minimal [] i h = cc
read_integer-is_minimal (b ∷ []) i h = (refl, cc)
read_integer-is_minimal (b ∷ c ∷ cs) i h = (ground arith, ground arith)

-- What was written is read back.
pub read_integer-minimal_signed : (i : ℤ) → read_integer (minimal_signed i) ≡ returned i
unfolding minimal_signed
read_integer-minimal_signed (pos n) =
    let (minimal, value) = IsMinimal-octets n in
    let (ok_, reads) = signed-low _ minimal in
    read_integer-minimal _ ok_ ∙ ap returned (reads ∙ ap pos value)
read_integer-minimal_signed (negsuc n) =
    let (minimal, value) = IsMinimal-octets n in
    let (ok_, reads) = signed-high _ minimal in
    let twice =
      complement-complement (big_endian (suc (minimal_width n 0 n)) n)
        (big_endian-IsOctets (suc (minimal_width n 0 n)) n) in
    read_integer-minimal _ ok_
    ∙ ap returned
        (reads ∙ ap (λ (bs : Bytes). negsuc (from_big_endian 0 bs)) twice ∙ ap negsuc value)

grows : (w : ℕ) → suc w ≤ 256 ^ w
grows zero = omega (arith, pow-zero 256)
grows (suc w) = omega (arith, grows w, pow-suc 256 w)

IsFit-le : (n w : ℕ) → IsFit n w → w ≤ n
IsFit-le n zero fit = omega arith
IsFit-le n (suc w) (_, needed) = omega (arith, grows w)

-- Minimal octets of a number that is not negative fit it, and fewer would not.
minimal-IsFit :
    (b : ℕ) (cs : Bytes)
    → IsOctets (b ∷ cs)
    → b < 128
    → is_minimal (b ∷ cs) ≡ true
    → IsFit (from_big_endian 0 (b ∷ cs)) (length cs)
unfolding is_minimal
minimal-IsFit b [] (h, hs) low minimal = omega (arith, from_big_endian-head b [] hs, pow-zero 256)
minimal-IsFit b (c ∷ cs) (h, hs) low minimal =
    let (above, below) = from_big_endian-head b (c ∷ cs) hs in
    let upper : (b + 1) * 256 ^ suc (length cs) ≤ 128 * 256 ^ suc (length cs) =
      mul-le-mul_right (256 ^ suc (length cs)) (omega arith) in
    (omega arith, needed (dec_lt 0 b))
  where
    needed : Dec (0 < b) → 128 * 256 ^ length cs ≤ from_big_endian 0 (b ∷ c ∷ cs)
    needed (yes pos_) =
        let first : 1 * 256 ^ suc (length cs) ≤ b * 256 ^ suc (length cs) =
          mul-le-mul_right (256 ^ suc (length cs)) pos_ in
        omega (arith, (from_big_endian-head b (c ∷ cs) hs).0, pow-suc 256 (length cs))
    needed (no zero_) =
        let none_ : b ≡ 0 = omega arith in
        let second : 128 ≤ c = ground arith in
        let first : 128 * 256 ^ length cs ≤ c * 256 ^ length cs =
          mul-le-mul_right (256 ^ length cs) second in
        let same : from_big_endian 0 (b ∷ c ∷ cs) ≡ from_big_endian 0 (c ∷ cs) =
          rw none_ (unfold from_big_endian in refl) in
        omega (arith, same, (from_big_endian-head c cs hs.1).0)

-- The octets of a number that is not negative, from the octets.
written-low :
    (b : ℕ) (cs : Bytes)
    → IsOctets (b ∷ cs)
    → b < 128
    → is_minimal (b ∷ cs) ≡ true
    → let n = from_big_endian 0 (b ∷ cs) in big_endian (suc (minimal_width n 0 n)) n ≡ b ∷ cs
written-low b cs octets low minimal =
    let fit = minimal-IsFit b cs octets low minimal in
    rw (minimal_width-eq _ (length cs) fit (IsFit-le _ (length cs) fit))
      (big_endian-from_big_endian (b ∷ cs) octets)

complement-IsOctets : (bs : Bytes) → IsOctets (complement bs)
unfolding complement
complement-IsOctets [] = tt
complement-IsOctets (b ∷ bs) = (omega arith, complement-IsOctets bs)

complement-is_minimal :
    (bs : Bytes) → IsOctets bs → is_minimal bs ≡ true → is_minimal (complement bs) ≡ true
unfolding is_minimal complement
complement-is_minimal [] h m = m
complement-is_minimal (b ∷ []) h m = refl
complement-is_minimal (b ∷ c ∷ cs) (h, (k, _)) m = ground arith

written-high :
    (b : ℕ) (cs : Bytes)
    → IsOctets (b ∷ cs)
    → 128 ≤ b
    → is_minimal (b ∷ cs) ≡ true
    → let n = from_big_endian 0 (complement (b ∷ cs)) in
      big_endian (suc (minimal_width n 0 n)) n ≡ complement (b ∷ cs)
unfolding complement
written-high b cs octets high minimal =
    written-low (255 - b) (complement cs) (complement-IsOctets (b ∷ cs)) (omega arith)
      (complement-is_minimal (b ∷ cs) octets minimal)

minimal_signed-signed :
    (bs : Bytes) → IsOctets bs → is_minimal bs ≡ true → minimal_signed (signed bs) ≡ bs
minimal_signed-signed [] h m = unfold is_minimal in absurd (false≢true m)
minimal_signed-signed (b ∷ cs) h m = elim (dec_lt b 128) [
  | yes low ↦
      let value : signed (b ∷ cs) ≡ pos (from_big_endian 0 (b ∷ cs)) =
        unfold signed in ground arith in
      rw value (unfold minimal_signed in written-low b cs h low m)
  | no high ↦
      let value : signed (b ∷ cs) ≡ negsuc (from_big_endian 0 (complement (b ∷ cs))) =
        unfold signed in ground arith in
      rw value (
        unfold minimal_signed in
        ap complement (written-high b cs h (omega arith) m) ∙ complement-complement (b ∷ cs) h)
]

-- What was read is written back.
pub minimal_signed-read_integer :
    (content : Bytes) (i : ℤ)
    → IsOctets content
    → read_integer content ≡ returned i
    → minimal_signed i ≡ content
minimal_signed-read_integer content i octets h =
    let (minimal, value) = read_integer-is_minimal content i h in
    rw (← value) (minimal_signed-signed content octets minimal)
