-- ===== src/Octets/Unique.antt =====
-- Octets are determined by their number and their count.
use canonical.Prelude.{
  ap, suc, refl, ◌∷◌, ◌+◌, ◌≤◌, arith, [], ◌≡◌, ◌^◌, ◌<◌, ◌*◌, length, ℕ, Bytes,
}
use native.Mathlib.Nat.{mul_assoc, mul_comm, pow-suc, mul-le-mul_right, pow-zero}
use canonical.Octets.{
  from_big_endian-big_endian, length-big_endian, big_endian-IsOctets, from_big_endian, big_endian,
  IsOctets,
}

from_big_endian-eq :
    (a b : ℕ) (xs ys : Bytes)
    → IsOctets xs
    → IsOctets ys
    → length xs ≡ length ys
    → from_big_endian a xs ≡ from_big_endian b ys
    → (a ≡ b) × (xs ≡ ys)
unfolding from_big_endian
from_big_endian-eq a b [] [] hx hy n e = (e, refl)
from_big_endian-eq a b [] (y ∷ ys) hx hy n e = absurd (omega arith)
from_big_endian-eq a b (x ∷ xs) [] hx hy n e = absurd (omega arith)
from_big_endian-eq a b (x ∷ xs) (y ∷ ys) (hx, hxs) (hy, hys) n e =
    let (heads, tails) =
      from_big_endian-eq (a * 256 + x) (b * 256 + y) xs ys hxs hys (omega arith) e in
    let same : x ≡ y = omega arith in (omega arith, cc)

-- Both bounds of a number by its octets behind `a`.
from_big_endian-bounds :
    (a : ℕ) (xs : Bytes)
    → IsOctets xs
    → (a * 256 ^ length xs ≤ from_big_endian a xs)
      × (from_big_endian a xs < (a + 1) * 256 ^ length xs)
unfolding from_big_endian
from_big_endian-bounds a [] h = (omega (arith, pow-zero 256), omega (arith, pow-zero 256))
from_big_endian-bounds a (x ∷ xs) (h, hs) =
    let (low, high) = from_big_endian-bounds (a * 256 + x) xs hs in
    let t : ℕ = 256 ^ length xs in
    let below : (a * 256) * t ≤ (a * 256 + x) * t = mul-le-mul_right t (omega arith) in
    let above : (a * 256 + x + 1) * t ≤ ((a + 1) * 256) * t = mul-le-mul_right t (omega arith) in
    let left : a * 256 ^ suc (length xs) ≡ (a * 256) * t =
      rw (pow-suc, mul_comm t 256, mul_assoc) refl in
    let right : (a + 1) * 256 ^ suc (length xs) ≡ ((a + 1) * 256) * t =
      rw (pow-suc, mul_comm t 256, mul_assoc) refl in
    (omega arith, omega arith)

pub from_big_endian-lt : (xs : Bytes) → IsOctets xs → from_big_endian 0 xs < 256 ^ length xs
from_big_endian-lt xs h = omega (arith, (from_big_endian-bounds 0 xs h).1)

from_big_endian-cons : (x : ℕ) (xs : Bytes) → from_big_endian 0 (x ∷ xs) ≡ from_big_endian x xs
unfolding from_big_endian
from_big_endian-cons x xs =
    let start : 0 * 256 + x ≡ x = omega arith in ap (λ a. from_big_endian a xs) start

-- The first octet bounds the number from both sides.
pub from_big_endian-head :
    (x : ℕ) (xs : Bytes)
    → IsOctets xs
    → (x * 256 ^ length xs ≤ from_big_endian 0 (x ∷ xs))
      × (from_big_endian 0 (x ∷ xs) < (x + 1) * 256 ^ length xs)
from_big_endian-head x xs h = rw from_big_endian-cons (from_big_endian-bounds x xs h)

pub big_endian-from_big_endian :
    (xs : Bytes) → IsOctets xs → big_endian (length xs) (from_big_endian 0 xs) ≡ xs
big_endian-from_big_endian xs h =
    let n : ℕ = from_big_endian 0 xs in
    (from_big_endian-eq 0 0 (big_endian (length xs) n) xs (big_endian-IsOctets (length xs) n) h
      (length-big_endian (length xs) n)
      (from_big_endian-big_endian (length xs) n (from_big_endian-lt xs h))).1
