-- ===== src/Verifier/Ed25519/Strict.antt =====
-- ci/verify_vectors.py: what `_recover_x` and `_point_decompress` keep of their input.
use canonical.Verifier.Ed25519.{
  x_squared, affine, candidate, point_decompress, from_little_endian, Point, prime, pow_mod,
  with_sign, square_root, recover_x, minus, sqrt_m1,
}
use native.Mathlib.Nat.{pow-suc, pow-zero, mod-lt}
use canonical.Octets.{IsOctets}
use canonical.Prelude.{
  [], ◌∷◌, Bytes, ℕ, ◌+◌, ◌*◌, ◌/◌, ◌%◌, ◌^◌, ◌==◌, not, leb, length, Bool, true, false, Option,
  none, some, if◌then◌else◌, ◌<◌, ◌≡◌, refl, sym, ap, ◌∙◌, arith,
}
use canonical.Verifier.Ed25519.Modular.{pow_mod-lt}

prime_odd : prime % 2 ≡ 1
unfolding prime
prime_odd = refl

pub prime_positive : 0 < prime
prime_positive = omega (arith, prime_odd)

with_sign-parity : (x sign : ℕ) → x < prime → sign < 2 → with_sign x sign % 2 ≡ sign
with_sign-parity x sign small bit = ground (arith, prime_odd)

chosen_lt : (c : Bool) (v w m : ℕ) → v < m → w < m → (if c then v else w) < m
chosen_lt true v w m hv hw = hv
chosen_lt false v w m hv hw = hw

pub candidate-lt : (x2 : ℕ) → candidate x2 < prime
unfolding candidate
candidate-lt x2 =
    let power : ℕ = pow_mod 256 x2 ((prime + 3) / 8) prime in
    chosen_lt (minus (power * power) x2 % prime == 0) power (power * sqrt_m1 % prime) prime
      (pow_mod-lt 256 x2 ((prime + 3) / 8) prime prime_positive)
      (mod-lt (power * sqrt_m1) prime_positive)

chosen_some : (c : Bool) (v x : ℕ) → (if c then some v else none) ≡ some x → v ≡ x
chosen_some true v x e = cc
chosen_some false v x e = cc

square_root-parity : (x2 sign x : ℕ) → sign < 2 → square_root x2 sign ≡ some x → x % 2 ≡ sign
unfolding square_root
square_root-parity x2 sign x bit found =
    let y : ℕ = candidate x2 in
    let root = chosen_some (minus (y * y) x2 % prime == 0) (with_sign y sign) x found in
    sym (ap (λ k. k % 2) root) ∙ with_sign-parity y sign (candidate-lt x2) bit

pub recover_x-parity : (y sign x : ℕ) → sign < 2 → recover_x y sign ≡ some x → x % 2 ≡ sign
unfolding recover_x
recover_x-parity y sign x bit found =
    cases (leb prime y) (x_squared y == 0) sign x (square_root (x_squared y) sign) bit
      (square_root-parity (x_squared y) sign x bit) found
  where
    cases :
        (big zero_ : Bool) (sign x : ℕ) (root : Option ℕ)
        → sign < 2
        → (root ≡ some x → x % 2 ≡ sign)
        → (if big then none else if zero_ then (if sign == 0 then some 0 else none) else root)
          ≡ some x
        → x % 2 ≡ sign
    cases true zero_ sign x root bit h found = ground arith
    cases false true sign x root bit h found = ground arith
    cases false false sign x root bit h found = h found

pub from_little_endian-injective :
    (xs ys : Bytes)
    → IsOctets xs
    → IsOctets ys
    → length xs ≡ length ys
    → from_little_endian xs ≡ from_little_endian ys
    → xs ≡ ys
unfolding from_little_endian
from_little_endian-injective [] [] hx hy n e = refl
from_little_endian-injective [] (y ∷ ys) hx hy n e = absurd (omega arith)
from_little_endian-injective (x ∷ xs) [] hx hy n e = absurd (omega arith)
from_little_endian-injective (x ∷ xs) (y ∷ ys) (hx, hxs) (hy, hys) n e =
    let tails = from_little_endian-injective xs ys hxs hys (omega arith) (omega arith) in
    let same : x ≡ y = omega arith in cc

from_little_endian-lt : (xs : Bytes) → IsOctets xs → from_little_endian xs < 256 ^ length xs
unfolding from_little_endian
from_little_endian-lt [] h = omega (arith, pow-zero 256)
from_little_endian-lt (x ∷ xs) (h, hs) =
    omega (arith, from_little_endian-lt xs hs, pow-suc 256 (length xs))

affine-eq :
    (c : Bool) (root : Option ℕ) (y : ℕ) (p : Point)
    → (if c then none else elim root [ some x ↦ some (affine x y) | none ↦ none ]) ≡ some p
    → (c ≡ false) × (root ≡ some p.x) × (y ≡ p.y)
affine-eq true root y p e = cc
affine-eq false none y p e = cc
affine-eq false (some x) y p e =
    unfold affine in
    let same : record { x = x; y = y; z = 1; t = x * y % prime } ≡ p = cc in
    (refl, ap (λ (q : Point). some q.x) same, ap (λ (q : Point). q.y) same)

-- A string that decompresses is the little-endian form of y, its top bit the low bit of x.
point_decompress-parts :
    (raw : Bytes) (p : Point)
    → IsOctets raw
    → point_decompress raw ≡ some p
    → (length raw ≡ 32) × (from_little_endian raw ≡ (p.x % 2) * 2 ^ 255 + p.y)
unfolding point_decompress
point_decompress-parts raw p octets found =
    let n : ℕ = from_little_endian raw in
    let (sized, root, low) =
      affine-eq (not (length raw == 32)) (recover_x (n % 2 ^ 255) (n / 2 ^ 255)) (n % 2 ^ 255) p
        found in
    let whole : length raw ≡ 32 = ground arith in
    let small = from_little_endian-lt raw octets in
    let bound : n < 256 ^ 32 = omega (arith, ap (λ k. 256 ^ k) whole) in
    (whole, omega (arith, recover_x-parity (n % 2 ^ 255) (n / 2 ^ 255) p.x (omega arith) root))

pub point_decompress-injective :
    (raw other : Bytes) (p : Point)
    → IsOctets raw
    → IsOctets other
    → point_decompress raw ≡ some p
    → point_decompress other ≡ some p
    → raw ≡ other
point_decompress-injective raw other p hr ho found also_ =
    let (n, whole) = point_decompress-parts raw p hr found in
    let (m, whole') = point_decompress-parts other p ho also_ in
    from_little_endian-injective raw other hr ho (n ∙ sym m) (whole ∙ sym whole')
