-- ===== src/Verifier/Ed25519.antt =====
-- Ed25519 of ci/verify_vectors.py: RFC 8032 5.1.
pub mod Modular
pub mod Points
pub mod Strict
pub mod Unique
pub mod Total
pub mod Roots
use canonical.Prelude.{
  ◌||◌, ◌++◌, take, drop, [], ◌∷◌, Bytes, ℕ, zero, suc, ◌+◌, ◌-◌, ◌*◌, ◌/◌, ◌%◌, ◌^◌, ◌==◌, not,
  leb, length, Bool, false, Option, none, some, if◌then◌else◌,
}
use canonical.Verifier.Outcome.{Run, returned, broken, out_of_fuel, ◌>>=◌}

-- P and Q
unfoldable pub prime : ℕ
prime = 2 ^ 255 - 19

unfoldable pub order : ℕ
order = 2 ^ 252 + 27742317777372353535851937790883648493

-- Python's built-in pow(b, e, m), by squaring, so that it can be run. The fuel is at least the length
-- of the exponent in bits.
unfoldable pub pow_mod : ℕ → ℕ → ℕ → ℕ → ℕ
pow_mod zero b e m = 1 % m
pow_mod (suc fuel) b e m =
    let half = pow_mod fuel (b * b % m) (e / 2) m in
    if e == 0 then 1 % m else if e % 2 == 1 then half * b % m else half

-- a - b, for a difference that is read modulo P.
abbrev pub minus : ℕ → ℕ → ℕ
minus a b = a + (prime - b % prime)

abbrev pub inverse : ℕ → ℕ
inverse a = pow_mod 256 a (prime - 2) prime

-- D and SQRT_M1
unfoldable pub curve_d : ℕ
unfolding pow_mod prime
curve_d = minus 0 121665 * inverse 121666 % prime

unfoldable pub sqrt_m1 : ℕ
unfolding pow_mod prime
sqrt_m1 = pow_mod 256 2 ((prime - 1) / 4) prime

-- The end of `_recover_x`: x with its low bit fixed.
abbrev pub with_sign : ℕ → ℕ → ℕ
with_sign x sign = if x % 2 == sign then x else prime - x

-- The two candidates for a square root of `_recover_x`.
unfoldable pub candidate : ℕ → ℕ
unfolding pow_mod prime sqrt_m1
candidate x2 =
    let x = pow_mod 256 x2 ((prime + 3) / 8) prime in
    if minus (x * x) x2 % prime == 0 then x else x * sqrt_m1 % prime

-- `_recover_x` from `pow(x2, (P + 3) // 8, P)` on.
unfoldable pub square_root : ℕ → ℕ → Option ℕ
unfolding candidate prime
square_root x2 sign =
    let y = candidate x2 in if minus (y * y) x2 % prime == 0 then some (with_sign y sign) else none

-- x2 of `_recover_x`
unfoldable pub x_squared : ℕ → ℕ
unfolding pow_mod prime curve_d
x_squared y = minus (y * y) 1 * inverse (curve_d * y * y + 1) % prime

unfoldable pub recover_x : ℕ → ℕ → Option ℕ
unfolding prime x_squared square_root
recover_x y sign =
    if leb prime y
    then none
    else if x_squared y == 0
    then (if sign == 0 then some 0 else none)
    else square_root (x_squared y) sign

-- A point in extended homogeneous coordinates.
pub record Point : Type 0 where
  pub x : ℕ
  pub y : ℕ
  pub z : ℕ
  pub t : ℕ

abbrev pub identity : Point
identity = record { x = 0; y = 1; z = 1; t = 0 }

-- (x, y, 1, x * y % P)
unfoldable pub affine : ℕ → ℕ → Point
unfolding prime
affine x y = record { x = x; y = y; z = 1; t = x * y % prime }

-- BASE, where `_recover_x` finds it.
unfoldable pub base : Option Point
unfolding prime pow_mod recover_x affine
base =
    let y = 4 * inverse 5 % prime in
    elim (recover_x y 0) [ some x ↦ some (affine x y) | none ↦ none ]

-- `_point_add`
unfoldable pub point_add : Point → Point → Point
unfolding prime curve_d
point_add a b =
    let a1 = minus a.y a.x * minus b.y b.x % prime in
    let a2 = (a.y + a.x) * (b.y + b.x) % prime in
    let c = 2 * a.t * b.t * curve_d % prime in
    let d = 2 * a.z * b.z % prime in
    let e = minus a2 a1 in
    let f = minus d c in
    let g = d + c in
    let h = a2 + a1 in
    record { x = e * f % prime; y = g * h % prime; z = f * g % prime; t = e * h % prime }

-- The loop of `_point_mul`.
unfoldable pub mul_loop : ℕ → ℕ → Point → Point → Run Point
unfolding point_add
mul_loop zero scalar acc point = out_of_fuel
mul_loop (suc fuel) scalar acc point =
    let rest =
      mul_loop fuel (scalar / 2) (if scalar % 2 == 1 then point_add acc point else acc)
        (point_add point point) in
    if scalar == 0 then returned acc else rest

-- `_point_mul`, of scalars below 2^256.
unfoldable pub point_mul : ℕ → Point → Run Point
unfolding mul_loop
point_mul scalar point = mul_loop 257 scalar identity point

-- `_point_equal`
unfoldable pub point_equal : Point → Point → Bool
unfolding prime
point_equal a b =
    if minus (a.x * b.z) (b.x * a.z) % prime == 0
    then minus (a.y * b.z) (b.y * a.z) % prime == 0
    else false

-- int.from_bytes(b, "little")
unfoldable pub from_little_endian : Bytes → ℕ
from_little_endian [] = 0
from_little_endian (b ∷ bs) = b + 256 * from_little_endian bs

-- `_point_decompress`
unfoldable pub point_decompress : Bytes → Option Point
unfolding from_little_endian recover_x affine
point_decompress raw =
    let n = from_little_endian raw in
    let y = n % 2 ^ 255 in
    if not (length raw == 32)
    then none
    else elim (recover_x y (n / 2 ^ 255)) [ some x ↦ some (affine x y) | none ↦ none ]

-- The comparison at the end of `ed25519_verify`, of the multiples of `point_b`.
unfoldable pub equal_multiples : ℕ → ℕ → Point → Point → Point → Run Bool
unfolding point_mul point_add point_equal
equal_multiples s k point_a point_r point_b = do
  left ← point_mul s point_b
  right ← point_mul k point_a
  returned (point_equal left (point_add point_r right))

-- The same at BASE. Without it the script ends in a TypeError.
unfoldable pub verify_points : ℕ → ℕ → Point → Point → Run Bool
unfolding base equal_multiples
verify_points s k point_a point_r = elim base [
  | none ↦ broken
  | some point_b ↦ equal_multiples s k point_a point_r point_b
]

-- `ed25519_verify` behind the decompression of the key; `sha512` is hashlib.sha512.
unfoldable pub verify_with_key : (Bytes → Bytes) → Point → Bytes → Bytes → Bytes → Run Bool
unfolding point_decompress from_little_endian order verify_points
verify_with_key sha512 point_a public message signature =
    let s = from_little_endian (drop 32 signature) in
    let k = from_little_endian (sha512 (take 32 signature ++ (public ++ message))) % order in
    elim (point_decompress (take 32 signature)) [
      | none ↦ returned false
      | some point_r ↦ if leb order s then returned false else verify_points s k point_a point_r
    ]

unfoldable pub ed25519_verify : (Bytes → Bytes) → Bytes → Bytes → Bytes → Run Bool
unfolding point_decompress verify_with_key
ed25519_verify sha512 public message signature =
    if not (length public == 32) || not (length signature == 64)
    then returned false
    else elim (point_decompress public) [
      | none ↦ returned false
      | some point_a ↦ verify_with_key sha512 point_a public message signature
    ]
