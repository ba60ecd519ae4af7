-- ===== src/Verifier/Ed25519/Roots.antt =====
-- ci/verify_vectors.py: the square roots of `_recover_x`.
use canonical.Verifier.Ed25519.{
  curve_d, inverse, prime, minus, with_sign, candidate, square_root, x_squared, recover_x,
}
use canonical.Prelude.{
  Option, leb, zero, refl, ◌==◌, sym, suc, if◌then◌else◌, ◌∙◌, ap, arith, ◌≡◌, ◌*◌, ◌-◌, ◌+◌, ◌%◌,
  ◌≤◌, ◌<◌, ℕ, Bool, true, false, none, some,
}
use mathlib.Core.Path.{subst}
use native.Mathlib.Nat.{mod-add-mod, mod-lt, mod-eq_of_lt, add-mul-mod_self_right}
use native.Mathlib.Decide.{dec_lt}
use canonical.Verifier.Ed25519.Strict.{prime_positive, candidate-lt, recover_x-parity}

-- A number between 0 and 2 * m that m divides is m.
once : (n m : ℕ) → 0 < n → n < m + m → n % m ≡ 0 → n ≡ m
once n m low high divides = elim (dec_lt n m) [
  | yes small ↦ absurd (omega (arith, mod-eq_of_lt small))
  | no large ↦
      let rest : ℕ = n - m in
      let split : n ≡ rest + 1 * m = omega arith in
      let same : n % m ≡ rest % m = ap (λ k. k % m) split ∙ add-mul-mod_self_right rest 1 m in
      let small : rest < m = omega arith in omega (arith, mod-eq_of_lt small)
]

-- A difference that vanishes modulo P.
minus-zero : (a x : ℕ) → x < prime → minus a x % prime ≡ 0 → a % prime ≡ x
minus-zero a x small gone =
    let reduced : x % prime ≡ x = mod-eq_of_lt small in
    let r : ℕ = a % prime in
    let below : r < prime = mod-lt a prime_positive in
    let difference : (r + (prime - x)) % prime ≡ 0 =
      mod-add-mod a prime (prime - x) ∙ ap (λ k. (a + (prime - k)) % prime) (sym reduced) ∙ gone in
    let whole = once (r + (prime - x)) prime (omega arith) (omega arith) difference in omega arith

square_sum : (d x : ℕ) → d * d + (x + x) * (d + x) ≡ x * x + (d + x) * (d + x)
square_sum d x = grind arith

flip_square : (x p : ℕ) → x ≤ p → (p - x) * (p - x) % p ≡ x * x % p
flip_square x p small =
    let d : ℕ = p - x in
    let split : p ≡ d + x = omega arith in
    let squares : d * d + (x + x) * p ≡ x * x + p * p =
      ap (λ k. d * d + (x + x) * k) split ∙ square_sum d x ∙ sym (ap (λ k. x * x + k * k) split) in
    sym (add-mul-mod_self_right (d * d) (x + x) p)
    ∙ ap (λ k. k % p) squares
    ∙ add-mul-mod_self_right (x * x) p p

with_sign-square :
    (y sign : ℕ) → y < prime → with_sign y sign * with_sign y sign % prime ≡ y * y % prime
with_sign-square y sign small = cases (y % 2 == sign)
  where
    cases :
        (c : Bool)
        → (if c then y else prime - y) * (if c then y else prime - y) % prime ≡ y * y % prime
    cases true = refl
    cases false = flip_square y prime (omega arith)

with_sign-lt : (y sign : ℕ) → 0 < y → y < prime → with_sign y sign < prime
with_sign-lt y sign some_ small = cases (y % 2 == sign)
  where
    cases : (c : Bool) → (if c then y else prime - y) < prime
    cases true = small
    cases false = omega arith

zero_passed : (m v x : ℕ) → (if m == 0 then some v else none) ≡ some x → (m ≡ 0) × (v ≡ x)
zero_passed m v x e = cases (m == 0) (λ h. ground arith) e
  where
    cases :
        (c : Bool) → (c ≡ true → m ≡ 0) → (if c then some v else none) ≡ some x → (m ≡ 0) × (v ≡ x)
    cases true h k = (h refl, cc)
    cases false h k = cc

root_positive : (y x2 : ℕ) → 0 < x2 → y * y % prime ≡ x2 → 0 < y
root_positive zero x2 some_ e = absurd (omega (arith, mod-eq_of_lt prime_positive))
root_positive (suc y) x2 some_ e = omega arith

-- What the last test of `_recover_x` leaves.
square_root_square :
    (x2 sign x : ℕ)
    → x2 < prime
    → 0 < x2
    → square_root x2 sign ≡ some x
    → (x < prime) × (x * x % prime ≡ x2)
unfolding square_root
square_root_square x2 sign x small some_ found =
    let y : ℕ = candidate x2 in
    let (gone, same) = zero_passed (minus (y * y) x2 % prime) (with_sign y sign) x found in
    let root = minus-zero (y * y) x2 small gone in
    (
      subst (λ k. k < prime) same
          (with_sign-lt y sign (root_positive y x2 some_ root) (candidate-lt x2)),
      ap (λ k. k * k % prime) (sym same) ∙ with_sign-square y sign (candidate-lt x2) ∙ root,
    )

x_squared-lt : (y : ℕ) → x_squared y < prime
unfolding x_squared
x_squared-lt y = mod-lt (minus (y * y) 1 * inverse (curve_d * y * y + 1)) prime_positive

suc_not_zero : (n : ℕ) → (suc n == 0) ≡ false
suc_not_zero n = ground arith

-- For a sign of 0 or 1: where recover_x finds an x for y, both are below P, the low bit of x is
-- the sign, and the square of x is the x2 of y modulo P.
pub recover_x_square :
    (y sign x : ℕ)
    → sign < 2
    → recover_x y sign ≡ some x
    → (y < prime) × (x < prime) × (x % 2 ≡ sign) × (x * x % prime ≡ x_squared y)
recover_x_square y sign x bit found =
    let (big, least, root) =
      cases (leb prime y) (x_squared y) (square_root (x_squared y) sign) (unfold recover_x in found)
        (λ some_ h. square_root_square (x_squared y) sign x (x_squared-lt y) some_ h) in
    (below y prime big, least, recover_x-parity y sign x bit found, root)
  where
    below : (y p : ℕ) → leb p y ≡ false → y < p
    below y p h = ground arith

    cases :
        (big : Bool) (x2 : ℕ) (root : Option ℕ)
        → (if big then none else if x2 == 0 then (if sign == 0 then some 0 else none) else root)
          ≡ some x
        → (0 < x2 → root ≡ some x → (x < prime) × (x * x % prime ≡ x2))
        → (big ≡ false) × (x < prime) × (x * x % prime ≡ x2)
    cases true x2 root e h = cc
    cases false zero root e h =
        let (_, same) = zero_passed sign 0 x e in
        (
          refl,
          subst (λ k. k < prime) same prime_positive,
          ap (λ k. k * k % prime) (sym same) ∙ mod-eq_of_lt prime_positive,
        )
    cases false (suc x2) root e h =
        let (least, square) = h (omega arith) (
          sym (ap (λ c. if c then (if sign == 0 then some 0 else none) else root) (suc_not_zero x2))
          ∙ e) in
        (refl, least, square)
