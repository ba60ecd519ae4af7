-- ===== src/Verifier/Ed25519/Points.antt =====
-- ci/verify_vectors.py: `_point_mul` ends, and BASE is found.
use canonical.Verifier.Outcome.{broken, Run, returned}
use canonical.Prelude.{
  none, some, zero, ◌==◌, if◌then◌else◌, ◌/◌, refl, Bool, arith, ap, ◌∙◌, ◌≡◌, ◌%◌, suc, ◌^◌, ◌<◌,
  ℕ,
}
use canonical.Verifier.Ed25519.{
  equal_multiples, point_equal, verify_points, base, Point, identity, point_add, mul_loop,
  point_mul,
}
use native.Mathlib.Decide.{dec_lt}
use native.Mathlib.Nat.{pow-zero, pow-suc}

mul_loop-zero :
    (fuel scalar : ℕ) (acc p : Point) → scalar ≡ 0 → mul_loop (suc fuel) scalar acc p ≡ returned acc
mul_loop-zero fuel scalar acc p done = rw done (unfold mul_loop in refl)

mul_loop-suc :
    (fuel scalar : ℕ) (acc p : Point)
    → 0 < scalar
    → mul_loop (suc fuel) scalar acc p
      ≡ mul_loop fuel
          (scalar / 2)
          (if scalar % 2 == 1 then point_add acc p else acc)
          (point_add p p)
mul_loop-suc fuel scalar acc p more = unfold mul_loop in chosen _ _ scalar more
  where
    chosen : (v w : Run Point) (scalar : ℕ) → 0 < scalar → (if scalar == 0 then v else w) ≡ w
    chosen v w scalar more = ground arith

mul_loop-total :
    (fuel scalar : ℕ) (acc p : Point)
    → scalar < 2 ^ fuel
    → (q : Point) × (mul_loop (suc fuel) scalar acc p ≡ returned q)
mul_loop-total zero scalar acc p enough =
    (acc, mul_loop-zero zero scalar acc p (omega (arith, pow-zero 2)))
mul_loop-total (suc fuel) scalar acc p enough = elim (dec_lt 0 scalar) [
  | no zero_ ↦ (acc, mul_loop-zero (suc fuel) scalar acc p (omega arith))
  | yes more ↦
      let (q, found) =
        mul_loop-total fuel (scalar / 2) (if scalar % 2 == 1 then point_add acc p else acc)
          (point_add p p) (omega (arith, pow-suc 2 fuel)) in
      (q, mul_loop-suc (suc fuel) scalar acc p more ∙ found)
]

pub point_mul-total :
    (scalar : ℕ) (p : Point) → scalar < 2 ^ 256 → (q : Point) × (point_mul scalar p ≡ returned q)
point_mul-total scalar p enough = unfold point_mul in mul_loop-total 256 scalar identity p enough

base-total : (p : Point) × (base ≡ some p)
unfolding base
base-total = (_, refl)

equal_multiples-total :
    (s k : ℕ) (a r b : Point)
    → s < 2 ^ 256
    → k < 2 ^ 256
    → (c : Bool) × (equal_multiples s k a r b ≡ returned c)
equal_multiples-total s k a r b small small' =
    let (left, mul) = point_mul-total s b small in
    let (right, mul') = point_mul-total k a small' in
    (point_equal left (point_add r right), unfold equal_multiples in rw (mul, mul') refl)

pub verify_points-total :
    (s k : ℕ) (a r : Point)
    → s < 2 ^ 256
    → k < 2 ^ 256
    → (c : Bool) × (verify_points s k a r ≡ returned c)
verify_points-total s k a r small small' =
    let (p, found) = base-total in
    let (c, done) = equal_multiples-total s k a r p small small' in
    (
      c,
      unfold verify_points in
          ap (λ root. elim root [ none ↦ broken | some b ↦ equal_multiples s k a r b ]) found
          ∙ done,
    )
