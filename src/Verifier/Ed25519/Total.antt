-- ===== src/Verifier/Ed25519/Total.antt =====
-- ci/verify_vectors.py: `ed25519_verify` answers.
use canonical.Prelude.{
  true, ◌||◌, ◌==◌, ◌%◌, ◌++◌, length, take, refl, not, leb, if◌then◌else◌, false, drop, arith, ◌+◌,
  ◌≡◌, ◌^◌, Bool, ◌<◌, ℕ, Bytes, none, some, Option,
}
use native.Mathlib.Decide.{dec_lt}
use canonical.Verifier.Outcome.{returned, Run}
use canonical.Verifier.Ed25519.Points.{verify_points-total}
use native.Mathlib.Nat.{mod-lt}
use canonical.Verifier.Ed25519.{
  order, point_decompress, from_little_endian, ed25519_verify, verify_with_key, verify_points,
  Point,
}

order_small : order < 2 ^ 256
order_small =
    let value : order ≡ 2 ^ 252 + 27742317777372353535851937790883648493 = unfold order in refl in
    omega arith

order_positive : 0 < order
order_positive =
    let value : order ≡ 2 ^ 252 + 27742317777372353535851937790883648493 = unfold order in refl in
    omega arith

-- An answer behind the test of S.
answered :
    (s : ℕ) (root : Option Point) (rest : Point → Run Bool)
    → ((r : Point) → s < order → (c : Bool) × (rest r ≡ returned c))
    → (c : Bool) × ((elim root [
      | none ↦ returned false
      | some r ↦ if leb order s then returned false else rest r
    ])
        ≡ returned c)
answered s none rest h = (false, refl)
answered s (some r) rest h = elim (dec_lt s order) [
  | yes small ↦ let (c, done) = h r small in (c, inside s order (rest r) (returned c) small done)
  | no large ↦ (false, outside s order (rest r) large)
]
  where
    inside :
        (s bound : ℕ) (v w : Run Bool)
        → s < bound
        → v ≡ w
        → (if leb bound s then returned false else v) ≡ w
    inside s bound v w small done = ground arith

    outside :
        (s bound : ℕ) (v : Run Bool)
        → ¬ (s < bound)
        → (if leb bound s then returned false else v) ≡ returned false
    outside s bound v large = ground arith

verify_with_key-total :
    (sha512 : Bytes → Bytes) (a : Point) (public message signature : Bytes)
    → (c : Bool) × (verify_with_key sha512 a public message signature ≡ returned c)
verify_with_key-total sha512 a public message signature =
    let s : ℕ = from_little_endian (drop 32 signature) in
    let hashed : ℕ = from_little_endian (sha512 (take 32 signature ++ (public ++ message))) in
    unfold verify_with_key in
    answered s (point_decompress (take 32 signature)) (λ r. verify_points s (hashed % order) a r)
      (λ r small.
        verify_points-total s (hashed % order) a r (omega (arith, order_small))
          (omega (arith, order_small, mod-lt hashed order_positive)))

-- Whatever the key, the message, the signature and the hash function: ed25519_verify answers true
-- or false, within the fuel of both multiplications.
pub ed25519_verify-total :
    (sha512 : Bytes → Bytes) (public message signature : Bytes)
    → (c : Bool) × (ed25519_verify sha512 public message signature ≡ returned c)
ed25519_verify-total sha512 public message signature =
    unfold ed25519_verify in
    guarded (not (length public == 32) || not (length signature == 64)) (point_decompress public)
      (λ a. verify_with_key sha512 a public message signature)
      (λ a. verify_with_key-total sha512 a public message signature)
  where
    guarded :
        (bad : Bool) (root : Option Point) (rest : Point → Run Bool)
        → ((a : Point) → (c : Bool) × (rest a ≡ returned c))
        → (c : Bool) × ((if bad
              then returned false
              else elim root [ none ↦ returned false | some a ↦ rest a ])
            ≡ returned c)
    guarded true root rest h = (false, refl)
    guarded false none rest h = (false, refl)
    guarded false (some a) rest h = h a
