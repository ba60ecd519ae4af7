-- ===== src/Verifier/Ed25519/Unique.antt =====
-- ci/verify_vectors.py: the signatures that `ed25519_verify` accepts.
use canonical.Prelude.{
  ap, length-append, ℕ, length-take, refl, ◌||◌, take-append-drop, arith, ◌==◌, ◌++◌, All-drop, not,
  leb, All-take, ◌∙◌, sym, ◌%◌, false, take, if◌then◌else◌, ◌<◌, true, drop, ◌≡◌, length, Bool,
  Option, Bytes,
}
use canonical.Verifier.Outcome.{returned, Run}
use canonical.Octets.{IsOctets}
use canonical.Verifier.Ed25519.Strict.{point_decompress-injective, from_little_endian-injective}
use canonical.Verifier.Ed25519.{
  order, point_decompress, from_little_endian, ed25519_verify, verify_with_key, verify_points,
  Point,
}
use canonical.Prelude.{some, none, Option}
use native.Mathlib.Nat.{mod-eq_of_lt}

-- A signature whose halves are in range.
abbrev IsStrict : Bytes → Type 0
IsStrict signature =
    (length signature ≡ 64)
    × (from_little_endian (drop 32 signature) < order)
    × (p : Point) × (point_decompress (take 32 signature) ≡ some p)

above : (s bound : ℕ) → leb bound s ≡ false → s < bound
above s bound h = ground arith

sizes : (m n : ℕ) → (not (m == 32) || not (n == 64)) ≡ false → n ≡ 64
sizes m n h = ground arith

tested_key :
    (root : Option Point) (big : Bool) (rest : Point → Run Bool)
    → (elim root [ none ↦ returned false | some p ↦ if big then returned false else rest p ])
      ≡ returned true
    → (big ≡ false) × (p : Point) × (root ≡ some p)
tested_key none big rest e = cc
tested_key (some p) true rest e = cc
tested_key (some p) false rest e = (refl, p, refl)

verify_with_key-strict :
    (sha512 : Bytes → Bytes) (a : Point) (public message signature : Bytes)
    → verify_with_key sha512 a public message signature ≡ returned true
    → (from_little_endian (drop 32 signature) < order)
      × (p : Point) × (point_decompress (take 32 signature) ≡ some p)
unfolding verify_with_key
verify_with_key-strict sha512 a public message signature e =
    let (small, p, found) =
      tested_key (point_decompress (take 32 signature))
        (leb order (from_little_endian (drop 32 signature)))
        (λ r.
          verify_points (from_little_endian (drop 32 signature))
            (from_little_endian (sha512 (take 32 signature ++ (public ++ message))) % order) a r)
        e in
    (above (from_little_endian (drop 32 signature)) order small, p, found)

ed25519_verify-IsStrict :
    (sha512 : Bytes → Bytes) (public message signature : Bytes)
    → ed25519_verify sha512 public message signature ≡ returned true
    → IsStrict signature
unfolding ed25519_verify
ed25519_verify-IsStrict sha512 public message signature e =
    let (sized, p, found, rest) =
      guarded (not (length public == 32) || not (length signature == 64)) (point_decompress public)
        (λ a. verify_with_key sha512 a public message signature) e in
    let (small, r, read) = verify_with_key-strict sha512 p public message signature rest in
    (sizes (length public) (length signature) sized, small, r, read)
  where
    guarded :
        (c : Bool) (root : Option Point) (rest : Point → Run Bool)
        → (if c then returned false else elim root [ none ↦ returned false | some a ↦ rest a ])
          ≡ returned true
        → (c ≡ false) × (a : Point) × (root ≡ some a) × (rest a ≡ returned true)
    guarded true root rest e = cc
    guarded false none rest e = cc
    guarded false (some a) rest e = (refl, a, refl, e)

half : (s : Bytes) → length s ≡ 64 → length (drop 32 s) ≡ 32
half s sized = omega (
  arith,
  length-take 32 s (omega arith),
  length-append (take 32 s) (drop 32 s),
  ap length (take-append-drop 32 s),
)

-- Two signatures of octets that ed25519_verify accepts, under whatever keys and for whatever
-- messages, are one signature where their first halves decompress to one point and their second
-- halves are one number modulo Q: a signature has no second spelling.
pub ed25519_verify-injective :
    (sha512 : Bytes → Bytes) (public message public' message' signature other : Bytes)
    → IsOctets signature
    → IsOctets other
    → ed25519_verify sha512 public message signature ≡ returned true
    → ed25519_verify sha512 public' message' other ≡ returned true
    → point_decompress (take 32 signature) ≡ point_decompress (take 32 other)
    → from_little_endian (drop 32 signature) % order ≡ from_little_endian (drop 32 other) % order
    → signature ≡ other
ed25519_verify-injective sha512 public message public' message' signature other hs ho accepted
      accepted' points scalars =
    let (sized, small, p, found) =
      ed25519_verify-IsStrict sha512 public message signature accepted in
    let (sized', small', p', found') =
      ed25519_verify-IsStrict sha512 public' message' other accepted' in
    let heads =
      point_decompress-injective (take 32 signature) (take 32 other) p
        (All-take (λ b. b < 256) 32 signature hs) (All-take (λ b. b < 256) 32 other ho) found
        (sym points ∙ found) in
    let numbers = sym (mod-eq_of_lt small) ∙ scalars ∙ mod-eq_of_lt small' in
    let tails =
      from_little_endian-injective (drop 32 signature) (drop 32 other)
        (All-drop (λ b. b < 256) 32 signature hs) (All-drop (λ b. b < 256) 32 other ho)
        (half signature sized ∙ sym (half other sized')) numbers in
    sym (take-append-drop 32 signature) ∙ rw (heads, tails) (take-append-drop 32 other)
