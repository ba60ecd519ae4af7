-- ===== src/Tests/Witness/Signatures.antt =====
-- The theorems about Ed25519 of ci/verify_vectors.py, at the first test of RFC 8032, section 7.1.
use canonical.Verifier.Ed25519.Roots.{recover_x_square}
use canonical.Verifier.Ed25519.{x_squared, prime, recover_x, ed25519_verify}
use canonical.Prelude.{◌*◌, some, ◌<◌, ℕ, refl, ◌%◌, arith, [], ◌≡◌, Bool}
use canonical.Verifier.Outcome.{returned}
use canonical.Tests.Signature.{public_key, signature, hashed, accepted}
use canonical.Verifier.Ed25519.Total.{ed25519_verify-total}
use canonical.Verifier.Ed25519.Unique.{ed25519_verify-injective}

ed25519_verify-total_example :
    (c : Bool) × (ed25519_verify (λ _. hashed) public_key [] signature ≡ returned c)
ed25519_verify-total_example = ed25519_verify-total (λ _. hashed) public_key [] signature

ed25519_verify-injective_example : signature ≡ signature
ed25519_verify-injective_example =
    ed25519_verify-injective (λ _. hashed) public_key [] public_key [] signature signature
      (omega arith) (omega arith) accepted accepted refl refl

-- The base point.
abbrev base_x : ℕ
base_x = 15112221349535400772501151409588531511454012693041857206046113283949847762202

abbrev base_y : ℕ
base_y = 46316835694926478169428394003475163141307993866256225615783033603165251855960

base_recovered : recover_x base_y 0 ≡ some base_x
unfolding recover_x
base_recovered = refl

recover_x_square_example :
    (base_y < prime)
    × (base_x < prime)
    × (base_x % 2 ≡ 0)
    × (base_x * base_x % prime ≡ x_squared base_y)
recover_x_square_example = recover_x_square base_y 0 base_x (omega arith) base_recovered
