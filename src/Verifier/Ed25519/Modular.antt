-- ===== src/Verifier/Ed25519/Modular.antt =====
-- ci/verify_vectors.py: what pow gives, of a modulus, is below it.
use canonical.Prelude.{ℕ, zero, suc, ◌*◌, ◌/◌, ◌%◌, ◌<◌, arith}
use native.Mathlib.Nat.{mod-lt}
use canonical.Verifier.Ed25519.{pow_mod}

pub pow_mod-lt : (fuel b e m : ℕ) → 0 < m → pow_mod fuel b e m < m
unfolding pow_mod
pow_mod-lt zero b e m positive = mod-lt _ positive
pow_mod-lt (suc fuel) b e m positive =
    let ih = pow_mod-lt fuel (b * b % m) (e / 2) m positive in
    let one : 1 % m < m = mod-lt 1 positive in
    let product : pow_mod fuel (b * b % m) (e / 2) m * b % m < m = mod-lt _ positive in ground arith
