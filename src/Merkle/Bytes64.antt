-- ===== src/Merkle/Bytes64.antt =====
-- PutUint64 loses nothing of a uint64.
use canonical.Prelude.{◌+◌, ◌*◌, ◌∷◌, ap, ◌∙◌, sym, refl, arith, ◌≡◌, ◌^◌, ◌<◌, length, Bytes, ℕ}
use canonical.Merkle.{put_uint64}

pub length-put_uint64 : (v : ℕ) → length (put_uint64 v) ≡ 8
unfolding put_uint64
length-put_uint64 v = refl

-- The number that 8 bytes stand for.
get_uint64 : Bytes → ℕ
get_uint64 (a ∷ b ∷ c ∷ d ∷ e ∷ f ∷ g ∷ h ∷ _) =
    a * 2 ^ 56 + b * 2 ^ 48 + c * 2 ^ 40 + d * 2 ^ 32 + e * 2 ^ 24 + f * 2 ^ 16 + g * 2 ^ 8 + h
get_uint64 _ = 0

get_uint64-put_uint64 : (v : ℕ) → v < 2 ^ 64 → get_uint64 (put_uint64 v) ≡ v
unfolding get_uint64 put_uint64
get_uint64-put_uint64 v h = omega arith

pub put_uint64-injective : (u v : ℕ) → u < 2 ^ 64 → v < 2 ^ 64 → put_uint64 u ≡ put_uint64 v → u ≡ v
put_uint64-injective u v hu hv e =
    sym (get_uint64-put_uint64 u hu) ∙ ap get_uint64 e ∙ get_uint64-put_uint64 v hv
