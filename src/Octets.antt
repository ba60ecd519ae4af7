-- ===== src/Octets.antt =====
-- Numbers as octets, the highest first, and two's complement: WIRE-SPEC.md 2.5.
pub mod Minimal
pub mod Unique
use native.Mathlib.Nat.{pow-suc}
use canonical.Prelude.{
  leb, ◌||◌, ◌&&◌, ◌==◌, negsuc, zero, not, ltb, ◌+◌, ◌%◌, true, refl, if◌then◌else◌, arith, ◌^◌,
  ◌/◌, ◌-◌, ◌*◌, pos, length-append, false, ap, All-append, ◌≡◌, ◌∷◌, ◌<◌, ◌++◌, ℤ, suc, map,
  length, [], Bool, All, ℕ, Bytes,
}

-- The `w` low octets of `n`, the highest first.
unfoldable pub big_endian : ℕ → ℕ → Bytes
big_endian zero n = []
big_endian (suc w) n = big_endian w (n / 256) ++ ((n % 256) ∷ [])

unfoldable pub complement : Bytes → Bytes
complement = map (λ b. 255 - b)

unfoldable pub from_big_endian : ℕ → Bytes → ℕ
from_big_endian acc [] = acc
from_big_endian acc (b ∷ bs) = from_big_endian (acc * 256 + b) bs

-- The number that a string of octets stands for, in two's complement.
unfoldable pub signed : Bytes → ℤ
unfolding from_big_endian complement
signed [] = pos 0
signed (b ∷ bs) =
    if ltb b 128
    then pos (from_big_endian 0 (b ∷ bs))
    else negsuc (from_big_endian 0 (complement (b ∷ bs)))

-- At least one octet, and no first one that the sign makes redundant.
unfoldable pub is_minimal : Bytes → Bool
is_minimal [] = false
is_minimal (b ∷ []) = true
is_minimal (b ∷ c ∷ bs) = not ((b == 0 && ltb c 128) || (b == 255 && leb 128 c))

abbrev pub IsOctets : Bytes → Type 0
IsOctets = All (λ b. b < 256)

pub big_endian-IsOctets : (w n : ℕ) → IsOctets (big_endian w n)
unfolding big_endian
big_endian-IsOctets zero n = tt
big_endian-IsOctets (suc w) n =
    All-append (λ b. b < 256) _ _ (big_endian-IsOctets w (n / 256)) (omega arith)

pub complement-complement : (bs : Bytes) → IsOctets bs → complement (complement bs) ≡ bs
unfolding complement
complement-complement [] h = refl
complement-complement (b ∷ bs) (h, hs) =
    let same : 255 - (255 - b) ≡ b = omega arith in cc (complement-complement bs hs)

pub length-complement : (bs : Bytes) → length (complement bs) ≡ length bs
unfolding complement
length-complement [] = refl
length-complement (b ∷ bs) = ap suc (length-complement bs)

pub from_big_endian-append :
    (acc : ℕ) (xs : Bytes) (b : ℕ)
    → from_big_endian acc (xs ++ (b ∷ [])) ≡ from_big_endian acc xs * 256 + b
unfolding from_big_endian
from_big_endian-append acc [] b = refl
from_big_endian-append acc (x ∷ xs) b = from_big_endian-append (acc * 256 + x) xs b

pub from_big_endian-big_endian : (w n : ℕ) → n < 256 ^ w → from_big_endian 0 (big_endian w n) ≡ n
unfolding big_endian
from_big_endian-big_endian zero n h = unfold from_big_endian in omega arith
from_big_endian-big_endian (suc w) n h =
    rw
      (
        from_big_endian-append,
        from_big_endian-big_endian w (n / 256) (omega (arith, pow-suc 256 w)),
      )
      (omega arith)

pub length-big_endian : (w n : ℕ) → length (big_endian w n) ≡ w
unfolding big_endian
length-big_endian zero n = refl
length-big_endian (suc w) n = rw (length-append, length-big_endian w (n / 256)) (omega arith)
