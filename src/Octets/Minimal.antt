-- ===== src/Octets/Minimal.antt =====
-- Numbers in as few octets as hold them and their sign.
use canonical.Octets.{from_big_endian, signed, complement, is_minimal, big_endian}
use canonical.Prelude.{
  pos, negsuc, ◌++◌, refl, zero, [], ◌^◌, ◌%◌, true, arith, ◌∷◌, ◌/◌, ◌*◌, suc, ◌≤◌, ◌≡◌, ◌<◌, ℕ,
  Bytes,
}
use native.Mathlib.Nat.{pow-suc}

-- `suc w` octets hold `n` and its sign, and `w` octets would not.
abbrev pub IsFit : ℕ → ℕ → Type 0
IsFit n zero = n < 128
IsFit n (suc w) = (n < 128 * 256 ^ suc w) × (128 * 256 ^ w ≤ n)

pub IsFit-lt : (n w : ℕ) → IsFit n w → n < 128 * 256 ^ w
IsFit-lt n zero h = omega arith
IsFit-lt n (suc w) h = h.0

pub IsFit-suc : (n w : ℕ) → 128 ≤ n → IsFit (n / 256) w → IsFit n (suc w)
IsFit-suc n zero h k = (omega arith, omega arith)
IsFit-suc n (suc w) h (enough, needed) =
    (omega (arith, pow-suc 256 (suc w)), omega (arith, pow-suc 256 w))

-- A string of octets that neither it nor its complement could do without its first.
pub record IsMinimal (bs : Bytes) : Type 0 where
  pub first : ℕ
  pub others : Bytes
  pub parts : bs ≡ first ∷ others
  pub low : first < 128
  pub minimal : is_minimal (first ∷ others) ≡ true
  pub complement_minimal : is_minimal (complement (first ∷ others)) ≡ true

-- The first two of at least two octets, by induction on the others.
lead :
    (w n : ℕ)
    → n < 128 * 256 ^ suc w
    → 128 * 256 ^ w ≤ n
    → (d : ℕ) × (e : ℕ) × (ds : Bytes) × (big_endian (suc (suc w)) n ≡ d ∷ e ∷ ds)
      × (d < 128)
      × (d ≡ 0 → 128 ≤ e)
unfolding big_endian
lead zero n h k = (n / 256 % 256, n % 256, [], refl, omega arith, λ z. omega arith)
lead (suc w) n h k =
    let (d, e, ds, same, low, second) =
      lead w (n / 256) (omega (arith, pow-suc 256 (suc w))) (omega (arith, pow-suc 256 w)) in
    (d, e, ds ++ ((n % 256) ∷ []), rw same refl, low, second)

pub big_endian-IsMinimal : (w n : ℕ) → IsFit n w → IsMinimal (big_endian (suc w) n)
unfolding is_minimal complement
big_endian-IsMinimal zero n h = record {
  first = n % 256;
  others = [];
  parts = unfold big_endian in refl;
  low = omega arith;
  minimal = refl;
  complement_minimal = refl;
}
big_endian-IsMinimal (suc w) n (enough, needed) =
    let (d, e, ds, same, lows, second) = lead w n enough needed in
    record {
      first = d;
      others = e ∷ ds;
      parts = same;
      low = lows;
      minimal = ground (arith, second);
      complement_minimal = ground (arith, second);
    }

pub signed-low :
    (bs : Bytes) → IsMinimal bs → (is_minimal bs ≡ true) × (signed bs ≡ pos (from_big_endian 0 bs))
unfolding signed
signed-low bs m = rw m.parts (m.minimal, ground (arith, m.low))

pub signed-high :
    (bs : Bytes)
    → IsMinimal bs
    → (is_minimal (complement bs) ≡ true)
      × (signed (complement bs) ≡ negsuc (from_big_endian 0 (complement (complement bs))))
unfolding signed
signed-high bs m = rw m.parts (m.complement_minimal, unfold complement in ground (arith, m.low))
