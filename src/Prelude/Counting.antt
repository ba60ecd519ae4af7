-- ===== src/Prelude/Counting.antt =====
-- An ascending list of elements of another list is no longer than that list.
use mathlib.Core.Path.{◌≡◌, ap, refl, sym, ◌∙◌}
use mathlib.Core.Logic.{◌≢◌, inl, inr}
use Prim.Native.Nat.{suc, ◌≤◌}
use mathlib.Core.List.{List, [], ◌∷◌}
use native.Mathlib.Omega.{arith}
use canonical.Prelude.Int.{ℤ, ◌<ℤ◌, pos_part, neg_part}
use canonical.Prelude.Lists.{All, Any, length}
use canonical.Prelude.Order.{Ascending}

abbrev pub Has : List ℤ → ℤ → Type 0
Has xs z = Any (λ y. y ≡ z) xs

-- The list without one element of it.
abbrev without : (z : ℤ) (xs : List ℤ) → Has xs z → List ℤ
without z [] h = []
without z (x ∷ xs) (inl here) = xs
without z (x ∷ xs) (inr later) = x ∷ without z xs later

length-without : (z : ℤ) (xs : List ℤ) (h : Has xs z) → length xs ≡ suc (length (without z xs h))
length-without z [] h = absurd h
length-without z (x ∷ xs) (inl here) = refl
length-without z (x ∷ xs) (inr later) = omega (arith, length-without z xs later)

kept : (z w : ℤ) (xs : List ℤ) (h : Has xs z) → Has xs w → z ≢ w → Has (without z xs h) w
kept z w [] h k ne = h
kept z w (x ∷ xs) (inl here) (inl same) ne = absurd (ne (sym here ∙ same))
kept z w (x ∷ xs) (inl here) (inr k) ne = k
kept z w (x ∷ xs) (inr later) (inl same) ne = inl same
kept z w (x ∷ xs) (inr later) (inr k) ne = inr (kept z w xs later k ne)

lt_ne : (a b : ℤ) → a <ℤ b → a ≢ b
lt_ne a b h e = omega (arith, ap pos_part e, ap neg_part e)

All-kept :
    (z : ℤ) (zs xs : List ℤ) (h : Has xs z)
    → All (λ y. z <ℤ y) zs
    → All (Has xs) zs
    → All (Has (without z xs h)) zs
All-kept z [] xs h above k = tt
All-kept z (w ∷ zs) xs h (low, above) (k, ks) =
    (kept z w xs h k (lt_ne z w low), All-kept z zs xs h above ks)

pub Ascending-length : (zs xs : List ℤ) → Ascending zs → All (Has xs) zs → length zs ≤ length xs
Ascending-length [] xs h k = omega arith
Ascending-length (z ∷ zs) xs (above, h) (k, ks) = omega (
  arith,
  length-without z xs k,
  Ascending-length zs (without z xs k) h (All-kept z zs xs k above ks),
)
