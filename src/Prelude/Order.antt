-- ===== src/Prelude/Order.antt =====
-- Lists of integers in strictly ascending order, and lists read by position.
use mathlib.Core.Logic.{◌≢◌}
use mathlib.Core.Path.{sym, subst, ◌≡◌, refl, ap}
use Prim.Native.Nat.{ℕ, zero, suc}
use mathlib.Core.Option.{Option, none, some}
use mathlib.Core.List.{List, [], ◌∷◌, map}
use native.Mathlib.Omega.{arith}
use canonical.Prelude.Int.{ℤ, ◌<ℤ◌}
use canonical.Prelude.Lists.{All}

-- Every element is below every later one.
abbrev pub Ascending : List ℤ → Type 0
Ascending [] = Unit
Ascending (x ∷ xs) = All (λ y. x <ℤ y) xs × Ascending xs

lt_irrefl : (a : ℤ) → ¬ (a <ℤ a)
lt_irrefl a h = omega arith

-- All of a list lies above the element before it, if there is one.
abbrev pub Follows : Option ℤ → List ℤ → Type 0
Follows none xs = Unit
Follows (some p) xs = All (λ y. p <ℤ y) xs

All-lt_trans : (a b : ℤ) (xs : List ℤ) → a <ℤ b → All (λ y. b <ℤ y) xs → All (λ y. a <ℤ y) xs
All-lt_trans a b [] h k = tt
All-lt_trans a b (x ∷ xs) h (k, ks) = (omega arith, All-lt_trans a b xs h ks)

-- A list in ascending order after `previous`, by its head.
pub Follows-cons :
    (previous : Option ℤ) (x : ℤ) (xs : List ℤ)
    → Follows previous (x ∷ [])
    → All (λ y. x <ℤ y) xs
    → Follows previous (x ∷ xs)
Follows-cons none x xs h k = tt
Follows-cons (some p) x xs (h, _) k = (h, All-lt_trans p x xs h k)

pub Follows-head :
    (previous : Option ℤ) (x : ℤ) (xs : List ℤ)
    → Follows previous (x ∷ xs)
    → Follows previous (x ∷ [])
Follows-head none x xs h = tt
Follows-head (some p) x xs (h, _) = (h, tt)

abbrev pub get_elem? {ℓ} : {A : Type ℓ} → List A → ℕ → Option A
get_elem? [] i = none
get_elem? (x ∷ xs) zero = some x
get_elem? (x ∷ xs) (suc i) = get_elem? xs i

module _ {ℓ} {A : Type ℓ} (key : A → ℤ) where
  above :
      (a : ℤ) (xs : List A) (i : ℕ) {x : A}
      → All (λ y. a <ℤ y) (map key xs)
      → get_elem? xs i ≡ some x
      → a <ℤ key x
  above a [] i h e = cc
  above a (y ∷ xs) zero (h, _) e = subst (λ z. a <ℤ key z) (cc) h
  above a (y ∷ xs) (suc i) (_, h) e = above a xs i h e

  -- Behind its head, an ascending list does not repeat the head's key.
  head-ne :
      (z : A) (zs : List A) (j : ℕ) {x y : A}
      → Ascending (map key (z ∷ zs))
      → some z ≡ some x
      → get_elem? zs j ≡ some y
      → key x ≢ key y
  head-ne z zs j {x} {y} (h, _) p q e =
      let at_head : z ≡ x = cc in
      let later : key z <ℤ key y = above (key z) zs j h q in
      let same : key z ≡ key y = rw at_head e in absurd (lt_irrefl (key y) (rw same at later))

  -- In a list that is ascending by a key no two positions have one key.
  pub Ascending-injective :
      (xs : List A) (i j : ℕ) {x y : A}
      → Ascending (map key xs)
      → get_elem? xs i ≡ some x
      → get_elem? xs j ≡ some y
      → key x ≡ key y
      → i ≡ j
  Ascending-injective [] i j h p q e = cc
  Ascending-injective (z ∷ zs) zero zero h p q e = refl
  Ascending-injective (z ∷ zs) zero (suc j) h p q e = absurd (head-ne z zs j h p q e)
  Ascending-injective (z ∷ zs) (suc i) zero h p q e = absurd (head-ne z zs i h q p (sym e))
  Ascending-injective (z ∷ zs) (suc i) (suc j) (_, h) p q e =
      ap suc (Ascending-injective zs i j h p q e)
