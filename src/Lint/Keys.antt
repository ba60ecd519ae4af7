-- ===== src/Lint/Keys.antt =====
-- The keys of `allowed`, and the map that holds them: `key` of analyzer.go.
use canonical.Prelude.{
  bytes_equal, inr, Bool-cases, inl, bytes_equal_iff, ◌⊎◌, refl, digits-injective, Any, ◌↔◌,
  digits-IsDigit, arith, [], ◌++◌, true, digits, ◌≡◌, ◌∷◌, IsDigit, List, All, ℕ,
}
use canonical.Lint.{key, contains, Text}

-- A colon cannot be among digits.
no_colon : (xs ys : Text) → All IsDigit (xs ++ (b':' ∷ ys)) → ⊥
no_colon [] ys h = omega arith
no_colon (x ∷ xs) ys (_, h) = no_colon xs ys h

last_colon :
    (xs ys ds es : Text)
    → All IsDigit ds
    → All IsDigit es
    → xs ++ (b':' ∷ ds) ≡ ys ++ (b':' ∷ es)
    → (xs ≡ ys) × (ds ≡ es)
last_colon [] [] ds es hd he e = (refl, cc)
last_colon [] (y ∷ ys) ds es hd he e =
    let tails : ds ≡ ys ++ (b':' ∷ es) = cc in absurd (no_colon ys es (rw tails at hd))
last_colon (x ∷ xs) [] ds es hd he e =
    let tails : es ≡ xs ++ (b':' ∷ ds) = cc in absurd (no_colon xs ds (rw tails at he))
last_colon (x ∷ xs) (y ∷ ys) ds es hd he e =
    let (fronts, backs) = last_colon xs ys ds es hd he (cc) in (cc, backs)

-- Two pairs of a file name and a line that `key` writes alike are one pair, also where the file
-- names hold colons and digits.
pub key-injective : (f g : Text) (l m : ℕ) → key f l ≡ key g m → (f ≡ g) × (l ≡ m)
unfolding key
key-injective f g l m e =
    let (files, lines) =
      last_colon f g (digits l) (digits m) (digits-IsDigit l) (digits-IsDigit m) e in
    (files, digits-injective l m lines)

pub contains-cons :
    (x : Text) (xs : List Text) (k : Text)
    → (contains (x ∷ xs) k ≡ true) ↔ ((x ≡ k) ⊎ (contains xs k ≡ true))
unfolding contains
contains-cons x xs k =
    let eq = bytes_equal_iff x k in
    (
      λ e. elim (Bool-cases (bytes_equal x k)) [
        | inl same ↦ inl (eq.0 same)
        | inr differ ↦ inr (ground arith)
      ],
      λ h. elim h [ inl same ↦ rw (eq.1 same) | inr more ↦ ground arith ],
    )

pub contains_iff : (xs : List Text) (k : Text) → (contains xs k ≡ true) ↔ Any (λ x. x ≡ k) xs
contains_iff [] k = unfold contains in (λ e. cc, λ h. absurd h)
contains_iff (x ∷ xs) k =
    let ih = contains_iff xs k in
    let one = contains-cons x xs k in
    (
      λ e. elim (one.0 e) [ inl same ↦ inl same | inr more ↦ inr (ih.0 more) ],
      λ h. one.1 (elim h [ inl same ↦ inl same | inr more ↦ inr (ih.1 more) ]),
    )
