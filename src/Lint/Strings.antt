-- ===== src/Lint/Strings.antt =====
-- The functions of package strings that analyzer.go calls, on texts as lists of code points.
use canonical.Prelude.{
  drop-append, refl, ◌⊎◌, ◌||◌, ◌==◌, length, inr, inl, ◌&&◌, false, drop, arith, [], Bool-cases,
  ◌≢◌, ◌≡◌, ◌∷◌, ◌↔◌, ◌++◌, true, leb, if◌then◌else◌, Bytes, Bool, ℕ,
}

-- unicode.IsSpace
unfoldable pub is_space : ℕ → Bool
is_space c =
    (leb 0x09 c && leb c 0x0d)
    || c == 0x20
    || c == 0x85
    || c == 0xa0
    || c == 0x1680
    || (leb 0x2000 c && leb c 0x200a)
    || c == 0x2028
    || c == 0x2029
    || c == 0x202f
    || c == 0x205f
    || c == 0x3000

unfoldable pub has_prefix : Bytes → Bytes → Bool
has_prefix s [] = true
has_prefix [] (p ∷ ps) = false
has_prefix (c ∷ s) (p ∷ ps) = (c == p) && has_prefix s ps

unfoldable pub trim_prefix : Bytes → Bytes → Bytes
trim_prefix s p = if has_prefix s p then drop (length p) s else s

unfoldable pub trim_left : Bytes → Bytes
trim_left [] = []
trim_left (c ∷ s) = if is_space c then trim_left s else c ∷ s

unfoldable pub trim_right : Bytes → Bytes
trim_right [] = []
trim_right (c ∷ s) = elim (trim_right s) [
  | [] ↦ if is_space c then [] else c ∷ []
  | d ∷ r ↦ c ∷ d ∷ r
]

unfoldable pub trim_space : Bytes → Bytes
unfolding trim_left trim_right
trim_space s = trim_right (trim_left s)

-- Some character is no space.
abbrev pub HasInk : Bytes → Type 0
HasInk [] = ⊥
HasInk (c ∷ s) = (is_space c ≡ false) ⊎ HasInk s

trim_right-HasInk : (s : Bytes) → HasInk s → trim_right s ≢ []
unfolding trim_right
trim_right-HasInk [] h e = h
trim_right-HasInk (c ∷ s) (inl ink) e = ground arith
trim_right-HasInk (c ∷ s) (inr more) e = ground (arith, trim_right-HasInk s more)

trim_right_ink : (s : Bytes) → trim_right s ≢ [] → HasInk s
unfolding trim_right
trim_right_ink [] h = h refl
trim_right_ink (c ∷ s) h = elim (Bool-cases (is_space c)) [
  | inr ink ↦ inl ink
  | inl space ↦ inr (trim_right_ink s (λ e. h (ground arith)))
]

trim_left-space : (c : ℕ) (s : Bytes) → is_space c ≡ true → trim_left (c ∷ s) ≡ trim_left s
unfolding trim_left
trim_left-space c s h = rw h

trim_left-ink : (c : ℕ) (s : Bytes) → is_space c ≡ false → trim_left (c ∷ s) ≡ c ∷ s
unfolding trim_left
trim_left-ink c s h = rw h

trim_left_ink : (s : Bytes) → HasInk (trim_left s) ↔ HasInk s
trim_left_ink [] = unfold trim_left in (λ h. h, λ h. h)
trim_left_ink (c ∷ s) = elim (Bool-cases (is_space c)) [
  | inr ink ↦ rw (trim_left-ink c s ink) (λ h. h, λ h. h)
  | inl space ↦ rw (trim_left-space c s space) (
    λ h. inr ((trim_left_ink s).0 h),
    λ h. elim h [ inl ink ↦ absurd (cc) | inr more ↦ (trim_left_ink s).1 more ],
  )
]

-- TrimSpace leaves nothing exactly of the texts that are spaces only.
pub trim_space_ink : (s : Bytes) → (trim_space s ≢ []) ↔ HasInk s
unfolding trim_space
trim_space_ink s = (
  λ h. (trim_left_ink s).0 (trim_right_ink (trim_left s) h),
  λ h. trim_right-HasInk (trim_left s) ((trim_left_ink s).1 h),
)

pub has_prefix-append : (p s : Bytes) → has_prefix (p ++ s) p ≡ true
unfolding has_prefix
has_prefix-append [] s = refl
has_prefix-append (c ∷ p) s = ground (arith, has_prefix-append p s)

has_prefix→append : (s p : Bytes) → has_prefix s p ≡ true → s ≡ p ++ drop (length p) s
unfolding has_prefix
has_prefix→append s [] h = refl
has_prefix→append [] (p ∷ ps) h = cc
has_prefix→append (c ∷ s) (p ∷ ps) h =
    let ih = has_prefix→append s ps (ground arith) in let same : c ≡ p = ground arith in cc

pub trim_prefix-append : (p s : Bytes) → trim_prefix (p ++ s) p ≡ s
unfolding trim_prefix
trim_prefix-append p s = rw (has_prefix-append p s) (drop-append p s)

pub append-trim_prefix : (s p : Bytes) → has_prefix s p ≡ true → s ≡ p ++ trim_prefix s p
unfolding trim_prefix
append-trim_prefix s p h = rw h (has_prefix→append s p h)
