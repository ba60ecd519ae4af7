-- ===== src/Prelude/Text.antt =====
-- Text as code points, and the strconv functions that the program calls.
use Prim.Native.Nat.{ℕ, suc, ◌+◌, ◌-◌, ◌*◌, ◌/◌, ◌%◌, ◌≤◌, ◌<◌}
use Prim.Native.Char.{code}
use Prim.Native.String.{String}
use mathlib.Core.Path.{◌≡◌, refl, sym, ap, ◌∙◌}
use mathlib.Core.Logic.{dite, dif_pos, dif_neg}
use mathlib.Core.List.{[], ◌∷◌, ◌++◌}
use mathlib.Core.WellFounded.{Acc}
use native.Mathlib.Decide.{dec_lt}
use native.Mathlib.Omega.{arith}
use native.Mathlib.Bridge.{le_prop}
use canonical.Prelude.Lists.{All-append, Bytes, All}
use canonical.Prelude.Int.{ℤ, pos, negsuc}
use canonical.Prelude.Wf.{lt_wf}

-- The bytes of a text that is ASCII.
abbrev pub codes : String → Bytes
codes String.[] = []
codes (String.◌∷◌ c s) = code c ∷ codes s

-- The decimal digits of a number, the highest first.
digits_acc : (n : ℕ) → Acc ◌<◌ n → Bytes
digits_acc n (Acc.intro _ smaller) =
    dite (dec_lt n 10) (λ _. (48 + n) ∷ [])
      (λ h. digits_acc (n / 10) (smaller (n / 10) (omega arith)) ++ ((48 + n % 10) ∷ []))

unfoldable pub digits : ℕ → Bytes
unfolding digits_acc lt_wf dec_lt
digits n = digits_acc n (lt_wf.apply n)

-- strconv.FormatInt(i, 10)
unfoldable pub format_int : ℤ → Bytes
unfolding digits
format_int (pos n) = digits n
format_int (negsuc n) = b'-' ∷ digits (suc n)

-- strconv.AppendInt(dst, i, 10)
unfoldable pub append_int : Bytes → ℤ → Bytes
unfolding format_int
append_int dst i = dst ++ format_int i

-- The number that a string of digits stands for, read from the left.
read_digits : ℕ → Bytes → ℕ
read_digits acc [] = acc
read_digits acc (d ∷ ds) = read_digits (acc * 10 + (d - 48)) ds

read_digits-append :
    (acc : ℕ) (xs : Bytes) (d : ℕ)
    → read_digits acc (xs ++ (d ∷ [])) ≡ read_digits acc xs * 10 + (d - 48)
unfolding read_digits
read_digits-append acc [] d = refl
read_digits-append acc (x ∷ xs) d = read_digits-append (acc * 10 + (x - 48)) xs d

read_digits-digits_acc : (n : ℕ) (w : Acc ◌<◌ n) → read_digits 0 (digits_acc n w) ≡ n
unfolding digits_acc
read_digits-digits_acc n (Acc.intro _ smaller) = elim (dec_lt n 10) [
  | yes p ↦ rw (dif_pos (dec_lt n 10) le_prop p) (unfold read_digits in omega arith)
  | no p ↦
      rw
        (
          dif_neg (dec_lt n 10) p,
          read_digits-append,
          read_digits-digits_acc (n / 10) (smaller (n / 10) (omega arith)),
        )
        (omega arith)
]

-- No two numbers have the same digits.
pub digits-injective : (n m : ℕ) → digits n ≡ digits m → n ≡ m
unfolding digits
digits-injective n m e =
    sym (read_digits-digits_acc n (lt_wf.apply n))
    ∙ ap (read_digits 0) e
    ∙ read_digits-digits_acc m (lt_wf.apply m)

abbrev pub IsDigit : ℕ → Type 0
IsDigit d = (48 ≤ d) × (d ≤ 57)

digits_acc-IsDigit : (n : ℕ) (w : Acc ◌<◌ n) → All IsDigit (digits_acc n w)
unfolding digits_acc
digits_acc-IsDigit n (Acc.intro _ smaller) = elim (dec_lt n 10) [
  | yes p ↦ rw (dif_pos (dec_lt n 10) le_prop p) (omega arith)
  | no p ↦ rw (dif_neg (dec_lt n 10) p) (
      All-append IsDigit _ _ (digits_acc-IsDigit (n / 10) (smaller (n / 10) (omega arith)))
        (omega arith))
]

pub digits-IsDigit : (n : ℕ) → All IsDigit (digits n)
unfolding digits
digits-IsDigit n = digits_acc-IsDigit n (lt_wf.apply n)

no_minus : (xs ys : Bytes) → All IsDigit xs → ¬ (xs ≡ b'-' ∷ ys)
no_minus [] ys h e = cc
no_minus (x ∷ xs) ys (h, _) e = ground arith

-- No two integers have the same decimal form.
pub format_int-injective : (i j : ℤ) → format_int i ≡ format_int j → i ≡ j
unfolding format_int
format_int-injective (pos n) (pos m) e = ap pos (digits-injective n m e)
format_int-injective (pos n) (negsuc m) e = absurd (no_minus _ _ (digits-IsDigit n) e)
format_int-injective (negsuc n) (pos m) e = absurd (no_minus _ _ (digits-IsDigit m) (sym e))
format_int-injective (negsuc n) (negsuc m) e =
    let same = digits-injective (suc n) (suc m) (cc) in ap negsuc (omega arith)
