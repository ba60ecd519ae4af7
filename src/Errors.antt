-- ===== src/Errors.antt =====
-- errors.go: the errors that the exported functions return, and Go's (value, error) results.
use canonical.Prelude.{◌≡◌, refl, Option, none, some}

-- What encoding/asn1 reports itself: malformed DER, or DER that does not fit the Go type.
pub data Asn1Error : Type 0 where
  syntax_error structural_error : Asn1Error

pub data Error : Type 0 where
  err_version err_trailing err_non_canonical err_range : Error
  err_length err_empty err_format err_order : Error
  asn1_error : Asn1Error → Error

-- A value, or a non-nil error; the zero value that Go returns beside an error is left out.
pub data Result {ℓ} (A : Type ℓ) : Type ℓ where
  ok : A → Result A
  err : Error → Result A

module _ {ℓ κ} {A : Type ℓ} {B : Type κ} where
  infixl 5 ◌>>=◌
  -- The code after a call, which an error of the call skips.
  abbrev pub ◌>>=◌ : Result A → (A → Result B) → Result B
  err reason >>= next = err reason
  ok value >>= next = next value

  pub >>=-eq-ok :
      (call : Result A) (next : A → Result B) {value : B}
      → (call >>= next) ≡ ok value
      → (got : A) × (call ≡ ok got) × (next got ≡ ok value)
  >>=-eq-ok (err reason) next h = cc
  >>=-eq-ok (ok got) next h = (got, refl, h)

-- `if err := e; err != nil { return err }` before the code `r`; `none` is nil.
abbrev pub after {ℓ} : {A : Type ℓ} → Option Error → Result A → Result A
after none r = r
after (some e) r = err e

-- Behind a check that a successful run passed, the rest ran.
pub after-eq-ok {ℓ} :
    {A : Type ℓ} (o : Option Error) (r : Result A) {a : A}
    → after o r ≡ ok a
    → (o ≡ none) × (r ≡ ok a)
after-eq-ok none r h = (refl, h)
after-eq-ok (some e) r h = cc

-- Where only the check can fail, it did.
pub after-eq-err {ℓ} :
    {A : Type ℓ} (o : Option Error) (a : A) {e : Error} → after o (ok a) ≡ err e → o ≡ some e
after-eq-err none a h = cc
after-eq-err (some f) a h = cc
