-- ===== src/Verifier/Outcome.antt =====
-- How a call of ci/verify_vectors.py ends.
use canonical.Prelude.{ap, if◌then◌else◌, false, true, refl, Bool, ◌≢◌, ◌≡◌}
use mathlib.Core.Path.{subst}

-- `raised` is a SpecError, its text left out; `broken` is another exception, such as a KeyError.
-- `out_of_fuel` has no counterpart in the program.
pub data Run {ℓ} (A : Type ℓ) : Type ℓ where
  returned : A → Run A
  raised broken out_of_fuel : Run A

module _ {ℓ κ} {A : Type ℓ} {B : Type κ} where
  infixl 5 ◌>>=◌
  abbrev pub ◌>>=◌ : Run A → (A → Run B) → Run B
  raised >>= next = raised
  broken >>= next = broken
  out_of_fuel >>= next = out_of_fuel
  returned a >>= next = next a

-- The run kept within its fuel and did not break, and what it returned is as `P` says.
abbrev pub Post {ℓ} : {A : Type ℓ} → (A → Type 0) → Run A → Type 0
Post P (returned a) = P a
Post P raised = Unit
Post P broken = ⊥
Post P out_of_fuel = ⊥

pub >>=-Post {ℓ κ} :
    {A : Type ℓ} {B : Type κ} (P : A → Type 0) (Q : B → Type 0) (m : Run A) (next : A → Run B)
    → Post P m
    → ((a : A) → P a → Post Q (next a))
    → Post Q (m >>= next)
>>=-Post P Q out_of_fuel next h k = absurd h
>>=-Post P Q broken next h k = absurd h
>>=-Post P Q raised next h k = tt
>>=-Post P Q (returned a) next h k = k a h

pub Post-returned {ℓ} :
    {A : Type ℓ} (P : A → Type 0) (m : Run A) (a : A) → Post P m → m ≡ returned a → P a
Post-returned P (returned b) a h e = subst P (cc) h
Post-returned P raised a h e = cc
Post-returned P out_of_fuel a h e = absurd h
Post-returned P broken a h e = absurd h

pub >>=-eq {ℓ κ} :
    {A : Type ℓ} {B : Type κ} (m : Run A) (next : A → Run B) (a : A)
    → m ≡ returned a
    → (m >>= next) ≡ next a
>>=-eq m next a e = ap (λ k. k >>= next) e

pub >>=-returned {ℓ κ} :
    {A : Type ℓ} {B : Type κ} (m : Run A) (next : A → Run B) (b : B)
    → (m >>= next) ≡ returned b
    → (a : A) × (m ≡ returned a) × (next a ≡ returned b)
>>=-returned (returned a) next b h = (a, refl, h)
>>=-returned raised next b h = cc
>>=-returned broken next b h = cc
>>=-returned out_of_fuel next b h = cc

pub Post-within {ℓ} : {A : Type ℓ} (P : A → Type 0) (m : Run A) → Post P m → m ≢ out_of_fuel
Post-within P (returned b) h e = cc
Post-within P raised h e = cc
Post-within P out_of_fuel h e = h
Post-within P broken h e = cc

pub Post-if {ℓ} :
    {A : Type ℓ} (P : A → Type 0) (b : Bool) (x y : Run A)
    → (b ≡ true → Post P x)
    → (b ≡ false → Post P y)
    → Post P (if b then x else y)
Post-if P true x y hx hy = hx refl
Post-if P false x y hx hy = hy refl

pub Post-intro {ℓ} :
    {A : Type ℓ} (P : A → Type 0) (m : Run A)
    → (m ≢ out_of_fuel) × (m ≢ broken)
    → ((a : A) → m ≡ returned a → P a)
    → Post P m
Post-intro P (returned a) ends h = h a refl
Post-intro P raised ends h = tt
Post-intro P out_of_fuel (within, whole) h = within refl
Post-intro P broken (within, whole) h = whole refl

pub Post-both {ℓ} :
    {A : Type ℓ} (P Q : A → Type 0) (m : Run A) → Post P m → Post Q m → Post (λ a. P a × Q a) m
Post-both P Q (returned a) h k = (h, k)
Post-both P Q raised h k = tt
Post-both P Q out_of_fuel h k = h
Post-both P Q broken h k = h

-- A postcondition on what a run returned, seen through a function.
pub Post-map {ℓ} :
    {A : Type ℓ} (P Q : A → Type 0) (m : Run A) → ((a : A) → P a → Q a) → Post P m → Post Q m
Post-map P Q (returned a) f h = f a h
Post-map P Q raised f h = tt
Post-map P Q out_of_fuel f h = h
Post-map P Q broken f h = h

pub Post-ends {ℓ} :
    {A : Type ℓ} (P : A → Type 0) (m : Run A) → Post P m → (m ≢ out_of_fuel) × (m ≢ broken)
Post-ends P (returned b) h = (λ e. cc, λ e. cc)
Post-ends P raised h = (λ e. cc, λ e. cc)
Post-ends P out_of_fuel h = absurd h
Post-ends P broken h = absurd h

-- What a chain of calls that returned has returned on the way.
pub first_of :
    {A B : Type 0} (m : Run A) (next : A → Run B) (b : B)
    → (m >>= next) ≡ returned b
    → (a : A) × (m ≡ returned a) × (next a ≡ returned b)
first_of (returned a) next b h = (a, refl, h)
first_of raised next b h = cc
first_of broken next b h = cc
first_of out_of_fuel next b h = cc
