-- ===== src/Verifier/Compare/Steps.antt =====
-- The tests of `compare_fields` of ci/verify_vectors.py, one by one.
use mathlib.Core.Path.{ap₂}
use canonical.Prelude.{
  ◌∙◌, sym, ◌==◌, if◌then◌else◌, bytes_equal→eq, arith, [], ◌∷◌, ◌≡◌, refl, ap, List, ℕ, suc,
  bytes_equal, Bytes, ℤ, Bool, true, false,
}
use canonical.Verifier.Compare.{compare_level, same_elements, same_field, same_fields, find}
use canonical.Verifier.Schema.{
  Name, Key, Kind, Dict, Dicts, Field, schemas, number, octets, list, int_kind, oct_kind, seqof,
}
use canonical.Verifier.Outcome.{Run, returned, raised, >>=-returned}
use canonical.Verifier.Checks.{Check, count, get}

-- Two looked-up fields pass the test of their kind.
abbrev pub FieldPasses : (Name → Dict → Dict → Check) → Kind → Run Field → Run Field → Type 0
FieldPasses call kind got want =
    (theirs : Field) × (mine : Field) × (want ≡ returned theirs)
    × (got ≡ returned mine)
    × (same_field call kind mine theirs ≡ returned tt)

abbrev pub AllPass : (Name → Dict → Dict → Check) → List (Key × Kind) → Dict → Dict → Type 0
AllPass call [] got want = Unit
AllPass call ((key, kind) ∷ fields) got want =
    FieldPasses call kind (get got key) (find want key) × AllPass call fields got want

fields_same :
    (call : Name → Dict → Dict → Check) (fields : List (Key × Kind)) (got want : Dict) (u : Unit)
    → same_fields call fields got want ≡ returned u
    → AllPass call fields got want
fields_same call [] got want u h = tt
fields_same call ((key, kind) ∷ fields) got want u h =
    let (theirs, f, h1) = >>=-returned (find want key) _ u h in
    let (mine, g, h2) = >>=-returned (get got key) _ u h1 in
    let (_, same, h3) = >>=-returned (same_field call kind mine theirs) _ u h2 in
    ((theirs, mine, f, g, same), fields_same call fields got want u h3)

pub level_same :
    (fuel : ℕ) (name : Name) (got want : Dict) (u : Unit)
    → compare_level (suc fuel) name got want ≡ returned u
    → AllPass (compare_level fuel) (schemas name) got want
unfolding compare_level
level_same fuel name got want u h =
    let (v, same, _) =
      >>=-returned (same_fields (compare_level fuel) (schemas name) got want) _ u h in
    fields_same (compare_level fuel) (schemas name) got want v same

pub number_eq :
    (call : Name → Dict → Dict → Check) (i j : ℤ)
    → FieldPasses call int_kind (returned (number i)) (returned (number j))
    → i ≡ j
number_eq call i j (number l, number k, f, g, same) = ground arith
number_eq call i j (number l, octets k, f, g, same) = cc
number_eq call i j (number l, list k, f, g, same) = cc
number_eq call i j (octets l, k, f, g, same) = cc
number_eq call i j (list l, k, f, g, same) = cc

tested :
    (c : Bool) (m : Check) (u : Unit)
    → (if c then m else raised) ≡ returned u
    → (c ≡ true) × (m ≡ returned u)
tested true m u h = (refl, h)
tested false m u h = cc

pub octets_eq :
    (call : Name → Dict → Dict → Check) (i j : Bytes)
    → FieldPasses call oct_kind (returned (octets i)) (returned (octets j))
    → i ≡ j
octets_eq call i j (octets l, octets k, f, g, same) =
    let equal = bytes_equal→eq k l (tested (bytes_equal k l) (returned tt) tt same).0 in cc
octets_eq call i j (octets l, number k, f, g, same) = cc
octets_eq call i j (octets l, list k, f, g, same) = cc
octets_eq call i j (number l, k, f, g, same) = cc
octets_eq call i j (list l, k, f, g, same) = cc

pub list_same :
    (call : Name → Dict → Dict → Check) (name : Name) (i j : Dicts)
    → FieldPasses call (seqof name) (returned (list i)) (returned (list j))
    → (count i ≡ count j) × (same_elements (call name) i j ≡ returned tt)
list_same call name i j (list l, list k, f, g, same) =
    let (counts, inside) = tested (count k == count l) (same_elements (call name) k l) tt same in
    let left : k ≡ i = cc in
    let right : l ≡ j = cc in
    (
      ap count (sym left) ∙ equal_of (count k) (count l) counts ∙ ap count right,
      sym (ap₂ (same_elements (call name)) left right) ∙ inside,
    )
  where
    equal_of : (m n : ℕ) → (m == n) ≡ true → m ≡ n
    equal_of m n h = ground arith
list_same call name i j (list l, number k, f, g, same) = cc
list_same call name i j (list l, octets k, f, g, same) = cc
list_same call name i j (number l, k, f, g, same) = cc
list_same call name i j (octets l, k, f, g, same) = cc
