-- ===== src/Verifier/Compare.antt =====
-- `compare_fields` of ci/verify_vectors.py.
pub mod Same
pub mod Steps
pub mod Passed
use canonical.Verifier.Outcome.{broken, Run, returned, raised, out_of_fuel, ◌>>=◌}
use canonical.Verifier.Checks.{
  raise_printing, is_printable, Check, get, number_of, octets_of, list_of, count,
}
use canonical.Prelude.{
  [], ◌∷◌, List, Bool, Bytes, ℤ, ℕ, zero, suc, false, eqb_ℤ, bytes_equal, ◌==◌, ◌||◌, ◌++◌,
  if◌then◌else◌,
}
use canonical.Verifier.Schema.{
  Name, Key, Kind, int_kind, oct_kind, seqof, schemas, same_key, Dict, Dicts, Field, done, entry,
  number, octets, list, no_dicts, dict,
}

-- want[fname], behind the test that it is there.
abbrev pub find : Dict → Key → Run Field
find done key = raised
find (entry k f out) key = let rest = find out key in if same_key k key then returned f else rest

-- `mine != theirs`, of a number and of a string; the text of the error prints both. json.load reads
-- no integer of more than 4300 digits, so that the elements of a list of the vector are printed.
abbrev pub same_number : ℤ → Field → Check
same_number i (number j) =
    if eqb_ℤ i j then returned tt else if is_printable i then raise_printing j else broken
same_number i (octets b) = raise_printing i
same_number i (list ds) = raise_printing i

abbrev pub same_octets : Bytes → Field → Check
same_octets b (octets c) = if bytes_equal b c then returned tt else raised
same_octets b (number i) = raise_printing i
same_octets b (list ds) = raised

-- The test isinstance(theirs, list).
abbrev pub expect_list : Field → Run Dicts
expect_list (list ds) = returned ds
expect_list (number i) = if is_printable i then raised else broken
expect_list (octets b) = raised

-- The loop over zip(mine, theirs), whose call on two elements is `call`.
abbrev pub same_elements : (Dict → Dict → Check) → Dicts → Dicts → Check
same_elements call no_dicts theirs = returned tt
same_elements call (dict o ds) no_dicts = returned tt
same_elements call (dict o ds) (dict p es) = call o p >>= λ _. same_elements call ds es

-- The test of the lengths, and that loop.
abbrev pub same_list : (Dict → Dict → Check) → Dicts → Dicts → Check
same_list call mine theirs =
    if count mine == count theirs then same_elements call mine theirs else raised

-- The body of the loop over SCHEMAS[name].
abbrev pub same_field : (Name → Dict → Dict → Check) → Kind → Field → Field → Check
same_field call int_kind mine theirs = number_of mine >>= λ i. same_number i theirs
same_field call oct_kind mine theirs = octets_of mine >>= λ b. same_octets b theirs
same_field call (seqof name) mine theirs =
    expect_list theirs >>= λ es. list_of mine >>= λ ds. same_list (call name) ds es

abbrev pub same_fields : (Name → Dict → Dict → Check) → List (Key × Kind) → Dict → Dict → Check
same_fields call [] got want = returned tt
same_fields call ((key, kind) ∷ fields) got want = do
  theirs ← find want key
  mine ← get got key
  _ ← same_field call kind mine theirs
  same_fields call fields got want

-- VERIFIER_INPUTS
abbrev pub verifier_inputs : Name → List Key
verifier_inputs Name.signed_blob_v1 = Key.genesis_digest ∷ Key.pub_key ∷ []
verifier_inputs name = []

abbrev pub is_among : Key → List Key → Bool
is_among key [] = false
is_among key (k ∷ keys) = same_key k key || is_among key keys

abbrev pub keys_of : List (Key × Kind) → List Key
keys_of [] = []
keys_of ((key, kind) ∷ fields) = key ∷ keys_of fields

-- The refusal of unknown keys.
abbrev pub refuse_unknown : List Key → Dict → Check
refuse_unknown known done = returned tt
refuse_unknown known (entry key f want) =
    let rest = refuse_unknown known want in if is_among key known then rest else raised

-- `compare_fields`, with fuel for the depth of SCHEMAS.
unfoldable pub compare_level : ℕ → Name → Dict → Dict → Check
compare_level zero name got want = out_of_fuel
compare_level (suc fuel) name got want = do
  _ ← same_fields (compare_level fuel) (schemas name) got want
  refuse_unknown (keys_of (schemas name) ++ verifier_inputs name) want

-- SCHEMAS is two structures deep.
unfoldable pub compare_fields : Name → Dict → Dict → Check
unfolding compare_level
compare_fields = compare_level 2
