-- ===== src/Verifier/Checks.antt =====
-- The constraints of ci/verify_vectors.py: `validate` and the functions it calls.
use canonical.Prelude.{
  ◌^◌, neg_part, ◌+◌, pos_part, ltb, ◌∷◌, [], List, Bool, ℤ, ℕ, Bytes, pos, suc, true, false,
  length, ◌==◌, ◌/◌, ◌++◌, eqb_ℤ, ltb_ℤ, leb_ℤ, bytes_equal, codes, append_int, if◌then◌else◌,
}
use canonical.Verifier.Schema.{
  Key, same_key, Dict, Dicts, Field, done, entry, number, octets, list, no_dicts, dict,
}
use canonical.Verifier.Outcome.{Run, returned, raised, broken, ◌>>=◌}

-- A check returns nothing.
abbrev pub Check : Type 0
Check = Run {0} Unit

-- obj[field]: a KeyError where there is none.
abbrev pub get : Dict → Key → Run Field
get done key = broken
get (entry k f out) key = let rest = get out key in if same_key k key then returned f else rest

-- A field where the program goes on with a number, with a string, or with a list: else it ends in
-- a TypeError or an AttributeError.
abbrev pub number_of : Field → Run ℤ
number_of (number i) = returned i
number_of (octets b) = broken
number_of (list ds) = broken

abbrev pub octets_of : Field → Run Bytes
octets_of (octets b) = returned b
octets_of (number i) = broken
octets_of (list ds) = broken

abbrev pub list_of : Field → Run Dicts
list_of (list ds) = returned ds
list_of (number i) = broken
list_of (octets b) = broken

abbrev pub count : Dicts → ℕ
count no_dicts = 0
count (dict o ds) = suc (count ds)

-- `len(obj[field]) // 2`: a string has two digits for each octet.
abbrev pub width : Field → Run ℕ
width (octets b) = returned (length b)
width (list ds) = returned (count ds / 2)
width (number i) = broken

-- `not obj[field]`
abbrev pub is_falsy : Field → Bool
is_falsy (number i) = eqb_ℤ i (pos 0)
is_falsy (octets b) = length b == 0
is_falsy (list no_dicts) = true
is_falsy (list (dict o ds)) = false

-- `if test: raise SpecError(...)`
abbrev pub refuse : Bool → Check
refuse true = raised
refuse false = returned tt

-- The texts of errors print integers with %d, and str prints a node id: CPython raises a
-- ValueError for an integer of more than 4300 digits.
unfoldable pub is_printable : ℤ → Bool
is_printable i = ltb (pos_part i + neg_part i) (10 ^ 4300)

-- A SpecError whose text prints an integer.
abbrev pub raise_printing : ℤ → Check
raise_printing i = if is_printable i then raised else broken

-- `if test: raise SpecError(...)`, where the text prints an integer.
abbrev pub refuse_printing : ℤ → Bool → Check
refuse_printing i true = raise_printing i
refuse_printing i false = returned tt

-- `_octets`
abbrev pub check_octets : Dict → Key → ℕ → Check
check_octets o key want = do
  f ← get o key
  got ← width f
  if got == want then returned tt else raised

-- `_nonempty`
abbrev pub check_nonempty : Dict → Key → Check
check_nonempty o key = do f ← get o key; refuse (is_falsy f)

-- `_at_least`
abbrev pub check_at_least : Dict → Key → ℤ → Check
check_at_least o key floor = do f ← get o key; i ← number_of f; refuse_printing i (ltb_ℤ i floor)

-- [x[key] for x in items]
unfoldable pub ids_of : Dicts → Key → Run (List ℤ)
ids_of no_dicts key = returned []
ids_of (dict o ds) key = do f ← get o key; i ← number_of f; ids ← ids_of ds key; returned (i ∷ ids)

-- The loop of `_strictly_ascending` over the pairs of neighbours.
unfoldable pub check_pairs : List ℤ → Check
check_pairs [] = returned tt
check_pairs (a ∷ []) = returned tt
check_pairs (a ∷ b ∷ ids) =
    let rest = check_pairs (b ∷ ids) in
    if leb_ℤ b a then (if is_printable a then raise_printing b else broken) else rest

unfoldable pub check_ascending : Dicts → Key → Check
unfolding ids_of check_pairs
check_ascending items key = ids_of items key >>= check_pairs

abbrev pub check_header : Dict → Check
check_header o = check_octets o Key.prev_state_root 32

-- The end of the loop of `_check_genesis` over the members.
abbrev pub check_spiffe_id : Bytes → Dict → Check
check_spiffe_id domain m = do
  f ← get m Key.node_id
  id ← number_of f
  g ← get m Key.spiffe_id
  uri ← octets_of g
  if is_printable id
      then if bytes_equal uri (append_int ((codes "spiffe://" ++ domain) ++ codes "/node/") id)
        then returned tt
        else raised
      else broken

unfoldable pub check_members : Bytes → Dicts → Check
check_members domain no_dicts = returned tt
check_members domain (dict m members) = do
  _ ← check_at_least m Key.node_id (pos 0)
  _ ← check_octets m Key.leaf_pub_key 32
  _ ← check_spiffe_id domain m
  check_members domain members

unfoldable pub check_genesis : Dict → Check
unfolding check_ascending check_members
check_genesis o = do
  _ ← check_nonempty o Key.trust_domain
  _ ← check_at_least o Key.max_nodes (pos 0)
  f ← get o Key.max_nodes
  max_nodes ← number_of f
  g ← get o Key.members
  members ← list_of g
  _ ← refuse_printing max_nodes (ltb_ℤ max_nodes (pos (count members)))
  _ ← check_ascending members Key.node_id
  h ← get o Key.trust_domain
  domain ← octets_of h
  check_members domain members

-- `o["Purpose"] not in PURPOSES`
abbrev pub check_purpose : Dict → Check
check_purpose o = do
  f ← get o Key.purpose
  p ← number_of f
  if eqb_ℤ p (pos 1)
      then returned tt
      else if eqb_ℤ p (pos 2)
      then returned tt
      else if eqb_ℤ p (pos 3)
      then returned tt
      else if eqb_ℤ p (pos 4)
      then returned tt
      else raise_printing p

abbrev pub check_signed : Dict → Check
check_signed o = do _ ← check_purpose o; check_octets o Key.genesis_digest 32

abbrev pub check_blob : Dict → Check
check_blob o = do _ ← check_purpose o; _ ← check_nonempty o Key.payload; check_octets o Key.value 64

abbrev pub check_commit_payload : Dict → Check
check_commit_payload o = check_octets o Key.proposal_digest 32

unfoldable pub check_intermediates : Dicts → Check
check_intermediates no_dicts = returned tt
check_intermediates (dict c certs) = do _ ← check_nonempty c Key.der; check_intermediates certs

-- `if o[field] <= 0: raise SpecError(...)`
abbrev pub check_positive : Dict → Key → Check
check_positive o key = do f ← get o key; i ← number_of f; refuse_printing i (leb_ℤ i (pos 0))

unfoldable pub check_client_request : Dict → Check
unfolding check_intermediates
check_client_request o = do
  _ ← check_nonempty o Key.client_cert
  f ← get o Key.intermediates
  certs ← list_of f
  _ ← check_intermediates certs
  _ ← check_octets o Key.request_id 16
  check_positive o Key.expiry

abbrev pub check_read_index : Dict → Check
check_read_index o = do
  _ ← check_positive o Key.signer_id
  _ ← check_at_least o Key.view (pos 0)
  _ ← check_at_least o Key.seq_key (pos 0)
  check_octets o Key.nonce 16
