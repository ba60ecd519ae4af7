-- ===== src/Verifier/Vector.antt =====
-- `check_vector` of ci/verify_vectors.py. Hexadecimal strings are the bytes they stand for.
pub mod Passes
pub mod Conforms
pub mod Blob
use canonical.Prelude.{
  eqb_ℤ, [], ◌∷◌, List, Bool, Bytes, ℤ, ℕ, ◌+◌, ◌-◌, ◌%◌, length, true, false, pos, bytes_equal,
  ◌==◌, if◌then◌else◌, Option, none, some,
}
use canonical.Verifier.{parse_der}
use canonical.Verifier.Schema.{
  Name, Key, Dict, Dicts, Field, done, entry, number, octets, no_dicts, dict, decode_struct,
  same_key,
}
use canonical.Verifier.Tree.{Value}
use canonical.Verifier.Checks.{Check, get, number_of, octets_of, list_of, count, is_falsy}
use canonical.Verifier.Validate.{validate, read_object, read_vector}
use canonical.Verifier.Encode.{encode_struct}
use canonical.Verifier.Compare.{compare_fields}
use canonical.Verifier.Forgeries.{derived_forgeries}
use canonical.Verifier.Ed25519.{ed25519_verify}
use canonical.Verifier.Outcome.{Run, returned, raised, broken, out_of_fuel, ◌>>=◌}

-- An entry of "vectors"; the structure is none where SCHEMAS has no such name.
pub record Vector : Type 0 where
  pub structure : Option Name
  pub der : Bytes
  pub fields : Dict
  pub sha256 : Bytes

-- What `notes` says: entries bound of all, what the payload is, the length of the envelope.
pub data Note : Type 0 where
  bound : ℕ → ℕ → Note
  payload_opaque : Note
  payload_is payload_is_not : Name → Note
  verified : ℕ → Note

pub record Report : Type 0 where
  pub size : ℕ
  pub forgeries : ℕ
  pub notes : List Note

-- PURPOSE_PAYLOAD.get(purpose)
abbrev pub purpose_structure : ℤ → Option Name
purpose_structure i =
    if eqb_ℤ i (pos 1)
    then some Name.commit_payload_v1
    else if eqb_ℤ i (pos 3)
    then some Name.client_request_v1
    else if eqb_ℤ i (pos 4)
    then some Name.read_index_v1
    else none

-- The `try` of `purpose_payload`.
abbrev pub payload_note : Name → Bool → Run Dict → Run Note
payload_note want required (returned o) = returned (payload_is want)
payload_note want required raised = if required then raised else returned (payload_is_not want)
payload_note want required broken = broken
payload_note want required out_of_fuel = out_of_fuel

unfoldable pub purpose_payload : ℤ → Bytes → Bool → Run Note
unfolding read_vector
purpose_payload purpose payload required = elim (purpose_structure purpose) [
  | none ↦ returned payload_opaque
  | some want ↦ payload_note want required (read_vector want payload)
]

-- The raise of a SpecError where a test fails.
abbrev pub expect : Bool → Check
expect true = returned tt
expect false = raised

-- fields.get(key)
abbrev pub lookup : Dict → Key → Option Field
lookup done key = none
lookup (entry k f out) key = let rest = lookup out key in if same_key k key then some f else rest

-- The test that a field is there and not empty.
abbrev pub nonempty : Option Field → Option Field
nonempty none = none
nonempty (some f) = if is_falsy f then none else some f

-- foreign[0] ^= 0x01: an IndexError where there is no octet.
abbrev pub flip_first : Bytes → Run Bytes
flip_first [] = broken
flip_first (b ∷ bs) = returned ((if b % 2 == 0 then b + 1 else b - 1) ∷ bs)

-- The envelope that the script rebuilds for a genesis digest.
unfoldable pub rebuilt : Field → Field → Field → Run Bytes
unfolding encode_struct
rebuilt purpose digest payload = encode_struct Name.signed_v1 (
    entry Key.version (number (pos 1)) (
      entry Key.purpose purpose (entry Key.genesis_digest digest (entry Key.payload payload done))))

-- The test of `check_blob_signature` under a foreign digest; `size` is len(envelope).
unfoldable pub refuse_foreign : (Bytes → Bytes) → Bytes → Bytes → Field → Field → Field → ℕ → Run ℕ
unfolding rebuilt ed25519_verify
refuse_foreign sha512 key sig purpose digest payload size = do
  own ← octets_of digest
  foreign ← flip_first own
  other ← rebuilt purpose (octets foreign) payload
  theirs ← ed25519_verify sha512 key other sig
  if theirs then raised else returned size

-- Its tests of the signature.
unfoldable pub verify_envelope : (Bytes → Bytes) → Bytes → Bytes → Field → Field → Field → Run ℕ
unfolding rebuilt ed25519_verify refuse_foreign
verify_envelope sha512 key sig purpose digest payload = do
  own ← rebuilt purpose digest payload
  mine ← ed25519_verify sha512 key own sig
  _ ← expect mine
  refuse_foreign sha512 key sig purpose digest payload (length own)

-- `check_blob_signature` behind the test of its two inputs; `sha512` is hashlib.sha512.
unfoldable pub check_signature : (Bytes → Bytes) → Field → Field → Dict → Run ℕ
unfolding verify_envelope
check_signature sha512 digest pub_key obj = do
  key ← octets_of pub_key
  _ ← expect (length key == 32)
  value ← get obj Key.value
  sig ← octets_of value
  purpose ← get obj Key.purpose
  payload ← get obj Key.payload
  verify_envelope sha512 key sig purpose digest payload

unfoldable pub check_blob_signature : (Bytes → Bytes) → Dict → Dict → Run (List Note)
unfolding check_signature
check_blob_signature sha512 fields obj = elim (nonempty (lookup fields Key.genesis_digest)) [
  | none ↦ returned []
  | some digest ↦ elim (nonempty (lookup fields Key.pub_key)) [
    | none ↦ returned []
    | some pub_key ↦ check_signature sha512 digest pub_key obj >>= λ n. returned (verified n ∷ [])
  ]
]

-- The `try` of `_msg_is_commit_payload`, as a number.
abbrev pub one_if_returned : Run Dict → Run ℕ
one_if_returned (returned o) = returned 1
one_if_returned raised = returned 0
one_if_returned broken = broken
one_if_returned out_of_fuel = out_of_fuel

-- sum(1 for e in obj["Sigs"] if _msg_is_commit_payload(e["Msg"]))
unfoldable pub count_bound : Dicts → Run ℕ
unfolding read_object
count_bound no_dicts = returned 0
count_bound (dict e sigs) = do
  f ← get e Key.msg
  msg ← octets_of f
  one ← one_if_returned (read_object Name.commit_payload_v1 msg)
  more ← count_bound sigs
  returned (one + more)

-- What `purpose_payload` says of an object.
unfoldable pub purpose_note : Dict → Bool → Run Note
unfolding purpose_payload
purpose_note obj required = do
  f ← get obj Key.purpose
  purpose ← number_of f
  g ← get obj Key.payload
  payload ← octets_of g
  purpose_payload purpose payload required

-- The notes of `check_vector`.
unfoldable pub notes_of : (Bytes → Bytes) → Name → Dict → Dict → Run (List Note)
unfolding count_bound purpose_note check_blob_signature
notes_of sha512 Name.commit_certificate_v1 fields obj = do
  f ← get obj Key.sigs
  sigs ← list_of f
  n ← count_bound sigs
  returned (bound n (count sigs) ∷ [])
notes_of sha512 Name.signed_v1 fields obj = purpose_note obj false >>= λ note. returned (note ∷ [])
notes_of sha512 Name.signed_blob_v1 fields obj = do
  note ← purpose_note obj true
  more ← check_blob_signature sha512 fields obj
  returned (note ∷ more)
notes_of sha512 name fields obj = returned []

-- `check_vector` behind the decoding and the validation of the input.
unfoldable pub check_decoded :
    (Bytes → Bytes) → (Bytes → Bytes) → Name → Value → Dict → Vector → Run Report
unfolding compare_fields encode_struct notes_of derived_forgeries
check_decoded sha256 sha512 name tree obj vec = do
  _ ← compare_fields name obj vec.fields
  again ← encode_struct name obj
  _ ← expect (bytes_equal again vec.der)
  _ ← expect (bytes_equal (sha256 vec.der) vec.sha256)
  notes ← notes_of sha512 name vec.fields obj
  forgeries ← derived_forgeries name tree vec.der
  returned (record { size = length vec.der; forgeries = forgeries; notes = notes })

unfoldable pub check_named : (Bytes → Bytes) → (Bytes → Bytes) → Name → Vector → Run Report
unfolding parse_der decode_struct validate check_decoded
check_named sha256 sha512 name vec = do
  tree ← parse_der vec.der
  obj ← decode_struct name tree
  _ ← validate name obj
  check_decoded sha256 sha512 name tree obj vec

-- `check_vector`; `sha256` and `sha512` are those of hashlib.
unfoldable pub check_vector : (Bytes → Bytes) → (Bytes → Bytes) → Vector → Run Report
unfolding check_named
check_vector sha256 sha512 vec = elim vec.structure [
  | none ↦ raised
  | some name ↦ check_named sha256 sha512 name vec
]
