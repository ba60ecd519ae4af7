-- ===== src/Verifier/Encode.antt =====
-- `encode_struct` of ci/verify_vectors.py, and the encoding that `check_vector` does again.
use canonical.Prelude.{[], ◌∷◌, List, Bytes, ℕ, suc, zero, ◌≡◌, refl, ap}
use canonical.Octets.{IsOctets}
use canonical.Verifier.{encode_value}
use canonical.Verifier.Outcome.{Run, returned, out_of_fuel, ◌>>=◌, Post-returned}
use canonical.Verifier.Tree.{Value, Items, int, bytes, seq, nil, cons}
use canonical.Verifier.Schema.{
  Name, Key, Kind, int_kind, oct_kind, seqof, schemas, Dict, Dicts, no_dicts, dict,
}
use canonical.Verifier.Checks.{get, number_of, octets_of, list_of}
use canonical.Verifier.Decode.{items_of, elements_of}
use canonical.Verifier.Objects.{
  dict_of, name_of, tree_of, sig_dicts, member_dicts, certificate_dicts,
}
use canonical.Verifier.Validate.{read_object}
use canonical.Verifier.Reading.{read_object-Post}
use canonical.Structures.{
  Structure, versioned, proposal_v0, signature_set_v0, Versioned, header, genesis_v1, signed_v1,
  signed_blob_v1, commit_payload_v1, client_request_v1, read_index_v1, commit_certificate_v1,
}
use canonical.Structures
use canonical.Signatures.{SignerSigV0}
use canonical.Genesis.{GenesisMemberV1}
use canonical.Request.{CertificateV1}

-- The list of a SEQUENCE OF in `struct_value`, whose call on an element is `call`.
abbrev pub element_values : (Dict → Run Value) → Dicts → Run Items
element_values call no_dicts = returned nil
element_values call (dict o ds) =
    call o >>= λ v. element_values call ds >>= λ xs. returned (cons v xs)

-- The loop of `struct_value`.
abbrev pub field_values : (Name → Dict → Run Value) → List (Key × Kind) → Dict → Run Items
field_values call [] o = returned nil
field_values call ((key, int_kind) ∷ fields) o = get o key >>= λ f.
    number_of f >>= λ i. field_values call fields o >>= λ xs. returned (cons (int i) xs)
field_values call ((key, oct_kind) ∷ fields) o = get o key >>= λ f.
    octets_of f >>= λ b. field_values call fields o >>= λ xs. returned (cons (bytes b) xs)
field_values call ((key, seqof name) ∷ fields) o = get o key >>= λ f. list_of f >>= λ ds.
    element_values (call name) ds >>= λ ys.
    field_values call fields o >>= λ xs. returned (cons (seq ys) xs)

-- `struct_value`, with fuel for the depth of SCHEMAS.
unfoldable pub struct_value : ℕ → Name → Dict → Run Value
struct_value zero name o = out_of_fuel
struct_value (suc fuel) name o =
    field_values (struct_value fuel) (schemas name) o >>= λ xs. returned (seq xs)

-- SCHEMAS is two structures deep.
unfoldable pub encode_struct : Name → Dict → Run Bytes
unfolding struct_value
encode_struct name o = struct_value 2 name o >>= λ v. returned (encode_value v)

sig_values :
    (sigs : List SignerSigV0)
    → element_values (struct_value 1 Name.signer_sig_v0) (sig_dicts sigs)
      ≡ returned (elements_of (sig_dicts sigs))
unfolding struct_value items_of
sig_values [] = refl
sig_values (s ∷ sigs) = rw (sig_values sigs)

member_values :
    (ms : List GenesisMemberV1)
    → element_values (struct_value 1 Name.genesis_member_v1) (member_dicts ms)
      ≡ returned (elements_of (member_dicts ms))
unfolding struct_value items_of
member_values [] = refl
member_values (m ∷ ms) = rw (member_values ms)

certificate_values :
    (certs : List CertificateV1)
    → element_values (struct_value 1 Name.certificate_v1) (certificate_dicts certs)
      ≡ returned (elements_of (certificate_dicts certs))
unfolding struct_value items_of
certificate_values [] = refl
certificate_values (c ∷ certs) = rw (certificate_values certs)

pub struct_value-dict_of :
    (s : Structure) (v : Structures.Value s)
    → struct_value 2 (name_of s) (dict_of s v) ≡ returned (tree_of s v)
unfolding struct_value tree_of items_of
struct_value-dict_of (versioned header) v = refl
struct_value-dict_of (versioned genesis_v1) v = rw (member_values v.members)
struct_value-dict_of (versioned signed_v1) v = refl
struct_value-dict_of (versioned signed_blob_v1) v = refl
struct_value-dict_of (versioned commit_payload_v1) v = refl
struct_value-dict_of (versioned client_request_v1) v = rw (certificate_values v.intermediates)
struct_value-dict_of (versioned read_index_v1) v = refl
struct_value-dict_of (versioned commit_certificate_v1) v = rw (sig_values v.sigs)
struct_value-dict_of proposal_v0 v = refl
struct_value-dict_of signature_set_v0 v = rw (sig_values v.sigs)

-- For each of the ten structures, on an input of octets: where decode_struct of parse_der returns
-- an object, encode_struct writes that input for the object.
pub encode_struct-read_object :
    (s : Structure) (b : Bytes) (o : Dict)
    → IsOctets b
    → read_object (name_of s) b ≡ returned o
    → encode_struct (name_of s) o ≡ returned b
unfolding encode_struct
encode_struct-read_object s b o bounded h =
    let (v, same, wrote) = Post-returned _ _ o (read_object-Post s b bounded) h in
    rw (same, struct_value-dict_of s v) (ap returned wrote)
