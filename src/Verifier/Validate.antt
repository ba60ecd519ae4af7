-- ===== src/Verifier/Validate.antt =====
-- `validate` of ci/verify_vectors.py, and the decoding of `check_vector`.
use canonical.Verifier.Checks.{
  raise_printing, Check, get, number_of, octets_of, list_of, check_octets, check_nonempty,
  check_at_least, check_ascending, check_header, check_genesis, check_signed, check_blob,
  check_commit_payload, check_client_request, check_read_index,
}
use canonical.Prelude.{
  ◌∷◌, [], List, Bool, Bytes, pos, true, false, eqb_ℤ, bytes_equal, if◌then◌else◌,
}
use canonical.Verifier.Schema.{
  Name, Key, Kind, same_key, schemas, Dict, Dicts, no_dicts, dict, decode_struct,
}
use canonical.Verifier.Outcome.{Run, returned, raised, broken, out_of_fuel, ◌>>=◌}
use canonical.Verifier.{parse_der}

-- VERSION_EXEMPT
abbrev pub is_exempt : Name → Bool
is_exempt Name.proposal_v0 = true
is_exempt Name.signature_set_v0 = true
is_exempt Name.signer_sig_v0 = true
is_exempt Name.genesis_member_v1 = true
is_exempt Name.certificate_v1 = true
is_exempt Name.header = false
is_exempt Name.genesis_v1 = false
is_exempt Name.signed_v1 = false
is_exempt Name.signed_blob_v1 = false
is_exempt Name.commit_payload_v1 = false
is_exempt Name.client_request_v1 = false
is_exempt Name.read_index_v1 = false
is_exempt Name.commit_certificate_v1 = false

-- The test that SCHEMAS[name] starts with "Version".
abbrev pub leads_with_version : List (Key × Kind) → Bool
leads_with_version [] = false
leads_with_version ((key, kind) ∷ fields) = same_key key Key.version

-- `validate` up to the call of the structure's check.
abbrev pub check_version : Name → Dict → Check
check_version name o = do
  f ← get o Key.version
  v ← number_of f
  if leads_with_version (schemas name)
      then if eqb_ℤ v (pos 1) then returned tt else raise_printing v
      else raised

-- decode_struct(name, parse_der(b))
unfoldable pub read_object : Name → Bytes → Run Dict
unfolding parse_der decode_struct
read_object name b = parse_der b >>= decode_struct name

-- What `_check_cert_msg` decodes in its `try`: `validate` of a CommitPayloadV1 is the version and
-- `_check_commit_payload`.
unfoldable pub validate_payload : Dict → Check
validate_payload o = do _ ← check_version Name.commit_payload_v1 o; check_commit_payload o

unfoldable pub read_payload : Bytes → Run Dict
unfolding read_object validate_payload
read_payload b = do
  payload ← read_object Name.commit_payload_v1 b
  _ ← validate_payload payload
  returned payload

-- `try: ... except SpecError: return`, and the code after it.
abbrev pub unless_raised : Run Dict → (Dict → Check) → Check
unless_raised (returned o) after = after o
unless_raised raised after = returned tt
unless_raised broken after = broken
unless_raised out_of_fuel after = out_of_fuel

-- `payload["ProposalDigest"] != cert["ProposalDigest"]`
abbrev pub check_digests : Bytes → Dict → Check
check_digests digest payload = do
  f ← get payload Key.proposal_digest
  named ← octets_of f
  if bytes_equal named digest then returned tt else raised

-- `_check_cert_msg`; `digest` is the certificate's ProposalDigest. CHECKED is a count for the report.
unfoldable pub check_cert_msg : Bytes → Dict → Check
unfolding read_payload
check_cert_msg digest s = do
  f ← get s Key.msg
  msg ← octets_of f
  unless_raised (read_payload msg) (check_digests digest)

-- The loop of `_check_commit_cert` over the entries.
unfoldable pub check_sigs : Bytes → Dicts → Check
unfolding check_cert_msg
check_sigs digest no_dicts = returned tt
check_sigs digest (dict s sigs) = do
  _ ← check_octets s Key.value 64
  _ ← check_nonempty s Key.msg
  _ ← check_cert_msg digest s
  check_sigs digest sigs

unfoldable pub check_commit_cert : Dict → Check
unfolding check_ascending check_sigs
check_commit_cert o = do
  _ ← check_octets o Key.proposal_digest 32
  _ ← check_at_least o Key.view (pos 0)
  _ ← check_at_least o Key.seq_key (pos 0)
  _ ← check_nonempty o Key.sigs
  f ← get o Key.sigs
  sigs ← list_of f
  _ ← check_ascending sigs Key.signer
  g ← get o Key.proposal_digest
  digest ← octets_of g
  check_sigs digest sigs

-- CHECKS, and the call of it.
unfoldable pub check_structure : Name → Dict → Check
unfolding check_genesis check_client_request check_commit_cert
check_structure Name.header o = check_header o
check_structure Name.genesis_v1 o = check_genesis o
check_structure Name.signed_v1 o = check_signed o
check_structure Name.signed_blob_v1 o = check_blob o
check_structure Name.commit_payload_v1 o = check_commit_payload o
check_structure Name.client_request_v1 o = check_client_request o
check_structure Name.read_index_v1 o = check_read_index o
check_structure Name.commit_certificate_v1 o = check_commit_cert o
check_structure Name.proposal_v0 o = returned tt
check_structure Name.signature_set_v0 o = returned tt
check_structure Name.signer_sig_v0 o = returned tt
check_structure Name.genesis_member_v1 o = returned tt
check_structure Name.certificate_v1 o = returned tt

unfoldable pub validate : Name → Dict → Check
unfolding check_structure
validate name o = do
  _ ← if is_exempt name then returned tt else check_version name o
  check_structure name o

-- The start of `check_vector`: the object that an input decodes to.
unfoldable pub read_vector : Name → Bytes → Run Dict
unfolding read_object validate
read_vector name b = do o ← read_object name b; _ ← validate name o; returned o
