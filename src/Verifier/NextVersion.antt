-- ===== src/Verifier/NextVersion.antt =====
-- The objects of ci/verify_vectors.py with Version 2: WIRE-SPEC.md 4.1.
use canonical.Prelude.{pos, ◌+◌, ◌*◌, ◌≤◌, ◌≡◌, refl, arith, length}
use canonical.Verifier.{encode_value}
use canonical.Verifier.Outcome.{raised}
use canonical.Verifier.Tree.{Value, Items, int, seq, cons}
use canonical.Verifier.Schema.{Key, number}
use canonical.Verifier.Checks.{is_printable}
use canonical.Verifier.Validate.{validate}
use canonical.Verifier.Decode.{items_of}
use canonical.Verifier.Objects.{dict_of, name_of, tree_of}
use canonical.Verifier.Forgeries.{with_field}
use canonical.Verifier.Growth.{seq_grows}
use canonical.Verifier.Inside.{length-encode_items-cons}
use canonical.Structures.{
  versioned, Versioned, VersionedValue, header, genesis_v1, signed_v1, signed_blob_v1,
  commit_payload_v1, client_request_v1, read_index_v1, commit_certificate_v1,
}

-- The value of the next version.
abbrev pub second : (u : Versioned) → VersionedValue u → VersionedValue u
second header v = record {
  version = pos 2;
  prev_state_root = v.prev_state_root;
  prev_seq = v.prev_seq;
  consensus_time = v.consensus_time;
}
second genesis_v1 v = record {
  version = pos 2;
  trust_domain = v.trust_domain;
  ca_root = v.ca_root;
  max_nodes = v.max_nodes;
  members = v.members;
}
second signed_v1 v = record {
  version = pos 2;
  purpose = v.purpose;
  genesis_digest = v.genesis_digest;
  payload = v.payload;
}
second signed_blob_v1 v = record {
  version = pos 2;
  purpose = v.purpose;
  payload = v.payload;
  value = v.value;
}
second commit_payload_v1 v = record {
  version = pos 2;
  proposal_digest = v.proposal_digest;
  aux = v.aux;
}
second client_request_v1 v = record {
  version = pos 2;
  client_cert = v.client_cert;
  intermediates = v.intermediates;
  request_id = v.request_id;
  expiry = v.expiry;
  payload = v.payload;
}
second read_index_v1 v = record {
  version = pos 2;
  signer_id = v.signer_id;
  view = v.view;
  seq = v.seq;
  nonce = v.nonce;
}
second commit_certificate_v1 v = record {
  version = pos 2;
  proposal_digest = v.proposal_digest;
  view = v.view;
  seq = v.seq;
  sigs = v.sigs;
}

pub with_field-second :
    (u : Versioned) (v : VersionedValue u)
    → with_field Key.version (number (pos 2)) (dict_of (versioned u) v)
      ≡ dict_of (versioned u) (second u v)
with_field-second header v = refl
with_field-second genesis_v1 v = refl
with_field-second signed_v1 v = refl
with_field-second signed_blob_v1 v = refl
with_field-second commit_payload_v1 v = refl
with_field-second client_request_v1 v = refl
with_field-second read_index_v1 v = refl
with_field-second commit_certificate_v1 v = refl

pub validate-second :
    (u : Versioned) (v : VersionedValue u)
    → validate (name_of (versioned u)) (dict_of (versioned u) (second u v)) ≡ raised
unfolding validate is_printable
validate-second header v = refl
validate-second genesis_v1 v = refl
validate-second signed_v1 v = refl
validate-second signed_blob_v1 v = refl
validate-second commit_payload_v1 v = refl
validate-second client_request_v1 v = refl
validate-second read_index_v1 v = refl
validate-second commit_certificate_v1 v = refl

first_grows :
    (w : Value) (xs : Items)
    → length (encode_value (seq (cons (int (pos 2)) xs)))
      ≤ 2 * length (encode_value (seq (cons w xs))) + 3
first_grows w xs =
    seq_grows (cons w xs) (cons (int (pos 2)) xs) (
      omega
        (arith, length-encode_items-cons w xs, length-encode_items-cons (int (pos 2)) xs, three))
  where
    three : length (encode_value (int (pos 2))) ≡ 3
    three = unfold encode_value in refl

pub second_grows :
    (u : Versioned) (v : VersionedValue u)
    → length (encode_value (tree_of (versioned u) (second u v)))
      ≤ 2 * length (encode_value (tree_of (versioned u) v)) + 3
unfolding tree_of items_of
second_grows header v = first_grows _ _
second_grows genesis_v1 v = first_grows _ _
second_grows signed_v1 v = first_grows _ _
second_grows signed_blob_v1 v = first_grows _ _
second_grows commit_payload_v1 v = first_grows _ _
second_grows client_request_v1 v = first_grows _ _
second_grows read_index_v1 v = first_grows _ _
second_grows commit_certificate_v1 v = first_grows _ _
