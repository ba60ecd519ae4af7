-- ===== src/Verifier/Schema.antt =====
-- The structures of ci/verify_vectors.py: SCHEMAS, and objects by them.
use canonical.Prelude.{◌+◌, [], ◌∷◌, ◌==◌, Bytes, ℤ, ℕ, List, Bool}
use canonical.Verifier.Tree.{Value, Items, int, bytes, bool, seq, nil, cons}
use canonical.Verifier.Outcome.{Run, returned, raised, ◌>>=◌}

-- The names of SCHEMAS.
pub data Name : Type 0 where
  header proposal_v0 genesis_v1 genesis_member_v1 signature_set_v0 signer_sig_v0 signed_v1 : Name
  signed_blob_v1 commit_payload_v1 client_request_v1 certificate_v1 read_index_v1
        commit_certificate_v1 :
      Name

-- The names of fields; `seq_key` is "Seq". PubKey stands beside the fields of a vector only, and
-- `other_key` numbers the keys that the program does not name.
pub data Key : Type 0 where
  version prev_state_root prev_seq consensus_time payload header metadata : Key
  verification_sequence trust_domain ca_root max_nodes members node_id spiffe_id : Key
  leaf_pub_key sigs signer value msg purpose genesis_digest : Key
  proposal_digest aux client_cert intermediates request_id expiry der : Key
  signer_id view seq_key nonce pub_key : Key
  other_key : ℕ → Key

-- INT, OCT and SEQOF.
pub data Kind : Type 0 where
  int_kind oct_kind : Kind
  seqof : Name → Kind

-- The position of a key in the list above, to compare keys by.
abbrev pub index : Key → ℕ
index Key.version = 0
index Key.prev_state_root = 1
index Key.prev_seq = 2
index Key.consensus_time = 3
index Key.payload = 4
index Key.header = 5
index Key.metadata = 6
index Key.verification_sequence = 7
index Key.trust_domain = 8
index Key.ca_root = 9
index Key.max_nodes = 10
index Key.members = 11
index Key.node_id = 12
index Key.spiffe_id = 13
index Key.leaf_pub_key = 14
index Key.sigs = 15
index Key.signer = 16
index Key.value = 17
index Key.msg = 18
index Key.purpose = 19
index Key.genesis_digest = 20
index Key.proposal_digest = 21
index Key.aux = 22
index Key.client_cert = 23
index Key.intermediates = 24
index Key.request_id = 25
index Key.expiry = 26
index Key.der = 27
index Key.signer_id = 28
index Key.view = 29
index Key.seq_key = 30
index Key.nonce = 31
index Key.pub_key = 32
index (other_key n) = 33 + n

abbrev pub same_key : Key → Key → Bool
same_key a b = index a == index b

abbrev pub schemas : Name → List (Key × Kind)
schemas Name.header =
    (Key.version, int_kind)
    ∷ (Key.prev_state_root, oct_kind)
    ∷ (Key.prev_seq, int_kind)
    ∷ (Key.consensus_time, int_kind)
    ∷ []
schemas Name.proposal_v0 =
    (Key.payload, oct_kind)
    ∷ (Key.header, oct_kind)
    ∷ (Key.metadata, oct_kind)
    ∷ (Key.verification_sequence, int_kind)
    ∷ []
schemas Name.genesis_v1 =
    (Key.version, int_kind)
    ∷ (Key.trust_domain, oct_kind)
    ∷ (Key.ca_root, oct_kind)
    ∷ (Key.max_nodes, int_kind)
    ∷ (Key.members, seqof Name.genesis_member_v1)
    ∷ []
schemas Name.genesis_member_v1 =
    (Key.node_id, int_kind) ∷ (Key.spiffe_id, oct_kind) ∷ (Key.leaf_pub_key, oct_kind) ∷ []
schemas Name.signature_set_v0 = (Key.sigs, seqof Name.signer_sig_v0) ∷ []
schemas Name.signer_sig_v0 =
    (Key.signer, int_kind) ∷ (Key.value, oct_kind) ∷ (Key.msg, oct_kind) ∷ []
schemas Name.signed_v1 =
    (Key.version, int_kind)
    ∷ (Key.purpose, int_kind)
    ∷ (Key.genesis_digest, oct_kind)
    ∷ (Key.payload, oct_kind)
    ∷ []
schemas Name.signed_blob_v1 =
    (Key.version, int_kind)
    ∷ (Key.purpose, int_kind)
    ∷ (Key.payload, oct_kind)
    ∷ (Key.value, oct_kind)
    ∷ []
schemas Name.commit_payload_v1 =
    (Key.version, int_kind) ∷ (Key.proposal_digest, oct_kind) ∷ (Key.aux, oct_kind) ∷ []
schemas Name.client_request_v1 =
    (Key.version, int_kind)
    ∷ (Key.client_cert, oct_kind)
    ∷ (Key.intermediates, seqof Name.certificate_v1)
    ∷ (Key.request_id, oct_kind)
    ∷ (Key.expiry, int_kind)
    ∷ (Key.payload, oct_kind)
    ∷ []
schemas Name.certificate_v1 = (Key.der, oct_kind) ∷ []
schemas Name.read_index_v1 =
    (Key.version, int_kind)
    ∷ (Key.signer_id, int_kind)
    ∷ (Key.view, int_kind)
    ∷ (Key.seq_key, int_kind)
    ∷ (Key.nonce, oct_kind)
    ∷ []
schemas Name.commit_certificate_v1 =
    (Key.version, int_kind)
    ∷ (Key.proposal_digest, oct_kind)
    ∷ (Key.view, int_kind)
    ∷ (Key.seq_key, int_kind)
    ∷ (Key.sigs, seqof Name.signer_sig_v0)
    ∷ []

-- An object: its fields by name. A byte string stands for its hexadecimal form.
mutual
  pub data Dict : Type 0 where
    done : Dict
    entry : Key → Field → Dict → Dict

  pub data Field : Type 0 where
    number : ℤ → Field
    octets : Bytes → Field
    list : Dicts → Field

  pub data Dicts : Type 0 where
    no_dicts : Dicts
    dict : Dict → Dicts → Dicts

-- `decode_struct`, its loop over zip(fields, items), and the list of a SEQUENCE OF. The loop raises
-- where fields and items differ in number.
unfoldable mutual
  pub decode_struct : Name → Value → Run Dict
  decode_struct name (seq items) = decode_fields (schemas name) items
  decode_struct name (int i) = raised
  decode_struct name (bytes b) = raised
  decode_struct name (bool b) = raised

  pub decode_fields : List (Key × Kind) → Items → Run Dict
  decode_fields [] nil = returned done
  decode_fields [] (cons v items) = raised
  decode_fields (field ∷ fields) nil = raised
  decode_fields ((key, int_kind) ∷ fields) (cons (int i) items) =
      decode_fields fields items >>= λ out. returned (entry key (number i) out)
  decode_fields ((key, oct_kind) ∷ fields) (cons (bytes b) items) =
      decode_fields fields items >>= λ out. returned (entry key (octets b) out)
  decode_fields ((key, seqof name) ∷ fields) (cons (seq elements) items) =
      decode_elements name elements >>= λ ds.
      decode_fields fields items >>= λ out. returned (entry key (list ds) out)
  decode_fields (field ∷ fields) (cons v items) = raised

  pub decode_elements : Name → Items → Run Dicts
  decode_elements name nil = returned no_dicts
  decode_elements name (cons v items) =
      decode_struct name v >>= λ o. decode_elements name items >>= λ ds. returned (dict o ds)
