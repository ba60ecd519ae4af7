-- ===== src/Verifier/Inverse.antt =====
-- What `decode_struct` of ci/verify_vectors.py returns is the object of a Go value.
use canonical.Prelude.{[], ◌∷◌, List, Bytes, ℤ, ◌≡◌, refl}
use canonical.Verifier.Outcome.{Post, >>=-Post}
use canonical.Verifier.Tree.{Value, Items, int, bytes, bool, seq, nil, cons}
use canonical.Verifier.Schema.{
  Name, Key, Kind, int_kind, oct_kind, seqof, schemas, Dict, Dicts, done, entry, number, octets,
  list, no_dicts, dict, decode_struct, decode_fields, decode_elements,
}
use canonical.Verifier.Objects.{dict_of, name_of, sig_dicts, member_dicts, certificate_dicts}
use canonical.Structures.{
  Structure, versioned, proposal_v0, signature_set_v0, Versioned, header, genesis_v1, signed_v1,
  signed_blob_v1, commit_payload_v1, client_request_v1, read_index_v1, commit_certificate_v1,
}
use canonical.Structures
use canonical.Signatures.{SignerSigV0}
use canonical.Genesis.{GenesisMemberV1}
use canonical.Request.{CertificateV1}

-- A postcondition of the fields of a schema, from one of the fields behind the first.
after_int :
    (key : Key) (fields : List (Key × Kind)) (Q : Dict → Type 0)
    → ((i : ℤ) (items : Items)
        → Post (λ o. Q (entry key (number i) o)) (decode_fields fields items))
    → (items : Items) → Post Q (decode_fields ((key, int_kind) ∷ fields) items)
unfolding decode_struct
after_int key fields Q k nil = tt
after_int key fields Q k (cons (int i) items) =
    >>=-Post (λ o. Q (entry key (number i) o)) Q (decode_fields fields items) _ (k i items)
      (λ o h. h)
after_int key fields Q k (cons (bytes b) items) = tt
after_int key fields Q k (cons (bool b) items) = tt
after_int key fields Q k (cons (seq xs) items) = tt

after_oct :
    (key : Key) (fields : List (Key × Kind)) (Q : Dict → Type 0)
    → ((b : Bytes) (items : Items)
        → Post (λ o. Q (entry key (octets b) o)) (decode_fields fields items))
    → (items : Items) → Post Q (decode_fields ((key, oct_kind) ∷ fields) items)
unfolding decode_struct
after_oct key fields Q k nil = tt
after_oct key fields Q k (cons (bytes b) items) =
    >>=-Post (λ o. Q (entry key (octets b) o)) Q (decode_fields fields items) _ (k b items)
      (λ o h. h)
after_oct key fields Q k (cons (int i) items) = tt
after_oct key fields Q k (cons (bool b) items) = tt
after_oct key fields Q k (cons (seq xs) items) = tt

after_seq :
    (key : Key) (name : Name) (fields : List (Key × Kind)) (R : Dicts → Type 0) (Q : Dict → Type 0)
    → ((items : Items) → Post R (decode_elements name items))
    → ((ds : Dicts)
        → R ds
        → (items : Items) → Post (λ o. Q (entry key (list ds) o)) (decode_fields fields items))
    → (items : Items) → Post Q (decode_fields ((key, seqof name) ∷ fields) items)
unfolding decode_struct
after_seq key name fields R Q each k nil = tt
after_seq key name fields R Q each k (cons (seq xs) items) =
    >>=-Post R Q (decode_elements name xs) _ (each xs) (λ ds r.
      >>=-Post (λ o. Q (entry key (list ds) o)) Q (decode_fields fields items) _ (k ds r items)
        (λ o h. h))
after_seq key name fields R Q each k (cons (int i) items) = tt
after_seq key name fields R Q each k (cons (bool b) items) = tt
after_seq key name fields R Q each k (cons (bytes xs) items) = tt

no_more : (Q : Dict → Type 0) → Q done → (items : Items) → Post Q (decode_fields [] items)
unfolding decode_struct
no_more Q q nil = q
no_more Q q (cons v items) = tt

-- A postcondition of an element, of each of a list.
elements-Post :
    (name : Name) (P : Dict → Type 0) (R : Dicts → Type 0)
    → ((items : Items) → Post P (decode_fields (schemas name) items))
    → R no_dicts
    → ((o : Dict) (ds : Dicts) → P o → R ds → R (dict o ds))
    → (items : Items) → Post R (decode_elements name items)
unfolding decode_struct
elements-Post name P R each none more nil = none
elements-Post name P R each none more (cons (seq xs) items) =
    >>=-Post P R (decode_fields (schemas name) xs) _ (each xs) (λ o p.
      >>=-Post R R (decode_elements name items) _ (elements-Post name P R each none more items)
        (λ ds r. more o ds p r))
elements-Post name P R each none more (cons (int i) items) = tt
elements-Post name P R each none more (cons (bytes b) items) = tt
elements-Post name P R each none more (cons (bool b) items) = tt

abbrev pub IsObject : Structure → Dict → Type 0
IsObject s o = (v : Structures.Value s) × o ≡ dict_of s v

sigs-Post :
    (items : Items)
    → Post
        (λ ds. (sigs : List SignerSigV0) × ds ≡ sig_dicts sigs)
        (decode_elements Name.signer_sig_v0 items)
sigs-Post =
    elements-Post Name.signer_sig_v0 (λ o. (s : SignerSigV0) × dict o no_dicts ≡ sig_dicts (s ∷ []))
      _
      (after_int _ _ _ λ i.
        after_oct _ _ _
          λ v. after_oct _ _ _ λ m. no_more _ (record { signer = i; value = v; msg = m }, refl))
      ([], refl) (λ o ds (s, one) (sigs, more). (s ∷ sigs, cc))

header-Post :
    (items : Items) → Post (IsObject (versioned header)) (decode_fields (schemas Name.header) items)
header-Post = after_int _ _ _ λ a. after_oct _ _ _ λ b. after_int _ _ _ λ c. after_int _ _ _ λ d.
    no_more _ (record { version = a; prev_state_root = b; prev_seq = c; consensus_time = d }, refl)

certificates-Post :
    (items : Items)
    → Post
        (λ ds. (certs : List CertificateV1) × ds ≡ certificate_dicts certs)
        (decode_elements Name.certificate_v1 items)
certificates-Post =
    elements-Post Name.certificate_v1
      (λ o. (c : CertificateV1) × dict o no_dicts ≡ certificate_dicts (c ∷ [])) _
      (after_oct _ _ _ λ d. no_more _ (record { der = d }, refl)) ([], refl)
      (λ o ds (c, one) (certs, more). (c ∷ certs, cc))

members-Post :
    (items : Items)
    → Post
        (λ ds. (members : List GenesisMemberV1) × ds ≡ member_dicts members)
        (decode_elements Name.genesis_member_v1 items)
members-Post =
    elements-Post Name.genesis_member_v1
      (λ o. (m : GenesisMemberV1) × dict o no_dicts ≡ member_dicts (m ∷ [])) _
      (after_int _ _ _ λ i. after_oct _ _ _ λ u.
        after_oct _ _ _
          λ k. no_more _ (record { node_id = i; spiffe_id = u; leaf_pub_key = k }, refl))
      ([], refl) (λ o ds (m, one) (members, more). (m ∷ members, cc))

fields-Post :
    (s : Structure) (items : Items) → Post (IsObject s) (decode_fields (schemas (name_of s)) items)
fields-Post (versioned header) = header-Post
fields-Post (versioned genesis_v1) = after_int _ _ _ λ a. after_oct _ _ _ λ b. after_oct _ _ _ λ c.
    after_int _ _ _ λ d. after_seq _ _ _ _ _ members-Post λ ds (ms, same).
      no_more _
        (record { version = a; trust_domain = b; ca_root = c; max_nodes = d; members = ms }, cc)
fields-Post (versioned signed_v1) = after_int _ _ _ λ a. after_int _ _ _ λ b. after_oct _ _ _ λ c.
    after_oct _ _ _
      λ d. no_more _ (record { version = a; purpose = b; genesis_digest = c; payload = d }, refl)
fields-Post (versioned signed_blob_v1) = after_int _ _ _ λ a. after_int _ _ _ λ b.
    after_oct _ _ _ λ c.
      after_oct _ _ _
        λ d. no_more _ (record { version = a; purpose = b; payload = c; value = d }, refl)
fields-Post (versioned commit_payload_v1) = after_int _ _ _ λ a.
    after_oct _ _ _ λ b.
      after_oct _ _ _ λ c. no_more _ (record { version = a; proposal_digest = b; aux = c }, refl)
fields-Post (versioned client_request_v1) = after_int _ _ _ λ a. after_oct _ _ _ λ b.
    after_seq _ _ _ _ _ certificates-Post λ ds (certs, same). after_oct _ _ _ λ c.
      after_int _ _ _ λ d. after_oct _ _ _ λ e. no_more _ (
        record {
          version = a;
          client_cert = b;
          intermediates = certs;
          request_id = c;
          expiry = d;
          payload = e;
        },
        cc,
      )
fields-Post (versioned read_index_v1) = after_int _ _ _ λ a. after_int _ _ _ λ b.
    after_int _ _ _ λ c. after_int _ _ _ λ d.
      after_oct _ _ _
        λ e. no_more _ (record { version = a; signer_id = b; view = c; seq = d; nonce = e }, refl)
fields-Post (versioned commit_certificate_v1) = after_int _ _ _ λ a. after_oct _ _ _ λ b.
    after_int _ _ _ λ c. after_int _ _ _ λ d. after_seq _ _ _ _ _ sigs-Post λ ds (ss, same).
      no_more _ (record { version = a; proposal_digest = b; view = c; seq = d; sigs = ss }, cc)
fields-Post proposal_v0 = after_oct _ _ _ λ a. after_oct _ _ _ λ b. after_oct _ _ _ λ c.
    after_int _ _ _ λ d.
      no_more _ (record { payload = a; header = b; metadata = c; verification_sequence = d }, refl)
fields-Post signature_set_v0 =
    after_seq _ _ _ _ _ sigs-Post λ ds (ss, same). no_more _ (record { sigs = ss }, cc)

pub decode_struct-IsObject :
    (s : Structure) (v : Value) → Post (IsObject s) (decode_struct (name_of s) v)
unfolding decode_struct
decode_struct-IsObject s (seq items) = fields-Post s items
decode_struct-IsObject s (int i) = tt
decode_struct-IsObject s (bytes b) = tt
decode_struct-IsObject s (bool b) = tt
