-- ===== src/Verifier/CertMsg.antt =====
-- `_check_cert_msg` of ci/verify_vectors.py, on an entry of a certificate.
use canonical.Prelude.{
  true, ◌∙◌, Bytes, ◌≡◌, ◌^◌, ◌≤◌, refl, ap, none, arith, length, bytes_equal, bytes_equal→eq,
  bytes_equal_iff,
}
use canonical.Verifier.Checks.{is_printable, Check}
use canonical.Verifier.Outcome.{
  Run, returned, raised, broken, out_of_fuel, Post, >>=-Post, Post-intro, Post-map, Post-if,
}
use canonical.Verifier.Objects.{dict_of, tree_of}
use canonical.Verifier.Reading.{read_object-Post, read_object-tree_of}
use canonical.Verifier.Schema.{Name, Key, entry, done, number, Field, Dict}
use canonical.Verifier.Validate.{
  read_object, read_payload, validate_payload, check_digests, unless_raised, check_cert_msg,
}
use canonical.Verifier.{encode_value}
use canonical.Octets.{IsOctets}
use canonical.Structures.{versioned, commit_payload_v1}
use canonical.Signatures.{SignerSigV0}
use canonical.Signed.{CommitPayloadV1, check_commit_payload_v1}

-- A commit payload that the Go package accepts, and its encoding.
abbrev pub IsPayloadOf : Bytes → CommitPayloadV1 → Type 0
IsPayloadOf msg p =
    (check_commit_payload_v1 p ≡ none)
    × (encode_value (tree_of (versioned commit_payload_v1) p) ≡ msg)

-- Every commit payload that the message encodes, valid or not, has a version that is printed.
abbrev pub IsPlain : Bytes → Type 0
IsPlain msg =
    (p : CommitPayloadV1)
    → encode_value (tree_of (versioned commit_payload_v1) p) ≡ msg
    → is_printable p.version ≡ true

validate_payload-check :
    (p : CommitPayloadV1)
    → is_printable p.version ≡ true
    → Post
        (λ _. check_commit_payload_v1 p ≡ none)
        (validate_payload (dict_of (versioned commit_payload_v1) p))
unfolding validate_payload
validate_payload-check p printed =
    Post-intro (λ _. check_commit_payload_v1 p ≡ none)
      (validate_payload (dict_of (versioned commit_payload_v1) p))
      (λ h. ground arith, λ h. ground arith) (λ _ h. unfold check_commit_payload_v1 in ground arith)

payload_read :
    (p : CommitPayloadV1)
    → check_commit_payload_v1 p ≡ none
    → validate_payload (dict_of (versioned commit_payload_v1) p) ≡ returned tt
unfolding validate_payload check_commit_payload_v1
payload_read p h = ground arith

read_payload-Post :
    (msg : Bytes)
    → IsOctets msg
    → IsPlain msg
    → Post
        (λ o.
          (p : CommitPayloadV1) × (o ≡ dict_of (versioned commit_payload_v1) p) × IsPayloadOf msg p)
        (read_payload msg)
unfolding read_payload
read_payload-Post msg bounded plain =
    >>=-Post _ _ (read_object Name.commit_payload_v1 msg) _
      (read_object-Post (versioned commit_payload_v1) msg bounded)
      (λ o (p, same, wrote).
        >>=-Post (λ _. check_commit_payload_v1 p ≡ none) _ (validate_payload o) _
          (rw same (validate_payload-check p (plain p wrote)))
          (λ _ valid. (p, same, (valid, wrote))))

read_payload-eq :
    (msg : Bytes) (p : CommitPayloadV1)
    → IsOctets msg
    → length msg ≤ 2 ^ 32
    → IsPayloadOf msg p
    → read_payload msg ≡ returned (dict_of (versioned commit_payload_v1) p)
unfolding read_payload
read_payload-eq msg p bounded small (valid, wrote) = rw (
  read_object-tree_of (versioned commit_payload_v1) p msg bounded small wrote,
  payload_read p valid,
)

-- Every commit payload that the entry's message encodes names the certificate's proposal.
abbrev pub IsBound : Bytes → SignerSigV0 → Type 0
IsBound digest s = (p : CommitPayloadV1) → IsPayloadOf s.msg p → p.proposal_digest ≡ digest

abbrev pub sig_dict : SignerSigV0 → Dict
sig_dict s =
    entry Key.signer (number s.signer)
      (entry Key.value (Field.octets s.value) (entry Key.msg (Field.octets s.msg) done))

-- A refusal inside the `try`, and what follows it.
unless_raised-Post :
    (P : Type 0) (Q : Dict → Type 0) (m : Run Dict) (next : Dict → Check)
    → Post Q m
    → (m ≡ raised → P)
    → ((o : Dict) → m ≡ returned o → Q o → Post (λ _. P) (next o))
    → Post (λ _. P) (unless_raised m next)
unless_raised-Post P Q (returned o) next h p k = k o refl h
unless_raised-Post P Q raised next h p k = p refl
unless_raised-Post P Q broken next h p k = h
unless_raised-Post P Q out_of_fuel next h p k = h

check_digests-Post :
    (digest : Bytes) (p : CommitPayloadV1)
    → Post
        (λ _. p.proposal_digest ≡ digest)
        (check_digests digest (dict_of (versioned commit_payload_v1) p))
check_digests-Post digest p =
    Post-if _ (bytes_equal p.proposal_digest digest) _ _
      (λ h. bytes_equal→eq p.proposal_digest digest h) (λ h. tt)

one_payload :
    (msg : Bytes) (p q : CommitPayloadV1)
    → IsOctets msg
    → length msg ≤ 2 ^ 32
    → IsPayloadOf msg p
    → read_payload msg ≡ returned (dict_of (versioned commit_payload_v1) q)
    → p.proposal_digest ≡ q.proposal_digest
one_payload msg p q bounded small payload read =
    cc (read_payload-eq msg p bounded small payload, read)

pub check_cert_msg-Post :
    (digest : Bytes) (s : SignerSigV0)
    → IsOctets s.msg
    → length s.msg ≤ 2 ^ 32
    → IsPlain s.msg
    → Post (λ _. IsBound digest s) (check_cert_msg digest (sig_dict s))
unfolding check_cert_msg
check_cert_msg-Post digest s bounded small plain =
    unless_raised-Post (IsBound digest s) _ (read_payload s.msg) (check_digests digest)
      (read_payload-Post s.msg bounded plain)
      (λ refused p payload. cc (read_payload-eq s.msg p bounded small payload))
      (λ o read (q, same, _). rw same (
        Post-map _ _ (check_digests digest (dict_of (versioned commit_payload_v1) q))
          (λ _ named p payload.
            one_payload s.msg p q bounded small payload (read ∙ ap returned same) ∙ named)
          (check_digests-Post digest q)))

unless_raised-eq :
    (Q : Dict → Type 0) (m : Run Dict) (next : Dict → Check)
    → Post Q m
    → ((o : Dict) → Q o → next o ≡ returned tt)
    → unless_raised m next ≡ returned tt
unless_raised-eq Q (returned o) next h k = k o h
unless_raised-eq Q raised next h k = refl
unless_raised-eq Q broken next h k = absurd h
unless_raised-eq Q out_of_fuel next h k = absurd h

pub check_cert_msg-eq :
    (digest : Bytes) (s : SignerSigV0)
    → IsOctets s.msg
    → IsPlain s.msg
    → IsBound digest s
    → check_cert_msg digest (sig_dict s) ≡ returned tt
unfolding check_cert_msg
check_cert_msg-eq digest s bounded plain bound =
    unless_raised-eq _ (read_payload s.msg) (check_digests digest)
      (read_payload-Post s.msg bounded plain)
      (λ o (q, same, payload).
        let named = (bytes_equal_iff q.proposal_digest digest).1 (bound q payload) in
        rw same (rw named refl))
