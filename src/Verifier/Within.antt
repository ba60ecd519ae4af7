-- ===== src/Verifier/Within.antt =====
-- The messages inside the encoding of a certificate.
use canonical.Prelude.{◌≡◌, [], ◌∷◌, List, Bytes, length, ◌≤◌, ◌^◌, arith, All}
use mathlib.Core.Path.{subst}
use canonical.Octets.{IsOctets}
use canonical.Verifier.{encode_value, encode_items}
use canonical.Verifier.RoundTrip.{length-encode_value_pos}
use canonical.Verifier.Tree.{seq, int, bytes, cons, nil, Value, Items}
use canonical.Verifier.Decode.{items_of, elements_of}
use canonical.Verifier.Objects.{member_dicts, sig_dicts, tree_of}
use canonical.Verifier.Inside.{
  length-encode_items-cons, IsWithin, IsWithin-trans, content_bytes, content_seq, first_item,
  later_items,
}
use canonical.Verifier.CertMsg.{IsPlain}
use canonical.Verifier.Printable.Short.{short-IsPrintable}
use canonical.Prelude.{All-map, ap, ◌<◌}
use canonical.Verifier.Objects.{dict_of}
use canonical.Structures.{commit_payload_v1}
use canonical.Verifier.Sigs.{IsReadable}
use canonical.Signatures.{SignerSigV0}
use canonical.Genesis.{GenesisMemberV1, GenesisV1}
use canonical.CommitCert.{CommitCertificateV1}
use canonical.Structures.{versioned, genesis_v1, commit_certificate_v1}

-- The third field of an element.
third_field :
    (u v : Value) (msg : Bytes) (xs : Items)
    → IsWithin msg (encode_items (cons (seq (cons u (cons v (cons (bytes msg) nil)))) xs))
third_field u v msg xs =
    let fields = cons u (cons v (cons (bytes msg) nil)) in
    IsWithin-trans _ _ _ (content_bytes msg) (
      IsWithin-trans _ _ _ (first_item (bytes msg) nil) (
        IsWithin-trans _ _ _ (later_items v (cons (bytes msg) nil)) (
          IsWithin-trans _ _ _ (later_items u (cons v (cons (bytes msg) nil)))
            (IsWithin-trans _ _ _ (content_seq fields) (first_item (seq fields) xs)))))

-- A message with its place in an input.
abbrev pub IsPartOf : Bytes → SignerSigV0 → Type 0
IsPartOf b s = IsOctets s.msg × (length s.msg ≤ length b)

sigs-IsPartOf :
    (sigs : List SignerSigV0) (b : Bytes)
    → IsWithin (encode_items (elements_of (sig_dicts sigs))) b
    → IsOctets b
    → All (IsPartOf b) sigs
unfolding items_of
sigs-IsPartOf [] b inside bounded = tt
sigs-IsPartOf (s ∷ sigs) b inside bounded =
    let rest = elements_of (sig_dicts sigs) in
    let (shorter, kept) =
      IsWithin-trans _ _ b (third_field (int s.signer) (bytes s.value) s.msg rest) inside in
    (
      (kept bounded, shorter),
      sigs-IsPartOf sigs b (IsWithin-trans _ _ b (later_items _ rest) inside) bounded,
    )

fifth_field :
    (t u v w : Value) (elements : Items)
    → IsWithin
        (encode_items elements)
        (encode_value (seq (cons t (cons u (cons v (cons w (cons (seq elements) nil)))))))
fifth_field t u v w elements =
    let last = cons (seq elements) nil in
    IsWithin-trans _ _ _ (content_seq elements) (
      IsWithin-trans _ _ _ (first_item (seq elements) nil) (
        IsWithin-trans _ _ _ (later_items w last) (
          IsWithin-trans _ _ _ (later_items v (cons w last)) (
            IsWithin-trans _ _ _ (later_items u (cons v (cons w last))) (
              IsWithin-trans _ _ _ (later_items t (cons u (cons v (cons w last))))
                (content_seq (cons t (cons u (cons v (cons w last))))))))))

pub certificate-IsPartOf :
    (c : CommitCertificateV1) (b : Bytes)
    → encode_value (tree_of (versioned commit_certificate_v1) c) ≡ b
    → IsOctets b
    → All (IsPartOf b) c.sigs
unfolding tree_of items_of
certificate-IsPartOf c b wrote bounded =
    let elements = elements_of (sig_dicts c.sigs) in
    let inside =
      fifth_field (int c.version) (bytes c.proposal_digest) (int c.view) (int c.seq) elements in
    sigs-IsPartOf c.sigs b (subst (λ d. IsWithin (encode_items elements) d) wrote inside) bounded

-- A certificate whose messages have fewer than 1700 octets.
abbrev pub HasShortMessages : CommitCertificateV1 → Type 0
HasShortMessages c = All (λ s. length s.msg < 1700) c.sigs

pub certificate-HasShortMessages :
    (c : CommitCertificateV1) (b : Bytes)
    → encode_value (tree_of (versioned commit_certificate_v1) c) ≡ b
    → IsOctets b
    → length b < 1700
    → HasShortMessages c
certificate-HasShortMessages c b wrote bounded short =
    All-map (λ s (_, small). omega arith) c.sigs (certificate-IsPartOf c b wrote bounded)

msg-IsPlain : (msg : Bytes) → length msg < 1700 → IsPlain msg
msg-IsPlain msg short p wrote =
    let (inside, _) = content_seq (items_of (dict_of (versioned commit_payload_v1) p)) in
    (short-IsPrintable (dict_of (versioned commit_payload_v1) p)
      (unfold tree_of in omega (arith, ap length wrote))).0

sigs-IsReadable :
    (sigs : List SignerSigV0) (b : Bytes)
    → length b ≤ 2 ^ 32
    → All (IsPartOf b) sigs
    → All (λ s. length s.msg < 1700) sigs
    → All IsReadable sigs
sigs-IsReadable [] b small parts short = tt
sigs-IsReadable (s ∷ sigs) b small ((octets, shorter), parts) (one, more) =
    ((octets, omega arith, msg-IsPlain s.msg one), sigs-IsReadable sigs b small parts more)

pub certificate-IsReadable :
    (c : CommitCertificateV1) (b : Bytes)
    → encode_value (tree_of (versioned commit_certificate_v1) c) ≡ b
    → IsOctets b
    → length b ≤ 2 ^ 32
    → HasShortMessages c
    → All IsReadable c.sigs
certificate-IsReadable c b wrote bounded small short =
    sigs-IsReadable c.sigs b small (certificate-IsPartOf c b wrote bounded) short

count_items :
    (ms : List GenesisMemberV1) → length ms ≤ length (encode_items (elements_of (member_dicts ms)))
unfolding items_of
count_items [] = omega arith
count_items (m ∷ ms) =
    let one =
      seq (cons (int m.node_id) (cons (bytes m.spiffe_id) (cons (bytes m.leaf_pub_key) nil))) in
    omega (
      arith,
      count_items ms,
      length-encode_items-cons one (elements_of (member_dicts ms)),
      length-encode_value_pos one,
    )

-- A genesis has no more members than its encoding has octets.
pub genesis-members :
    (g : GenesisV1) → length g.members ≤ length (encode_value (tree_of (versioned genesis_v1) g))
unfolding tree_of items_of
genesis-members g =
    let elements = elements_of (member_dicts g.members) in
    let inside =
      fifth_field (int g.version) (bytes g.trust_domain) (bytes g.ca_root) (int g.max_nodes)
        elements in
    omega (arith, count_items g.members, inside.0)
