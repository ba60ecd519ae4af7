-- ===== src/Genesis/Valid.antt =====
-- Which cluster definitions are encoded and accepted: WIRE-SPEC.md 3.6.
use canonical.Prelude.{
  refl, length-ne-zero, bytes_equal→eq, bytes_equal_iff, Follows-head, true, to_int64-eq-pos,
  length-eq-zero, arith, Follows-cons, All, ◌≤ℤ◌, ◌↔◌, ◌^◌, false, [], Ascending, ◌≢◌, ◌∷◌, ◌<◌,
  some, pos, none, map, ltb_ℤ, bytes_equal, Follows, length, ◌≡◌, Option, List, Bytes, ℤ,
}
use canonical.Asn1.Canonical.{checked_marshal_iff}
use canonical.Asn1.{marshal, version_v1, Encoding}
use canonical.Errors.{ok}
use canonical.Genesis.{
  leaf_pub_key_len, spiffe_id_v1, marshal_genesis_v1, check_members, GenesisMemberV1,
  check_genesis_v1, GenesisV1,
}
use canonical.Genesis.Identity.{spiffe_id_v1-ne-nil}

-- The constraints on one member.
pub record IsMember (trust_domain : Bytes) (m : GenesisMemberV1) : Type 0 where
  pub id_nonneg : pos 0 ≤ℤ m.node_id
  pub identity_derived : m.spiffe_id ≡ spiffe_id_v1 trust_domain m.node_id
  pub key_width : length m.leaf_pub_key ≡ leaf_pub_key_len

abbrev pub node_ids : List GenesisMemberV1 → List ℤ
node_ids = map (λ m. m.node_id)

abbrev pub node_id? : Option GenesisMemberV1 → Option ℤ
node_id? none = none
node_id? (some m) = some m.node_id

-- A member that passes its tests, but for the order.
module _ (domain : Bytes) where
  abbrev pub IsRun : Option GenesisMemberV1 → List GenesisMemberV1 → Type 0
  IsRun previous members =
      Follows (node_id? previous) (node_ids members)
      × Ascending (node_ids members)
      × All (IsMember domain) members

  own_fields :
      (m : GenesisMemberV1)
      → ltb_ℤ m.node_id (pos 0) ≡ false
      → bytes_equal m.spiffe_id (spiffe_id_v1 domain m.node_id) ≡ true
      → length m.leaf_pub_key ≡ leaf_pub_key_len
      → IsMember domain m
  own_fields m nonneg derived width = record {
    id_nonneg = ground arith;
    identity_derived = bytes_equal→eq _ _ derived;
    key_width = width;
  }

  pub identity_present :
      (m : GenesisMemberV1) → m.spiffe_id ≡ spiffe_id_v1 domain m.node_id → length m.spiffe_id ≢ 0
  identity_present m same e =
      spiffe_id_v1-ne-nil domain m.node_id (rw same at (length-eq-zero m.spiffe_id e))

  pub identity_matches :
      (m : GenesisMemberV1)
      → m.spiffe_id ≡ spiffe_id_v1 domain m.node_id
      → bytes_equal m.spiffe_id (spiffe_id_v1 domain m.node_id) ≡ true
  identity_matches m same = (bytes_equal_iff _ _).1 same

  pub first_round :
      (previous : Option GenesisMemberV1) (m : GenesisMemberV1) (members : List GenesisMemberV1)
      → (check_members domain previous (m ∷ members) ≡ none) ↔ (
          Follows (node_id? previous) (m.node_id ∷ [])
          × IsMember domain m
          × (check_members domain (some m) members ≡ none))
  unfolding check_members
  first_round none m members = (
    λ e. (tt, own_fields m (ground arith) (ground arith) (ground arith), ground arith),
    λ (_, h, e).
        ground
          (arith, identity_present m h.identity_derived, identity_matches m h.identity_derived),
  )
  first_round (some p) m members = (
    λ e. (
      (ground arith, tt),
      own_fields m (ground arith) (ground arith) (ground arith),
      ground arith,
    ),
    λ ((above, _), h, e).
        ground
          (arith, identity_present m h.identity_derived, identity_matches m h.identity_derived),
  )

  pub check_members_iff :
      (previous : Option GenesisMemberV1) (members : List GenesisMemberV1)
      → (check_members domain previous members ≡ none) ↔ IsRun previous members
  check_members_iff none [] = (λ e. (tt, tt, tt), λ r. unfold check_members in refl)
  check_members_iff (some p) [] = (λ e. (tt, tt, tt), λ r. unfold check_members in refl)
  check_members_iff previous (m ∷ members) =
      let one = first_round previous m members in
      let ih = check_members_iff (some m) members in
      (
        λ e.
            let (follows, good, rest) = one.0 e in
            let (above, ascending, all_good) = ih.0 rest in
            (
              Follows-cons _ m.node_id (node_ids members) follows above,
              (above, ascending),
              (good, all_good),
            ),
        λ (follows, (above, ascending), (good, all_good)). one.1 (
          Follows-head _ m.node_id (node_ids members) follows,
          good,
          ih.1 (above, ascending, all_good),
        ),
      )

pub record IsGenesisV1 (g : GenesisV1) : Type 0 where
  pub version_known : g.version ≡ version_v1
  pub domain_present : g.trust_domain ≢ []
  pub members_fit : pos (length g.members) ≤ℤ g.max_nodes
  pub members_ascending : Ascending (node_ids g.members)
  pub members_valid : All (IsMember g.trust_domain) g.members

pub check_genesis_v1-IsGenesisV1 :
    (g : GenesisV1) → length g.members < 2 ^ 63 → (check_genesis_v1 g ≡ none) ↔ IsGenesisV1 g
unfolding check_genesis_v1
check_genesis_v1-IsGenesisV1 g small =
    let loop = check_members_iff g.trust_domain none g.members in
    let count = to_int64-eq-pos (length g.members) small in
    (
      λ e.
          let h = loop.0 (ground arith) in
          record {
            version_known = ground arith;
            domain_present = length-ne-zero g.trust_domain (ground arith);
            members_fit = ground (arith, count);
            members_ascending = h.1;
            members_valid = h.2;
          },
      λ v.
          let h = loop.1 (tt, v.members_ascending, v.members_valid) in
          ground (arith, count, length-eq-zero g.trust_domain),
    )

module _ (E : Encoding GenesisV1) where
  -- Over any encoding, for fewer than 2^63 members: marshal_genesis_v1 gives bytes exactly when
  -- asn1.Marshal gives them and the genesis has version 1, a trust domain, no more members than
  -- its maximum, and members in strictly ascending order of node ids, each with an id that is not
  -- negative, the SPIFFE ID of that id in the domain, and a 32-byte key.
  pub marshal_genesis_v1_iff :
      (g : GenesisV1) (b : Bytes)
      → length g.members < 2 ^ 63
      → (marshal_genesis_v1 E g ≡ ok b) ↔ (IsGenesisV1 g × (marshal E g ≡ ok b))
  unfolding marshal_genesis_v1
  marshal_genesis_v1_iff g b small =
      checked_marshal_iff E check_genesis_v1 g b (check_genesis_v1-IsGenesisV1 g small)
