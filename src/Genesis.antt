-- ===== src/Genesis.antt =====
-- genesis.go: the pinned cluster definition, and the SPIFFE ID of a member.
pub mod Valid
pub mod Identity
pub mod Members
pub mod Rounds
pub mod Faults
pub mod Refusal
use canonical.Errors.{
  ok, ◌>>=◌, err_length, err_format, err_empty, err_order, err_version, err_range, after, Result,
  Error,
}
use canonical.Asn1.{unmarshal, version_v1, marshal, Encoding}
use canonical.Prelude.{
  [], to_int64, ◌||◌, bytes_equal, ◌==◌, length, pos, ltb_ℤ, leb_ℤ, eqb_ℤ, ◌∷◌, ◌++◌, some, not,
  none, if◌then◌else◌, false, codes, append_int, List, Bool, ℕ, Option, Bytes, ℤ,
}

abbrev pub leaf_pub_key_len : ℕ
leaf_pub_key_len = 32

pub record GenesisMemberV1 : Type 0 where
  pub node_id : ℤ
  pub spiffe_id : Bytes
  pub leaf_pub_key : Bytes

pub record GenesisV1 : Type 0 where
  pub version : ℤ
  pub trust_domain : Bytes
  pub ca_root : Bytes
  pub max_nodes : ℤ
  pub members : List GenesisMemberV1

unfoldable pub spiffe_id_v1 : Bytes → ℤ → Bytes
spiffe_id_v1 trust_domain node_id =
    append_int ((codes "spiffe://" ++ trust_domain) ++ codes "/node/") node_id

-- `i > 0 && m.NodeID <= g.Members[i-1].NodeID`, where `previous` is the member before, if any.
abbrev pub out_of_order : Option GenesisMemberV1 → GenesisMemberV1 → Bool
out_of_order none m = false
out_of_order (some p) m = leb_ℤ m.node_id p.node_id

-- The loop over `g.Members`.
unfoldable pub check_members : Bytes → Option GenesisMemberV1 → List GenesisMemberV1 → Option Error
check_members trust_domain previous [] = none
check_members trust_domain previous (m ∷ members) =
    if ltb_ℤ m.node_id (pos 0)
    then some err_range
    else if out_of_order previous m
    then some err_order
    else if length m.spiffe_id == 0
    then some err_empty
    else if not (bytes_equal m.spiffe_id (spiffe_id_v1 trust_domain m.node_id))
    then some err_format
    else if not (length m.leaf_pub_key == leaf_pub_key_len)
    then some err_length
    else check_members trust_domain (some m) members

unfoldable pub check_genesis_v1 : GenesisV1 → Option Error
check_genesis_v1 g =
    if not (eqb_ℤ g.version version_v1)
    then some err_version
    else if length g.trust_domain == 0
    then some err_empty
    else if ltb_ℤ g.max_nodes (pos 0) || ltb_ℤ g.max_nodes (to_int64 (length g.members))
    then some err_range
    else check_members g.trust_domain none g.members

module _ (E : Encoding GenesisV1) where
  unfoldable pub marshal_genesis_v1 : GenesisV1 → Result Bytes
  marshal_genesis_v1 g = after (check_genesis_v1 g) (marshal E g)

  unfoldable pub unmarshal_genesis_v1 : Bytes → Result GenesisV1
  unmarshal_genesis_v1 b = do g ← unmarshal E b; after (check_genesis_v1 g) (ok g)
