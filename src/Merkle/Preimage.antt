-- ===== src/Merkle/Preimage.antt =====
-- Nodes, and the bytes that are hashed for them: WIRE-SPEC.md 5.2.
use canonical.Prelude.{take, ◌≡◌, [], ◌++◌, length, ◌∷◌, ◌^◌, ◌<◌, Bytes, ℕ}
use canonical.Merkle.{
  prefix_empty, empty_hash, prefix_internal, length_u64, internal_hash, prefix_leaf, leaf_hash,
  Sha256, put_uint64,
}
use mathlib.Core.List.{append_assoc}

pub data Node : Type 0 where
  leaf : ℕ → ℕ → Bytes → Bytes → Node
  internal : ℕ → ℕ → Bytes → Bytes → Node
  empty : ℕ → ℕ → Node

-- The arguments that the Go types allow.
abbrev pub IsNode : Node → Type 0
IsNode (leaf tree_id depth key val) =
    (tree_id < 2 ^ 64) × (depth < 256) × (length key < 2 ^ 64) × (length val < 2 ^ 64)
IsNode (internal tree_id depth left right) =
    (tree_id < 2 ^ 64) × (depth < 256) × (length left ≡ 32) × (length right ≡ 32)
IsNode (empty tree_id depth) = (tree_id < 2 ^ 64) × (depth < 256)

-- One function for the three of merkle.go.
unfoldable pub node_hash : Sha256 → Node → Bytes
node_hash sha (leaf tree_id depth key val) = leaf_hash sha tree_id depth key val
node_hash sha (internal tree_id depth left right) = internal_hash sha tree_id depth left right
node_hash sha (empty tree_id depth) = empty_hash sha tree_id depth

-- What follows the tree and the depth.
abbrev pub body : Node → Bytes
body (leaf tree_id depth key val) =
    put_uint64 (length_u64 key) ++ (key ++ (put_uint64 (length_u64 val) ++ val))
body (internal tree_id depth left right) = left ++ right
body (empty tree_id depth) = []

abbrev pub prefix : Node → ℕ
prefix (leaf tree_id depth key val) = prefix_leaf
prefix (internal tree_id depth left right) = prefix_internal
prefix (empty tree_id depth) = prefix_empty

abbrev pub tree_of : Node → ℕ
tree_of (leaf tree_id depth key val) = tree_id
tree_of (internal tree_id depth left right) = tree_id
tree_of (empty tree_id depth) = tree_id

abbrev pub depth_of : Node → ℕ
depth_of (leaf tree_id depth key val) = depth
depth_of (internal tree_id depth left right) = depth
depth_of (empty tree_id depth) = depth

unfoldable pub preimage : Node → Bytes
preimage n = prefix n ∷ (put_uint64 (tree_of n) ++ (depth_of n ∷ body n))

pub node_hash-eq-sum :
    (sha : Sha256) (n : Node) → node_hash sha n ≡ take 32 (sha.sum256 (preimage n))
unfolding node_hash leaf_hash internal_hash empty_hash preimage
node_hash-eq-sum sha (leaf tree_id depth key val) = simp append_assoc
node_hash-eq-sum sha (internal tree_id depth left right) = simp append_assoc
node_hash-eq-sum sha (empty tree_id depth) = simp append_assoc
