-- ===== src/Verifier/MerkleHash.antt =====
-- `merkle_hash` of ci/verify_vectors.py, against the hashes of merkle.go: WIRE-SPEC.md 5.
use canonical.Prelude.{
  [], ◌∷◌, ◌++◌, Bytes, ℤ, ℕ, pos, negsuc, ◌≡◌, ◌↔◌, ◌<◌, ◌^◌, ◌/◌, ◌==◌, ltb, leb_ℤ, not, ◌&&◌,
  ◌||◌, pos_part, length, arith, ap, sym, ◌∙◌, if◌then◌else◌,
}
use mathlib.Core.List.{append_assoc}
use canonical.Octets.{big_endian}
use canonical.Verifier.Outcome.{Run, returned, raised, broken, ◌>>=◌, first_of}
use canonical.Merkle.{Sha256, put_uint64, length_u64}
use canonical.Merkle.Binding.{node_hash-eq-sum256}
use canonical.Merkle.Preimage.{Node, leaf, internal, empty, IsNode, node_hash, preimage}

-- An entry: its tree, its depth, and what its form carries. `other` has a form that is not known.
pub data Entry : Type 0 where
  leaf_entry internal_entry : ℤ → ℤ → Bytes → Bytes → Entry
  empty_entry other_entry : ℤ → ℤ → Entry

-- i.to_bytes(8, "big"), with its OverflowError.
unfoldable pub to_bytes_8 : ℤ → Run Bytes
unfolding big_endian
to_bytes_8 (pos n) = if ltb n (2 ^ 64) then returned (big_endian 8 n) else broken
to_bytes_8 (negsuc n) = broken

-- The start of `merkle_hash`: the octets of the tree and of the depth.
unfoldable pub node_id : ℤ → ℤ → Run Bytes
unfolding to_bytes_8
node_id tree_id depth = do
  tree ← to_bytes_8 tree_id
  if leb_ℤ (pos 0) depth && leb_ℤ depth (pos 255)
      then returned (tree ++ (pos_part depth ∷ []))
      else raised

module _ (sha : Sha256) where
  -- `merkle_hash`; a digest stands for its hexadecimal form.
  unfoldable pub merkle_hash : Entry → Run Bytes
  unfolding node_id
  merkle_hash (leaf_entry tree_id depth key val) = do
    id ← node_id tree_id depth
    key_size ← to_bytes_8 (pos (length key))
    val_size ← to_bytes_8 (pos (length val))
    returned (sha.sum256 (0x00 ∷ (id ++ (key_size ++ (key ++ (val_size ++ val))))))
  merkle_hash (internal_entry tree_id depth left right) = do
    id ← node_id tree_id depth
    if not (length left == 32) || not (length right == 32)
        then raised
        else returned (sha.sum256 (0x01 ∷ (id ++ (left ++ right))))
  merkle_hash (empty_entry tree_id depth) = do
    id ← node_id tree_id depth
    returned (sha.sum256 (0x02 ∷ id))
  merkle_hash (other_entry tree_id depth) = do _ ← node_id tree_id depth; raised

abbrev pub entry_of : Node → Entry
entry_of (leaf tree_id depth key val) = leaf_entry (pos tree_id) (pos depth) key val
entry_of (internal tree_id depth left right) = internal_entry (pos tree_id) (pos depth) left right
entry_of (empty tree_id depth) = empty_entry (pos tree_id) (pos depth)

big_endian-put_uint64 : (n : ℕ) → big_endian 8 n ≡ put_uint64 n
unfolding big_endian put_uint64
big_endian-put_uint64 n =
    let two : n / 256 / 256 ≡ n / 2 ^ 16 = omega arith in
    let three : n / 256 / 256 / 256 ≡ n / 2 ^ 24 = omega arith in
    let four : n / 256 / 256 / 256 / 256 ≡ n / 2 ^ 32 = omega arith in
    let five : n / 256 / 256 / 256 / 256 / 256 ≡ n / 2 ^ 40 = omega arith in
    let six : n / 256 / 256 / 256 / 256 / 256 / 256 ≡ n / 2 ^ 48 = omega arith in
    let seven : n / 256 / 256 / 256 / 256 / 256 / 256 / 256 ≡ n / 2 ^ 56 = omega arith in cc

-- Where to_bytes succeeds, and what it gives.
to_bytes_8-pos : (n : ℕ) → n < 2 ^ 64 → to_bytes_8 (pos n) ≡ returned (put_uint64 n)
unfolding to_bytes_8
to_bytes_8-pos n h = let same = big_endian-put_uint64 n in ground arith

node_id-put_uint64 :
    (tree_id depth : ℕ)
    → tree_id < 2 ^ 64
    → depth < 256
    → node_id (pos tree_id) (pos depth) ≡ returned (put_uint64 tree_id ++ (depth ∷ []))
unfolding node_id
node_id-put_uint64 tree_id depth h k = let tree = to_bytes_8-pos tree_id h in ground arith

node_id-range :
    (tree_id depth : ℕ) (id : Bytes)
    → node_id (pos tree_id) (pos depth) ≡ returned id
    → (tree_id < 2 ^ 64) × (depth < 256)
unfolding node_id to_bytes_8
node_id-range tree_id depth id e = (ground arith, ground arith)

to_bytes_8-range : (n : ℕ) (b : Bytes) → to_bytes_8 (pos n) ≡ returned b → n < 2 ^ 64
unfolding to_bytes_8
to_bytes_8-range n b e = ground arith

small_length : (s : Bytes) → length s < 2 ^ 64 → length_u64 s ≡ length s
small_length s h = omega arith

module _ (sha : Sha256) where
  accepted_node : (n : Node) (d : Bytes) → merkle_hash sha (entry_of n) ≡ returned d → IsNode n
  unfolding merkle_hash
  accepted_node (leaf tree_id depth key val) d e =
      let (id, ids, rest) = first_of (node_id (pos tree_id) (pos depth)) _ d e in
      let (k, key_size, more) = first_of (to_bytes_8 (pos (length key))) _ d rest in
      let (v, val_size, _) = first_of (to_bytes_8 (pos (length val))) _ d more in
      let (tree_small, depth_small) = node_id-range tree_id depth id ids in
      (
        tree_small,
        depth_small,
        to_bytes_8-range (length key) k key_size,
        to_bytes_8-range (length val) v val_size,
      )
  accepted_node (internal tree_id depth left right) d e =
      let (id, ids, rest) = first_of (node_id (pos tree_id) (pos depth)) _ d e in
      let (tree_small, depth_small) = node_id-range tree_id depth id ids in
      (tree_small, depth_small, ground arith, ground arith)
  accepted_node (empty tree_id depth) d e =
      let (id, ids, rest) = first_of (node_id (pos tree_id) (pos depth)) _ d e in
      node_id-range tree_id depth id ids

  hash_node :
      (n : Node) → IsNode n → merkle_hash sha (entry_of n) ≡ returned (sha.sum256 (preimage n))
  unfolding merkle_hash preimage
  hash_node (leaf tree_id depth key val) (h, k, key_small, val_small) =
      rw
        (
          node_id-put_uint64 tree_id depth h k,
          to_bytes_8-pos (length key) key_small,
          to_bytes_8-pos (length val) val_small,
          small_length key key_small,
          small_length val val_small,
        )
        (ap (λ m. returned (sha.sum256 (0x00 ∷ m)))
          (append_assoc (put_uint64 tree_id) (depth ∷ []) _))
  hash_node (internal tree_id depth left right) (h, k, l, r) =
      rw (node_id-put_uint64 tree_id depth h k, l, r)
        (ap (λ m. returned (sha.sum256 (0x01 ∷ m)))
          (append_assoc (put_uint64 tree_id) (depth ∷ []) _))
  hash_node (empty tree_id depth) (h, k) = rw (node_id-put_uint64 tree_id depth h k)

  -- For a hash function with 32-byte digests: merkle_hash of verify_vectors.py returns a digest
  -- for a Merkle node (leaf, internal or empty) exactly when the node's arguments are in the
  -- range of their Go types, the children of an internal node having 32 bytes, and merkle.go
  -- gives that digest.
  pub merkle_hash-node_hash :
      (n : Node) (d : Bytes)
      → (merkle_hash sha (entry_of n) ≡ returned d) ↔ (IsNode n × (node_hash sha n ≡ d))
  merkle_hash-node_hash n d = (
    λ e.
        let valid = accepted_node n d e in
        let hashed = hash_node n valid in (valid, cc (node_hash-eq-sum256 sha n)),
    λ (valid, same). hash_node n valid ∙ ap returned (sym (node_hash-eq-sum256 sha n) ∙ same),
  )
