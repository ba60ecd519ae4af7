-- ===== src/Merkle.antt =====
-- merkle.go: the hashes of Merkle nodes.
pub mod Bytes64
pub mod Preimage
pub mod Binding
use canonical.Prelude.{◌≡◌, ◌^◌, ◌%◌, ◌∷◌, ◌/◌, ◌++◌, take, length, [], Bytes, ℕ}

-- crypto/sha256: the digest of a message, which has 32 bytes.
pub record Sha256 : Type 0 where
  pub sum256 : Bytes → Bytes
  pub length-sum256 : (m : Bytes) → length (sum256 m) ≡ 32

-- A running hash holds what was written to it.
pub record Hash : Type 0 where
  pub written : Bytes

abbrev pub new : Hash
new = record { written = [] }

abbrev pub write : Hash → Bytes → Hash
write h p = record { written = h.written ++ p }

-- [32]byte(h.Sum(nil))
abbrev pub sum : Sha256 → Hash → Bytes
sum sha h = take 32 (sha.sum256 h.written)

-- The 8 bytes that binary.BigEndian.PutUint64 writes.
unfoldable pub put_uint64 : ℕ → Bytes
put_uint64 v =
    v / 2 ^ 56 % 256
    ∷ v / 2 ^ 48 % 256
    ∷ v / 2 ^ 40 % 256
    ∷ v / 2 ^ 32 % 256
    ∷ v / 2 ^ 24 % 256
    ∷ v / 2 ^ 16 % 256
    ∷ v / 2 ^ 8 % 256
    ∷ v % 256
    ∷ []

abbrev pub prefix_leaf : ℕ
prefix_leaf = 0x00

abbrev pub prefix_internal : ℕ
prefix_internal = 0x01

abbrev pub prefix_empty : ℕ
prefix_empty = 0x02

-- uint64(len(s))
abbrev pub length_u64 : Bytes → ℕ
length_u64 s = length s % 2 ^ 64

module _ (sha : Sha256) where
  unfoldable pub leaf_hash : ℕ → ℕ → Bytes → Bytes → Bytes
  leaf_hash tree_id depth key val =
      let h = write new (prefix_leaf ∷ []) in
      let h = write h (put_uint64 tree_id) in
      let h = write h (depth ∷ []) in
      let h = write h (put_uint64 (length_u64 key)) in
      let h = write h key in
      let h = write h (put_uint64 (length_u64 val)) in let h = write h val in sum sha h

  unfoldable pub internal_hash : ℕ → ℕ → Bytes → Bytes → Bytes
  internal_hash tree_id depth left right =
      let h = write new (prefix_internal ∷ []) in
      let h = write h (put_uint64 tree_id) in
      let h = write h (depth ∷ []) in let h = write h left in let h = write h right in sum sha h

  unfoldable pub empty_hash : ℕ → ℕ → Bytes
  empty_hash tree_id depth =
      let h = write new (prefix_empty ∷ []) in
      let h = write h (put_uint64 tree_id) in let h = write h (depth ∷ []) in sum sha h
