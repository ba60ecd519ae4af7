-- ===== src/Merkle/Binding.antt =====
-- Two nodes of merkle.go, or two trees, with one digest: WIRE-SPEC.md 5.3.
use canonical.Merkle.Preimage.{
  empty, internal, body, leaf, depth_of, tree_of, prefix, node_hash-eq-sum, node_hash, preimage,
  IsNode, Node,
}
use canonical.Prelude.{
  refl, [], zero, sym, suc, append-injective, inr, arith, ◌∷◌, ◌∙◌, ◌++◌, inl, ◌⊎◌, ◌^◌, take, ap,
  ◌≢◌, ◌≡◌, ◌<◌, length, Bytes, ℕ,
}
use canonical.Merkle.Bytes64.{length-put_uint64, put_uint64-injective}
use mathlib.Core.List.{append-nil}
use native.Mathlib.Decide.{ℕ_discrete}
use canonical.Merkle.{length_u64, Sha256, put_uint64}

-- The number at the front, and what follows it.
put_uint64-append :
    (u v : ℕ) (xs ys : Bytes)
    → u < 2 ^ 64
    → v < 2 ^ 64
    → put_uint64 u ++ xs ≡ put_uint64 v ++ ys
    → (u ≡ v) × (xs ≡ ys)
put_uint64-append u v xs ys hu hv e =
    let sizes : length (put_uint64 u) ≡ length (put_uint64 v) =
      length-put_uint64 u ∙ sym (length-put_uint64 v) in
    let (same, rest) = append-injective (put_uint64 u) xs (put_uint64 v) ys sizes e in
    (put_uint64-injective u v hu hv same, rest)

-- A length-prefixed string at the front, and what follows it.
prefixed-injective :
    (s t xs ys : Bytes)
    → length s < 2 ^ 64
    → length t < 2 ^ 64
    → put_uint64 (length_u64 s) ++ (s ++ xs) ≡ put_uint64 (length_u64 t) ++ (t ++ ys)
    → (s ≡ t) × (xs ≡ ys)
prefixed-injective s t xs ys hs ht e =
    let (sizes, rest) =
      put_uint64-append (length_u64 s) (length_u64 t) (s ++ xs) (t ++ ys) (omega arith)
        (omega arith) e in
    append-injective s xs t ys (omega arith) rest

body-injective :
    (n m : Node)
    → IsNode n
    → IsNode m
    → prefix n ≡ prefix m
    → tree_of n ≡ tree_of m
    → depth_of n ≡ depth_of m
    → body n ≡ body m
    → n ≡ m
body-injective (leaf t d k v) (leaf t' d' k' v') hn hm p same_tree same_depth e =
    let (keys, rest) = prefixed-injective k k' _ _ hn.2 hm.2 e in
    let rest' : put_uint64 (length_u64 v) ++ (v ++ []) ≡ put_uint64 (length_u64 v') ++ (v' ++ []) =
      simp append-nil rest in
    let (vals, _) = prefixed-injective v v' [] [] hn.3 hm.3 rest' in cc
body-injective (internal t d l r) (internal t' d' l' r') hn hm p same_tree same_depth e =
    let (lefts, rights) = append-injective l r l' r' (omega arith) e in cc
body-injective (empty t d) (empty t' d') hn hm p same_tree same_depth e = cc
body-injective (leaf t d k v) (internal t' d' l' r') hn hm p same_tree same_depth e =
    absurd (omega arith)
body-injective (leaf t d k v) (empty t' d') hn hm p same_tree same_depth e = absurd (omega arith)
body-injective (internal t d l r) (leaf t' d' k' v') hn hm p same_tree same_depth e =
    absurd (omega arith)
body-injective (internal t d l r) (empty t' d') hn hm p same_tree same_depth e =
    absurd (omega arith)
body-injective (empty t d) (leaf t' d' k' v') hn hm p same_tree same_depth e = absurd (omega arith)
body-injective (empty t d) (internal t' d' l' r') hn hm p same_tree same_depth e =
    absurd (omega arith)

tree_of-lt : (n : Node) → IsNode n → tree_of n < 2 ^ 64
tree_of-lt (leaf t d k v) h = h.0
tree_of-lt (internal t d l r) h = h.0
tree_of-lt (empty t d) h = h.0

-- The hashed bytes determine the node: its form, its tree, its depth and its content.
preimage-injective : (n m : Node) → IsNode n → IsNode m → preimage n ≡ preimage m → n ≡ m
unfolding preimage
preimage-injective n m hn hm e =
    let heads : prefix n ≡ prefix m = cc in
    let tails : put_uint64 (tree_of n) ++ (depth_of n ∷ body n)
        ≡ put_uint64 (tree_of m) ++ (depth_of m ∷ body m) =
      cc in
    let (trees, rest) =
      put_uint64-append (tree_of n) (tree_of m) _ _ (tree_of-lt n hn) (tree_of-lt m hm) tails in
    body-injective n m hn hm heads trees (cc) (cc)

-- Two messages with one digest.
pub record Collision (sha : Sha256) : Type 0 where
  pub first : Bytes
  pub second : Bytes
  pub distinct : first ≢ second
  pub agree : sha.sum256 first ≡ sha.sum256 second

Bytes-discrete : Discrete Bytes
Bytes-discrete = hlevel ℕ_discrete

take-length : (n : ℕ) (xs : Bytes) → length xs ≡ n → take n xs ≡ xs
take-length zero [] h = refl
take-length zero (x ∷ xs) h = absurd (omega arith)
take-length (suc n) [] h = absurd (omega arith)
take-length (suc n) (x ∷ xs) h = ap (◌∷◌ x) (take-length n xs (omega arith))

module _ (sha : Sha256) where
  -- [32]byte keeps the whole digest.
  pub node_hash-eq-sum256 : (n : Node) → node_hash sha n ≡ sha.sum256 (preimage n)
  node_hash-eq-sum256 n =
      node_hash-eq-sum sha n
      ∙ take-length 32 (sha.sum256 (preimage n)) (sha.length-sum256 (preimage n))

  pub length-node_hash : (n : Node) → length (node_hash sha n) ≡ 32
  length-node_hash n = ap length (node_hash-eq-sum256 n) ∙ sha.length-sum256 (preimage n)

  -- For a hash function with 32-byte digests: two Merkle nodes (leaf, internal or empty, with
  -- arguments in the range of their Go types) that merkle.go hashes to one value are one node, or
  -- two different messages with one digest are given.
  pub node_hash_binding :
      (n m : Node)
      → IsNode n
      → IsNode m
      → node_hash sha n ≡ node_hash sha m
      → (n ≡ m) ⊎ Collision sha
  node_hash_binding n m hn hm e = elim (Bytes-discrete (preimage n) (preimage m)) [
    | yes same ↦ inl (preimage-injective n m hn hm same)
    | no differ ↦ inr (record {
      first = preimage n;
      second = preimage m;
      distinct = differ;
      agree = sym (node_hash-eq-sum256 n) ∙ e ∙ node_hash-eq-sum256 m;
    })
  ]
