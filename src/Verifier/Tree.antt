-- ===== src/Verifier/Tree.antt =====
-- The values that ci/verify_vectors.py reads and writes: pairs of a kind and a payload.
use canonical.Prelude.{Bool, Bytes, ℤ, ℕ}

mutual
  pub data Value : Type 0 where
    int : ℤ → Value
    bytes : Bytes → Value
    bool : Bool → Value
    seq : Items → Value

  pub data Items : Type 0 where
    nil : Items
    cons : Value → Items → Items

abbrev pub tag_boolean : ℕ
tag_boolean = 0x01

abbrev pub tag_integer : ℕ
tag_integer = 0x02

abbrev pub tag_octet_string : ℕ
tag_octet_string = 0x04

abbrev pub tag_sequence : ℕ
tag_sequence = 0x30
