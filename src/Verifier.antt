-- ===== src/Verifier.antt =====
-- ci/verify_vectors.py: the second implementation of the wire rules, its DER reader and writer.
pub mod Outcome
pub mod Tree
pub mod Integer
pub mod OctetCount
pub mod Length
pub mod RoundTrip
pub mod Sound
pub mod Laws
pub mod Schema
pub mod Decode
pub mod Checks
pub mod Printable
pub mod Validate
pub mod Objects
pub mod Inverse
pub mod Reading
pub mod Checked
pub mod Members
pub mod CertMsg
pub mod Sigs
pub mod Inside
pub mod Within
pub mod Forge
pub mod Forgeries
pub mod Growth
pub mod Paths
pub mod NextVersion
pub mod Refused
pub mod Spliced
pub mod Ed25519
pub mod Compare
pub mod Vector
pub mod MerkleHash
pub mod Encode
pub mod Validity
pub mod Agree
use canonical.Verifier.Tree.{
  seq, Value, cons, nil, bool, tag_boolean, Items, Value, seq, int, tag_sequence, bytes,
  tag_octet_string, tag_integer,
}
use canonical.Prelude.{
  true, false, leb, ◌&&◌, ◌%◌, negsuc, drop, ◌^◌, ◌==◌, ◌+◌, ◌++◌, zero, pos, [], ◌/◌, ◌*◌, take,
  ltb, length, if◌then◌else◌, ◌∷◌, ℤ, suc, Bool, ℕ, bytes_equal, Bytes,
}
use canonical.Verifier.Outcome.{◌>>=◌, returned, out_of_fuel, raised, Run}
use canonical.Octets.{complement, big_endian, signed, from_big_endian}

-- MAX_LENGTH_OCTETS
abbrev pub max_length_octets : ℕ
max_length_octets = 4

-- A window data[off:limit] is the list of its octets, and an offset in it what is left of the list.
-- The long form; `first & 0x7F` of an octet from 0x80 on is first % 0x80.
unfoldable pub long_length : ℕ → Bytes → Run (ℕ × Bytes)
unfolding from_big_endian
long_length count [] = raised
long_length count (b ∷ bs) =
    let raw = take count (b ∷ bs) in
    let n = from_big_endian 0 raw in
    if ltb (length (b ∷ bs)) count
    then raised
    else if b == 0
    then raised
    else if ltb n 0x80
    then raised
    else returned (n, drop count (b ∷ bs))

-- `_read_length`: the length, and the octets after it.
unfoldable pub read_length : Bytes → Run (ℕ × Bytes)
unfolding long_length
read_length [] = raised
read_length (first ∷ bs) =
    if first == 0x80
    then raised
    else if first == 0xff
    then raised
    else if ltb first 0x80
    then returned (first, bs)
    else if ltb max_length_octets (first % 0x80)
    then raised
    else long_length (first % 0x80) bs

-- `_read_integer`
unfoldable pub read_integer : Bytes → Run ℤ
unfolding signed
read_integer [] = raised
read_integer (b ∷ []) = returned (signed (b ∷ []))
read_integer (b ∷ c ∷ bs) =
    if b == 0x00 && ltb c 0x80
    then raised
    else if b == 0xff && leb 0x80 c
    then raised
    else returned (signed (b ∷ c ∷ bs))

-- The end of `_read_value`, for the tags other than SEQUENCE.
unfoldable pub read_primitive : ℕ → Bytes → Run Value
unfolding read_integer bytes_equal
read_primitive tag content =
    if tag == tag_integer
    then (read_integer content >>= λ i. returned (int i))
    else if tag == tag_octet_string
    then returned (bytes content)
    else if tag == tag_boolean
    then if bytes_equal content (0x00 ∷ [])
      then returned (bool false)
      else if bytes_equal content (0xff ∷ [])
      then returned (bool true)
      else raised
    else raised

unfoldable mutual
  unfolding read_length read_primitive

  -- `_read_value`: the value, and the octets after it. Each call costs a unit of fuel. The depth of
  -- Python's stack is not modelled: near 1000 nested SEQUENCEs the program ends in a RecursionError.
  pub read_value : ℕ → Bytes → Run (Value × Bytes)
  read_value zero bs = out_of_fuel
  read_value (suc fuel) [] = raised
  read_value (suc fuel) (tag ∷ bs) = read_length bs >>= λ (n, after).
      let content = take n after in
      let rest = drop n after in
      let items = read_items fuel content >>= λ xs. returned (seq xs, rest) in
      let plain = read_primitive tag content >>= λ v. returned (v, rest) in
      if ltb (length after) n then raised else if tag == tag_sequence then items else plain

  -- The loop of `_read_value` over the content of a SEQUENCE.
  pub read_items : ℕ → Bytes → Run Items
  read_items zero bs = out_of_fuel
  read_items (suc fuel) [] = returned nil
  read_items (suc fuel) (b ∷ bs) =
      read_value fuel (b ∷ bs) >>= λ (v, rest). read_items fuel rest >>= λ xs. returned (cons v xs)

-- The test of `parse_der` on what is left.
unfoldable pub nothing_left : Value × Bytes → Run Value
nothing_left (v, []) = returned v
nothing_left (v, b ∷ bs) = raised

unfoldable pub parse_der : Bytes → Run Value
unfolding nothing_left
parse_der b = read_value (2 * length b + 1) b >>= nothing_left

-- (n.bit_length() + 7) // 8, the count of octets of a number; `fuel` is at least the number.
unfoldable pub octet_count : ℕ → ℕ → ℕ
octet_count zero n = 0
octet_count (suc fuel) n = let more = suc (octet_count fuel (n / 256)) in if n == 0 then 0 else more

-- `_encode_length`
unfoldable pub encode_length : ℕ → Bytes
unfolding octet_count big_endian
encode_length n =
    if ltb n 0x80
    then n ∷ []
    else let raw = big_endian (octet_count n n) n in (0x80 + length raw) ∷ raw

-- Whether v.to_bytes(suc width, "big", signed=True) raises no OverflowError, for the number n and
-- for -(n + 1).
abbrev pub fits : ℕ → ℕ → Bool
fits width n = ltb n (128 * 256 ^ width)

-- The loop of `_minimal_signed`, from `suc width` octets on; `fuel` is at least the number.
unfoldable pub minimal_width : ℕ → ℕ → ℕ → ℕ
minimal_width zero width n = width
minimal_width (suc fuel) width n =
    let more = minimal_width fuel (suc width) n in if fits width n then width else more

unfoldable pub minimal_signed : ℤ → Bytes
unfolding minimal_width big_endian complement
minimal_signed (pos n) = big_endian (suc (minimal_width n 0 n)) n
minimal_signed (negsuc n) = complement (big_endian (suc (minimal_width n 0 n)) n)

-- The last line of `encode_value`.
unfoldable pub tagged : ℕ → Bytes → Bytes
unfolding encode_length
tagged tag body = tag ∷ (encode_length (length body) ++ body)

unfoldable mutual
  unfolding tagged minimal_signed

  pub encode_value : Value → Bytes
  encode_value (int i) = tagged tag_integer (minimal_signed i)
  encode_value (bytes b) = tagged tag_octet_string b
  encode_value (bool b) = tagged tag_boolean (if b then 0xff ∷ [] else 0x00 ∷ [])
  encode_value (seq xs) = tagged tag_sequence (encode_items xs)

  -- b"".join(encode_value(x) for x in v)
  pub encode_items : Items → Bytes
  encode_items nil = []
  encode_items (cons v xs) = encode_value v ++ encode_items xs
