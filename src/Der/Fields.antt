-- ===== src/Der/Fields.antt =====
-- Encodings of Go values, by their shape: fields, structs and slices of structs. Each comes with
-- the proof that it is lossless.
use canonical.Prelude.{
  ◌-◌, zero, refl, length-append, ◌≤◌, ◌∷◌, ◌+◌, suc, arith, [], ◌<◌, ◌++◌, length, ◌≡◌, ℤ, List,
  Bytes, ℕ,
}
use canonical.Errors.{syntax_error, asn1_error, err, ok, ◌>>=◌, >>=-eq-ok, Result}
use mathlib.Core.List.{append-nil, append_assoc}
use canonical.Asn1.{Encoding, IsLossless, length_ceiling}
use canonical.Der.Length.{tlv, read_tlv, length-tlv, read_tlv-tlv}
use canonical.Der.Integer.{encode_int64, parse_int64}
use canonical.Der.Integer.RoundTrip.{parse_int64-encode_int64}

abbrev tag_integer : ℕ
tag_integer = 0x02

abbrev tag_octet_string : ℕ
tag_octet_string = 0x04

abbrev tag_sequence : ℕ
tag_sequence = 0x30

-- An int64 field.
unfoldable pub int64 : Encoding ℤ
int64 = record {
  encode = λ i. (do bs ← encode_int64 i; tlv tag_integer bs);
  decode = λ b. (do (bs, rest) ← read_tlv tag_integer b; i ← parse_int64 bs; ok (i, rest));
}

pub int64-IsLossless : IsLossless int64
unfolding int64
int64-IsLossless = record {
  decode-encode = λ i b rest h small.
      let (bs, wrote, framed) = >>=-eq-ok (encode_int64 i) _ h in
      rw (read_tlv-tlv tag_integer bs b rest framed small, parse_int64-encode_int64 i bs wrote);
}

-- A []byte field.
unfoldable pub octet_string : Encoding Bytes
octet_string = record {
  encode = λ bs. tlv tag_octet_string bs;
  decode = λ b. read_tlv tag_octet_string b;
}

pub octet_string-IsLossless : IsLossless octet_string
unfolding octet_string
octet_string-IsLossless = record {
  decode-encode = λ bs b rest h small. read_tlv-tlv tag_octet_string bs b rest h small;
}

-- One field and then others.
module _ {A B : Type 0} where
  infixr 20 ◌then_field◌
  unfoldable pub ◌then_field◌ : Encoding A → Encoding B → Encoding (A × B)
  E then_field F = record {
    encode = λ (a, b). (do x ← E.encode a; y ← F.encode b; ok (x ++ y));
    decode = λ bs. (do (a, more) ← E.decode bs; (b, rest) ← F.decode more; ok ((a, b), rest));
  }

  pub then_field-IsLossless :
      (E : Encoding A) (F : Encoding B) → IsLossless E → IsLossless F → IsLossless (E then_field F)
  unfolding ◌then_field◌
  then_field-IsLossless E F L M = record {
    decode-encode = λ v bs rest h small.
        let (x, wrote_x, h') = >>=-eq-ok (E.encode v.0) _ h in
        let (y, wrote_y, e) = >>=-eq-ok (F.encode v.1) _ h' in
        let same : x ++ y ≡ bs = cc in
        let sizes : length x + length y ≡ length bs = rw (← length-append x y, same) refl in
        let read_x : E.decode ((x ++ y) ++ rest) ≡ ok (v.0, y ++ rest) =
          rw append_assoc (L.decode-encode v.0 x (y ++ rest) wrote_x (omega arith)) in
        let read_y = M.decode-encode v.1 y rest wrote_y (omega arith) in
        rw (← same, read_x, read_y);
  }

  -- A struct by the tuple of its fields.
  unfoldable pub via : (B → A) → (A → B) → Encoding A → Encoding B
  via to from E = record {
    encode = λ b. E.encode (to b);
    decode = λ bs. (do (a, rest) ← E.decode bs; ok (from a, rest));
  }

  pub via-IsLossless :
      (to : B → A) (from : A → B) (E : Encoding A)
      → ((b : B) → from (to b) ≡ b)
      → IsLossless E
      → IsLossless (via to from E)
  unfolding via
  via-IsLossless to from E back L = record {
    decode-encode = λ v bs rest h small. rw (L.decode-encode (to v) bs rest h small, back v);
  }

module _ {A : Type 0} (E : Encoding A) where
  -- A struct. encoding/asn1 does not look at what follows the last field inside the SEQUENCE.
  unfoldable pub sequence : Encoding A
  sequence = record {
    encode = λ a. (do content ← E.encode a; tlv tag_sequence content);
    decode = λ b. (do
      (content, rest) ← read_tlv tag_sequence b
      (a, ignored) ← E.decode content
      ok (a, rest));
  }

  pub sequence-IsLossless : IsLossless E → IsLossless sequence
  unfolding sequence
  sequence-IsLossless L = record {
    decode-encode = λ a b rest h small.
        let (content, wrote, framed) = >>=-eq-ok (E.encode a) _ h in
        let inner : E.decode content ≡ ok (a, []) = rw append-nil at (
          L.decode-encode a content [] wrote
            (omega (arith, length-tlv tag_sequence content b framed))) in
        rw (read_tlv-tlv tag_sequence content b rest framed small, inner);
  }

  encode_all : List A → Result Bytes
  encode_all [] = ok []
  encode_all (a ∷ more) = do x ← sequence.encode a; y ← encode_all more; ok (x ++ y)

  -- Each round reads an octet at least, so the length of the content is enough fuel.
  decode_all : ℕ → Bytes → Result (List A)
  decode_all fuel [] = ok []
  decode_all zero (b ∷ bs) = err (asn1_error syntax_error)
  decode_all (suc fuel) (b ∷ bs) = do
    (a, rest) ← sequence.decode (b ∷ bs)
    more ← decode_all fuel rest
    ok (a ∷ more)

  -- A slice of structs.
  unfoldable pub sequence_of : Encoding (List A)
  unfolding encode_all decode_all sequence
  sequence_of = record {
    encode = λ list. (do content ← encode_all list; tlv tag_sequence content);
    decode = λ b. (do
      (content, rest) ← read_tlv tag_sequence b
      list ← decode_all (length content) content
      ok (list, rest));
  }

  sequence_nonempty : (a : A) (x : Bytes) → sequence.encode a ≡ ok x → 0 < length x
  unfolding sequence
  sequence_nonempty a x h =
      let (content, wrote, framed) = >>=-eq-ok (E.encode a) _ h in
      omega (arith, length-tlv tag_sequence content x framed)

  decode_all_step :
      (fuel : ℕ) (bs : Bytes) {a : A} {rest : Bytes} {more : List A}
      → 0 < length bs
      → sequence.decode bs ≡ ok (a, rest)
      → decode_all fuel rest ≡ ok more
      → decode_all (suc fuel) bs ≡ ok (a ∷ more)
  unfolding decode_all
  decode_all_step fuel [] h read read_more = absurd (omega arith)
  decode_all_step fuel (b ∷ bs) h read read_more = rw (read, read_more)

  decode_all-encode_all :
      IsLossless E
      → (list : List A) (fuel : ℕ) (content : Bytes) → encode_all list ≡ ok content
      → length content < length_ceiling
      → length content ≤ fuel
      → decode_all fuel content ≡ ok list
  unfolding encode_all
  decode_all-encode_all L [] fuel content h small enough =
      let same : [] ≡ content = cc in rw (← same) (unfold decode_all in refl)
  decode_all-encode_all L (a ∷ list) fuel content h small enough =
      let (x, wrote_x, h') = >>=-eq-ok (sequence.encode a) _ h in
      let (y, wrote_y, e) = >>=-eq-ok (encode_all list) _ h' in
      let same : x ++ y ≡ content = cc in
      let sizes : length x + length y ≡ length content = rw (← length-append x y, same) refl in
      let nonempty = sequence_nonempty a x wrote_x in
      let spare : suc (fuel - 1) ≡ fuel = omega arith in
      let read : sequence.decode content ≡ ok (a, y) =
        rw (← same) ((sequence-IsLossless L).decode-encode a x y wrote_x (omega arith)) in
      let read_more : decode_all (fuel - 1) y ≡ ok list =
        decode_all-encode_all L list (fuel - 1) y wrote_y (omega arith) (omega arith) in
      rw (← spare) (decode_all_step (fuel - 1) content (omega arith) read read_more)

  pub sequence_of-IsLossless : IsLossless E → IsLossless sequence_of
  unfolding sequence_of
  sequence_of-IsLossless L = record {
    decode-encode = λ list b rest h small.
        let (content, wrote, framed) = >>=-eq-ok (encode_all list) _ h in
        let fits : length content < length_ceiling =
          omega (arith, length-tlv tag_sequence content b framed) in
        rw (
          read_tlv-tlv tag_sequence content b rest framed small,
          decode_all-encode_all L list (length content) content wrote fits (omega arith),
        );
  }
