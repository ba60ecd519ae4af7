-- ===== src/Verifier/Laws.antt =====
-- `parse_der` of ci/verify_vectors.py as a whole, against `encode_value`.
use canonical.Verifier.RoundTrip.{parse_der-encode_value}
use canonical.Prelude.{
  arith, ap, [], ◌∷◌, ◌+◌, ◌∙◌, ◌↔◌, ◌*◌, ◌^◌, sym, ◌≤◌, ◌≡◌, ◌++◌, ◌≢◌, length, Bytes,
}
use canonical.Verifier.Sound.{read_value-Post}
use canonical.Verifier.Outcome.{Post-returned, returned, Post-within, >>=-Post, out_of_fuel, Post}
use canonical.Verifier.{read_value, encode_value, parse_der, nothing_left}
use mathlib.Core.List.{append-nil}
use canonical.Verifier.Tree.{Value}
use canonical.Octets.{IsOctets}

nothing_left-Post :
    (b : Bytes) (v : Value) (rest : Bytes)
    → encode_value v ++ rest ≡ b
    → Post (λ w. encode_value w ≡ b) (nothing_left (v, rest))
unfolding nothing_left
nothing_left-Post b v [] same = sym (append-nil (encode_value v)) ∙ same
nothing_left-Post b v (x ∷ rest) same = tt

pub parse_der-Post : (b : Bytes) → IsOctets b → Post (λ v. encode_value v ≡ b) (parse_der b)
unfolding parse_der
parse_der-Post b octets =
    >>=-Post (λ (v, rest). encode_value v ++ rest ≡ b) (λ v. encode_value v ≡ b)
      (read_value (2 * length b + 1) b) nothing_left
      (read_value-Post (2 * length b + 1) b (omega arith) octets)
      (λ (v, rest) same. nothing_left-Post b v rest same)

-- On any input of octets, parse_der ends within its fuel.
pub parse_der_within : (b : Bytes) → IsOctets b → parse_der b ≢ out_of_fuel
parse_der_within b octets =
    Post-within (λ v. encode_value v ≡ b) (parse_der b) (parse_der-Post b octets)

-- On an input of octets of at most 2^32 bytes, parse_der returns a value exactly when
-- encode_value writes that input for the value.
pub parse_der_iff :
    (b : Bytes) (v : Value)
    → IsOctets b
    → length b ≤ 2 ^ 32
    → (parse_der b ≡ returned v) ↔ (encode_value v ≡ b)
parse_der_iff b v octets small = (
  Post-returned (λ v. encode_value v ≡ b) (parse_der b) v (parse_der-Post b octets),
  λ wrote. ap parse_der (sym wrote) ∙ parse_der-encode_value v (rw wrote small),
)
