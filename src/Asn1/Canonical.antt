-- ===== src/Asn1/Canonical.antt =====
-- What `unmarshal` of asn1.go accepts, against what `marshal` writes.
use canonical.Prelude.{
  true, false, inr, ◌==◌, inl, Bool-cases, bytes_equal, if◌then◌else◌, not, Bool, ℕ, ◌<◌, ◌≡◌, ◌≢◌,
  ◌↔◌, arith, [], ◌∷◌, ◌++◌, Bytes, length, bytes_equal→eq, bytes_equal_refl, Option, none,
}
use mathlib.Core.List.{append-nil}
use canonical.Errors.{
  Error, Result, ok, err, err_trailing, err_non_canonical, ◌>>=◌, >>=-eq-ok, after, after-eq-ok,
}
use canonical.Asn1.{Encoding, IsLossless, length_ceiling, marshal, unmarshal}

-- The end of `unmarshal`, from the test of `rest` on: `m` is the second encoding.
accepted {ℓ} :
    {A : Type ℓ} (trailing : Bool) (m : Result Bytes) (b : Bytes) {u v : A}
    → (if trailing
        then err err_trailing
        else m >>= λ round. if not (bytes_equal round b) then err err_non_canonical else ok u)
      ≡ ok v
    → (m ≡ ok b) × (u ≡ v)
accepted false (ok round) b h = elim (Bool-cases (bytes_equal round b)) [
  | inl same ↦ let e = bytes_equal→eq round b same in ground arith
  | inr differ ↦ ground arith
]
accepted false (err e) b h = cc
accepted true m b h = cc

module _ {ℓ} {A : Type ℓ} (E : Encoding A) where
  -- Whatever encoding/asn1 does: where `unmarshal` accepts an input with a value, `marshal` gives
  -- that input back for the value.
  pub marshal-unmarshal : (b : Bytes) (v : A) → unmarshal E b ≡ ok v → marshal E v ≡ ok b
  unfolding unmarshal
  marshal-unmarshal b v h =
      let ((u, rest), read, end) = >>=-eq-ok (E.decode b) _ h in
      let (wrote, same) = accepted (not (length rest == 0)) (marshal E u) b end in cc

  -- Two inputs that are accepted with one value are one input.
  unmarshal-injective : (b c : Bytes) (v : A) → unmarshal E b ≡ ok v → unmarshal E c ≡ ok v → b ≡ c
  unmarshal-injective b c v h k = cc (marshal-unmarshal b v h, marshal-unmarshal c v k)

  -- Where asn1.Unmarshal decodes an input whole into a value, and `marshal` gives other bytes for
  -- that value, `unmarshal` refuses the input as err_non_canonical.
  pub unmarshal-non_canonical :
      (b c : Bytes) (v : A)
      → E.decode b ≡ ok (v, [])
      → marshal E v ≡ ok c
      → c ≢ b
      → unmarshal E b ≡ err err_non_canonical
  unfolding unmarshal
  unmarshal-non_canonical b c v h k ne = ground (arith, bytes_equal→eq c b)

  module _ (L : IsLossless E) where
    unmarshal-marshal :
        (v : A) (b : Bytes) → marshal E v ≡ ok b → length b < length_ceiling → unmarshal E b ≡ ok v
    unfolding unmarshal marshal
    unmarshal-marshal v b h small =
        let whole : E.decode b ≡ ok (v, []) = rw append-nil at (L.decode-encode v b [] h small) in
        ground (arith, whole, bytes_equal_refl b)

    -- R-RULE: an encoding with bytes after it is refused, whatever they are.
    pub unmarshal-trailing :
        (v : A) (b : Bytes) (x : ℕ) (rest : Bytes)
        → marshal E v ≡ ok b
        → length b < length_ceiling
        → unmarshal E (b ++ (x ∷ rest)) ≡ err err_trailing
    unfolding unmarshal marshal
    unmarshal-trailing v b x rest h small = ground (arith, L.decode-encode v b (x ∷ rest) h small)

  -- A decoder that checks what it read, against an encoder that checks what it writes.
  module _ (check : A → Option Error) where
    abbrev pub checked_marshal : A → Result Bytes
    checked_marshal v = after (check v) (marshal E v)

    abbrev pub checked_unmarshal : Bytes → Result A
    checked_unmarshal b = do v ← unmarshal E b; after (check v) (ok v)

    -- What an encoder that checks first writes, where `P` says what the check lets through.
    pub checked_marshal_iff {κ} :
        {P : Type κ} (v : A) (b : Bytes)
        → (check v ≡ none) ↔ P
        → (checked_marshal v ≡ ok b) ↔ (P × (marshal E v ≡ ok b))
    checked_marshal_iff v b valid = (
      λ h. let (passed, wrote) = after-eq-ok (check v) (marshal E v) h in (valid.0 passed, wrote),
      λ (p, wrote). rw (valid.1 p, wrote),
    )

    pub checked_marshal-unmarshal :
        (b : Bytes) (v : A) → checked_unmarshal b ≡ ok v → (check v ≡ none) × (marshal E v ≡ ok b)
    checked_marshal-unmarshal b v h =
        let (u, read, passed) = >>=-eq-ok (unmarshal E b) (λ u. after (check u) (ok u)) h in
        let (valid, same) = after-eq-ok (check u) (ok u) passed in
        (cc, cc (marshal-unmarshal b u read))

    pub checked_unmarshal_iff :
        IsLossless E
        → (b : Bytes) (v : A) → length b < length_ceiling
        → (checked_unmarshal b ≡ ok v) ↔ (checked_marshal v ≡ ok b)
    checked_unmarshal_iff L b v small = (
      λ h. let (valid, wrote) = checked_marshal-unmarshal b v h in rw (valid, wrote),
      λ h.
          let (valid, wrote) = after-eq-ok (check v) (marshal E v) h in
          rw (unmarshal-marshal L v b wrote small, valid),
    )
