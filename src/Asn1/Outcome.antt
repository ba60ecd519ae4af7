-- ===== src/Asn1/Outcome.antt =====
-- What `unmarshal` of asn1.go returns, by what encoding/asn1 does.
use canonical.Prelude.{
  bytes_equal_refl, bytes_equal_iff, ◌↔◌, sym, false, arith, inr, bytes_equal→eq, ap, ◌∙◌, inl,
  refl, Bool-cases, ◌≢◌, ◌==◌, length, bytes_equal, ◌∷◌, not, ℕ, if◌then◌else◌, [], ◌≡◌, Bytes,
}
use canonical.Asn1.Canonical.{unmarshal-non_canonical}
use mathlib.Core.Bool.{false≢true}
use canonical.Errors.{err_non_canonical, err_trailing, ◌>>=◌, ok, err, Error, Result}
use canonical.Asn1.{Encoding, marshal, unmarshal}

module _ {ℓ} {A : Type ℓ} (E : Encoding A) (b : Bytes) where
  -- The steps of `unmarshal`: the first that fails gives the error.
  pub data Outcome : Result A → Type ℓ where
    not_decoded : (e : Error) → E.decode b ≡ err e → Outcome (err e)
    bytes_behind :
        (v : A) (x : ℕ) (rest : Bytes) → E.decode b ≡ ok (v, x ∷ rest) → Outcome (err err_trailing)
    not_encoded :
        (v : A) (e : Error) → E.decode b ≡ ok (v, []) → marshal E v ≡ err e → Outcome (err e)
    other_spelling :
        (v : A) (c : Bytes)
        → E.decode b ≡ ok (v, [])
        → marshal E v ≡ ok c
        → c ≢ b
        → Outcome (err err_non_canonical)
    canonical_input : (v : A) → E.decode b ≡ ok (v, []) → marshal E v ≡ ok b → Outcome (ok v)

  compared :
      (v : A) (m : Result Bytes)
      → E.decode b ≡ ok (v, [])
      → marshal E v ≡ m
      → Outcome (m >>= λ round. if not (bytes_equal round b) then err err_non_canonical else ok v)
  compared v (err e) read wrote = not_encoded v e read wrote
  compared v (ok c) read wrote = elim (Bool-cases (bytes_equal c b)) [
    | inl same ↦ rw same (canonical_input v read (wrote ∙ ap ok (bytes_equal→eq c b same)))
    | inr differ ↦
        rw differ
          (other_spelling v c read wrote (λ e. false≢true (sym differ ∙ (bytes_equal_iff c b).1 e)))
  ]

  decoded :
      (d : Result (A × Bytes))
      → E.decode b ≡ d
      → Outcome (
          d >>= λ (v, rest).
          if not (length rest == 0)
          then err err_trailing
          else marshal E v >>= λ round.
              if not (bytes_equal round b) then err err_non_canonical else ok v)
  decoded (err e) read = not_decoded e read
  decoded (ok (v, [])) read = compared v (marshal E v) read refl
  decoded (ok (v, x ∷ rest)) read =
      let more : (length (x ∷ rest) == 0) ≡ false = ground arith in
      rw more (bytes_behind v x rest read)

  unmarshal-Outcome : Outcome (unmarshal E b)
  unfolding unmarshal
  unmarshal-Outcome = decoded (E.decode b) refl

  returned : (r : Result A) → Outcome r → unmarshal E b ≡ r
  unfolding unmarshal
  returned r (not_decoded e read) = rw read
  returned r (bytes_behind v x rest read) = ground (arith, read)
  returned r (not_encoded v e read wrote) = ground (arith, read, wrote)
  returned r (other_spelling v c read wrote differ) =
      unmarshal-non_canonical E b c v read wrote differ
  returned r (canonical_input v read wrote) = ground (arith, read, wrote, bytes_equal_refl b)

  -- Over any encoding, `unmarshal` of asn1.go returns a result exactly when that result is the
  -- outcome of the first step to fail: the error of asn1.Unmarshal; err_trailing, if bytes are
  -- left behind the value; the error of asn1.Marshal on the value; err_non_canonical, if the
  -- value's encoding is not the input; and the value itself, if no step fails.
  pub unmarshal_iff : (r : Result A) → (unmarshal E b ≡ r) ↔ Outcome r
  unmarshal_iff r = (λ h. rw h at unmarshal-Outcome, λ o. returned r o)
