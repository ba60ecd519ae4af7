-- ===== src/Request/Refusal.antt =====
-- The errors of checkClientRequestV1 of request.go, by the constraint that fails first.
use canonical.Prelude.{
  ◌≤ℤ◌, ◌==◌, eqb_ℤ, ◌⊎◌, inl, inr, Bool-cases, length, length-eq-zero, length-ne-zero, arith, All,
  Any, List, Option, [], ◌∷◌, ◌↔◌, ◌≢◌, pos, Bytes, some, refl, ◌≡◌,
}
use canonical.Asn1.{unmarshal, version_v1, Encoding}
use canonical.Request.{
  request_id_len, unmarshal_client_request_v1, check_client_request_v1, check_intermediates,
  check_id_and_expiry, ClientRequestV1, CertificateV1,
}
use canonical.Errors.{after-eq-err, err_range, err_length, err_empty, err_version, err, ok, Error}
use mathlib.Core.Path.{subst}

-- The first constraint that fails, and the error for it.
pub data IsRefused (r : ClientRequestV1) : Error → Type 0 where
  unknown_version : r.version ≢ version_v1 → IsRefused r err_version
  no_cert : r.version ≡ version_v1 → r.client_cert ≡ [] → IsRefused r err_empty
  no_intermediate :
      r.version ≡ version_v1
      → r.client_cert ≢ []
      → Any (λ c. c.der ≡ []) r.intermediates
      → IsRefused r err_empty
  wrong_id :
      r.version ≡ version_v1
      → r.client_cert ≢ []
      → All (λ c. c.der ≢ []) r.intermediates
      → length r.request_id ≢ request_id_len
      → IsRefused r err_length
  no_expiry :
      r.version ≡ version_v1
      → r.client_cert ≢ []
      → All (λ c. c.der ≢ []) r.intermediates
      → length r.request_id ≡ request_id_len
      → r.expiry ≤ℤ pos 0
      → IsRefused r err_range

-- The loop over the intermediates reports an empty one, or leads to the code after it.
intermediate_cases :
    (certs : List CertificateV1) (rest : Option Error)
    → (Any (λ c. c.der ≡ []) certs × (check_intermediates certs rest ≡ some err_empty))
      ⊎ (All (λ c. c.der ≢ []) certs × (check_intermediates certs rest ≡ rest))
unfolding check_intermediates
intermediate_cases [] rest = inr (tt, refl)
intermediate_cases (c ∷ certs) rest = elim (Bool-cases (length c.der == 0)) [
  | inl gone ↦ inl (inl (length-eq-zero c.der (ground arith)), ground arith)
  | inr there ↦ elim (intermediate_cases certs rest) [
    | inl (later, reported) ↦ inl (inr later, ground arith)
    | inr (others, reached) ↦ inr ((length-ne-zero c.der (ground arith), others), ground arith)
  ]
]

not_both :
    (certs : List CertificateV1) → Any (λ c. c.der ≡ []) certs → ¬ All (λ c. c.der ≢ []) certs
not_both [] h k = h
not_both (c ∷ certs) (inl gone) (there, k) = there gone
not_both (c ∷ certs) (inr h) (there, k) = not_both certs h k

refusal : (r : ClientRequestV1) (e : Error) → check_client_request_v1 r ≡ some e → IsRefused r e
unfolding check_client_request_v1 check_id_and_expiry
refusal r e h = elim (Bool-cases (eqb_ℤ r.version version_v1)) [
  | inr unknown ↦ subst (IsRefused r) (ground arith) (unknown_version (λ v. ground arith))
  | inl known ↦ elim (Bool-cases (length r.client_cert == 0)) [
    | inl gone ↦
        subst (IsRefused r) (ground arith)
          (no_cert (ground arith) (length-eq-zero r.client_cert (ground arith)))
    | inr there ↦ elim (intermediate_cases r.intermediates (check_id_and_expiry r)) [
      | inl (empty, reported) ↦
          subst (IsRefused r) (ground arith)
            (no_intermediate (ground arith) (length-ne-zero r.client_cert (ground arith)) empty)
      | inr (full, reached) ↦ elim (Bool-cases (length r.request_id == request_id_len)) [
        | inr wrong ↦ subst (IsRefused r) (ground arith) (
            wrong_id (ground arith) (length-ne-zero r.client_cert (ground arith)) full
              (λ w. ground arith))
        | inl right ↦ subst (IsRefused r) (ground arith) (
            no_expiry (ground arith) (length-ne-zero r.client_cert (ground arith)) full
              (ground arith) (ground arith))
      ]
    ]
  ]
]

refused : (r : ClientRequestV1) (e : Error) → IsRefused r e → check_client_request_v1 r ≡ some e
unfolding check_client_request_v1 check_id_and_expiry
refused r e (unknown_version h) = ground arith
refused r e (no_cert v gone) = rw gone (ground arith)
refused r e (no_intermediate v there empty) =
    elim (intermediate_cases r.intermediates (check_id_and_expiry r)) [
      | inl (_, reported) ↦ ground (arith, length-eq-zero r.client_cert)
      | inr (full, _) ↦ absurd (not_both r.intermediates empty full)
    ]
refused r e (wrong_id v there full h) =
    elim (intermediate_cases r.intermediates (check_id_and_expiry r)) [
      | inl (empty, _) ↦ absurd (not_both r.intermediates empty full)
      | inr (_, reached) ↦ ground (arith, length-eq-zero r.client_cert)
    ]
refused r e (no_expiry v there full w h) =
    elim (intermediate_cases r.intermediates (check_id_and_expiry r)) [
      | inl (empty, _) ↦ absurd (not_both r.intermediates empty full)
      | inr (_, reached) ↦ ground (arith, length-eq-zero r.client_cert)
    ]

-- Over any encoding, for an input that passes `unmarshal` of asn1.go with a request:
-- unmarshal_client_request_v1 returns an error exactly when that is the error for the first
-- constraint that fails, in the order version, presence of the client certificate, presence of
-- every intermediate, width of the request id, and expiry above 0.
pub unmarshal_client_request_v1_err_iff :
    (E : Encoding ClientRequestV1) (b : Bytes) (r : ClientRequestV1) (e : Error)
    → unmarshal E b ≡ ok r
    → (unmarshal_client_request_v1 E b ≡ err e) ↔ IsRefused r e
unfolding unmarshal_client_request_v1
unmarshal_client_request_v1_err_iff E b r e read = (
  λ h. refusal r e (after-eq-err (check_client_request_v1 r) r (rw read at h)),
  λ why. rw (read, refused r e why),
)
