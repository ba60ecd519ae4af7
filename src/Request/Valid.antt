-- ===== src/Request/Valid.antt =====
-- Which client requests are encoded and accepted: WIRE-SPEC.md 3.11.
use canonical.Prelude.{
  ◌∷◌, length-ne-zero, length-eq-zero, arith, List, Option, ◌<ℤ◌, pos, length, All, [], ◌≢◌, ◌↔◌,
  Bytes, none, ◌≡◌,
}
use canonical.Request.{
  check_id_and_expiry, CertificateV1, check_intermediates, request_id_len,
  marshal_client_request_v1, check_client_request_v1, ClientRequestV1,
}
use canonical.Errors.{Error, ok}
use canonical.Asn1.Canonical.{checked_marshal_iff}
use canonical.Asn1.{marshal, version_v1, Encoding}

module _ (rest : Option Error) where
  check_intermediates-none :
      (certs : List CertificateV1)
      → (check_intermediates certs rest ≡ none) ↔ (All (λ c. c.der ≢ []) certs × (rest ≡ none))
  unfolding check_intermediates
  check_intermediates-none [] = (λ e. (tt, e), λ (_, e). e)
  check_intermediates-none (c ∷ certs) =
      let ih = check_intermediates-none certs in
      (
        λ e. let h = ih.0 (ground arith) in ((length-ne-zero c.der (ground arith), h.0), h.1),
        λ ((present, presents), e).
            let h = ih.1 (presents, e) in ground (arith, length-eq-zero c.der),
      )

pub record IsClientRequestV1 (r : ClientRequestV1) : Type 0 where
  pub version_known : r.version ≡ version_v1
  pub cert_present : r.client_cert ≢ []
  pub intermediates_present : All (λ c. c.der ≢ []) r.intermediates
  pub request_id_width : length r.request_id ≡ request_id_len
  pub expiry_positive : pos 0 <ℤ r.expiry

passed_fields :
    (r : ClientRequestV1)
    → check_client_request_v1 r ≡ none
    → All (λ c. c.der ≢ []) r.intermediates
    → check_id_and_expiry r ≡ none
    → IsClientRequestV1 r
unfolding check_client_request_v1 check_id_and_expiry
passed_fields r e present rest = record {
  version_known = ground arith;
  cert_present = length-ne-zero r.client_cert (ground arith);
  intermediates_present = present;
  request_id_width = ground arith;
  expiry_positive = ground arith;
}

check_client_request_v1-IsClientRequestV1 :
    (r : ClientRequestV1) → (check_client_request_v1 r ≡ none) ↔ IsClientRequestV1 r
unfolding check_client_request_v1
check_client_request_v1-IsClientRequestV1 r =
    let loop = check_intermediates-none (check_id_and_expiry r) r.intermediates in
    (
      λ e. let h = loop.0 (ground arith) in passed_fields r e h.0 h.1,
      λ v.
          let h = loop.1 (v.intermediates_present, unfold check_id_and_expiry in ground arith) in
          ground (arith, length-eq-zero r.client_cert),
    )

module _ (E : Encoding ClientRequestV1) where
  -- Over any encoding, marshal_client_request_v1 gives bytes exactly when asn1.Marshal gives them
  -- and the request has version 1, a client certificate, no empty intermediate, a 16-byte request
  -- id and an expiry above 0.
  pub marshal_client_request_v1_iff :
      (r : ClientRequestV1) (b : Bytes)
      → (marshal_client_request_v1 E r ≡ ok b) ↔ (IsClientRequestV1 r × (marshal E r ≡ ok b))
  unfolding marshal_client_request_v1
  marshal_client_request_v1_iff r b =
      checked_marshal_iff E check_client_request_v1 r b
        (check_client_request_v1-IsClientRequestV1 r)
