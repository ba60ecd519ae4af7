-- ===== src/Request.antt =====
-- request.go: the client request.
pub mod Valid
pub mod Refusal
use canonical.Prelude.{ℕ, Bytes, ℤ, pos, eqb_ℤ, leb_ℤ, length, not, ◌==◌}
use canonical.Prelude.{List, [], ◌∷◌, Option, none, some, if◌then◌else◌}
use canonical.Errors.{
  Error, Result, ok, err_version, err_range, err_length, err_empty, ◌>>=◌, after,
}
use canonical.Asn1.{Encoding, marshal, unmarshal, version_v1}

abbrev pub request_id_len : ℕ
request_id_len = 16

pub record CertificateV1 : Type 0 where
  pub der : Bytes

pub record ClientRequestV1 : Type 0 where
  pub version : ℤ
  pub client_cert : Bytes
  pub intermediates : List CertificateV1
  pub request_id : Bytes
  pub expiry : ℤ
  pub payload : Bytes

-- The loop over `r.Intermediates`, and `rest`, the code after it.
unfoldable pub check_intermediates : List CertificateV1 → Option Error → Option Error
check_intermediates [] rest = rest
check_intermediates (c ∷ certs) rest =
    if length c.der == 0 then some err_empty else check_intermediates certs rest

-- The rest of `checkClientRequestV1`, behind that loop.
unfoldable pub check_id_and_expiry : ClientRequestV1 → Option Error
check_id_and_expiry r =
    if not (length r.request_id == request_id_len)
    then some err_length
    else if leb_ℤ r.expiry (pos 0)
    then some err_range
    else none

unfoldable pub check_client_request_v1 : ClientRequestV1 → Option Error
check_client_request_v1 r =
    if not (eqb_ℤ r.version version_v1)
    then some err_version
    else if length r.client_cert == 0
    then some err_empty
    else check_intermediates r.intermediates (check_id_and_expiry r)

module _ (E : Encoding ClientRequestV1) where
  unfoldable pub marshal_client_request_v1 : ClientRequestV1 → Result Bytes
  marshal_client_request_v1 r = after (check_client_request_v1 r) (marshal E r)

  unfoldable pub unmarshal_client_request_v1 : Bytes → Result ClientRequestV1
  unmarshal_client_request_v1 b = do r ← unmarshal E b; after (check_client_request_v1 r) (ok r)
