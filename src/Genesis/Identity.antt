-- ===== src/Genesis/Identity.antt =====
-- spiffeIDV1 of genesis.go: the SPIFFE ID of a node.
use canonical.Prelude.{
  refl, format_int, append-injective, format_int-injective, ◌++◌, codes, [], ◌≢◌, ◌≡◌, Bytes,
  append_int, ℤ,
}
use canonical.Genesis.{spiffe_id_v1}

-- Every SPIFFE ID has content.
pub spiffe_id_v1-ne-nil : (domain : Bytes) (i : ℤ) → spiffe_id_v1 domain i ≢ []
unfolding spiffe_id_v1 append_int
spiffe_id_v1-ne-nil domain i e = cc

-- Under one trust domain, two node ids, negative ones included, that have one SPIFFE ID are one
-- id.
pub spiffe_id_v1-injective :
    (domain : Bytes) (i j : ℤ) → spiffe_id_v1 domain i ≡ spiffe_id_v1 domain j → i ≡ j
unfolding spiffe_id_v1 append_int
spiffe_id_v1-injective domain i j e =
    let front : Bytes = (codes "spiffe://" ++ domain) ++ codes "/node/" in
    format_int-injective i j (append-injective front (format_int i) front (format_int j) refl e).1
