-- ===== src/Genesis/Members.antt =====
-- What an operator may count on in an accepted cluster definition: genesis.go.
use canonical.Prelude.{
  zero, [], suc, Ascending-injective, ◌∙◌, sym, ◌^◌, ◌<◌, ◌∷◌, length, some, ◌≡◌, get_elem?, All,
  List, Bytes, ℕ,
}
use canonical.Genesis.Valid.{check_genesis_v1-IsGenesisV1, IsMember, IsGenesisV1}
use canonical.Genesis.Identity.{spiffe_id_v1-injective}
use mathlib.Core.Path.{subst}
use canonical.Genesis.{check_genesis_v1, unmarshal_genesis_v1, GenesisMemberV1, GenesisV1}
use canonical.Asn1.Canonical.{checked_marshal-unmarshal}
use canonical.Errors.{ok}
use canonical.Asn1.{Encoding}

All-get_elem? :
    (P : GenesisMemberV1 → Type 0) (ms : List GenesisMemberV1) (i : ℕ) (m : GenesisMemberV1)
    → All P ms
    → get_elem? ms i ≡ some m
    → P m
All-get_elem? P [] i m h e = cc
All-get_elem? P (x ∷ ms) zero m (h, _) e = subst P (cc) h
All-get_elem? P (x ∷ ms) (suc i) m (_, h) e = All-get_elem? P ms i m h e

module _ (E : Encoding GenesisV1) (b : Bytes) (g : GenesisV1)
    (accepted : unmarshal_genesis_v1 E b ≡ ok g) (small : length g.members < 2 ^ 63) where
  pub genesis_constraints : IsGenesisV1 g
  unfolding unmarshal_genesis_v1
  genesis_constraints =
      let (passed, _) = checked_marshal-unmarshal E check_genesis_v1 b g accepted in
      (check_genesis_v1-IsGenesisV1 g small).0 passed

  -- In a genesis that unmarshal_genesis_v1 accepts, over any encoding, with fewer than 2^63
  -- members: two members that have one SPIFFE ID stand at one position.
  pub identities_distinct :
      (i j : ℕ) (m n : GenesisMemberV1)
      → get_elem? g.members i ≡ some m
      → get_elem? g.members j ≡ some n
      → m.spiffe_id ≡ n.spiffe_id
      → i ≡ j
  identities_distinct i j m n at_i at_j same =
      let v = genesis_constraints in
      let of_m = All-get_elem? (IsMember g.trust_domain) g.members i m v.members_valid at_i in
      let of_n = All-get_elem? (IsMember g.trust_domain) g.members j n v.members_valid at_j in
      let ids : m.node_id ≡ n.node_id =
        spiffe_id_v1-injective g.trust_domain m.node_id n.node_id
          (sym of_m.identity_derived ∙ same ∙ of_n.identity_derived) in
      Ascending-injective (λ e. e.node_id) g.members i j v.members_ascending at_i at_j ids
