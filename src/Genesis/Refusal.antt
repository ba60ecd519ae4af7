-- ===== src/Genesis/Refusal.antt =====
-- The errors of checkGenesisV1 of genesis.go, by the constraint that fails first.
use canonical.Prelude.{
  length-ne-zero, ◌||◌, ltb_ℤ, ◌↔◌, ◌==◌, inl, ◌∙◌, eqb_ℤ, sym, length-eq-zero, ap, Bool-cases,
  to_int64-eq-pos, none, inr, arith, Bytes, ◌⊎◌, ◌≤ℤ◌, ◌<ℤ◌, some, pos, ◌^◌, [], ◌≢◌, ◌<◌, ◌≡◌,
  length,
}
use canonical.Errors.{after-eq-err, err, ok, err_range, err_empty, err_version, Error}
use canonical.Asn1.{unmarshal, Encoding, version_v1}
use canonical.Genesis.{check_members, unmarshal_genesis_v1, check_genesis_v1, GenesisV1}
use mathlib.Core.Path.{subst}
use canonical.Genesis.Faults.{FirstFault, check_members_fault_iff}

-- What the loop over the members is behind.
pub record IsFramed (g : GenesisV1) : Type 0 where
  pub version_known : g.version ≡ version_v1
  pub domain_present : g.trust_domain ≢ []
  pub members_fit : pos (length g.members) ≤ℤ g.max_nodes

-- The first constraint that fails, and the error for it.
pub data IsRefused (g : GenesisV1) : Error → Type 0 where
  unknown_version : g.version ≢ version_v1 → IsRefused g err_version
  no_domain : g.version ≡ version_v1 → g.trust_domain ≡ [] → IsRefused g err_empty
  too_many :
      g.version ≡ version_v1
      → g.trust_domain ≢ []
      → g.max_nodes <ℤ pos (length g.members)
      → IsRefused g err_range
  bad_member : (e : Error) → IsFramed g → FirstFault g.trust_domain none g.members e → IsRefused g e

module _ (g : GenesisV1) (small : length g.members < 2 ^ 63) where
  -- The tests before the loop pass, or one of them is the first to fail.
  frame_cases : IsFramed g ⊎ ((e : Error) × IsRefused g e × (check_genesis_v1 g ≡ some e))
  unfolding check_genesis_v1
  frame_cases =
      let count = to_int64-eq-pos (length g.members) small in
      elim (Bool-cases (eqb_ℤ g.version version_v1)) [
        | inr unknown ↦ inr (err_version, unknown_version (λ e. ground arith), ground arith)
        | inl known ↦ elim (Bool-cases (length g.trust_domain == 0)) [
          | inl gone ↦ inr (
            err_empty,
            no_domain (ground arith) (length-eq-zero g.trust_domain (ground arith)),
            ground arith,
          )
          | inr there ↦
              elim (Bool-cases
                (ltb_ℤ g.max_nodes (pos 0) || ltb_ℤ g.max_nodes (pos (length g.members)))) [
                  | inl over ↦ inr (
                    err_range,
                    too_many (ground arith) (length-ne-zero g.trust_domain (ground arith))
                        (ground arith),
                    rw count (ground arith),
                  )
                  | inr fits ↦ inl (record {
                    version_known = ground arith;
                    domain_present = length-ne-zero g.trust_domain (ground arith);
                    members_fit = ground arith;
                  })
                ]
        ]
      ]

  framed_members : IsFramed g → check_genesis_v1 g ≡ check_members g.trust_domain none g.members
  unfolding check_genesis_v1
  framed_members v =
      let count = to_int64-eq-pos (length g.members) small in
      ground (arith, count, length-eq-zero g.trust_domain)

  refusal : (e : Error) → check_genesis_v1 g ≡ some e → IsRefused g e
  refusal e h = elim frame_cases [
    | inr (f, why, reported) ↦
        let both : some f ≡ some e = sym reported ∙ h in subst (IsRefused g) (cc) why
    | inl v ↦
        bad_member e v
          ((check_members_fault_iff g.trust_domain g.members e).0 (sym (framed_members v) ∙ h))
  ]

  refused : (e : Error) → IsRefused g e → check_genesis_v1 g ≡ some e
  refused e (unknown_version h) = unfold check_genesis_v1 in ground arith
  refused e (no_domain v gone) =
      let none_left : length g.trust_domain ≡ 0 = ap length gone in
      unfold check_genesis_v1 in ground arith
  refused e (too_many v there over) =
      let count = to_int64-eq-pos (length g.members) small in
      unfold check_genesis_v1 in ground (arith, count, length-eq-zero g.trust_domain)
  refused e (bad_member f v first) =
      framed_members v ∙ (check_members_fault_iff g.trust_domain g.members e).1 first

  -- Over any encoding, for an input that passes `unmarshal` of asn1.go with a genesis of fewer
  -- than 2^63 members: unmarshal_genesis_v1 returns an error exactly when that is the error for
  -- the first constraint that fails, in the order version, presence of the trust domain, number
  -- of members, and then the first member at fault behind members that are not: a negative id, an
  -- id not above the one before, an empty SPIFFE ID, another one than that of its id, or a key
  -- that is not 32 bytes.
  pub unmarshal_genesis_v1_err_iff :
      (E : Encoding GenesisV1) (b : Bytes) (e : Error)
      → unmarshal E b ≡ ok g
      → (unmarshal_genesis_v1 E b ≡ err e) ↔ IsRefused g e
  unfolding unmarshal_genesis_v1
  unmarshal_genesis_v1_err_iff E b e read = (
    λ h. refusal e (after-eq-err (check_genesis_v1 g) g (rw read at h)),
    λ why. rw (read, refused e why),
  )
