-- ===== src/Genesis/Rounds.antt =====
-- One round of the loop over the members of genesis.go: it passes its member on, or reports it.
use canonical.Prelude.{
  length-ne-zero, ◌==◌, ltb_ℤ, leb_ℤ, ◌⊎◌, ◌∙◌, sym, refl, length, inr, bytes_equal→eq, inl, ◌≤ℤ◌,
  none, length-eq-zero, Bool-cases, false, arith, some, pos, bytes_equal, [], ◌≡◌, ◌∷◌, ◌<ℤ◌,
  Follows, ◌≢◌, List, Option, Bytes,
}
use mathlib.Core.Bool.{false≢true}
use canonical.Errors.{err_length, err_format, err_empty, err_order, err_range, Error}
use canonical.Genesis.{leaf_pub_key_len, spiffe_id_v1, check_members, GenesisMemberV1}
use canonical.Genesis.Valid.{IsMember, node_id?, identity_present, identity_matches}

module _ (domain : Bytes) where
  -- What is wrong with a member, behind another one or none.
  pub data IsFault (previous : Option GenesisMemberV1) (m : GenesisMemberV1) : Error → Type 0 where
    negative_id : m.node_id <ℤ pos 0 → IsFault previous m err_range
    not_ascending :
        (p : GenesisMemberV1)
        → pos 0 ≤ℤ m.node_id
        → previous ≡ some p
        → m.node_id ≤ℤ p.node_id
        → IsFault previous m err_order
    no_identity :
        pos 0 ≤ℤ m.node_id
        → Follows (node_id? previous) (m.node_id ∷ [])
        → m.spiffe_id ≡ []
        → IsFault previous m err_empty
    other_identity :
        pos 0 ≤ℤ m.node_id
        → Follows (node_id? previous) (m.node_id ∷ [])
        → m.spiffe_id ≢ []
        → m.spiffe_id ≢ spiffe_id_v1 domain m.node_id
        → IsFault previous m err_format
    wrong_key :
        pos 0 ≤ℤ m.node_id
        → Follows (node_id? previous) (m.node_id ∷ [])
        → m.spiffe_id ≡ spiffe_id_v1 domain m.node_id
        → length m.leaf_pub_key ≢ leaf_pub_key_len
        → IsFault previous m err_length

  pub next_round :
      (previous : Option GenesisMemberV1) (m : GenesisMemberV1) (members : List GenesisMemberV1)
      → Follows (node_id? previous) (m.node_id ∷ [])
      → IsMember domain m
      → check_members domain previous (m ∷ members) ≡ check_members domain (some m) members
  unfolding check_members
  next_round none m members above h = ground (
    arith,
    identity_present domain m h.identity_derived,
    identity_matches domain m h.identity_derived,
  )
  next_round (some p) m members (above, _) h = ground (
    arith,
    identity_present domain m h.identity_derived,
    identity_matches domain m h.identity_derived,
  )

  differs :
      (m : GenesisMemberV1)
      → m.spiffe_id ≢ spiffe_id_v1 domain m.node_id
      → bytes_equal m.spiffe_id (spiffe_id_v1 domain m.node_id) ≡ false
  differs m h = elim (Bool-cases (bytes_equal m.spiffe_id (spiffe_id_v1 domain m.node_id))) [
    | inl same ↦ absurd (h (bytes_equal→eq _ _ same))
    | inr other ↦ other
  ]

  pub reported_fault :
      (previous : Option GenesisMemberV1) (m : GenesisMemberV1) (members : List GenesisMemberV1)
      (e : Error)
      → IsFault previous m e
      → check_members domain previous (m ∷ members) ≡ some e
  unfolding check_members
  reported_fault previous m members e (negative_id below) = ground arith
  reported_fault previous m members e (not_ascending p nonneg at below) = rw at (ground arith)
  reported_fault none m members e (no_identity nonneg above gone) = rw gone (ground arith)
  reported_fault (some p) m members e (no_identity nonneg (above, _) gone) = rw gone (ground arith)
  reported_fault none m members e (other_identity nonneg above there other) =
      ground (arith, length-eq-zero m.spiffe_id, differs m other)
  reported_fault (some p) m members e (other_identity nonneg (above, _) there other) =
      ground (arith, length-eq-zero m.spiffe_id, differs m other)
  reported_fault none m members e (wrong_key nonneg above same width) =
      ground (arith, identity_present domain m same, identity_matches domain m same)
  reported_fault (some p) m members e (wrong_key nonneg (above, _) same width) =
      ground (arith, identity_present domain m same, identity_matches domain m same)

  -- A member is in its place, or is reported for it.
  order_cases :
      (previous : Option GenesisMemberV1) (m : GenesisMemberV1)
      → pos 0 ≤ℤ m.node_id
      → Follows (node_id? previous) (m.node_id ∷ []) ⊎ IsFault previous m err_order
  order_cases none m nonneg = inl tt
  order_cases (some p) m nonneg = elim (Bool-cases (leb_ℤ m.node_id p.node_id)) [
    | inl below ↦ inr (not_ascending p nonneg refl (ground arith))
    | inr above ↦ inl (ground arith, tt)
  ]

  -- A member in its place is complete, or is reported for what it lacks.
  identity_and_key :
      (previous : Option GenesisMemberV1) (m : GenesisMemberV1)
      → pos 0 ≤ℤ m.node_id
      → Follows (node_id? previous) (m.node_id ∷ [])
      → IsMember domain m ⊎ ((e : Error) × IsFault previous m e)
  identity_and_key previous m nonneg above = elim (Bool-cases (length m.spiffe_id == 0)) [
    | inl gone ↦
        inr (err_empty, no_identity nonneg above (length-eq-zero m.spiffe_id (ground arith)))
    | inr there ↦ elim (Bool-cases (bytes_equal m.spiffe_id (spiffe_id_v1 domain m.node_id))) [
      | inr other ↦ inr (
        err_format,
        other_identity nonneg above (length-ne-zero m.spiffe_id (ground arith))
            (λ same. false≢true (sym other ∙ identity_matches domain m same)),
      )
      | inl equal ↦
          let same = bytes_equal→eq m.spiffe_id (spiffe_id_v1 domain m.node_id) equal in
          elim (Bool-cases (length m.leaf_pub_key == leaf_pub_key_len)) [
            | inr wrong ↦ inr (err_length, wrong_key nonneg above same (λ w. ground arith))
            | inl right ↦
                inl
                  (record { id_nonneg = nonneg; identity_derived = same; key_width = ground arith })
          ]
    ]
  ]

  pub round_cases :
      (previous : Option GenesisMemberV1) (m : GenesisMemberV1)
      → (Follows (node_id? previous) (m.node_id ∷ []) × IsMember domain m)
        ⊎ ((e : Error) × IsFault previous m e)
  round_cases previous m = elim (Bool-cases (ltb_ℤ m.node_id (pos 0))) [
    | inl below ↦ inr (err_range, negative_id (ground arith))
    | inr nonneg ↦ elim (order_cases previous m (ground arith)) [
      | inr wrong ↦ inr (err_order, wrong)
      | inl above ↦ elim (identity_and_key previous m (ground arith) above) [
        | inr wrong ↦ inr wrong
        | inl good ↦ inl (above, good)
      ]
    ]
  ]
