-- ===== src/Verifier/Members.antt =====
-- The lists of ci/verify_vectors.py: ascending ids, and the members of a genesis.
use canonical.Prelude.{
  true, [], ◌∷◌, List, Bytes, ℤ, suc, some, ◌≡◌, ◌↔◌, ◌^◌, ◌<◌, refl, ap, none, arith, length,
  length-eq-zero, length-ne-zero, Ascending, All, Follows-cons, bytes_equal→eq, bytes_equal_iff,
}
use canonical.Verifier.Checks.{
  is_printable, check_pairs, ids_of, check_members, check_genesis, check_ascending, count,
}
use canonical.Verifier.Printable.{IsPrintable, IsPrintableDicts}
use canonical.Verifier.Checked.{IsDecided}
use canonical.Verifier.Outcome.{returned}
use canonical.Verifier.Objects.{dict_of, member_dicts}
use canonical.Verifier.Schema.{Name, Key}
use canonical.Verifier.Validate.{validate, check_structure}
use canonical.Structures.{versioned, genesis_v1}
use canonical.Genesis.{GenesisMemberV1, GenesisV1, spiffe_id_v1, check_genesis_v1}
use canonical.Genesis.Valid.{IsMember, node_ids, check_genesis_v1-IsGenesisV1}

pub check_pairs-Ascending : (ids : List ℤ) → (check_pairs ids ≡ returned tt) ↔ Ascending ids
unfolding check_pairs
check_pairs-Ascending [] = (λ e. tt, λ h. refl)
check_pairs-Ascending (a ∷ []) = (λ e. (tt, tt), λ h. refl)
check_pairs-Ascending (a ∷ b ∷ ids) =
    let ih = check_pairs-Ascending (b ∷ ids) in
    (
      λ e. let h = ih.0 (ground arith) in (Follows-cons (some a) b ids (ground arith, tt) h.0, h),
      λ ((above, _), h). ground (arith, ih.1 h),
    )

ids_of-member_dicts :
    (ms : List GenesisMemberV1) → ids_of (member_dicts ms) Key.node_id ≡ returned (node_ids ms)
unfolding ids_of
ids_of-member_dicts [] = refl
ids_of-member_dicts (m ∷ ms) = rw (ids_of-member_dicts ms)

count-member_dicts : (ms : List GenesisMemberV1) → count (member_dicts ms) ≡ length ms
count-member_dicts [] = refl
count-member_dicts (m ∷ ms) = ap suc (count-member_dicts ms)

check_members-IsMember :
    (domain : Bytes) (ms : List GenesisMemberV1)
    → IsPrintableDicts (member_dicts ms)
    → (check_members domain (member_dicts ms) ≡ returned tt) ↔ All (IsMember domain) ms
unfolding check_members spiffe_id_v1
check_members-IsMember domain [] p = (λ e. tt, λ h. refl)
check_members-IsMember domain (m ∷ ms) ((id, _), more_printed) =
    let ih = check_members-IsMember domain ms more_printed in
    (
      λ e. (
        record {
          id_nonneg = ground arith;
          identity_derived = bytes_equal→eq _ _ (ground arith);
          key_width = ground arith;
        },
        ih.0 (ground arith),
      ),
      λ (one, more). ground (
        arith,
        (bytes_equal_iff _ _).1 one.identity_derived,
        one.id_nonneg,
        one.key_width,
        ih.1 more,
      ),
    )

pub validate_genesis :
    (g : GenesisV1)
    → length g.members < 2 ^ 63
    → IsPrintable (dict_of (versioned genesis_v1) g)
    → (validate Name.genesis_v1 (dict_of (versioned genesis_v1) g) ≡ returned tt)
      ↔ (check_genesis_v1 g ≡ none)
unfolding validate check_structure check_genesis check_ascending
validate_genesis g small p =
    let valid = check_genesis_v1-IsGenesisV1 g small in
    let ids = ids_of-member_dicts g.members in
    let size = count-member_dicts g.members in
    let pairs = check_pairs-Ascending (node_ids g.members) in
    let each = check_members-IsMember g.trust_domain g.members p.1.1.1.1.0 in
    (
      λ e. valid.1 record {
        version_known = ground arith;
        domain_present = length-ne-zero g.trust_domain (ground arith);
        members_fit = ground arith;
        members_ascending = pairs.0 (ground arith);
        members_valid = each.0 (ground arith);
      },
      λ e.
          let v = valid.0 e in
          ground (
            arith,
            v.version_known,
            length-eq-zero g.trust_domain,
            v.domain_present,
            v.members_fit,
            pairs.1 v.members_ascending,
            each.1 v.members_valid,
          ),
    )

-- Numbers that are printed.
abbrev pub AllPrintable : List ℤ → Type 0
AllPrintable = All (λ i. is_printable i ≡ true)

pub pairs_ends : (ids : List ℤ) → AllPrintable ids → IsDecided (check_pairs ids)
unfolding check_pairs
pairs_ends [] p = (λ h. cc, λ h. cc)
pairs_ends (a ∷ []) p = (λ h. cc, λ h. cc)
pairs_ends (a ∷ b ∷ ids) (one, (two, more)) =
    let ih = pairs_ends (b ∷ ids) (two, more) in
    (λ h. ground (arith, ih.0), λ h. ground (arith, ih.1))

members_ends :
    (domain : Bytes) (ms : List GenesisMemberV1)
    → IsPrintableDicts (member_dicts ms)
    → IsDecided (check_members domain (member_dicts ms))
unfolding check_members
members_ends domain [] p = (λ h. cc, λ h. cc)
members_ends domain (m ∷ ms) ((id, _), more) =
    let ih = members_ends domain ms more in (λ h. ground (arith, ih.0), λ h. ground (arith, ih.1))

AllPrintable-node_ids :
    (ms : List GenesisMemberV1) → IsPrintableDicts (member_dicts ms) → AllPrintable (node_ids ms)
AllPrintable-node_ids [] p = tt
AllPrintable-node_ids (m ∷ ms) ((id, _), more) = (id, AllPrintable-node_ids ms more)

pub genesis_ends :
    (g : GenesisV1)
    → IsPrintable (dict_of (versioned genesis_v1) g)
    → IsDecided (validate Name.genesis_v1 (dict_of (versioned genesis_v1) g))
unfolding validate check_structure check_genesis check_ascending
genesis_ends g p =
    let version = p.0 in
    let max_nodes = p.1.1.1.0 in
    let ids = ids_of-member_dicts g.members in
    let pairs = pairs_ends (node_ids g.members) (AllPrintable-node_ids g.members p.1.1.1.1.0) in
    let each = members_ends g.trust_domain g.members p.1.1.1.1.0 in
    (λ h. ground (arith, pairs.0, each.0), λ h. ground (arith, pairs.1, each.1))
