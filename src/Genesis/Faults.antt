-- ===== src/Genesis/Faults.antt =====
-- Which member of a genesis is reported, and as what: the loop of genesis.go.
use canonical.Genesis.Rounds.{IsFault, next_round, reported_fault, round_cases}
use canonical.Prelude.{
  ap, ◌∙◌, ◌↔◌, sym, refl, inr, inl, none, ◌++◌, some, [], ◌≡◌, ◌∷◌, List, Option, Bytes,
}
use canonical.Errors.{Error}
use canonical.Genesis.{check_members, GenesisMemberV1}
use mathlib.Core.Path.{subst}
use canonical.Genesis.Valid.{IsRun, first_round, check_members_iff}

-- The member before the ones that follow `xs`.
abbrev pub last_of : Option GenesisMemberV1 → List GenesisMemberV1 → Option GenesisMemberV1
last_of previous [] = previous
last_of previous (x ∷ xs) = last_of (some x) xs

module _ (domain : Bytes) where
  -- The first member that is at fault, behind members that are not.
  pub record FirstFault (previous : Option GenesisMemberV1) (members : List GenesisMemberV1)
      (e : Error) : Type 0 where
    pub before : List GenesisMemberV1
    pub member : GenesisMemberV1
    pub behind : List GenesisMemberV1
    pub split : members ≡ before ++ (member ∷ behind)
    pub passed : IsRun domain previous before
    pub fault : IsFault domain (last_of previous before) member e

  nothing_passed : (previous : Option GenesisMemberV1) → IsRun domain previous []
  nothing_passed none = (tt, tt, tt)
  nothing_passed (some p) = (tt, tt, tt)

  nil_passes : (previous : Option GenesisMemberV1) → check_members domain previous [] ≡ none
  unfolding check_members
  nil_passes previous = refl

  -- A fault of the head is the first.
  head_fault :
      (previous : Option GenesisMemberV1) (m : GenesisMemberV1) (members : List GenesisMemberV1)
      (e f : Error)
      → IsFault domain previous m f
      → check_members domain previous (m ∷ members) ≡ some e
      → FirstFault previous (m ∷ members) e
  head_fault previous m members e f found h = record {
    before = [];
    member = m;
    behind = members;
    split = refl;
    passed = nothing_passed previous;
    fault =
        let both : some f ≡ some e = sym (reported_fault domain previous m members f found) ∙ h in
        subst (IsFault domain previous m) (cc) found;
  }

  first_fault :
      (previous : Option GenesisMemberV1) (members : List GenesisMemberV1) (e : Error)
      → check_members domain previous members ≡ some e
      → FirstFault previous members e
  first_fault previous [] e h = let no_ = nil_passes previous in cc
  first_fault previous (m ∷ members) e h = elim (round_cases domain previous m) [
    | inr (f, wrong) ↦ head_fault previous m members e f wrong h
    | inl (above, good) ↦
        let found =
          first_fault (some m) members e
            (sym (next_round domain previous m members above good) ∙ h) in
        record {
          before = m ∷ found.before;
          member = found.member;
          behind = found.behind;
          split = ap (λ xs. m ∷ xs) found.split;
          passed = (check_members_iff domain previous (m ∷ found.before)).0 (
              next_round domain previous m found.before above good
              ∙ (check_members_iff domain (some m) found.before).1 found.passed);
          fault = found.fault;
        }
  ]

  reported_first :
      (previous : Option GenesisMemberV1) (before : List GenesisMemberV1) (m : GenesisMemberV1)
      (behind : List GenesisMemberV1) (e : Error)
      → IsRun domain previous before
      → IsFault domain (last_of previous before) m e
      → check_members domain previous (before ++ (m ∷ behind)) ≡ some e
  reported_first previous [] m behind e passed fault =
      reported_fault domain previous m behind e fault
  reported_first previous (x ∷ before) m behind e passed fault =
      let passes = (check_members_iff domain previous (x ∷ before)).1 passed in
      let (above, good, rest) = (first_round domain previous x before).0 passes in
      next_round domain previous x (before ++ (m ∷ behind)) above good
      ∙ reported_first (some x) before m behind e
          ((check_members_iff domain (some x) before).0 rest) fault

  pub check_members_fault_iff :
      (members : List GenesisMemberV1) (e : Error)
      → (check_members domain none members ≡ some e) ↔ FirstFault none members e
  check_members_fault_iff members e = (
    first_fault none members e,
    λ f.
        ap (check_members domain none) f.split
        ∙ reported_first none f.before f.member f.behind e f.passed f.fault,
  )
