-- ===== src/CommitCert/Faults.antt =====
-- Which entry of a certificate is reported, and as what: the loop of commitcert.go.
use canonical.Prelude.{
  length-ne-zero, ◌∙◌, ◌==◌, leb_ℤ, ◌↔◌, sym, refl, inr, inl, ap, Bool-cases, ◌≢◌, none, ◌⊎◌,
  length-eq-zero, length, ◌≤ℤ◌, arith, [], ◌++◌, some, ◌≡◌, ◌∷◌, Follows, List, Option,
}
use canonical.CommitCert.Valid.{first_round, check_sigs_iff, IsEntry, IsRun, signer?}
use mathlib.Core.Path.{subst}
use canonical.Errors.{err_empty, err_length, err_order, Error}
use canonical.Signed.{signature_len}
use canonical.Signatures.{SignerSigV0}
use canonical.CommitCert.{check_sigs}

-- The entry before the ones that follow `xs`.
abbrev pub last_of : Option SignerSigV0 → List SignerSigV0 → Option SignerSigV0
last_of previous [] = previous
last_of previous (x ∷ xs) = last_of (some x) xs

-- What is wrong with an entry, behind another one or none.
pub data IsFault (previous : Option SignerSigV0) (s : SignerSigV0) : Error → Type 0 where
  not_ascending :
      (p : SignerSigV0) → previous ≡ some p → s.signer ≤ℤ p.signer → IsFault previous s err_order
  wrong_width :
      Follows (signer? previous) (s.signer ∷ [])
      → length s.value ≢ signature_len
      → IsFault previous s err_length
  no_message :
      Follows (signer? previous) (s.signer ∷ [])
      → length s.value ≡ signature_len
      → s.msg ≡ []
      → IsFault previous s err_empty

-- The first entry that is at fault, behind entries that are not.
pub record FirstFault (previous : Option SignerSigV0) (sigs : List SignerSigV0) (e : Error)
    : Type 0 where
  pub before : List SignerSigV0
  pub entry : SignerSigV0
  pub behind : List SignerSigV0
  pub split : sigs ≡ before ++ (entry ∷ behind)
  pub passed : IsRun previous before
  pub fault : IsFault (last_of previous before) entry e

next_round :
    (previous : Option SignerSigV0) (s : SignerSigV0) (sigs : List SignerSigV0)
    → Follows (signer? previous) (s.signer ∷ [])
    → IsEntry s
    → check_sigs previous (s ∷ sigs) ≡ check_sigs (some s) sigs
unfolding check_sigs
next_round none s sigs above entry =
    let w = entry.value_width in let m = entry.msg_present in ground (arith, length-eq-zero s.msg)
next_round (some p) s sigs (above, _) entry =
    let w = entry.value_width in let m = entry.msg_present in ground (arith, length-eq-zero s.msg)

reported_fault :
    (previous : Option SignerSigV0) (s : SignerSigV0) (sigs : List SignerSigV0) (e : Error)
    → IsFault previous s e
    → check_sigs previous (s ∷ sigs) ≡ some e
unfolding check_sigs
reported_fault previous s sigs e (not_ascending p at below) = rw at (ground arith)
reported_fault none s sigs e (wrong_width above width) = ground arith
reported_fault (some p) s sigs e (wrong_width (above, _) width) = ground arith
reported_fault none s sigs e (no_message above width gone) = rw gone (ground arith)
reported_fault (some p) s sigs e (no_message (above, _) width gone) = rw gone (ground arith)

-- An entry is in its place, or is reported for it.
order_cases :
    (previous : Option SignerSigV0) (s : SignerSigV0)
    → Follows (signer? previous) (s.signer ∷ []) ⊎ IsFault previous s err_order
order_cases none s = inl tt
order_cases (some p) s = elim (Bool-cases (leb_ℤ s.signer p.signer)) [
  | inl below ↦ inr (not_ascending p refl (ground arith))
  | inr above ↦ inl (ground arith, tt)
]

-- An entry in its place is complete, or is reported for what it lacks.
width_and_message :
    (previous : Option SignerSigV0) (s : SignerSigV0)
    → Follows (signer? previous) (s.signer ∷ [])
    → IsEntry s ⊎ ((e : Error) × IsFault previous s e)
width_and_message previous s above = elim (Bool-cases (length s.value == signature_len)) [
  | inr wrong ↦ inr (err_length, wrong_width above (λ w. ground arith))
  | inl right ↦ elim (Bool-cases (length s.msg == 0)) [
    | inl gone ↦
        inr (err_empty, no_message above (ground arith) (length-eq-zero s.msg (ground arith)))
    | inr there ↦
        inl
          (record { value_width = ground arith; msg_present = length-ne-zero s.msg (ground arith) })
  ]
]

nothing_passed : (previous : Option SignerSigV0) → IsRun previous []
nothing_passed none = (tt, tt, tt)
nothing_passed (some p) = (tt, tt, tt)

nil_passes : (previous : Option SignerSigV0) → check_sigs previous [] ≡ none
unfolding check_sigs
nil_passes previous = refl

-- A fault of the head is the first.
head_fault :
    (previous : Option SignerSigV0) (s : SignerSigV0) (sigs : List SignerSigV0) (e f : Error)
    → IsFault previous s f
    → check_sigs previous (s ∷ sigs) ≡ some e
    → FirstFault previous (s ∷ sigs) e
head_fault previous s sigs e f found h = record {
  before = [];
  entry = s;
  behind = sigs;
  split = refl;
  passed = nothing_passed previous;
  fault =
      let both : some f ≡ some e = sym (reported_fault previous s sigs f found) ∙ h in
      subst (IsFault previous s) (cc) found;
}

later_fault :
    (previous : Option SignerSigV0) (s : SignerSigV0) (sigs : List SignerSigV0) (e : Error)
    → Follows (signer? previous) (s.signer ∷ [])
    → IsEntry s
    → FirstFault (some s) sigs e
    → FirstFault previous (s ∷ sigs) e
later_fault previous s sigs e above good f = record {
  before = s ∷ f.before;
  entry = f.entry;
  behind = f.behind;
  split = ap (λ xs. s ∷ xs) f.split;
  passed =
      (check_sigs_iff previous (s ∷ f.before)).0
        (next_round previous s f.before above good ∙ (check_sigs_iff (some s) f.before).1 f.passed);
  fault = f.fault;
}

first_fault :
    (previous : Option SignerSigV0) (sigs : List SignerSigV0) (e : Error)
    → check_sigs previous sigs ≡ some e
    → FirstFault previous sigs e
first_fault previous [] e h = let no_ = nil_passes previous in cc
first_fault previous (s ∷ sigs) e h = elim (order_cases previous s) [
  | inr wrong ↦ head_fault previous s sigs e err_order wrong h
  | inl above ↦ elim (width_and_message previous s above) [
    | inr (f, wrong) ↦ head_fault previous s sigs e f wrong h
    | inl good ↦
        later_fault previous s sigs e above good
          (first_fault (some s) sigs e (sym (next_round previous s sigs above good) ∙ h))
  ]
]

reported_first :
    (previous : Option SignerSigV0) (before : List SignerSigV0) (s : SignerSigV0)
    (behind : List SignerSigV0) (e : Error)
    → IsRun previous before
    → IsFault (last_of previous before) s e
    → check_sigs previous (before ++ (s ∷ behind)) ≡ some e
reported_first previous [] s behind e passed fault = reported_fault previous s behind e fault
reported_first previous (x ∷ before) s behind e passed fault =
    let passes = (check_sigs_iff previous (x ∷ before)).1 passed in
    let (above, good, rest) = (first_round previous x before).0 passes in
    next_round previous x (before ++ (s ∷ behind)) above good
    ∙ reported_first (some x) before s behind e ((check_sigs_iff (some x) before).0 rest) fault

pub check_sigs_fault_iff :
    (sigs : List SignerSigV0) (e : Error) → (check_sigs none sigs ≡ some e) ↔ FirstFault none sigs e
check_sigs_fault_iff sigs e = (
  first_fault none sigs e,
  λ f.
      ap (check_sigs none) f.split
      ∙ reported_first none f.before f.entry f.behind e f.passed f.fault,
)
