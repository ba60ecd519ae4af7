-- ===== src/Lint/Ranges.antt =====
-- What `checkMapRange` of analyzer.go reports.
use canonical.Prelude.{
  ap, [], Bool-cases, ◌∙◌, inr, ◌⊎◌, sym, none, inl, arith, ◌∷◌, refl, Any-iff, ◌↔◌, true, some,
  false, List, ◌≡◌, Option, Any, ℕ,
}
use canonical.Lint.Input.{
  other_node, call_expr, range_stmt, other_type, map_type, Node, named, Diagnostic, underlying,
  Pass, GoType,
}
use canonical.Lint.Directives.{suppressed_iff, Covers}
use canonical.Lint.{
  reported, range_message, typed_rule, range_rule, preorder, check_map_range, allowed, suppressed,
  is_map,
}
use mathlib.Core.Bool.{false≢true}

-- A map type, whatever names it was given.
abbrev pub IsMapType : GoType → Type 0
IsMapType map_type = Unit
IsMapType other_type = ⊥
IsMapType (named t) = IsMapType t

underlying_map_iff : (t : GoType) → (is_map (underlying t) ≡ true) ↔ IsMapType t
unfolding underlying
underlying_map_iff map_type = (λ e. tt, λ h. refl)
underlying_map_iff other_type = (λ e. cc, λ h. absurd h)
underlying_map_iff (named t) = underlying_map_iff t

-- No directive with a reason covers the position.
abbrev pub Uncovered : Pass → ℕ → Type 0
Uncovered pass pos = ¬ (Any (Any (Any (Covers pass.position (pass.position pos)))) pass.files)

pub suppressed-Uncovered :
    (pass : Pass) (pos : ℕ) → (suppressed pass (allowed pass) pos ≡ false) ↔ Uncovered pass pos
suppressed-Uncovered pass pos =
    let covered = suppressed_iff pass pos in
    (
      λ e h. false≢true (sym e ∙ covered.1 h),
      λ h. elim (Bool-cases (suppressed pass (allowed pass) pos)) [
        | inl yes_ ↦ absurd (h (covered.0 yes_))
        | inr no_ ↦ no_
      ],
    )

-- `d` is due at a `for` over a map that names the key.
abbrev pub RangeFinding : Pass → Diagnostic → Node → Type 0
RangeFinding pass d (range_stmt none x pos) = ⊥
RangeFinding pass d (range_stmt (some k) x pos) =
    ((t : GoType) × (pass.type_of x ≡ some t) × IsMapType t)
    × Uncovered pass pos
    × (record { pos = pos; message = range_message } ≡ d)
RangeFinding pass d (call_expr fun pos) = ⊥
RangeFinding pass d other_node = ⊥

module _ (pass : Pass) (d : Diagnostic) where
  typed_rule_iff :
      (pos : ℕ) (o : Option GoType)
      → (typed_rule pass (allowed pass) pos o ≡ some d) ↔ (
          ((t : GoType) × (o ≡ some t) × IsMapType t)
          × Uncovered pass pos
          × (record { pos = pos; message = range_message } ≡ d))
  unfolding typed_rule
  typed_rule_iff pos none = (λ e. cc, λ ((t, same, _), _, _). cc)
  typed_rule_iff pos (some t) =
      let maps = underlying_map_iff t in
      let free = suppressed-Uncovered pass pos in
      (
        λ e. ((t, refl, maps.0 (ground arith)), free.0 (ground arith), ground arith),
        λ ((u, same, is), uncovered, at).
            let of_u : is_map (underlying u) ≡ true = (underlying_map_iff u).1 is in
            let same' : t ≡ u = cc in ground (arith, rw (← same') at of_u, free.1 uncovered),
      )

  range_rule_iff : (n : Node) → (range_rule pass (allowed pass) n ≡ some d) ↔ RangeFinding pass d n
  unfolding range_rule
  range_rule_iff (range_stmt none x pos) = (λ e. cc, λ h. absurd h)
  range_rule_iff (range_stmt (some k) x pos) = typed_rule_iff pos (pass.type_of x)
  range_rule_iff (call_expr fun pos) = (λ e. cc, λ h. absurd h)
  range_rule_iff other_node = (λ e. cc, λ h. absurd h)

  reported_iff :
      (o : Option Diagnostic) (ds : List Diagnostic)
      → Any (λ x. x ≡ d) (reported o ds) ↔ ((o ≡ some d) ⊎ Any (λ x. x ≡ d) ds)
  reported_iff none ds = (λ h. inr h, λ h. elim h [ inl e ↦ cc | inr later ↦ later ])
  reported_iff (some x) ds = (
    λ h. elim h [ inl e ↦ inl (ap some e) | inr later ↦ inr later ],
    λ h. elim h [ inl e ↦ inl (cc) | inr later ↦ inr later ],
  )

  pub preorder_iff :
      (rule : Node → Option Diagnostic) (nodes : List Node)
      → Any (λ x. x ≡ d) (preorder rule nodes) ↔ Any (λ n. rule n ≡ some d) nodes
  unfolding preorder
  preorder_iff rule [] = (λ h. h, λ h. h)
  preorder_iff rule (n ∷ nodes) =
      let ih = preorder_iff rule nodes in
      let one = reported_iff (rule n) (preorder rule nodes) in
      (
        λ h. elim (one.0 h) [ inl e ↦ inl e | inr later ↦ inr (ih.0 later) ],
        λ h. one.1 (elim h [ inl e ↦ inl e | inr later ↦ inr (ih.1 later) ]),
      )

  -- `check_map_range`, with what `allowed` collects, reports exactly this: at each range
  -- statement that names a key, over an expression of a known type that is a map behind any
  -- names, where no directive covers the line, the message for ranges.
  pub check_map_range_iff :
      Any (λ x. x ≡ d) (check_map_range pass (allowed pass)) ↔ Any (RangeFinding pass d) pass.nodes
  unfolding check_map_range
  check_map_range_iff =
      let found = preorder_iff (range_rule pass (allowed pass)) pass.nodes in
      let same =
        Any-iff (λ n. range_rule pass (allowed pass) n ≡ some d) (RangeFinding pass d)
          range_rule_iff pass.nodes in
      (λ h. same.0 (found.0 h), λ h. found.1 (same.1 h))
