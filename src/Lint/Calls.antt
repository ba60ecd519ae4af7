-- ===== src/Lint/Calls.antt =====
-- What `checkMarshal` of analyzer.go reports, and how `calleeFunc` resolves a call.
use canonical.Lint.Ranges.{suppressed-Uncovered, Uncovered, preorder_iff}
use canonical.Lint.Input.{
  other_node, other_object, other_expr, func, paren, call_expr, selector, range_stmt, unparen,
  Package, Object, Node, ident, Diagnostic, Pass, Expr,
}
use canonical.Lint.Keys.{contains_iff}
use canonical.Lint.{
  call_message, banned_calls, allowed, resolved_rule, check_marshal, call_rule, called, callee_func,
  as_func, Text,
}
use canonical.Prelude.{none, ◌∷◌, refl, arith, Any-iff, ◌++◌, ◌↔◌, some, Any, ◌≡◌, Option, ℕ}

-- The identifier that an expression calls, behind parentheses and selectors.
abbrev pub Names : Expr → ℕ → Type 0
Names (ident y) x = y ≡ x
Names (selector e y) x = y ≡ x
Names (paren e) x = Names e x
Names (other_expr n) x = ⊥

-- `d` is due at a call of a function that is banned, by the package and the name it resolves to.
abbrev pub CallFinding : Pass → Diagnostic → Node → Type 0
CallFinding pass d (range_stmt k x pos) = ⊥
CallFinding pass d (call_expr fun pos) =
    (id : ℕ) × (pkg : Package) × (name : Text) × Names fun id
    × (pass.uses id ≡ some (func (some pkg) name))
    × Any (λ b. b ≡ pkg.path ++ (b'.' ∷ name)) banned_calls
    × Uncovered pass pos
    × (record { pos = pos; message = call_message pkg name } ≡ d)
CallFinding pass d other_node = ⊥

as_func_iff :
    (o : Option Object) (pkg : Option Package) (name : Text)
    → (as_func o ≡ some (pkg, name)) ↔ (o ≡ some (func pkg name))
unfolding as_func
as_func_iff none pkg name = (λ e. cc, λ e. cc)
as_func_iff (some other_object) pkg name = (λ e. cc, λ e. cc)
as_func_iff (some (func pkg' name')) pkg name = (λ e. ground arith, λ e. cc)

-- A call resolves through parentheses to the function that its identifier stands for.
callee_iff :
    (pass : Pass) (fun : Expr) (pkg : Option Package) (name : Text)
    → (callee_func pass fun ≡ some (pkg, name))
      ↔ ((id : ℕ) × Names fun id × (pass.uses id ≡ some (func pkg name)))
unfolding callee_func called unparen
callee_iff pass (ident x) pkg name =
    let at = as_func_iff (pass.uses x) pkg name in
    (λ e. (x, refl, at.0 e), λ (id, same, e). at.1 (rw same e))
callee_iff pass (selector f x) pkg name =
    let at = as_func_iff (pass.uses x) pkg name in
    (λ e. (x, refl, at.0 e), λ (id, same, e). at.1 (rw same e))
callee_iff pass (paren f) pkg name = callee_iff pass f pkg name
callee_iff pass (other_expr n) pkg name = (λ e. cc, λ (id, h, e). absurd h)

module _ (pass : Pass) (d : Diagnostic) where
  -- The rule for a function of a package.
  verdict_iff :
      (pos : ℕ) (pkg : Package) (name : Text)
      → (resolved_rule pass (allowed pass) pos (some (some pkg, name)) ≡ some d) ↔ (
          Any (λ b. b ≡ pkg.path ++ (b'.' ∷ name)) banned_calls
          × Uncovered pass pos
          × (record { pos = pos; message = call_message pkg name } ≡ d))
  unfolding resolved_rule
  verdict_iff pos pkg name =
      let banned = contains_iff banned_calls (pkg.path ++ (b'.' ∷ name)) in
      let free = suppressed-Uncovered pass pos in
      (
        λ e. (banned.0 (ground arith), free.0 (ground arith), ground arith),
        λ (is, uncovered, at). ground (arith, banned.1 is, free.1 uncovered),
      )

  resolved_rule_iff :
      (pos : ℕ) (o : Option (Option Package × Text))
      → (resolved_rule pass (allowed pass) pos o ≡ some d) ↔ (
          (pkg : Package) × (name : Text) × (o ≡ some (some pkg, name))
          × Any (λ b. b ≡ pkg.path ++ (b'.' ∷ name)) banned_calls
          × Uncovered pass pos
          × (record { pos = pos; message = call_message pkg name } ≡ d))
  resolved_rule_iff pos none = (λ e. unfold resolved_rule in cc, λ h. cc (h.2))
  resolved_rule_iff pos (some (none, name)) = (λ e. unfold resolved_rule in cc, λ h. cc (h.2))
  resolved_rule_iff pos (some (some pkg, name)) = (
    λ e. let h = (verdict_iff pos pkg name).0 e in (pkg, name, refl, h.0, h.1, h.2),
    λ (pkg', name', same, h0, h1, h2). rw same ((verdict_iff pos pkg' name').1 (h0, h1, h2)),
  )

  call_rule_iff : (n : Node) → (call_rule pass (allowed pass) n ≡ some d) ↔ CallFinding pass d n
  unfolding call_rule
  call_rule_iff (range_stmt k x pos) = (λ e. cc, λ h. absurd h)
  call_rule_iff (call_expr fun pos) =
      let rule = resolved_rule_iff pos (callee_func pass fun) in
      (
        λ e.
            let (pkg, name, same, is, uncovered, at) = rule.0 e in
            let (id, names, stands) = (callee_iff pass fun (some pkg) name).0 same in
            (id, pkg, name, names, stands, is, uncovered, at),
        λ (id, pkg, name, names, stands, is, uncovered, at). rule.1 (
          pkg,
          name,
          (callee_iff pass fun (some pkg) name).1 (id, names, stands),
          is,
          uncovered,
          at,
        ),
      )
  call_rule_iff other_node = (λ e. cc, λ h. absurd h)

  -- `check_marshal`, with what `allowed` collects, reports exactly this: at each call whose
  -- identifier, or selected identifier, behind any parentheses, stands for a function of a
  -- package, where path and name are banned and no directive covers the line, the message for
  -- that function.
  pub check_marshal_iff :
      Any (λ x. x ≡ d) (check_marshal pass (allowed pass)) ↔ Any (CallFinding pass d) pass.nodes
  unfolding check_marshal
  check_marshal_iff =
      let found = preorder_iff pass d (call_rule pass (allowed pass)) pass.nodes in
      let same =
        Any-iff (λ n. call_rule pass (allowed pass) n ≡ some d) (CallFinding pass d) call_rule_iff
          pass.nodes in
      (λ h. same.0 (found.0 h), λ h. found.1 (same.1 h))
