-- ===== src/Lint/Run.antt =====
-- What `run` of analyzer.go reports.
use canonical.Prelude.{
  ◌∙◌, none, ap, refl, or_iff, Any-append, inr, false, ◌⊎◌, ◌∷◌, inl, [], ◌↔◌, true, some,
  if◌then◌else◌, ◌≡◌, Any, Option, List, Bool,
}
use canonical.Lint.{
  contains, check_marshal, check_map_range, hash_pkgs, allowed, run_core, run, package_hashes, Text,
}
use canonical.Lint.Ranges.{check_map_range_iff, RangeFinding}
use canonical.Lint.Keys.{contains_iff}
use canonical.Lint.Calls.{check_marshal_iff, CallFinding}
use canonical.Lint.Input.{Diagnostic, Pass}
use mathlib.Core.Bool.{false≢true}

-- One of the hash packages is imported.
abbrev pub Hashes : List Text → Type 0
Hashes = Any (λ imp. Any (λ h. h ≡ imp) hash_pkgs)

package_hashes_iff : (imports : List Text) → (package_hashes imports ≡ true) ↔ Hashes imports
unfolding package_hashes
package_hashes_iff [] = (λ e. cc, λ h. absurd h)
package_hashes_iff (imp ∷ imports) =
    let one = contains_iff hash_pkgs imp in
    let ih = package_hashes_iff imports in
    let either = or_iff (contains hash_pkgs imp) (package_hashes imports) in
    (
      λ e. elim (either.0 e) [ inl here ↦ inl (one.0 here) | inr later ↦ inr (ih.0 later) ],
      λ h. either.1 (elim h [ inl here ↦ inl (one.1 here) | inr later ↦ inr (ih.1 later) ]),
    )

-- What stands under a test in `run`.
guarded_iff :
    (b : Bool) (d : Diagnostic) (ds : List Diagnostic)
    → Any (λ x. x ≡ d) (if b then ds else []) ↔ ((b ≡ true) × Any (λ x. x ≡ d) ds)
guarded_iff true d ds = (λ h. (refl, h), λ (_, h). h)
guarded_iff false d ds = (λ h. absurd h, λ (e, _). absurd (false≢true e))

-- The rule of the deterministic core is on: `compiled` is the flag's pattern.
abbrev pub InCore : Option (Text → Bool) → Pass → Type 0
InCore compiled pass = (core : Text → Bool) × (compiled ≡ some core) × (core pass.pkg_path ≡ true)

-- `d` is due in the package, under one of the two rules.
abbrev pub IsDue : Option (Text → Bool) → Pass → Diagnostic → Type 0
IsDue compiled pass d =
    (Hashes pass.imports × Any (CallFinding pass d) pass.nodes)
    ⊎ (InCore compiled pass × Any (RangeFinding pass d) pass.nodes)

module _ (pass : Pass) where
  abbrev reported_calls : List Diagnostic
  reported_calls = if package_hashes pass.imports then check_marshal pass (allowed pass) else []

  calls_iff :
      (d : Diagnostic)
      → Any (λ x. x ≡ d) reported_calls
        ↔ (Hashes pass.imports × Any (CallFinding pass d) pass.nodes)
  calls_iff d =
      let guarded =
        guarded_iff (package_hashes pass.imports) d (check_marshal pass (allowed pass)) in
      let hashes = package_hashes_iff pass.imports in
      let found = check_marshal_iff pass d in
      (
        λ h. let (e, more) = guarded.0 h in (hashes.0 e, found.0 more),
        λ (h, more). guarded.1 (hashes.1 h, found.1 more),
      )

  ranges_iff :
      (core : Text → Bool) (d : Diagnostic)
      → Any (λ x. x ≡ d) (if core pass.pkg_path then check_map_range pass (allowed pass) else [])
        ↔ (InCore (some core) pass × Any (RangeFinding pass d) pass.nodes)
  ranges_iff core d =
      let guarded = guarded_iff (core pass.pkg_path) d (check_map_range pass (allowed pass)) in
      let found = check_map_range_iff pass d in
      (
        λ h. let (e, more) = guarded.0 h in ((core, refl, e), found.0 more),
        λ ((core', same, e), more).
            let at : core pass.pkg_path ≡ core' pass.pkg_path =
              let one : core ≡ core' = cc in ap (λ (f : Text → Bool). f pass.pkg_path) one in
            guarded.1 (at ∙ e, found.1 more),
      )

  run_core_iff :
      (detpath : Text) (compiled : Option (Text → Bool)) (d : Diagnostic)
      → Any (λ x. x ≡ d) (run_core detpath pass (allowed pass) reported_calls compiled).0
        ↔ IsDue compiled pass d
  unfolding run_core
  run_core_iff detpath none d =
      let calls = calls_iff d in
      (λ h. inl (calls.0 h), λ h. elim h [ inl due ↦ calls.1 due | inr ((core, e, _), _) ↦ cc ])
  run_core_iff detpath (some core) d =
      let calls = calls_iff d in
      let ranges = ranges_iff core d in
      let both =
        Any-append (λ x. x ≡ d) reported_calls
          (if core pass.pkg_path then check_map_range pass (allowed pass) else []) in
      (
        λ h. elim (both.0 h) [ inl call ↦ inl (calls.0 call) | inr range ↦ inr (ranges.0 range) ],
        λ h. both.1 (elim h [ inl due ↦ inl (calls.1 due) | inr due ↦ inr (ranges.1 due) ]),
      )

  -- `run` reports exactly the diagnostics that are due: those of calls of banned functions, if
  -- the package imports a hash, and those of ranges over maps, if the pattern compiles and
  -- matches the package's path; each only where no directive with a reason covers its line.
  pub run_iff :
      (compile : Text → Option (Text → Bool)) (detpath : Text) (d : Diagnostic)
      → Any (λ x. x ≡ d) (run compile detpath pass).0 ↔ IsDue (compile detpath) pass d
  unfolding run
  run_iff compile detpath d = run_core_iff detpath (compile detpath) d
